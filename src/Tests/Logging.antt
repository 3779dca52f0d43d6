-- ===== src/Tests/Logging.antt =====
-- The log.
use cs.Prelude.{◌≡◌, refl, [], some, codes, ◌-◌, ◌^◌}
use cs.Http.Request.{Request}
use cs.Decimal.{to_string}
use cs.Http.Reply.{Reply, ok, value}
use cs.Http.RequestParser.{is_control, is_not_token, is_decimal, consume_in, feed}
use cs.Http.RequestParser.CharClasses.{IsPlain}
use cs.Logger.{normal, notification, warning, log, log_request, log_metrics, metrics_message}
use cs.Logger.Lines.{log_metrics-IsPlain}
use cs.Tests.Sample.{All-eq-false}
use cs.Tests.Parsing.{fresh_request}

log_warning : (log (codes "a") warning).message ≡ codes "<Warning>: a"
unfolding log
log_warning = refl

abbrev negative_version : Request
negative_version = record fresh_request { http_version_major = 2 ^ 32 - 1 }

odd_request :
    log_request negative_version (some (codes "1.2.3.4")) normal
    ≡ some (record {
      severity = normal;
      message =
          codes
            "<Normal>: Odd request received...Request received. Sender IP: 1.2.3.4 via HTTP: -1.0";
    })
unfolding log_request to_string
odd_request = refl

abbrev empty_reply : Reply
empty_reply = record { code_ = ok; headers_ = []; body_ = [] }

log_metrics-IsPlain_example :
    IsPlain (metrics_message (codes "200") (codes "/a") (codes "1.2.3.4") (codes "EchoHandler"))
unfolding to_string value
log_metrics-IsPlain_example =
    log_metrics-IsPlain (codes "GET /a\nb") fresh_request empty_reply (codes "1.2.3.4")
      (codes "EchoHandler")
      {e = record {
        severity = notification;
        message =
            metrics_message (codes "200") (codes "/a") (codes "1.2.3.4") (codes "EchoHandler");
      }}
      tt (All-eq-false is_control (codes "1.2.3.4") (unfold is_control in refl))
      (All-eq-false is_control (codes "EchoHandler") (unfold is_control in refl))
      (unfold log_metrics feed consume_in is_not_token is_control is_decimal in refl)
