-- ===== src/Logger.antt =====
-- `Logger` (include/logger/logger.h, src/logger/logger.cc): what it gives to Boost.Log.
pub mod Lines
use cs.Prelude.{ℕ, ◌-◌, ◌^◌, [], ◌∷◌, ◌++◌, Option, none, some, ltb, if◌then◌else◌, Text, codes}
use cs.Decimal.{to_string}
use cs.Http.Request.{Request}
use cs.Http.Reply.{Reply, value}

-- `severity_level`
pub data SeverityLevel : Type 0 where
  normal notification warning error critical : SeverityLevel

-- A record of Boost.Log.
pub record Entry : Type 0 where
  pub severity : SeverityLevel
  pub message : Text

-- `Logger::log`
unfoldable pub log : Text → SeverityLevel → Entry
log message normal = record { severity = normal; message = codes "<Normal>: " ++ message }
log message notification = record {
  severity = notification;
  message = codes "<Notification>: " ++ message;
}
log message warning = record { severity = warning; message = codes "<Warning>: " ++ message }
log message error = record { severity = error; message = codes "<Error>: " ++ message }
log message critical = record { severity = critical; message = codes "<Critical>: " ++ message }

-- `std::to_string` of an `int`, from its 32-bit pattern.
int_text : ℕ → Text
int_text n = if ltb n (2 ^ 31) then to_string n else b'-' ∷ to_string (2 ^ 32 - n)

abbrev request_message : Text → Request → Text
request_message address request_ =
    codes "Request received. Sender IP: "
    ++ (address
        ++ (codes " via HTTP: "
            ++ (int_text request_.http_version_major
                ++ (codes "." ++ int_text request_.http_version_minor))))

-- The `switch` of `logRequest`.
abbrev request_entry : Text → SeverityLevel → Entry
request_entry msg notification = record {
  severity = notification;
  message = codes "<Notification>: " ++ msg;
}
request_entry msg error = record { severity = error; message = codes "<Error>: " ++ msg }
request_entry msg _ = record {
  severity = normal;
  message = codes "<Normal>: " ++ (codes "Odd request received..." ++ msg);
}

-- `Logger::logRequest`, on the text of the address of the socket's other end. With no such end it
-- throws: `none`.
unfoldable pub log_request : Request → Option Text → SeverityLevel → Option Entry
unfolding int_text
log_request request_ none severity = none
log_request request_ (some address) severity =
    some (request_entry (request_message address request_) severity)

abbrev pub metrics_message : Text → Text → Text → Text → Text
metrics_message code path address handler_name =
    codes "<Notification>: "
    ++ (codes "{ResponseMetrics} response_code:"
        ++ (code
            ++ (codes ", request_path:"
                ++ (path
                    ++ (codes ", request_ip:"
                        ++ (address ++ (codes ", handler_name:" ++ handler_name)))))))

-- `Logger::logMetrics`, on the text of the same address.
unfoldable pub log_metrics : Request → Reply → Option Text → Text → Option Entry
log_metrics request_ reply_ none handler_name = none
log_metrics request_ reply_ (some address) handler_name = some (record {
  severity = notification;
  message = metrics_message (to_string (value reply_.code_)) request_.uri_ address handler_name;
})
