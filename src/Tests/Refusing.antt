-- ===== src/Tests/Refusing.antt =====
-- A session that gets no request.
use cs.Prelude.{◌≡◌, ◌≢◌, refl, false, [], ◌∷◌, some, ◌==◌, Text, codes, length}
use cs.Http.RequestParser.{initial, bad, is_not_token, consume_in, feed}
use cs.Http.RequestParser.Grammar.{Head, IsHead, render_head, apply_head}
use cs.Http.RequestParser.Exactness.{feed_iff}
use cs.Handler.{bad_request_handler}
use cs.Handler.Fixed.{handle_bad_request}
use cs.Handler.Virtual.{handle_request}
use cs.Dispatcher.{dispatch}
use cs.Session.{Server, handle_read, ends_with_crlf}
use cs.Session.Serving.{received}
use cs.Session.Refusing.{Refused, handle_read-Refused}
use cs.Tests.Sample.{sample_boost, All-eq-false}
use cs.Tests.Parsing.{fresh_request}
use cs.Tests.Handling.{sample_environment, first_statics}

abbrev refusing : Server
refusing = record {
  boost = sample_boost;
  dispatcher_ = record {
    handlers_ = (codes "/badrequest", some bad_request_handler) ∷ [];
    request_handler_uri = [];
    num_handlers = 1;
  };
  handle_request = handle_request sample_environment;
}

abbrev hello : Text
hello = codes "hello\r\n"

hello-bad : (feed initial fresh_request hello).result ≡ bad
unfolding feed consume_in is_not_token
hello-bad = refl

hello_no_head : (h : Head) (rest : Text) → IsHead [] h → hello ≢ render_head h rest
hello_no_head h rest w e =
    let (accepted, left, behind) =
      (feed_iff fresh_request (apply_head h fresh_request) hello rest).1 (h, w, e, refl) in
    cc (hello-bad, accepted)

handle_read-Refused_example : Refused (handle_bad_request fresh_request) first_statics (
    handle_read 2 refusing false
      (length hello)
      (received hello (codes "junk") fresh_request)
      first_statics)
unfolding handle_request handle_bad_request
handle_read-Refused_example =
    handle_read-Refused refusing bad_request_handler (handle_bad_request fresh_request)
      (unfold dispatch in refl) (λ q statics. refl) hello (codes "junk") fresh_request first_statics
      (unfold ends_with_crlf in refl) (All-eq-false (λ c. c == 0) hello refl) hello_no_head
