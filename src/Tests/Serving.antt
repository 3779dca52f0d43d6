-- ===== src/Tests/Serving.antt =====
-- The handlers, the dispatcher and the session.
use cs.Prelude.{
  ◌≡◌, ◌≢◌, ◌⊎◌, refl, arith, false, [], ◌∷◌, ◌++◌, none, some, text_eq, Text, codes, length, ◌==◌,
}
use cs.OrderedMap
use cs.OrderedMap.{OrderedMap}
use cs.Strings.{strip_slashes, back_is}
use cs.Http.Request.{Request, get_req}
use cs.Http.RequestParser.{initial}
use cs.Http.Reply.{value, to_buffers}
use cs.Http.Reply.Laws.{HasContentLength}
use cs.Config.Syntax.{NginxConfig, nil, cons, NginxConfigStatement, statement, block}
use cs.Handler.{echo_request_handler, health_handler}
use cs.Handler.Fixed.{handle_echo}
use cs.Handler.Static.{Files}
use cs.Handler.Virtual.{replied}
use cs.Handler.Status.{Statics, count_request, codes_of, handle_status}
use cs.Handler.Status.Laws.{handle_status_lem}
use cs.Dispatcher.{RequestHandlerDispatcher, construct, dispatch}
use cs.Dispatcher.Dispatch.{IsLongest, IsUnmatched, dispatch_lem}
use cs.Dispatcher.Creation.{HasStrippedKeys, construct-HasStrippedKeys}
use cs.Session.{Session, Server, Ending, handler_hangs, handle_read, returned, ends_with_crlf}
use cs.Session.Serving.{received, served, recorded, handle_read-served}
use cs.Session.BareNewlines.{crlf, bare_session, behind, handle_read-bare}
use cs.Tests.Parsing.{fresh_request, echo_head, echo_head-IsWellFormed}
use cs.Http.RequestParser.RoundTrip.{render, parsed_request}
use cs.Prelude.Int.{pos}
use cs.Session.Endings.{handle_read-ends}
use cs.Tests.Sample.{sample_boost, All-eq-false}

abbrev echo_request : Request
echo_request = record {
  method_ = get_req;
  uri_ = codes "/echo/";
  headers_ = [];
  body_ = codes "GET /echo/ HTTP/1.1\r\n\r\n";
  http_version_major = 1;
  http_version_minor = 1;
}

-- A file system with one file, and a Markdown library that changes nothing.
abbrev sample_files : Files
sample_files = record {
  exists = λ path. some (text_eq (codes "../data/info.txt") path);
  is_regular_file = λ path. some (text_eq (codes "../data/info.txt") path);
  read = λ path. some (codes "line\n");
  markdown = λ text. text;
}

abbrev sample_statics : Statics
sample_statics = record {
  num_requests = 3;
  posts = [];
  request_code_received_ = OrderedMap.insert (codes "/echo") (200 ∷ 404 ∷ []) [];
}

handle_status_lem_example :
    (value (handle_status [] echo_request sample_statics).0.code_ ≡ 200)
    × HasContentLength (handle_status [] echo_request sample_statics).0
    × ((handle_status [] echo_request sample_statics).1.num_requests ≡ sample_statics.num_requests)
    × (codes_of
          (codes "/echo")
          (handle_status [] echo_request sample_statics).1.request_code_received_
        ≡ codes_of (codes "/echo") sample_statics.request_code_received_)
handle_status_lem_example = handle_status_lem [] echo_request sample_statics (codes "/echo")

abbrev pub sample_dispatcher : RequestHandlerDispatcher
sample_dispatcher = record {
  handlers_ =
      OrderedMap.insert (codes "/echo") (some echo_request_handler)
        (OrderedMap.insert (codes "/") (some health_handler) []);
  request_handler_uri = [];
  num_handlers = 2;
}

dispatch_lem_example :
    IsLongest
      (strip_slashes (codes "/echo/a"))
      sample_dispatcher.handlers_
      (dispatch sample_dispatcher (codes "/echo/a"))
    ⊎ (IsUnmatched (strip_slashes (codes "/echo/a")) sample_dispatcher.handlers_
        × (dispatch sample_dispatcher (codes "/echo/a") ≡ none))
dispatch_lem_example = dispatch_lem sample_dispatcher (codes "/echo/a")

abbrev echo_location : NginxConfigStatement
echo_location =
    statement (codes "location" ∷ codes "\"/echo/\"" ∷ codes "EchoHandler" ∷ []) (block nil)

abbrev pub echo_config : NginxConfig
echo_config = cons (statement (codes "server" ∷ []) (block (cons echo_location nil))) nil

abbrev pub echo_dispatcher : RequestHandlerDispatcher
echo_dispatcher = record {
  handlers_ = (codes "/echo", some echo_request_handler) ∷ [];
  request_handler_uri = (codes "/echo", codes "echo handler") ∷ [];
  num_handlers = 1;
}

construct-HasStrippedKeys_example : HasStrippedKeys echo_dispatcher
construct-HasStrippedKeys_example =
    construct-HasStrippedKeys sample_boost echo_config {d = echo_dispatcher}
      (unfold construct OrderedMap.insert in refl)

abbrev sample_server : Server
sample_server = record {
  boost = sample_boost;
  dispatcher_ = sample_dispatcher;
  handle_request = λ h request_ statics. replied (handle_echo request_) statics;
}

-- A line of a request, which the parser takes for its beginning.
abbrev sample_session : Session
sample_session = record {
  data_ = codes "GET /echo HTTP/1.1\r\n" ++ (0 ∷ []);
  request_ = record echo_request { uri_ = [] };
  request_parser_ = initial;
}

handle_read-ends_example :
    (e : Ending) × (handle_read 2 sample_server false 20 sample_session sample_statics ≡ some e)
    × (e ≢ handler_hangs)
handle_read-ends_example =
    handle_read-ends sample_server false 20 sample_session sample_statics refl (λ h q statics e. cc)

-- The request `GET /e`, which the health handler gets.
handle_read-served_example :
    handle_read 1 sample_server false
      (length (render echo_head []))
      (received (render echo_head []) (codes "junk") fresh_request)
      sample_statics
    ≡ some (
        returned
          (pos 0)
          (some (to_buffers (handle_echo (parsed_request get_req echo_head [] fresh_request))))
          (served get_req echo_head [] (codes "junk") fresh_request)
          (recorded
            (codes "/e")
            (handle_echo (parsed_request get_req echo_head [] fresh_request))
            (count_request sample_statics)))
handle_read-served_example =
    handle_read-served 0 get_req echo_head [] (codes "junk") fresh_request sample_server
      health_handler sample_statics (count_request sample_statics)
      (handle_echo (parsed_request get_req echo_head [] fresh_request)) echo_head-IsWellFormed refl
      (All-eq-false (λ c. c == 0) (render echo_head []) refl) (unfold ends_with_crlf in refl)
      (unfold dispatch OrderedMap.insert in refl) refl

abbrev bare_text : Text
bare_text = codes "GET /e HTTP/1.1\nAb: c d\n\n"

-- The same request with bare newlines.
handle_read-bare_example :
    handle_read 1 sample_server false
      (length bare_text)
      (bare_session bare_text (codes "junk") fresh_request)
      sample_statics
    ≡ some (
        returned
          (pos 0)
          (some (to_buffers (handle_echo (parsed_request get_req echo_head crlf fresh_request))))
          (served get_req echo_head crlf (behind echo_head bare_text (codes "junk")) fresh_request)
          (recorded
            (codes "/e")
            (handle_echo (parsed_request get_req echo_head crlf fresh_request))
            (count_request sample_statics)))
handle_read-bare_example =
    handle_read-bare get_req echo_head bare_text (codes "junk") fresh_request 0 sample_server
      health_handler sample_statics (count_request sample_statics)
      (handle_echo (parsed_request get_req echo_head crlf fresh_request))
      (record { lines = refl; last = unfold back_is in refl; bare = unfold ends_with_crlf in refl })
      echo_head-IsWellFormed refl (All-eq-false (λ c. c == 0) (render echo_head crlf) refl)
      (omega arith) (unfold dispatch OrderedMap.insert in refl) refl
