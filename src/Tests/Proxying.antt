-- ===== src/Tests/Proxying.antt =====
-- The reverse proxy.
use cs.Prelude.{
  ℕ, zero, suc, ◌≡◌, ◌==◌, refl, arith, true, [], ◌∷◌, ◌++◌, none, some, Text, codes, length, drop,
  drop-append, starts_with, if◌then◌else◌,
}
use cs.Prelude.Int.{pos}
use cs.OrderedMap
use cs.OrderedMap.{OrderedMap}
use cs.Http.Request.{Request, unset, get_req}
use cs.Http.RequestParser.{
  initial, good, bad, expecting_newline_3, parse, Parsed, method_of, parse_method, is_control,
  is_not_token,
}
use cs.Http.RequestParser.Pieces.{at}
use cs.Http.RequestParser.RoundTrip.{parsed_request}
use cs.Http.Reply.{
  Reply, ok, moved_temporarily, internal_server_error, stock_reply, to_buffer, header_buffers,
  to_buffers,
}
use cs.Http.Reply.Laws.{HasContentLength}
use cs.Handler.ReverseProxy.{
  read_error, response, Network, handle_once, handle_proxy, on_exchange, on_resolved, uri_replace,
  last_v4,
}
use cs.Handler.ReverseProxy.External.{Libraries}
use cs.Handler.ReverseProxy.Outgoing.{
  Proxy, port_text, proxied_uri, request_type, forwarded_headers, http_request,
}
use cs.Handler.ReverseProxy.Response.{
  returned, thrown, find_text, substr, code_of, scan_status, next_byte, read_headers, read_response,
}
use cs.Handler.ReverseProxy.Replies.{handle_proxy-HasContentLength}
use cs.Handler.ReverseProxy.Redirecting.{Redirects, handle_proxy-loop, handle_proxy-NoReturn}
use cs.Handler.ReverseProxy.Wire.{joined}
use cs.Handler.ReverseProxy.ReadBack.{read_response-to_buffers}
use cs.Handler.ReverseProxy.Sending.{sent, parse-http_request, parse-http_request-unset}
use cs.Tests.Sample.{sample_boost, All-eq-false}

-- Libraries that look at the ends of their texts alone.
abbrev pub sample_libraries : Libraries
sample_libraries = record {
  boost = sample_boost;
  erase_first_copy = λ input search. drop (length search) input;
  erase_first_copy_prefix = λ search rest ne. drop-append search rest;
  trim_copy = λ s. s;
  trim_copy_plain = λ s trim. refl;
  regex_replace = λ input expression format. some (format ++ drop 2 input);
  decompress = some;
  compress = some;
}

abbrev sample_proxy : Proxy
sample_proxy = record { location_path_ = codes "/l"; proxy_dest_ = codes "h"; proxy_port_ = pos 80 }

abbrev pub proxy_request : Text → Request
proxy_request uri = record {
  method_ = get_req;
  uri_ = uri;
  headers_ = (codes "Accept", codes "x") ∷ (codes "Host", codes "y") ∷ [];
  body_ = [];
  http_version_major = 0;
  http_version_minor = 0;
}

abbrev pub silent_network : Network
silent_network = record {
  resolve = λ host port. some [];
  connect = λ endpoint. true;
  exchange = λ endpoint sent. read_error;
}

handle_proxy-HasContentLength_example :
    HasContentLength (stock_reply sample_boost internal_server_error)
handle_proxy-HasContentLength_example =
    handle_proxy-HasContentLength 1 sample_libraries (λ n. silent_network) sample_proxy
      (proxy_request (codes "/l/a")) {r = stock_reply sample_boost internal_server_error}
      (unfold handle_proxy handle_once on_resolved on_exchange port_text in refl)

-- A server that redirects each of two pages to the other.
abbrev two_pages : Network
two_pages = record {
  resolve = λ host port. some (record { address = codes "1.2.3.4"; is_v4 = true } ∷ []);
  connect = λ endpoint. true;
  exchange = λ endpoint sent. response (
      codes "HTTP/1.0 302 Moved\r\nLocation: h/"
      ++ ((if starts_with sent (codes "GET /a ") then codes "b" else codes "a")
          ++ codes "\r\n\r\n"));
}

abbrev moved_to : Text → Reply
moved_to location = record {
  code_ = moved_temporarily;
  headers_ = (codes "Location", location) ∷ [];
  body_ = [];
}

abbrev moved_text : Text → Text
moved_text location = codes "HTTP/1.0 302 Moved\r\nLocation: " ++ (location ++ codes "\r\n\r\n")

to_second :
    Redirects sample_libraries two_pages sample_proxy (proxy_request (codes "/l/a")) (codes "/l/b")
unfolding http_request proxied_uri request_type forwarded_headers last_v4 read_response find_text
    substr code_of scan_status next_byte read_headers uri_replace OrderedMap.insert
    OrderedMap.lookup port_text
to_second = record {
  text = moved_text (codes "h/b");
  reply = moved_to (codes "h/b");
  answered = record { endpoints = _; resolved = refl; connected = refl; exchanged = refl };
  parsed = refl;
  redirected = refl;
  replaced = refl;
  changed = refl;
  moved = refl;
}

to_first :
    Redirects sample_libraries two_pages sample_proxy (proxy_request (codes "/l/b")) (codes "/l/a")
unfolding http_request proxied_uri request_type forwarded_headers last_v4 read_response find_text
    substr code_of scan_status next_byte read_headers uri_replace OrderedMap.insert
    OrderedMap.lookup port_text
to_first = record {
  text = moved_text (codes "h/a");
  reply = moved_to (codes "h/a");
  answered = record { endpoints = _; resolved = refl; connected = refl; exchanged = refl };
  parsed = refl;
  redirected = refl;
  replaced = refl;
  changed = refl;
  moved = refl;
}

-- The two pages, in turn.
abbrev turns : ℕ → Text
turns zero = codes "/l/a"
turns (suc zero) = codes "/l/b"
turns (suc (suc n)) = turns n

turns-Redirects :
    (n : ℕ)
    → Redirects sample_libraries two_pages sample_proxy (proxy_request (turns n)) (turns (suc n))
turns-Redirects zero = to_second
turns-Redirects (suc zero) = to_first
turns-Redirects (suc (suc n)) = turns-Redirects n

handle_proxy-loop_example :
    handle_proxy 100 sample_libraries (λ n. two_pages) sample_proxy (proxy_request (codes "/l/a"))
    ≡ none
handle_proxy-loop_example =
    handle_proxy-loop 100 sample_libraries (λ n. two_pages) sample_proxy
      (proxy_request (codes "/l/a")) turns turns-Redirects

abbrev small_page : Reply
small_page = record {
  code_ = ok;
  headers_ = (codes "Content-Length", codes "2") ∷ (codes "Content-Type", codes "text/html") ∷ [];
  body_ = codes "hi";
}

read_response-to_buffers_example :
    read_response sample_libraries (joined (to_buffers small_page)) ≡ returned small_page
read_response-to_buffers_example =
    read_response-to_buffers sample_libraries small_page tt (ground arith) (ground arith)
      (unfold to_buffers to_buffer header_buffers in omega arith)

parse-http_request_example :
    parse initial
      (proxy_request [])
      (http_request sample_libraries sample_proxy (proxy_request (codes "/l/a"))
        ++ (0 ∷ codes "junk"))
      (length (http_request sample_libraries sample_proxy (proxy_request (codes "/l/a"))))
    ≡ some (record {
      result = good;
      rest = [];
      parser = at expecting_newline_3 [] [];
      request =
          parsed_request get_req
            (sent sample_libraries sample_proxy (proxy_request (codes "/l/a")))
            []
            (proxy_request []);
    })
parse-http_request_example =
    parse-http_request sample_libraries sample_proxy (proxy_request (codes "/l/a"))
      (proxy_request []) (codes "junk") tt (unfold proxied_uri is_control in ground arith)
      (unfold is_control in ground arith) (unfold is_not_token is_control in ground arith)
      (All-eq-false (λ c. c == 0)
        (http_request sample_libraries sample_proxy (proxy_request (codes "/l/a")))
        (unfold http_request proxied_uri request_type forwarded_headers in refl))

-- A request with the method `FOO`, in a session that has read nothing.
abbrev foo_request : Request
foo_request = record (proxy_request (codes "/l/a")) { method_ = unset }

parse-http_request-unset_example :
    (after : Parsed) × (parse initial
        (proxy_request [])
        (http_request sample_libraries sample_proxy (parse_method foo_request (codes "FOO /l/a"))
          ++ (0 ∷ codes "junk"))
        (length (
          http_request sample_libraries sample_proxy (parse_method foo_request (codes "FOO /l/a"))))
      ≡ some after)
    × (after.result ≡ bad)
parse-http_request-unset_example =
    parse-http_request-unset sample_libraries sample_proxy foo_request (proxy_request [])
      (codes "FOO /l/a") (codes "junk") refl (unfold method_of in refl)
      (All-eq-false (λ c. c == 0)
        (http_request sample_libraries sample_proxy (parse_method foo_request (codes "FOO /l/a")))
        (unfold http_request proxied_uri request_type forwarded_headers parse_method in refl))

-- A server that answers with one line and no carriage return.
abbrev bare_network : Network
bare_network = record {
  resolve = λ host port. some [];
  connect = λ endpoint. true;
  exchange = λ endpoint sent. response (codes "HTTP/1.1 200 OK\n");
}

handle_proxy-NoReturn_example :
    handle_proxy 1 sample_libraries (λ n. bare_network) sample_proxy (proxy_request (codes "/l/a"))
    ≡ some thrown
handle_proxy-NoReturn_example =
    handle_proxy-NoReturn 0 sample_libraries (λ n. bare_network) sample_proxy
      (proxy_request (codes "/l/a")) (codes "HTTP/1.1 200 OK\n")
      (record { endpoints = []; resolved = refl; connected = refl; exchanged = refl }) (omega arith)
      (All-eq-false (λ c. c == b'\r') (codes "HTTP/1.1 200 OK\n") refl)
