-- ===== src/Handler/Fixed.antt =====
-- The handlers whose reply depends on the request alone (src/request_handler):
-- echo_request_handler.cc, health_handler.cc, bad_request_handler.cc, not_found_handler.cc and
-- redirect_handler.cc.
pub mod Laws
use cs.Prelude.{ℕ, ◌+◌, ◌-◌, ◌%◌, ◌^◌, [], ◌++◌, Text, codes, length, take}
use cs.Decimal.{to_string}
use cs.OrderedMap
use cs.Http.Request.{Request}
use cs.Http.Reply.{Reply, ok, bad_request, not_found, moved_temporarily, content_headers}

-- A `size_t` difference: it wraps around below 0.
abbrev pub size_minus : ℕ → ℕ → ℕ
size_minus a b = (a + 2 ^ 64 - b) % 2 ^ 64

-- `EchoRequestHandler::HandleRequest`
unfoldable pub handle_echo : Request → Reply
handle_echo request_ =
    let content_size = size_minus (length request_.body_) 2 in
    record {
      code_ = ok;
      headers_ = content_headers (to_string content_size) (codes "text/plain");
      body_ = take content_size request_.body_;
    }

-- `HealthHandler::HandleRequest`
unfoldable pub handle_health : Request → Reply
handle_health request_ = record {
  code_ = ok;
  headers_ = content_headers (to_string (length (codes "OK"))) (codes "text/plain");
  body_ = codes "OK";
}

abbrev bad_request_page : Text
bad_request_page =
    codes
      "<html><head><title>Bad Request</title></head><body><h1>400 Bad Request</h1></body></html>"

-- `BadRequestHandler::HandleRequest`
unfoldable pub handle_bad_request : Request → Reply
handle_bad_request request_ = record {
  code_ = bad_request;
  headers_ = content_headers (to_string (length bad_request_page)) (codes "text/html");
  body_ = bad_request_page;
}

abbrev not_found_page : Text
not_found_page =
    codes "<html><head><title>Not Found</title></head><body><h1>404 Not Found</h1></body></html>"

-- `NotFoundRequestHandler::HandleRequest`
unfoldable pub handle_not_found : Request → Reply
handle_not_found request_ = record {
  code_ = not_found;
  headers_ = content_headers (to_string (length not_found_page)) (codes "text/html");
  body_ = not_found_page;
}

abbrev pub location_of : Text → Text
location_of host_ = codes "http://" ++ (host_ ++ codes "/static/index.html")

-- `RedirectHandler::HandleRequest`
unfoldable pub handle_redirect : Text → Request → Reply
handle_redirect host_ request_ = record {
  code_ = moved_temporarily;
  headers_ = OrderedMap.insert (codes "Location") (location_of host_) [];
  body_ = codes "HTTP/1.1 302 Found\r\nLocation: " ++ (location_of host_ ++ codes "\r\n\r\n");
}
