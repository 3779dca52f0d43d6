-- ===== src/Http/Reply.antt =====
-- `http::server::reply` (include/http/reply.h, src/http/reply.cc).
pub mod Laws
use cs.Prelude.{ℕ, Bool, true, false, List, [], ◌∷◌, ◌++◌, ◌==◌, if◌then◌else◌, Text, codes, length}
use cs.Boost.{Boost}
use cs.Decimal.{to_string}
use cs.OrderedMap
use cs.OrderedMap.{OrderedMap}

-- `reply::status_code`. A cast from a number that no enumerator has is `other`.
pub data StatusCode : Type 0 where
  ok created accepted no_content multiple_choices moved_permanently : StatusCode
  moved_temporarily not_modified bad_request unauthorized forbidden not_found : StatusCode
  internal_server_error not_implemented bad_gateway service_unavailable : StatusCode
  other : ℕ → StatusCode

-- The enumerators' values: the conversion of a `status_code` to a number.
unfoldable pub value : StatusCode → ℕ
value ok = 200
value created = 201
value accepted = 202
value no_content = 204
value multiple_choices = 300
value moved_permanently = 301
value moved_temporarily = 302
value not_modified = 304
value bad_request = 400
value unauthorized = 401
value forbidden = 403
value not_found = 404
value internal_server_error = 500
value not_implemented = 501
value bad_gateway = 502
value service_unavailable = 503
value (other n) = n

pub record Reply : Type 0 where
  pub code_ : StatusCode
  pub headers_ : OrderedMap Text
  pub body_ : Text

-- `status_strings::to_buffer` with the strings of that namespace.
unfoldable pub to_buffer : StatusCode → Text
to_buffer ok = codes "HTTP/1.0 200 OK\r\n"
to_buffer created = codes "HTTP/1.0 201 Created\r\n"
to_buffer accepted = codes "HTTP/1.0 202 Accepted\r\n"
to_buffer no_content = codes "HTTP/1.0 204 No Content\r\n"
to_buffer multiple_choices = codes "HTTP/1.0 300 Multiple Choices\r\n"
to_buffer moved_permanently = codes "HTTP/1.0 301 Moved Permanently\r\n"
to_buffer moved_temporarily = codes "HTTP/1.0 302 Moved Temporarily\r\n"
to_buffer not_modified = codes "HTTP/1.0 304 Not Modified\r\n"
to_buffer bad_request = codes "HTTP/1.0 400 Bad Request\r\n"
to_buffer unauthorized = codes "HTTP/1.0 401 Unauthorized\r\n"
to_buffer forbidden = codes "HTTP/1.0 403 Forbidden\r\n"
to_buffer not_found = codes "HTTP/1.0 404 Not Found\r\n"
to_buffer internal_server_error = codes "HTTP/1.0 500 Internal Server Error\r\n"
to_buffer not_implemented = codes "HTTP/1.0 501 Not Implemented\r\n"
to_buffer bad_gateway = codes "HTTP/1.0 502 Bad Gateway\r\n"
to_buffer service_unavailable = codes "HTTP/1.0 503 Service Unavailable\r\n"
to_buffer (other n) = codes "HTTP/1.0 500 Internal Server Error\r\n"

abbrev crlf : Text
crlf = codes "\r\n"

abbrev name_value_separator : Text
name_value_separator = codes ": "

-- The loop of `to_buffers` over the headers, in the order of their names.
unfoldable pub header_buffers : OrderedMap Text → List Text → List Text
header_buffers [] rest = rest
header_buffers ((k, v) ∷ m) rest = k ∷ name_value_separator ∷ v ∷ crlf ∷ header_buffers m rest

-- `reply::to_buffers`
unfoldable pub to_buffers : Reply → List Text
unfolding to_buffer header_buffers
to_buffers r = to_buffer r.code_ ∷ header_buffers r.headers_ (crlf ∷ r.body_ ∷ [])

-- `stock_replies::to_string` with the pages of that namespace.
unfoldable pub stock_page : StatusCode → Text
stock_page ok = []
stock_page created =
    codes "<html><head><title>Created</title></head><body><h1>201 Created</h1></body></html>"
stock_page accepted =
    codes "<html><head><title>Accepted</title></head><body><h1>202 Accepted</h1></body></html>"
stock_page no_content =
    codes "<html><head><title>No Content</title></head><body><h1>204 Content</h1></body></html>"
stock_page multiple_choices =
    codes
      "<html><head><title>Multiple Choices</title></head><body><h1>300 Multiple Choices</h1></body></html>"
stock_page moved_permanently =
    codes
      "<html><head><title>Moved Permanently</title></head><body><h1>301 Moved Permanently</h1></body></html>"
stock_page moved_temporarily =
    codes
      "<html><head><title>Moved Temporarily</title></head><body><h1>302 Moved Temporarily</h1></body></html>"
stock_page not_modified =
    codes
      "<html><head><title>Not Modified</title></head><body><h1>304 Not Modified</h1></body></html>"
stock_page bad_request =
    codes
      "<html><head><title>Bad Request</title></head><body><h1>400 Bad Request</h1></body></html>"
stock_page unauthorized =
    codes
      "<html><head><title>Unauthorized</title></head><body><h1>401 Unauthorized</h1></body></html>"
stock_page forbidden =
    codes "<html><head><title>Forbidden</title></head><body><h1>403 Forbidden</h1></body></html>"
stock_page not_found =
    codes "<html><head><title>Not Found</title></head><body><h1>404 Not Found</h1></body></html>"
stock_page internal_server_error =
    codes
      "<html><head><title>Internal Server Error</title></head><body><h1>500 Internal Server Error</h1></body></html>"
stock_page not_implemented =
    codes
      "<html><head><title>Not Implemented</title></head><body><h1>501 Not Implemented</h1></body></html>"
stock_page bad_gateway =
    codes
      "<html><head><title>Bad Gateway</title></head><body><h1>502 Bad Gateway</h1></body></html>"
stock_page service_unavailable =
    codes
      "<html><head><title>Service Unavailable</title></head><body><h1>503 Service Unavailable</h1></body></html>"
stock_page (other n) =
    codes
      "<html><head><title>Internal Server Error</title></head><body><h1>500 Internal Server Error</h1></body></html>"

-- The two headers that every handler with a body of its own sets, `Content-Length` first.
abbrev pub content_headers : Text → Text → OrderedMap Text
content_headers size type =
    OrderedMap.insert (codes "Content-Type") type
      (OrderedMap.insert (codes "Content-Length") size [])

-- `reply::stock_reply`
unfoldable pub stock_reply : Boost → StatusCode → Reply
unfolding stock_page to_string OrderedMap.insert
stock_reply boost code =
    let data_ = boost.replace_all (stock_page code) (codes "\n") (codes "\r\n") ++ crlf in
    record {
      code_ = code;
      headers_ = content_headers (to_string (length data_)) (codes "text/html");
      body_ = data_;
    }
