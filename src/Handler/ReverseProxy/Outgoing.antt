-- ===== src/Handler/ReverseProxy/Outgoing.antt =====
-- The request that the reverse proxy sends (src/request_handler/reverse_proxy_handler.cc, the first
-- half of `HandleRequest`).
use cs.Prelude.{◌+◌, ◌||◌, [], ◌∷◌, ◌++◌, if◌then◌else◌, Text, codes, text_eq}
use cs.Prelude.Int.{ℤ, pos, negsuc}
use cs.Boost.{Boost}
use cs.Decimal.{to_string}
use cs.OrderedMap.{OrderedMap}
use cs.Http.Request.{
  MethodType, unset, get_req, head_req, post_req, put_req, delete_req, connect_req, options_req,
  trace_req, patch_req, Request,
}
use cs.Handler.ReverseProxy.External.{Libraries}

-- The fields of the handler.
pub record Proxy : Type 0 where
  pub location_path_ : Text
  pub proxy_dest_ : Text
  pub proxy_port_ : ℤ

-- `std::to_string(proxy_port_)`
unfoldable pub port_text : ℤ → Text
port_text (pos n) = to_string n
port_text (negsuc n) = b'-' ∷ to_string (n + 1)

-- `if (uri == "") { uri = "/"; }`
abbrev pub or_root : Text → Text
or_root [] = b'/' ∷ []
or_root (c ∷ s) = c ∷ s

-- The URI without the location's path.
unfoldable pub proxied_uri : Libraries → Proxy → Text → Text
proxied_uri lib p uri = or_root (lib.erase_first_copy uri p.location_path_)

-- The ladder of tests on `method_`. Where none of them holds, `request_type` stays empty.
unfoldable pub request_type : MethodType → Text
request_type unset = []
request_type get_req = codes "GET"
request_type head_req = codes "HEAD"
request_type post_req = codes "POST"
request_type put_req = codes "PUT"
request_type delete_req = codes "DELETE"
request_type connect_req = codes "CONNECT"
request_type options_req = codes "OPTIONS"
request_type trace_req = codes "TRACE"
request_type patch_req = codes "PATCH"

-- The loop over the headers of the request.
unfoldable pub forwarded_headers : Boost → OrderedMap Text → Text
forwarded_headers boost [] = []
forwarded_headers boost ((k, v) ∷ m) =
    let line = k ++ (codes ": " ++ (boost.replace_all v (codes "\r\n") [] ++ codes "\r\n")) in
    if text_eq k (codes "Host") || text_eq k (codes "Connection")
    then forwarded_headers boost m
    else line ++ forwarded_headers boost m

-- `http_request`
unfoldable pub http_request : Libraries → Proxy → Request → Text
unfolding proxied_uri request_type forwarded_headers
http_request lib p request_ =
    request_type request_.method_
    ++ (codes " "
        ++ (proxied_uri lib p request_.uri_
            ++ (codes " HTTP/1.1\r\n"
                ++ (codes "Host: "
                    ++ (p.proxy_dest_
                        ++ (codes "\r\nConnection: close\r\n"
                            ++ (forwarded_headers lib.boost request_.headers_ ++ codes "\r\n")))))))
