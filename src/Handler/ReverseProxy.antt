-- ===== src/Handler/ReverseProxy.antt =====
-- `ReverseProxyHandler::HandleRequest` (src/request_handler/reverse_proxy_handler.cc). What it asks
-- of other libraries and of the network is a parameter.
pub mod External
pub mod Headers
pub mod Malformed
pub mod Outgoing
pub mod ReadBack
pub mod Redirecting
pub mod Replies
pub mod Response
pub mod Sending
pub mod Wire
use cs.Prelude.{
  ℕ, zero, suc, ◌+◌, ◌-◌, Bool, true, false, not, ◌&&◌, ◌||◌, List, [], ◌∷◌, ◌++◌, Option, none,
  some, ◌==◌, if◌then◌else◌, Text, codes, text_eq, length, take,
}
use cs.Decimal.{to_string}
use cs.Strings.{back_is}
use cs.OrderedMap
use cs.OrderedMap.{OrderedMap}
use cs.Http.Request.{Request}
use cs.Http.Reply.{
  Reply, StatusCode, moved_temporarily, moved_permanently, internal_server_error, stock_reply,
}
use cs.Handler.ReverseProxy.External.{Libraries}
use cs.Handler.ReverseProxy.Outgoing.{Proxy, port_text, http_request}
use cs.Handler.ReverseProxy.Response.{Result, returned, thrown, undefined, ◌>>=◌, read_response}

-- An endpoint of a resolved name.
pub record Endpoint : Type 0 where
  pub address : Text
  pub is_v4 : Bool

-- How sending a request and reading all of the response ends.
pub data Exchange : Type 0 where
  write_error read_error : Exchange
  response : Text → Exchange

-- The network: `none` of `resolve` is an error, and `connect` throws where it is false. `none` for an
-- endpoint is the one that its default constructor makes.
pub record Network : Type 0 where
  pub resolve : Text → Text → Option (List Endpoint)
  pub connect : Option Endpoint → Bool
  pub exchange : Option Endpoint → Text → Exchange

-- The loop over the endpoints, which keeps the last one with an IPv4 address.
unfoldable pub last_v4 : Option Endpoint → List Endpoint → Option Endpoint
last_v4 found [] = found
last_v4 found (e ∷ es) = last_v4 (if e.is_v4 then some e else found) es

-- `uri_replace`
unfoldable pub uri_replace : Libraries → Text → Text → Text → Option Text
uri_replace lib uri proxy_host local_path =
    lib.regex_replace uri (codes ".*" ++ (proxy_host ++ codes "/{0,1}")) local_path

-- A value, or an exception.
abbrev pub or_throw {ℓ} : {A : Type ℓ} → Option A → Result A
or_throw none = thrown
or_throw (some a) = returned a

-- `append_relative_URI`. With an empty text to append it reads before its beginning: undefined.
unfoldable pub append_relative_uri : Libraries → Text → Text → Result Text
append_relative_uri lib body [] = undefined
append_relative_uri lib body (c ∷ s) =
    let trimmed_append = if back_is b'/' (c ∷ s) then take (length s) (c ∷ s) else c ∷ s in
    or_throw
      (lib.regex_replace body (codes "href=\"/") (codes "href=\"" ++ (trimmed_append ++ codes "/")))
    >>= λ linked. or_throw (
        lib.regex_replace linked (codes "src=\"/")
          (codes "src=\"" ++ (trimmed_append ++ codes "/")))

-- The test of `Content-Encoding`.
abbrev pub is_gzip_text : Option Text → Bool
is_gzip_text none = false
is_gzip_text (some v) = text_eq v (codes "gzip")

unfoldable pub is_gzip : Reply → Bool
unfolding OrderedMap.lookup
is_gzip r = is_gzip_text (OrderedMap.lookup (codes "Content-Encoding") r.headers_)

-- The reply with another body, and its length.
abbrev pub with_body : Reply → Text → Reply
with_body r body = record r {
  headers_ = OrderedMap.insert (codes "Content-Length") (to_string (length body)) r.headers_;
  body_ = body;
}

-- `modified_body` as it comes, and the body as it goes out.
unfoldable pub unpacked : Libraries → Reply → Result Text
unfolding is_gzip
unpacked lib r = if is_gzip r then or_throw (lib.decompress r.body_) else returned r.body_

unfoldable pub packed : Libraries → Reply → Text → Result Text
unfolding is_gzip
packed lib r modified_body =
    if is_gzip r then or_throw (lib.compress modified_body) else returned modified_body

-- The end of `HandleRequest`, from `modified_body` on.
unfoldable pub finish : Libraries → Proxy → Reply → Result Reply
unfolding append_relative_uri unpacked packed
finish lib p r = unpacked lib r >>= λ plain.
    append_relative_uri lib plain p.location_path_ >>= λ modified_body.
    packed lib r modified_body >>= λ body. returned (with_body r body)

-- How one call of `HandleRequest` goes on: it ends, or it calls itself on another request.
pub data Next : Type 0 where
  done : Result Reply → Next
  again : Request → Next

abbrev pub text_or_empty : Option Text → Text
text_or_empty none = []
text_or_empty (some v) = v

-- `reply->headers_["Location"]`, which inserts an empty value where the header is missing.
abbrev pub redirect_location : Reply → Text
redirect_location r = text_or_empty (OrderedMap.lookup (codes "Location") r.headers_)

abbrev pub with_location : Reply → Reply
with_location r = record r {
  headers_ = OrderedMap.insert (codes "Location") (redirect_location r) r.headers_;
}

abbrev pub is_redirect : StatusCode → Bool
is_redirect moved_temporarily = true
is_redirect moved_permanently = true
is_redirect _ = false

-- The tests on the modified URI.
unfoldable pub follow : Libraries → Proxy → Request → Reply → Result Text → Next
unfolding finish
follow lib p request_ r thrown = done thrown
follow lib p request_ r undefined = done undefined
follow lib p request_ r (returned modified_redirect_uri) =
    if text_eq modified_redirect_uri (redirect_location r)
    then done (finish lib p (with_location r))
    else if text_eq modified_redirect_uri request_.uri_
    then done (finish lib p (with_location r))
    else again (record request_ { uri_ = modified_redirect_uri })

unfoldable pub on_reply : Libraries → Proxy → Request → Result Reply → Next
unfolding follow finish uri_replace OrderedMap.lookup OrderedMap.insert
on_reply lib p request_ thrown = done thrown
on_reply lib p request_ undefined = done undefined
on_reply lib p request_ (returned r) =
    if is_redirect r.code_
    then follow lib p request_ r (
        or_throw
          (uri_replace lib (redirect_location r) p.proxy_dest_ (p.location_path_ ++ codes "/")))
    else done (finish lib p r)

unfoldable pub on_exchange : Libraries → Proxy → Request → Exchange → Next
unfolding on_reply read_response stock_reply
on_exchange lib p request_ write_error =
    done (returned (stock_reply lib.boost internal_server_error))
on_exchange lib p request_ read_error =
    done (returned (stock_reply lib.boost internal_server_error))
on_exchange lib p request_ (response s) = on_reply lib p request_ (read_response lib s)

unfoldable pub on_resolved : Libraries → Network → Proxy → Request → Option (List Endpoint) → Next
unfolding on_exchange http_request last_v4 stock_reply
on_resolved lib net p request_ none = done (returned (stock_reply lib.boost internal_server_error))
on_resolved lib net p request_ (some endpoints) =
    let proxy_endpoint = last_v4 none endpoints in
    if net.connect proxy_endpoint
    then on_exchange lib p request_ (net.exchange proxy_endpoint (http_request lib p request_))
    else done thrown

-- One call of `HandleRequest`, without the call that it makes of itself.
unfoldable pub handle_once : Libraries → Network → Proxy → Request → Next
unfolding on_resolved port_text
handle_once lib net p request_ =
    on_resolved lib net p request_ (net.resolve p.proxy_dest_ (port_text p.proxy_port_))

abbrev pub go_on : Next → (Request → Option (Result Reply)) → Option (Result Reply)
go_on (done r) k = some r
go_on (again request_) k = k request_

-- `HandleRequest`, on fuel for the calls of itself; `none` means that the fuel ran out. The network
-- of each call is one of its own.
unfoldable pub handle_proxy :
    ℕ → Libraries → (ℕ → Network) → Proxy → Request → Option (Result Reply)
unfolding handle_once
handle_proxy zero lib nets p request_ = none
handle_proxy (suc fuel) lib nets p request_ =
    go_on (handle_once lib (nets 0) p request_)
      (λ request_'. handle_proxy fuel lib (λ n. nets (n + 1)) p request_')
