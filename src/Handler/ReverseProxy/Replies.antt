-- ===== src/Handler/ReverseProxy/Replies.antt =====
-- What the reverse proxy answers.
use cs.Prelude.{
  ℕ, zero, suc, ◌+◌, ◌≡◌, refl, arith, if_ind, Option, none, some, Text, codes, List, length,
  text_eq, ◌++◌,
}
use cs.Decimal.{to_string}
use cs.OrderedMap
use cs.Http.Request.{Request}
use cs.Http.Reply.{Reply, internal_server_error, stock_reply}
use cs.Http.Reply.Laws.{HasContentLength, stock_reply_lem}
use cs.Handler.ReverseProxy.External.{Libraries}
use cs.Handler.ReverseProxy.Outgoing.{Proxy, port_text, http_request}
use cs.Handler.ReverseProxy.Response.{Result, returned, thrown, undefined, ◌>>=◌, read_response}
use cs.Handler.ReverseProxy.{
  Network, Endpoint, Exchange, write_error, read_error, response, Next, done, again, with_body,
  unpacked, packed, append_relative_uri, finish, follow, on_reply, on_exchange, on_resolved,
  handle_once, handle_proxy, redirect_location, is_redirect, or_throw, uri_replace, with_location,
  last_v4, go_on,
}

-- A reply that is returned has its length.
abbrev Sized : Result Reply → Type 0
Sized (returned r) = HasContentLength r
Sized thrown = Unit
Sized undefined = Unit

abbrev NextSized : Next → Type 0
NextSized (done r) = Sized r
NextSized (again req) = Unit

with_body-HasContentLength : (r : Reply) (body : Text) → HasContentLength (with_body r body)
with_body-HasContentLength r body =
    OrderedMap.lookup-insert (codes "Content-Length") (codes "Content-Length")
      (to_string (length body)) r.headers_

>>=-Sized {ℓ} :
    {A : Type ℓ} (m : Result A) (f : A → Result Reply) → ((a : A) → Sized (f a)) → Sized (m >>= f)
>>=-Sized (returned a) f h = h a
>>=-Sized thrown f h = tt
>>=-Sized undefined f h = tt

finish-Sized : (lib : Libraries) (p : Proxy) (r : Reply) → Sized (finish lib p r)
unfolding finish
finish-Sized lib p r =
    let send = λ (modified_body : Text).
      packed lib r modified_body >>= λ body. returned (with_body r body) in
    >>=-Sized (unpacked lib r) (λ plain. append_relative_uri lib plain p.location_path_ >>= send)
      (λ plain. >>=-Sized (append_relative_uri lib plain p.location_path_) send (λ modified_body.
        >>=-Sized (packed lib r modified_body) (λ body. returned (with_body r body))
          (λ body. with_body-HasContentLength r body)))

follow-Sized :
    (lib : Libraries) (p : Proxy) (request_ : Request) (r : Reply) (uri : Result Text)
    → NextSized (follow lib p request_ r uri)
unfolding follow
follow-Sized lib p request_ r thrown = tt
follow-Sized lib p request_ r undefined = tt
follow-Sized lib p request_ r (returned uri) =
    if_ind NextSized (text_eq uri (redirect_location r)) (finish-Sized lib p (with_location r))
      (if_ind NextSized (text_eq uri request_.uri_) (finish-Sized lib p (with_location r)) tt)

on_reply-Sized :
    (lib : Libraries) (p : Proxy) (request_ : Request) (r : Result Reply)
    → NextSized (on_reply lib p request_ r)
unfolding on_reply
on_reply-Sized lib p request_ thrown = tt
on_reply-Sized lib p request_ undefined = tt
on_reply-Sized lib p request_ (returned r) =
    if_ind NextSized (is_redirect r.code_)
      (follow-Sized lib p request_ r (
        or_throw
          (uri_replace lib (redirect_location r) p.proxy_dest_ (p.location_path_ ++ codes "/"))))
      (finish-Sized lib p r)

stock-HasContentLength :
    (lib : Libraries) → HasContentLength (stock_reply lib.boost internal_server_error)
stock-HasContentLength lib = (stock_reply_lem lib.boost internal_server_error).2

on_exchange-Sized :
    (lib : Libraries) (p : Proxy) (request_ : Request) (e : Exchange)
    → NextSized (on_exchange lib p request_ e)
unfolding on_exchange
on_exchange-Sized lib p request_ write_error = stock-HasContentLength lib
on_exchange-Sized lib p request_ read_error = stock-HasContentLength lib
on_exchange-Sized lib p request_ (response s) = on_reply-Sized lib p request_ (read_response lib s)

on_resolved-Sized :
    (lib : Libraries) (net : Network) (p : Proxy) (request_ : Request) (es : Option (List Endpoint))
    → NextSized (on_resolved lib net p request_ es)
unfolding on_resolved
on_resolved-Sized lib net p request_ none = stock-HasContentLength lib
on_resolved-Sized lib net p request_ (some es) =
    if_ind NextSized (net.connect (last_v4 none es))
      (on_exchange-Sized lib p request_
        (net.exchange (last_v4 none es) (http_request lib p request_)))
      tt

handle_once-Sized :
    (lib : Libraries) (net : Network) (p : Proxy) (request_ : Request)
    → NextSized (handle_once lib net p request_)
unfolding handle_once
handle_once-Sized lib net p request_ =
    on_resolved-Sized lib net p request_ (net.resolve p.proxy_dest_ (port_text p.proxy_port_))

go_on-Sized :
    (n : Next) (k : Request → Option (Result Reply)) {r : Reply}
    → NextSized n
    → ((q : Request) → n ≡ again q → k q ≡ some (returned r) → HasContentLength r)
    → go_on n k ≡ some (returned r)
    → HasContentLength r
go_on-Sized (done (returned r')) k {r} h next e = let same : r' ≡ r = cc in rw (← same) h
go_on-Sized (done thrown) k h next e = absurd cc
go_on-Sized (done undefined) k h next e = absurd cc
go_on-Sized (again q) k h next e = next q refl e

-- Whatever the network does at each call, a reply that comes back, the error pages included, has the
-- length of its body for `Content-Length`, however often the handler calls itself.
pub handle_proxy-HasContentLength :
    (fuel : ℕ) (lib : Libraries) (nets : ℕ → Network) (p : Proxy) (request_ : Request) {r : Reply}
    → handle_proxy fuel lib nets p request_ ≡ some (returned r)
    → HasContentLength r
unfolding handle_proxy
handle_proxy-HasContentLength zero lib nets p request_ e = absurd cc
handle_proxy-HasContentLength (suc fuel) lib nets p request_ e =
    go_on-Sized (handle_once lib (nets 0) p request_) _ (handle_once-Sized lib (nets 0) p request_)
      (λ q same found. handle_proxy-HasContentLength fuel lib (λ n. nets (n + 1)) p q found) e

go_on-same :
    (n : Next) (k k' : Request → Option (Result Reply)) {r : Result Reply}
    → ((q : Request) → k q ≡ some r → k' q ≡ some r)
    → go_on n k ≡ some r
    → go_on n k' ≡ some r
go_on-same (done a) k k' h e = e
go_on-same (again q) k k' h e = h q e

-- More calls of itself than the handler makes change nothing: an ending that some fuel reaches is
-- the one that any larger fuel reaches.
handle_proxy-fuel :
    (fuel more : ℕ) (lib : Libraries) (nets : ℕ → Network) (p : Proxy) (request_ : Request)
    {r : Result Reply}
    → handle_proxy fuel lib nets p request_ ≡ some r
    → handle_proxy (fuel + more) lib nets p request_ ≡ some r
unfolding handle_proxy
handle_proxy-fuel zero more lib nets p request_ e = absurd cc
handle_proxy-fuel (suc fuel) more lib nets p request_ {r} e =
    let next : suc fuel + more ≡ suc (fuel + more) = omega arith in
    rw next (
      go_on-same (handle_once lib (nets 0) p request_) _ _
        (λ q found. handle_proxy-fuel fuel more lib (λ n. nets (n + 1)) p q found) e)
