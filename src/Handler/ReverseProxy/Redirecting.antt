-- ===== src/Handler/ReverseProxy/Redirecting.antt =====
-- What the handler does with a response that it gets.
use native.Mathlib.Numerals.{unary_clauses}
use cs.Prelude.{
  ℕ, zero, suc, ◌+◌, ◌^◌, ◌<◌, ◌≡◌, refl, ◌∙◌, ap, true, false, List, ◌++◌, none, some, Text,
  text_eq, codes, length,
}
use cs.Http.Request.{Request}
use cs.Http.Reply.{Reply}
use cs.Handler.ReverseProxy.External.{Libraries}
use cs.Handler.ReverseProxy.Outgoing.{Proxy, port_text, http_request}
use cs.Handler.ReverseProxy.Response.{returned, thrown, read_response}
use cs.Handler.ReverseProxy.{
  Network, Endpoint, response, done, again, follow, on_reply, on_exchange, on_resolved, handle_once,
  handle_proxy, redirect_location, is_redirect, uri_replace, last_v4,
}
use cs.Handler.ReverseProxy.Wire.{NoReturn}
use cs.Handler.ReverseProxy.Malformed.{read_response-NoReturn}

-- The network answers what the handler sends for a request with `s`.
pub record Answers (lib : Libraries) (net : Network) (p : Proxy) (request_ : Request) (s : Text)
    : Type 0 where
  pub endpoints : List Endpoint
  pub resolved : net.resolve p.proxy_dest_ (port_text p.proxy_port_) ≡ some endpoints
  pub connected : net.connect (last_v4 none endpoints) ≡ true
  pub exchanged : net.exchange (last_v4 none endpoints) (http_request lib p request_) ≡ response s

handle_once-Answers :
    (lib : Libraries) (net : Network) (p : Proxy) (request_ : Request) (s : Text)
    → Answers lib net p request_ s
    → handle_once lib net p request_ ≡ on_reply lib p request_ (read_response lib s)
unfolding handle_once on_resolved on_exchange
handle_once-Answers lib net p request_ s a = rw (a.resolved, a.connected, a.exchanged) refl

-- The network answers with a redirect that comes to `to`: the host in the location is replaced, which
-- gives another text than the location and than the URI that was asked for.
pub record Redirects (lib : Libraries) (net : Network) (p : Proxy) (request_ : Request) (to : Text)
    : Type 0 where
  pub text : Text
  pub reply : Reply
  pub answered : Answers lib net p request_ text
  pub parsed : read_response lib text ≡ returned reply
  pub redirected : is_redirect reply.code_ ≡ true
  pub replaced :
      uri_replace lib (redirect_location reply) p.proxy_dest_ (p.location_path_ ++ codes "/")
      ≡ some to
  pub changed : text_eq to (redirect_location reply) ≡ false
  pub moved : text_eq to request_.uri_ ≡ false

handle_once-Redirects :
    (lib : Libraries) (net : Network) (p : Proxy) (request_ : Request) (to : Text)
    → Redirects lib net p request_ to
    → handle_once lib net p request_ ≡ again (record request_ { uri_ = to })
unfolding on_reply follow
handle_once-Redirects lib net p request_ to r =
    handle_once-Answers lib net p request_ r.text r.answered
    ∙ rw (r.parsed, r.redirected, r.replaced, r.changed, r.moved) refl

-- Where the network answers a request, with each of a sequence of URIs in it and all else as it was, with
-- a redirect to the next one, as two pages do that redirect to each other, the handler never ends: no
-- number of calls is enough.
pub handle_proxy-loop :
    (fuel : ℕ) (lib : Libraries) (nets : ℕ → Network) (p : Proxy) (request_ : Request)
    (uris : ℕ → Text)
    → ((n : ℕ) → Redirects lib (nets n) p (record request_ { uri_ = uris n }) (uris (suc n)))
    → handle_proxy fuel lib nets p (record request_ { uri_ = uris 0 }) ≡ none
unfolding handle_proxy
handle_proxy-loop zero lib nets p request_ uris r = refl
handle_proxy-loop (suc fuel) lib nets p request_ uris r =
    rw (handle_once-Redirects lib (nets 0) p (record request_ { uri_ = uris 0 }) (uris 1) (r 0)) (
      handle_proxy-loop fuel lib (λ n. nets (n + 1)) p request_ (λ n. uris (suc n))
        (λ n. simp unary_clauses (r (suc n))))

-- A response with no carriage return in it, shorter than the address space, makes the handler end with
-- an exception, whatever else stands in the response.
pub handle_proxy-NoReturn :
    (fuel : ℕ) (lib : Libraries) (nets : ℕ → Network) (p : Proxy) (request_ : Request) (s : Text)
    → Answers lib (nets 0) p request_ s
    → length s < 2 ^ 64
    → NoReturn s
    → handle_proxy (suc fuel) lib nets p request_ ≡ some thrown
unfolding handle_proxy on_reply
handle_proxy-NoReturn fuel lib nets p request_ s a fits h =
    let ends : handle_once lib (nets 0) p request_ ≡ done thrown =
      handle_once-Answers lib (nets 0) p request_ s a
      ∙ ap (on_reply lib p request_) (read_response-NoReturn lib s fits h) in
    rw ends refl
