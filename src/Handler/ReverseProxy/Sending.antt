-- ===== src/Handler/ReverseProxy/Sending.antt =====
-- What the reverse proxy sends is a request that this server would read.
use cs.Prelude.{
  ℕ, ◌≡◌, refl, ◌∙◌, ap, arith, false, ◌||◌, inl, inr, Bool-cases, if_ind, List, [], ◌∷◌, ◌++◌,
  append_assoc, some, if◌then◌else◌, Text, codes, text_eq, length, take, All,
}
use cs.Boost.{Boost}
use cs.Strings.{contains}
use cs.OrderedMap.{OrderedMap}
use cs.Http.Request.{Request, MethodType, unset}
use cs.Http.RequestParser.{
  initial, good, bad, expecting_newline_3, parse, is_not_token, is_control, is_decimal, consume_in,
  feed, Parsed, method_of, parse_method,
}
use cs.Http.RequestParser.Pieces.{at}
use cs.Http.RequestParser.CharClasses.{IsToken, IsPlain, IsUri}
use cs.Http.RequestParser.RoundTrip.{
  Header, RequestHead, render, render_headers, IsHeader, IsWellFormed, HasNoNul, method_name,
  IsListed, parsed_request, parse-render, parse-memory,
}
use cs.Handler.ReverseProxy.External.{Libraries}
use cs.Handler.ReverseProxy.Outgoing.{
  Proxy, proxied_uri, request_type, forwarded_headers, http_request,
}

-- The headers that are passed on.
abbrev pub passed_on : OrderedMap Text → List Header
passed_on [] = []
passed_on (([], v) ∷ m) = passed_on m
passed_on ((c ∷ k, v) ∷ m) =
    if text_eq (c ∷ k) (codes "Host") || text_eq (c ∷ k) (codes "Connection")
    then passed_on m
    else record { first = c; others = k; value = v } ∷ passed_on m

-- Headers with names and values as the request parser takes them.
abbrev pub IsSendable : OrderedMap Text → Type 0
IsSendable [] = Unit
IsSendable (([], v) ∷ m) = ⊥
IsSendable ((c ∷ k, v) ∷ m) = IsToken (c ∷ k) × IsPlain v × IsSendable m

abbrev rest_of : Text → Text
rest_of [] = []
rest_of (c ∷ s) = s

abbrev first_of : Text → ℕ
first_of [] = 0
first_of (c ∷ s) = c

-- The request's head: its headers behind `Host` and `Connection`.
abbrev pub sent : Libraries → Proxy → Request → RequestHead
sent lib p request_ = record {
  first = first_of (method_name request_.method_);
  others = rest_of (method_name request_.method_);
  uri = proxied_uri lib p request_.uri_;
  major = b'1';
  majors = [];
  minor = b'1';
  minors = [];
  headers =
      record { first = b'H'; others = codes "ost"; value = p.proxy_dest_ }
      ∷ record { first = b'C'; others = codes "onnection"; value = codes "close" }
      ∷ passed_on request_.headers_;
}

contains-IsPlain : (v : Text) → IsPlain v → contains (codes "\r\n") v ≡ false
unfolding contains is_control
contains-IsPlain [] h = refl
contains-IsPlain (c ∷ v) (n, h) = ground (arith, contains-IsPlain v h)

forwarded_headers-passed_on :
    (boost : Boost) (m : OrderedMap Text)
    → IsSendable m
    → forwarded_headers boost m ++ codes "\r\n" ≡ render_headers (passed_on m) []
unfolding forwarded_headers
forwarded_headers-passed_on boost [] h = refl
forwarded_headers-passed_on boost (([], v) ∷ m) h = elim h [ ]
forwarded_headers-passed_on boost ((c ∷ k, v) ∷ m) (t, p, h) =
    let rest = forwarded_headers-passed_on boost m h in
    let same = boost.replace_all_absent v (codes "\r\n") [] (contains-IsPlain v p) in
    elim (Bool-cases (text_eq (c ∷ k) (codes "Host") || text_eq (c ∷ k) (codes "Connection"))) [
      | inl own ↦ rw own rest
      | inr other ↦ rw (other, same) (simp (append_assoc, rest))
    ]

passed_on-IsHeader : (m : OrderedMap Text) → IsSendable m → All IsHeader (passed_on m)
passed_on-IsHeader [] h = tt
passed_on-IsHeader (([], v) ∷ m) h = elim h [ ]
passed_on-IsHeader ((c ∷ k, v) ∷ m) (t, p, h) =
    if_ind (All IsHeader) (text_eq (c ∷ k) (codes "Host") || text_eq (c ∷ k) (codes "Connection"))
      (passed_on-IsHeader m h) (record { name = t; plain = p }, passed_on-IsHeader m h)

request_type-append :
    (m : MethodType) (s : Text)
    → IsListed m
    → request_type m ++ s ≡ first_of (method_name m) ∷ (rest_of (method_name m) ++ s)
unfolding request_type
request_type-append unset s i = elim i [ ]
request_type-append _ s i = refl

own_headers-IsHeader :
    IsToken (codes "Host") × IsToken (codes "Connection") × IsPlain (codes "close")
unfolding is_not_token is_control
own_headers-IsHeader = ground arith

http_request-sent :
    (lib : Libraries) (p : Proxy) (request_ : Request)
    → IsListed request_.method_
    → IsSendable request_.headers_
    → http_request lib p request_ ≡ render (sent lib p request_) []
unfolding http_request
http_request-sent lib p request_ i h =
    rw (forwarded_headers-passed_on lib.boost request_.headers_ h)
      (request_type-append request_.method_ _ i)

method_name-IsToken :
    (m : MethodType) → IsListed m → IsToken (first_of (method_name m) ∷ rest_of (method_name m))
unfolding is_not_token
method_name-IsToken unset i = elim i [ ]
method_name-IsToken _ i = ground arith

sent-IsWellFormed :
    (lib : Libraries) (p : Proxy) (request_ : Request)
    → IsListed request_.method_
    → IsUri (proxied_uri lib p request_.uri_)
    → IsPlain p.proxy_dest_
    → IsSendable request_.headers_
    → IsWellFormed (sent lib p request_)
sent-IsWellFormed lib p request_ i u d h = record {
  token = method_name-IsToken request_.method_ i;
  uri = u;
  major = unfold is_decimal in (refl, tt);
  major_fits = omega arith;
  minor = unfold is_decimal in (refl, tt);
  minor_fits = omega arith;
  headers = (
    record { name = own_headers-IsHeader.0; plain = d },
    (
      record { name = own_headers-IsHeader.1; plain = own_headers-IsHeader.2 },
      passed_on-IsHeader request_.headers_ h,
    ),
  );
}

method_name_lem :
    (m : MethodType)
    → IsListed m
    → first_of (method_name m) ∷ rest_of (method_name m) ≡ method_name m
method_name_lem unset i = elim i [ ]
method_name_lem _ i = refl

-- What the handler sends is read back by the request parser of this server, for any of the nine
-- methods: it is accepted at its end, with the URI that the location has been taken off, the destination for `Host`,
-- `close` for `Connection`, and the other headers as they were, if the URI, the destination and the
-- headers are such as that parser takes and no NUL stands in them.
pub parse-http_request :
    (lib : Libraries) (p : Proxy) (request_ fresh : Request) (junk : Text)
    → IsListed request_.method_
    → IsUri (proxied_uri lib p request_.uri_)
    → IsPlain p.proxy_dest_
    → IsSendable request_.headers_
    → HasNoNul (http_request lib p request_)
    → parse initial fresh
        (http_request lib p request_ ++ (0 ∷ junk))
        (length (http_request lib p request_))
      ≡ some (record {
        result = good;
        rest = [];
        parser = at expecting_newline_3 [] [];
        request = parsed_request request_.method_ (sent lib p request_) [] fresh;
      })
parse-http_request lib p request_ fresh junk i u d h z =
    let shape = http_request-sent lib p request_ i h in
    ap (λ t. parse initial fresh (t ++ (0 ∷ junk)) (length t)) shape
    ∙ parse-render request_.method_ (sent lib p request_) [] junk fresh
        (sent-IsWellFormed lib p request_ i u d h) (method_name_lem request_.method_ i)
        (rw shape at z)

http_request-unset :
    (lib : Libraries) (p : Proxy) (request_ : Request)
    → request_.method_ ≡ unset
    → (s : Text) × (http_request lib p request_ ≡ b' ' ∷ s)
unfolding http_request request_type
http_request-unset lib p request_ e = (rest_of (http_request lib p request_), rw e refl)

feed_space : (s : Text) (req : Request) → (feed initial req (b' ' ∷ s)).result ≡ bad
unfolding feed consume_in is_not_token
feed_space s req = refl

-- Where nothing has set the method of a request before it is parsed, and its first three bytes are
-- those of no method, what the handler sends for it is refused by the request parser of this server,
-- whatever the location, the destination and the headers are, if no NUL stands in it.
pub parse-http_request-unset :
    (lib : Libraries) (p : Proxy) (request_ fresh : Request) (memory junk : Text)
    → request_.method_ ≡ unset
    → method_of unset (take 3 memory) ≡ unset
    → HasNoNul (http_request lib p (parse_method request_ memory))
    → (after : Parsed) × (parse initial fresh
          (http_request lib p (parse_method request_ memory) ++ (0 ∷ junk))
          (length (http_request lib p (parse_method request_ memory)))
        ≡ some after)
      × (after.result ≡ bad)
unfolding parse_method
parse-http_request-unset lib p request_ fresh memory junk e unknown z =
    let q = parse_method request_ memory in
    let kept : q.method_ ≡ unset = ap (λ m. method_of m (take 3 memory)) e ∙ unknown in
    let (s, shape) = http_request-unset lib p q kept in
    let text = http_request lib p q in
    let read = parse_method (record fresh { body_ = text }) (text ++ (0 ∷ junk)) in
    (
      feed initial read text,
      parse-memory initial fresh text junk z,
      ap (λ t. (feed initial read t).result) shape ∙ feed_space s read,
    )
