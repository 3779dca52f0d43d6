-- ===== src/Http/RequestParser/RoundTrip.antt =====
-- `request_parser::parse` reads back every request that is written in the grammar's canonical form.
use cs.Prelude.{
  ◌%◌, ℕ, ◌<◌, ◌^◌, ◌≡◌, refl, ◌∙◌, ap, false, List, [], ◌∷◌, ◌++◌, append_assoc, arith, Text,
  codes, All, length, take, take-append, some, ◌==◌,
}
use cs.OrderedMap
use cs.Decimal.{decimal}
use cs.OrderedMap.{OrderedMap}
use cs.Http.Request.{
  MethodType, unset, get_req, head_req, post_req, put_req, delete_req, connect_req, options_req,
  trace_req, patch_req, Request,
}
use cs.Http.RequestParser.{
  expecting_newline_3, RequestParser, initial, good, feed, c_str, method_of, parse_method, parse,
}
use cs.Http.RequestParser.CharClasses.{IsToken, IsPlain, IsUri, IsNumber}
use cs.Http.RequestParser.Pieces.{at, header_line}
use cs.Http.RequestParser.Grammar.{
  Line, named, Head, render_lines, render_request_line, store_lines, AreLines, IsHead, apply_head,
}
use cs.Http.RequestParser.Accepting.{feed-render_head}

-- A header's name is its first byte and the others.
pub record Header : Type 0 where
  pub first : ℕ
  pub others : Text
  pub value : Text

-- The head of a request, by its parts. The method and the numbers are not empty.
pub record RequestHead : Type 0 where
  pub first : ℕ
  pub others : Text
  pub uri : Text
  pub major : ℕ
  pub majors : Text
  pub minor : ℕ
  pub minors : Text
  pub headers : List Header

abbrev pub render_headers : List Header → Text → Text
render_headers [] rest = b'\r' ∷ b'\n' ∷ rest
render_headers (h ∷ hs) rest = header_line (h.first ∷ h.others) h.value (render_headers hs rest)

abbrev pub render_version : RequestHead → Text → Text
render_version r rest =
    b'H'
    ∷ b'T'
    ∷ b'T'
    ∷ b'P'
    ∷ b'/'
    ∷ r.major
    ∷ (r.majors ++ (b'.' ∷ r.minor ∷ (r.minors ++ (b'\r' ∷ b'\n' ∷ rest))))

-- `METHOD URI HTTP/major.minor`, the headers and an empty line, in front of `rest`.
abbrev pub render : RequestHead → Text → Text
render r rest =
    r.first
    ∷ (r.others ++ (b' ' ∷ (r.uri ++ (b' ' ∷ render_version r (render_headers r.headers rest)))))

-- A number that fits into an `int` is read without overflow.
decimal-fits : (n : Text) → decimal 0 n < 2 ^ 31 → decimal 0 n % 2 ^ 32 ≡ decimal 0 n
decimal-fits n h = omega arith

pub record IsHeader (h : Header) : Type 0 where
  pub name : IsToken (h.first ∷ h.others)
  pub plain : IsPlain h.value

pub record IsWellFormed (r : RequestHead) : Type 0 where
  pub token : IsToken (r.first ∷ r.others)
  pub uri : IsUri r.uri
  pub major : IsNumber (r.major ∷ r.majors)
  pub major_fits : decimal 0 (r.major ∷ r.majors) < 2 ^ 31
  pub minor : IsNumber (r.minor ∷ r.minors)
  pub minor_fits : decimal 0 (r.minor ∷ r.minors) < 2 ^ 31
  pub headers : All IsHeader r.headers

-- `headers_` after the headers are read, in order, over what it held.
abbrev pub store_all : List Header → OrderedMap Text → OrderedMap Text
store_all [] m = m
store_all (h ∷ hs) m = store_all hs (OrderedMap.insert (h.first ∷ h.others) h.value m)

-- The request after its head is read: the URI goes behind what `uri_` held.
abbrev pub apply : RequestHead → Request → Request
apply r req = record req {
  uri_ = req.uri_ ++ r.uri;
  headers_ = store_all r.headers req.headers_;
  http_version_major = decimal 0 (r.major ∷ r.majors);
  http_version_minor = decimal 0 (r.minor ∷ r.minors);
}

-- The head in the grammar of all that the parser accepts.
abbrev lines_of : List Header → List Line
lines_of [] = []
lines_of (h ∷ hs) = named h.first h.others h.value ∷ lines_of hs

abbrev head_of : RequestHead → Head
head_of r = record {
  first = r.first;
  others = r.others;
  uri = r.uri;
  major = r.major;
  majors = r.majors;
  minor = r.minor;
  minors = r.minors;
  lines = lines_of r.headers;
}

render_lines_of :
    (hs : List Header) (rest : Text) → render_headers hs rest ≡ render_lines (lines_of hs) rest
render_lines_of [] rest = refl
render_lines_of (h ∷ hs) rest =
    ap (header_line (h.first ∷ h.others) h.value) (render_lines_of hs rest)

store_lines_of :
    (hs : List Header) (m : OrderedMap Text) → store_lines (lines_of hs) m ≡ store_all hs m
store_lines_of [] m = refl
store_lines_of (h ∷ hs) m = store_lines_of hs (OrderedMap.insert (h.first ∷ h.others) h.value m)

lines_of-AreLines :
    (hs : List Header) (m : OrderedMap Text) → All IsHeader hs → AreLines m (lines_of hs)
lines_of-AreLines [] m w = tt
lines_of-AreLines (h ∷ hs) m (i, w) = ((i.name, i.plain), lines_of-AreLines hs _ w)

head_of-IsHead : (r : RequestHead) (m : OrderedMap Text) → IsWellFormed r → IsHead m (head_of r)
head_of-IsHead r m w = (
  record { method = w.token; uri = w.uri; major = w.major; minor = w.minor },
  lines_of-AreLines r.headers m w.headers,
)

apply_head_of :
    (r : RequestHead) (req : Request) → IsWellFormed r → apply_head (head_of r) req ≡ apply r req
apply_head_of r req w =
    rw
      (
        store_lines_of r.headers req.headers_,
        decimal-fits (r.major ∷ r.majors) w.major_fits,
        decimal-fits (r.minor ∷ r.minors) w.minor_fits,
      )
      refl

feed-render :
    (r : RequestHead) (rest : Text) (req : Request)
    → IsWellFormed r
    → feed initial req (render r rest) ≡ record {
      result = good;
      rest = rest;
      parser = at expecting_newline_3 [] [];
      request = apply r req;
    }
feed-render r rest req w =
    ap (λ t. feed initial req (render_request_line (head_of r) t)) (render_lines_of r.headers rest)
    ∙ feed-render_head (head_of r) rest req (head_of-IsHead r req.headers_ w)
    ∙ ap
        (λ q. record {
          result = good;
          rest = rest;
          parser = at expecting_newline_3 [] [];
          request = q;
        })
        (apply_head_of r req w)

-- The nine methods, as a request writes them. One that nothing has set has no name.
abbrev pub method_name : MethodType → Text
method_name unset = []
method_name get_req = codes "GET"
method_name head_req = codes "HEAD"
method_name post_req = codes "POST"
method_name put_req = codes "PUT"
method_name delete_req = codes "DELETE"
method_name connect_req = codes "CONNECT"
method_name options_req = codes "OPTIONS"
method_name trace_req = codes "TRACE"
method_name patch_req = codes "PATCH"

-- One of the nine methods.
abbrev pub IsListed : MethodType → Type 0
IsListed unset = ⊥
IsListed m = Unit

-- A method with a name is set.
named-IsListed : (m : MethodType) (c : ℕ) (n : Text) → c ∷ n ≡ method_name m → IsListed m
named-IsListed unset c n e = absurd cc
named-IsListed _ c n e = tt

-- The three first bytes of a name tell the method, with a space behind a name of three.
method_of-method_name :
    (m old : MethodType) (rest : Text)
    → IsListed m
    → method_of old (take 3 (method_name m ++ rest)) ≡ m
unfolding method_of
method_of-method_name unset old rest i = elim i [ ]
method_of-method_name _ old rest i = refl

abbrev pub HasNoNul : Text → Type 0
HasNoNul = All (λ c. (c == 0) ≡ false)

c_str-append : (s junk : Text) → HasNoNul s → c_str (s ++ (0 ∷ junk)) ≡ some s
unfolding c_str
c_str-append [] junk h = refl
c_str-append (c ∷ s) junk (n, h) = ground (arith, c_str-append s junk h)

-- The request that `parse` leaves for a head `r` with method `m` in front of `body`.
abbrev pub parsed_request : MethodType → RequestHead → Text → Request → Request
parsed_request m r body req = apply r (record req { method_ = m; body_ = render r body })

parse_method-name :
    (m : MethodType) (n x junk : Text) (req : Request)
    → n ≡ method_name m
    → IsListed m
    → parse_method req ((n ++ x) ++ junk) ≡ record req { method_ = m }
unfolding parse_method
parse_method-name m n x junk req e i =
    rw (e, append_assoc (method_name m) x junk)
      (ap (λ k. record req { method_ = k }) (method_of-method_name m req.method_ (x ++ junk) i))

pub parse-memory :
    (p : RequestParser) (req : Request) (t junk : Text)
    → HasNoNul t
    → parse p req (t ++ (0 ∷ junk)) (length t)
      ≡ some (feed p (parse_method (record req { body_ = t }) (t ++ (0 ∷ junk))) t)
unfolding parse
parse-memory p req t junk n = rw (c_str-append t junk n, parse, take-append t (0 ∷ junk))

-- In memory that holds a well-formed head with one of the nine methods and a body with no NUL,
-- with a NUL behind it, the parser answers `good` at the end of the head: what is left is the body, and the
-- request has the method, the URI behind what `uri_` held, the headers stored in their order,
-- the version numbers, and the whole text from the method on for its body.
pub parse-render :
    (m : MethodType) (r : RequestHead) (body junk : Text) (req : Request)
    → IsWellFormed r
    → r.first ∷ r.others ≡ method_name m
    → HasNoNul (render r body)
    → parse initial req (render r body ++ (0 ∷ junk)) (length (render r body))
      ≡ some (record {
        result = good;
        rest = body;
        parser = at expecting_newline_3 [] [];
        request = parsed_request m r body req;
      })
parse-render m r body junk req w e n =
    let line = r.uri ++ (b' ' ∷ render_version r (render_headers r.headers body)) in
    let named =
      parse_method-name m (r.first ∷ r.others) (b' ' ∷ line) (0 ∷ junk)
        (record req { body_ = render r body }) e (named-IsListed m r.first r.others e) in
    parse-memory initial req (render r body) junk n
    ∙ ap (λ q. some (feed initial q (render r body))) named
    ∙ ap some (feed-render r body _ w)
