-- ===== src/Http/RequestParser/Grammar.antt =====
-- The grammar of the heads that the request parser is to accept, and what a head comes to.
use cs.Prelude.{ℕ, ◌%◌, ◌^◌, ◌≡◌, Bool, false, List, [], ◌∷◌, ◌++◌, ◌==◌, ◌||◌, true, Text, All}
use cs.Decimal.{decimal}
use cs.OrderedMap
use cs.OrderedMap.{OrderedMap}
use cs.Http.Request.{Request}
use cs.Http.RequestParser.CharClasses.{IsToken, IsPlain, IsUri, IsNumber}
use cs.Http.RequestParser.Pieces.{header_line}

-- A line behind the request line: a header, or one that begins with blanks.
pub data Line : Type 0 where
  named : (first : ℕ) (others value : Text) → Line
  folded : (first : ℕ) (blanks value : Text) → Line

-- The head of a request, by its parts.
pub record Head : Type 0 where
  pub first : ℕ
  pub others : Text
  pub uri : Text
  pub major : ℕ
  pub majors : Text
  pub minor : ℕ
  pub minors : Text
  pub lines : List Line

abbrev pub is_lws : ℕ → Bool
is_lws c = c == b' ' || c == b'\t'

abbrev pub IsBlanks : Text → Type 0
IsBlanks = All (λ c. is_lws c ≡ true)

-- The value of a folded line begins with no blank.
abbrev pub IsFolded : Text → Type 0
IsFolded [] = Unit
IsFolded (c ∷ w) = (is_lws c ≡ false) × IsPlain (c ∷ w)

abbrev pub render_line : Line → Text → Text
render_line (named first others value) rest = header_line (first ∷ others) value rest
render_line (folded first blanks value) rest = first ∷ (blanks ++ (value ++ (b'\r' ∷ b'\n' ∷ rest)))

abbrev pub render_lines : List Line → Text → Text
render_lines [] rest = b'\r' ∷ b'\n' ∷ rest
render_lines (l ∷ ls) rest = render_line l (render_lines ls rest)

abbrev pub render_numbers : Head → Text → Text
render_numbers h rest =
    h.major ∷ (h.majors ++ (b'.' ∷ h.minor ∷ (h.minors ++ (b'\r' ∷ b'\n' ∷ rest))))

-- `METHOD URI HTTP/major.minor`, in front of `rest`.
abbrev pub render_request_line : Head → Text → Text
render_request_line h rest =
    h.first
    ∷ (h.others
        ++ (b' ' ∷ (h.uri ++ (b' ' ∷ b'H' ∷ b'T' ∷ b'T' ∷ b'P' ∷ b'/' ∷ render_numbers h rest))))

-- The request line, the lines and an empty one, in front of `rest`.
abbrev pub render_head : Head → Text → Text
render_head h rest = render_request_line h (render_lines h.lines rest)

-- A line in `headers_`: the value of a folded one goes to the empty name.
abbrev pub store_line : Line → OrderedMap Text → OrderedMap Text
store_line (named first others value) m = OrderedMap.insert (first ∷ others) value m
store_line (folded first blanks value) m = OrderedMap.insert [] value m

abbrev pub store_lines : List Line → OrderedMap Text → OrderedMap Text
store_lines [] m = m
store_lines (l ∷ ls) m = store_lines ls (store_line l m)

-- A line that may stand where the headers before it are `m`.
abbrev pub IsLine : OrderedMap Text → Line → Type 0
IsLine m (named first others value) = IsToken (first ∷ others) × IsPlain value
IsLine m (folded first blanks value) =
    (OrderedMap.is_empty m ≡ false) × (is_lws first ≡ true) × IsBlanks blanks × IsFolded value

abbrev pub AreLines : OrderedMap Text → List Line → Type 0
AreLines m [] = Unit
AreLines m (l ∷ ls) = IsLine m l × AreLines (store_line l m) ls

pub record IsRequestLine (h : Head) : Type 0 where
  pub method : IsToken (h.first ∷ h.others)
  pub uri : IsUri h.uri
  pub major : IsNumber (h.major ∷ h.majors)
  pub minor : IsNumber (h.minor ∷ h.minors)

abbrev pub IsHead : OrderedMap Text → Head → Type 0
IsHead m h = IsRequestLine h × AreLines m h.lines

-- The request behind the request line: the URI goes behind what `uri_` held, the numbers
-- are taken in 32 bits.
abbrev pub apply_request_line : Head → Request → Request
apply_request_line h req = record req {
  uri_ = req.uri_ ++ h.uri;
  http_version_major = decimal 0 (h.major ∷ h.majors) % 2 ^ 32;
  http_version_minor = decimal 0 (h.minor ∷ h.minors) % 2 ^ 32;
}

-- The request behind the head.
abbrev pub apply_head : Head → Request → Request
apply_head h req = record (apply_request_line h req) { headers_ = store_lines h.lines req.headers_ }
