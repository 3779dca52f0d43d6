-- ===== src/Handler/ReverseProxy/Response.antt =====
-- How the reverse proxy reads a response (src/request_handler/reverse_proxy_handler.cc, the middle of
-- `HandleRequest`).
use cs.Prelude.{
  ℕ, ◌+◌, ◌-◌, ◌%◌, ◌^◌, Bool, true, false, ◌&&◌, [], ◌∷◌, ◌++◌, leb, ◌==◌, if◌then◌else◌, Text,
  codes, length, take, drop, starts_with,
}
use cs.Decimal.{is_digit, decimal}
use cs.OrderedMap
use cs.OrderedMap.{OrderedMap}
use cs.Http.Reply.{
  StatusCode, ok, created, accepted, no_content, multiple_choices, moved_permanently,
  moved_temporarily, not_modified, bad_request, unauthorized, forbidden, not_found,
  internal_server_error, not_implemented, bad_gateway, service_unavailable, Reply,
}
use cs.Handler.Fixed.{size_minus}
use cs.Handler.ReverseProxy.External.{Libraries}

-- A value, an exception, or undefined behaviour.
pub data Result {ℓ} (A : Type ℓ) : Type ℓ where
  returned : A → Result A
  thrown undefined : Result A

infixl 5 ◌>>=◌
abbrev pub ◌>>=◌ {ℓ κ} : {A : Type ℓ} {B : Type κ} → Result A → (A → Result B) → Result B
returned a >>= f = f a
thrown >>= f = thrown
undefined >>= f = undefined

abbrev pub npos : ℕ
npos = 2 ^ 64 - 1

-- `s.find(t)` for a text `t` that is not empty, `i` bytes into the whole.
unfoldable pub find_text : Text → ℕ → Text → ℕ
find_text t i [] = npos
find_text t i (c ∷ s) = if starts_with (c ∷ s) t then i else find_text t (i + 1) s

-- `s.substr(p, n)`
unfoldable pub substr : ℕ → ℕ → Text → Result Text
substr p n s = if leb p (length s) then returned (take n (drop p s)) else thrown

-- The cast of a number to `status_code`.
unfoldable pub code_of : ℕ → StatusCode
code_of n =
    if n == 200
    then ok
    else if n == 201
    then created
    else if n == 202
    then accepted
    else if n == 204
    then no_content
    else if n == 300
    then multiple_choices
    else if n == 301
    then moved_permanently
    else if n == 302
    then moved_temporarily
    else if n == 304
    then not_modified
    else if n == 400
    then bad_request
    else if n == 401
    then unauthorized
    else if n == 403
    then forbidden
    else if n == 404
    then not_found
    else if n == 500
    then internal_server_error
    else if n == 501
    then not_implemented
    else if n == 502
    then bad_gateway
    else if n == 503
    then service_unavailable
    else StatusCode.other n

-- The loop over the request line: `n` is `num_counter`, `p` and `q` are the two bytes before.
unfoldable pub scan_status : ℕ → ℕ → ℕ → StatusCode → Text → StatusCode
unfolding code_of
scan_status n p q code [] = code
scan_status n p q code (c ∷ s) =
    scan_status (if is_digit c then n + 1 else 0) q c
      (if is_digit c && (n == 2) then code_of (decimal 0 (p ∷ q ∷ c ∷ [])) else code) s

-- The variables of the loop over one header's line.
pub record Line : Type 0 where
  pub tmp_buf : Text
  pub header_key : Text
  pub ignore_whitespace : Bool
  pub is_header_key : Bool

abbrev pub new_line : Line
new_line = record { tmp_buf = []; header_key = []; ignore_whitespace = true; is_header_key = true }

-- The body of that loop.
unfoldable pub next_byte : ℕ → Line → Line
next_byte c l =
    if l.ignore_whitespace
    then (if c == b' '
        then l
        else record l { ignore_whitespace = false; tmp_buf = l.tmp_buf ++ (c ∷ []) })
    else if l.is_header_key && (c == b':')
    then record {
      tmp_buf = [];
      header_key = l.tmp_buf;
      ignore_whitespace = true;
      is_header_key = false;
    }
    else record l { tmp_buf = l.tmp_buf ++ (c ∷ []) }

-- `headers_[trim_copy(header_key)] = trim_copy(tmp_buf)`
abbrev pub store_line : Libraries → Line → OrderedMap Text → OrderedMap Text
store_line lib l m = OrderedMap.insert (lib.trim_copy l.header_key) (lib.trim_copy l.tmp_buf) m

-- Both loops over `headers`; `inside` tells that a line has begun. A text that ends inside of a line
-- is read past its end, which is undefined; one that ends with the carriage return makes `substr`
-- throw.
unfoldable pub read_headers :
    Libraries → OrderedMap Text → Bool → Line → Text → Result (OrderedMap Text)
unfolding next_byte
read_headers lib m false l [] = returned m
read_headers lib m true l [] = undefined
read_headers lib m inside l (c ∷ []) = if c == b'\r' then thrown else undefined
read_headers lib m inside l (c ∷ d ∷ s) =
    let stored = read_headers lib (store_line lib l m) false new_line s in
    let more = read_headers lib m true (next_byte c l) (d ∷ s) in
    if c == b'\r' then stored else more

-- From `// Parse the reply` to the end of the loop over the headers. The code of a reply begins as 0.
unfoldable pub read_response : Libraries → Text → Result Reply
unfolding find_text substr scan_status read_headers
read_response lib response_str =
    let header_end_pos = find_text (codes "\r\n\r\n") 0 response_str in
    let request_line = take (find_text (codes "\r\n") 0 response_str) response_str in
    substr (length request_line + 2) (size_minus header_end_pos (length request_line)) response_str
    >>= λ headers. substr ((header_end_pos + 4) % 2 ^ 64) npos response_str >>= λ body_.
        read_headers lib [] false new_line headers >>= λ headers_. returned (record {
          code_ = scan_status 0 0 0 (StatusCode.other 0) request_line;
          headers_ = headers_;
          body_ = body_;
        })
