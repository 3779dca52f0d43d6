-- ===== src/Http/RequestParser.antt =====
-- `http::server::request_parser` (include/http/request_parser.h, src/http/request_parser.cc).
-- A byte is a number below 256; `char` is signed, so a byte from 128 on is a negative `int`.
pub mod Accepting
pub mod CharClasses
pub mod Tokens
pub mod Exactness
pub mod Feeding
pub mod Folding
pub mod Grammar
pub mod Lines
pub mod Pieces
pub mod RequestLines
pub mod Rereading
pub mod RoundTrip
pub mod Splitting
use cs.Prelude.{
  ℕ, ◌+◌, ◌-◌, ◌*◌, ◌%◌, ◌^◌, Bool, false, not, ◌&&◌, ◌||◌, [], ◌∷◌, ◌++◌, ◌==◌, if◌then◌else◌,
  Text, codes, text_eq, take, Option, none, some,
}
use cs.Prelude.Int.{ℤ, pos, negsuc, leb_ℤ, promote}
use cs.OrderedMap
use cs.Http.Request.{
  MethodType, get_req, head_req, post_req, put_req, delete_req, connect_req, options_req, trace_req,
  patch_req, Request,
}

-- `request_parser::result_type`
pub data ResultType : Type 0 where
  good bad indeterminate : ResultType

-- `request_parser::state`
pub data State : Type 0 where
  method_start method uri http_version_h http_version_t_1 http_version_t_2 : State
  http_version_p http_version_slash http_version_major_start http_version_major : State
  http_version_minor_start http_version_minor expecting_newline_1 : State
  header_line_start header_lws header_name space_before_header_value header_value : State
  expecting_newline_2 expecting_newline_3 : State

pub record RequestParser : Type 0 where
  pub temp_key : Text
  pub temp_value : Text
  pub state_ : State

-- `request_parser::request_parser`
abbrev pub initial : RequestParser
initial = record { temp_key = []; temp_value = []; state_ = method_start }

-- `request_parser::reset`
unfoldable pub reset : RequestParser → RequestParser
reset p = record p { state_ = method_start }

pub is_char : ℤ → Bool
is_char c = leb_ℤ (pos 0) c && leb_ℤ c (pos 127)

pub is_ctl : ℤ → Bool
is_ctl c = (leb_ℤ (pos 0) c && leb_ℤ c (pos 31)) || (leb_ℤ (pos 127) c && leb_ℤ c (pos 127))

abbrev one_of : Text → ℕ → Bool
one_of [] n = false
one_of (c ∷ cs) n = n == c || one_of cs n

-- The `switch` of `is_tspecial`.
pub is_tspecial : ℤ → Bool
is_tspecial (pos n) = one_of (codes "()<>@,;:\\\"/[]?={} \t") n
is_tspecial (negsuc n) = false

pub is_digit : ℤ → Bool
is_digit c = leb_ℤ (pos b'0') c && leb_ℤ c (pos b'9')

-- `!is_char(input) || is_ctl(input) || is_tspecial(input)`
unfoldable pub is_not_token : ℕ → Bool
unfolding is_char is_ctl is_tspecial
is_not_token input =
    not (is_char (promote input)) || is_ctl (promote input) || is_tspecial (promote input)

unfoldable pub is_control : ℕ → Bool
unfolding is_ctl
is_control input = is_ctl (promote input)

unfoldable pub is_decimal : ℕ → Bool
unfolding is_digit
is_decimal input = is_digit (promote input)

-- `version * 10 + input - '0'` for a decimal digit. A number that overflows an `int`, which C++
-- leaves undefined, wraps around in 32 bits.
unfoldable pub push_digit : ℕ → ℕ → ℕ
push_digit version input = (version * 10 + (input - b'0')) % 2 ^ 32

-- What a call of `consume` leaves: its result, the parser and the request.
pub record Consumed : Type 0 where
  pub result : ResultType
  pub parser : RequestParser
  pub request : Request

abbrev stop : ResultType → RequestParser → Request → Consumed
stop r p req = record { result = r; parser = p; request = req }

-- `state_ = s; return indeterminate;`
abbrev goto : State → RequestParser → Request → Consumed
goto s p req = stop indeterminate (record p { state_ = s }) req

abbrev expect : ℕ → ℕ → State → RequestParser → Request → Consumed
expect wanted input s p req = if input == wanted then goto s p req else stop bad p req

abbrev clear : RequestParser → RequestParser
clear p = record p { temp_key = []; temp_value = [] }

-- `req.headers_[temp_key] = temp_value`
abbrev store_header : RequestParser → Request → Request
store_header p req = record req {
  headers_ = OrderedMap.insert p.temp_key p.temp_value req.headers_;
}

abbrev push_key : ℕ → RequestParser → RequestParser
push_key input p = record p { temp_key = p.temp_key ++ (input ∷ []) }

abbrev push_value : ℕ → RequestParser → RequestParser
push_value input p = record p { temp_value = p.temp_value ++ (input ∷ []) }

-- `case header_line_start`
consume_line_start : RequestParser → Request → ℕ → Consumed
consume_line_start p req input =
    if input == b'\r'
    then (if text_eq p.temp_key []
        then goto expecting_newline_3 p req
        else goto expecting_newline_3 (clear p) (store_header p req))
    else if not (OrderedMap.is_empty req.headers_) && (input == b' ' || input == b'\t')
    then goto header_lws p req
    else if is_not_token input
    then stop bad p req
    else goto header_name (push_key input p) req

-- `case header_lws`
consume_lws : RequestParser → Request → ℕ → Consumed
consume_lws p req input =
    if input == b'\r'
    then goto expecting_newline_2 p req
    else if input == b' ' || input == b'\t'
    then stop indeterminate p req
    else if is_control input
    then stop bad p req
    else goto header_value (push_value input p) req

-- The `switch` of `request_parser::consume`, on `state_`.
unfoldable pub consume_in : State → RequestParser → Request → ℕ → Consumed
unfolding consume_line_start consume_lws
consume_in method_start p req input =
    if is_not_token input then stop bad p req else goto method p req
consume_in method p req input =
    if input == b' '
    then goto uri p req
    else if is_not_token input
    then stop bad p req
    else stop indeterminate p req
consume_in uri p req input =
    if input == b' '
    then goto http_version_h p req
    else if is_control input
    then stop bad p req
    else stop indeterminate p (record req { uri_ = req.uri_ ++ (input ∷ []) })
consume_in http_version_h p req input = expect b'H' input http_version_t_1 p req
consume_in http_version_t_1 p req input = expect b'T' input http_version_t_2 p req
consume_in http_version_t_2 p req input = expect b'T' input http_version_p p req
consume_in http_version_p p req input = expect b'P' input http_version_slash p req
consume_in http_version_slash p req input =
    expect b'/' input http_version_major_start p
      (if input == b'/' then record req { http_version_major = 0; http_version_minor = 0 } else req)
consume_in http_version_major_start p req input =
    if is_decimal input
    then goto http_version_major p
        (record req { http_version_major = push_digit req.http_version_major input })
    else stop bad p req
consume_in http_version_major p req input =
    if input == b'.'
    then goto http_version_minor_start p req
    else if is_decimal input
    then stop indeterminate p
        (record req { http_version_major = push_digit req.http_version_major input })
    else stop bad p req
consume_in http_version_minor_start p req input =
    if is_decimal input
    then goto http_version_minor p
        (record req { http_version_minor = push_digit req.http_version_minor input })
    else stop bad p req
consume_in http_version_minor p req input =
    if input == b'\r'
    then goto expecting_newline_1 p req
    else if is_decimal input
    then stop indeterminate p
        (record req { http_version_minor = push_digit req.http_version_minor input })
    else stop bad p req
consume_in expecting_newline_1 p req input =
    if input == b'\n' then goto header_line_start (clear p) req else stop bad p req
consume_in header_line_start p req input = consume_line_start p req input
consume_in header_lws p req input = consume_lws p req input
consume_in header_name p req input =
    if input == b':'
    then goto space_before_header_value p req
    else if is_not_token input
    then stop bad p req
    else stop indeterminate (push_key input p) req
consume_in space_before_header_value p req input = expect b' ' input header_value p req
consume_in header_value p req input =
    if input == b'\r'
    then goto expecting_newline_2 p req
    else if is_control input
    then stop bad p req
    else stop indeterminate (push_value input p) req
consume_in expecting_newline_2 p req input =
    if input == b'\n' then goto header_line_start (clear p) (store_header p req) else stop bad p req
consume_in expecting_newline_3 p req input =
    if input == b'\n' then stop good p req else stop bad p req

-- `request_parser::consume`
abbrev pub consume : RequestParser → Request → ℕ → Consumed
consume p = consume_in p.state_ p

-- What the loop of `parse` returns, with the bytes behind the last one read.
pub record Parsed : Type 0 where
  pub result : ResultType
  pub rest : Text
  pub parser : RequestParser
  pub request : Request

-- The test of `result` in the loop of `parse`: `go` is the rest of the loop.
abbrev pub return_or : Consumed → Text → (RequestParser → Request → Parsed) → Parsed
return_or c rest go = elim c.result [
  | good ↦ record { result = good; rest = rest; parser = c.parser; request = c.request }
  | bad ↦ record { result = bad; rest = rest; parser = c.parser; request = c.request }
  | indeterminate ↦ go c.parser c.request
]

-- The loop of `request_parser::parse`.
unfoldable pub feed : RequestParser → Request → Text → Parsed
feed p req [] = record { result = indeterminate; rest = []; parser = p; request = req }
feed p req (c ∷ cs) = return_or (consume p req c) cs (λ p' req'. feed p' req' cs)

-- The C string that starts at the head of a block of memory. With no NUL in the block a read
-- leaves it, which is undefined: `none`.
unfoldable pub c_str : Text → Option Text
c_str [] = none
c_str (c ∷ cs) = if c == 0 then some [] else elim (c_str cs) [ none ↦ none | some s ↦ some (c ∷ s) ]

-- The ladder of `strcmp` in `request_parser::parse_method`. An unknown method only is logged.
unfoldable pub method_of : MethodType → Text → MethodType
method_of old s =
    if text_eq s (codes "GET")
    then get_req
    else if text_eq s (codes "HEA")
    then head_req
    else if text_eq s (codes "POS")
    then post_req
    else if text_eq s (codes "PUT")
    then put_req
    else if text_eq s (codes "DEL")
    then delete_req
    else if text_eq s (codes "CON")
    then connect_req
    else if text_eq s (codes "OPT")
    then options_req
    else if text_eq s (codes "TRA")
    then trace_req
    else if text_eq s (codes "PAT")
    then patch_req
    else old

-- `request_parser::parse_method`: three bytes and a NUL, compared as a C string. Three bytes of
-- which one is NUL equal no name on the ladder.
unfoldable pub parse_method : Request → Text → Request
unfolding method_of
parse_method req memory = record req { method_ = method_of req.method_ (take 3 memory) }

-- `request_parser::parse` on the first `count` bytes of a block of memory that `begin` points to.
unfoldable pub parse : RequestParser → Request → Text → ℕ → Option Parsed
unfolding feed c_str parse_method
parse p req memory count = elim (c_str memory) [
  | none ↦ none
  | some body ↦
      some (feed p (parse_method (record req { body_ = body }) memory) (take count memory))
]
