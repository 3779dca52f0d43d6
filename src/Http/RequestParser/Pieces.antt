-- ===== src/Http/RequestParser/Pieces.antt =====
-- The parser over one piece of a request, with any bytes behind it.

use cs.Prelude.{
  ℕ, ◌+◌, ◌*◌, ◌-◌, ◌%◌, ◌^◌, ◌==◌, ==_iff, Bool-cases, inl, inr, ◌≡◌, refl, true, false, [], ◌∷◌,
  ◌++◌, append-nil, append_assoc, arith, Text,
}
use cs.Decimal.{decimal}
use cs.OrderedMap
use cs.Http.Request.{Request}
use cs.Http.RequestParser.{
  State, method, uri, http_version_h, http_version_major, http_version_minor_start,
  http_version_minor, expecting_newline_1, header_line_start, header_name, header_value,
  expecting_newline_2, space_before_header_value, RequestParser, is_not_token, is_control,
  is_decimal, push_digit, consume_in, feed,
}
use cs.Http.RequestParser.CharClasses.{IsToken, IsPlain, IsUri, IsNumber, ne_by_test}

abbrev pub at : State → Text → Text → RequestParser
at s k v = record { temp_key = k; temp_value = v; state_ = s }

-- The number that a run of digits gives, from a number read before it.
abbrev pub number : ℕ → Text → ℕ
number a [] = a
number a (c ∷ n) = number (push_digit a c) n

-- Digits read one by one in 32 bits come to the decimal number in 32 bits.
number-wrapped : (a : ℕ) (n : Text) → number (a % 2 ^ 32) n ≡ decimal a n % 2 ^ 32
unfolding push_digit
number-wrapped a [] = refl
number-wrapped a (c ∷ n) =
    let here : push_digit (a % 2 ^ 32) c ≡ (a * 10 + (c - b'0')) % 2 ^ 32 = omega arith in
    rw here (number-wrapped (a * 10 + (c - b'0')) n)

pub number_lem : (n : Text) → number 0 n ≡ decimal 0 n % 2 ^ 32
number_lem n = number-wrapped 0 n

digit_ne : (c d : ℕ) → is_decimal c ≡ true → is_decimal d ≡ false → (c == d) ≡ false
digit_ne c d h k = elim (Bool-cases (c == d)) [
  | inl e ↦ let same : c ≡ d = (==_iff c d).0 e in cc
  | inr e ↦ e
]

module _ (k v : Text) where
  pub feed-token :
      (m rest : Text) (req : Request)
      → IsToken m
      → feed (at method k v) req (m ++ (b' ' ∷ rest)) ≡ feed (at uri k v) req rest
  unfolding feed consume_in
  feed-token [] rest req h = refl
  feed-token (c ∷ m) rest req (t, h) = ground (
    arith,
    feed-token m rest req h,
    ne_by_test is_not_token c b' ' t (unfold is_not_token in refl),
  )

  pub feed-uri :
      (u rest : Text) (req : Request)
      → IsUri u
      → feed (at uri k v) req (u ++ (b' ' ∷ rest))
        ≡ feed (at http_version_h k v) (record req { uri_ = req.uri_ ++ u }) rest
  unfolding feed consume_in
  feed-uri [] rest req h = rw (append-nil req.uri_)
  feed-uri (c ∷ u) rest req ((p, n), h) = ground (
    arith,
    feed-uri u rest (record req { uri_ = req.uri_ ++ (c ∷ []) }) h,
    append_assoc req.uri_ (c ∷ []) u,
  )

  pub feed-major :
      (n rest : Text) (req : Request)
      → IsNumber n
      → feed (at http_version_major k v) req (n ++ (b'.' ∷ rest))
        ≡ feed
            (at http_version_minor_start k v)
            (record req { http_version_major = number req.http_version_major n })
            rest
  unfolding feed consume_in
  feed-major [] rest req h = refl
  feed-major (c ∷ n) rest req (d, h) =
      let step = record req { http_version_major = push_digit req.http_version_major c } in
      ground (arith, feed-major n rest step h, digit_ne c b'.' d (unfold is_decimal in refl))

  pub feed-minor :
      (n rest : Text) (req : Request)
      → IsNumber n
      → feed (at http_version_minor k v) req (n ++ (b'\r' ∷ rest))
        ≡ feed
            (at expecting_newline_1 k v)
            (record req { http_version_minor = number req.http_version_minor n })
            rest
  unfolding feed consume_in
  feed-minor [] rest req h = refl
  feed-minor (c ∷ n) rest req (d, h) =
      let step = record req { http_version_minor = push_digit req.http_version_minor c } in
      ground (arith, feed-minor n rest step h, digit_ne c b'\r' d (unfold is_decimal in refl))

  pub feed-end_of_line :
      (rest : Text) (req : Request)
      → feed (at expecting_newline_1 k v) req (b'\n' ∷ rest)
        ≡ feed (at header_line_start [] []) req rest
  unfolding feed consume_in
  feed-end_of_line rest req = refl

module _ (v : Text) where
  pub feed-name :
      (n k rest : Text) (req : Request)
      → IsToken n
      → feed (at header_name k v) req (n ++ (b':' ∷ rest))
        ≡ feed (at space_before_header_value (k ++ n) v) req rest
  unfolding feed consume_in
  feed-name [] k rest req h = rw (append-nil k)
  feed-name (c ∷ n) k rest req (t, h) = ground (
    arith,
    feed-name n (k ++ (c ∷ [])) rest req h,
    append_assoc k (c ∷ []) n,
    ne_by_test is_not_token c b':' t (unfold is_not_token in refl),
  )

pub feed-value :
    (w k v rest : Text) (req : Request)
    → IsPlain w
    → feed (at header_value k v) req (w ++ (b'\r' ∷ rest))
      ≡ feed (at expecting_newline_2 k (v ++ w)) req rest
unfolding feed consume_in
feed-value [] k v rest req h = rw (append-nil v)
feed-value (c ∷ w) k v rest req (p, h) = ground (
  arith,
  feed-value w k (v ++ (c ∷ [])) rest req h,
  append_assoc v (c ∷ []) w,
  ne_by_test is_control c b'\r' p (unfold is_control in refl),
)

-- A header's line, name first.
abbrev pub header_line : Text → Text → Text → Text
header_line n w rest = n ++ (b':' ∷ b' ' ∷ (w ++ (b'\r' ∷ b'\n' ∷ rest)))

pub feed-header_line :
    (c : ℕ) (n w rest : Text) (req : Request)
    → IsToken (c ∷ n)
    → IsPlain w
    → feed (at header_line_start [] []) req (header_line (c ∷ n) w rest)
      ≡ feed
          (at header_line_start [] [])
          (record req { headers_ = OrderedMap.insert (c ∷ n) w req.headers_ })
          rest
unfolding feed consume_in
feed-header_line c n w rest req (t, h) p = ground (
  arith,
  ne_by_test is_not_token c b'\r' t (unfold is_not_token in refl),
  ne_by_test is_not_token c b' ' t (unfold is_not_token in refl),
  ne_by_test is_not_token c b'\t' t (unfold is_not_token in refl),
  feed-name [] n (c ∷ []) (b' ' ∷ (w ++ (b'\r' ∷ b'\n' ∷ rest))) req h,
  feed-value w (c ∷ n) [] (b'\n' ∷ rest) req p,
)
