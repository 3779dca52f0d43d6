-- ===== src/Http/RequestParser/CharClasses.antt =====
-- The character tests of `request_parser`, against the ranges of bytes that they stand for.
use cs.Prelude.{
  ℕ, ◌≤◌, ◌≡◌, ◌↔◌, ◌⊎◌, Bool, true, false, arith, inl, inr, ◌==◌, ==_iff, Bool-cases, Text, All,
}
use cs.Http.RequestParser.{is_not_token, is_control, is_decimal}

-- A control byte is one up to 31, or 127. A byte from 128 on, negative as a `char`, is none.
pub is_control_iff : (c : ℕ) → (is_control c ≡ true) ↔ ((c ≤ 31) ⊎ (c ≡ 127))
unfolding is_control
is_control_iff c = ground arith

pub is_decimal_iff : (c : ℕ) → (is_decimal c ≡ true) ↔ ((b'0' ≤ c) × (c ≤ b'9'))
unfolding is_decimal
is_decimal_iff c = ground arith

-- No control byte and no byte from 128 on may stand in a method or in a header's name.
pub not_token_of_range : (c : ℕ) → (c ≤ 32) ⊎ (127 ≤ c) → is_not_token c ≡ true
unfolding is_not_token
not_token_of_range c h = ground arith

-- Two bytes that a test tells apart are different.
pub ne_by_test : (test : ℕ → Bool) (c d : ℕ) → test c ≡ false → test d ≡ true → (c == d) ≡ false
ne_by_test test c d h k = elim (Bool-cases (c == d)) [
  | inl e ↦ let same : c ≡ d = (==_iff c d).0 e in cc
  | inr e ↦ e
]

-- The bytes that a method, a header's name, a header's value, a URI and a number may hold.
abbrev pub IsToken : Text → Type 0
IsToken = All (λ c. is_not_token c ≡ false)

abbrev pub IsPlain : Text → Type 0
IsPlain = All (λ c. is_control c ≡ false)

abbrev pub IsUri : Text → Type 0
IsUri = All (λ c. (is_control c ≡ false) × ((c == b' ') ≡ false))

abbrev pub IsNumber : Text → Type 0
IsNumber = All (λ c. is_decimal c ≡ true)
