-- ===== src/Http/RequestParser/Tokens.antt =====
-- The bytes of a token in the parser, against the list of them in RFC 7230.
use cs.Prelude.{
  ℕ, zero, suc, ◌<◌, ◌≤◌, ◌≡◌, refl, sym, ap, ◌∙◌, arith, Bool, true, false, not, ◌&&◌, ◌||◌, ◌==◌,
  ==_iff, Bool-cases, inl, inr, ltb, leb, codes, if◌then◌else◌,
}
use cs.Strings.{stands_in}
use cs.Http.RequestParser.{is_not_token}
use cs.Http.RequestParser.CharClasses.{not_token_of_range}

-- `tchar` in section 3.2.6 of RFC 7230: some marks, the digits and the letters.
abbrev pub is_tchar : ℕ → Bool
is_tchar c =
    stands_in (codes "!#$%&'*+-.^_`|~") c
    || (leb b'0' c && leb c b'9')
    || (leb b'A' c && leb c b'Z')
    || (leb b'a' c && leb c b'z')

abbrev is_agreed : ℕ → Bool
is_agreed c = if is_not_token c then not (is_tchar c) else is_tchar c

abbrev all_below : (ℕ → Bool) → ℕ → Bool
all_below test zero = true
all_below test (suc n) = test n && all_below test n

agreed-below : all_below is_agreed 128 ≡ true
unfolding is_not_token
agreed-below = refl

all_below-lem : (test : ℕ → Bool) (n c : ℕ) → all_below test n ≡ true → c < n → test c ≡ true
all_below-lem test zero c h less = absurd (omega arith)
all_below-lem test (suc n) c h less = elim (Bool-cases (c == n)) [
  | inl e ↦
      let same : c ≡ n = (==_iff c n).0 e in let last : test n ≡ true = ground (arith, h) in cc
  | inr other ↦
      let rest : all_below test n ≡ true = ground (arith, h) in
      let before : c < n = ground (arith, other, less) in all_below-lem test n c rest before
]

agreed-same : (a b : Bool) → (if a then not b else b) ≡ true → a ≡ not b
agreed-same true b h = sym h
agreed-same false true h = refl
agreed-same false false h = absurd cc

is_tchar-high : (c : ℕ) → 128 ≤ c → is_tchar c ≡ false
is_tchar-high c h = ground arith

-- The bytes that the parser takes in a method and in the name of a header are those of a token in RFC
-- 7230.
pub is_not_token-is_tchar : (c : ℕ) → is_not_token c ≡ not (is_tchar c)
is_not_token-is_tchar c = elim (Bool-cases (ltb c 128)) [
  | inl low ↦
      let same : is_agreed c ≡ true =
        all_below-lem is_agreed 128 c agreed-below (ground (arith, low)) in
      agreed-same (is_not_token c) (is_tchar c) same
  | inr high ↦
      let far : 128 ≤ c = ground (arith, high) in
      not_token_of_range c (inr (omega arith)) ∙ sym (ap not (is_tchar-high c far))
]
