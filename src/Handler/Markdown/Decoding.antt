-- ===== src/Handler/Markdown/Decoding.antt =====
-- What `urldecode2` makes of an encoded text.
use cs.Prelude.{
  ℕ, suc, ◌+◌, ◌-◌, ◌*◌, ◌/◌, ◌%◌, ◌^◌, ◌≡◌, ◌<◌, refl, sym, ap, arith, Bool, true, false, inl, inr,
  Bool-cases, [], ◌∷◌, none, some, ltb, leb, ◌==◌, ==_iff, if◌then◌else◌, Text, All, length,
}
use cs.Strings.{up_to_nul}
use cs.Handler.Markdown.{is_xdigit, xdigit, decode, urldecode2}

-- The digit of a value below 16.
abbrev pub hex : ℕ → ℕ
hex n = if ltb n 10 then b'0' + n else b'A' + (n - 10)

-- The encoding of a form's field: the bytes that `keep` holds of stand as they are, a space is a
-- plus, and every other byte a percent sign and two digits.
abbrev pub encode : (ℕ → Bool) → Text → Text
encode keep [] = []
encode keep (c ∷ s) =
    let rest = encode keep s in
    if keep c
    then c ∷ rest
    else if c == b' '
    then b'+' ∷ rest
    else b'%' ∷ hex (c / 16) ∷ hex (c % 16) ∷ rest

hex-is_xdigit : (n : ℕ) → n < 16 → is_xdigit (hex n) ≡ true
unfolding is_xdigit
hex-is_xdigit n h = ground arith

xdigit-hex : (n : ℕ) → n < 16 → xdigit (hex n) ≡ n
unfolding xdigit
xdigit-hex n h = ground arith

decode-plain :
    (c : ℕ) (s : Text)
    → (c == b'%') ≡ false
    → decode 0 (c ∷ s) ≡ (if c == b'+' then b' ' else c) ∷ decode 0 s
unfolding decode
decode-plain c [] h = refl
decode-plain c (a ∷ []) h = refl
decode-plain c (a ∷ b ∷ s) h = rw h refl

decode-escape :
    (a b : ℕ) (s : Text)
    → is_xdigit a ≡ true
    → is_xdigit b ≡ true
    → decode 0 (b'%' ∷ a ∷ b ∷ s) ≡ ((16 * xdigit a + xdigit b) % 2 ^ 8) ∷ decode 0 s
unfolding decode
decode-escape a b s h k = rw (h, k) refl

ne_of_kept : (keep : ℕ → Bool) (c d : ℕ) → keep c ≡ true → keep d ≡ false → (c == d) ≡ false
ne_of_kept keep c d h k = elim (Bool-cases (c == d)) [
  | inl e ↦ let same : c ≡ d = (==_iff c d).0 e in cc
  | inr e ↦ e
]

-- The two digits of a byte stand for it.
digits_of : (c : ℕ) → c < 2 ^ 8 → (16 * xdigit (hex (c / 16)) + xdigit (hex (c % 16))) % 2 ^ 8 ≡ c
digits_of c n =
    rw (xdigit-hex (c / 16) (omega arith), xdigit-hex (c % 16) (omega arith)) (omega arith)

decode-encode :
    (keep : ℕ → Bool) (s : Text)
    → keep b'%' ≡ false
    → keep b'+' ≡ false
    → All (λ c. c < 2 ^ 8) s
    → decode 0 (encode keep s) ≡ s
decode-encode keep [] p q h = unfold decode in refl
decode-encode keep (c ∷ s) p q (n, h) =
    let rest = decode-encode keep s p q h in
    elim (Bool-cases (keep c)) [
      | inl kept ↦
          rw
            (
              kept,
              decode-plain c (encode keep s) (ne_of_kept keep c b'%' kept p),
              rest,
              ne_of_kept keep c b'+' kept q,
            )
            refl
      | inr encoded ↦ elim (Bool-cases (c == b' ')) [
        | inl space ↦
            rw (encoded, space, decode-plain b'+' (encode keep s) refl, rest)
              (ap (λ d. d ∷ s) (sym ((==_iff c b' ').0 space)))
        | inr other ↦
            rw
              (
                encoded,
                other,
                decode-escape (hex (c / 16)) (hex (c % 16)) (encode keep s)
                    (hex-is_xdigit (c / 16) (omega arith)) (hex-is_xdigit (c % 16) (omega arith)),
                rest,
                digits_of c n,
              )
              refl
      ]
    ]

up_to_nul-All : (s : Text) → All (λ c. (c == 0) ≡ false) s → up_to_nul s ≡ s
unfolding up_to_nul
up_to_nul-All [] h = refl
up_to_nul-All (c ∷ s) (n, h) = rw n (ap (◌∷◌ c) (up_to_nul-All s h))

hex-positive : (n : ℕ) → (hex n == 0) ≡ false
hex-positive n = ground arith

hex-no-space : (n : ℕ) → (hex n == b' ') ≡ false
hex-no-space n = ground arith

encode-All :
    (keep : ℕ → Bool) (s : Text) → keep 0 ≡ false → All (λ c. (c == 0) ≡ false) (encode keep s)
encode-All keep [] z = tt
encode-All keep (c ∷ s) z =
    let rest = encode-All keep s z in
    elim (Bool-cases (keep c)) [
      | inl kept ↦ rw kept (ne_of_kept keep c 0 kept z, rest)
      | inr encoded ↦ elim (Bool-cases (c == b' ')) [
        | inl space ↦ rw (encoded, space) (refl, rest)
        | inr other ↦
            rw (encoded, other) (refl, (hex-positive (c / 16), (hex-positive (c % 16), rest)))
      ]
    ]

length-decode : (s : Text) → All (λ c. (c == b'%') ≡ false) s → length (decode 0 s) ≡ length s
length-decode [] h = unfold decode in refl
length-decode (c ∷ s) (n, h) = rw (decode-plain c s n) (ap suc (length-decode s h))

pub encode-no-space :
    (keep : ℕ → Bool) (s : Text)
    → keep b' ' ≡ false
    → All (λ c. (c == b' ') ≡ false) (encode keep s)
encode-no-space keep [] z = tt
encode-no-space keep (c ∷ s) z =
    let rest = encode-no-space keep s z in
    elim (Bool-cases (keep c)) [
      | inl kept ↦ rw kept (ne_of_kept keep c b' ' kept z, rest)
      | inr encoded ↦ elim (Bool-cases (c == b' ')) [
        | inl space ↦ rw (encoded, space) (refl, rest)
        | inr other ↦
            rw (encoded, other) (refl, (hex-no-space (c / 16), (hex-no-space (c % 16), rest)))
      ]
    ]

-- What a form's field is encoded to is decoded back, for any choice of the bytes that stand as they
-- are, but NUL, percent and plus, and for any bytes of the field, if the buffer has room for them
-- and a NUL.
pub urldecode2-encode :
    (keep : ℕ → Bool) (size : ℕ) (s : Text)
    → keep 0 ≡ false
    → keep b'%' ≡ false
    → keep b'+' ≡ false
    → All (λ c. c < 2 ^ 8) s
    → length s < size
    → urldecode2 size (encode keep s) ≡ some s
unfolding urldecode2
urldecode2-encode keep size s z p q h room =
    let fits : leb (length s + 1) size ≡ true = ground arith in
    rw (up_to_nul-All (encode keep s) (encode-All keep s z), decode-encode keep s p q h, fits) refl

-- A text with no percent sign and no NUL does not fit, with its NUL, into a buffer of its own
-- length: the decoding writes past its end.
pub urldecode2-overflow :
    (input : Text)
    → All (λ c. (c == b'%') ≡ false) input
    → All (λ c. (c == 0) ≡ false) input
    → urldecode2 (length input) input ≡ none
unfolding urldecode2
urldecode2-overflow input h z =
    let over : leb (length input + 1) (length input) ≡ false = ground arith in
    rw (up_to_nul-All input z, length-decode input h, over) refl
