-- ===== src/Decimal/Laws.antt =====
-- `std::stoi` reads back what `std::to_string` writes.
use cs.Prelude.{
  ℕ, zero, suc, ◌+◌, ◌-◌, ◌*◌, ◌/◌, ◌%◌, ◌^◌, ◌<◌, ◌≡◌, ◌≢◌, refl, ◌∙◌, ap, true, [], ◌∷◌, some,
  arith, ltb, Text, All, inl, inr, Bool-cases,
}
use cs.Prelude.Int.{pos}
use cs.Decimal.{digits, to_string, is_digit, leading_digits, decimal, stoi}

abbrev pub IsDigits : Text → Type 0
IsDigits = All (λ c. is_digit c ≡ true)

digits-IsDigits : (f n : ℕ) (acc : Text) → IsDigits acc → IsDigits (digits f n acc)
unfolding digits
digits-IsDigits zero n acc h = h
digits-IsDigits (suc f) n acc h =
    ground (arith, digits-IsDigits f (n / 10) ((b'0' + n % 10) ∷ acc) (ground arith, h))

decimal-digits : (f n : ℕ) (acc : Text) → n < f → decimal 0 (digits f n acc) ≡ decimal n acc
unfolding digits
decimal-digits zero n acc h = absurd (omega arith)
decimal-digits (suc f) n acc h = elim (Bool-cases (ltb n 10)) [
  | inl small ↦
      let e : 0 * 10 + (b'0' + n - b'0') ≡ n = omega arith in rw small (ap (λ k. decimal k acc) e)
  | inr big ↦
      let e : n / 10 * 10 + (b'0' + n % 10 - b'0') ≡ n = omega arith in
      rw big (
        decimal-digits f (n / 10) ((b'0' + n % 10) ∷ acc) (ground arith)
        ∙ ap (λ k. decimal k acc) e)
]

digits-ne-nil : (f n : ℕ) (acc : Text) → 0 < f → digits f n acc ≢ []
unfolding digits
digits-ne-nil zero n acc h = absurd (omega arith)
digits-ne-nil (suc zero) n acc h = ground arith
digits-ne-nil (suc (suc f)) n acc h =
    ground (arith, digits-ne-nil (suc f) (n / 10) ((b'0' + n % 10) ∷ acc))

pub to_string-IsDigits : (n : ℕ) → IsDigits (to_string n)
unfolding to_string
to_string-IsDigits n = digits-IsDigits (suc n) n [] tt

pub decimal-to_string : (n : ℕ) → decimal 0 (to_string n) ≡ n
unfolding to_string
decimal-to_string n = decimal-digits (suc n) n [] (omega arith)

leading_digits_of_IsDigits : (s : Text) → IsDigits s → leading_digits s ≡ s
unfolding leading_digits
leading_digits_of_IsDigits [] h = refl
leading_digits_of_IsDigits (c ∷ s) (d, h) = ground (arith, leading_digits_of_IsDigits s h)

stoi_of_IsDigits :
    (s : Text) → IsDigits s → s ≢ [] → decimal 0 s < 2 ^ 31 → stoi s ≡ some (pos (decimal 0 s))
unfolding stoi
stoi_of_IsDigits [] h n b = absurd (n refl)
stoi_of_IsDigits (c ∷ s) (d, h) n b = ground (arith, leading_digits_of_IsDigits s h)

-- Every number that fits into an `int` is read back from its decimal text.
pub stoi-to_string : (n : ℕ) → n < 2 ^ 31 → stoi (to_string n) ≡ some (pos n)
stoi-to_string n h =
    let e = decimal-to_string n in
    let k =
      stoi_of_IsDigits (to_string n) (to_string-IsDigits n)
        (unfold to_string in digits-ne-nil (suc n) n [] (omega arith)) (rw e h) in
    k ∙ rw e
