-- ===== src/Decimal.antt =====
-- `std::to_string` of an unsigned number and `std::stoi`.
pub mod Laws
use cs.Prelude.{
  ℕ, zero, suc, ◌+◌, ◌-◌, ◌*◌, ◌/◌, ◌%◌, ◌^◌, Bool, true, false, ◌&&◌, ◌||◌, [], ◌∷◌, Option, none,
  some, ltb, leb, ◌==◌, if◌then◌else◌, Text,
}
use cs.Prelude.Int.{ℤ, pos, negsuc}

-- The digits of `n` in front of `acc`, with a digit for each round of fuel.
unfoldable pub digits : ℕ → ℕ → Text → Text
digits zero n acc = acc
digits (suc fuel) n acc =
    let rest = digits fuel (n / 10) ((b'0' + n % 10) ∷ acc) in
    if ltb n 10 then (b'0' + n) ∷ acc else rest

-- `std::to_string`
unfoldable pub to_string : ℕ → Text
unfolding digits
to_string n = digits (suc n) n []

abbrev pub is_digit : ℕ → Bool
is_digit c = leb b'0' c && leb c b'9'

-- `isspace` in the "C" locale.
abbrev pub is_space : ℕ → Bool
is_space c = c == b' ' || (leb 9 c && leb c 13)

unfoldable pub skip_space : Text → Text
skip_space [] = []
skip_space (c ∷ s) = if is_space c then skip_space s else c ∷ s

-- The longest run of digits that a text begins with.
unfoldable pub leading_digits : Text → Text
leading_digits [] = []
leading_digits (c ∷ s) = let more = leading_digits s in if is_digit c then c ∷ more else []

-- The number that a run of digits stands for, with `a` read before it.
abbrev pub decimal : ℕ → Text → ℕ
decimal a [] = a
decimal a (c ∷ n) = decimal (a * 10 + (c - b'0')) n

-- No digit is `std::invalid_argument`.
unfoldable pub magnitude : Text → Option ℕ
magnitude [] = none
magnitude (c ∷ s) = some (decimal 0 (c ∷ s))

-- Outside of `int` is `std::out_of_range`.
abbrev in_int_pos : ℕ → Option ℤ
in_int_pos n = if ltb n (2 ^ 31) then some (pos n) else none

abbrev in_int_neg : ℕ → Option ℤ
in_int_neg zero = some (pos 0)
in_int_neg (suc n) = if ltb n (2 ^ 31) then some (negsuc n) else none

abbrev and_then {ℓ κ} : {A : Type ℓ} {B : Type κ} → Option A → (A → Option B) → Option B
and_then none f = none
and_then (some a) f = f a

unfoldable pub signed : Text → Option ℤ
signed [] = none
signed (c ∷ s) =
    if c == b'-'
    then and_then (magnitude (leading_digits s)) in_int_neg
    else if c == b'+'
    then and_then (magnitude (leading_digits s)) in_int_pos
    else and_then (magnitude (leading_digits (c ∷ s))) in_int_pos

-- `std::stoi` in base 10; `none` is an exception.
unfoldable pub stoi : Text → Option ℤ
unfolding skip_space signed magnitude leading_digits
stoi s = signed (skip_space s)
