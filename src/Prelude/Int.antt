-- ===== src/Prelude/Int.antt =====
-- `int` values, as far as the character tests of the program need them.
use cs.Prelude.{ℕ, ◌-◌, Bool, true, false, ltb, leb, if◌then◌else◌}

-- `negsuc n` is -(n + 1).
pub data ℤ : Type 0 where
  pos : ℕ → ℤ
  negsuc : ℕ → ℤ

abbrev pub leb_ℤ : ℤ → ℤ → Bool
leb_ℤ (pos a) (pos b) = leb a b
leb_ℤ (pos a) (negsuc b) = false
leb_ℤ (negsuc a) (pos b) = true
leb_ℤ (negsuc a) (negsuc b) = leb b a

-- The promotion of a `char` to `int`, where `char` is signed: the byte 255 is -1.
abbrev pub promote : ℕ → ℤ
promote b = if ltb b 128 then pos b else negsuc (255 - b)
