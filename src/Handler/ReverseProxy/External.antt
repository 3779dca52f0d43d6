-- ===== src/Handler/ReverseProxy/External.antt =====
-- What the reverse proxy takes from libraries outside of the repository: string algorithms of Boost,
-- its regular expressions, and gzip. Each comes with the documented behaviour that the proofs use.
use cs.Prelude.{ℕ, ◌≡◌, ◌≢◌, false, [], ◌∷◌, ◌++◌, Option, Text}
use cs.Boost.{Boost}
use cs.Decimal.{is_space}

-- The last byte of `c ∷ s`.
abbrev pub last_byte : ℕ → Text → ℕ
last_byte c [] = c
last_byte c (d ∷ s) = last_byte d s

-- A text with no space at either end.
abbrev pub IsTrim : Text → Type 0
IsTrim [] = Unit
IsTrim (c ∷ s) = (is_space c ≡ false) × (is_space (last_byte c s) ≡ false)

pub record Libraries : Type 0 where
  pub boost : Boost
  -- `boost::erase_first_copy(input, search)`
  pub erase_first_copy : Text → Text → Text
  -- It takes the first occurrence out.
  pub erase_first_copy_prefix :
      (search rest : Text) → search ≢ [] → erase_first_copy (search ++ rest) search ≡ rest
  -- `boost::trim_copy`
  pub trim_copy : Text → Text
  -- It takes spaces off the ends.
  pub trim_copy_plain : (s : Text) → IsTrim s → trim_copy s ≡ s
  -- `boost::regex_replace(input, expression, format)`; `none` is an exception.
  pub regex_replace : Text → Text → Text → Option Text
  -- `gzip::decompress` and `gzip::compress`; `none` is an exception.
  pub decompress : Text → Option Text
  pub compress : Text → Option Text
