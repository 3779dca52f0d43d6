-- ===== src/Boost.antt =====
-- What the program uses of Boost's string algorithms, which are not part of the repository: a
-- parameter of the model, with the documented behaviour that the proofs rely on.
use cs.Prelude.{ℕ, ◌≡◌, false, [], ◌∷◌, ◌++◌, if◌then◌else◌, ◌==◌, Text}
use cs.Strings.{contains}

-- Every byte `c` of a text made the text `f`.
abbrev pub substitute : ℕ → Text → Text → Text
substitute c f [] = []
substitute c f (d ∷ s) = if d == c then f ++ substitute c f s else d ∷ substitute c f s

pub record Boost : Type 0 where
  -- `boost::replace_all(input, search, format)`
  pub replace_all : Text → Text → Text → Text
  -- It substitutes every occurrence; of a single byte no two occurrences overlap.
  pub replace_all_byte :
      (input : Text) (c : ℕ) (format : Text)
      → replace_all input (c ∷ []) format ≡ substitute c format input
  -- A text that does not hold `search` stays as it is.
  pub replace_all_absent :
      (input search format : Text)
      → contains search input ≡ false
      → replace_all input search format ≡ input
