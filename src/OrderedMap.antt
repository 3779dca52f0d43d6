-- ===== src/OrderedMap.antt =====
-- `std::map` with `std::string` keys: the entries in the order of iteration, which is that of
-- the keys.
pub mod Order
use cs.Prelude.{
  Bool, true, false, List, [], ◌∷◌, ◌≡◌, refl, Option, none, some, arith, if◌then◌else◌, Text,
  text_eq, text_lt, text_eq_iff,
}

abbrev pub OrderedMap {ℓ} : Type ℓ → Type ℓ
OrderedMap V = List (Text × V)

module _ {ℓ} {V : Type ℓ} where
  -- `find`
  unfoldable pub lookup : Text → OrderedMap V → Option V
  lookup k [] = none
  lookup k ((j, v) ∷ m) = if text_eq j k then some v else lookup k m

  -- `m[k] = v`
  unfoldable pub insert : Text → V → OrderedMap V → OrderedMap V
  insert k v [] = (k, v) ∷ []
  insert k v ((j, w) ∷ m) =
      if text_eq j k
      then (k, v) ∷ m
      else if text_lt k j
      then (k, v) ∷ (j, w) ∷ m
      else (j, w) ∷ insert k v m

  abbrev pub is_empty : OrderedMap V → Bool
  is_empty [] = true
  is_empty (e ∷ m) = false

  pub lookup-insert :
      (k j : Text) (v : V) (m : OrderedMap V)
      → lookup j (insert k v m) ≡ (if text_eq k j then some v else lookup j m)
  unfolding lookup insert
  lookup-insert k j v [] = refl
  lookup-insert k j v ((i, w) ∷ m) =
      ground (arith, text_eq_iff k j, text_eq_iff i k, text_eq_iff i j, lookup-insert k j v m)
