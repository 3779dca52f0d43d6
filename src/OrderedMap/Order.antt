-- ===== src/OrderedMap/Order.antt =====
-- The keys of a map stand in their order, and no key stands twice.
use cs.Prelude.{
  sym, ◌∙◌, append-nil, append_assoc, true, false, List, [], ◌∷◌, ◌++◌, ◌≡◌, refl, arith, Text,
  text_eq, text_lt, text_eq_iff, Bool-cases, inl, inr,
}
use cs.OrderedMap
use cs.OrderedMap.{OrderedMap}

pub text_lt_trans : (s t u : Text) → text_lt s t ≡ true → text_lt t u ≡ true → text_lt s u ≡ true
text_lt_trans [] (b ∷ t) (c ∷ u) h k = refl
text_lt_trans (a ∷ s) (b ∷ t) (c ∷ u) h k = ground (arith, text_lt_trans s t u)
text_lt_trans [] [] u h k = cc
text_lt_trans (a ∷ s) [] u h k = cc
text_lt_trans s (b ∷ t) [] h k = cc

pub text_lt_asym : (s t : Text) → text_lt s t ≡ true → text_lt t s ≡ false
text_lt_asym [] (b ∷ t) h = refl
text_lt_asym (a ∷ s) (b ∷ t) h = ground (arith, text_lt_asym s t)
text_lt_asym [] [] h = refl
text_lt_asym (a ∷ s) [] h = cc

pub text_lt_ne : (s t : Text) → text_lt s t ≡ true → text_eq s t ≡ false
text_lt_ne [] (b ∷ t) h = refl
text_lt_ne (a ∷ s) (b ∷ t) h = ground (arith, text_lt_ne s t)
text_lt_ne [] [] h = cc
text_lt_ne (a ∷ s) [] h = refl

pub text_lt_total : (s t : Text) → text_eq s t ≡ false → text_lt t s ≡ false → text_lt s t ≡ true
text_lt_total [] [] h k = cc
text_lt_total [] (b ∷ t) h k = refl
text_lt_total (a ∷ s) [] h k = cc
text_lt_total (a ∷ s) (b ∷ t) h k = ground (arith, text_lt_total s t)

-- Each key of the map lies behind `k`.
abbrev pub Behind {ℓ} : {V : Type ℓ} → Text → OrderedMap V → Type 0
Behind k [] = Unit
Behind k ((j, v) ∷ m) = (text_lt k j ≡ true) × Behind k m

abbrev pub IsSorted {ℓ} : {V : Type ℓ} → OrderedMap V → Type 0
IsSorted [] = Unit
IsSorted ((k, v) ∷ m) = Behind k m × IsSorted m

Behind-trans {ℓ} :
    {V : Type ℓ} (j k : Text) (m : OrderedMap V) → text_lt j k ≡ true → Behind k m → Behind j m
Behind-trans j k [] h b = tt
Behind-trans j k ((i, v) ∷ m) h (p, b) = (text_lt_trans j k i h p, Behind-trans j k m h b)

insert-Behind {ℓ} :
    {V : Type ℓ} (j k : Text) (v : V) (m : OrderedMap V)
    → text_lt j k ≡ true
    → Behind j m
    → Behind j (OrderedMap.insert k v m)
unfolding OrderedMap.insert
insert-Behind j k v [] h b = (h, tt)
insert-Behind j k v ((i, w) ∷ m) h (p, b) = elim (Bool-cases (text_eq i k)) [
  | inl same ↦ rw same (h, b)
  | inr other ↦ elim (Bool-cases (text_lt k i)) [
    | inl before ↦ rw (other, before) (h, (p, b))
    | inr behind ↦ rw (other, behind) (p, insert-Behind j k v m h b)
  ]
]

-- A write keeps the keys in their order, each of them once.
pub insert-IsSorted {ℓ} :
    {V : Type ℓ} (k : Text) (v : V) (m : OrderedMap V)
    → IsSorted m
    → IsSorted (OrderedMap.insert k v m)
unfolding OrderedMap.insert
insert-IsSorted k v [] s = (tt, tt)
insert-IsSorted k v ((i, w) ∷ m) (b, s) = elim (Bool-cases (text_eq i k)) [
  | inl same ↦ let e : i ≡ k = (text_eq_iff i k).0 same in rw same (rw (← e) b, s)
  | inr other ↦ elim (Bool-cases (text_lt k i)) [
    | inl before ↦ rw (other, before) ((before, Behind-trans k i m before b), (b, s))
    | inr behind ↦
        rw (other, behind)
          (insert-Behind i k v m (text_lt_total i k other behind) b, insert-IsSorted k v m s)
  ]
]

-- Each key of the map lies before `k`.
abbrev pub Before {ℓ} : {V : Type ℓ} → Text → OrderedMap V → Type 0
Before k [] = Unit
Before k ((j, v) ∷ m) = (text_lt j k ≡ true) × Before k m

insert-last {ℓ} :
    {V : Type ℓ} (k : Text) (v : V) (m : OrderedMap V)
    → Before k m
    → OrderedMap.insert k v m ≡ m ++ ((k, v) ∷ [])
unfolding OrderedMap.insert
insert-last k v [] b = refl
insert-last k v ((j, w) ∷ m) (p, b) =
    rw (text_lt_ne j k p, text_lt_asym j k p, insert-last k v m b) refl

-- The entries of a list written into a map, one by one.
abbrev pub insert_all {ℓ} : {V : Type ℓ} → List (Text × V) → OrderedMap V → OrderedMap V
insert_all [] m = m
insert_all ((k, v) ∷ es) m = insert_all es (OrderedMap.insert k v m)

Before-append {ℓ} :
    {V : Type ℓ} (j k : Text) (v : V) (m : OrderedMap V)
    → Before j m
    → text_lt k j ≡ true
    → Before j (m ++ ((k, v) ∷ []))
Before-append j k v [] b h = (h, tt)
Before-append j k v ((i, w) ∷ m) (p, b) h = (p, Before-append j k v m b h)

-- Each key of the list lies behind all keys of the map.
abbrev Follow {ℓ} : {V : Type ℓ} → OrderedMap V → List (Text × V) → Type 0
Follow m [] = Unit
Follow m ((k, v) ∷ es) = Before k m × Follow m es

Follow-insert {ℓ} :
    {V : Type ℓ} (k : Text) (v : V) (m : OrderedMap V) (es : List (Text × V))
    → Behind k es
    → Follow m es
    → Follow (m ++ ((k, v) ∷ [])) es
Follow-insert k v m [] b f = tt
Follow-insert k v m ((j, w) ∷ es) (p, b) (q, f) =
    (Before-append j k v m q p, Follow-insert k v m es b f)

insert_all-append {ℓ} :
    {V : Type ℓ} (es : List (Text × V)) (m : OrderedMap V)
    → IsSorted es
    → Follow m es
    → insert_all es m ≡ m ++ es
insert_all-append [] m s f = sym (append-nil m)
insert_all-append ((k, v) ∷ es) m (b, s) (q, f) = rw (insert-last k v m q) (
    insert_all-append es (m ++ ((k, v) ∷ [])) s (Follow-insert k v m es b f)
    ∙ append_assoc m ((k, v) ∷ []) es)

Follow-nil {ℓ} : {V : Type ℓ} (es : List (Text × V)) → Follow [] es
Follow-nil [] = tt
Follow-nil (e ∷ es) = (tt, Follow-nil es)

-- The entries of a map, written one by one into an empty one, give the map back.
pub insert_all-nil {ℓ} : {V : Type ℓ} (m : OrderedMap V) → IsSorted m → insert_all m [] ≡ m
insert_all-nil m s = insert_all-append m [] s (Follow-nil m)
