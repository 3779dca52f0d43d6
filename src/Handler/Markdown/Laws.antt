-- ===== src/Handler/Markdown/Laws.antt =====
-- The posts that the Markdown handler shows.
use cs.Prelude.{
  ℕ, suc, ◌+◌, ◌-◌, ◌≡◌, ◌≤◌, refl, arith, inl, inr, Bool-cases, List, [], ◌∷◌, leb, length, drop,
}
use cs.Handler.Markdown.{ten_from, get_ten_markdowns}

ten_from-drop {ℓ} :
    {A : Type ℓ} (end n : ℕ) (mds : List A)
    → end ≡ n + length mds
    → ten_from end n mds ≡ drop (length mds - 10) mds
unfolding ten_from
ten_from-drop end n [] e = refl
ten_from-drop end n (md ∷ mds) e =
    let rest = ten_from-drop end (n + 1) mds (omega arith) in
    elim (Bool-cases (leb end (n + 10))) [
      | inl few ↦
          let small : length mds + 1 ≤ 10 = ground arith in
          let whole : length mds - 10 ≡ 0 = omega arith in
          let shown : suc (length mds) - 10 ≡ 0 = omega arith in rw (few, rest, whole, shown) refl
      | inr many ↦
          let large : 10 ≤ length mds = ground arith in
          let further : suc (length mds) - 10 ≡ suc (length mds - 10) = omega arith in
          rw (many, rest, further) refl
    ]

-- The posts shown are the last ten that the database holds, or all of them if they are fewer, in
-- their order.
pub get_ten_markdowns_lem {ℓ} :
    {A : Type ℓ} (mds : List A) → get_ten_markdowns mds ≡ drop (length mds - 10) mds
unfolding get_ten_markdowns
get_ten_markdowns_lem mds = ten_from-drop (length mds) 0 mds (omega arith)
