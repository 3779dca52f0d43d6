-- ===== src/Strings/Slashes.antt =====
-- What the loop that strips slashes leaves.
use cs.Prelude.{
  ℕ, zero, suc, ◌-◌, ◌≤◌, ◌≡◌, refl, ◌∙◌, sym, ap, true, false, ◌&&◌, inl, inr, [], ◌∷◌, ◌++◌,
  append_assoc, append-nil, arith, ltb, Bool-cases, Text, length, length-append, replicate,
}
use cs.Strings.{back_is, pop_back, strip_loop, strip_slashes}

-- A text of at most one byte, or one that does not end with a slash.
abbrev pub IsStripped : Text → Type 0
IsStripped s = (ltb 1 (length s) && back_is b'/' s) ≡ false

pub length-pop_back : (s : Text) → length (pop_back s) ≡ length s - 1
unfolding pop_back
length-pop_back [] = omega arith
length-pop_back (c ∷ []) = omega arith
length-pop_back (c ∷ d ∷ s) = omega (arith, length-pop_back (d ∷ s))

pub pop_back-append : (c : ℕ) (s : Text) → back_is c s ≡ true → pop_back s ++ (c ∷ []) ≡ s
unfolding pop_back back_is
pop_back-append c [] h = cc
pop_back-append c (d ∷ []) h = ground arith
pop_back-append c (d ∷ e ∷ s) h = ap (◌∷◌ d) (pop_back-append c (e ∷ s) h)

replicate-append : (n c : ℕ) → replicate n c ++ (c ∷ []) ≡ replicate (suc n) c
replicate-append zero c = refl
replicate-append (suc n) c = ap (◌∷◌ c) (replicate-append n c)

strip_loop-IsStripped : (fuel : ℕ) (s : Text) → length s ≤ suc fuel → IsStripped (strip_loop fuel s)
unfolding strip_loop
strip_loop-IsStripped zero s h = ground arith
strip_loop-IsStripped (suc fuel) s h = elim (Bool-cases (ltb 1 (length s) && back_is b'/' s)) [
  | inl more ↦ rw more (strip_loop-IsStripped fuel (pop_back s) (omega (arith, length-pop_back s)))
  | inr done ↦ rw done done
]

strip_loop-append : (fuel : ℕ) (s : Text) → (n : ℕ) × (s ≡ strip_loop fuel s ++ replicate n b'/')
unfolding strip_loop
strip_loop-append zero s = (0, sym (append-nil s))
strip_loop-append (suc fuel) s = elim (Bool-cases (ltb 1 (length s) && back_is b'/' s)) [
  | inl more ↦
      let (n, e) = strip_loop-append fuel (pop_back s) in
      let slash : back_is b'/' s ≡ true = ground arith in
      (
        suc n,
        rw more (
            sym (pop_back-append b'/' s slash)
            ∙ ap (λ t. t ++ (b'/' ∷ [])) e
            ∙ append_assoc (strip_loop fuel (pop_back s)) (replicate n b'/') (b'/' ∷ [])
            ∙ ap (λ t. strip_loop fuel (pop_back s) ++ t) (replicate-append n b'/')),
      )
  | inr done ↦ (0, rw done (sym (append-nil s)))
]

-- The loop ends with a text of at most one byte or with no slash at its end, and what it takes off
-- the text is a run of slashes at the end.
pub strip_slashes_lem :
    (s : Text)
    → IsStripped (strip_slashes s) × ((n : ℕ) × (s ≡ strip_slashes s ++ replicate n b'/'))
unfolding strip_slashes
strip_slashes_lem s =
    (strip_loop-IsStripped (length s) s (omega arith), strip_loop-append (length s) s)

back_is-append : (c : ℕ) (s : Text) → back_is c (s ++ (c ∷ [])) ≡ true
unfolding back_is
back_is-append c [] = ground arith
back_is-append c (d ∷ []) = ground arith
back_is-append c (d ∷ e ∷ s) = back_is-append c (e ∷ s)

pop_back-concat : (c : ℕ) (s : Text) → pop_back (s ++ (c ∷ [])) ≡ s
unfolding pop_back
pop_back-concat c [] = refl
pop_back-concat c (d ∷ []) = refl
pop_back-concat c (d ∷ e ∷ s) = ap (◌∷◌ d) (pop_back-concat c (e ∷ s))

strip_loop-slash :
    (fuel c : ℕ) (s : Text)
    → strip_loop (suc fuel) ((c ∷ s) ++ (b'/' ∷ [])) ≡ strip_loop fuel (c ∷ s)
unfolding strip_loop
strip_loop-slash fuel c s =
    let long : ltb 1 (length ((c ∷ s) ++ (b'/' ∷ []))) ≡ true =
      ground (arith, length-append (c ∷ s) (b'/' ∷ [])) in
    rw (long, back_is-append b'/' (c ∷ s), pop_back-concat b'/' (c ∷ s))

-- One more slash at the end changes nothing.
pub strip_slashes-slash :
    (c : ℕ) (s : Text) → strip_slashes ((c ∷ s) ++ (b'/' ∷ [])) ≡ strip_slashes (c ∷ s)
unfolding strip_slashes
strip_slashes-slash c s =
    let n : length ((c ∷ s) ++ (b'/' ∷ [])) ≡ suc (length (c ∷ s)) =
      omega (arith, length-append (c ∷ s) (b'/' ∷ [])) in
    ap (λ k. strip_loop k ((c ∷ s) ++ (b'/' ∷ []))) n ∙ strip_loop-slash (length (c ∷ s)) c s
