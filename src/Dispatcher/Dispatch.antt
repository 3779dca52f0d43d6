-- ===== src/Dispatcher/Dispatch.antt =====
-- `dispatch` chooses the handler with the longest path that the request's begins with.
use cs.Prelude.{
  ℕ, ◌≤◌, ◌<◌, ◌≡◌, refl, ◌∙◌, ap, true, [], ◌∷◌, ◌++◌, ◌⊎◌, inl, inr, Option, none, arith, ltb,
  Bool-cases, Text, text_eq, length, take,
}
use cs.OrderedMap.{OrderedMap}
use cs.Handler.{RequestHandler}
use cs.Strings.{strip_slashes}
use cs.Strings.Slashes.{strip_slashes-slash}
use cs.Dispatcher.{RequestHandlerDispatcher, Match, consider, longest, dispatch}

-- `(k, h)` stands in the map.
pub data Entry {ℓ} {V : Type ℓ} (k : Text) (h : V) : OrderedMap V → Type ℓ where
  here : (m : OrderedMap V) → Entry k h ((k, h) ∷ m)
  there : (e : Text × V) {m : OrderedMap V} → Entry k h m → Entry k h (e ∷ m)

-- The path is a prefix of the URI, and is not empty.
abbrev pub Fits : Text → Text → Type 0
Fits uri k = (text_eq k (take (length k) uri) ≡ true) × (0 < length k)

-- `h` belongs to a path that fits, and no other path that fits is longer.
pub record IsLongest (uri : Text) (m : OrderedMap (Option RequestHandler))
    (h : Option RequestHandler) : Type 0 where
  pub path : Text
  pub entry : Entry path h m
  pub fits : Fits uri path
  pub longest_lem :
      (k : Text) (g : Option RequestHandler) → Entry k g m → Fits uri k → length k ≤ length path

module _ (uri : Text) where
  consider_bounds :
      (k : Text) (h : Option RequestHandler) (s : Match)
      → (s.longest_match ≤ (consider uri k h s).longest_match)
        × (Fits uri k → length k ≤ (consider uri k h s).longest_match)
  unfolding consider
  consider_bounds k h s = ground arith

  -- The length that the loop ends with bounds every fitting path, and the one that it began with.
  longest_grows :
      (m : OrderedMap (Option RequestHandler)) (s : Match)
      → s.longest_match ≤ (longest uri m s).longest_match
  unfolding longest
  longest_grows [] s = omega arith
  longest_grows ((k, h) ∷ m) s =
      omega (arith, (consider_bounds k h s).0, longest_grows m (consider uri k h s))

  longest_bounds :
      (m : OrderedMap (Option RequestHandler)) (s : Match) {k : Text} {g : Option RequestHandler}
      → Entry k g m
      → Fits uri k
      → length k ≤ (longest uri m s).longest_match
  unfolding longest
  longest_bounds [] s e f = elim e [ ]
  longest_bounds ((k, h) ∷ m) s (here _) f =
      omega (arith, (consider_bounds k h s).1 f, longest_grows m (consider uri k h s))
  longest_bounds ((k, h) ∷ m) s (there _ e) f = longest_bounds m (consider uri k h s) e f

  -- The match comes from an entry that fits.
  record IsFrom (m : OrderedMap (Option RequestHandler)) (s : Match) : Type 0 where
    path : Text
    entry : Entry path s.req_handler m
    fits : Fits uri path
    same : s.longest_match ≡ length path

  consider_choice :
      (k : Text) (h : Option RequestHandler) (s : Match)
      → (consider uri k h s ≡ s)
        ⊎ (Fits uri k
            × ((consider uri k h s).req_handler ≡ h)
            × ((consider uri k h s).longest_match ≡ length k))
  unfolding consider
  consider_choice k h s = elim (Bool-cases (text_eq k (take (length k) uri))) [
    | inl fits ↦ elim (Bool-cases (ltb s.longest_match (length k))) [
      | inl longer ↦ inr ((fits, ground arith), rw (fits, longer), rw (fits, longer))
      | inr other ↦ inl (rw (fits, other))
    ]
    | inr other ↦ inl (rw other)
  ]

  longest_choice :
      (m : OrderedMap (Option RequestHandler)) (s : Match)
      → (longest uri m s ≡ s) ⊎ IsFrom m (longest uri m s)
  unfolding longest
  longest_choice [] s = inl refl
  longest_choice ((k, h) ∷ m) s = elim (longest_choice m (consider uri k h s)) [
    | inr f ↦
        inr (record { path = f.path; entry = there (k, h) f.entry; fits = f.fits; same = f.same })
    | inl kept ↦ elim (consider_choice k h s) [
      | inl old ↦ inl (kept ∙ old)
      | inr (fits, handler, same) ↦
          inr (rw kept (record { path = k; entry = rw handler (here m); fits = fits; same = same }))
    ]
  ]

-- A slash behind a URI that is not empty makes no difference.
dispatch-slash :
    (d : RequestHandlerDispatcher) (c : ℕ) (uri : Text)
    → dispatch d ((c ∷ uri) ++ (b'/' ∷ [])) ≡ dispatch d (c ∷ uri)
unfolding dispatch
dispatch-slash d c uri =
    let first : Match = record { req_handler = none; longest_match = 0 } in
    ap (λ u. (longest u d.handlers_ first).req_handler) (strip_slashes-slash c uri)

-- No path that fits is registered.
abbrev pub IsUnmatched : Text → OrderedMap (Option RequestHandler) → Type 0
IsUnmatched uri m = (k : Text) (g : Option RequestHandler) → Entry k g m → ¬ Fits uri k

-- `dispatch` takes the slashes off the end of the URI, and returns the handler of the longest
-- registered path that the rest begins with; where no such path but the empty one is registered,
-- it returns no handler.
pub dispatch_lem :
    (d : RequestHandlerDispatcher) (uri : Text)
    → IsLongest (strip_slashes uri) d.handlers_ (dispatch d uri)
      ⊎ (IsUnmatched (strip_slashes uri) d.handlers_ × (dispatch d uri ≡ none))
unfolding dispatch
dispatch_lem d uri =
    let u = strip_slashes uri in
    let first : Match = record { req_handler = none; longest_match = 0 } in
    elim (longest_choice u d.handlers_ first) [
      | inl kept ↦
          let zero_length : (longest u d.handlers_ first).longest_match ≡ 0 =
            ap (λ (s : Match). s.longest_match) kept in
          inr (
            λ k g e f.
                absurd
                  (let b = longest_bounds u d.handlers_ first e f in let p = f.1 in omega arith),
            ap (λ (s : Match). s.req_handler) kept,
          )
      | inr f ↦ inl (record {
        path = f.path;
        entry = f.entry;
        fits = f.fits;
        longest_lem = λ k g e fit. rw (f.same) at (longest_bounds u d.handlers_ first e fit);
      })
    ]
