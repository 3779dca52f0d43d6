-- ===== src/Http/RequestParser/Splitting.antt =====
-- What the bytes are that the parser accepts from a state.
use cs.Prelude.{
  ℕ, ◌≡◌, refl, ◌∙◌, ap, true, false, inl, inr, ◌⊎◌, Bool-cases, [], ◌∷◌, ◌++◌, Text, ◌==◌, ==_iff,
  All,
}
use cs.Http.Request.{Request}
use cs.Http.RequestParser.{
  State, method_start, method, uri, http_version_h, http_version_t_1, http_version_t_2,
  http_version_p, http_version_slash, http_version_major_start, http_version_major,
  http_version_minor_start, http_version_minor, expecting_newline_1, header_line_start, header_name,
  space_before_header_value, header_value, expecting_newline_2, RequestParser, good, bad,
  is_not_token, is_control, is_decimal, consume_in, feed,
}
use cs.Http.RequestParser.Pieces.{at}

-- The parser accepts the bytes from here.
abbrev pub Accepts : RequestParser → Request → Text → Type 0
Accepts p req s = (feed p req s).result ≡ good

-- Bytes that are accepted from the state `q`, with some temporaries and some request.
pub record Onward (q : State) (s : Text) : Type 0 where
  pub key : Text
  pub value : Text
  pub request : Request
  pub accepts : Accepts (at q key value) request s

abbrev pub onward :
    (q : State) (k v : Text) (req : Request) (s : Text) → Accepts (at q k v) req s → Onward q s
onward q k v req s h = record { key = k; value = v; request = req; accepts = h }

-- A run of bytes that satisfy `P`, the byte `d`, and bytes that are accepted from `q`.
pub record Run (P : ℕ → Type 0) (d : ℕ) (q : State) (s : Text) : Type 0 where
  pub run : Text
  pub rest : Text
  pub all : All P run
  pub whole : s ≡ run ++ (d ∷ rest)
  pub after : Onward q rest

-- A byte that satisfies `P`, and bytes that are accepted from `q`.
pub record Byte (P : ℕ → Type 0) (q : State) (s : Text) : Type 0 where
  pub byte : ℕ
  pub rest : Text
  pub fits : P byte
  pub whole : s ≡ byte ∷ rest
  pub after : Onward q rest

-- In the state `q` a byte is `d` and leads to `q'`, or satisfies `P` and leads to `q` again.
abbrev pub Runs : State → (ℕ → Type 0) → ℕ → State → Type 0
Runs q P d q' =
    (k v : Text) (req : Request) (c : ℕ) (s : Text)
    → Accepts (at q k v) req (c ∷ s)
    → ((c ≡ d) × Onward q' s) ⊎ (P c × Onward q s)

-- In the state `q` a byte satisfies `P` and leads to `q'`.
abbrev pub Steps : State → (ℕ → Type 0) → State → Type 0
Steps q P q' =
    (k v : Text) (req : Request) (c : ℕ) (s : Text)
    → Accepts (at q k v) req (c ∷ s)
    → P c × Onward q' s

pub accepts_nothing : (p : RequestParser) (req : Request) → ¬ Accepts p req []
unfolding feed
accepts_nothing p req h = cc

pub split-Run :
    (q : State) (P : ℕ → Type 0) (d : ℕ) (q' : State) (s : Text)
    → Runs q P d q'
    → Onward q s
    → Run P d q' s
split-Run q P d q' [] step o = absurd (accepts_nothing _ _ o.accepts)
split-Run q P d q' (c ∷ s) step o = elim (step o.key o.value o.request c s o.accepts) [
  | inl (e, after) ↦ record {
    run = [];
    rest = s;
    all = tt;
    whole = ap (λ b. b ∷ s) e;
    after = after;
  }
  | inr (p, more) ↦
      let r = split-Run q P d q' s step more in
      record {
        run = c ∷ r.run;
        rest = r.rest;
        all = (p, r.all);
        whole = ap (◌∷◌ c) r.whole;
        after = r.after;
      }
]

pub split-Byte :
    (q : State) (P : ℕ → Type 0) (q' : State) (s : Text) → Steps q P q' → Onward q s → Byte P q' s
split-Byte q P q' [] step o = absurd (accepts_nothing _ _ o.accepts)
split-Byte q P q' (c ∷ s) step o =
    let (p, after) = step o.key o.value o.request c s o.accepts in
    record { byte = c; rest = s; fits = p; whole = refl; after = after }

abbrev pub Is : ℕ → ℕ → Type 0
Is d c = c ≡ d

pub Byte-whole : (d : ℕ) (q : State) (s : Text) (b : Byte (Is d) q s) → s ≡ d ∷ b.rest
Byte-whole d q s b = b.whole ∙ ap (λ c. c ∷ b.rest) b.fits

pub bad-ne-good : {A : Type 0} → bad ≡ good → A
bad-ne-good e = absurd cc

pub method-Runs : Runs method (λ c. is_not_token c ≡ false) b' ' uri
unfolding feed consume_in
method-Runs k v req c s h = elim (Bool-cases (c == b' ')) [
  | inl e ↦ inl ((==_iff c b' ').0 e, onward uri k v req s (rw e at h))
  | inr e ↦ elim (Bool-cases (is_not_token c)) [
    | inl t ↦ bad-ne-good (rw (e, t) at h)
    | inr t ↦ inr (t, onward method k v req s (rw (e, t) at h))
  ]
]

pub uri-Runs : Runs uri (λ c. (is_control c ≡ false) × ((c == b' ') ≡ false)) b' ' http_version_h
unfolding feed consume_in
uri-Runs k v req c s h = elim (Bool-cases (c == b' ')) [
  | inl e ↦ inl ((==_iff c b' ').0 e, onward http_version_h k v req s (rw e at h))
  | inr e ↦ elim (Bool-cases (is_control c)) [
    | inl t ↦ bad-ne-good (rw (e, t) at h)
    | inr t ↦ inr ((t, e), onward uri k v _ s (rw (e, t) at h))
  ]
]

pub major-Runs : Runs http_version_major (λ c. is_decimal c ≡ true) b'.' http_version_minor_start
unfolding feed consume_in
major-Runs k v req c s h = elim (Bool-cases (c == b'.')) [
  | inl e ↦ inl ((==_iff c b'.').0 e, onward http_version_minor_start k v req s (rw e at h))
  | inr e ↦ elim (Bool-cases (is_decimal c)) [
    | inl t ↦ inr (t, onward http_version_major k v _ s (rw (e, t) at h))
    | inr t ↦ bad-ne-good (rw (e, t) at h)
  ]
]

pub minor-Runs : Runs http_version_minor (λ c. is_decimal c ≡ true) b'\r' expecting_newline_1
unfolding feed consume_in
minor-Runs k v req c s h = elim (Bool-cases (c == b'\r')) [
  | inl e ↦ inl ((==_iff c b'\r').0 e, onward expecting_newline_1 k v req s (rw e at h))
  | inr e ↦ elim (Bool-cases (is_decimal c)) [
    | inl t ↦ inr (t, onward http_version_minor k v _ s (rw (e, t) at h))
    | inr t ↦ bad-ne-good (rw (e, t) at h)
  ]
]

pub name-Runs : Runs header_name (λ c. is_not_token c ≡ false) b':' space_before_header_value
unfolding feed consume_in
name-Runs k v req c s h = elim (Bool-cases (c == b':')) [
  | inl e ↦ inl ((==_iff c b':').0 e, onward space_before_header_value k v req s (rw e at h))
  | inr e ↦ elim (Bool-cases (is_not_token c)) [
    | inl t ↦ bad-ne-good (rw (e, t) at h)
    | inr t ↦ inr (t, onward header_name (k ++ (c ∷ [])) v req s (rw (e, t) at h))
  ]
]

pub value-Runs : Runs header_value (λ c. is_control c ≡ false) b'\r' expecting_newline_2
unfolding feed consume_in
value-Runs k v req c s h = elim (Bool-cases (c == b'\r')) [
  | inl e ↦ inl ((==_iff c b'\r').0 e, onward expecting_newline_2 k v req s (rw e at h))
  | inr e ↦ elim (Bool-cases (is_control c)) [
    | inl t ↦ bad-ne-good (rw (e, t) at h)
    | inr t ↦ inr (t, onward header_value k (v ++ (c ∷ [])) req s (rw (e, t) at h))
  ]
]

pub start-Steps : Steps method_start (λ c. is_not_token c ≡ false) method
unfolding feed consume_in
start-Steps k v req c s h = elim (Bool-cases (is_not_token c)) [
  | inl t ↦ bad-ne-good (rw t at h)
  | inr t ↦ (t, onward method k v req s (rw t at h))
]

pub major_start-Steps : Steps http_version_major_start (λ c. is_decimal c ≡ true) http_version_major
unfolding feed consume_in
major_start-Steps k v req c s h = elim (Bool-cases (is_decimal c)) [
  | inl t ↦ (t, onward http_version_major k v _ s (rw t at h))
  | inr t ↦ bad-ne-good (rw t at h)
]

pub minor_start-Steps : Steps http_version_minor_start (λ c. is_decimal c ≡ true) http_version_minor
unfolding feed consume_in
minor_start-Steps k v req c s h = elim (Bool-cases (is_decimal c)) [
  | inl t ↦ (t, onward http_version_minor k v _ s (rw t at h))
  | inr t ↦ bad-ne-good (rw t at h)
]

pub h-Steps : Steps http_version_h (Is b'H') http_version_t_1
unfolding feed consume_in
h-Steps k v req c s h = elim (Bool-cases (c == b'H')) [
  | inl e ↦ ((==_iff c b'H').0 e, onward http_version_t_1 k v req s (rw e at h))
  | inr e ↦ bad-ne-good (rw e at h)
]

pub t_1-Steps : Steps http_version_t_1 (Is b'T') http_version_t_2
unfolding feed consume_in
t_1-Steps k v req c s h = elim (Bool-cases (c == b'T')) [
  | inl e ↦ ((==_iff c b'T').0 e, onward http_version_t_2 k v req s (rw e at h))
  | inr e ↦ bad-ne-good (rw e at h)
]

pub t_2-Steps : Steps http_version_t_2 (Is b'T') http_version_p
unfolding feed consume_in
t_2-Steps k v req c s h = elim (Bool-cases (c == b'T')) [
  | inl e ↦ ((==_iff c b'T').0 e, onward http_version_p k v req s (rw e at h))
  | inr e ↦ bad-ne-good (rw e at h)
]

pub p-Steps : Steps http_version_p (Is b'P') http_version_slash
unfolding feed consume_in
p-Steps k v req c s h = elim (Bool-cases (c == b'P')) [
  | inl e ↦ ((==_iff c b'P').0 e, onward http_version_slash k v req s (rw e at h))
  | inr e ↦ bad-ne-good (rw e at h)
]

pub slash-Steps : Steps http_version_slash (Is b'/') http_version_major_start
unfolding feed consume_in
slash-Steps k v req c s h = elim (Bool-cases (c == b'/')) [
  | inl e ↦ ((==_iff c b'/').0 e, onward http_version_major_start k v _ s (rw e at h))
  | inr e ↦ bad-ne-good (rw e at h)
]

pub newline_1-Steps : Steps expecting_newline_1 (Is b'\n') header_line_start
unfolding feed consume_in
newline_1-Steps k v req c s h = elim (Bool-cases (c == b'\n')) [
  | inl e ↦ ((==_iff c b'\n').0 e, onward header_line_start [] [] req s (rw e at h))
  | inr e ↦ bad-ne-good (rw e at h)
]

pub newline_2-Steps : Steps expecting_newline_2 (Is b'\n') header_line_start
unfolding feed consume_in
newline_2-Steps k v req c s h = elim (Bool-cases (c == b'\n')) [
  | inl e ↦ ((==_iff c b'\n').0 e, onward header_line_start [] [] _ s (rw e at h))
  | inr e ↦ bad-ne-good (rw e at h)
]

pub space-Steps : Steps space_before_header_value (Is b' ') header_value
unfolding feed consume_in
space-Steps k v req c s h = elim (Bool-cases (c == b' ')) [
  | inl e ↦ ((==_iff c b' ').0 e, onward header_value k v req s (rw e at h))
  | inr e ↦ bad-ne-good (rw e at h)
]
