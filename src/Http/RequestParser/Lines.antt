-- ===== src/Http/RequestParser/Lines.antt =====
-- What the lines are that the parser accepts.
use cs.Prelude.{
  ℕ, ◌≡◌, ◌∙◌, ap, true, false, inl, inr, Bool-cases, not, ◌&&◌, [], ◌∷◌, ◌++◌, arith, Text, ◌==◌,
  ==_iff,
}
use cs.OrderedMap
use cs.OrderedMap.{OrderedMap}
use cs.Http.Request.{Request}
use cs.Http.RequestParser.{
  header_line_start, header_name, header_lws, space_before_header_value, header_value,
  expecting_newline_2, expecting_newline_3, good, bad, is_not_token, is_control, consume_in, feed,
}
use cs.Http.RequestParser.Pieces.{at}
use cs.Http.RequestParser.Grammar.{
  Line, named, folded, is_lws, IsBlanks, IsFolded, render_line, IsLine,
}
use cs.Http.RequestParser.Splitting.{
  Accepts, Onward, onward, Is, accepts_nothing, bad-ne-good, split-Run, split-Byte, name-Runs,
  value-Runs, newline_2-Steps, space-Steps,
}

-- What follows the blank that begins a folded line.
record Folded (s : Text) : Type 0 where
  blanks : Text
  value : Text
  rest : Text
  are_blanks : IsBlanks blanks
  is_folded : IsFolded value
  whole : s ≡ blanks ++ (value ++ (b'\r' ∷ rest))
  after : Onward expecting_newline_2 rest

-- A byte in the state `header_lws`.
data Blank (c : ℕ) (s : Text) : Type 0 where
  ends : c ≡ b'\r' → Onward expecting_newline_2 s → Blank c s
  more : is_lws c ≡ true → Onward header_lws s → Blank c s
  begins : is_lws c ≡ false → is_control c ≡ false → Onward header_value s → Blank c s

lws-Blank :
    (k v : Text) (req : Request) (c : ℕ) (s : Text)
    → Accepts (at header_lws k v) req (c ∷ s)
    → Blank c s
unfolding feed consume_in
lws-Blank k v req c s h = elim (Bool-cases (c == b'\r')) [
  | inl e ↦ ends ((==_iff c b'\r').0 e) (onward expecting_newline_2 k v req s (rw e at h))
  | inr e ↦ elim (Bool-cases (is_lws c)) [
    | inl b ↦ more b (onward header_lws k v req s (rw (e, b) at h))
    | inr b ↦ elim (Bool-cases (is_control c)) [
      | inl t ↦ bad-ne-good (rw (e, b, t) at h)
      | inr t ↦ begins b t (onward header_value k (v ++ (c ∷ [])) req s (rw (e, b, t) at h))
    ]
  ]
]

split-Folded : (s : Text) → Onward header_lws s → Folded s
split-Folded [] o = absurd (accepts_nothing _ _ o.accepts)
split-Folded (c ∷ s) o = elim (lws-Blank o.key o.value o.request c s o.accepts) [
  | ends e after ↦ record {
    blanks = [];
    value = [];
    rest = s;
    are_blanks = tt;
    is_folded = tt;
    whole = ap (λ b. b ∷ s) e;
    after = after;
  }
  | more b after ↦
      let f = split-Folded s after in
      record {
        blanks = c ∷ f.blanks;
        value = f.value;
        rest = f.rest;
        are_blanks = (b, f.are_blanks);
        is_folded = f.is_folded;
        whole = ap (◌∷◌ c) f.whole;
        after = f.after;
      }
  | begins b t after ↦
      let r =
        split-Run header_value (λ d. is_control d ≡ false) b'\r' expecting_newline_2 s value-Runs
          after in
      record {
        blanks = [];
        value = c ∷ r.run;
        rest = r.rest;
        are_blanks = tt;
        is_folded = (b, (t, r.all));
        whole = ap (◌∷◌ c) r.whole;
        after = r.after;
      }
]

-- The byte that a line begins with, where the headers before it are `m`.
data Begin (m : OrderedMap Text) (c : ℕ) (s : Text) : Type 0 where
  empty_line : c ≡ b'\r' → Onward expecting_newline_3 s → Begin m c s
  blank : OrderedMap.is_empty m ≡ false → is_lws c ≡ true → Onward header_lws s → Begin m c s
  name : is_not_token c ≡ false → Onward header_name s → Begin m c s

line_start-Begin :
    (req : Request) (c : ℕ) (s : Text)
    → Accepts (at header_line_start [] []) req (c ∷ s)
    → Begin req.headers_ c s
unfolding feed consume_in
line_start-Begin req c s h = elim (Bool-cases (c == b'\r')) [
  | inl e ↦ empty_line ((==_iff c b'\r').0 e) (onward expecting_newline_3 [] [] req s (rw e at h))
  | inr e ↦ elim (Bool-cases (not (OrderedMap.is_empty req.headers_) && is_lws c)) [
    | inl b ↦ blank (ground arith) (ground arith) (onward header_lws [] [] req s (rw (e, b) at h))
    | inr b ↦ elim (Bool-cases (is_not_token c)) [
      | inl t ↦ bad-ne-good (rw (e, b, t) at h)
      | inr t ↦ name t (onward header_name (c ∷ []) [] req s (rw (e, b, t) at h))
    ]
  ]
]

newline_3-good : (s : Text) → Onward expecting_newline_3 s → (rest : Text) × (s ≡ b'\n' ∷ rest)
newline_3-good [] o = absurd (accepts_nothing _ _ o.accepts)
newline_3-good (c ∷ s) o = elim (Bool-cases (c == b'\n')) [
  | inl e ↦ (s, ap (λ b. b ∷ s) ((==_iff c b'\n').0 e))
  | inr e ↦ bad-ne-good (refused e o.key o.value o.request o.accepts)
]
  where
    refused :
        (c == b'\n') ≡ false
        → (k v : Text) (req : Request) → Accepts (at expecting_newline_3 k v) req (c ∷ s)
        → bad ≡ good
    refused e k v req h = unfold feed consume_in in (rw e at h)

-- What a text is that is accepted at the start of a line: the end of the head, or a line and more.
pub data Lined (m : OrderedMap Text) (s : Text) : Type 0 where
  last : (rest : Text) → s ≡ b'\r' ∷ b'\n' ∷ rest → Lined m s
  line : (l : Line) (rest : Text) → IsLine m l → s ≡ render_line l rest → Lined m s

newline_2-line : (s : Text) → Onward expecting_newline_2 s → (rest : Text) × (s ≡ b'\n' ∷ rest)
newline_2-line s o =
    let n = split-Byte expecting_newline_2 (Is b'\n') header_line_start s newline_2-Steps o in
    (n.rest, n.whole ∙ ap (λ b. b ∷ n.rest) n.fits)

folded-Lined :
    (m : OrderedMap Text) (c : ℕ) (s : Text)
    → OrderedMap.is_empty m ≡ false
    → is_lws c ≡ true
    → Onward header_lws s
    → Lined m (c ∷ s)
folded-Lined m c s n b o =
    let f = split-Folded s o in
    let (rest, ended) = newline_2-line f.rest f.after in
    line (folded c f.blanks f.value) rest (n, b, f.are_blanks, f.is_folded)
      (ap (◌∷◌ c) (f.whole ∙ ap (λ t. f.blanks ++ (f.value ++ (b'\r' ∷ t))) ended))

named-Lined :
    (m : OrderedMap Text) (c : ℕ) (s : Text)
    → is_not_token c ≡ false
    → Onward header_name s
    → Lined m (c ∷ s)
named-Lined m c s t o =
    let n =
      split-Run header_name (λ d. is_not_token d ≡ false) b':' space_before_header_value s name-Runs
        o in
    let b =
      split-Byte space_before_header_value (Is b' ') header_value n.rest space-Steps n.after in
    let v =
      split-Run header_value (λ d. is_control d ≡ false) b'\r' expecting_newline_2 b.rest value-Runs
        b.after in
    let (rest, ended) = newline_2-line v.rest v.after in
    let value : b.rest ≡ v.run ++ (b'\r' ∷ b'\n' ∷ rest) =
      v.whole ∙ ap (λ u. v.run ++ (b'\r' ∷ u)) ended in
    let spaced : n.rest ≡ b' ' ∷ (v.run ++ (b'\r' ∷ b'\n' ∷ rest)) =
      b.whole ∙ ap (λ d. d ∷ b.rest) b.fits ∙ ap (◌∷◌ b' ') value in
    line (named c n.run v.run) rest ((t, n.all), v.all)
      (ap (◌∷◌ c) (n.whole ∙ ap (λ u. n.run ++ (b':' ∷ u)) spaced))

pub line_start-Lined :
    (req : Request) (s : Text) → Accepts (at header_line_start [] []) req s → Lined req.headers_ s
line_start-Lined req [] h = absurd (accepts_nothing _ _ h)
line_start-Lined req (c ∷ s) h = elim (line_start-Begin req c s h) [
  | empty_line e o ↦
      let (rest, ended) = newline_3-good s o in last rest (ap (λ b. b ∷ s) e ∙ ap (◌∷◌ b'\r') ended)
  | blank n b o ↦ folded-Lined req.headers_ c s n b o
  | name t o ↦ named-Lined req.headers_ c s t o
]
