-- ===== src/Config/Parser/Consumed.antt =====
-- What each round of `Parse` has read.
use cs.Prelude.{
  ℕ, ◌<◌, ◌≡◌, refl, ◌∙◌, sym, ap, arith, inl, inr, Bool, true, false, not, ◌||◌, leb, List, [],
  ◌∷◌, ◌++◌, append-nil, append_assoc, Text, length, All, Bool-cases, ◌==◌,
}
use cs.Config.Syntax.{NginxConfig, nil, cons, statement, null, block}
use cs.Config.Lexer.{
  TokenType, start, normal, start_block, end_block, comment, statement_end, eof, error,
}
use cs.Config.Parser.{
  Frame, State, Round, go, valid, onto, of_frame, root, on_end_block, on_eof, pop_stack,
  may_end_block, may_end_file, step,
}
use cs.Config.Parser.Grammar.{
  Item, word, semicolon, opening, closing, words, config_items, statement_items, IsNamed,
  IsNamedStatement, item_of,
}

-- What the statements of a frame are, and those of the frames below, whose first one is open.
abbrev pub frame_items : Frame → List Item
frame_items [] = []
frame_items (s ∷ f) = frame_items f ++ statement_items s

abbrev pub open_items : Frame → List Item
open_items [] = []
open_items (statement ts b ∷ f) = frame_items f ++ (words ts ++ (opening ∷ []))

abbrev pub below_items : List Frame → List Item
below_items [] = []
below_items (f ∷ fs) = below_items fs ++ open_items f

-- Behind a word the first statement of the frame is not ended.
abbrev pub top_items : TokenType → Frame → List Item
top_items normal (statement ts b ∷ f) = frame_items f ++ words ts
top_items _ f = frame_items f

-- The tokens that have been read.
abbrev pub consumed : State → List Item
consumed s = below_items s.below ++ top_items s.last_token_type s.top

abbrev pub Complete : Frame → Type 0
Complete = All IsNamedStatement

abbrev pub Owner : Frame → Type 0
Owner (statement (t ∷ ts) b ∷ f) = Complete f
Owner _ = ⊥

abbrev pub Shaped : TokenType → Frame → Type 0
Shaped normal (statement (t ∷ ts) null ∷ f) = Complete f
Shaped normal f = ⊥
Shaped _ f = Complete f

pub record IsShaped (s : State) : Type 0 where
  pub shape : Shaped s.last_token_type s.top
  pub owners : All Owner s.below
  pub counted : s.block_counter ≡ length s.below

abbrev st : TokenType → Frame → List Frame → ℕ → State
st l f fs n = record { last_token_type = l; top = f; below = fs; block_counter = n }

-- A round that goes on has read the items `is`. None ends with `true`, but at the end of the input.
abbrev pub Reads : State → List Item → Round → Type 0
Reads s is (go s') = IsShaped s' × (consumed s' ≡ consumed s ++ is)
Reads s is (valid c) = ⊥
Reads s is _ = Unit

abbrev pub Finishes : State → Round → Type 0
Finishes s (go s') = ⊥
Finishes s (valid c) = IsNamed c × (config_items c ≡ consumed s)
Finishes s _ = Unit

words-append : (us vs : List Text) → words (us ++ vs) ≡ words us ++ words vs
words-append [] vs = refl
words-append (u ∷ us) vs = ap (◌∷◌ (word u)) (words-append us vs)

onto-items :
    (f : Frame) (c : NginxConfig) → config_items (onto f c) ≡ frame_items f ++ config_items c
unfolding onto
onto-items [] c = refl
onto-items (s ∷ f) c =
    onto-items f (cons s c)
    ∙ sym (append_assoc (frame_items f) (statement_items s) (config_items c))

of_frame-items : (f : Frame) → config_items (of_frame f) ≡ frame_items f
unfolding of_frame
of_frame-items f = onto-items f nil ∙ append-nil (frame_items f)

onto-IsNamed : (f : Frame) (c : NginxConfig) → Complete f → IsNamed c → IsNamed (onto f c)
unfolding onto
onto-IsNamed [] c h k = k
onto-IsNamed (s ∷ f) c (p, h) k = onto-IsNamed f (cons s c) h (p, k)

of_frame-IsNamed : (f : Frame) → Complete f → IsNamed (of_frame f)
unfolding of_frame
of_frame-IsNamed f h = onto-IsNamed f nil h tt

-- A first word, and a further one.
begin-Reads :
    (l : TokenType) (f : Frame) (fs : List Frame) (n : ℕ) (v : Text)
    → IsShaped (st l f fs n)
    → Reads (st l f fs n) (word v ∷ []) (step (st l f fs n) normal v)
unfolding step
begin-Reads normal [] fs n v h = elim h.shape [ ]
begin-Reads normal (statement [] null ∷ f) fs n v h = elim h.shape [ ]
begin-Reads normal (statement [] (block c) ∷ f) fs n v h = elim h.shape [ ]
begin-Reads normal (statement (t ∷ ts) (block c) ∷ f) fs n v h = elim h.shape [ ]
begin-Reads normal (statement (t ∷ ts) null ∷ f) fs n v h = (
  record { shape = h.shape; owners = h.owners; counted = h.counted },
  simp (append_assoc, words-append ts (v ∷ [])),
)
begin-Reads start f fs n v h = (
  record { shape = h.shape; owners = h.owners; counted = h.counted },
  sym (append_assoc (below_items fs) (frame_items f) (word v ∷ [])),
)
begin-Reads statement_end f fs n v h = (
  record { shape = h.shape; owners = h.owners; counted = h.counted },
  sym (append_assoc (below_items fs) (frame_items f) (word v ∷ [])),
)
begin-Reads start_block f fs n v h = (
  record { shape = h.shape; owners = h.owners; counted = h.counted },
  sym (append_assoc (below_items fs) (frame_items f) (word v ∷ [])),
)
begin-Reads end_block f fs n v h = (
  record { shape = h.shape; owners = h.owners; counted = h.counted },
  sym (append_assoc (below_items fs) (frame_items f) (word v ∷ [])),
)
begin-Reads comment f fs n v h = tt
begin-Reads eof f fs n v h = tt
begin-Reads error f fs n v h = tt

end-Reads :
    (l : TokenType) (f : Frame) (fs : List Frame) (n : ℕ) (v : Text)
    → IsShaped (st l f fs n)
    → Reads (st l f fs n) (semicolon ∷ []) (step (st l f fs n) statement_end v)
unfolding step
end-Reads normal [] fs n v h = elim h.shape [ ]
end-Reads normal (statement [] null ∷ f) fs n v h = elim h.shape [ ]
end-Reads normal (statement [] (block c) ∷ f) fs n v h = elim h.shape [ ]
end-Reads normal (statement (t ∷ ts) (block c) ∷ f) fs n v h = elim h.shape [ ]
end-Reads normal (statement (t ∷ ts) null ∷ f) fs n v h =
    (record { shape = (tt, h.shape); owners = h.owners; counted = h.counted }, simp append_assoc)
end-Reads _ f fs n v h = tt

open-Reads :
    (l : TokenType) (f : Frame) (fs : List Frame) (n : ℕ) (v : Text)
    → IsShaped (st l f fs n)
    → Reads (st l f fs n) (opening ∷ []) (step (st l f fs n) start_block v)
unfolding step
open-Reads normal [] fs n v h = elim h.shape [ ]
open-Reads normal (statement [] null ∷ f) fs n v h = elim h.shape [ ]
open-Reads normal (statement [] (block c) ∷ f) fs n v h = elim h.shape [ ]
open-Reads normal (statement (t ∷ ts) (block c) ∷ f) fs n v h = elim h.shape [ ]
open-Reads normal (statement (t ∷ ts) null ∷ f) fs n v h = (
  record { shape = tt; owners = (h.shape, h.owners); counted = omega (arith, h.counted) },
  simp (append_assoc, append-nil),
)
open-Reads _ f fs n v h = tt

-- Where a block may end, the top is complete.
closes-Complete :
    (l : TokenType) (f : Frame)
    → may_end_block l ≡ true
    → Shaped l f
    → Complete f × (top_items l f ≡ frame_items f)
closes-Complete statement_end f m h = (h, refl)
closes-Complete start_block f m h = (h, refl)
closes-Complete end_block f m h = (h, refl)
closes-Complete _ f m h = absurd cc

pop-Reads :
    (l : TokenType) (f : Frame) (fs : List Frame) (n : ℕ)
    → may_end_block l ≡ true
    → 0 < n
    → IsShaped (st l f fs n)
    → Reads (st l f fs n) (closing ∷ []) (pop_stack (st l f fs n) fs)
unfolding pop_stack
pop-Reads l f [] n m p h = absurd (omega (arith, h.counted))
pop-Reads l f ([] ∷ fs) n m p h = elim h.owners.0 [ ]
pop-Reads l f ((statement [] b ∷ g) ∷ fs) n m p h = elim h.owners.0 [ ]
pop-Reads l f ((statement (t ∷ ts) b ∷ g) ∷ fs) n m p h =
    let (complete, top) = closes-Complete l f m h.shape in
    (
      record {
        shape = (of_frame-IsNamed f complete, h.owners.0);
        owners = h.owners.1;
        counted = omega (arith, h.counted);
      },
      rw (top, of_frame-items f) (simp append_assoc),
    )

close-Reads : (s : State) (v : Text) → IsShaped s → Reads s (closing ∷ []) (step s end_block v)
unfolding step
close-Reads s v h =
    elim (Bool-cases (not (may_end_block s.last_token_type) || leb s.block_counter 0)) [
      | inl stop ↦ rw (stop, on_end_block) tt
      | inr on ↦
          rw (on, on_end_block)
            (pop-Reads s.last_token_type s.top s.below s.block_counter (ground arith) (ground arith)
              h)
    ]

root-Finishes :
    (l : TokenType) (f : Frame) (fs : List Frame) (n : ℕ)
    → may_end_file l ≡ true
    → n ≡ 0
    → IsShaped (st l f fs n)
    → Finishes (st l f fs n) (valid (root f fs))
unfolding root
root-Finishes l f (g ∷ fs) n m z h = absurd (omega (arith, h.counted))
root-Finishes start f [] n m z h = (of_frame-IsNamed f h.shape, of_frame-items f)
root-Finishes statement_end f [] n m z h = (of_frame-IsNamed f h.shape, of_frame-items f)
root-Finishes end_block f [] n m z h = (of_frame-IsNamed f h.shape, of_frame-items f)
root-Finishes _ f [] n m z h = absurd cc

pub eof-Finishes : (s : State) (v : Text) → IsShaped s → Finishes s (step s eof v)
unfolding step
eof-Finishes s v h =
    elim (Bool-cases (not (may_end_file s.last_token_type) || not (s.block_counter == 0))) [
      | inl stop ↦ rw (stop, on_eof) tt
      | inr on ↦
          rw (on, on_eof)
            (root-Finishes s.last_token_type s.top s.below s.block_counter (ground arith)
              (ground arith) h)
    ]

abbrev pub is_eof : TokenType → Bool
is_eof eof = true
is_eof _ = false

pub step-Reads :
    (s : State) (t : TokenType) (v : Text)
    → is_eof t ≡ false
    → IsShaped s
    → Reads s (item_of t v) (step s t v)
step-Reads s normal v n h = begin-Reads s.last_token_type s.top s.below s.block_counter v h
step-Reads s statement_end v n h = end-Reads s.last_token_type s.top s.below s.block_counter v h
step-Reads s start_block v n h = open-Reads s.last_token_type s.top s.below s.block_counter v h
step-Reads s end_block v n h = close-Reads s v h
step-Reads s eof v n h = absurd cc
step-Reads s comment v n h = unfold step in (h, sym (append-nil (consumed s)))
step-Reads s start v n h = unfold step in tt
step-Reads s error v n h = unfold step in tt
