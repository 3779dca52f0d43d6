-- ===== src/Config/Parser/Completeness.antt =====
-- Every sequence of tokens that the grammar has is accepted.
use cs.Prelude.{
  ℕ, zero, suc, ◌+◌, ◌-◌, ◌≡◌, ◌↔◌, refl, ◌∙◌, sym, ap, arith, inl, inr, Bool-cases, not, ◌||◌,
  ◌==◌, List, [], ◌∷◌, ◌++◌, append-nil, append_assoc, Option, none, some, Text, length,
}
use cs.Config.Syntax.{NginxConfig, nil, cons, statement, ChildBlock, null, block}
use cs.Config.Lexer.{
  TokenType, start, normal, start_block, end_block, comment, statement_end, eof, error, parse_token,
}
use cs.Config.Parser.{
  Frame, State, Round, go, valid, of_frame, root, on_eof, may_end_file, step, Outcome, accepted,
  continue, loop, initial, parse,
}
use cs.Config.Parser.Grammar.{
  Item, word, semicolon, opening, closing, words, config_items, block_items, IsNamed, IsNamedBlock,
  behind, next_items, items,
}
use cs.Config.Parser.Soundness.{parse-items}
use cs.Config.Printer.Statements.{
  st, Opens, Ended, Closes, last_of, last_of_block, last_of-Closes, push_all, of_frame-push_all,
  step-close,
}
use cs.Config.Printer.RoundTrip.{last_of-Ended}

-- The type and the text of a token.
abbrev type_of : Item → TokenType
type_of (word t) = normal
type_of semicolon = statement_end
type_of opening = start_block
type_of closing = end_block

abbrev text_of : Item → Text
text_of (word t) = t
text_of _ = []

-- The loop of `Parse` on a sequence of tokens.
run : State → List Item → Option Outcome
run s [] = continue (step s eof []) (λ s'. none)
run s (i ∷ is) = continue (step s (type_of i) (text_of i)) (λ s'. run s' is)

continue-run :
    (r : Round) (k k' : State → Option Outcome)
    → ((s : State) → k s ≡ k' s)
    → continue r k ≡ continue r k'
continue-run (go s) k k' h = h s
continue-run (valid c) k k' h = refl
continue-run (Round.invalid c) k k' h = refl
continue-run Round.fault k k' h = refl

eof-continue :
    (s : State) (k k' : State → Option Outcome) → continue (on_eof s) k ≡ continue (on_eof s) k'
unfolding on_eof
eof-continue s k k' =
    elim (Bool-cases (not (may_end_file s.last_token_type) || not (s.block_counter == 0))) [
      | inl stop ↦ rw stop refl
      | inr on ↦ rw on refl
    ]

behind-some :
    (is : List Item) (o : Option (List Item)) {js : List Item}
    → behind is o ≡ some js
    → (ks : List Item) × (o ≡ some ks) × (js ≡ is ++ ks)
behind-some is none e = absurd cc
behind-some is (some ks) e = (ks, refl, cc)

-- A token in front of the rest, whose tokens are `more`.
step-run :
    (s : State) (t : TokenType) (v : Text) (k : State → Option Outcome) (more : Option (List Item))
    (is : List Item)
    → ((js : List Item) → more ≡ some js → (s' : State) → k s' ≡ run s' js)
    → next_items t v more ≡ some is
    → continue (step s t v) k ≡ run s is
unfolding step run
step-run s eof v k more is h e =
    let ended : [] ≡ is = cc in eof-continue s k (λ s'. none) ∙ ap (run s) ended
step-run s comment v k more is h e =
    let (js, read, same) = behind-some [] more e in h js read s ∙ ap (run s) (sym same)
step-run s normal v k more is h e =
    let (js, read, same) = behind-some (word v ∷ []) more e in
    continue-run (step s normal v) k (λ s'. run s' js) (h js read) ∙ ap (run s) (sym same)
step-run s statement_end v k more is h e =
    let (js, read, same) = behind-some (semicolon ∷ []) more e in
    continue-run (step s statement_end v) k (λ s'. run s' js) (h js read) ∙ ap (run s) (sym same)
step-run s start_block v k more is h e =
    let (js, read, same) = behind-some (opening ∷ []) more e in
    continue-run (step s start_block v) k (λ s'. run s' js) (h js read) ∙ ap (run s) (sym same)
step-run s end_block v k more is h e =
    let (js, read, same) = behind-some (closing ∷ []) more e in
    continue-run (step s end_block v) k (λ s'. run s' js) (h js read) ∙ ap (run s) (sym same)
step-run s start v k more is h e = absurd cc
step-run s error v k more is h e = absurd cc

loop-run :
    (fuel : ℕ) (s : State) (input : Text) (is : List Item)
    → items fuel input ≡ some is
    → loop fuel s input ≡ run s is
unfolding loop items
loop-run zero s input is e = absurd cc
loop-run (suc fuel) s input is e =
    let after = (parse_token input).rest in
    step-run s (parse_token input).type (parse_token input).value (λ s'. loop fuel s' after)
      (items fuel after) is (λ js read s'. loop-run fuel s' after js read) e

run-word :
    (l : TokenType) (f : Frame) (fs : List Frame) (n : ℕ) (t : Text) (is : List Item)
    → Opens l
    → run (st l f fs n) (word t ∷ is) ≡ run (st normal (statement (t ∷ []) null ∷ f) fs n) is
unfolding run step
run-word start f fs n t is o = refl
run-word statement_end f fs n t is o = refl
run-word start_block f fs n t is o = refl
run-word end_block f fs n t is o = refl
run-word _ f fs n t is o = elim o [ ]

run-words :
    (ts us : List Text) (f : Frame) (fs : List Frame) (n : ℕ) (is : List Item)
    → run (st normal (statement us null ∷ f) fs n) (words ts ++ is)
      ≡ run (st normal (statement (us ++ ts) null ∷ f) fs n) is
unfolding run step
run-words [] us f fs n is =
    ap (λ vs. run (st normal (statement vs null ∷ f) fs n) is) (sym (append-nil us))
run-words (t ∷ ts) us f fs n is =
    run-words ts (us ++ (t ∷ [])) f fs n is
    ∙ ap (λ vs. run (st normal (statement vs null ∷ f) fs n) is) (append_assoc us (t ∷ []) ts)

run-closing :
    (l : TokenType) (ts : List Text) (c : NginxConfig) (f : Frame) (fs : List Frame) (n : ℕ)
    (is : List Item)
    → Closes l
    → run (st l (push_all c []) ((statement ts (block nil) ∷ f) ∷ fs) (n + 1)) (closing ∷ is)
      ≡ run (st end_block (statement ts (block c) ∷ f) fs n) is
unfolding run
run-closing l ts c f fs n is h =
    let e : n + 1 ≡ suc n = omega arith in
    let e' : suc n - 1 ≡ n = omega arith in
    ap (λ k. run (st l (push_all c []) ((statement ts (block nil) ∷ f) ∷ fs) k) (closing ∷ is)) e
    ∙ ap (λ r. continue r (λ s'. run s' is)) (step-close l ts (push_all c []) f fs n [] h)
    ∙ ap (λ k. run (st end_block (statement ts (block (of_frame (push_all c []))) ∷ f) fs k) is) e'
    ∙ ap (λ k. run (st end_block (statement ts (block k) ∷ f) fs n) is) (of_frame-push_all c)

run-semicolon :
    (ts : List Text) (f : Frame) (fs : List Frame) (n : ℕ) (is : List Item)
    → run (st normal (statement ts null ∷ f) fs n) (semicolon ∷ is)
      ≡ run (st statement_end (statement ts null ∷ f) fs n) is
unfolding run step
run-semicolon ts f fs n is = refl

run-opening :
    (ts : List Text) (f : Frame) (fs : List Frame) (n : ℕ) (is : List Item)
    → run (st normal (statement ts null ∷ f) fs n) (opening ∷ is)
      ≡ run (st start_block [] ((statement ts (block nil) ∷ f) ∷ fs) (n + 1)) is
unfolding run step
run-opening ts f fs n is = refl

Opens_of_block : (b : ChildBlock) → Opens (last_of_block b)
Opens_of_block null = tt
Opens_of_block (block c) = tt

mutual
  run-config :
      (c : NginxConfig) (l : TokenType) (f : Frame) (fs : List Frame) (n : ℕ) (is : List Item)
      → IsNamed c
      → Opens l
      → run (st l f fs n) (config_items c ++ is) ≡ run (st (last_of l c) (push_all c f) fs n) is
  run-config nil l f fs n is w o = refl
  run-config (cons (statement [] b) c) l f fs n is w o = elim w.0 [ ]
  run-config (cons (statement (t ∷ ts) b) c) l f fs n is w o =
      ap (run (st l f fs n)) (append_assoc (words (t ∷ ts) ++ block_items b) (config_items c) is)
      ∙ ap (run (st l f fs n))
          (append_assoc (words (t ∷ ts)) (block_items b) (config_items c ++ is))
      ∙ run-word l f fs n t (words ts ++ (block_items b ++ (config_items c ++ is))) o
      ∙ run-words ts (t ∷ []) f fs n (block_items b ++ (config_items c ++ is))
      ∙ run-block b (t ∷ ts) f fs n (config_items c ++ is) w.0
      ∙ run-config c (last_of_block b) (statement (t ∷ ts) b ∷ f) fs n is w.1 (Opens_of_block b)

  run-block :
      (b : ChildBlock) (ts : List Text) (f : Frame) (fs : List Frame) (n : ℕ) (is : List Item)
      → IsNamedBlock b
      → run (st normal (statement ts null ∷ f) fs n) (block_items b ++ is)
        ≡ run (st (last_of_block b) (statement ts b ∷ f) fs n) is
  run-block null ts f fs n is w = run-semicolon ts f fs n is
  run-block (block c) ts f fs n is w =
      ap (λ js. run (st normal (statement ts null ∷ f) fs n) (opening ∷ js))
        (append_assoc (config_items c) (closing ∷ []) is)
      ∙ run-opening ts f fs n (config_items c ++ (closing ∷ is))
      ∙ run-config c start_block [] ((statement ts (block nil) ∷ f) ∷ fs) (n + 1) (closing ∷ is) w
          tt
      ∙ run-closing (last_of start_block c) ts c f fs n is (last_of-Closes start_block c tt)

run-end :
    (l : TokenType) (f : Frame) → Ended l → run (st l f [] 0) [] ≡ some (accepted (of_frame f))
unfolding run step root
run-end start f h = refl
run-end statement_end f h = refl
run-end end_block f h = refl
run-end _ f h = elim h [ ]

parse-config_items :
    (input : Text) (c : NginxConfig)
    → IsNamed c
    → items (length input + 1) input ≡ some (config_items c)
    → parse input ≡ some (accepted c)
unfolding parse
parse-config_items input c w e =
    loop-run (length input + 1) initial input (config_items c) e
    ∙ ap (run initial) (sym (append-nil (config_items c)))
    ∙ run-config c start [] [] 0 [] w tt
    ∙ run-end (last_of start c) (push_all c []) (last_of-Ended start c tt)
    ∙ ap (λ d. some (accepted d)) (of_frame-push_all c)

-- `Parse` accepts a text with a configuration exactly if the tokens of the text, without comments and
-- the blanks between them, are those of the configuration, each statement as its words and a semicolon
-- or a block in braces, and every statement, at any depth, has a word.
pub parse_iff :
    (input : Text) (c : NginxConfig)
    → (parse input ≡ some (accepted c))
      ↔ (IsNamed c × (items (length input + 1) input ≡ some (config_items c)))
parse_iff input c = (parse-items input c, λ h. parse-config_items input c h.0 h.1)
