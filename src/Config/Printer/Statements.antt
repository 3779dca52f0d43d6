-- ===== src/Config/Printer/Statements.antt =====
-- How `Parse` reads the pieces of a printed statement.
use cs.Prelude.{
  ℕ, zero, suc, ◌+◌, ◌-◌, ◌≡◌, refl, ◌∙◌, ap, true, false, List, [], ◌∷◌, ◌++◌, append_assoc,
  append-nil, arith, leb, Text, All,
}
use cs.Config.Syntax.{
  NginxConfig, nil, cons, NginxConfigStatement, statement, ChildBlock, null, block,
}
use cs.Config.Lexer.{
  TokenType, start, normal, start_block, end_block, statement_end, eof, parse_token, ends_token,
}
use cs.Config.Lexer.Laws.{IsWord, parse_token-IsWord}
use cs.Config.Parser.{Frame, State, go, step, onto, of_frame}
use cs.Config.Printer.{indent, join_more}
use cs.Config.Printer.Reading.{from, from-token, from-blank}

-- A configuration whose statements have a token at least, each of which can be read back.
mutual
  pub data IsConfig : NginxConfig → Type 0 where
    done : IsConfig nil
    more :
        {s : NginxConfigStatement} {c : NginxConfig}
        → IsStatement s
        → IsConfig c
        → IsConfig (cons s c)

  pub data IsStatement : NginxConfigStatement → Type 0 where
    words :
        {t : Text} {ts : List Text} {b : ChildBlock}
        → IsWord t
        → All IsWord ts
        → IsBlock b
        → IsStatement (statement (t ∷ ts) b)

  pub data IsBlock : ChildBlock → Type 0 where
    without : IsBlock null
    within : {c : NginxConfig} → IsConfig c → IsBlock (block c)

abbrev pub st : TokenType → Frame → List Frame → ℕ → State
st l f fs n = record { last_token_type = l; top = f; below = fs; block_counter = n }

-- The next byte ends a word.
abbrev pub Ends : Text → Type 0
Ends [] = ⊥
Ends (c ∷ r) = ends_token c ≡ true

pub Ends-join_more : (ts : List Text) (rest : Text) → Ends rest → Ends (join_more ts ++ rest)
unfolding join_more
Ends-join_more [] rest e = e
Ends-join_more (t ∷ ts) rest e = refl

module _ (f : Frame) (fs : List Frame) (n : ℕ) where
  pub from-word :
      {t : Text} (us : List Text) (rest : Text)
      → IsWord t
      → Ends rest
      → from (st normal (statement us null ∷ f) fs n) (t ++ rest)
        ≡ from (st normal (statement (us ++ (t ∷ [])) null ∷ f) fs n) rest
  from-word us [] w e = elim e [ ]
  from-word {t} us (c ∷ r) w e =
      from-token _ _ (t ++ (c ∷ r)) normal t (c ∷ r) (parse_token-IsWord c r w e)
        (unfold step in refl)

  pub from-join_more :
      (ts us : List Text) (rest : Text)
      → All IsWord ts
      → Ends rest
      → from (st normal (statement us null ∷ f) fs n) (join_more ts ++ rest)
        ≡ from (st normal (statement (us ++ ts) null ∷ f) fs n) rest
  unfolding join_more
  from-join_more [] us rest h e = rw (append-nil us)
  from-join_more (t ∷ ts) us rest (w, h) e =
      from-blank b' ' _ ((t ++ join_more ts) ++ rest) refl
      ∙ rw (append_assoc t (join_more ts) rest) (
          from-word us (join_more ts ++ rest) w (Ends-join_more ts rest e)
          ∙ from-join_more ts (us ++ (t ∷ [])) rest h e
          ∙ rw (append_assoc us (t ∷ []) ts))

pub from-indent : (d : ℕ) (s : State) (rest : Text) → from s (indent d ++ rest) ≡ from s rest
unfolding indent
from-indent zero s rest = refl
from-indent (suc d) s rest =
    from-blank b' ' s _ refl ∙ from-blank b' ' s _ refl ∙ from-indent d s rest

-- What the last token is behind a configuration that is printed behind `l`.
abbrev pub last_of_block : ChildBlock → TokenType
last_of_block null = statement_end
last_of_block (block c) = end_block

abbrev pub last_of : TokenType → NginxConfig → TokenType
last_of l nil = l
last_of l (cons (statement ts b) c) = last_of (last_of_block b) c

-- The types that stand in front of a statement.
abbrev pub Opens : TokenType → Type 0
Opens start = Unit
Opens statement_end = Unit
Opens start_block = Unit
Opens end_block = Unit
Opens _ = ⊥

pub from-first :
    {t : Text} (l : TokenType) (f : Frame) (fs : List Frame) (n : ℕ) (rest : Text)
    → Opens l
    → IsWord t
    → Ends rest
    → from (st l f fs n) (t ++ rest) ≡ from (st normal (statement (t ∷ []) null ∷ f) fs n) rest
from-first l f fs n [] o w e = elim e [ ]
from-first {t} l f fs n (c ∷ r) o w e =
    from-token _ _ (t ++ (c ∷ r)) normal t (c ∷ r) (parse_token-IsWord c r w e) (opened l o)
  where
    opened :
        (l : TokenType)
        → Opens l
        → step (st l f fs n) normal t ≡ go (st normal (statement (t ∷ []) null ∷ f) fs n)
    opened start o = unfold step in refl
    opened statement_end o = unfold step in refl
    opened start_block o = unfold step in refl
    opened end_block o = unfold step in refl
    opened normal o = elim o [ ]
    opened TokenType.comment o = elim o [ ]
    opened eof o = elim o [ ]
    opened TokenType.error o = elim o [ ]

-- The statements of a configuration, put on a frame in their order.
abbrev pub push_all : NginxConfig → Frame → Frame
push_all nil f = f
push_all (cons s c) f = push_all c (s ∷ f)

pub onto-push_all : (c : NginxConfig) (f : Frame) → onto (push_all c f) nil ≡ onto f c
onto-push_all nil f = refl
onto-push_all (cons s c) f = onto-push_all c (s ∷ f) ∙ unfold onto in refl

pub of_frame-push_all : (c : NginxConfig) → of_frame (push_all c []) ≡ c
unfolding of_frame
of_frame-push_all c = onto-push_all c [] ∙ unfold onto in refl

pub from-semicolon :
    (ts : List Text) (f : Frame) (fs : List Frame) (n : ℕ) (rest : Text)
    → from (st normal (statement ts null ∷ f) fs n) (b';' ∷ rest)
      ≡ from (st statement_end (statement ts null ∷ f) fs n) rest
from-semicolon ts f fs n rest =
    from-token _ _ (b';' ∷ rest) statement_end (b';' ∷ []) rest (unfold parse_token in refl)
      (unfold step in refl)

pub from-open :
    (ts : List Text) (f : Frame) (fs : List Frame) (n : ℕ) (rest : Text)
    → from (st normal (statement ts null ∷ f) fs n) (b'{' ∷ rest)
      ≡ from (st start_block [] ((statement ts (block nil) ∷ f) ∷ fs) (n + 1)) rest
from-open ts f fs n rest =
    from-token _ _ (b'{' ∷ rest) start_block (b'{' ∷ []) rest (unfold parse_token in refl)
      (unfold step in refl)

-- The types that stand in front of the end of the input.
abbrev pub Ended : TokenType → Type 0
Ended start = Unit
Ended statement_end = Unit
Ended end_block = Unit
Ended _ = ⊥

-- The types that stand in front of the end of a block.
abbrev pub Closes : TokenType → Type 0
Closes statement_end = Unit
Closes start_block = Unit
Closes end_block = Unit
Closes _ = ⊥

pub last_of-Closes : (l : TokenType) (c : NginxConfig) → Closes l → Closes (last_of l c)
last_of-Closes l nil h = h
last_of-Closes l (cons (statement ts null) c) h = last_of-Closes statement_end c tt
last_of-Closes l (cons (statement ts (block b)) c) h = last_of-Closes end_block c tt

pub step-close :
    (l : TokenType) (ts : List Text) (g f : Frame) (fs : List Frame) (n : ℕ) (v : Text)
    → Closes l
    → step (st l g ((statement ts (block nil) ∷ f) ∷ fs) (suc n)) end_block v
      ≡ go (st end_block (statement ts (block (of_frame g)) ∷ f) fs (suc n - 1))
unfolding step
step-close statement_end ts g f fs n v h = let e : leb (suc n) 0 ≡ false = ground arith in rw e
step-close start_block ts g f fs n v h = let e : leb (suc n) 0 ≡ false = ground arith in rw e
step-close end_block ts g f fs n v h = let e : leb (suc n) 0 ≡ false = ground arith in rw e
step-close start ts g f fs n v h = elim h [ ]
step-close normal ts g f fs n v h = elim h [ ]
step-close TokenType.comment ts g f fs n v h = elim h [ ]
step-close eof ts g f fs n v h = elim h [ ]
step-close TokenType.error ts g f fs n v h = elim h [ ]

pub from-close :
    (l : TokenType) (ts : List Text) (c : NginxConfig) (f : Frame) (fs : List Frame) (n : ℕ)
    (rest : Text)
    → Closes l
    → from (st l (push_all c []) ((statement ts (block nil) ∷ f) ∷ fs) (n + 1)) (b'}' ∷ rest)
      ≡ from (st end_block (statement ts (block c) ∷ f) fs n) rest
from-close l ts c f fs n rest h =
    let e : n + 1 ≡ suc n = omega arith in
    let e' : suc n - 1 ≡ n = omega arith in
    ap (λ k. from (st l (push_all c []) ((statement ts (block nil) ∷ f) ∷ fs) k) (b'}' ∷ rest)) e
    ∙ from-token _ _ (b'}' ∷ rest) end_block (b'}' ∷ []) rest (unfold parse_token in refl)
        (step-close l ts (push_all c []) f fs n (b'}' ∷ []) h)
    ∙ ap (λ k. from (st end_block (statement ts (block (of_frame (push_all c []))) ∷ f) fs k) rest)
        e'
    ∙ ap (λ k. from (st end_block (statement ts (block k) ∷ f) fs n) rest) (of_frame-push_all c)
