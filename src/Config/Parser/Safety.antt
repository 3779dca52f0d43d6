-- ===== src/Config/Parser/Safety.antt =====
-- `Parse` ends, and never takes the back of an empty container.
use cs.Prelude.{
  ℕ, zero, suc, ◌+◌, ◌<◌, ◌≡◌, ◌≢◌, refl, inl, inr, false, List, [], ◌∷◌, Option, some, arith, Text,
  length, All, Bool-cases, not, ◌||◌, leb,
}
use cs.Config.Syntax.{statement}
use cs.Config.Lexer.{
  TokenType, start, normal, start_block, end_block, comment, statement_end, eof, error, parse_token,
}
use cs.Config.Lexer.Laws.{is_end, parse_token_progress}
use cs.Config.Parser.{
  Frame, State, Round, go, valid, invalid, fault, on_end_block, pop_stack, may_end_block, step,
  Outcome, accepted, rejected, continue, loop, initial, parse,
}

abbrev IsFull : Frame → Type 0
IsFull f = f ≢ []

-- Behind a word the top has a statement at its back, and so has each configuration below; the
-- counter counts those below.
pub record IsSafe (s : State) : Type 0 where
  pub open_statement : s.last_token_type ≡ normal → IsFull s.top
  pub owners : All IsFull s.below
  pub counted : s.block_counter ≡ length s.below

abbrev Keeps : Round → Type 0
Keeps (go s) = IsSafe s
Keeps (valid c) = Unit
Keeps (invalid c) = Unit
Keeps fault = ⊥

abbrev state : TokenType → Frame → List Frame → ℕ → State
state l f fs n = record { last_token_type = l; top = f; below = fs; block_counter = n }

normal-Keeps :
    (l : TokenType) (f : Frame) (fs : List Frame) (n : ℕ) (v : Text)
    → IsSafe (state l f fs n)
    → Keeps (step (state l f fs n) normal v)
unfolding step
normal-Keeps normal [] fs n v h = absurd (h.open_statement refl refl)
normal-Keeps normal (statement ts b ∷ f) fs n v h = record {
  open_statement = λ _ e. cc;
  owners = h.owners;
  counted = h.counted;
}
normal-Keeps error f fs n v h = tt
normal-Keeps comment f fs n v h = tt
normal-Keeps eof f fs n v h = tt
normal-Keeps _ f fs n v h = record {
  open_statement = λ _ e. cc;
  owners = h.owners;
  counted = h.counted;
}

start_block-Keeps :
    (l : TokenType) (f : Frame) (fs : List Frame) (n : ℕ) (v : Text)
    → IsSafe (state l f fs n)
    → Keeps (step (state l f fs n) start_block v)
unfolding step
start_block-Keeps normal [] fs n v h = absurd (h.open_statement refl refl)
start_block-Keeps normal (statement ts b ∷ f) fs n v h = record {
  open_statement = λ e. cc;
  owners = (λ e. cc, h.owners);
  counted = omega (arith, h.counted);
}
start_block-Keeps _ f fs n v h = tt

pop_stack-Keeps :
    (l : TokenType) (f : Frame) (fs : List Frame) (n : ℕ)
    → IsSafe (state l f fs n)
    → 0 < n
    → Keeps (pop_stack (state l f fs n) fs)
unfolding pop_stack
pop_stack-Keeps l f [] n h p = absurd (omega (arith, h.counted))
pop_stack-Keeps l f ([] ∷ fs) n h p = absurd (h.owners.0 refl)
pop_stack-Keeps l f ((statement ts b ∷ g) ∷ fs) n h p = record {
  open_statement = λ e. cc;
  owners = h.owners.1;
  counted = omega (arith, h.counted);
}

end_block-Keeps : (s : State) (v : Text) → IsSafe s → Keeps (step s end_block v)
unfolding step
end_block-Keeps s v h =
    elim (Bool-cases (not (may_end_block s.last_token_type) || leb s.block_counter 0)) [
      | inl stop ↦ rw (stop, on_end_block) tt
      | inr on ↦
          rw (on, on_end_block)
            (pop_stack-Keeps s.last_token_type s.top s.below s.block_counter h (ground arith))
    ]

step-Keeps : (s : State) (t : TokenType) (v : Text) → IsSafe s → Keeps (step s t v)
unfolding step
step-Keeps s start v h = tt
step-Keeps s comment v h = h
step-Keeps s error v h = tt
step-Keeps s normal v h = normal-Keeps s.last_token_type s.top s.below s.block_counter v h
step-Keeps s statement_end v h = ground arith
step-Keeps s start_block v h = start_block-Keeps s.last_token_type s.top s.below s.block_counter v h
step-Keeps s end_block v h = end_block-Keeps s v h
step-Keeps s eof v h = ground arith

-- A round goes on only behind a token that is no end.
pub step-go :
    (s : State) (t : TokenType) (v : Text) {s' : State} → step s t v ≡ go s' → is_end t ≡ false
unfolding step
step-go s eof v e = ground arith
step-go s error v e = cc
step-go s _ v e = refl

-- The outcome is not undefined.
abbrev pub IsDefined : Option Outcome → Type 0
IsDefined (some (accepted c)) = Unit
IsDefined (some (rejected c)) = Unit
IsDefined _ = ⊥

continue-IsDefined :
    (r : Round) (k : State → Option Outcome)
    → Keeps r
    → ((s : State) → r ≡ go s → IsSafe s → IsDefined (k s))
    → IsDefined (continue r k)
continue-IsDefined (go s) k h next = next s refl h
continue-IsDefined (valid c) k h next = tt
continue-IsDefined (invalid c) k h next = tt
continue-IsDefined fault k h next = h

loop-IsDefined :
    (fuel : ℕ) (s : State) (input : Text)
    → IsSafe s
    → length input < fuel
    → IsDefined (loop fuel s input)
unfolding loop
loop-IsDefined zero s input h l = absurd (omega arith)
loop-IsDefined (suc fuel) s input h l =
    continue-IsDefined _ (λ s'. loop fuel s' (parse_token input).rest)
      (step-Keeps s (parse_token input).type (parse_token input).value h)
      (λ s' e k.
        loop-IsDefined fuel s' (parse_token input).rest k
          (ground (arith, parse_token_progress input, step-go s _ _ e)))

-- For every input `Parse` ends, with `true` or with `false`: the fuel is enough, `config_stack`
-- is never empty, and `statements_` never is where its back is taken.
pub parse-IsDefined : (input : Text) → IsDefined (parse input)
unfolding parse
parse-IsDefined input =
    loop-IsDefined (length input + 1) initial input
      (record { open_statement = λ e. cc; owners = tt; counted = refl }) (omega arith)
