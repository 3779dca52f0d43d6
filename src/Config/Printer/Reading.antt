-- ===== src/Config/Printer/Reading.antt =====
-- One token at a time: `Parse` from a state, with as much fuel as the input needs.
use cs.Prelude.{ℕ, zero, suc, ◌+◌, ◌<◌, ◌≡◌, refl, ◌∙◌, true, ◌∷◌, Option, arith, Text, length}
use cs.Config.Lexer.{TokenType, token, is_blank, parse_token}
use cs.Config.Lexer.Laws.{parse_token_progress, parse_token-is_blank}
use cs.Config.Parser.{State, Round, go, valid, invalid, fault, step, Outcome, continue, loop}
use cs.Config.Parser.Safety.{step-go}

continue-cong :
    (r : Round) (k k' : State → Option Outcome)
    → ((s : State) → r ≡ go s → k s ≡ k' s)
    → continue r k ≡ continue r k'
continue-cong (go s) k k' h = h s refl
continue-cong (valid c) k k' h = refl
continue-cong (invalid c) k k' h = refl
continue-cong fault k k' h = refl

-- With more fuel than the input has bytes the fuel does not matter.
loop-fuel :
    (f g : ℕ) (s : State) (input : Text)
    → length input < f
    → length input < g
    → loop f s input ≡ loop g s input
unfolding loop
loop-fuel zero g s input p q = absurd (omega arith)
loop-fuel (suc f) zero s input p q = absurd (omega arith)
loop-fuel (suc f) (suc g) s input p q =
    let rest = (parse_token input).rest in
    continue-cong _ (λ s'. loop f s' rest) (λ s'. loop g s' rest)
      (λ s' e.
        loop-fuel f g s' rest (ground (arith, parse_token_progress input, step-go s _ _ e))
          (ground (arith, parse_token_progress input, step-go s _ _ e)))

unfoldable pub from : State → Text → Option Outcome
from s input = loop (length input + 1) s input

loop-go :
    (f : ℕ) (s s' : State) (input : Text) (t : TokenType) (v rest : Text)
    → parse_token input ≡ token t v rest
    → step s t v ≡ go s'
    → loop (suc f) s input ≡ loop f s' rest
unfolding loop
loop-go f s s' input t v rest p e = rw (p, e)

-- The next token, where the round goes on.
pub from-token :
    (s s' : State) (input : Text) (t : TokenType) (v rest : Text)
    → parse_token input ≡ token t v rest
    → step s t v ≡ go s'
    → from s input ≡ from s' rest
unfolding from
from-token s s' input t v rest p e =
    let short : length rest < length input =
      ground (arith, parse_token_progress input, step-go s t v e) in
    loop-fuel (length input + 1) (suc (length input)) s input (omega arith) (omega arith)
    ∙ loop-go (length input) s s' input t v rest p e
    ∙ loop-fuel (length input) (length rest + 1) s' rest (omega arith) (omega arith)

loop-blank :
    (f c : ℕ) (s : State) (input : Text) → is_blank c ≡ true → loop f s (c ∷ input) ≡ loop f s input
unfolding loop
loop-blank zero c s input h = refl
loop-blank (suc f) c s input h = rw (parse_token-is_blank c input h)

-- A blank in front changes nothing.
pub from-blank :
    (c : ℕ) (s : State) (input : Text) → is_blank c ≡ true → from s (c ∷ input) ≡ from s input
unfolding from
from-blank c s input h =
    loop-blank (length (c ∷ input) + 1) c s input h
    ∙ loop-fuel (length (c ∷ input) + 1) (length input + 1) s input (omega arith) (omega arith)
