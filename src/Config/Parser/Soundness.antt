-- ===== src/Config/Parser/Soundness.antt =====
-- What `Parse` accepts is the sequence of the tokens.
use cs.Prelude.{
  ℕ, zero, suc, ◌+◌, ◌≡◌, refl, ◌∙◌, sym, ap, false, List, [], ◌++◌, append-nil, append_assoc,
  Option, some, Text, length,
}
use cs.Config.Syntax.{NginxConfig}
use cs.Config.Lexer.{TokenType, start, eof, error, parse_token}
use cs.Config.Parser.{
  State, Round, go, valid, invalid, fault, step, Outcome, accepted, continue, loop, initial, parse,
}
use cs.Config.Parser.Grammar.{Item, config_items, IsNamed, item_of, next_items, items}
use cs.Config.Parser.Consumed.{
  consumed, IsShaped, Reads, Finishes, is_eof, step-Reads, eof-Finishes,
}

-- Of what was read up to the state `s` and of the tokens `is` behind it, `c` is the tree.
record IsTree (s : State) (is : Option (List Item)) (c : NginxConfig) : Type 0 where
  named : IsNamed c
  rest : List Item
  read : is ≡ some rest
  whole : config_items c ≡ consumed s ++ rest

accepted-injective : {c d : NginxConfig} → some (accepted c) ≡ some (accepted d) → c ≡ d
accepted-injective e = cc

eof-IsTree :
    (s : State) (r : Round) (v : Text) (k : State → Option Outcome) (more : Option (List Item))
    (c : NginxConfig)
    → Finishes s r
    → continue r k ≡ some (accepted c)
    → IsTree s (next_items eof v more) c
eof-IsTree s (go s') v k more c h e = elim h [ ]
eof-IsTree s (valid d) v k more c h e =
    let same : d ≡ c = accepted-injective e in
    record {
      named = rw (← same) h.0;
      rest = [];
      read = refl;
      whole = ap config_items (sym same) ∙ h.1 ∙ sym (append-nil (consumed s));
    }
eof-IsTree s (invalid d) v k more c h e = absurd cc
eof-IsTree s fault v k more c h e = absurd cc

next_items-go :
    (s s' : State) (t : TokenType) (v : Text) (js : List Item)
    → is_eof t ≡ false
    → step s t v ≡ go s'
    → next_items t v (some js) ≡ some (item_of t v ++ js)
unfolding step
next_items-go s s' start v js n e = absurd cc
next_items-go s s' error v js n e = absurd cc
next_items-go s s' eof v js n e = absurd cc
next_items-go s s' _ v js n e = refl

go-IsTree :
    (s : State) (t : TokenType) (v : Text) (r : Round) (k : State → Option Outcome)
    (more : Option (List Item)) (c : NginxConfig)
    → is_eof t ≡ false
    → step s t v ≡ r
    → Reads s (item_of t v) r
    → ((s' : State) → IsShaped s' → k s' ≡ some (accepted c) → IsTree s' more c)
    → continue r k ≡ some (accepted c)
    → IsTree s (next_items t v more) c
go-IsTree s t v (go s') k more c n same h next e =
    let tree = next s' h.0 e in
    record {
      named = tree.named;
      rest = item_of t v ++ tree.rest;
      read = ap (next_items t v) tree.read ∙ next_items-go s s' t v tree.rest n same;
      whole =
          tree.whole
          ∙ ap (λ is. is ++ tree.rest) h.1
          ∙ append_assoc (consumed s) (item_of t v) tree.rest;
    }
go-IsTree s t v (valid d) k more c n same h next e = elim h [ ]
go-IsTree s t v (invalid d) k more c n same h next e = absurd cc
go-IsTree s t v fault k more c n same h next e = absurd cc

step-IsTree :
    (s : State) (t : TokenType) (v : Text) (k : State → Option Outcome) (more : Option (List Item))
    (c : NginxConfig)
    → IsShaped s
    → ((s' : State) → IsShaped s' → k s' ≡ some (accepted c) → IsTree s' more c)
    → continue (step s t v) k ≡ some (accepted c)
    → IsTree s (next_items t v more) c
step-IsTree s eof v k more c h next e =
    eof-IsTree s (step s eof v) v k more c (eof-Finishes s v h) e
step-IsTree s t v k more c h next e =
    go-IsTree s t v (step s t v) k more c refl refl (step-Reads s t v refl h) next e

loop-IsTree :
    (fuel : ℕ) (s : State) (input : Text) (c : NginxConfig)
    → IsShaped s
    → loop fuel s input ≡ some (accepted c)
    → IsTree s (items fuel input) c
unfolding loop items
loop-IsTree zero s input c h e = absurd cc
loop-IsTree (suc fuel) s input c h e =
    let after = (parse_token input).rest in
    step-IsTree s (parse_token input).type (parse_token input).value (λ s'. loop fuel s' after)
      (items fuel after) c h (λ s' h' e'. loop-IsTree fuel s' after c h' e') e

-- What `Parse` accepts is what stands in the input: the tokens of the input, without comments and the
-- blanks between them, are those of the configuration, each statement as its words and a semicolon or
-- a block in braces, in their order; and every statement, at any depth, has a word.
pub parse-items :
    (input : Text) (c : NginxConfig)
    → parse input ≡ some (accepted c)
    → IsNamed c × (items (length input + 1) input ≡ some (config_items c))
unfolding parse
parse-items input c e =
    let tree =
      loop-IsTree (length input + 1) initial input c
        (record { shape = tt; owners = tt; counted = refl }) e in
    (tree.named, tree.read ∙ ap some (sym tree.whole))
