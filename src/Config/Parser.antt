-- ===== src/Config/Parser.antt =====
-- `NginxConfigParser::Parse` on a stream (src/config_parser/nginx_config_parser.cc).
pub mod Completeness
pub mod Consumed
pub mod Grammar
pub mod Safety
pub mod Soundness
use cs.Prelude.{
  ℕ, zero, suc, ◌+◌, ◌-◌, Bool, true, false, not, ◌&&◌, ◌||◌, List, [], ◌∷◌, ◌++◌, Option, none,
  some, leb, ◌==◌, if◌then◌else◌, Text, length,
}
use cs.Config.Syntax.{
  NginxConfig, nil, cons, NginxConfigStatement, statement, ChildBlock, null, block,
}
use cs.Config.Lexer.{
  TokenType, start, normal, start_block, end_block, comment, statement_end, eof, error, Token,
  parse_token,
}

-- The statements of one `NginxConfig` on `config_stack`, the last one first.
abbrev pub Frame : Type 0
Frame = List NginxConfigStatement

unfoldable pub onto : Frame → NginxConfig → NginxConfig
onto [] c = c
onto (s ∷ f) c = onto f (cons s c)

unfoldable pub of_frame : Frame → NginxConfig
unfolding onto
of_frame f = onto f nil

-- The variables of the loop: `config_stack.top()` and the configurations below it, each with the
-- statement at its back as the owner of the one above.
pub record State : Type 0 where
  pub last_token_type : TokenType
  pub top : Frame
  pub below : List Frame
  pub block_counter : ℕ

-- One round of the loop: go on, `return true` or `false` with the configuration as it stands, or
-- an access to the back of an empty container, which is undefined.
pub data Round : Type 0 where
  go : State → Round
  valid : NginxConfig → Round
  invalid : NginxConfig → Round
  fault : Round

-- `child_block_` of the last statement of a configuration.
unfoldable pub set_child : NginxConfig → Frame → Option Frame
set_child child [] = none
set_child child (statement ts b ∷ f) = some (statement ts (block child) ∷ f)

-- The root configuration with every open block in its place.
unfoldable pub root : Frame → List Frame → NginxConfig
unfolding of_frame set_child
root top [] = of_frame top
root top (f ∷ below) = elim (set_child (of_frame top) f) [
  | none ↦ root f below
  | some g ↦ root g below
]

abbrev break : State → Round
break s = invalid (root s.top s.below)

-- `statements_.back().get()->tokens_.push_back(token)`
push_token : Text → Frame → Option Frame
push_token t [] = none
push_token t (statement ts b ∷ f) = some (statement (ts ++ (t ∷ [])) b ∷ f)

abbrev with_top : Option Frame → (Frame → Round) → Round
with_top none k = fault
with_top (some f) k = k f

abbrev is_normal : TokenType → Bool
is_normal normal = true
is_normal _ = false

abbrev may_begin : TokenType → Bool
may_begin start = true
may_begin statement_end = true
may_begin start_block = true
may_begin end_block = true
may_begin normal = true
may_begin _ = false

abbrev may_end_block : TokenType → Bool
may_end_block statement_end = true
may_end_block start_block = true
may_end_block end_block = true
may_end_block _ = false

abbrev may_end_file : TokenType → Bool
may_end_file statement_end = true
may_end_file end_block = true
may_end_file start = true
may_end_file _ = false

-- A new statement at the back unless the last token was a word too.
abbrev begin_statement : TokenType → Frame → Frame
begin_statement normal f = f
begin_statement _ f = statement [] null ∷ f

on_normal : State → Text → Round
unfolding push_token
on_normal s t =
    if may_begin s.last_token_type
    then with_top (push_token t (begin_statement s.last_token_type s.top))
        (λ f. go (record s { top = f; last_token_type = normal }))
    else break s

on_statement_end : State → Round
on_statement_end s =
    if is_normal s.last_token_type
    then go (record s { last_token_type = statement_end })
    else break s

-- `child_block_.reset(new_config)`, `config_stack.push(new_config)`
on_start_block : State → Round
unfolding set_child
on_start_block s =
    if is_normal s.last_token_type
    then with_top (set_child nil s.top) (λ f. go (record {
      last_token_type = start_block;
      top = [];
      below = f ∷ s.below;
      block_counter = s.block_counter + 1;
    }))
    else break s

-- `config_stack.pop()`: the block that ends is the child of the statement at the back below it.
pop_stack : State → List Frame → Round
unfolding set_child of_frame
pop_stack s [] = fault
pop_stack s (f ∷ below) = with_top (set_child (of_frame s.top) f) (λ g. go (record {
  last_token_type = end_block;
  top = g;
  below = below;
  block_counter = s.block_counter - 1;
}))

on_end_block : State → Round
unfolding pop_stack
on_end_block s =
    if not (may_end_block s.last_token_type) || leb s.block_counter 0
    then break s
    else pop_stack s s.below

on_eof : State → Round
on_eof s =
    if not (may_end_file s.last_token_type) || not (s.block_counter == 0)
    then break s
    else valid (root s.top s.below)

-- The body of the loop behind the call of `ParseToken`.
unfoldable pub step : State → TokenType → Text → Round
unfolding on_normal on_statement_end on_start_block on_end_block on_eof
step s error t = break s
step s comment t = go s
step s start t = break s
step s normal t = on_normal s t
step s statement_end t = on_statement_end s
step s start_block t = on_start_block s
step s end_block t = on_end_block s
step s eof t = on_eof s

-- What `Parse` comes to.
pub data Outcome : Type 0 where
  accepted rejected : NginxConfig → Outcome
  undefined : Outcome

-- What the loop does with a round; `k` is the rest of the loop.
abbrev pub continue : Round → (State → Option Outcome) → Option Outcome
continue (go s) k = k s
continue (valid c) k = some (accepted c)
continue (invalid c) k = some (rejected c)
continue fault k = some undefined

-- The loop, on fuel; `none` means that the fuel ran out.
unfoldable pub loop : ℕ → State → Text → Option Outcome
loop zero s input = none
loop (suc fuel) s input =
    continue (step s (parse_token input).type (parse_token input).value)
      (λ s'. loop fuel s' (parse_token input).rest)

abbrev pub initial : State
initial = record { last_token_type = start; top = []; below = []; block_counter = 0 }

-- `NginxConfigParser::Parse(std::istream*, NginxConfig*)` into an empty configuration.
unfoldable pub parse : Text → Option Outcome
unfolding loop
parse input = loop (length input + 1) initial input
