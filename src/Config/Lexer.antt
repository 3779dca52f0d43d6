-- ===== src/Config/Lexer.antt =====
-- `NginxConfigParser::ParseToken` (src/config_parser/nginx_config_parser.cc).
pub mod Laws
pub mod Shapes
use cs.Prelude.{ℕ, Bool, ◌||◌, [], ◌∷◌, ◌++◌, ◌==◌, if◌then◌else◌, Text}

-- `NginxConfigParser::TokenType`
pub data TokenType : Type 0 where
  start normal start_block end_block comment statement_end eof error : TokenType

-- `NginxConfigParser::TokenParserState`
pub data TokenParserState : Type 0 where
  initial_whitespace single_quote double_quote in_comment in_normal : TokenParserState

-- The type that `ParseToken` returns, `*value`, and what is left of the input.
pub record Token : Type 0 where
  pub type : TokenType
  pub value : Text
  pub rest : Text

abbrev pub token : TokenType → Text → Text → Token
token t v r = record { type = t; value = v; rest = r }

abbrev pub is_blank : ℕ → Bool
is_blank c = c == b' ' || c == b'\t' || c == b'\n' || c == b'\r'

-- The test of the state for normal tokens. It names the tab twice, and no carriage return.
abbrev pub ends_token : ℕ → Bool
ends_token c =
    c == b' ' || c == b'\t' || c == b'\n' || c == b'\t' || c == b';' || c == b'{' || c == b'}'

-- The loop of `ParseToken`, and the test behind it.
unfoldable pub scan : TokenParserState → Text → Text → Token
scan single_quote value [] = token error value []
scan double_quote value [] = token error value []
scan _ value [] = token eof value []
scan initial_whitespace value (c ∷ input) =
    let in_word = scan in_normal (value ++ (c ∷ [])) input in
    let again = scan initial_whitespace value input in
    let commented = scan in_comment (c ∷ []) input in
    let quoted = scan double_quote (c ∷ []) input in
    let single = scan single_quote (c ∷ []) input in
    if c == b'{'
    then token start_block (c ∷ []) input
    else if c == b'}'
    then token end_block (c ∷ []) input
    else if c == b'#'
    then commented
    else if c == b'"'
    then quoted
    else if c == b'\''
    then single
    else if c == b';'
    then token statement_end (c ∷ []) input
    else if is_blank c
    then again
    else in_word
scan single_quote value (c ∷ input) =
    let again = scan single_quote (value ++ (c ∷ [])) input in
    if c == b'\'' then token normal (value ++ (c ∷ [])) input else again
scan double_quote value (c ∷ input) =
    let again = scan double_quote (value ++ (c ∷ [])) input in
    if c == b'"' then token normal (value ++ (c ∷ [])) input else again
scan in_comment value (c ∷ input) =
    let again = scan in_comment (value ++ (c ∷ [])) input in
    if c == b'\n' || c == b'\r' then token comment value input else again
scan in_normal value (c ∷ input) =
    let again = scan in_normal (value ++ (c ∷ [])) input in
    if ends_token c then token normal value (c ∷ input) else again

-- `NginxConfigParser::ParseToken`
unfoldable pub parse_token : Text → Token
unfolding scan
parse_token input = scan initial_whitespace [] input
