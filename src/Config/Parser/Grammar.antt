-- ===== src/Config/Parser/Grammar.antt =====
-- What a configuration is as a sequence of tokens: the grammar that `Parse` is to recognise.
use cs.Prelude.{ℕ, zero, suc, List, [], ◌∷◌, ◌++◌, Option, none, some, Text}
use cs.Config.Syntax.{
  NginxConfig, nil, cons, NginxConfigStatement, statement, ChildBlock, null, block,
}
use cs.Config.Lexer.{
  TokenType, start, normal, start_block, end_block, statement_end, eof, error, parse_token,
}

-- The tokens that carry something: words, and the three marks.
pub data Item : Type 0 where
  word : Text → Item
  semicolon opening closing : Item

abbrev pub words : List Text → List Item
words [] = []
words (t ∷ ts) = word t ∷ words ts

abbrev mutual
  -- The statements of a configuration, one behind the other.
  pub config_items : NginxConfig → List Item
  config_items nil = []
  config_items (cons s c) = statement_items s ++ config_items c

  -- A statement is its words and a semicolon, or its words and a block in braces.
  pub statement_items : NginxConfigStatement → List Item
  statement_items (statement ts b) = words ts ++ block_items b

  pub block_items : ChildBlock → List Item
  block_items null = semicolon ∷ []
  block_items (block c) = opening ∷ (config_items c ++ (closing ∷ []))

abbrev mutual
  -- Every statement, in the blocks too, has a word.
  pub IsNamed : NginxConfig → Type 0
  IsNamed nil = Unit
  IsNamed (cons s c) = IsNamedStatement s × IsNamed c

  pub IsNamedStatement : NginxConfigStatement → Type 0
  IsNamedStatement (statement [] b) = ⊥
  IsNamedStatement (statement (t ∷ ts) b) = IsNamedBlock b

  pub IsNamedBlock : ChildBlock → Type 0
  IsNamedBlock null = Unit
  IsNamedBlock (block c) = IsNamed c

-- What a token is in this sequence. Comments are left out.
abbrev pub item_of : TokenType → Text → List Item
item_of normal v = word v ∷ []
item_of statement_end v = semicolon ∷ []
item_of start_block v = opening ∷ []
item_of end_block v = closing ∷ []
item_of _ v = []

abbrev pub behind : List Item → Option (List Item) → Option (List Item)
behind is none = none
behind is (some js) = some (is ++ js)

-- The tokens of a text up to its end, on fuel, as `ParseToken` returns them; `none` where a quote is not
-- closed. A word that the end of the text cuts off is no token.
abbrev pub next_items : TokenType → Text → Option (List Item) → Option (List Item)
next_items eof v more = some []
next_items error v more = none
next_items start v more = none
next_items t v more = behind (item_of t v) more

unfoldable pub items : ℕ → Text → Option (List Item)
unfolding parse_token
items zero input = none
items (suc fuel) input =
    let more = items fuel (parse_token input).rest in
    next_items (parse_token input).type (parse_token input).value more
