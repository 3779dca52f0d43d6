-- ===== src/Config/Printer.antt =====
-- `NginxConfig::ToString` (src/config_parser/nginx_config.cc) and
-- `NginxConfigStatement::ToString` (src/config_parser/nginx_config_statement.cc).
pub mod Reading
pub mod RoundTrip
pub mod Statements
pub mod Unfinished
use cs.Prelude.{ℕ, zero, suc, ◌+◌, List, [], ◌∷◌, ◌++◌, Text, codes}
use cs.Config.Syntax.{
  NginxConfig, nil, cons, NginxConfigStatement, statement, ChildBlock, null, block,
}

-- The loop that appends two spaces for each level.
unfoldable pub indent : ℕ → Text
indent zero = []
indent (suc depth) = b' ' ∷ b' ' ∷ indent depth

-- The loop over the tokens from the second on.
unfoldable pub join_more : List Text → Text
join_more [] = []
join_more (t ∷ ts) = b' ' ∷ (t ++ join_more ts)

-- The loop over the tokens.
unfoldable pub join : List Text → Text
unfolding join_more
join [] = []
join (t ∷ ts) = t ++ join_more ts

unfoldable mutual
  -- `NginxConfig::ToString`
  pub config_to_string : ℕ → NginxConfig → Text
  config_to_string depth nil = []
  config_to_string depth (cons s c) = statement_to_string depth s ++ config_to_string depth c

  -- `NginxConfigStatement::ToString`
  pub statement_to_string : ℕ → NginxConfigStatement → Text
  statement_to_string depth (statement ts b) =
      indent depth ++ (join ts ++ (block_to_string depth b ++ (b'\n' ∷ [])))

  -- The test of `child_block_` in it.
  pub block_to_string : ℕ → ChildBlock → Text
  block_to_string depth null = b';' ∷ []
  block_to_string depth (block c) =
      b' ' ∷ b'{' ∷ b'\n' ∷ (config_to_string (depth + 1) c ++ (indent depth ++ (b'}' ∷ [])))
