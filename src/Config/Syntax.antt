-- ===== src/Config/Syntax.antt =====
-- `NginxConfig` and `NginxConfigStatement` (include/config_parser/nginx_config.h and
-- nginx_config_statement.h).
use cs.Prelude.{List, [], ◌∷◌, Text}

mutual
  -- `NginxConfig::statements_`
  pub data NginxConfig : Type 0 where
    nil : NginxConfig
    cons : NginxConfigStatement → NginxConfig → NginxConfig

  -- `tokens_` and `child_block_`
  pub data NginxConfigStatement : Type 0 where
    statement : List Text → ChildBlock → NginxConfigStatement

  pub data ChildBlock : Type 0 where
    null : ChildBlock
    block : NginxConfig → ChildBlock

abbrev pub statements : NginxConfig → List NginxConfigStatement
statements nil = []
statements (cons s c) = s ∷ statements c

abbrev pub tokens : NginxConfigStatement → List Text
tokens (statement ts b) = ts

abbrev pub child_block : NginxConfigStatement → ChildBlock
child_block (statement ts b) = b
