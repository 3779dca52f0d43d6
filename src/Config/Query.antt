-- ===== src/Config/Query.antt =====
-- `NginxConfig::GetConfig` and `NginxConfig::GetPort` (src/config_parser/nginx_config.cc), the
-- opening of the file by `NginxConfigParser::Parse` (nginx_config_parser.cc), and the start of
-- `main` (src/server_main.cc).
pub mod Search
pub mod Port
use cs.Prelude.{
  ℕ, suc, ◌-◌, ◌%◌, ◌^◌, Bool, not, ◌||◌, List, [], ◌∷◌, Option, none, some, ltb, ◌==◌,
  if◌then◌else◌, Text, text_eq, codes,
}
use cs.Prelude.Int.{ℤ, pos, negsuc, leb_ℤ}
use cs.Decimal.{stoi}
use cs.Config.Syntax.{
  NginxConfig, nil, cons, NginxConfigStatement, statement, ChildBlock, null, block,
}
use cs.Config.Parser.{Outcome, accepted, rejected, undefined, parse}

-- The loop over the tokens of a statement: the token behind one that is the key.
unfoldable pub find_value : Text → Text → List Text → Option Text
find_value key prev [] = none
find_value key prev (t ∷ ts) = if text_eq prev key then some t else find_value key t ts

-- `return` of a found value, or what comes behind.
abbrev pub or_else : Option Text → Option Text → Option Text
or_else none o = o
or_else (some v) o = some v

-- `if (inner.length() > 0) { return inner; }`
abbrev pub nonempty : Option Text → Option Text
nonempty none = none
nonempty (some []) = none
nonempty (some (c ∷ t)) = some (c ∷ t)

unfoldable mutual
  -- The loop over the statements; `none` is its end.
  pub find_in_config : Text → NginxConfig → Option Text
  find_in_config key nil = none
  find_in_config key (cons s c) = or_else (find_in_statement key s) (find_in_config key c)

  pub find_in_statement : Text → NginxConfigStatement → Option Text
  find_in_statement key (statement ts b) = or_else (find_value key [] ts) (find_in_block key b)

  pub find_in_block : Text → ChildBlock → Option Text
  find_in_block key null = none
  find_in_block key (block c) = nonempty (find_in_config key c)

-- `NginxConfig::GetConfig`; the end of the loop returns "".
unfoldable pub get_config : Text → NginxConfig → Text
unfolding find_in_config find_value
get_config key c = elim (find_in_config key c) [ none ↦ [] | some v ↦ v ]

-- The conversion of an `int` to `short`: the low 16 bits, with a sign.
abbrev short_of_bits : ℕ → ℤ
short_of_bits n = if ltb n (2 ^ 15) then pos n else negsuc (2 ^ 16 - 1 - n)

unfoldable pub to_short : ℤ → ℤ
to_short (pos n) = short_of_bits (n % 2 ^ 16)
to_short (negsuc n) = short_of_bits (2 ^ 16 - 1 - n % 2 ^ 16)

-- The `try` block of `GetPort`, on the configuration that was read.
unfoldable pub port_of : NginxConfig → ℤ
port_of c = elim (stoi (get_config (codes "port") c)) [ none ↦ negsuc 0 | some n ↦ to_short n ]

-- The configuration that `Parse` leaves, on a file that may not open. Its return value goes
-- unread. The code calls `Parse` through the pointer `config_parser`, which nothing sets; `Parse` reads
-- no member, and is a plain call here.
unfoldable pub read_config : Option Text → Option NginxConfig
read_config none = some nil
read_config (some input) = elim (parse input) [
  | none ↦ none
  | some o ↦ elim o [ accepted c ↦ some c | rejected c ↦ some c | undefined ↦ none ]
]

-- How `main` goes on: exit status 1 or 2, or a server on a port with a configuration.
pub data Start : Type 0 where
  usage_error port_error : Start
  serve : NginxConfig → ℤ → Start

-- `main` from the test of `argc` to the construction of the server.
unfoldable pub start_up : ℕ → Option Text → Option Start
start_up argc file = if not (argc == 2) then some usage_error else elim (read_config file) [
  | none ↦ none
  | some c ↦ some (
      if not (leb_ℤ (pos 0) (port_of c)) || not (leb_ℤ (port_of c) (pos 65535))
      then port_error
      else serve c (port_of c))
]
