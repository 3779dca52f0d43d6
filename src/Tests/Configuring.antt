-- ===== src/Tests/Configuring.antt =====
-- The configuration: its lexer, parser, printer and queries.
use cs.Prelude.{
  ◌≡◌, ◌≢◌, ◌↔◌, ◌+◌, refl, arith, [], ◌∷◌, ◌++◌, some, ltb, ◌%◌, ◌^◌, if◌then◌else◌, codes, length,
}
use cs.Config.Lexer.{comment, token, parse_token}
use cs.Config.Lexer.Shapes.{line, parse_token-IsLexeme}
use cs.Prelude.Int.{pos}
use cs.Decimal.{to_string}
use cs.Config.Syntax.{NginxConfig, nil, cons, NginxConfigStatement, statement, null, block}
use cs.Config.Lexer.{parse_token, ends_token}
use cs.Config.Lexer.Laws.{IsWord, plain}
use cs.Config.Parser.{accepted, parse, root, step}
use cs.Config.Parser.Grammar.{IsNamed, config_items, items}
use cs.Config.Parser.Completeness.{parse_iff}
use cs.Config.Parser.Safety.{IsDefined, parse-IsDefined}
use cs.Config.Printer.{config_to_string, indent, join}
use cs.Config.Printer.Statements.{IsConfig, done, more, words, without, within}
use cs.Config.Printer.RoundTrip.{parse-to_string}
use cs.Config.Printer.Unfinished.{parse-unfinished}
use cs.Config.Query.{get_config, read_config, start_up, port_error, serve}
use cs.Config.Query.Search.{
  InConfig, in_head, direct, inside, here, get_config-InConfig, get_config-ne-nil,
}
use cs.Config.Query.Port.{start_up-port}
use cs.Tests.Sample.{All-eq-false}

abbrev port_statement : NginxConfigStatement
port_statement = statement (codes "port" ∷ codes "8080" ∷ []) null

abbrev port_config : NginxConfig
port_config = cons port_statement nil

-- A server block around it.
abbrev server_config : NginxConfig
server_config = cons (statement (codes "server" ∷ []) (block port_config)) nil

server_config_text : config_to_string 0 server_config ≡ codes "server {\n  port 8080;\n}\n"
unfolding config_to_string indent join
server_config_text = refl

pub server_config_parsed :
    parse (codes "server {\n port 8080; # comment\n}") ≡ some (accepted server_config)
unfolding parse step parse_token root
server_config_parsed = refl

parse_iff_example :
    (parse (codes "server {\n port 8080; # comment\n}") ≡ some (accepted server_config)) ↔ (
      IsNamed server_config
      × (items
            (length (codes "server {\n port 8080; # comment\n}") + 1)
            (codes "server {\n port 8080; # comment\n}")
          ≡ some (config_items server_config)))
parse_iff_example = parse_iff (codes "server {\n port 8080; # comment\n}") server_config

abbrev port_IsWord : IsWord (codes "port")
port_IsWord =
    plain b'p' (codes "ort") (refl, refl, refl, refl, refl, refl, refl)
      (All-eq-false ends_token (codes "ort") refl)

abbrev number_IsWord : IsWord (codes "8080")
number_IsWord =
    plain b'8' (codes "080") (refl, refl, refl, refl, refl, refl, refl)
      (All-eq-false ends_token (codes "080") refl)

abbrev server_IsWord : IsWord (codes "server")
server_IsWord =
    plain b's' (codes "erver") (refl, refl, refl, refl, refl, refl, refl)
      (All-eq-false ends_token (codes "erver") refl)

abbrev port_config_IsConfig : IsConfig port_config
port_config_IsConfig = more (words port_IsWord (number_IsWord, tt) without) done

abbrev server_config_IsConfig : IsConfig server_config
server_config_IsConfig = more (words server_IsWord tt (within port_config_IsConfig)) done

parse-IsDefined_example : IsDefined (parse (codes "server {"))
parse-IsDefined_example = parse-IsDefined (codes "server {")

parse-to_string_example : parse (config_to_string 0 server_config) ≡ some (accepted server_config)
parse-to_string_example = parse-to_string server_config 0 server_config_IsConfig

parse-unfinished_example :
    parse (config_to_string 0 server_config ++ codes "port") ≡ some (accepted server_config)
parse-unfinished_example =
    parse-unfinished server_config b'p' (codes "ort") server_config_IsConfig
      (refl, refl, refl, refl, refl, refl, refl) (All-eq-false ends_token (codes "ort") refl)

server_config_port : get_config (codes "port") server_config ≡ codes "8080"
unfolding get_config
server_config_port = refl

get_config-InConfig_example :
    InConfig (codes "port") (get_config (codes "port") server_config) server_config
get_config-InConfig_example =
    get_config-InConfig (codes "port") server_config refl server_config_IsConfig
      (unfold get_config in λ e. cc)

get_config-ne-nil_example : get_config (codes "port") server_config ≢ []
get_config-ne-nil_example =
    get_config-ne-nil (codes "port") (codes "8080") server_config refl server_config_IsConfig
      (in_head nil (inside (codes "server" ∷ []) (in_head nil (direct null (here [])))))

-- The port 40000 is refused.
abbrev high_config : NginxConfig
high_config = cons (statement (codes "port" ∷ codes "40000" ∷ []) null) nil

start_up-port_example :
    start_up 2 (some (codes "port 40000;"))
    ≡ some (
        if ltb (40000 % 2 ^ 16) (2 ^ 15)
        then serve high_config (pos (40000 % 2 ^ 16))
        else port_error)
start_up-port_example =
    start_up-port (some (codes "port 40000;")) high_config 40000
      (unfold read_config parse step parse_token root in refl) (unfold get_config to_string in refl)
      (omega arith)

parse_token-IsLexeme_example :
    parse_token (codes "\r\n  " ++ codes "# a b\rlisten")
    ≡ token comment (codes "# a b") (codes "listen")
parse_token-IsLexeme_example =
    parse_token-IsLexeme comment (codes "# a b") (codes "\r\n  ") (codes "# a b\rlisten")
      (codes "listen") (refl, (refl, (refl, (refl, tt))))
      (line (codes " a b") b'\r' (codes "listen") (refl, (refl, (refl, (refl, tt)))) refl)
