-- ===== src/Tests/Whole.antt =====
-- From a configuration file to the bytes that a client gets.
use cs.Prelude.{
  ◌≡◌, refl, arith, ◌==◌, some, true, false, [], ◌∷◌, ◌++◌, Text, codes, length, replicate, take,
  ◌-◌,
}
use cs.OrderedMap
use cs.Decimal.{stoi}
use cs.Prelude.Int.{pos, leb_ℤ}
use cs.Strings.{strip_slashes}
use cs.Config.Syntax.{NginxConfig, nil, cons, statement, null, block}
use cs.Config.Parser.Grammar.{items}
use cs.Config.Lexer.{scan}
use cs.Config.Query.{port_of, start_up, serve, get_config, to_short}
use cs.Http.Request.{get_req}
use cs.Http.RequestParser.RoundTrip.{render}
use cs.Http.Reply.{Reply, to_buffers}
use cs.Http.Reply.Laws.{HasContentLength}
use cs.Handler.{echo_request_handler}
use cs.Handler.Fixed.{handle_echo}
use cs.Handler.Status.{count_request}
use cs.Handler.Virtual.{handle_request}
use cs.Dispatcher.{
  RequestHandlerDispatcher, echo, handler_type, handler_key, init, unquote, add_locations,
  construct, empty,
}
use cs.Dispatcher.Locating.{Located}
use cs.Session.{ends_with_crlf}
use cs.Session.Serving.{recorded}
use cs.Server.{
  async_accept, Uninitialised, IoService, new_session, set_session, server, start_accept,
  handle_accept,
}
use cs.Server.Steps.{Reachable, started, stepped, accepted}
use cs.Server.Serving.{IsDone}
use cs.Server.Service.{callees_of, request_of, IsServedBy, Arrives, start_up-served, echo-served}
use cs.Tests.Sample.{All-eq-false}
use cs.Tests.Parsing.{echo_head, echo_head-IsWellFormed}
use cs.Tests.Handling.{sample_environment, first_statics}

abbrev file : Text
file = codes "server {\n port 8080;\n location \"/e/\" EchoHandler { root x; }\n}"

abbrev root_config : NginxConfig
root_config = cons (statement (codes "root" ∷ codes "x" ∷ []) null) nil

abbrev inner : NginxConfig
inner = cons (statement (codes "port" ∷ codes "8080" ∷ []) null) (
    cons
      (statement (codes "location" ∷ codes "\"/e/\"" ∷ codes "EchoHandler" ∷ [])
        (block root_config))
      nil)

abbrev config : NginxConfig
config = cons (statement (codes "server" ∷ []) (block inner)) nil

abbrev dispatcher : RequestHandlerDispatcher
dispatcher = record {
  handlers_ = (codes "/e", some echo_request_handler) ∷ [];
  request_handler_uri = (codes "/e", codes "echo handler") ∷ [];
  num_handlers = 1;
}

e-Located : Located sample_environment.libraries.boost config echo (codes "/e/") root_config
e-Located = record {
  server = inner;
  front = statement (codes "port" ∷ codes "8080" ∷ []) null ∷ [];
  back = [];
  second = codes "\"/e/\"";
  third = codes "EchoHandler";
  more = [];
  before = empty;
  in_config = refl;
  in_server = refl;
  has_type = unfold handler_type in refl;
  has_path = unfold unquote in refl;
  read_before = unfold add_locations in refl;
  is_first = unfold OrderedMap.lookup in refl;
}

abbrev text : Text
text = render echo_head []

abbrev garbage : Uninitialised
garbage = record {
  data_ = replicate (length text) b'x' ++ (0 ∷ codes "junk");
  method_ = get_req;
  http_version_major = 7;
  http_version_minor = 7;
}

abbrev listening : IoService
listening = server garbage (λ n. new_session garbage) first_statics

abbrev connected : IoService
connected = handle_accept garbage 0 false (record listening { pending = [] })

connected-IsServedBy : IsServedBy sample_environment config dispatcher connected
connected-IsServedBy = record {
  built = unfold construct OrderedMap.insert in refl;
  run =
      stepped (started garbage (λ n. new_session garbage) first_statics)
        (accepted {io = listening} garbage [] [] 0 false (unfold start_accept in refl));
}

text-Arrives : Arrives text (codes "junk") (async_accept 1 ∷ []) [] 0 connected
unfolding handle_accept set_session
text-Arrives = record {
  waits = refl;
  ended = refl;
  fits = omega arith;
  has_no_nul = All-eq-false (λ c. c == 0) text refl;
  has_crlf = unfold ends_with_crlf in refl;
}

port_low : leb_ℤ (pos 0) (port_of config) ≡ true
unfolding port_of get_config to_short stoi
port_low = refl

port_high : leb_ℤ (port_of config) (pos 65535) ≡ true
unfolding port_of get_config to_short stoi
port_high = refl

start_up-served_example :
    (start_up 2 (some file) ≡ some (serve config (port_of config)))
    × (io' : IoService) × Reachable (callees_of sample_environment dispatcher) io'
    × IsDone 0
        (handle_echo (request_of get_req echo_head []))
        connected
        (async_accept 1 ∷ [])
        (recorded
          (codes "/e")
          (handle_echo (request_of get_req echo_head []))
          (count_request first_statics))
        io'
unfolding strip_slashes items handle_accept
start_up-served_example =
    start_up-served sample_environment file config echo (codes "/e/") root_config get_req echo_head
      [] (codes "junk") dispatcher connected (async_accept 1 ∷ []) [] 0 echo_request_handler
      (count_request first_statics) (handle_echo (request_of get_req echo_head []))
      ((tt, ((tt, tt), tt)), tt) (unfold items scan in refl) port_low port_high e-Located
      (unfold handler_key in refl) (omega arith) (refl, refl) (unfold init in refl)
      connected-IsServedBy echo_head-IsWellFormed refl refl text-Arrives
      (unfold handle_request in refl)

abbrev content : Text
content = take (length text - 2) text

echo-served_example :
    (reply : Reply) × (io' : IoService) × Reachable (callees_of sample_environment dispatcher) io'
    × (io'.closed ≡ (0, to_buffers reply) ∷ connected.closed)
    × (reply.body_ ≡ content)
    × HasContentLength reply
unfolding strip_slashes
echo-served_example =
    echo-served sample_environment config (codes "/e/") root_config get_req echo_head []
      (codes "junk") content dispatcher connected (async_accept 1 ∷ []) [] 0 e-Located (omega arith)
      (refl, refl) connected-IsServedBy echo_head-IsWellFormed refl refl text-Arrives refl
