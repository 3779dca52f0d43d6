-- ===== src/Tests/Running.antt =====
-- A run of the server.
use cs.Prelude.{refl, false, [], ◌∷◌, ◌++◌, Text, codes, length, replicate}
use cs.OrderedMap
use cs.Http.Request.{get_req}
use cs.Http.RequestParser.RoundTrip.{render}
use cs.Handler.Virtual.{handle_request}
use cs.Session.{Server}
use cs.Server.{Uninitialised, IoService, new_session, server, start_accept, handle_accept}
use cs.Server.Steps.{Reachable, started, stepped, accepted}
use cs.Server.Taking.{IsServing}
use cs.Server.Invariant.{Reachable-IsServing}
use cs.Tests.Sample.{sample_boost}
use cs.Tests.Parsing.{echo_head}
use cs.Tests.Serving.{sample_dispatcher}
use cs.Tests.Handling.{sample_environment, first_statics}

abbrev callees : Server
callees = record {
  boost = sample_boost;
  dispatcher_ = sample_dispatcher;
  handle_request = handle_request sample_environment;
}

abbrev sample_text : Text
sample_text = render echo_head []

-- Memory with a NUL where the bytes of the request will end.
abbrev garbage : Uninitialised
garbage = record {
  data_ = replicate (length sample_text) b'x' ++ (0 ∷ codes "junk");
  method_ = get_req;
  http_version_major = 7;
  http_version_minor = 7;
}

abbrev listening : IoService
listening = server garbage (λ n. new_session garbage) first_statics

-- One client is connected.
abbrev connected : IoService
connected = handle_accept garbage 0 false (record listening { pending = [] })

connected-Reachable : Reachable callees connected
connected-Reachable =
    stepped (started garbage (λ n. new_session garbage) first_statics)
      (accepted {io = listening} garbage [] [] 0 false (unfold start_accept in refl))

Reachable-IsServing_example : IsServing 1 connected
Reachable-IsServing_example = Reachable-IsServing connected-Reachable
