-- ===== src/Tests/Routing.antt =====
-- The dispatcher, on a configuration with two locations of one path.
use cs.Prelude.{◌≡◌, ◌<◌, ◌⊎◌, refl, arith, [], ◌∷◌, none, some, codes, length}
use cs.OrderedMap
use cs.Config.Syntax.{NginxConfigStatement, statement, nil, block}
use cs.Strings.{strip_slashes}
use cs.Handler.{echo_request_handler}
use cs.Dispatcher.{
  echo, handler_type, handler_key, unquote, add_locations, construct, dispatch, empty, init,
}
use cs.Dispatcher.Routing.{construct-dispatch, add_locations-dispatch}
use cs.Tests.Sample.{sample_boost}
use cs.Tests.Serving.{echo_config, echo_dispatcher}

construct-dispatch_example :
    ((0 < length (codes "/echo"))
      × (dispatch echo_dispatcher (codes "/echo") ≡ some echo_request_handler))
    ⊎ ((codes "/echo" ≡ []) × (dispatch echo_dispatcher (codes "/echo") ≡ none))
construct-dispatch_example =
    construct-dispatch sample_boost echo_config (codes "/echo") (some echo_request_handler)
      {d = echo_dispatcher} (unfold construct OrderedMap.insert in refl)
      (unfold OrderedMap.lookup in refl)

abbrev second_location : NginxConfigStatement
second_location =
    statement (codes "location" ∷ codes "\"/echo\"" ∷ codes "HealthHandler" ∷ []) (block nil)

add_locations-dispatch_example :
    dispatch echo_dispatcher (codes "/echo") ≡ some echo_request_handler
unfolding strip_slashes init
add_locations-dispatch_example =
    add_locations-dispatch sample_boost (codes "\"/echo/\"") (codes "EchoHandler") (codes "/echo/")
      [] nil (second_location ∷ []) echo empty {d' = echo_dispatcher} (unfold handler_type in refl)
      (unfold handler_key in refl) (unfold unquote in refl) (omega arith) (refl, refl) tt
      (unfold OrderedMap.lookup in refl) (unfold add_locations OrderedMap.insert in refl)
