-- ===== src/Dispatcher/Locating.antt =====
-- A location at its place in a configuration.
use cs.Prelude.{
  ◌<◌, ◌≡◌, ◌∙◌, sym, ap, List, [], ◌∷◌, ◌++◌, none, some, inl, inr, Option-cases, Text, codes,
  length,
}
use cs.OrderedMap
use cs.Boost.{Boost}
use cs.Strings.{strip_slashes}
use cs.Config.Syntax.{NginxConfig, NginxConfigStatement, statement, statements, block}
use cs.Dispatcher.{
  RequestHandlerDispatcher, HandlerType, handler_type, handler_key, init, quoted, unquote,
  add_location, add_locations, add_server, add_servers, construct, dispatch, empty, ◌>>=◌,
}
use cs.Dispatcher.Keeping.{add_locations-Leaves}
use cs.Dispatcher.Routing.{IsOwn, SortedKeys, add_handler-SortedKeys, add_locations-dispatch}

-- The configuration has one `server` block and no more, and in it a location of the class `type`,
-- with the path `written` between quotes and the block `child`, in front of which no location makes a
-- handler for the path without its trailing slashes.
pub record Located (boost : Boost) (config : NginxConfig) (type : HandlerType) (written : Text)
    (child : NginxConfig) : Type 0 where
  pub server : NginxConfig
  pub front : List NginxConfigStatement
  pub back : List NginxConfigStatement
  pub second : Text
  pub third : Text
  pub more : List Text
  pub before : RequestHandlerDispatcher
  pub in_config : statements config ≡ statement (codes "server" ∷ []) (block server) ∷ []
  pub in_server :
      statements server
      ≡ front ++ (statement (codes "location" ∷ second ∷ third ∷ more) (block child) ∷ back)
  pub has_type : handler_type third ≡ some type
  pub has_path : unquote second ≡ quoted written
  pub read_before : add_locations boost front empty ≡ some before
  pub is_first : OrderedMap.lookup (strip_slashes written) before.handlers_ ≡ none

add_locations-append :
    (boost : Boost) (front back : List NginxConfigStatement) (d : RequestHandlerDispatcher)
    {before : RequestHandlerDispatcher}
    → add_locations boost front d ≡ some before
    → add_locations boost (front ++ back) d ≡ add_locations boost back before
unfolding add_locations
add_locations-append boost [] back d e = ap (λ o. o >>= add_locations boost back) e
add_locations-append boost (s ∷ front) back d e = elim (Option-cases (add_location boost s d)) [
  | inl n ↦ absurd cc
  | inr (d', n) ↦ rw n (add_locations-append boost front back d' (rw n at e))
]

construct-server :
    (boost : Boost) (config server : NginxConfig) {d : RequestHandlerDispatcher}
    → statements config ≡ statement (codes "server" ∷ []) (block server) ∷ []
    → construct boost config ≡ some d
    → add_locations boost (statements server) empty ≡ some d
unfolding construct add_servers add_server
construct-server boost config server e h =
    elim (Option-cases (add_locations boost (statements server) empty)) [
      | inl n ↦ absurd (none-ne-some (rw (e, n) at h))
      | inr (d', n) ↦ n ∙ (rw (e, n) at h)
    ]
  where
    none-ne-some : {d : RequestHandlerDispatcher} → ¬ (none ≡ some d)
    none-ne-some k = cc

-- What `Init` of the class makes of the location's block is what its path is dispatched to.
pub construct-Located :
    (boost : Boost) (config : NginxConfig) (type : HandlerType) (written : Text)
    (child : NginxConfig) {d : RequestHandlerDispatcher}
    → Located boost config type written child
    → handler_key type (strip_slashes written) ≡ strip_slashes written
    → 0 < length (strip_slashes written)
    → IsOwn (strip_slashes written)
    → construct boost config ≡ some d
    → dispatch d (strip_slashes written) ≡ init boost type child (strip_slashes written)
construct-Located boost config type written child {d} l key long own e =
    let sorted : SortedKeys l.before =
      rw l.read_before at
        (add_locations-Leaves boost SortedKeys (add_handler-SortedKeys boost) l.front empty tt) in
    let whole : add_locations boost (statements l.server) empty ≡ some d =
      construct-server boost config l.server l.in_config e in
    let behind =
      sym (add_locations-append boost l.front _ empty l.read_before)
      ∙ sym (ap (λ ss. add_locations boost ss empty) l.in_server)
      ∙ whole in
    add_locations-dispatch boost l.second l.third written l.more child l.back type l.before
      l.has_type key l.has_path long own sorted l.is_first behind
