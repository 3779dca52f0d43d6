-- ===== src/Dispatcher/Keeping.antt =====
-- What adding a handler keeps, the constructor keeps.
use cs.Prelude.{
  inl, inr, if_ind, ◌≡◌, List, [], ◌∷◌, Option, Option-cases, none, some, Text, codes, text_eq,
}
use cs.OrderedMap
use cs.Boost.{Boost}
use cs.Strings.{strip_slashes}
use cs.Strings.Slashes.{IsStripped, strip_slashes_lem}
use cs.Config.Syntax.{
  NginxConfig, NginxConfigStatement, statement, statements, ChildBlock, null, block,
}
use cs.Dispatcher.{
  RequestHandlerDispatcher, HandlerType, handler_type, Unquoted, unquoted, undefined, quoted,
  unquote, add_handler, create_at, create_handler, create_new, create_quoted, create_typed,
  add_location, add_locations, add_server, add_servers, construct, empty, ◌>>=◌,
}

-- What a step of the constructor leaves, where it is defined.
abbrev pub Leaves : (RequestHandlerDispatcher → Type 0) → Option RequestHandlerDispatcher → Type 0
Leaves P none = Unit
Leaves P (some d) = P d

bind-Leaves :
    (P : RequestHandlerDispatcher → Type 0) (o : Option RequestHandlerDispatcher)
    (f : RequestHandlerDispatcher → Option RequestHandlerDispatcher)
    → Leaves P o
    → ((d : RequestHandlerDispatcher) → P d → Leaves P (f d))
    → Leaves P (o >>= f)
bind-Leaves P none f h k = tt
bind-Leaves P (some d) f h k = k d h

-- Adding a handler for a stripped path that has none keeps `P`.
abbrev pub IsKept : Boost → (RequestHandlerDispatcher → Type 0) → Type 0
IsKept boost P =
    (type : HandlerType) (config : NginxConfig) (path : Text) (d : RequestHandlerDispatcher)
    → IsStripped path
    → OrderedMap.lookup path d.handlers_ ≡ none
    → P d
    → P (add_handler boost type config path d)

module _ (boost : Boost) (P : RequestHandlerDispatcher → Type 0) (kept : IsKept boost P) where
  create_new-Leaves :
      (type : HandlerType) (b : ChildBlock) (path : Text) (d : RequestHandlerDispatcher)
      → IsStripped path
      → OrderedMap.lookup path d.handlers_ ≡ none
      → P d
      → Leaves P (create_new boost type b path d)
  unfolding create_new
  create_new-Leaves type null path d p e h = tt
  create_new-Leaves type (block c) path d p e h = kept type c path d p e h

  create_at-Leaves :
      (type : HandlerType) (b : ChildBlock) (path : Text) (d : RequestHandlerDispatcher)
      → IsStripped path
      → P d
      → Leaves P (create_at boost type b path d)
  unfolding create_at
  create_at-Leaves type b path d p h = elim (Option-cases (OrderedMap.lookup path d.handlers_)) [
    | inl e ↦ rw e (create_new-Leaves type b path d p e h)
    | inr (g, e) ↦ rw e h
  ]

  create_quoted-Leaves :
      (type : HandlerType) (b : ChildBlock) (u : Unquoted) (d : RequestHandlerDispatcher)
      → P d
      → Leaves P (create_quoted boost type b u d)
  create_quoted-Leaves type b unquoted d h = h
  create_quoted-Leaves type b undefined d h = tt
  create_quoted-Leaves type b (quoted p) d h =
      create_at-Leaves type b (strip_slashes p) d (strip_slashes_lem p).0 h

  create_typed-Leaves :
      (t : Option HandlerType) (first second : Text) (b : ChildBlock) (d : RequestHandlerDispatcher)
      → P d
      → Leaves P (create_typed boost t first second b d)
  unfolding create_handler
  create_typed-Leaves none first second b d h = h
  create_typed-Leaves (some type) first second b d h =
      if_ind (Leaves P) (text_eq first (codes "location"))
        (create_quoted-Leaves type b (unquote second) d h) h

  pub add_locations-Leaves :
      (ss : List NginxConfigStatement) (d : RequestHandlerDispatcher)
      → P d
      → Leaves P (add_locations boost ss d)
  unfolding add_locations
  add_locations-Leaves [] d h = h
  add_locations-Leaves (s ∷ ss) d h =
      bind-Leaves P (add_location boost s d) (add_locations boost ss) (one s)
        (λ d' h'. add_locations-Leaves ss d' h')
    where
      one : (s : NginxConfigStatement) → Leaves P (add_location boost s d)
      one (statement [] b) = h
      one (statement (t ∷ []) b) = h
      one (statement (t ∷ u ∷ []) b) = h
      one (statement (t ∷ u ∷ v ∷ ts) b) = create_typed-Leaves (handler_type v) t u b d h

  add_servers-Leaves :
      (ss : List NginxConfigStatement) (d : RequestHandlerDispatcher)
      → P d
      → Leaves P (add_servers boost ss d)
  unfolding add_servers
  add_servers-Leaves [] d h = h
  add_servers-Leaves (s ∷ ss) d h =
      bind-Leaves P (add_server boost s d) (add_servers boost ss) (one s)
        (λ d' h'. add_servers-Leaves ss d' h')
    where
      one : (s : NginxConfigStatement) → Leaves P (add_server boost s d)
      one (statement [] b) = tt
      one (statement (t ∷ []) null) = if_ind (Leaves P) (text_eq t (codes "server")) tt h
      one (statement (t ∷ []) (block c)) =
          if_ind (Leaves P) (text_eq t (codes "server")) (add_locations-Leaves (statements c) d h) h
      one (statement (t ∷ u ∷ ts) b) = h

  -- What holds of the empty dispatcher holds of the one that is built.
  pub construct-Keeps :
      (config : NginxConfig) {d : RequestHandlerDispatcher}
      → P empty
      → construct boost config ≡ some d
      → P d
  unfolding construct
  construct-Keeps config h e = rw e at (add_servers-Leaves (statements config) empty h)
