-- ===== src/Dispatcher/Routing.antt =====
-- A location of the configuration is dispatched to its handler.
use cs.Prelude.{
  ℕ, zero, suc, ◌≤◌, ◌<◌, ◌≡◌, refl, ap, ◌∙◌, sym, arith, true, false, inl, inr, List, [], ◌∷◌,
  Option, Bool-cases, ◌⊎◌, none, some, Text, codes, text_eq, text_eq_iff, text_lt, length, take-all,
  take,
}
use cs.OrderedMap
use cs.OrderedMap.{OrderedMap}
use cs.OrderedMap.Order.{IsSorted, Behind, insert-IsSorted, text_lt_ne}
use cs.Boost.{Boost}
use cs.Strings.{strip_loop, strip_slashes}
use cs.Strings.Slashes.{IsStripped, strip_slashes_lem}
use cs.Config.Syntax.{NginxConfig, NginxConfigStatement, statement, block}
use cs.Handler.{RequestHandler}
use cs.Dispatcher.{
  RequestHandlerDispatcher, HandlerType, bad, missing, handler_type, handler_key, init, quoted,
  unquote, add_handler, create_at, create_handler, create_new, add_location, add_locations,
  construct, dispatch,
}
use cs.Dispatcher.Dispatch.{Entry, here, there, Fits, dispatch_lem}
use cs.Dispatcher.Creation.{Keys, construct-HasStrippedKeys}
use cs.Dispatcher.Keeping.{IsKept, construct-Keeps, add_locations-Leaves}

strip_loop-IsStripped-same : (fuel : ℕ) (s : Text) → IsStripped s → strip_loop fuel s ≡ s
unfolding strip_loop
strip_loop-IsStripped-same zero s h = refl
strip_loop-IsStripped-same (suc fuel) s h = rw h refl

strip_slashes-same : (s : Text) → IsStripped s → strip_slashes s ≡ s
unfolding strip_slashes
strip_slashes-same s h = strip_loop-IsStripped-same (length s) s h

lookup-some :
    (k : Text) (h : Option RequestHandler) (m : OrderedMap (Option RequestHandler))
    → OrderedMap.lookup k m ≡ some h
    → Entry k h m
unfolding OrderedMap.lookup
lookup-some k h [] e = absurd cc
lookup-some k h ((j, g) ∷ m) e = elim (Bool-cases (text_eq j k)) [
  | inl same ↦
      let key : j ≡ k = (text_eq_iff j k).0 same in
      let found : some g ≡ some h = rw same at e in
      let value : g ≡ h = cc in rw (key, value) (here m)
  | inr other ↦ there (j, g) (lookup-some k h m (rw other at e))
]

Behind-Entry :
    (j k : Text) (h : Option RequestHandler) {m : OrderedMap (Option RequestHandler)}
    → Behind j m
    → Entry k h m
    → text_lt j k ≡ true
Behind-Entry j k h b (here m) = b.0
Behind-Entry j k h b (there e i) = Behind-Entry j k h b.1 i

lookup-Entry :
    (k : Text) (h : Option RequestHandler) {m : OrderedMap (Option RequestHandler)}
    → IsSorted m
    → Entry k h m
    → OrderedMap.lookup k m ≡ some h
unfolding OrderedMap.lookup
lookup-Entry k h s (here m) =
    let same : text_eq k k ≡ true = (text_eq_iff k k).1 refl in rw same refl
lookup-Entry k h s (there (j, g) {m} i) =
    let other : text_eq j k ≡ false = text_lt_ne j k (Behind-Entry j k h s.0 i) in
    rw other (lookup-Entry k h s.1 i)

Fits-self : (p : Text) → 0 < length p → Fits p p
Fits-self p h =
    ((text_eq_iff p (take (length p) p)).1 (sym (take-all (length p) p (omega arith))), h)

-- A prefix that is not shorter is the whole.
Fits-same : (p k : Text) → Fits p k → length p ≤ length k → k ≡ p
Fits-same p k f h = (text_eq_iff k (take (length k) p)).0 f.0 ∙ take-all (length k) p h

-- A path that is registered is dispatched to its own handler.
dispatch-lookup :
    (d : RequestHandlerDispatcher) (p : Text) (h : Option RequestHandler)
    → IsSorted d.handlers_
    → IsStripped p
    → 0 < length p
    → OrderedMap.lookup p d.handlers_ ≡ some h
    → dispatch d p ≡ h
dispatch-lookup d p h s t long found =
    let entry = lookup-some p h d.handlers_ found in
    elim (rw (strip_slashes-same p t) at (dispatch_lem d p)) [
      | inl best ↦
          let whole : best.path ≡ p =
            Fits-same p best.path best.fits (best.longest_lem p h entry (Fits-self p long)) in
          let chosen : OrderedMap.lookup p d.handlers_ ≡ some (dispatch d p) =
            rw whole at (lookup-Entry best.path (dispatch d p) s best.entry) in
          cc
      | inr none_fits ↦ absurd (none_fits.0 p h entry (Fits-self p long))
    ]

abbrev pub SortedKeys : RequestHandlerDispatcher → Type 0
SortedKeys d = IsSorted d.handlers_

abbrev Registered : Text → Option RequestHandler → RequestHandlerDispatcher → Type 0
Registered p h d = OrderedMap.lookup p d.handlers_ ≡ some h

pub add_handler-SortedKeys : (boost : Boost) → IsKept boost SortedKeys
unfolding add_handler
add_handler-SortedKeys boost type config path d t e h = insert-IsSorted _ _ d.handlers_ h

Keys-Entry :
    (P : Text → Type 0) (k : Text) (h : Option RequestHandler)
    {m : OrderedMap (Option RequestHandler)}
    → Keys P m
    → Entry k h m
    → P k
Keys-Entry P k h ks (here m) = ks.0
Keys-Entry P k h ks (there e i) = Keys-Entry P k h ks.1 i

-- The empty path fits nothing.
dispatch-nil : (d : RequestHandlerDispatcher) → dispatch d [] ≡ none
unfolding strip_slashes
dispatch-nil d = elim (dispatch_lem d []) [
  | inl best ↦
      let long : 0 < length best.path = best.fits.1 in
      let short : best.path ≡ [] = Fits-same [] best.path best.fits (omega arith) in
      absurd (omega (arith, ap length short))
  | inr none_fits ↦ none_fits.1
]

-- Every path that the constructor registers is dispatched to the handler that is registered for it, but
-- the empty one, which is dispatched to none.
pub construct-dispatch :
    (boost : Boost) (config : NginxConfig) (p : Text) (h : Option RequestHandler)
    {d : RequestHandlerDispatcher}
    → construct boost config ≡ some d
    → OrderedMap.lookup p d.handlers_ ≡ some h
    → ((0 < length p) × (dispatch d p ≡ h)) ⊎ ((p ≡ []) × (dispatch d p ≡ none))
construct-dispatch boost config [] h {d} e found = inr (refl, dispatch-nil d)
construct-dispatch boost config (c ∷ p) h {d} e found =
    let long : 0 < length (c ∷ p) = omega arith in
    inl (
      long,
      dispatch-lookup d (c ∷ p) h
          (construct-Keeps boost SortedKeys (add_handler-SortedKeys boost) config tt e)
          (Keys-Entry IsStripped (c ∷ p) h (construct-HasStrippedKeys boost config e)
            (lookup-some (c ∷ p) h d.handlers_ found))
          long found,
    )

-- A path that only its own location writes.
abbrev pub IsOwn : Text → Type 0
IsOwn p = (text_eq (codes "/") p ≡ false) × (text_eq (codes "/badrequest") p ≡ false)

handler_key-other :
    (type : HandlerType) (path p : Text)
    → IsOwn p
    → text_eq path p ≡ false
    → text_eq (handler_key type path) p ≡ false
unfolding handler_key
handler_key-other missing path p o n = o.0
handler_key-other bad path p o n = o.1
handler_key-other _ path p o n = n

add_handler-Registered :
    (boost : Boost) (p : Text) (h : Option RequestHandler) → IsOwn p → IsKept boost (Registered p h)
unfolding add_handler
add_handler-Registered boost p h o type config path d t e found =
    elim (Bool-cases (text_eq path p)) [
      | inl same ↦
          let path_is : path ≡ p = (text_eq_iff path p).0 same in
          let missing_one : OrderedMap.lookup p d.handlers_ ≡ none = rw path_is at e in absurd cc
      | inr other ↦
          OrderedMap.lookup-insert (handler_key type path) p _ d.handlers_
          ∙ rw (handler_key-other type path p o other) found
    ]

add_location-Registered :
    (boost : Boost) (second third p' : Text) (more : List Text) (c : NginxConfig)
    (d : RequestHandlerDispatcher) (type : HandlerType)
    → handler_type third ≡ some type
    → unquote second ≡ quoted p'
    → OrderedMap.lookup (strip_slashes p') d.handlers_ ≡ none
    → add_location boost (statement (codes "location" ∷ second ∷ third ∷ more) (block c)) d
      ≡ some (add_handler boost type c (strip_slashes p') d)
unfolding add_location create_handler create_at create_new
add_location-Registered boost second third p' more c d type a b n = rw (a, b, n) refl

add_handler-lookup :
    (boost : Boost) (type : HandlerType) (c : NginxConfig) (p : Text) (d : RequestHandlerDispatcher)
    → handler_key type p ≡ p
    → OrderedMap.lookup p (add_handler boost type c p d).handlers_ ≡ some (init boost type c p)
unfolding add_handler
add_handler-lookup boost type c p d own =
    let same : text_eq (handler_key type p) p ≡ true = (text_eq_iff (handler_key type p) p).1 own in
    OrderedMap.lookup-insert (handler_key type p) p (init boost type c p) d.handlers_ ∙ rw same refl

-- The first location of a path, at any place in a `server` block, is the one that the path is
-- dispatched to when the block has been read, whatever locations stand behind it: `dispatch` returns
-- what `Init` of the class that it names makes of its block. The path is taken without its quotes and
-- its trailing slashes, is neither empty nor `/` nor `/badrequest`, and the class is not one of the two
-- that are registered under a path of their own.
pub add_locations-dispatch :
    (boost : Boost) (second third p' : Text) (more : List Text) (c : NginxConfig)
    (ss : List NginxConfigStatement) (type : HandlerType) (d : RequestHandlerDispatcher)
    {d' : RequestHandlerDispatcher}
    → handler_type third ≡ some type
    → handler_key type (strip_slashes p') ≡ strip_slashes p'
    → unquote second ≡ quoted p'
    → 0 < length (strip_slashes p')
    → IsOwn (strip_slashes p')
    → IsSorted d.handlers_
    → OrderedMap.lookup (strip_slashes p') d.handlers_ ≡ none
    → add_locations boost (statement (codes "location" ∷ second ∷ third ∷ more) (block c) ∷ ss) d
      ≡ some d'
    → dispatch d' (strip_slashes p') ≡ init boost type c (strip_slashes p')
unfolding add_locations
add_locations-dispatch boost second third p' more c ss type d {d'} a key b long own sorted n e =
    let p = strip_slashes p' in
    let t = (strip_slashes_lem p').0 in
    let first = add_handler boost type c p d in
    let rest : add_locations boost ss first ≡ some d' =
      rw (add_location-Registered boost second third p' more c d type a b n) at e in
    let sorted_first : SortedKeys first = add_handler-SortedKeys boost type c p d t n sorted in
    let found_first : Registered p (init boost type c p) first =
      add_handler-lookup boost type c p d key in
    dispatch-lookup d' p (init boost type c p)
      (rw rest at (
        add_locations-Leaves boost SortedKeys (add_handler-SortedKeys boost) ss first sorted_first))
      t long
      (rw rest at (
        add_locations-Leaves boost (Registered p (init boost type c p))
          (add_handler-Registered boost p (init boost type c p) own) ss first found_first))
