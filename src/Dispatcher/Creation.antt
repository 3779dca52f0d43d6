-- ===== src/Dispatcher/Creation.antt =====
-- The handlers that the constructor registers.
use cs.Prelude.{inl, inr, ◌≡◌, refl, [], ◌∷◌, some, Bool-cases, Text, text_eq, text_lt}
use cs.OrderedMap
use cs.OrderedMap.{OrderedMap}
use cs.Boost.{Boost}
use cs.Strings.{back_is}
use cs.Strings.Slashes.{IsStripped}
use cs.Config.Syntax.{NginxConfig}
use cs.Dispatcher.{
  RequestHandlerDispatcher, add_handler, HandlerType, bad, missing, handler_key, construct,
}
use cs.Dispatcher.Keeping.{IsKept, construct-Keeps}

-- Each key of the map satisfies `P`.
abbrev pub Keys {ℓ} : {V : Type ℓ} → (Text → Type 0) → OrderedMap V → Type 0
Keys P [] = Unit
Keys P ((k, v) ∷ m) = P k × Keys P m

insert-Keys {ℓ} :
    {V : Type ℓ} (P : Text → Type 0) (k : Text) (v : V) (m : OrderedMap V)
    → P k
    → Keys P m
    → Keys P (OrderedMap.insert k v m)
unfolding OrderedMap.insert
insert-Keys P k v [] p h = (p, tt)
insert-Keys P k v ((j, w) ∷ m) p (q, h) = elim (Bool-cases (text_eq j k)) [
  | inl same ↦ rw same (p, h)
  | inr other ↦ elim (Bool-cases (text_lt k j)) [
    | inl before ↦ rw (other, before) (p, (q, h))
    | inr behind ↦ rw (other, behind) (q, insert-Keys P k v m p h)
  ]
]

abbrev pub HasStrippedKeys : RequestHandlerDispatcher → Type 0
HasStrippedKeys d = Keys IsStripped d.handlers_

handler_key-IsStripped :
    (type : HandlerType) (path : Text) → IsStripped path → IsStripped (handler_key type path)
unfolding handler_key back_is
handler_key-IsStripped missing path h = refl
handler_key-IsStripped bad path h = refl
handler_key-IsStripped _ path h = h

add_handler-HasStrippedKeys : (boost : Boost) → IsKept boost HasStrippedKeys
unfolding add_handler
add_handler-HasStrippedKeys boost type config path d p e h =
    insert-Keys IsStripped _ _ d.handlers_ (handler_key-IsStripped type path p) h

-- Every path that the constructor registers is at most one byte long or does not end with a slash.
pub construct-HasStrippedKeys :
    (boost : Boost) (config : NginxConfig) {d : RequestHandlerDispatcher}
    → construct boost config ≡ some d
    → HasStrippedKeys d
construct-HasStrippedKeys boost config e =
    construct-Keeps boost HasStrippedKeys (add_handler-HasStrippedKeys boost) config tt e
