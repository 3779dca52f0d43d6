-- ===== src/Dispatcher.antt =====
-- `RequestHandlerDispatcher` (include/request_handler/dispatcher.h and
-- src/request_handler/dispatcher.cc).
pub mod Creation
pub mod Dispatch
pub mod Keeping
pub mod Locating
pub mod Routing
use cs.Prelude.{
  ℕ, zero, suc, ◌+◌, Bool, true, false, List, [], ◌∷◌, Option, none, some, ltb, ◌==◌, if◌then◌else◌,
  Text, codes, text_eq, length, take,
}
use cs.OrderedMap
use cs.OrderedMap.{OrderedMap}
use cs.Boost.{Boost}
use cs.Strings.{back_is, pop_back, strip_slashes}
use cs.Config.Syntax.{
  NginxConfig, NginxConfigStatement, statement, statements, ChildBlock, null, block,
}
use cs.Handler.{
  RequestHandler, bad_request_handler, echo_request_handler, health_handler, markdown_handler,
  not_found_request_handler, status_request_handler, init_redirect, init_reverse_proxy, init_static,
}

-- The members that the constructor fills. A null pointer in `handlers_` is `none`. The last two
-- are static, and begin empty and at 0.
pub record RequestHandlerDispatcher : Type 0 where
  pub handlers_ : OrderedMap (Option RequestHandler)
  pub request_handler_uri : OrderedMap Text
  pub num_handlers : ℕ

-- The values of the parameter `HandlerType`.
pub data HandlerType : Type 0 where
  bad echo health markdown missing redirect reverse static status : HandlerType

-- The test of the third token in the constructor.
unfoldable pub handler_type : Text → Option HandlerType
handler_type t =
    if text_eq t (codes "BadRequestHandler")
    then some bad
    else if text_eq t (codes "EchoHandler")
    then some echo
    else if text_eq t (codes "HealthHandler")
    then some health
    else if text_eq t (codes "MarkdownHandler")
    then some markdown
    else if text_eq t (codes "NotFoundHandler")
    then some missing
    else if text_eq t (codes "RedirectHandler")
    then some redirect
    else if text_eq t (codes "ReverseProxyHandler")
    then some reverse
    else if text_eq t (codes "StaticHandler")
    then some static
    else if text_eq t (codes "StatusHandler")
    then some status
    else none

-- `Init` of each class, on the block of the statement.
unfoldable pub init : Boost → HandlerType → NginxConfig → Text → Option RequestHandler
init boost bad config path = some bad_request_handler
init boost echo config path = some echo_request_handler
init boost health config path = some health_handler
init boost markdown config path = some markdown_handler
init boost missing config path = some not_found_request_handler
init boost redirect config path = some (init_redirect boost config path)
init boost reverse config path = init_reverse_proxy config path
init boost static config path = some (init_static config path)
init boost status config path = some status_request_handler

-- The key of `handlers_` that each branch writes.
unfoldable pub handler_key : HandlerType → Text → Text
handler_key missing path = codes "/"
handler_key bad path = codes "/badrequest"
handler_key _ path = path

-- The key of `request_handler_uri` that it writes.
unfoldable pub uri_key : HandlerType → Text → Text
uri_key missing path = codes "/"
uri_key _ path = path

unfoldable pub description : HandlerType → Text
description bad = codes "bad request handler"
description echo = codes "echo handler"
description health = codes "health handler"
description markdown = codes "markdown handler"
description missing = codes "not found handler"
description redirect = codes "redirect handler"
description reverse = codes "reverse proxy request handler"
description static = codes "static handler"
description status = codes "status handler"

-- The ladder of branches at the end of `createHandler`.
unfoldable pub add_handler :
    Boost → HandlerType → NginxConfig → Text → RequestHandlerDispatcher → RequestHandlerDispatcher
unfolding init handler_key uri_key description
add_handler boost type config path d = record {
  handlers_ = OrderedMap.insert (handler_key type path) (init boost type config path) d.handlers_;
  request_handler_uri =
      OrderedMap.insert (uri_key type path) (description type) d.request_handler_uri;
  num_handlers = d.num_handlers + 1;
}

-- The path between the quotes: `undefined` takes the back of an empty text.
pub data Unquoted : Type 0 where
  unquoted undefined : Unquoted
  quoted : Text → Unquoted

unfoldable pub unquote : Text → Unquoted
unfolding back_is pop_back
unquote [] = undefined
unquote (c ∷ []) = if c == b'"' then undefined else unquoted
unquote (c ∷ d ∷ s) =
    if c == b'"'
    then (if back_is b'"' (d ∷ s) then quoted (pop_back (d ∷ s)) else unquoted)
    else unquoted

-- The branches of `createHandler` on the block of the statement. A statement with no block has a
-- null `child_block_`, which they dereference: undefined, `none`.
unfoldable pub create_new :
    Boost
    → HandlerType
    → ChildBlock
    → Text
    → RequestHandlerDispatcher
    → Option RequestHandlerDispatcher
unfolding add_handler
create_new boost type null path d = none
create_new boost type (block config) path d = some (add_handler boost type config path d)

-- `if (handlers_.find(path_uri) != handlers_.end()) { return; }`, on what is found.
abbrev pub unless_found :
    Option (Option RequestHandler)
    → Option RequestHandlerDispatcher
    → RequestHandlerDispatcher
    → Option RequestHandlerDispatcher
unless_found none created d = created
unless_found (some h) created d = some d

-- `createHandler` from that test on.
unfoldable pub create_at :
    Boost
    → HandlerType
    → ChildBlock
    → Text
    → RequestHandlerDispatcher
    → Option RequestHandlerDispatcher
unfolding create_new OrderedMap.lookup
create_at boost type b path d =
    unless_found (OrderedMap.lookup path d.handlers_) (create_new boost type b path d) d

-- The test of the quotes, on what they hold.
abbrev pub create_quoted :
    Boost
    → HandlerType
    → ChildBlock
    → Unquoted
    → RequestHandlerDispatcher
    → Option RequestHandlerDispatcher
create_quoted boost type b unquoted d = some d
create_quoted boost type b undefined d = none
create_quoted boost type b (quoted p) d = create_at boost type b (strip_slashes p) d

-- `RequestHandlerDispatcher::createHandler` on a statement with the tokens `first` and `second`.
unfoldable pub create_handler :
    Boost
    → HandlerType
    → Text
    → Text
    → ChildBlock
    → RequestHandlerDispatcher
    → Option RequestHandlerDispatcher
unfolding create_at unquote strip_slashes
create_handler boost type first second b d =
    if text_eq first (codes "location")
    then create_quoted boost type b (unquote second) d
    else some d

infixl 5 ◌>>=◌
abbrev pub ◌>>=◌ {ℓ κ} : {A : Type ℓ} {B : Type κ} → Option A → (A → Option B) → Option B
none >>= f = none
some a >>= f = f a

-- The ladder in the inner loop of the constructor, on the type that the third token names.
abbrev pub create_typed :
    Boost
    → Option HandlerType
    → Text
    → Text
    → ChildBlock
    → RequestHandlerDispatcher
    → Option RequestHandlerDispatcher
create_typed boost none first second b d = some d
create_typed boost (some type) first second b d = create_handler boost type first second b d

-- The body of that loop.
unfoldable pub add_location :
    Boost → NginxConfigStatement → RequestHandlerDispatcher → Option RequestHandlerDispatcher
unfolding create_handler handler_type
add_location boost (statement (first ∷ second ∷ third ∷ more) b) d =
    create_typed boost (handler_type third) first second b d
add_location boost s d = some d

-- The inner loop.
unfoldable pub add_locations :
    Boost → List NginxConfigStatement → RequestHandlerDispatcher → Option RequestHandlerDispatcher
unfolding add_location
add_locations boost [] d = some d
add_locations boost (s ∷ ss) d = add_location boost s d >>= add_locations boost ss

-- The body of the outer loop: a statement `server` and no more, with its block. A statement with
-- no token, or such a one with no block, is undefined.
unfoldable pub add_server :
    Boost → NginxConfigStatement → RequestHandlerDispatcher → Option RequestHandlerDispatcher
unfolding add_locations
add_server boost (statement [] b) d = none
add_server boost (statement (t ∷ []) null) d = if text_eq t (codes "server") then none else some d
add_server boost (statement (t ∷ []) (block c)) d =
    if text_eq t (codes "server") then add_locations boost (statements c) d else some d
add_server boost (statement (t ∷ u ∷ ts) b) d = some d

-- The outer loop.
unfoldable pub add_servers :
    Boost → List NginxConfigStatement → RequestHandlerDispatcher → Option RequestHandlerDispatcher
unfolding add_server
add_servers boost [] d = some d
add_servers boost (s ∷ ss) d = add_server boost s d >>= add_servers boost ss

abbrev pub empty : RequestHandlerDispatcher
empty = record { handlers_ = []; request_handler_uri = []; num_handlers = 0 }

-- `RequestHandlerDispatcher::RequestHandlerDispatcher`
unfoldable pub construct : Boost → NginxConfig → Option RequestHandlerDispatcher
unfolding add_servers
construct boost config = add_servers boost (statements config) empty

-- `req_handler` and `longest_match` in the loop of `dispatch`.
pub record Match : Type 0 where
  pub req_handler : Option RequestHandler
  pub longest_match : ℕ

-- The body of the loop of `dispatch` over `handlers_`.
unfoldable pub consider : Text → Text → Option RequestHandler → Match → Match
consider uri k h m =
    if text_eq k (take (length k) uri)
    then (if ltb m.longest_match (length k)
        then record { req_handler = h; longest_match = length k }
        else m)
    else m

unfoldable pub longest : Text → OrderedMap (Option RequestHandler) → Match → Match
unfolding consider
longest uri [] m = m
longest uri ((k, h) ∷ rest) m = longest uri rest (consider uri k h m)

-- `RequestHandlerDispatcher::dispatch` on the URI of the request.
unfoldable pub dispatch : RequestHandlerDispatcher → Text → Option RequestHandler
unfolding longest strip_slashes
dispatch d uri =
    (longest (strip_slashes uri) d.handlers_
      (record { req_handler = none; longest_match = 0 })).req_handler
