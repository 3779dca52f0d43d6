-- ===== src/Handler.antt =====
-- The request handlers as objects (include/request_handler and src/request_handler): their
-- fields, and the `Init` functions that build them from a configuration.
pub mod Fixed
pub mod Markdown
pub mod ReverseProxy
pub mod Static
pub mod Status
pub mod Virtual
use cs.Prelude.{
  ℕ, Bool, List, [], ◌∷◌, ◌++◌, Option, none, some, ◌==◌, if◌then◌else◌, Text, codes, text_eq,
}
use cs.Prelude.Int.{ℤ, pos}
use cs.Boost.{Boost}
use cs.Decimal.{stoi}
use cs.Strings.{back_is}
use cs.Config.Syntax.{NginxConfig, NginxConfigStatement, statement, statements}

-- The classes that derive from `RequestHandler`, with the fields that a request reads.
pub data RequestHandler : Type 0 where
  bad_request_handler echo_request_handler health_handler markdown_handler : RequestHandler
  not_found_request_handler status_request_handler : RequestHandler
  redirect_handler : (host_ : Text) → RequestHandler
  reverse_proxy_handler : (location_path_ proxy_dest_ : Text) (proxy_port_ : ℤ) → RequestHandler
  static_request_handler : (location_path_ root_ : Text) → RequestHandler

-- `RequestHandler::name`, as each `Init` sets it.
unfoldable pub name : RequestHandler → Text
name bad_request_handler = codes "BadReqHandler"
name echo_request_handler = codes "EchoHandler"
name health_handler = codes "HealthHandler"
name markdown_handler = codes "MarkdownHandler"
name not_found_request_handler = codes "NotFoundHandler"
name status_request_handler = codes "StatusHandler"
name (redirect_handler h) = codes "RedirectHandler"
name (reverse_proxy_handler l d p) = codes "ReverseProxyHandler"
name (static_request_handler l r) = codes "StaticHandler"

-- The value of a statement of two tokens that begins with `key`; `found` otherwise.
unfoldable pub setting : Text → Text → NginxConfigStatement → Text
setting key found (statement (k ∷ v ∷ []) b) = if text_eq k key then v else found
setting key found (statement ts b) = found

-- The loop over `config.statements_` that keeps the last such value.
unfoldable pub last_setting : Text → Text → List NginxConfigStatement → Text
unfolding setting
last_setting key found [] = found
last_setting key found (s ∷ ss) = last_setting key (setting key found s) ss

-- `StaticRequestHandler::Init`
unfoldable pub init_static : NginxConfig → Text → RequestHandler
unfolding last_setting
init_static config location_path =
    let root = last_setting (codes "root") (codes "/") (statements config) in
    static_request_handler location_path (if back_is b'/' root then root else root ++ codes "/")

-- The loop of `RedirectHandler::Init`, which takes the slashes out of each value that it keeps.
unfoldable pub last_host : Boost → Text → List NginxConfigStatement → Text
last_host boost found [] = found
last_host boost found (statement (k ∷ v ∷ []) b ∷ ss) =
    last_host boost (if text_eq k (codes "host") then boost.replace_all v (codes "/") [] else found)
      ss
last_host boost found (s ∷ ss) = last_host boost found ss

-- `RedirectHandler::Init`
unfoldable pub init_redirect : Boost → NginxConfig → Text → RequestHandler
unfolding last_host
init_redirect boost config location_path = redirect_handler (last_host boost [] (statements config))

-- The loop of `ReverseProxyHandler::Init`; `none` is `return nullptr`.
unfoldable pub proxy_settings : Text → ℤ → Text → List NginxConfigStatement → Option RequestHandler
unfolding stoi
proxy_settings location_path port dest [] = some (reverse_proxy_handler location_path dest port)
proxy_settings location_path port dest (statement (k ∷ v ∷ []) b ∷ ss) =
    let with_dest = proxy_settings location_path port v ss in
    let same = proxy_settings location_path port dest ss in
    let with_port : Option RequestHandler = elim (stoi v) [
      | none ↦ none
      | some p ↦ proxy_settings location_path p dest ss
    ] in
    if text_eq k (codes "proxy_port")
    then with_port
    else if text_eq k (codes "proxy_dest")
    then with_dest
    else same
proxy_settings location_path port dest (s ∷ ss) = proxy_settings location_path port dest ss

-- `ReverseProxyHandler::Init`
unfoldable pub init_reverse_proxy : NginxConfig → Text → Option RequestHandler
unfolding proxy_settings
init_reverse_proxy config location_path =
    proxy_settings location_path (pos 0) [] (statements config)
