-- ===== src/Server/Service.antt =====
-- From the text of a configuration file to the bytes that a client gets.
use cs.Prelude.{
  ℕ, ◌+◌, ◌≡◌, ◌≤◌, ◌<◌, refl, ◌∙◌, ap, true, some, List, [], ◌∷◌, ◌++◌, Text, length, drop, codes,
  arith, subst,
}
use cs.Prelude.Int.{pos, leb_ℤ}
use cs.Decimal.{decimal}
use cs.Strings.{strip_slashes}
use cs.Config.Syntax.{NginxConfig}
use cs.Config.Parser.Grammar.{IsNamed, items, config_items}
use cs.Config.Parser.Completeness.{parse_iff}
use cs.Config.Query.{port_of, read_config, start_up, serve}
use cs.Http.Request.{MethodType, Request}
use cs.Http.RequestParser.RoundTrip.{
  RequestHead, render, IsWellFormed, HasNoNul, method_name, parsed_request, store_all,
}
use cs.Http.Reply.{Reply, to_buffers}
use cs.Http.Reply.Laws.{HasContentLength}
use cs.Dispatcher.{
  RequestHandlerDispatcher, HandlerType, echo, handler_key, init, construct, dispatch,
}
use cs.Dispatcher.Routing.{IsOwn}
use cs.Dispatcher.Locating.{Located, construct-Located}
use cs.Handler.{RequestHandler, echo_request_handler}
use cs.Handler.Fixed.{handle_echo}
use cs.Handler.Fixed.Laws.{handle_echo_lem}
use cs.Handler.Status.{Statics, count_request}
use cs.Handler.Virtual.{Environment, replied, handle_request}
use cs.Session.{Session, Server, max_length, ends_with_crlf}
use cs.Session.Serving.{recorded}
use cs.Server.{Operation, async_read, IoService}
use cs.Server.Steps.{Reachable}
use cs.Server.Invariant.{waiting-IsFresh}
use cs.Server.Taking.{IsUnread}
use cs.Server.Serving.{IsDone, complete_read-served}

-- What the sessions call, with the dispatcher that has been made.
abbrev pub callees_of : Environment → RequestHandlerDispatcher → Server
callees_of env d = record {
  boost = env.libraries.boost;
  dispatcher_ = d;
  handle_request = handle_request env;
}

-- The request that a text comes to in a session that has read nothing.
abbrev pub request_of : MethodType → RequestHead → Text → Request
request_of m r body = record {
  method_ = m;
  uri_ = r.uri;
  headers_ = store_all r.headers [];
  body_ = render r body;
  http_version_major = decimal 0 (r.major ∷ r.majors);
  http_version_minor = decimal 0 (r.minor ∷ r.minors);
}

parsed_request-IsUnread :
    (m : MethodType) (r : RequestHead) (body : Text) (s : Session)
    → IsUnread s
    → parsed_request m r body s.request_ ≡ request_of m r body
parsed_request-IsUnread m r body s (p, u, h) =
    ap
      (λ v. record (request_of m r body) {
        uri_ = v ++ r.uri;
        headers_ = store_all r.headers s.request_.headers_;
      })
      u
    ∙ ap (λ n. record (request_of m r body) { headers_ = store_all r.headers n }) h

-- A configuration file that is read in full, with a port that fits.
start_up-accepted :
    (file : Text) (config : NginxConfig)
    → IsNamed config
    → items (length file + 1) file ≡ some (config_items config)
    → leb_ℤ (pos 0) (port_of config) ≡ true
    → leb_ℤ (port_of config) (pos 65535) ≡ true
    → start_up 2 (some file) ≡ some (serve config (port_of config))
unfolding start_up read_config
start_up-accepted file config w e low high =
    rw ((parse_iff file config).1 (w, e)) (rw (low, high) refl)

-- The dispatcher that the configuration comes to, and a run of the server that has it.
pub record IsServedBy (env : Environment) (config : NginxConfig) (d : RequestHandlerDispatcher)
    (io : IoService) : Type 0 where
  pub built : construct env.libraries.boost config ≡ some d
  pub run : Reachable (callees_of env d) io

-- A text that arrives in the memory of a session `i` that waits for it between `front` and `back`.
pub record Arrives (text junk : Text) (front back : List Operation) (i : ℕ) (io : IoService)
    : Type 0 where
  pub waits : io.pending ≡ front ++ (async_read i ∷ back)
  pub ended : drop (length text) (io.sessions i).data_ ≡ 0 ∷ junk
  pub fits : length text ≤ max_length
  pub has_no_nul : HasNoNul text
  pub has_crlf : ends_with_crlf text ≡ true

module _ (env : Environment) (config : NginxConfig) (type : HandlerType) (written : Text)
    (child : NginxConfig) where
  -- The location's handler serves its path.
  location-served :
      (m : MethodType) (r : RequestHead) (body junk : Text) (d : RequestHandlerDispatcher)
      (io : IoService) (front back : List Operation) (i : ℕ) (h : RequestHandler) (after : Statics)
      (reply : Reply)
      → Located env.libraries.boost config type written child
      → handler_key type (strip_slashes written) ≡ strip_slashes written
      → 0 < length (strip_slashes written)
      → IsOwn (strip_slashes written)
      → init env.libraries.boost type child (strip_slashes written) ≡ some h
      → IsServedBy env config d io
      → IsWellFormed r
      → r.first ∷ r.others ≡ method_name m
      → r.uri ≡ strip_slashes written
      → Arrives (render r body) junk front back i io
      → handle_request env h (request_of m r body) (count_request io.statics) ≡ replied reply after
      → (io' : IoService) × Reachable (callees_of env d) io'
        × IsDone i reply io (front ++ back) (recorded r.uri reply after) io'
  location-served m r body junk d io front back i h after reply l key long own made s well n uri a
        answer =
      let same : parsed_request m r body (io.sessions i).request_ ≡ request_of m r body =
        parsed_request-IsUnread m r body (io.sessions i)
          (waiting-IsFresh front back i s.run a.waits) in
      let found : dispatch d r.uri ≡ some h =
        ap (dispatch d) uri
        ∙ construct-Located env.libraries.boost config type written child l key long own s.built
        ∙ made in
      let (io', reached, done) =
        complete_read-served m r body junk (callees_of env d) io front back i h after reply s.run
          a.waits a.ended a.fits well n a.has_no_nul a.has_crlf
          (ap (λ q. dispatch d q.uri_) same ∙ found)
          (ap (λ q. handle_request env h q (count_request io.statics)) same ∙ answer) in
      (
        io',
        reached,
        subst (λ q. IsDone i reply io (front ++ back) (recorded q.uri_ reply after) io') same done,
      )

-- A file whose tokens are those of a configuration is read by `main`, which starts the server, if the
-- port fits; and in every run of the server, a well-formed request for the path of a location is served
-- by the handler that `Init` of the location's class makes, if that handler replies: the client gets
-- exactly the buffers of the reply, and the socket is shut down. The location is the first of its path
-- in the one `server` block, the path is neither empty nor `/` nor `/badrequest`, and the request ends
-- with "\r\n", holds no NUL, fits into the session's memory and has a NUL behind it there.
pub start_up-served :
    (env : Environment) (file : Text) (config : NginxConfig) (type : HandlerType) (written : Text)
    (child : NginxConfig) (m : MethodType) (r : RequestHead) (body junk : Text)
    (d : RequestHandlerDispatcher) (io : IoService) (front back : List Operation) (i : ℕ)
    (h : RequestHandler) (after : Statics) (reply : Reply)
    → IsNamed config
    → items (length file + 1) file ≡ some (config_items config)
    → leb_ℤ (pos 0) (port_of config) ≡ true
    → leb_ℤ (port_of config) (pos 65535) ≡ true
    → Located env.libraries.boost config type written child
    → handler_key type (strip_slashes written) ≡ strip_slashes written
    → 0 < length (strip_slashes written)
    → IsOwn (strip_slashes written)
    → init env.libraries.boost type child (strip_slashes written) ≡ some h
    → IsServedBy env config d io
    → IsWellFormed r
    → r.first ∷ r.others ≡ method_name m
    → r.uri ≡ strip_slashes written
    → Arrives (render r body) junk front back i io
    → handle_request env h (request_of m r body) (count_request io.statics) ≡ replied reply after
    → (start_up 2 (some file) ≡ some (serve config (port_of config)))
      × (io' : IoService) × Reachable (callees_of env d) io'
      × IsDone i reply io (front ++ back) (recorded r.uri reply after) io'
start_up-served env file config type written child m r body junk d io front back i h after reply w e
      low high l key long own made s well n uri a answer =
    let (io', reached, done) =
      location-served env config type written child m r body junk d io front back i h after reply l
        key long own made s well n uri a answer in
    (start_up-accepted file config w e low high, io', reached, done)

-- In every run of the server, a well-formed request for the path of a location of the echo handler
-- gets exactly the buffers of a reply whose body is the text of the request but for the last end of
-- line, with the length of that, and the run goes on. The location is the first of its path in the one
-- `server` block, the path is neither empty nor `/` nor `/badrequest`, and the request ends with
-- "\r\n", holds no NUL, fits into the session's memory and has a NUL behind it there.
pub echo-served :
    (env : Environment) (config : NginxConfig) (written : Text) (child : NginxConfig)
    (m : MethodType) (r : RequestHead) (body junk content : Text) (d : RequestHandlerDispatcher)
    (io : IoService) (front back : List Operation) (i : ℕ)
    → Located env.libraries.boost config echo written child
    → 0 < length (strip_slashes written)
    → IsOwn (strip_slashes written)
    → IsServedBy env config d io
    → IsWellFormed r
    → r.first ∷ r.others ≡ method_name m
    → r.uri ≡ strip_slashes written
    → Arrives (render r body) junk front back i io
    → render r body ≡ content ++ codes "\r\n"
    → (reply : Reply) × (io' : IoService) × Reachable (callees_of env d) io'
      × (io'.closed ≡ (i, to_buffers reply) ∷ io.closed)
      × (reply.body_ ≡ content)
      × HasContentLength reply
unfolding init handler_key handle_request
echo-served env config written child m r body junk content d io front back i l long own s well n uri
      a whole =
    let reply = handle_echo (request_of m r body) in
    let (io', reached, done) =
      location-served env config echo written child m r body junk d io front back i
        echo_request_handler (count_request io.statics) reply l refl long own refl s well n uri a
        refl in
    let (kept, sized) =
      handle_echo_lem (request_of m r body) content b'\r' b'\n' whole (omega (arith, a.fits)) in
    (reply, io', reached, done.closed, kept, sized)
