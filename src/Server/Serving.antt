-- ===== src/Server/Serving.antt =====
-- A request is served, from the read to the end of the connection.
use cs.Prelude.{
  ℕ, ◌≡◌, ◌≤◌, refl, ◌∙◌, ap, true, false, some, List, [], ◌∷◌, ◌++◌, Text, length, drop,
}
use cs.Prelude.Int.{pos}
use cs.Http.Request.{MethodType}
use cs.Http.RequestParser.{initial}
use cs.Http.RequestParser.RoundTrip.{
  RequestHead, render, IsWellFormed, HasNoNul, method_name, parsed_request,
}
use cs.Http.Reply.{Reply, to_buffers}
use cs.Dispatcher.{dispatch}
use cs.Handler.{RequestHandler}
use cs.Handler.Status.{Statics, count_request}
use cs.Handler.Virtual.{replied}
use cs.Session.{Session, Server, max_length, returned, ends_with_crlf, handle_read}
use cs.Session.Serving.{received, served, recorded, handle_read-served}
use cs.Server.{
  Operation, async_read, async_write, IoService, set_session, running, after_call, receive,
  complete_read, handle_write,
}
use cs.Server.Steps.{Step, read, written, Reachable, stepped}
use cs.Server.Invariant.{waiting-IsFresh}

-- The server when the bytes of the reply are to be written.
abbrev replying : ℕ → Reply → Session → Statics → IoService → IoService
replying i reply s statics io = record io {
  pending = async_write i (to_buffers reply) ∷ io.pending;
  sessions = set_session i s io.sessions;
  statics = statics;
}

receive-received :
    (text junk : Text) (s : Session)
    → s.request_parser_ ≡ initial
    → drop (length text) s.data_ ≡ 0 ∷ junk
    → receive text s ≡ received text junk s.request_
receive-received text junk s p e =
    ap (λ d. record s { data_ = text ++ d }) e
    ∙ ap (λ q. record { data_ = text ++ (0 ∷ junk); request_ = s.request_; request_parser_ = q }) p

complete_read-returned :
    (callees : Server) (i : ℕ) (text junk : Text) (io : IoService) (s : Session) (statics : Statics)
    (reply : Reply)
    → receive text (io.sessions i) ≡ received text junk (io.sessions i).request_
    → handle_read 2 callees false
        (length text)
        (received text junk (io.sessions i).request_)
        io.statics
      ≡ some (returned (pos 0) (some (to_buffers reply)) s statics)
    → complete_read callees i false text io ≡ some (running (replying i reply s statics io))
unfolding complete_read
complete_read-returned callees i text junk io s statics reply e h =
    ap (λ t. after_call i io (handle_read 2 callees false (length text) t io.statics)) e
    ∙ ap (after_call i io) h

-- The server when a reply has been written and the socket shut down.
pub record IsDone (i : ℕ) (reply : Reply) (before : IoService) (rest : List Operation)
    (statics : Statics) (after : IoService) : Type 0 where
  pub closed : after.closed ≡ (i, to_buffers reply) ∷ before.closed
  pending : after.pending ≡ rest
  kept : after.statics ≡ statics

module _ (m : MethodType) (r : RequestHead) (body junk : Text) where
  pub complete_read-served :
      (callees : Server) (io : IoService) (front back : List Operation) (i : ℕ) (h : RequestHandler)
      (after : Statics) (reply : Reply)
      → Reachable callees io
      → io.pending ≡ front ++ (async_read i ∷ back)
      → drop (length (render r body)) (io.sessions i).data_ ≡ 0 ∷ junk
      → length (render r body) ≤ max_length
      → IsWellFormed r
      → r.first ∷ r.others ≡ method_name m
      → HasNoNul (render r body)
      → ends_with_crlf (render r body) ≡ true
      → dispatch callees.dispatcher_ (parsed_request m r body (io.sessions i).request_).uri_
        ≡ some h
      → callees.handle_request h
          (parsed_request m r body (io.sessions i).request_)
          (count_request io.statics)
        ≡ replied reply after
      → (io' : IoService) × Reachable callees io'
        × IsDone i reply io
            (front ++ back)
            (recorded (parsed_request m r body (io.sessions i).request_).uri_ reply after)
            io'
  unfolding handle_write
  complete_read-served callees io front back i h after reply reach e nul fits w name n line found
        answer =
      let taken : IoService = record io { pending = front ++ back } in
      let s = served m r body junk (io.sessions i).request_ in
      let statics = recorded (parsed_request m r body (io.sessions i).request_).uri_ reply after in
      let text = render r body in
      let same : receive text (io.sessions i) ≡ received text junk (io.sessions i).request_ =
        receive-received text junk (io.sessions i) (waiting-IsFresh front back i reach e).0 nul in
      let ends =
        handle_read-served 1 m r body junk (io.sessions i).request_ callees h io.statics after reply
          w name n line found answer in
      let first : Step callees io (replying i reply s statics taken) =
        read front back i false text e fits
          (complete_read-returned callees i text junk taken s statics reply same ends) in
      (
        handle_write i false (to_buffers reply)
            (record (replying i reply s statics taken) { pending = front ++ back }),
        stepped (stepped reach first) (written [] (front ++ back) i false (to_buffers reply) refl),
        record { closed = refl; pending = refl; kept = refl },
      )
