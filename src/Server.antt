-- ===== src/Server.antt =====
-- `server` (include/server.h, src/server.cc), and what a session starts and ends: its constructor,
-- `start` and `handle_write` (include/session.h, src/session.cc). Boost.Asio runs the completion of
-- one pending operation after another, in any order.
pub mod Invariant
pub mod Pending
pub mod Service
pub mod Serving
pub mod Steps
pub mod Taking
use cs.Prelude.{
  ℕ, ◌+◌, ◌≡◌, ◌≤◌, Bool, true, false, List, [], ◌∷◌, ◌++◌, Option, none, some, ◌==◌, if◌then◌else◌,
  Text, length, drop,
}
use cs.Http.Request.{MethodType, Request}
use cs.Http.RequestParser.{initial}
use cs.Handler.Status.{Statics}
use cs.Session.{
  Session, Server, max_length, Ending, returned, out_of_range, undefined, handler_threw,
  handler_hangs, handle_read,
}

-- An operation that has been started, for the session of a number. A write has its buffers.
pub data Operation : Type 0 where
  async_accept async_read : ℕ → Operation
  async_write : ℕ → List Text → Operation

-- What the members of a new session that nothing sets hold: any value, and for the method also one that
-- is none of the nine. To read them is undefined in C++; here it gives that value.
pub record Uninitialised : Type 0 where
  pub data_ : Text
  pub method_ : MethodType
  pub http_version_major : ℕ
  pub http_version_minor : ℕ

-- The pending operations and the sessions, numbered as they are made; `next` is the next number.
-- `closed` lists the sessions whose socket has been shut down, with what was written to it.
pub record IoService : Type 0 where
  pub pending : List Operation
  pub sessions : ℕ → Session
  pub next : ℕ
  pub closed : List (ℕ × List Text)
  pub statics : Statics

-- `session::session`
abbrev pub new_session : Uninitialised → Session
new_session u = record {
  data_ = u.data_;
  request_ = record {
    method_ = u.method_;
    uri_ = [];
    headers_ = [];
    body_ = [];
    http_version_major = u.http_version_major;
    http_version_minor = u.http_version_minor;
  };
  request_parser_ = initial;
}

unfoldable pub set_session : ℕ → Session → (ℕ → Session) → ℕ → Session
set_session i s sessions j = if i == j then s else sessions j

-- `server::start_accept`
unfoldable pub start_accept : Uninitialised → IoService → IoService
start_accept u io = record io {
  pending = async_accept io.next ∷ io.pending;
  sessions = set_session io.next (new_session u) io.sessions;
  next = io.next + 1;
}

-- `session::start`
abbrev pub start : ℕ → IoService → IoService
start i io = record io { pending = async_read i ∷ io.pending }

-- `server::handle_accept`
unfoldable pub handle_accept : Uninitialised → ℕ → Bool → IoService → IoService
unfolding start_accept
handle_accept u i error io = start_accept u (if error then io else start i io)

-- `server::server`, on what is there before any session.
abbrev pub server : Uninitialised → (ℕ → Session) → Statics → IoService
server u sessions statics =
    start_accept u
      (record { pending = []; sessions = sessions; next = 0; closed = []; statics = statics })

-- How the completion of an operation ends: the threads go on, or the process does not. An exception
-- leaves `io_service::run` and ends it. A handler that does not return takes its thread with it.
pub data Outcome : Type 0 where
  running : IoService → Outcome
  terminated undefined_behaviour thread_lost : Outcome

abbrev pub write_buffers : ℕ → Option (List Text) → List Operation → List Operation
write_buffers i none pending = pending
write_buffers i (some buffers) pending = async_write i buffers ∷ pending

-- What the end of `handle_read` leaves.
abbrev pub after_read : ℕ → IoService → Ending → Outcome
after_read i io (returned n buffers s statics) = running (record io {
  pending = write_buffers i buffers io.pending;
  sessions = set_session i s io.sessions;
  statics = statics;
})
after_read i io (out_of_range statics) = terminated
after_read i io undefined = undefined_behaviour
after_read i io handler_threw = terminated
after_read i io handler_hangs = thread_lost

-- The bytes that `async_read_some` puts at the beginning of `data_`.
abbrev pub receive : Text → Session → Session
receive text s = record s { data_ = text ++ drop (length text) s.data_ }

abbrev pub after_call : ℕ → IoService → Option Ending → Option Outcome
after_call i io none = none
after_call i io (some e) = some (after_read i io e)

-- The call of `handle_read` for a read that ends with an error or with `text`. Two calls of it are
-- enough; `none` would be that they are not.
unfoldable pub complete_read : Server → ℕ → Bool → Text → IoService → Option Outcome
unfolding handle_read
complete_read callees i error text io =
    after_call i io
      (handle_read 2 callees error (length text) (receive text (io.sessions i)) io.statics)

-- `session::handle_write`, when `buffers` were to be written.
unfoldable pub handle_write : ℕ → Bool → List Text → IoService → IoService
handle_write i error buffers io =
    if error then io else record io { closed = (i, buffers) ∷ io.closed }
