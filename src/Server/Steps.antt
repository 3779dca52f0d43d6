-- ===== src/Server/Steps.antt =====
-- The runs of the server: an operation is completed after another.
use cs.Prelude.{ℕ, ◌≡◌, ◌≤◌, Bool, List, ◌∷◌, ◌++◌, some, Text, length}
use cs.Handler.Status.{Statics}
use cs.Session.{Session, Server, max_length}
use cs.Server.{
  Operation, async_accept, async_read, async_write, Uninitialised, IoService, handle_accept, server,
  running, complete_read, handle_write,
}

-- The pending operation between `front` and `back` is taken out and completed.
pub data Step (callees : Server) : IoService → IoService → Type 0 where
  accepted :
      {io : IoService} (u : Uninitialised) (front back : List Operation) (i : ℕ) (error : Bool)
      → io.pending ≡ front ++ (async_accept i ∷ back)
      → Step callees io (handle_accept u i error (record io { pending = front ++ back }))
  read :
      {io after : IoService} (front back : List Operation) (i : ℕ) (error : Bool) (text : Text)
      → io.pending ≡ front ++ (async_read i ∷ back)
      → length text ≤ max_length
      → complete_read callees i error text (record io { pending = front ++ back })
        ≡ some (running after)
      → Step callees io after
  written :
      {io : IoService} (front back : List Operation) (i : ℕ) (error : Bool) (buffers : List Text)
      → io.pending ≡ front ++ (async_write i buffers ∷ back)
      → Step callees io (handle_write i error buffers (record io { pending = front ++ back }))

-- What the server comes to from its start.
pub data Reachable (callees : Server) : IoService → Type 0 where
  started :
      (u : Uninitialised) (sessions : ℕ → Session) (statics : Statics)
      → Reachable callees (server u sessions statics)
  stepped :
      {io after : IoService}
      → Reachable callees io
      → Step callees io after
      → Reachable callees after
