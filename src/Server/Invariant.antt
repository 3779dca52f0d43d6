-- ===== src/Server/Invariant.antt =====
-- What every step of the server keeps.
use cs.Prelude.{
  ℕ, ◌≡◌, refl, arith, Bool, true, false, inl, inr, Bool-cases, Option, none, some, List, ◌∷◌, ◌++◌,
  ◌==◌, ==_iff, Text, length,
}
use cs.Session.{
  Server, Ending, returned, out_of_range, undefined, handler_threw, handler_hangs, handle_read,
}
use cs.Server.{
  Operation, async_accept, async_read, async_write, Uninitialised, IoService, new_session,
  set_session, start_accept, start, handle_accept, Outcome, running, after_read, after_call,
  receive, complete_read, handle_write,
}
use cs.Server.Steps.{Step, accepted, read, written, Reachable, started, stepped}
use cs.Server.Taking.{
  IsUnread, IsServing, IsTaken, set_session-All, take_out, abandon, store, resume, close,
}

start_accept-IsServing :
    (u : Uninitialised) (io : IoService) → IsServing 0 io → IsServing 1 (start_accept u io)
unfolding start_accept
start_accept-IsServing u io s = record {
  accepting = omega (arith, s.accepting);
  single = λ j. elim (Bool-cases (io.next == j)) [
    | inl e ↦
        let made : io.next ≡ j = (==_iff io.next j).0 e in
        rw e (omega (arith, s.unborn j (omega arith)))
    | inr e ↦ rw e (omega (arith, s.single j))
  ];
  unborn = λ j h.
      let other : (io.next == j) ≡ false = ground arith in
      rw other (omega (arith, s.unborn j (omega arith)));
  fresh = (
    unfold set_session in rw ((==_iff io.next io.next).1 refl) (refl, refl, refl),
    set_session-All io.next (new_session u) io.sessions io.pending
        (omega (arith, s.unborn io.next (omega arith))) s.fresh,
  );
}

handle_accept-IsServing :
    (u : Uninitialised) (i : ℕ) (error : Bool) (io : IoService)
    → IsTaken i 0 io
    → IsUnread (io.sessions i)
    → IsServing 1 (handle_accept u i error io)
unfolding handle_accept
handle_accept-IsServing u i true io t p = start_accept-IsServing u io (abandon i 0 io t)
handle_accept-IsServing u i false io t p =
    start_accept-IsServing u (start i io) (resume 0 io (async_read i) refl p t)

handle_write-IsServing :
    (i : ℕ) (error : Bool) (buffers : List Text) (io : IoService)
    → IsTaken i 1 io
    → IsServing 1 (handle_write i error buffers io)
unfolding handle_write
handle_write-IsServing i true buffers io t = abandon i 1 io t
handle_write-IsServing i false buffers io t = close i 1 io buffers t

-- The same for an ending, unless the process ends or a thread is lost.
abbrev IsServed : Outcome → Type 0
IsServed (running io) = IsServing 1 io
IsServed _ = Unit

after_read-IsServed :
    (i : ℕ) (io : IoService) (e : Ending) → IsTaken i 1 io → IsServed (after_read i io e)
after_read-IsServed i io (returned n none s statics) t = abandon i 1 _ (store i 1 io s statics t)
after_read-IsServed i io (returned n (some buffers) s statics) t =
    resume 1 _ (async_write i buffers) refl tt (store i 1 io s statics t)
after_read-IsServed i io (out_of_range statics) t = tt
after_read-IsServed i io undefined t = tt
after_read-IsServed i io handler_threw t = tt
after_read-IsServed i io handler_hangs t = tt

after_call-IsServing :
    (i : ℕ) (io : IoService) (o : Option Ending) {after : IoService}
    → IsTaken i 1 io
    → after_call i io o ≡ some (running after)
    → IsServing 1 after
after_call-IsServing i io none t e = absurd cc
after_call-IsServing i io (some ending) {after} t e =
    let same : after_read i io ending ≡ running after = cc in
    let served = after_read-IsServed i io ending t in rw same at served

complete_read-IsServing :
    (callees : Server) (i : ℕ) (error : Bool) (text : Text) (io : IoService) {after : IoService}
    → IsTaken i 1 io
    → complete_read callees i error text io ≡ some (running after)
    → IsServing 1 after
unfolding complete_read
complete_read-IsServing callees i error text io t e =
    after_call-IsServing i io
      (handle_read 2 callees error (length text) (receive text (io.sessions i)) io.statics) t e

Step-IsServing :
    {callees : Server} {io after : IoService}
    → Step callees io after
    → IsServing 1 io
    → IsServing 1 after
Step-IsServing {io} (accepted u front back i error e) s =
    let (t, p) = take_out io front (async_accept i) back 0 s e in
    handle_accept-IsServing u i error (record io { pending = front ++ back }) t p
Step-IsServing {callees} {io} (read front back i error text e fits ends) s =
    let (t, p) = take_out io front (async_read i) back 1 s e in
    complete_read-IsServing callees i error text (record io { pending = front ++ back }) t ends
Step-IsServing {io} (written front back i error buffers e) s =
    let (t, p) = take_out io front (async_write i buffers) back 1 s e in
    handle_write-IsServing i error buffers (record io { pending = front ++ back }) t

-- Whatever the connections, the errors and the order of the completions are, there is always exactly
-- one accept pending, no session has two operations pending, none has one when its socket has been
-- shut down, none is shut down twice, and a session that waits for bytes has read none: its parser is
-- new, and its request has neither URI nor headers.
pub Reachable-IsServing :
    {callees : Server} {io : IoService} → Reachable callees io → IsServing 1 io
Reachable-IsServing (started u sessions statics) =
    start_accept-IsServing u _
      (record { accepting = refl; single = λ j. omega arith; unborn = λ j h. refl; fresh = tt })
Reachable-IsServing (stepped r step) = Step-IsServing step (Reachable-IsServing r)

pub waiting-IsFresh :
    {callees : Server} {io : IoService} (front back : List Operation) (i : ℕ)
    → Reachable callees io
    → io.pending ≡ front ++ (async_read i ∷ back)
    → IsUnread (io.sessions i)
waiting-IsFresh {callees} {io} front back i r e =
    (take_out io front (async_read i) back 1 (Reachable-IsServing r) e).1
