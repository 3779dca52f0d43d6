-- ===== src/Server/Taking.antt =====
-- What holds of the operations and the sessions, and what taking an operation out keeps.
use cs.Prelude.{
  ℕ, ◌+◌, ◌≡◌, ◌≤◌, refl, ap, arith, Bool, true, false, List, [], ◌∷◌, ◌++◌, All, ◌==◌, ==_iff,
  Text,
}
use cs.Http.RequestParser.{initial}
use cs.Handler.Status.{Statics}
use cs.Session.{Session}
use cs.Server.{Operation, async_accept, async_read, async_write, IoService, set_session}
use cs.Server.Pending.{
  session_of, one_if, operations, one_if_accept, accepts, shutdowns, operations-middle,
  accepts-middle,
}

-- A session that has read nothing: its parser is new, and its request has neither URI nor headers.
abbrev pub IsUnread : Session → Type 0
IsUnread s = (s.request_parser_ ≡ initial) × (s.request_.uri_ ≡ []) × (s.request_.headers_ ≡ [])

-- A session that is to be accepted or read has read nothing.
abbrev pub IsFresh : (ℕ → Session) → Operation → Type 0
IsFresh sessions (async_accept i) = IsUnread (sessions i)
IsFresh sessions (async_read i) = IsUnread (sessions i)
IsFresh sessions (async_write i buffers) = Unit

-- With `n` accepts pending; a session that has an operation pending has no other and is not shut down,
-- one that is shut down has none and was so once, and one that is still to be made has neither.
pub record IsServing (n : ℕ) (io : IoService) : Type 0 where
  pub accepting : accepts io.pending ≡ n
  pub single : (j : ℕ) → operations j io.pending + shutdowns j io.closed ≤ 1
  pub unborn : (j : ℕ) → io.next ≤ j → operations j io.pending + shutdowns j io.closed ≡ 0
  pub fresh : All (IsFresh io.sessions) io.pending

-- The same where the operation of the session `i` has been taken out.
pub record IsTaken (i n : ℕ) (io : IoService) : Type 0 where
  pub accepting : accepts io.pending ≡ n
  pub single : (j : ℕ) → one_if (i == j) + (operations j io.pending + shutdowns j io.closed) ≤ 1
  pub unborn :
      (j : ℕ)
      → io.next ≤ j
      → one_if (i == j) + (operations j io.pending + shutdowns j io.closed) ≡ 0
  pub fresh : All (IsFresh io.sessions) io.pending

All-middle :
    (P : Operation → Type 0) (front : List Operation) (op : Operation) (back : List Operation)
    → All P (front ++ (op ∷ back))
    → P op × All P (front ++ back)
All-middle P [] op back h = h
All-middle P (o ∷ front) op back (p, h) =
    let (q, rest) = All-middle P front op back h in (q, (p, rest))

one_if_self : (i : ℕ) → one_if (i == i) ≡ 1
one_if_self i = let same : (i == i) ≡ true = (==_iff i i).1 refl in rw same refl

one_if-false : (b : Bool) → one_if b ≡ 0 → b ≡ false
one_if-false true h = absurd (omega arith)
one_if-false false h = refl

==_swap : (i j : ℕ) → (i == j) ≡ false → (j == i) ≡ false
==_swap i j h = ground arith

set_session-IsFresh :
    (i : ℕ) (s : Session) (sessions : ℕ → Session) (op : Operation)
    → one_if (session_of op == i) ≡ 0
    → IsFresh sessions op
    → IsFresh (set_session i s sessions) op
set_session-IsFresh i s sessions (async_write j buffers) h k = tt
set_session-IsFresh i s sessions (async_accept j) h k =
    unfold set_session in rw (==_swap j i (one_if-false (j == i) h)) k
set_session-IsFresh i s sessions (async_read j) h k =
    unfold set_session in rw (==_swap j i (one_if-false (j == i) h)) k

pub set_session-All :
    (i : ℕ) (s : Session) (sessions : ℕ → Session) (ops : List Operation)
    → operations i ops ≡ 0
    → All (IsFresh sessions) ops
    → All (IsFresh (set_session i s sessions)) ops
set_session-All i s sessions [] h k = tt
set_session-All i s sessions (op ∷ ops) h (p, k) = (
  set_session-IsFresh i s sessions op (omega arith) p,
  set_session-All i s sessions ops (omega arith) k,
)

pub take_out :
    (io : IoService) (front : List Operation) (op : Operation) (back : List Operation) (n : ℕ)
    → IsServing (one_if_accept op + n) io
    → io.pending ≡ front ++ (op ∷ back)
    → IsTaken (session_of op) n (record io { pending = front ++ back }) × IsFresh io.sessions op
take_out io front op back n s e =
    let (p, rest) = All-middle (IsFresh io.sessions) front op back (rw e at s.fresh) in
    (
      record {
        accepting = omega (arith, s.accepting, ap accepts e, accepts-middle front op back);
        single =
            λ j. omega (arith, s.single j, ap (operations j) e, operations-middle j front op back);
        unborn = λ j h.
            omega (arith, s.unborn j h, ap (operations j) e, operations-middle j front op back);
        fresh = rest;
      },
      p,
    )

pub abandon : (i n : ℕ) (io : IoService) → IsTaken i n io → IsServing n io
abandon i n io t = record {
  accepting = t.accepting;
  single = λ j. omega (arith, t.single j);
  unborn = λ j h. omega (arith, t.unborn j h);
  fresh = t.fresh;
}

pub store :
    (i n : ℕ) (io : IoService) (s : Session) (statics : Statics)
    → IsTaken i n io
    → IsTaken i n (record io { sessions = set_session i s io.sessions; statics = statics })
store i n io s statics t = record {
  accepting = t.accepting;
  single = t.single;
  unborn = t.unborn;
  fresh =
      set_session-All i s io.sessions io.pending (omega (arith, t.single i, one_if_self i)) t.fresh;
}

pub resume :
    (n : ℕ) (io : IoService) (op : Operation)
    → one_if_accept op ≡ 0
    → IsFresh io.sessions op
    → IsTaken (session_of op) n io
    → IsServing n (record io { pending = op ∷ io.pending })
resume n io op a p t = record {
  accepting = omega (arith, t.accepting);
  single = λ j. omega (arith, t.single j);
  unborn = λ j h. omega (arith, t.unborn j h);
  fresh = (p, t.fresh);
}

pub close :
    (i n : ℕ) (io : IoService) (buffers : List Text)
    → IsTaken i n io
    → IsServing n (record io { closed = (i, buffers) ∷ io.closed })
close i n io buffers t = record {
  accepting = t.accepting;
  single = λ j. omega (arith, t.single j);
  unborn = λ j h. omega (arith, t.unborn j h);
  fresh = t.fresh;
}
