-- ===== src/Server/Pending.antt =====
-- Counting the operations that are pending.
use cs.Prelude.{ℕ, ◌+◌, ◌≡◌, refl, arith, Bool, true, false, List, [], ◌∷◌, ◌++◌, ◌==◌, Text}
use cs.Server.{Operation, async_accept, async_read, async_write}

-- The session of an operation.
abbrev pub session_of : Operation → ℕ
session_of (async_accept i) = i
session_of (async_read i) = i
session_of (async_write i buffers) = i

abbrev pub one_if : Bool → ℕ
one_if true = 1
one_if false = 0

-- How many operations of the session `i` there are.
abbrev pub operations : ℕ → List Operation → ℕ
operations i [] = 0
operations i (op ∷ ops) = one_if (session_of op == i) + operations i ops

abbrev pub one_if_accept : Operation → ℕ
one_if_accept (async_accept i) = 1
one_if_accept _ = 0

-- How many accepts there are.
abbrev pub accepts : List Operation → ℕ
accepts [] = 0
accepts (op ∷ ops) = one_if_accept op + accepts ops

-- How often a session has been shut down.
abbrev pub shutdowns : ℕ → List (ℕ × List Text) → ℕ
shutdowns i [] = 0
shutdowns i ((j, buffers) ∷ l) = one_if (j == i) + shutdowns i l

pub operations-middle :
    (i : ℕ) (front : List Operation) (op : Operation) (back : List Operation)
    → operations i (front ++ (op ∷ back))
      ≡ one_if (session_of op == i) + operations i (front ++ back)
operations-middle i [] op back = refl
operations-middle i (o ∷ front) op back = omega (arith, operations-middle i front op back)

pub accepts-middle :
    (front : List Operation) (op : Operation) (back : List Operation)
    → accepts (front ++ (op ∷ back)) ≡ one_if_accept op + accepts (front ++ back)
accepts-middle [] op back = refl
accepts-middle (o ∷ front) op back = omega (arith, accepts-middle front op back)
