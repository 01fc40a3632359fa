-- ===== src/Examples/Echo.antt =====
-- The echo server (examples/echo-server/main.go): one read of up to 128 bytes, then one write of
-- what it has read, in turn, for each connection.
use gaio.Common.{ℕ, ◌≡◌, ◌==◌, false, List, [], ◌∷◌, ◌++◌, Option, none, some}
use gaio.Types.{
  Error, Buffer, buffer_length, nil, user, swap, own, op_read, op_write, op_delete, OpType,
  OpResult,
}
use gaio.System.{System, Request, read, write}
use gaio.System.Collect.{Waited, returned, closed}

abbrev pub echo_size : ℕ
echo_size = 128

-- `buf[:n]`
abbrev pub reslice : Buffer → ℕ → Buffer
reslice nil n = nil
reslice (user name m) n = user name n
reslice (swap b off m) n = swap b off n
reslice own n = own

-- What the server does for a result; `pick` is the pool's choice, and `room` the capacity of the
-- result's buffer.
unfoldable pub echo_ok : ℕ → ℕ → System → OpResult → OpType → System
echo_ok pick room s r op_read = (write pick s 0 (some r.conn) (reslice r.buffer r.size)).0
echo_ok pick room s r op_write = (read pick s 0 (some r.conn) (reslice r.buffer room)).0
echo_ok pick room s r op_delete = s

unfoldable pub echo_result : ℕ → ℕ → System → OpResult → System
echo_result pick room s r = elim r.error [ none ↦ echo_ok pick room s r r.operation | some e ↦ s ]

-- The loop over the results of one WaitIO. What the pool gives to a call depends on the state that
-- it finds.
unfoldable pub echo_results : (System → ℕ) → ℕ → System → List OpResult → System
echo_results pick room s [] = s
echo_results pick room s (r ∷ rs) = echo_results pick room (echo_result (pick s) room s r) rs

-- One round of echoServer: `none` when it returns.
unfoldable pub echo_round : (System → ℕ) → ℕ → System → Waited → Option System
echo_round pick room s (returned rs) = some (echo_results pick room s rs)
echo_round pick room s (closed e) = none

-- The server's start of a connection.
unfoldable pub echo_accept : ℕ → System → ℕ → ℕ → System × Option Error
echo_accept pick s conn name = read pick s 0 (some conn) (user name echo_size)

-- What the server means to ask for: a write of the bytes that were read, or a read of all that
-- fits.
abbrev pub echo_request : OpType → Buffer → Request
echo_request op buf = record { ctx = 0; op = op; buf = buf; deadline = 0; read_full = false }

abbrev pub echo_asks_ok : ℕ → OpResult → OpType → List (Request × ℕ)
echo_asks_ok room r op_read = (echo_request op_write (reslice r.buffer r.size), r.conn) ∷ []
echo_asks_ok room r op_write = (echo_request op_read (reslice r.buffer room), r.conn) ∷ []
echo_asks_ok room r op_delete = []

abbrev pub echo_asks : ℕ → List OpResult → List (Request × ℕ)
echo_asks room [] = []
echo_asks room (r ∷ rs) =
    (elim r.error [ none ↦ echo_asks_ok room r r.operation | some e ↦ [] ]) ++ echo_asks room rs

-- A read without an error has given some bytes, and a result has a connection.
pub record IsAnswer (r : OpResult) : Type 0 where
  pub real : (r.conn == 0) ≡ false
  pub filled :
      r.error ≡ none
      → r.operation ≡ op_read
      → (buffer_length (reslice r.buffer r.size) == 0) ≡ false

abbrev pub AreAnswers : List OpResult → Type 0
AreAnswers [] = Unit {0}
AreAnswers (r ∷ rs) = IsAnswer r × AreAnswers rs
