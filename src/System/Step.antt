-- ===== src/System/Step.antt =====
-- The watcher as a state machine while its loop runs: a step is a call of the API, a case of the
-- loop that does not end it, or a finalizer, in any order (watcher.go). The cases that end the loop
-- (`die`, watcher.go:688, and an error of the poller) are in System.Life.
use gaio.Common.{ℕ, ◌+◌, ◌<◌, ◌≡◌, ◌==◌, Bool, true, false, Option, none, some, count}
use gaio.Types.{Signal, op_delete}
use gaio.Kernel.{Kernel}
use gaio.Watcher.{cb_of}
use gaio.Watcher.Invariant.{tally}
use gaio.System.{System, Request, aio_create, stop}
use gaio.System.Collect.{Waited, wait_io}
use gaio.System.Loop.{finalize, on_pending, on_signal, on_timer, on_gc}

-- Only Free asks to delete, and it sets no deadline.
abbrev pub IsProper : Request → Type 0
IsProper r = r.op ≡ op_delete → r.deadline ≡ 0

-- A request in pendingCreate, in a queue or in chResults keeps its connection reachable.
abbrev pub IsUnreachable : System → ℕ → Type 0
IsUnreachable s c =
    (p : ℕ)
    → 0 < count p s.pending_create + tally s.watcher p
    → ((cb_of s.watcher p).conn == c) ≡ false

-- The finalizer of a connection may run whenever no request holds the connection, also more than
-- once or without a registration, which the program does not need.
pub data Step (k : Kernel) : System → System → Type 0 where
  request :
      {s : System} (pick : ℕ) (r : Request) (conn : Option ℕ)
      → IsProper r
      → Step k s (aio_create pick s r conn).0
  wait : {s t : System} {x : Waited} (prefer : Bool) → wait_io prefer s ≡ some (t, x) → Step k s t
  pending : {s : System} → s.pending_notify ≡ true → Step k s (on_pending k s)
  events : {s : System} (sig : Signal) → sig.err ≡ none → Step k s (on_signal k s sig)
  timer : {s : System} (now : ℕ) → Step k s (on_timer k s now)
  gc : {s : System} → s.watcher.gc_notify ≡ true → Step k s (on_gc k s)
  final : {s : System} (c : ℕ) → IsUnreachable s c → Step k s (finalize s c)
  close : {s : System} → Step k s (stop s)

pub data Reach (k : Kernel) (s : System) : System → Type 0 where
  here : Reach k s s
  next : {t u : System} → Reach k s t → Step k t u → Reach k s u
