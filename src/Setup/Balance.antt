-- ===== src/Setup/Balance.antt =====
-- The descriptors of a poller from openPoll to the end of Wait (aio_linux.go, aio_bsd.go,
-- aio_windows.go).
pub mod Windows
use gaio.Common.{ℕ, ◌≡◌, ◌+◌, List, [], ◌∷◌, Option, none, some, count, arith}
use gaio.Types.{Errno}
use gaio.Setup.{Call, gives, refuses, Attempt, epoll_open, epoll_end, kqueue_open, kqueue_end}

-- What is opened is closed on the way, or by `end` on what the attempt gives, or left open.
abbrev pub closed_by : {A : Type 0} → (A → List ℕ) → Option A → List ℕ
closed_by end none = []
closed_by end (some a) = end a

pub record Balanced {A : Type 0} (end : A → List ℕ) (left : List ℕ) (a : Attempt A) : Type 0 where
  pub ledger :
      (q : ℕ)
      → count q a.opened ≡ count q a.closed + count q (closed_by end a.result) + count q left

epoll_open-Balanced :
    (create event : Call) (ctl : Option Errno)
    → Balanced (λ p. (epoll_end p).1) [] (epoll_open create event ctl)
unfolding epoll_open epoll_end
epoll_open-Balanced (refuses e) event ctl = record { ledger = λ q. omega arith }
epoll_open-Balanced (gives fd) (refuses e) ctl = record { ledger = λ q. omega arith }
epoll_open-Balanced (gives fd) (gives r0) (some e) = record { ledger = λ q. omega arith }
epoll_open-Balanced (gives fd) (gives r0) none = record { ledger = λ q. omega arith }

-- The kqueue that openPoll does not close when kevent fails.
abbrev pub kqueue_left : Call → Option Errno → List ℕ
kqueue_left (refuses e) event = []
kqueue_left (gives fd) (some e) = fd ∷ []
kqueue_left (gives fd) none = []

kqueue_open-Balanced :
    (create : Call) (event : Option Errno)
    → Balanced (λ p. (kqueue_end p).1) (kqueue_left create event) (kqueue_open create event)
unfolding kqueue_open kqueue_end
kqueue_open-Balanced (refuses e) event = record { ledger = λ q. omega arith }
kqueue_open-Balanced (gives fd) (some e) = record { ledger = λ q. omega arith }
kqueue_open-Balanced (gives fd) none = record { ledger = λ q. omega arith }

-- On Linux, whatever its calls give, openPoll closes every descriptor that it opens, once, or leaves
-- it in the poller, where the end of Wait closes it, once. On BSD the same holds, except that a
-- failure of kevent leaves the kqueue open.
pub unix_open-Balanced :
    (create event : Call) (error : Option Errno)
    → Balanced (λ p. (epoll_end p).1) [] (epoll_open create event error)
      × Balanced (λ p. (kqueue_end p).1) (kqueue_left create error) (kqueue_open create error)
unix_open-Balanced create event error =
    (epoll_open-Balanced create event error, kqueue_open-Balanced create error)
