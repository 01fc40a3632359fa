-- ===== src/Setup.antt =====
-- How a poller is opened, woken and closed (openPoll, wakeup, Close and the deferred function of
-- Wait in aio_linux.go, aio_bsd.go and aio_windows.go), with the descriptors that are opened and
-- closed on the way. What each system call gives is an argument.
pub mod Windows
pub mod Balance
pub mod Raw
pub mod Affinity
use gaio.Common.{ℕ, Bool, true, false, List, [], ◌∷◌, ◌++◌, Option, none, some}
use gaio.Types.{Error, sys, poller_closed, Errno}

-- A call that gives a descriptor.
pub data Call : Type 0 where
  gives : ℕ → Call
  refuses : Errno → Call

-- An attempt to make something: what it is or why not, and the descriptors opened and closed, in
-- order.
pub record Attempt (A : Type 0) : Type 0 where
  pub result : Option A
  pub error : Option Error
  pub opened : List ℕ
  pub closed : List ℕ

abbrev pub gave : {A : Type 0} → A → List ℕ → List ℕ → Attempt A
gave a opened closed = record { result = some a; error = none; opened = opened; closed = closed }

abbrev pub failed : {A : Type 0} → Error → List ℕ → List ℕ → Attempt A
failed e opened closed = record { result = none; error = some e; opened = opened; closed = closed }

-- The descriptors of the poller for Linux, `none` for -1, and whether `die` is closed.
pub record EpollFds : Type 0 where
  pub pfd : Option ℕ
  pub efd : Option ℕ
  pub die : Bool

-- openPoll on Linux: epoll_create1, eventfd2 and epoll_ctl.
unfoldable pub epoll_open : Call → Call → Option Errno → Attempt EpollFds
epoll_open (refuses e) event ctl = failed (sys e) [] []
epoll_open (gives fd) (refuses e) ctl = failed (sys e) (fd ∷ []) (fd ∷ [])
epoll_open (gives fd) (gives r0) (some e) = failed (sys e) (fd ∷ r0 ∷ []) (fd ∷ r0 ∷ [])
epoll_open (gives fd) (gives r0) none =
    gave (record { pfd = some fd; efd = some r0; die = false }) (fd ∷ r0 ∷ []) []

abbrev pub sys_error : Option Errno → Option Error
sys_error none = none
sys_error (some e) = some (sys e)

-- wakeup on Linux, with what the write gives.
unfoldable pub epoll_wakeup : EpollFds → Option Errno → Option Error
epoll_wakeup p e = elim p.efd [ none ↦ some poller_closed | some fd ↦ sys_error e ]

unfoldable pub epoll_close : EpollFds → Option Errno → EpollFds × Option Error
epoll_close p e = (record p { die = true }, epoll_wakeup p e)

-- A descriptor that is closed, -1 not counted.
abbrev pub held : Option ℕ → List ℕ
held none = []
held (some fd) = fd ∷ []

-- Wait's deferred function on Linux, with what it closes.
unfoldable pub epoll_end : EpollFds → EpollFds × List ℕ
epoll_end p = (record p { pfd = none; efd = none }, held p.pfd ++ held p.efd)

pub record KqueueFd : Type 0 where
  pub fd : Option ℕ
  pub die : Bool

-- openPoll on BSD: kqueue and kevent.
unfoldable pub kqueue_open : Call → Option Errno → Attempt KqueueFd
kqueue_open (refuses e) event = failed (sys e) [] []
kqueue_open (gives fd) (some e) = failed (sys e) (fd ∷ []) []
kqueue_open (gives fd) none = gave (record { fd = some fd; die = false }) (fd ∷ []) []

unfoldable pub kqueue_wakeup : KqueueFd → Option Errno → Option Error
kqueue_wakeup p e = elim p.fd [ none ↦ some poller_closed | some fd ↦ sys_error e ]

unfoldable pub kqueue_close : KqueueFd → Option Errno → KqueueFd × Option Error
kqueue_close p e = (record p { die = true }, kqueue_wakeup p e)

unfoldable pub kqueue_end : KqueueFd → KqueueFd × List ℕ
kqueue_end p = (record p { fd = none }, held p.fd)
