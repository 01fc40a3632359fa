-- ===== src/Poller/Rounds.antt =====
-- One pass of the loop of each poller's Wait (aio_linux.go, aio_bsd.go, aio_windows.go), from the
-- test of `die` to where it goes on, ends, or has a signal for the watcher's loop. What the system
-- call gives is an argument.
use gaio.Common.{ℕ, List, [], ◌∷◌, ◌++◌, Option, none, some, if◌then◌else◌, ◌==◌, ◌||◌, length}
use gaio.Types.{sys, Errno, errno, Event, Signal}
use gaio.Poller.Table.{PollFd, Table}
use gaio.Poller.Events.{Filter, evfilt_read, evfilt_write, epoll_event, kqueue_events, wsa_events}

-- What epoll_wait or kevent gives: EINTR, another error, or what it reports.
pub data Polled (A : Type 0) : Type 0 where
  interrupted_call : Polled A
  failed_call : Errno → Polled A
  reports : A → Polled A

-- How a pass ends: `continue`, `return`, a signal that is sent and acknowledged, or one that is
-- sent before the poller returns.
pub data Next : Type 0 where
  again over : Next
  sends sends_last : Signal → Next

abbrev pub batch : List Event → Signal
batch es = record { events = es; err = none }

-- The request for a CPU, `none` for -1, and the CPUs that setAffinity was called with, in order.
pub record Pinning : Type 0 where
  pub cpuid : Option ℕ
  pub applied : List ℕ

unfoldable pub pin : Pinning → Pinning
pin a = elim a.cpuid [ none ↦ a | some c ↦ record { cpuid = none; applied = a.applied ++ c ∷ [] } ]

-- The loop of Wait on Linux over what epoll_wait has reported, with what it does for the eventfd.
unfoldable pub epoll_scan : ℕ → Pinning → List (ℕ × ℕ) → Pinning × List Event
epoll_scan efd a [] = (a, [])
epoll_scan efd a ((fd, flags) ∷ es) =
    let wakes = fd == efd in
    let (a', rest) = epoll_scan efd (if wakes then pin a else a) es in
    (a', if wakes then rest else epoll_event fd flags ∷ rest)

-- The poller for Linux, with the eventfd; its descriptors close only when Wait ends.
pub record Epoll : Type 0 where
  pub efd : ℕ
  pub pinning : Pinning

unfoldable pub epoll_round : Epoll → Polled (List (ℕ × ℕ)) → Epoll × Next
epoll_round p interrupted_call = (p, again)
epoll_round p (failed_call e) = (p, over)
epoll_round p (reports es) =
    let (a, events) = epoll_scan p.efd p.pinning es in
    (record p { pinning = a }, sends (batch events))

-- An element of `changes`: a descriptor and a filter to add.
pub record Change : Type 0 where
  pub ident : ℕ
  pub filter : Filter

-- The loop of Wait on BSD over the queue of descriptors to watch.
unfoldable pub changes_of : List ℕ → List Change
changes_of [] = []
changes_of (fd ∷ fds) =
    record { ident = fd; filter = evfilt_read }
    ∷ record { ident = fd; filter = evfilt_write }
    ∷ changes_of fds

pub record Kqueue : Type 0 where
  pub watch_queue : List ℕ
  pub changes : List Change
  pub pinning : Pinning

unfoldable pub kqueue_watch : Kqueue → ℕ → Kqueue
kqueue_watch p fd = record p { watch_queue = p.watch_queue ++ fd ∷ [] }

-- A pass on BSD up to kevent, which is given the `changes` of its result.
unfoldable pub kqueue_prepare : Kqueue → Kqueue
kqueue_prepare p = record {
  watch_queue = [];
  changes = p.changes ++ changes_of p.watch_queue;
  pinning = pin p.pinning;
}

unfoldable pub kqueue_finish : Kqueue → Polled (List (ℕ × Filter × ℕ)) → Kqueue × Next
kqueue_finish p interrupted_call = (p, again)
kqueue_finish p (failed_call e) = (p, over)
kqueue_finish p (reports es) = (record p { changes = [] }, sends (batch (kqueue_events es)))

unfoldable pub kqueue_round : Kqueue → Polled (List (ℕ × Filter × ℕ)) → Kqueue × Next
kqueue_round p r = kqueue_finish (kqueue_prepare p) r

-- What WSAPoll gives: SOCKET_ERROR with the code of WSAGetLastError, or the number of sockets with
-- events, negative numbers counted as 0, and `revents` of each entry of the snapshot.
pub data WsaPolled : Type 0 where
  socket_error : ℕ → WsaPolled
  polled : ℕ → List ℕ → WsaPolled

abbrev pub wsaeintr : ℕ
wsaeintr = 10004

-- The snapshot of the poll set with the entries' `revents`; those without stay 0.
unfoldable pub filled : List PollFd → List ℕ → List (ℕ × ℕ)
filled [] rs = []
filled (p ∷ ps) [] = (p.fd, 0) ∷ filled ps []
filled (p ∷ ps) (r ∷ rs) = (p.fd, r) ∷ filled ps rs

-- The poller for Windows. `last` is what the last signal left in `sig.events`.
pub record Wsa : Type 0 where
  pub reader : ℕ
  pub table : Table
  pub pinning : Pinning
  pub last : List Event

-- A pass on Windows, once WSAPoll has found events.
unfoldable pub wsa_found : Wsa → List ℕ → Wsa × Next
wsa_found p revents =
    let (table, events) = wsa_events p.reader p.table (filled p.table.poll_fds revents) in
    let p1 = record p { table = table; pinning = pin p.pinning } in
    if length events == 0 then (p1, again) else (record p1 { last = events }, sends (batch events))

unfoldable pub wsa_round : Wsa → WsaPolled → Wsa × Next
wsa_round p (socket_error code) =
    if length p.table.poll_fds == 0 || code == wsaeintr
    then (p, again)
    else (p, sends_last (record { events = p.last; err = some (sys (errno code)) }))
wsa_round p (polled n revents) =
    if length p.table.poll_fds == 0 || n == 0 then (p, again) else wsa_found p revents
