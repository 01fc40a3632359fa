-- ===== src/Tests/Waits.antt =====
-- Runs of a poller's Wait beside the watcher's loop (aio_linux.go, aio_bsd.go, aio_windows.go).
use gaio.Common.{
  ℕ, ◌≡◌, ◌≢◌, refl, true, false, List, [], ◌∷◌, ◌++◌, none, some, if◌then◌else◌, length, ◌==◌,
  ◌||◌, insert, lookup,
}
use gaio.Types.{errno, sys}
use gaio.Poller.Events.{epoll_event, epoll_events, Filter}
use gaio.Poller.Table.{open_table, watch}
use gaio.Poller.Rounds.{
  Kqueue, Wsa, reports, interrupted_call, Pinning, pin, epoll_scan, epoll_round, wsaeintr,
  kqueue_watch, kqueue_round, kqueue_prepare, kqueue_finish, Change, changes_of,
}
use gaio.Poller.Queue.{opens, watches, passes, Queued-all, epoll_scan-epoll_events, wakes, accepted}
use gaio.Poller.Wait.{
  Machine, linux, windows, begin, poll, proceed, build, overwrite, Moves, start, later, polls,
  finished, gone,
}
use gaio.Poller.Wait.Delivery.{Delivered, begin-Delivered, begin-Sync}
use gaio.Poller.Wait.Progress.{Settles, Moves-Settles}
use gaio.Poller.Wait.Failure.{Fails, wsa_poll-Fails}
use gaio.Poller.Wait.Silence.{failing, failing-silent}
use gaio.System.{new_watcher_size, aio_create, create_at, submit, get_cb}
use gaio.System.Loop.{on_pending}
use gaio.Tests.Sample.{kernel, waiting, waiting-IsSafe, waiting-open}

abbrev no_pin : Pinning
no_pin = record { cpuid = none; applied = [] }

abbrev asked_pin : Pinning
asked_pin = record { cpuid = some 3; applied = [] }

abbrev began : Machine linux
began = begin waiting (record { efd = 4; pinning = asked_pin }) []

-- EPOLLIN on the descriptor of the waiting request and the eventfd.
abbrev found : Machine linux
found = poll linux began (reports ((1, 0x1) ∷ (4, 0x1) ∷ []))

found_run : found.array ≡ record { ident = 1; ev = 1 } ∷ []
unfolding poll proceed build overwrite epoll_round epoll_scan epoll_event begin
found_run = refl

found_pins : found.state.pinning.applied ≡ 3 ∷ []
unfolding poll proceed build overwrite epoll_round epoll_scan pin begin
found_pins = refl

began-open : began.system.poller_closed ≡ false
unfolding begin on_pending aio_create create_at submit get_cb new_watcher_size
began-open = refl

found-Moves : Moves linux kernel began found
unfolding begin
found-Moves = later start (polls (reports ((1, 0x1) ∷ (4, 0x1) ∷ [])) refl began-open)

begin-Delivered_example : Delivered found
begin-Delivered_example =
    begin-Delivered {p = linux} {k = kernel} waiting (record { efd = 4; pinning = asked_pin }) []
      found found-Moves

found-going : found.stage ≢ finished
unfolding poll proceed build epoll_round
found-going e = cc

found-idle : found.worker ≢ gone
unfolding poll proceed build epoll_round begin
found-idle e = cc

Moves-Settles_example : Settles linux kernel 5 found
Moves-Settles_example =
    Moves-Settles {p = linux} {k = kernel} waiting (record { efd = 4; pinning = asked_pin }) []
      found found-Moves found-going found-idle

-- A poller for Windows, with a socket to watch, and WSAENOBUFS.
abbrev wsa : Wsa
wsa = record { reader = 2; table = watch (open_table 2) 5; pinning = no_pin; last = [] }

abbrev wsa_began : Machine windows
wsa_began = begin waiting wsa []

wsa_began-open : wsa_began.system.poller_closed ≡ false
unfolding begin on_pending aio_create create_at submit get_cb new_watcher_size
wsa_began-open = refl

wsa_code : (length wsa_began.state.table.poll_fds == 0 || 10055 == wsaeintr) ≡ false
unfolding begin watch open_table insert lookup
wsa_code = refl

wsa_poll-Fails_example : Fails kernel 4 wsa_began (sys (errno 10055))
unfolding begin
wsa_poll-Fails_example =
    wsa_poll-Fails kernel wsa_began 10055 (begin-Sync waiting wsa []) refl refl wsa_began-open
      waiting-open waiting-IsSafe.inv wsa_code

-- EBADF from epoll_wait.
failing-silent_example :
    let n = poll linux began (failing true (errno 9)) in
    (n.stage ≡ finished)
    × (n.handled ≡ began.polled)
    × (n.system.poller_err ≡ began.system.poller_err)
unfolding begin
failing-silent_example =
    failing-silent {k = kernel} true waiting (record { efd = 4; pinning = asked_pin }) [] (errno 9)
      began (poll linux began (failing true (errno 9))) start refl start

-- Two calls of Watch, with a kevent that is interrupted between them and one that succeeds.
abbrev watched : Kqueue
watched = kqueue_watch (record { watch_queue = []; changes = []; pinning = no_pin }) 7

abbrev waited : Kqueue
waited = (kqueue_round (kqueue_watch (kqueue_round watched interrupted_call).0 8) (reports [])).0

abbrev registered : List Change
registered =
    ([] ++ accepted {A = List (ℕ × Filter × ℕ)} interrupted_call (kqueue_prepare watched).changes)
    ++ (kqueue_prepare (kqueue_watch (kqueue_round watched interrupted_call).0 8)).changes

Queued-all_example :
    registered ++ (waited.changes ++ changes_of waited.watch_queue) ≡ changes_of (7 ∷ 8 ∷ [])
Queued-all_example =
    Queued-all waited (7 ∷ 8 ∷ []) registered
      (passes (reports []) (watches 8 (passes interrupted_call (watches 7 (opens no_pin)))))

registered_run : registered ≡ changes_of (7 ∷ 8 ∷ [])
unfolding kqueue_round kqueue_watch kqueue_prepare kqueue_finish changes_of
registered_run = refl

epoll_scan-epoll_events_example :
    ((epoll_scan 4 asked_pin ((1, 0x1) ∷ (4, 0x1) ∷ [])).1
      ≡ epoll_events 4 ((1, 0x1) ∷ (4, 0x1) ∷ []))
    × ((epoll_scan 4 asked_pin ((1, 0x1) ∷ (4, 0x1) ∷ [])).0
        ≡ (if wakes 4 ((1, 0x1) ∷ (4, 0x1) ∷ []) then pin asked_pin else asked_pin))
epoll_scan-epoll_events_example = epoll_scan-epoll_events 4 asked_pin ((1, 0x1) ∷ (4, 0x1) ∷ [])
