-- ===== src/Tests/Setups.antt =====
-- Runs of the opening and the end of the pollers, and of their reads (aio_linux.go, aio_bsd.go,
-- aio_windows.go).
use gaio.Common.{ℕ, ◌≡◌, refl, List, [], ◌∷◌, none, some, arith, false}
use gaio.Types.{errno, poller_closed, sys}
use gaio.Kernel.{moved, control}
use gaio.Transfer.{read_loop}
use gaio.Setup.{
  gives, refuses, EpollFds, KqueueFd, epoll_open, epoll_end, epoll_wakeup, kqueue_open, kqueue_end,
  kqueue_wakeup,
}
use gaio.Setup.Windows.{
  PairCalls, WsaSockets, wsa_open, wsa_end, wsa_wakeup, wsa_dupconn, create_socket_pair,
  pair_accept, pair_extract, pair_modes,
}
use gaio.Setup.Balance.{Balanced, kqueue_left, unix_open-Balanced}
use gaio.Setup.Balance.Windows.{windows-Balanced}
use gaio.Setup.Affinity.{windows_mask, Slot, requests, loads, applies, Accesses, begins, follows}
use gaio.Setup.Raw.{Errnos, seen, unix_raw, Wrapped, loops-Wrapped}

-- The kqueue at 3 stays open when kevent gives ENOMEM.
kqueue_leaks : kqueue_left (gives 3) (some (errno 12)) ≡ 3 ∷ []
kqueue_leaks = refl

unix_open-Balanced_example :
    Balanced (λ p. (epoll_end p).1) [] (epoll_open (gives 3) (gives 4) (some (errno 12)))
    × Balanced (λ p. (kqueue_end p).1) (3 ∷ []) (kqueue_open (gives 3) (some (errno 12)))
unix_open-Balanced_example = unix_open-Balanced (gives 3) (gives 4) (some (errno 12))

abbrev pair : PairCalls
pair = record {
  listen = gives 3;
  dial = gives 4;
  accept = gives 5;
  reader = gives 6;
  writer = gives 7;
  reader_mode = none;
  writer_mode = none;
  no_pair = sys (errno 0);
}

abbrev no_accept : PairCalls
no_accept = record pair { accept = refuses (errno 24) }

pair_run : (wsa_open pair).result ≡ some (record { reader = 6; writer = 7; die = false })
unfolding wsa_open create_socket_pair pair_accept pair_extract pair_modes
pair_run = refl

no_accept_run : (wsa_open no_accept).opened ≡ 3 ∷ 4 ∷ []
unfolding wsa_open create_socket_pair pair_accept
no_accept_run = refl

windows-Balanced_example :
    Balanced (λ p. (wsa_end p).1) (4 ∷ []) (wsa_open no_accept)
    × Balanced (λ h. h ∷ []) [] (wsa_dupconn (control 5) none (gives 9) (some (errno 10022)))
windows-Balanced_example =
    windows-Balanced no_accept (control 5) none (gives 9) (some (errno 10022)) (omega arith)
      (omega arith)

abbrev epoll_fds : EpollFds
epoll_fds = record { pfd = some 3; efd = some 4; die = false }

abbrev kqueue_fd : KqueueFd
kqueue_fd = record { fd = some 3; die = false }

abbrev sockets : WsaSockets
sockets = record { reader = 6; writer = 7; die = false }

-- After Wait has ended.
wakeup_runs :
    (epoll_wakeup (epoll_end epoll_fds).0 none ≡ some poller_closed)
    × (kqueue_wakeup (kqueue_end kqueue_fd).0 none ≡ some poller_closed)
    × (wsa_wakeup (wsa_end sockets).0 ≡ some poller_closed)
unfolding epoll_wakeup epoll_end kqueue_wakeup kqueue_end wsa_wakeup wsa_end
wakeup_runs = (refl, refl, refl)

abbrev linux_errnos : Errnos
linux_errnos = record { intr = 4; again = 11; nobufs = 105 }

loops-Wrapped_example : Wrapped linux_errnos (moved 3)
loops-Wrapped_example = loops-Wrapped linux_errnos (moved 3) refl

-- A read that is interrupted once.
wrapped_run : read_loop 2 (seen linux_errnos (unix_raw 0 4) (moved 3)) ≡ some (5, none)
unfolding read_loop seen unix_raw
wrapped_run = refl

mask_run : windows_mask 64 3 ≡ 8
unfolding windows_mask
mask_run = refl

-- No request is left, and the CPUs of `cs` are applied.
abbrev applied_slot : List ℕ → Slot
applied_slot cs = record { cpuid = none; loaded = none; applied = cs }

-- A request between the poller's load and its store of -1 is lost.
lost_request : Accesses (applied_slot []) (applied_slot (3 ∷ []))
lost_request =
    follows (follows (follows (follows begins (requests 3)) (loads refl)) (requests 5))
      (applies refl)
