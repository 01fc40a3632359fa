-- ===== src/Poller/Wait/Failure.antt =====
-- What an error of WSAPoll (aio_windows.go) leads to, beside the watcher's loop (watcher.go).
use gaio.Common.{
  ℕ, arith, ◌≤◌, ◌==◌, ◌||◌, ◌≡◌, Bool, true, false, none, some, length, refl, subst, sym,
}
use gaio.Types.{Error, sys, errno, Signal}
use gaio.Kernel.{Kernel}
use gaio.Poller.Wait.{
  Poller, Machine, top, finished, idle, gone, build, proceed, poll, handle, handle_err, Move, polls,
  puts, receives, handles, Moves, start, later,
}
use gaio.Poller.Wait.Sync.{at_top_channel}
use gaio.Poller.Wait.Delivery.{Sync}
use gaio.Poller.Wait.Progress.{steps, first, steps-first}
use gaio.Poller.Wait.{windows}
use gaio.Poller.Rounds.{socket_error, wsa_round, wsaeintr}
use gaio.System.Results.{on_signal_fails}
use gaio.System.Collect.{wait_io, recycle, closed}
use gaio.Watcher.Invariant.{Inv}

abbrev pub wsa_failure : Machine windows → ℕ → Signal
wsa_failure m code = record { events = m.state.last; err = some (sys (errno code)) }

wsa_fails :
    (m : Machine windows) (code : ℕ)
    → (length m.state.table.poll_fds == 0 || code == wsaeintr) ≡ false
    → poll windows m (socket_error code) ≡ build windows m (wsa_failure m code) true
unfolding poll wsa_round proceed
wsa_fails m code h = rw h refl

-- A run of at most `b` steps after which the poller and the loop have ended, and WaitIO returns
-- `e`.
pub record Fails {p : Poller} (k : Kernel) (b : ℕ) (m : Machine p) (e : Error) : Type 0 where
  pub last : Machine p
  pub run : Moves p k m last
  pub short : steps run ≤ b
  pub ended : last.stage ≡ finished
  pub gone : last.worker ≡ gone
  pub error : (prefer : Bool) → wait_io prefer last.system ≡ some (recycle last.system, closed e)

built-Fails :
    (k : Kernel) (m : Machine windows) (code : ℕ)
    → m.channel ≡ none
    → m.worker ≡ idle
    → Inv m.system.watcher
    → m.system.watcher.die ≡ false
    → Fails k 3 (build windows m (wsa_failure m code) true) (sys (errno code))
unfolding build handle handle_err steps
built-Fails k m code c w v on = record {
  last = _;
  run = later (later (later start (puts refl c)) (receives w refl)) (handles refl);
  short = omega arith;
  ended = refl;
  gone = refl;
  error = (on_signal_fails k m.system _ (sys (errno code)) refl v on).0;
}

-- On Windows, when the poller is at the head of its loop, the watcher's loop waits, and neither is
-- closed: an error of WSAPoll other than WSAEINTR, with a poll set that is not empty, leads in at
-- most four steps to a state in which both have ended and WaitIO returns this error.
pub wsa_poll-Fails :
    (k : Kernel) (m : Machine windows) (code : ℕ)
    → Sync m
    → m.stage ≡ top
    → m.worker ≡ idle
    → m.system.poller_closed ≡ false
    → m.system.watcher.die ≡ false
    → Inv m.system.watcher
    → (length m.state.table.poll_fds == 0 || code == wsaeintr) ≡ false
    → Fails k 4 m (sys (errno code))
wsa_poll-Fails k m code v t w still on inv h =
    let built = built-Fails k m code (at_top_channel v.flight t) w inv on in
    let r = subst (λ n. Fails k 3 n (sys (errno code))) (sym (wsa_fails m code h)) built in
    let st : Move windows k m (poll windows m (socket_error code)) =
      polls (socket_error code) t still in
    record {
      last = r.last;
      run = first st r.run;
      short = omega (arith, steps-first st r.run, r.short);
      ended = r.ended;
      gone = r.gone;
      error = r.error;
    }
