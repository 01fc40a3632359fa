-- ===== src/System/Close.antt =====
-- Close (watcher.go) and what is left after it.
use gaio.Common.{
  ℕ, suc, ◌≡◌, refl, ap, if◌then◌else◌, ◌∙◌, true, false, Bool, Option, none, some, arith, [],
}
use gaio.Types.{watcher_closed}
use gaio.Kernel.{Kernel}
use gaio.System.{System, Request, stop, aio_create, create_at, submit, get_cb}
use gaio.System.Collect.{Waited, closed, closed_error, recycle, take_results, wait_io}
use gaio.System.Loop.{
  shut_down, on_die, close_watcher, on_pending, on_signal, on_timer, on_gc, finalize,
}
use gaio.System.Step.{
  Step, request, wait, pending, events, timer, gc, final, close, Reach, here, next,
}
use gaio.System.Places.{IsSafe}
use gaio.System.Safety.{Step-IsSafe, stop-IsSafe}
use gaio.System.Open.{Step-closed}
use gaio.System.Shutdown.{Ended, shut_down-Ended}
use gaio.System.Results.{refuses}

-- `t` is the end of `s`: nothing is registered or queued, every duplicate is closed, WaitIO says
-- so, every request for a connection is refused, the poller is told to end, and another Close
-- changes nothing.
pub record IsClosed (k : Kernel) (s t : System) : Type 0 where
  pub ended : Ended s t
  pub waits :
      (prefer : Bool) → wait_io prefer t ≡ some (recycle t, closed (closed_error s.poller_err))
  pub refused :
      (pick conn : ℕ) (r : Request)
      → (aio_create pick t r (some (suc conn))).1 ≡ some watcher_closed
  pub poller : t.poller_closed ≡ true
  pub again : close_watcher k t ≡ t

wait_io-poller :
    (prefer : Bool) (s t : System) (x : Waited)
    → wait_io prefer s ≡ some (t, x)
    → t.poller_closed ≡ s.poller_closed
unfolding wait_io recycle take_results
wait_io-poller prefer s t x e = ground arith

aio_create-poller :
    (pick : ℕ) (s : System) (r : Request) (conn : Option ℕ)
    → (aio_create pick s r conn).0.poller_closed ≡ s.poller_closed
unfolding aio_create create_at submit get_cb
aio_create-poller pick s r none = refl
aio_create-poller pick s r (some ptr) = ground arith

-- Once the poller is told to end, it stays so.
Step-poller_closed :
    {k : Kernel} {s t : System} → Step k s t → s.poller_closed ≡ true → t.poller_closed ≡ true
unfolding on_signal on_timer on_gc finalize stop on_pending
Step-poller_closed (request {s} pick r conn proper) h = aio_create-poller pick s r conn ∙ h
Step-poller_closed (wait {s} {t} {x} prefer e) h = wait_io-poller prefer s t x e ∙ h
Step-poller_closed (pending {s} e) h = h
Step-poller_closed (events {s} sig e) h = rw e h
Step-poller_closed (timer {s} now) h = h
Step-poller_closed (gc {s} e) h = h
Step-poller_closed (final {s} c u) h = h
Step-poller_closed (close {s}) h = ground arith

closed-wait_io :
    (prefer : Bool) (t : System)
    → t.watcher.results ≡ []
    → t.loop_done ≡ true
    → wait_io prefer t ≡ some (recycle t, closed (closed_error t.poller_err))
unfolding wait_io
closed-wait_io prefer t empty done = ground arith

-- `stop` on an open watcher.
abbrev stopped : System → System
stopped s = record s { watcher = record (s.watcher) { die = true }; poller_closed = true }

stop-stopped : (s : System) → s.watcher.die ≡ false → stop s ≡ stopped s
unfolding stop
stop-stopped s on = ap (λ b. if b then s else stopped s) on

pub stop_again : (t : System) → t.watcher.die ≡ true → stop t ≡ t
unfolding stop
stop_again t off = ap (λ b. if b then t else stopped t) off

close_ended :
    (k : Kernel) (t : System) → t.loop_done ≡ true → t.watcher.die ≡ true → close_watcher k t ≡ t
unfolding close_watcher
close_ended k t done off = ap (λ b. if b then stop t else on_die k (stop t)) done ∙ stop_again t off

-- What every step after `stop` keeps.
record Stopped (s : System) : Type 0 where
  safe : IsSafe s
  off : s.watcher.die ≡ true
  poller : s.poller_closed ≡ true

stop-Stopped : (s : System) → IsSafe s → s.watcher.die ≡ false → Stopped (stop s)
stop-Stopped s v on = record {
  safe = stop-IsSafe s v;
  off = ap (λ (t : System). t.watcher.die) (stop-stopped s on);
  poller = ap (λ (t : System). t.poller_closed) (stop-stopped s on);
}

Reach-Stopped : {k : Kernel} {s t : System} → Reach k s t → Stopped s → Stopped t
Reach-Stopped here v = v
Reach-Stopped {k} (next r st) v =
    let m = Reach-Stopped r v in
    record {
      safe = Step-IsSafe k st m.safe;
      off = Step-closed k st m.safe m.off;
      poller = Step-poller_closed st m.poller;
    }

-- On an open watcher in a safe state, Close may be followed by any steps, among them cases of the
-- loop, until the loop takes the case for `die`. Then each descriptor that is registered at that
-- time is closed, once each and in any order, and no other; both maps, the heap, chResults and
-- pendingCreate are empty and the poller is told to end; WaitIO returns the poller's error, if there
-- was one, or else ErrWatcherClosed; a request for a connection, one that is not nil, is refused
-- with ErrWatcherClosed; and another Close changes nothing.
pub close-IsClosed :
    (k : Kernel) (s s' : System)
    → IsSafe s
    → s.watcher.die ≡ false
    → Reach k (stop s) s'
    → IsClosed k s' (on_die k s')
unfolding on_die shut_down
close-IsClosed k s s' v on r =
    let m = Reach-Stopped r (stop-Stopped s v on) in
    let t = shut_down k s' in
    let ended = shut_down-Ended k s' m.safe.inv in
    let off = ended.die ∙ m.off in
    record {
      ended = ended;
      waits = λ prefer. closed-wait_io prefer t ended.results ended.done;
      refused = λ pick conn r. refuses pick conn t r off;
      poller = m.poller;
      again = close_ended k t ended.done off;
    }
