-- ===== src/System/Results.antt =====
-- WaitIO (watcher.go) on an open watcher with results, and after an error of the poller.
use gaio.Common.{
  ℕ, suc, ◌<◌, ◌≡◌, refl, Bool, true, false, List, [], ◌∷◌, some, map, arith, length, count-append,
}
use gaio.Types.{Error, watcher_closed, Signal}
use gaio.Kernel.{Kernel}
use gaio.Watcher.{Watcher, cb_of, set_cb}
use gaio.Watcher.Invariant.Refit.{close-Inv}
use gaio.Watcher.Invariant.{Inv}
use gaio.System.{System, Request, stop, aio_create, create_at, submit, get_cb}
use gaio.System.Collect.{
  Waited, returned, closed, result_of, clear_refs, recycle, take_results, wait_io,
}
use gaio.System.Loop.{on_signal, shut_down}
use gaio.System.Places.{places}
use gaio.System.Shutdown.{shut_down-Ended}

clear_refs-keeps :
    (w : Watcher) (ps : List ℕ)
    → ((clear_refs w ps).descs ≡ w.descs) × ((clear_refs w ps).die ≡ w.die)
unfolding clear_refs
clear_refs-keeps w [] = (refl, refl)
clear_refs-keeps w (p ∷ ps) =
    clear_refs-keeps (set_cb w p (record (cb_of w p) { ctx = 0; conn = 0 })) ps

-- `x` is all that is queued in `s`, in order, and `t` is `s` without it.
pub record Collected (s : System) (t : System) (x : Waited) : Type 0 where
  pub all : x ≡ returned (map (λ p. result_of (cb_of s.watcher p)) s.watcher.results)
  pub empty : t.watcher.results ≡ []
  pub recycles : t.recycles ≡ s.watcher.results
  pub places : (p : ℕ) → places t p ≡ places s p
  pub token : t.watcher.shared.should_swap ≡ true

take_results-Collected :
    (s : System) → Collected s (take_results (recycle s)).0 (take_results (recycle s)).1
unfolding take_results recycle
take_results-Collected s = record {
  all = refl;
  empty = refl;
  recycles = refl;
  places = λ p.
      let same = (clear_refs-keeps s.watcher s.watcher.results).0 in
      rw same (omega (arith, count-append p s.recycles s.pool));
  token = refl;
}

-- On an open watcher with a result in chResults, WaitIO returns at once; its list is the results of
-- all that is queued, in order; chResults is empty afterwards, exactly these requests are the
-- recycles of the next call, every request is in as many places as before, and the token for the
-- rotation of the buffers is put.
pub wait_io-Collected :
    (prefer : Bool) (s : System)
    → s.watcher.die ≡ false
    → s.loop_done ≡ false
    → 0 < length s.watcher.results
    → (t : System) × (x : Waited) × (wait_io prefer s ≡ some (t, x)) × Collected s t x
unfolding wait_io
wait_io-Collected prefer s on going some_there =
    let r = take_results (recycle s) in (r.0, r.1, ground arith, take_results-Collected s)

-- Where the loop has ended on an error.
pub ended-wait_io :
    (prefer : Bool) (t : System) (e : Error)
    → t.watcher.results ≡ []
    → t.loop_done ≡ true
    → t.poller_err ≡ some e
    → wait_io prefer t ≡ some (recycle t, closed e)
unfolding wait_io
ended-wait_io prefer t e empty done err = ground arith

-- A closed watcher refuses every request.
pub refuses :
    (pick conn : ℕ) (t : System) (r : Request)
    → t.watcher.die ≡ true
    → (aio_create pick t r (some (suc conn))).1 ≡ some watcher_closed
unfolding aio_create create_at submit get_cb
refuses pick conn t r off = ground arith

module _ (k : Kernel) where
  -- On an open watcher whose invariant holds, an error from the poller ends the loop such that
  -- WaitIO then returns this error and every request that is submitted for a connection, one that is
  -- not nil, is refused with ErrWatcherClosed.
  pub on_signal_fails :
      (s : System) (sig : Signal) (e : Error)
      → sig.err ≡ some e
      → Inv s.watcher
      → s.watcher.die ≡ false
      → let t = on_signal k s sig in
        ((prefer : Bool) → wait_io prefer t ≡ some (recycle t, closed e))
        × ((pick conn : ℕ) (r : Request)
            → (aio_create pick t r (some (suc conn))).1 ≡ some watcher_closed)
  unfolding on_signal stop shut_down
  on_signal_fails s sig e err v on =
      let s1 : System = record s {
        watcher = record (s.watcher) { die = true };
        poller_err = some e;
        poller_closed = true;
      } in
      let ended = shut_down-Ended k s1 (close-Inv s.watcher v) in
      rw (err, on)
        (
          (λ prefer. ended-wait_io prefer (shut_down k s1) e ended.results ended.done refl),
          (λ pick conn r. refuses pick conn (shut_down k s1) r ended.die),
        )
