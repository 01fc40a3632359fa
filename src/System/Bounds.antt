-- ===== src/System/Bounds.antt =====
-- The bounds of the slices that tryRead and tryWrite take, over the steps of the whole watcher
-- (watcher.go).
use gaio.Common.{
  ℕ, refl, subst, Bool, List, [], ◌∷◌, Option, none, some, arith, if_both, ◌||◌, ◌==◌, length,
}
use gaio.Types.{Error}
use gaio.Kernel.{Kernel}
use gaio.Watcher.{Watcher, cb_of, set_cb}
use gaio.Watcher.Sized.{Sized}
use gaio.Watcher.Sized.Handled.{Sized-timed, set_cb-Sized, handle_pending-Sized}
use gaio.Watcher.Sized.Served.{handle_events-Sized, handle_gc-Sized, expire-Sized}
use gaio.System.{
  System, Request, new_cb, get_cb, aio_create, create_at, submit, stop, new_watcher_size,
}
use gaio.System.Collect.{Waited, clear_refs, recycle, take_results, wait_io}
use gaio.System.Open.{get_cb-watcher}
use gaio.System.Loop.{finalize, on_pending, on_signal, on_timer, on_gc}
use gaio.System.Step.{
  Step, request, wait, pending, events, timer, gc, final, close, Reach, here, next,
}

submit-Sized :
    (p : ℕ) (s : System) (r : Request) (ptr : ℕ)
    → Sized s.watcher
    → Sized (submit p s r ptr).0.watcher
unfolding submit
submit-Sized p s r ptr v =
    let w = set_cb-Sized s.watcher p (new_cb r ptr) v (λ h. omega arith) in
    if_both (λ (x : System × Option Error). Sized x.0.watcher) s.watcher.die _ _ w w

clear_refs-Sized : (w : Watcher) (ps : List ℕ) → Sized w → Sized (clear_refs w ps)
unfolding clear_refs
clear_refs-Sized w [] v = v
clear_refs-Sized w (p ∷ ps) v =
    let cb = record (cb_of w p) { ctx = 0; conn = 0 } in
    clear_refs-Sized (set_cb w p cb) ps (set_cb-Sized w p cb v (v.fits p))

take_results-Sized : (s : System) → Sized s.watcher → Sized (take_results (recycle s)).0.watcher
unfolding take_results recycle
take_results-Sized s v =
    let c = clear_refs-Sized s.watcher s.watcher.results v in
    record { fits = c.fits; shared = c.shared }

abbrev SizedWait : Option (System × Waited) → Type 0
SizedWait none = Unit {0}
SizedWait (some (t, x)) = Sized t.watcher

wait_io-Sized : (prefer : Bool) (s : System) → Sized s.watcher → SizedWait (wait_io prefer s)
unfolding wait_io recycle
wait_io-Sized prefer s v =
    let a = take_results-Sized s v in
    if_both SizedWait (length s.watcher.results == 0) _ _
      (if_both SizedWait (s.watcher.die || s.loop_done) _ _ v tt)
      (if_both SizedWait (s.watcher.die || s.loop_done) _ _ (if_both SizedWait prefer _ _ a v) a)

module _ (k : Kernel) where
  Step-Sized : {s t : System} → Step k s t → Sized s.watcher → Sized t.watcher
  unfolding on_signal on_timer on_gc finalize stop on_pending aio_create create_at
  Step-Sized (request {s} pick r none proper) v = v
  Step-Sized (request {s} pick r (some ptr) proper) v =
      let x = get_cb pick s in
      if_both (λ (x : System × Option Error). Sized x.0.watcher) (ptr == 0) _ _ v
        (submit-Sized x.0 x.1 r ptr (rw (get_cb-watcher pick s) v))
  Step-Sized (wait {s} prefer e) v = subst SizedWait e (wait_io-Sized prefer s v)
  Step-Sized (pending {s} e) v = handle_pending-Sized k s.watcher s.pending_create v
  Step-Sized (events {s} sig e) v = rw e (handle_events-Sized k s.watcher sig.events v)
  Step-Sized (timer {s} now) v = expire-Sized k s.watcher now v
  Step-Sized (gc {s} e) v = handle_gc-Sized k _ (Sized-timed v (λ q. refl) refl)
  Step-Sized (final {s} c u) v = Sized-timed v (λ q. refl) refl
  Step-Sized (close {s}) v =
      if_both (λ (t : System). Sized t.watcher) s.watcher.die _ _ v (Sized-timed v (λ q. refl) refl)

  new-Sized : (bufsize : ℕ) → Sized (new_watcher_size bufsize).watcher
  unfolding new_watcher_size
  new-Sized bufsize = record { fits = λ p h. omega arith; shared = omega arith }

  Steps-Sized : {s t : System} → Reach k s t → Sized s.watcher → Sized t.watcher
  Steps-Sized here v = v
  Steps-Sized (next r st) v = Step-Sized st (Steps-Sized r v)

  -- From a new watcher of any size, for any kernel, in every state that steps lead to: each
  -- request's size is within its buffer (a ReadFull without a buffer, which the API refuses, is left
  -- out), and the offset into the front shared buffer is within the size of the buffer, so that the
  -- slices of tryRead and tryWrite are in bounds.
  pub Reach-Sized :
      (bufsize : ℕ) (s : System) → Reach k (new_watcher_size bufsize) s → Sized s.watcher
  Reach-Sized bufsize s r = Steps-Sized r (new-Sized bufsize)
