-- ===== src/System/Open.antt =====
-- What the steps of the watcher (watcher.go) leave of the recycles and of `die`.
use gaio.Common.{
  ℕ, ◌≡◌, refl, sym, ap, subst, ◌∙◌, ◌⊎◌, inl, inr, Bool, true, false, List, [], ◌∷◌, Option, none,
  some, arith, if_both, ◌||◌, ◌==◌, Bool-cases, length,
}
use gaio.Kernel.{Kernel}
use gaio.Watcher.{Watcher, cb_of, set_cb}
use gaio.Watcher.Invariant.{Frame-aside}
use gaio.Watcher.Keeps.{Keeps-trans, Frame-Keeps, handle_events-Keeps}
use gaio.Watcher.Keeps.Release.{handle_gc-Keeps}
use gaio.Watcher.Keeps.Expiry.{expire-Expired}
use gaio.Watcher.Keeps.Batch.{handle_pending-Batched}
use gaio.System.{System, Request, aio_create, create_at, submit, get_cb, stop}
use gaio.System.Collect.{Waited, recycle, take_results, wait_io, clear_refs}
use gaio.System.Loop.{finalize, on_pending, on_signal, on_timer, on_gc}
use gaio.System.Step.{Step, request, wait, pending, events, timer, gc, final, close}
use gaio.System.Places.{IsSafe}
use gaio.System.Safety.{pending-IsBatch}

pub get_cb-recycles : (pick : ℕ) (s : System) → (get_cb pick s).1.recycles ≡ s.recycles
unfolding get_cb
get_cb-recycles pick s = ground arith

aio_create-recycles :
    (pick : ℕ) (s : System) (r : Request) (conn : Option ℕ)
    → (aio_create pick s r conn).0.recycles ≡ s.recycles
unfolding aio_create create_at submit
aio_create-recycles pick s r none = refl
aio_create-recycles pick s r (some ptr) = ground (arith, get_cb-recycles pick s)

-- A step is a call of WaitIO, or leaves the recycles alone.
pub Step-recycles :
    {k : Kernel} {s t : System}
    → Step k s t
    → (t.recycles ≡ s.recycles)
      ⊎ ((prefer : Bool) × (x : Waited) × (wait_io prefer s ≡ some (t, x)))
unfolding on_signal on_timer on_gc finalize stop on_pending
Step-recycles (request {s} pick r conn proper) = inl (aio_create-recycles pick s r conn)
Step-recycles (wait {s} {t} {x} prefer e) = inr (prefer, x, e)
Step-recycles (pending {s} e) = inl refl
Step-recycles (events {s} sig e) = inl (rw e refl)
Step-recycles (timer {s} now) = inl refl
Step-recycles (gc {s} e) = inl refl
Step-recycles (final {s} c u) = inl refl
Step-recycles (close {s}) =
    inl (if_both (λ (t : System). t.recycles ≡ s.recycles) s.watcher.die _ _ refl refl)

abbrev WaitDie : Bool → Option (System × Waited) → Type 0
WaitDie b none = Unit {0}
WaitDie b (some (t, x)) = t.watcher.die ≡ b

clear_refs-die : (w : Watcher) (ps : List ℕ) → (clear_refs w ps).die ≡ w.die
unfolding clear_refs
clear_refs-die w [] = refl
clear_refs-die w (q ∷ ps) =
    clear_refs-die (set_cb w q (record (cb_of w q) { ctx = 0; conn = 0 })) ps

wait_io-die : (prefer : Bool) (s : System) → WaitDie s.watcher.die (wait_io prefer s)
unfolding wait_io recycle take_results
wait_io-die prefer s =
    let taken = clear_refs-die s.watcher s.watcher.results in
    if_both (WaitDie s.watcher.die) (length s.watcher.results == 0) _ _
      (if_both (WaitDie s.watcher.die) (s.watcher.die || s.loop_done) _ _ refl tt)
      (if_both (WaitDie s.watcher.die) (s.watcher.die || s.loop_done) _ _
        (if_both (WaitDie s.watcher.die) prefer _ _ taken refl) taken)

pub get_cb-watcher : (pick : ℕ) (s : System) → (get_cb pick s).1.watcher ≡ s.watcher
unfolding get_cb
get_cb-watcher pick s = ground arith

pub aio_create-die :
    (pick : ℕ) (s : System) (r : Request) (conn : Option ℕ)
    → (aio_create pick s r conn).0.watcher.die ≡ s.watcher.die
unfolding aio_create create_at submit
aio_create-die pick s r none = refl
aio_create-die pick s r (some ptr) =
    let same : (get_cb pick s).1.watcher.die ≡ s.watcher.die =
      ap (λ (w : Watcher). w.die) (get_cb-watcher pick s) in
    ground (arith, same)

module _ (k : Kernel) where
  -- A watcher that is open after a step was open before.
  pub Step-open :
      {s t : System} → Step k s t → IsSafe s → t.watcher.die ≡ false → s.watcher.die ≡ false
  unfolding on_signal on_timer on_gc finalize stop on_pending
  Step-open (request {s} pick r conn proper) v on = sym (aio_create-die pick s r conn) ∙ on
  Step-open (wait {s} {t} {x} prefer e) v on =
      sym (subst (WaitDie s.watcher.die) e (wait_io-die prefer s)) ∙ on
  Step-open (pending {s} e) v on =
      sym (handle_pending-Batched k s.watcher s.pending_create v.inv (pending-IsBatch s v)).die ∙ on
  Step-open (events {s} sig e) v on =
      let on' = rw e at on in sym (handle_events-Keeps k s.watcher sig.events v.inv).die ∙ on'
  Step-open (timer {s} now) v on =
      let a = Frame-Keeps v.inv (Frame-aside refl refl refl refl refl) in
      sym (Keeps-trans a (expire-Expired k s.watcher now v.inv).keeps).die ∙ on
  Step-open (gc {s} e) v on =
      let a = Frame-Keeps v.inv (Frame-aside refl refl refl refl refl) in
      sym (Keeps-trans a (handle_gc-Keeps k _ a.inv)).die ∙ on
  Step-open (final {s} c u) v on = on
  Step-open (close {s}) v on = elim (Bool-cases s.watcher.die) [
    | inl off ↦ absurd (ground arith)
    | inr open_before ↦ open_before
  ]

  -- A step leaves a closed watcher closed.
  pub Step-closed :
      {s t : System} → Step k s t → IsSafe s → s.watcher.die ≡ true → t.watcher.die ≡ true
  Step-closed {s} {t} st v off = elim (Bool-cases t.watcher.die) [
    | inl still ↦ still
    | inr on ↦ let before = Step-open st v on in cc
  ]
