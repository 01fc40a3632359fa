-- ===== src/System/Safety.antt =====
-- The invariant of the whole watcher (watcher.go) over the steps of System.Step.
use gaio.Common.{
  ℕ, ◌<◌, ◌≡◌, refl, subst, lookup, ◌||◌, Bool, true, List, [], ◌∷◌, Option, none, some, arith,
  ◌==◌, count, count-append, if_both, length,
}
use gaio.Types.{Side, readers, writers}
use gaio.Kernel.{Kernel}
use gaio.Watcher.{Watcher, cb_of, set_cb, queue_of, or_empty}
use gaio.Watcher.Invariant.{Frame, Frame-aside}
use gaio.Watcher.Invariant.Refit.{Refits, Refits-Inv, close-Inv, Refits-refl, Refits-trans}
use gaio.Watcher.Keeps.{Frame-Keeps, Keeps-trans, handle_events-Keeps}
use gaio.Watcher.Keeps.Release.{handle_gc-Keeps}
use gaio.Watcher.Keeps.Expiry.{expire-Expired}
use gaio.Watcher.Keeps.Batch.{IsBatch, handle_pending-Batched}
use gaio.System.{System, new_watcher_size, stop}
use gaio.System.Collect.{Waited, clear_refs, recycle, take_results, wait_io}
use gaio.System.Loop.{finalize, on_pending, on_signal, on_timer, on_gc}
use gaio.System.Step.{
  Step, request, wait, pending, events, timer, gc, final, close, Reach, here, next,
}
use gaio.System.Places.{IsSafe, Keeps-IsSafe, aio_create-IsSafe}

pub clear_refs-Refits : (w : Watcher) (ps : List ℕ) → Refits w (clear_refs w ps)
unfolding clear_refs
clear_refs-Refits w [] = Refits-refl w
clear_refs-Refits w (p ∷ ps) =
    let w1 = set_cb w p (record (cb_of w p) { ctx = 0; conn = 0 }) in
    Refits-trans {w' = w1}
      (record {
        arr = refl;
        idx = λ q. ground arith;
        place = λ q h. ground arith;
        deadline = λ q h. ground arith;
        descs = refl;
        conn_idents = refl;
        results = λ q. omega arith;
      })
      (clear_refs-Refits w1 ps)

pub clear_refs-op :
    (w : Watcher) (ps : List ℕ) (q : ℕ)
    → ((cb_of (clear_refs w ps) q).op ≡ (cb_of w q).op)
      × ((cb_of (clear_refs w ps) q).deadline ≡ (cb_of w q).deadline)
unfolding clear_refs
clear_refs-op w [] q = (refl, refl)
clear_refs-op w (p ∷ ps) q =
    ground (arith, clear_refs-op (set_cb w p (record (cb_of w p) { ctx = 0; conn = 0 })) ps q)

-- WaitIO's results move to the caller; those of the last call go back to the pool.
recycle-IsSafe : (s : System) → IsSafe s → IsSafe (recycle s)
unfolding recycle
recycle-IsSafe s v = record {
  inv = v.inv;
  unique = λ p. omega (arith, v.unique p, count-append p s.recycles s.pool);
  unused = λ p h. omega (arith, v.unused p h, count-append p s.recycles s.pool);
  frees = v.frees;
}

take_results-IsSafe : (s : System) → IsSafe s → IsSafe (take_results s).0
unfolding take_results
take_results-IsSafe s v =
    let w = s.watcher in
    let w1 = clear_refs w w.results in
    let w2 = record w1 { results = []; shared = record (w1.shared) { should_swap = true } } in
    let f = clear_refs-Refits w w.results in
    let moved = λ (q : ℕ). count-append q s.recycles w.results in
    let emptied : Refits w1 w2 = record {
      arr = refl;
      idx = λ p. refl;
      place = λ p h. refl;
      deadline = λ p h. refl;
      descs = refl;
      conn_idents = refl;
      results = λ p. omega arith;
    } in
    record {
      inv = Refits-Inv (Refits-trans f emptied) v.inv;
      unique = λ p. rw f.descs (omega (arith, v.unique p, moved p));
      unused = λ p h. rw f.descs (omega (arith, v.unused p h, moved p));
      frees = λ p h. ground (arith, clear_refs-op w w.results p, v.frees p h);
    }

abbrev SafeWait : Option (System × Waited) → Type 0
SafeWait none = Unit {0}
SafeWait (some (t, x)) = IsSafe t

wait_io-SafeWait : (prefer : Bool) (s : System) → IsSafe s → SafeWait (wait_io prefer s)
unfolding wait_io
wait_io-SafeWait prefer s v =
    let r = recycle-IsSafe s v in
    let a = take_results-IsSafe (recycle s) r in
    if_both SafeWait (length s.watcher.results == 0) _ _
      (if_both SafeWait (s.watcher.die || s.loop_done) _ _ r tt)
      (if_both SafeWait (s.watcher.die || s.loop_done) _ _ (if_both SafeWait prefer _ _ a r) a)

wait_io-IsSafe :
    (prefer : Bool) (s t : System) (x : Waited)
    → IsSafe s
    → wait_io prefer s ≡ some (t, x)
    → IsSafe t
wait_io-IsSafe prefer s t x v e = subst SafeWait e (wait_io-SafeWait prefer s v)

aside-IsSafe :
    (s : System) (w : Watcher) → IsSafe s → Frame s.watcher w → IsSafe (record s { watcher = w })
aside-IsSafe s w v f = Keeps-IsSafe s w v (Frame-Keeps v.inv f)

pub stop-IsSafe : (s : System) → IsSafe s → IsSafe (stop s)
unfolding stop
stop-IsSafe s v = if_both IsSafe s.watcher.die _ _ v (record {
  inv = close-Inv s.watcher v.inv;
  unique = v.unique;
  unused = v.unused;
  frees = v.frees;
})

-- What waits in pendingCreate is new to the loop.
pub pending-IsBatch : (s : System) → IsSafe s → IsBatch s.watcher s.pending_create
pending-IsBatch s v = record {
  new = λ q h. record { nowhere = omega (arith, v.unique q); frees = v.frees q h };
  distinct = λ q. omega (arith, v.unique q);
}

module _ (k : Kernel) where
  on_pending-IsSafe : (s : System) → IsSafe s → IsSafe (on_pending k s)
  unfolding on_pending
  on_pending-IsSafe s v =
      let b = handle_pending-Batched k s.watcher s.pending_create v.inv (pending-IsBatch s v) in
      record {
        inv = b.inv;
        unique = λ q. omega (arith, b.no_more q, v.unique q);
        unused = λ q h. omega (arith, b.no_more q, v.unused q h);
        frees = λ q h. absurd (omega arith);
      }

  -- One step of the state machine keeps the state safe.
  pub Step-IsSafe : {s t : System} → Step k s t → IsSafe s → IsSafe t
  unfolding on_signal on_timer on_gc finalize stop
  Step-IsSafe (request {s} pick r conn proper) v = aio_create-IsSafe pick s r conn proper v
  Step-IsSafe (wait {s} {t} {x} prefer e) v = wait_io-IsSafe prefer s t x v e
  Step-IsSafe (pending {s} e) v = on_pending-IsSafe s v
  Step-IsSafe (events {s} sig e) v =
      rw e (Keeps-IsSafe s _ v (handle_events-Keeps k s.watcher sig.events v.inv))
  Step-IsSafe (timer {s} now) v =
      let a = Frame-Keeps v.inv (Frame-aside refl refl refl refl refl) in
      Keeps-IsSafe s _ v (Keeps-trans a (expire-Expired k s.watcher now v.inv).keeps)
  Step-IsSafe (gc {s} e) v =
      let a = Frame-Keeps v.inv (Frame-aside refl refl refl refl refl) in
      Keeps-IsSafe s _ v (Keeps-trans a (handle_gc-Keeps k _ a.inv))
  Step-IsSafe (final {s} c u) v = aside-IsSafe s _ v (Frame-aside refl refl refl refl refl)
  Step-IsSafe (close {s}) v = stop-IsSafe s v

  -- For any kernel, every state that steps lead to from a safe state is safe; a step is a call of
  -- aioCreate (of Free without a deadline), a WaitIO that returns, a case of the loop that does not
  -- end it, the finalizer of a connection that no request holds, or stop, in any order. Safe means
  -- that the watcher's invariant holds, that each request is in one place at most among
  -- pendingCreate, the queues, chResults, the recycles and the pool, that no address that was never
  -- given out is in any, and that a submitted Free has no deadline.
  pub Reach-IsSafe : {s t : System} → IsSafe s → Reach k s t → IsSafe t
  Reach-IsSafe v here = v
  Reach-IsSafe v (next r st) = Step-IsSafe st (Reach-IsSafe v r)

-- A new watcher, of any buffer size, is in a safe state.
pub new-IsSafe : (bufsize : ℕ) → IsSafe (new_watcher_size bufsize)
unfolding new_watcher_size lookup
new-IsSafe bufsize = record {
  inv = record {
    heap = record {
      tracks = record { fwd = λ i h. absurd (omega arith); bwd = λ p i e. cc };
      order = λ c p q. absurd (omega arith);
    };
    once = λ p. omega arith;
    placed = λ p fd side h. absurd (no_queue p side h);
    waiting = λ p h. cc;
    armed = λ p h. absurd (omega arith);
    idents = λ ptr fd e. cc;
    owners = λ fd d e. cc;
    single = λ fd. omega arith;
  };
  unique = λ p. omega arith;
  unused = λ p h. omega arith;
  frees = λ p h. absurd (omega arith);
}
  where
    no_queue : (p : ℕ) (side : Side) → 0 < count p (queue_of side (or_empty none)) → ⊥
    no_queue p readers h = omega arith
    no_queue p writers h = omega arith
