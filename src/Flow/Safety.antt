-- ===== src/Flow/Safety.antt =====
-- The invariant of the goroutines' steps (watcher.go).

use gaio.Common.{
  ℕ, ◌≡◌, refl, ap, false, List, [], ◌∷◌, ◌++◌, none, arith, count, count-append, Bool-cases, inl,
  inr,
}
use gaio.Kernel.{Kernel}
use gaio.Watcher.{Watcher, cb_of}
use gaio.Watcher.Invariant.{Frame-aside}
use gaio.Watcher.Invariant.Refit.{Refits-Inv, Refits-trans}
use gaio.Watcher.Keeps.{Frame-Keeps}
use gaio.Flow.{
  Flow, new_flow, take_pending, take_timer, take_gc, put, call, receive, give_back, Turn, piece,
  send, enter, first, more, give, Move, turn, request, final, close, pending, events, timer, gc,
  drop, give_up, Moves, here, next,
}
use gaio.Flow.Jobs.{idle, eventing}
use gaio.Flow.Pieces.{Fits}
use gaio.Flow.Whole.{
  whole, IsSound, Smaller-IsSafe, same_watcher, results-IsSafe, advance-IsSound, whole-create,
  create-descs, Fits-descs,
}
use gaio.System.{System, new_watcher_size, aio_create, stop}
use gaio.System.Collect.{clear_refs}
use gaio.System.Loop.{finalize}
use gaio.System.Places.{IsSafe, Keeps-IsSafe, aio_create-IsSafe}
use gaio.System.Safety.{clear_refs-Refits, clear_refs-op, stop-IsSafe, new-IsSafe}

whole-stop : (f : Flow) → whole (record f { system = stop f.system }) ≡ stop (whole f)
unfolding stop
whole-stop f = elim (Bool-cases f.system.watcher.die) [
  | inl off ↦ rw off refl
  | inr on ↦ rw on refl
]

stop-descs : (s : System) → (stop s).watcher.descs ≡ s.watcher.descs
unfolding stop
stop-descs s = ground arith

receive-Fits :
    (f : Flow) (p : ℕ) (ps : List ℕ)
    → Fits f.system.watcher f.job
    → Fits (receive f p ps).system.watcher (receive f p ps).job
unfolding receive clear_refs
receive-Fits f p ps h = Fits-descs f.system.watcher (receive f p ps).system.watcher f.job refl h

-- A receive moves a request from chResults to the recycles.
receive-IsSafe :
    (f : Flow) (p : ℕ) (ps : List ℕ)
    → f.system.watcher.results ≡ p ∷ ps
    → IsSafe (whole f)
    → IsSafe (whole (receive f p ps))
unfolding receive clear_refs
receive-IsSafe f p ps e v =
    let w = f.system.watcher in
    let c = record (cb_of w p) { ctx = 0; conn = 0 } in
    let r = clear_refs-Refits (whole f).watcher (p ∷ []) in
    let less = λ (q : ℕ). ap (λ rs. count q rs) e in
    let here = λ (q : ℕ). count-append q w.results f.outbox in
    let there = λ (q : ℕ). count-append q ps f.outbox in
    let moved = λ (q : ℕ). count-append q f.system.recycles (p ∷ []) in
    Smaller-IsSafe (whole f) _ v (record {
      inv =
          Refits-Inv
            (Refits-trans r (record {
              arr = refl;
              idx = λ q. refl;
              place = λ q h. refl;
              deadline = λ q h. refl;
              descs = refl;
              conn_idents = refl;
              results = λ q. omega (arith, less q, here q, there q);
            }))
            v.inv;
      places = λ q. omega (arith, less q, here q, there q, moved q);
      unused = refl;
      submitted = λ q. omega arith;
      ops = λ q. clear_refs-op (whole f).watcher (p ∷ []) q;
    })

call-IsSafe : (f : Flow) → IsSafe (whole f) → IsSafe (whole (call f))
unfolding call
call-IsSafe f v =
    let s = f.system in
    same_watcher (whole f) _ v refl (λ q. refl)
      (λ q. omega (arith, count-append q s.recycles s.pool)) refl

-- The watcher differs in what the invariant does not read.
aside-IsSafe :
    (s : System) (w : Watcher)
    → IsSafe s
    → w.timed ≡ s.watcher.timed
    → w.descs ≡ s.watcher.descs
    → w.conn_idents ≡ s.watcher.conn_idents
    → w.results ≡ s.watcher.results
    → w.die ≡ s.watcher.die
    → IsSafe (record s { watcher = w })
aside-IsSafe s w v t d c r e = Keeps-IsSafe s w v (Frame-Keeps v.inv (Frame-aside t d c r e))

-- The handler is new: what it has to do is in no place that the whole had.
job-IsSafe :
    (f g : Flow)
    → IsSafe (whole f)
    → (whole g).watcher ≡ (whole f).watcher
    → ((q : ℕ) → count q (whole g).pending_create ≡ count q (whole f).pending_create)
    → g.system.recycles ≡ f.system.recycles
    → g.system.pool ≡ f.system.pool
    → g.system.next ≡ f.system.next
    → IsSafe (whole g)
job-IsSafe f g v w c r p n = same_watcher (whole f) (whole g) v w c (λ q. rw (r, p) (omega arith)) n

take_pending-IsSafe : (f : Flow) → f.job ≡ idle → IsSafe (whole f) → IsSafe (whole (take_pending f))
take_pending-IsSafe f e v =
    job-IsSafe f (take_pending f) v refl
      (λ q. let pc = f.system.pending_create in rw e (omega (arith, count-append q pc []))) refl
      refl refl

module _ (k : Kernel) (cap : ℕ) where
  pub Turn-IsSound : {f g : Flow} → Turn k cap f g → IsSound f → IsSound g
  unfolding call
  Turn-IsSound (piece {f} e busy) v = advance-IsSound k f v
  Turn-IsSound (send {f} p ps e room) v = record {
    safe = results-IsSafe (whole f) ((f.system.watcher.results ++ p ∷ []) ++ ps) v.safe (λ q.
        let w = f.system.watcher in
        rw e (
          omega (
            arith,
            count-append q w.results (p ∷ ps),
            count-append q (w.results ++ p ∷ []) ps,
            count-append q w.results (p ∷ []),
          )));
    fits = Fits-descs f.system.watcher (put f p ps).system.watcher f.job refl v.fits;
  }
  Turn-IsSound (enter {f} e) v = record { safe = call-IsSafe f v.safe; fits = v.fits }
  Turn-IsSound (first {f} p ps e r) v = record {
    safe = receive-IsSafe f p ps r v.safe;
    fits = receive-Fits f p ps v.fits;
  }
  Turn-IsSound (more {f} p ps e r) v = record {
    safe = receive-IsSafe f p ps r v.safe;
    fits = receive-Fits f p ps v.fits;
  }
  Turn-IsSound (give {f} e r) v = record {
    safe = aside-IsSafe (whole f) _ v.safe refl refl refl refl refl;
    fits = Fits-descs f.system.watcher (give_back f).system.watcher f.job refl v.fits;
  }

  pub Move-IsSound : {f g : Flow} → Move k cap f g → IsSound f → IsSound g
  unfolding finalize
  Move-IsSound (turn t) v = Turn-IsSound t v
  Move-IsSound (request {f} pick r conn proper) v = record {
    safe = rw (whole-create f pick r conn) (aio_create-IsSafe pick (whole f) r conn proper v.safe);
    fits =
        Fits-descs f.system.watcher (aio_create pick f.system r conn).0.watcher f.job
          (create-descs pick f.system r conn) v.fits;
  }
  Move-IsSound (final {f} c free u) v = record {
    safe = aside-IsSafe (whole f) _ v.safe refl refl refl refl refl;
    fits = Fits-descs f.system.watcher (finalize f.system c).watcher f.job refl v.fits;
  }
  Move-IsSound (close {f}) v = record {
    safe = rw (whole-stop f) (stop-IsSafe (whole f) v.safe);
    fits = Fits-descs f.system.watcher (stop f.system).watcher f.job (stop-descs f.system) v.fits;
  }
  Move-IsSound (pending {f} e n) v = record { safe = take_pending-IsSafe f e v.safe; fits = tt }
  Move-IsSound (events {f} es e) v = record {
    safe =
        job-IsSafe f (record f { job = eventing es }) v.safe refl (λ q. rw e refl) refl refl refl;
    fits = tt;
  }
  Move-IsSound (timer {f} now e) v = record {
    safe =
        job-IsSafe
          (record f {
            system = record (f.system) { watcher = record (f.system.watcher) { timer = none } };
          })
          (take_timer f now) (aside-IsSafe (whole f) _ v.safe refl refl refl refl refl) refl
          (λ q. rw e refl) refl refl refl;
    fits = tt;
  }
  Move-IsSound (gc {f} e n) v = record {
    safe =
        job-IsSafe
          (record f {
            system = record (f.system) {
              watcher = record (f.system.watcher) { gc_notify = false };
            };
          })
          (take_gc f) (aside-IsSafe (whole f) _ v.safe refl refl refl refl refl) refl
          (λ q. rw e refl) refl refl refl;
    fits = tt;
  }
  Move-IsSound (drop {f} p ps e off) v = record {
    safe = results-IsSafe (whole f) (f.system.watcher.results ++ ps) v.safe (λ q.
        let w = f.system.watcher in
        rw e (omega (arith, count-append q w.results (p ∷ ps), count-append q w.results ps)));
    fits = v.fits;
  }
  Move-IsSound (give_up {f} e off) v = record { safe = v.safe; fits = v.fits }

  -- For any kernel and any capacity of chResults, every state that the goroutines' steps lead to
  -- from a sound state is sound, where a step is a piece of a handler, one send or receive on
  -- chResults, a call or a return of WaitIO, or a step of another caller or the finalizer of a
  -- connection that no request holds, in any order. Sound means that the whole is in a safe state,
  -- with the requests that the loop is sending counted as sent and those that handlePending has not
  -- come to as submitted, and that a loop of handleEvents over a queue has the queue before it.
  pub Moves-IsSound : {f g : Flow} → Moves k cap f g → IsSound f → IsSound g
  Moves-IsSound here v = v
  Moves-IsSound (next ms m) v = Move-IsSound m (Moves-IsSound ms v)

pub new-IsSound : (bufsize : ℕ) → IsSound (new_flow bufsize)
unfolding new_watcher_size
new-IsSound bufsize = record { safe = new-IsSafe bufsize; fits = tt }
