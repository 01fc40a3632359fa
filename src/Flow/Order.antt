-- ===== src/Flow/Order.antt =====
-- The order of the results, and the capacity of chResults, over the goroutines' steps (watcher.go).
use mathlib.Core.List.{append_assoc, append-nil, map-append}
use gaio.Common.{
  ℕ, ◌≤◌, ◌<◌, ◌≡◌, refl, ◌∙◌, sym, ap, false, List, [], ◌∷◌, ◌++◌, arith, length, length-append,
  map, count, count-append, ==_refl,
}
use gaio.Types.{OpResult}
use gaio.Timed.Track.{body}
use gaio.Kernel.{Kernel}
use gaio.Watcher.{cb_of}
use gaio.Flow.{
  Stage, away, waiting, taking, Flow, new_flow, outcome, advance, call, receive, Turn, piece, send,
  enter, first, more, give, Move, turn, request, final, close, pending, events, timer, gc, drop,
  give_up, Moves, here, next,
}
use gaio.Flow.Jobs.{work}
use gaio.Flow.Outcomes.{map-outcome, create-others, create-results, stop-results}
use gaio.Flow.Pieces.{in_job}
use gaio.Flow.Untouched.{work-Untouched}
use gaio.Flow.Whole.{with_results, whole, IsSound, start-Inv, advance-Worked, whole-create}
use gaio.Flow.Safety.{Move-IsSound, new-IsSound}
use gaio.System.{System, aio_create, stop, new_watcher_size}
use gaio.System.Collect.{recycle, clear_refs}
use gaio.System.Loop.{finalize}
use gaio.System.Open.{aio_create-die}

-- What WaitIO holds in its hands while it collects.
abbrev pub in_hands : Stage → List OpResult → List OpResult
in_hands away rs = []
in_hands waiting rs = []
in_hands taking rs = rs

-- What is in chResults, and what the loop is sending.
abbrev pub on_the_way : Flow → List OpResult
on_the_way f = map (outcome f.system.watcher) (f.system.watcher.results ++ f.outbox)

pub record InOrder (cap : ℕ) (f : Flow) : Type 0 where
  pub bounded : length f.system.watcher.results ≤ cap
  pub fresh : f.stage ≡ waiting → f.collected ≡ []
  pub order :
      f.system.watcher.die ≡ false
      → f.delivered ≡ f.returned ++ (in_hands f.stage f.collected ++ on_the_way f)

-- Another system with the same results, which is open only if this one is.
aside-InOrder :
    {cap : ℕ} (f : Flow) (s : System)
    → InOrder cap f
    → s.watcher.results ≡ f.system.watcher.results
    → ((q : ℕ)
        → 0 < count q (f.system.watcher.results ++ f.outbox)
        → body (cb_of s.watcher q) ≡ body (cb_of f.system.watcher q))
    → (s.watcher.die ≡ false → f.system.watcher.die ≡ false)
    → InOrder cap (record f { system = s })
aside-InOrder f s v r b d = record {
  bounded = rw r v.bounded;
  fresh = v.fresh;
  order = λ on. rw r (
      rw (map-outcome f.system.watcher s.watcher (f.system.watcher.results ++ f.outbox) b)
        (v.order (d on)));
}

module _ (k : Kernel) (cap : ℕ) where
  -- A request in chResults is in no other place, so a piece of a handler leaves it alone.
  advance-Untouched :
      (f : Flow) (q : ℕ)
      → IsSound f
      → 0 < count q f.system.watcher.results
      → body (cb_of (advance k f).system.watcher q) ≡ body (cb_of f.system.watcher q)
  unfolding advance
  advance-Untouched f q s h =
      let w = f.system.watcher in
      let u = s.safe.unique q in
      let a = count-append q w.results f.outbox in
      let b = count-append q (in_job f.job) f.system.pending_create in
      work-Untouched k q (with_results w []) f.job (start-Inv f s) s.fits (omega arith)
        (omega arith)

  advance-InOrder :
      (f : Flow) → f.outbox ≡ [] → IsSound f → InOrder cap f → InOrder cap (advance k f)
  unfolding advance
  advance-InOrder f e s v =
      let w = f.system.watcher in
      let r = work k (with_results w []) f.job in
      let new = map (outcome r.0) r.0.results in
      record {
        bounded = v.bounded;
        fresh = v.fresh;
        order = λ on.
            let held = in_hands f.stage f.collected in
            let old = v.order (sym (advance-Worked k f s).die ∙ on) in
            let same : map (outcome r.0) w.results ≡ map (outcome w) w.results =
              map-outcome w r.0 w.results (λ q h. advance-Untouched f q s h) in
            ap (λ l. l ++ new) (rw (e, append-nil w.results) at old)
            ∙ rw (map-append (outcome r.0) w.results r.0.results, same) (simp append_assoc);
      }

  -- What WaitIO clears in a request that it has received touches no other.
  receive-same :
      (f : Flow) (p : ℕ) (ps : List ℕ)
      → f.system.watcher.results ≡ p ∷ ps
      → IsSound f
      → map (outcome (receive f p ps).system.watcher) (ps ++ f.outbox)
        ≡ map (outcome f.system.watcher) (ps ++ f.outbox)
  unfolding receive clear_refs
  receive-same f p ps r s =
      map-outcome f.system.watcher (receive f p ps).system.watcher (ps ++ f.outbox) (λ q h.
        let u = s.safe.unique p in
        let n : count p (f.system.watcher.results ++ f.outbox) ≡ count p (p ∷ (ps ++ f.outbox)) =
          rw r refl in
        ground (arith, ==_refl p))

  pub Turn-InOrder : {f g : Flow} → Turn k cap f g → IsSound f → InOrder cap f → InOrder cap g
  unfolding call recycle receive clear_refs
  Turn-InOrder (piece {f} e busy) s v = advance-InOrder f e s v
  Turn-InOrder (send {f} p ps e room) s v = record {
    bounded = omega (arith, length-append f.system.watcher.results (p ∷ []));
    fresh = v.fresh;
    order = λ on. v.order on ∙ rw e (simp append_assoc);
  }
  Turn-InOrder (enter {f} e) s v = record {
    bounded = v.bounded;
    fresh = λ w. refl;
    order = λ on. v.order on ∙ rw e refl;
  }
  Turn-InOrder (first {f} p ps e r) s v = record {
    bounded = let n = ap length r in omega (arith, v.bounded);
    fresh = λ w. cc;
    order = λ on. v.order on ∙ rw (e, v.fresh e, receive-same f p ps r s, r) refl;
  }
  Turn-InOrder (more {f} p ps e r) s v = record {
    bounded = let n = ap length r in omega (arith, v.bounded);
    fresh = λ w. cc;
    order = λ on. v.order on ∙ rw (e, receive-same f p ps r s, r) (simp append_assoc);
  }
  Turn-InOrder (give {f} e r) s v = record {
    bounded = v.bounded;
    fresh = λ w. cc;
    order = λ on. v.order on ∙ rw (e, r) (simp append_assoc);
  }

  Move-InOrder : {f g : Flow} → Move k cap f g → IsSound f → InOrder cap f → InOrder cap g
  unfolding finalize
  Move-InOrder (turn t) s v = Turn-InOrder t s v
  Move-InOrder (pending {f} e n) s v = record {
    bounded = v.bounded;
    fresh = v.fresh;
    order = v.order;
  }
  Move-InOrder (events {f} es e) s v = record {
    bounded = v.bounded;
    fresh = v.fresh;
    order = v.order;
  }
  Move-InOrder (timer {f} now e) s v = record {
    bounded = v.bounded;
    fresh = v.fresh;
    order = v.order;
  }
  Move-InOrder (gc {f} e n) s v = record { bounded = v.bounded; fresh = v.fresh; order = v.order }
  Move-InOrder (drop {f} p ps e off) s v = record {
    bounded = v.bounded;
    fresh = v.fresh;
    order = λ on. cc;
  }
  Move-InOrder (give_up {f} e off) s v = record {
    bounded = v.bounded;
    fresh = λ w. cc;
    order = λ on. cc;
  }
  Move-InOrder (request {f} pick r conn proper) s v =
      aside-InOrder f (aio_create pick f.system r conn).0 v (create-results pick f.system r conn)
        (λ q h.
          let c = whole-create f pick r conn in
          ap (λ (t : System). body (cb_of t.watcher q)) c
          ∙ ap body (create-others pick (whole f) r conn q s.safe (omega arith)))
        (λ on. sym (aio_create-die pick f.system r conn) ∙ on)
  Move-InOrder (final {f} c free u) s v =
      aside-InOrder f (finalize f.system c) v refl (λ q h. refl) (λ on. on)
  Move-InOrder (close {f}) s v =
      let a = stop-results f.system (f.system.watcher.results ++ f.outbox) in
      aside-InOrder f (stop f.system) v a.0 a.1 a.2

  pub Moves-InOrder :
      {f g : Flow} → Moves k cap f g → IsSound f → InOrder cap f → IsSound g × InOrder cap g
  Moves-InOrder here s v = (s, v)
  Moves-InOrder (next ms m) s v =
      let r = Moves-InOrder ms s v in (Move-IsSound k cap m r.0, Move-InOrder m r.0 r.1)

  -- From a new watcher, in every state that the goroutines' steps lead to: chResults holds no more
  -- than its capacity, and while the watcher is open, the results that WaitIO has returned, then
  -- those that it has collected, then those of the requests in chResults, then those of the requests
  -- that the loop is sending, are all the results that the loop has delivered, each as it was when
  -- the piece of the handler that delivered it had ended, and in this order.
  pub new-InOrder : (bufsize : ℕ) {g : Flow} → Moves k cap (new_flow bufsize) g → InOrder cap g
  unfolding new_watcher_size
  new-InOrder bufsize ms =
      (Moves-InOrder ms (new-IsSound bufsize)
        (record { bounded = omega arith; fresh = λ w. refl; order = λ on. refl })).1
