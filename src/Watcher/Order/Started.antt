-- ===== src/Watcher/Order/Started.antt =====
-- The order of a new request and those that wait (watcher.go): handlePending's test for an empty
-- queue.
use mathlib.Core.List.{append-nil}
use gaio.Common.{
  ℕ, ◌≡◌, sym, ap, ◌∙◌, false, List, [], ◌∷◌, ◌++◌, arith, Bool-cases, inl, inr, lookup,
  lookup-insert, ==_refl,
}
use gaio.Types.{Side, readers, writers}
use gaio.Kernel.{Kernel}
use gaio.Watcher.{Watcher, queue_of, or_empty, desc_of, try_side}
use gaio.Watcher.Handlers.{track, enqueue, is_empty, is_empty-nil, start_side}
use gaio.Watcher.Invariant.{Inv, Frame, Frame-Inv}
use gaio.Watcher.Deliver.{deliver-Delivered, try_side-Frame}

-- `w'` is `w` after a new request for the queue: of the queue with the request at its end, the
-- first have been answered.
pub record Started (side : Side) (w : Watcher) (ident p : ℕ) (w' : Watcher) : Type 0 where
  pub answered : List ℕ
  pub split :
      queue_of side (desc_of w ident) ++ p ∷ [] ≡ answered ++ queue_of side (desc_of w' ident)
  pub results : w'.results ≡ w.results ++ answered

enqueue-queue_of :
    (side : Side) (w : Watcher) (ident p : ℕ)
    → queue_of side (desc_of w ident) ++ p ∷ []
      ≡ queue_of side (desc_of (enqueue w ident side p) ident)
unfolding enqueue
enqueue-queue_of readers w ident p = rw (lookup-insert ident ident) (ground (arith, ==_refl ident))
enqueue-queue_of writers w ident p = rw (lookup-insert ident ident) (ground (arith, ==_refl ident))

-- A request that is put into the queue without an answer to any.
park-Started :
    (side : Side) (w : Watcher) (ident p : ℕ)
    → Started side w ident p (track (enqueue w ident side p) p)
unfolding track enqueue
park-Started side w ident p = record {
  answered = [];
  split = enqueue-queue_of side w ident p;
  results = sym (append-nil w.results);
}

module _ (k : Kernel) where
  -- On an open watcher whose invariant holds, a new request to read or write overtakes none: of the
  -- queue of its direction with the request at its end, an initial part is answered into chResults,
  -- in order, and the rest is the new queue.
  pub start_side-Started :
      (side : Side) (w : Watcher) (ident p : ℕ)
      → Inv w
      → w.die ≡ false
      → Started side w ident p (start_side k side w ident p)
  unfolding start_side
  start_side-Started side w ident p v on =
      elim (Bool-cases (is_empty (queue_of side (desc_of w ident)))) [
        | inr behind ↦ rw behind (park-Started side w ident p)
        | inl first ↦ rw first (elim (Bool-cases (try_side k side w ident p).0) [
          | inr blocked ↦
              let q = park-Started side (try_side k side w ident p).1 ident p in
              rw blocked (record {
                answered = q.answered;
                split =
                    ap (λ m. queue_of side (or_empty (lookup ident m)) ++ p ∷ []) (sym f.descs)
                    ∙ q.split;
                results = q.results ∙ ap (λ r. r ++ q.answered) f.results;
              })
          | inl done ↦
              let d = deliver-Delivered k (try_side k side w ident p).1 p (Frame-Inv f v).heap in
              rw done (record {
                answered = p ∷ [];
                split = rw (d.descs, f.descs, is_empty-nil (queue_of side (desc_of w ident)) first);
                results = d.sent (f.die ∙ on) ∙ ap (λ r. r ++ p ∷ []) f.results;
              })
        ])
      ]
    where
      f : Frame w (try_side k side w ident p).1
      f = try_side-Frame k side w ident p
