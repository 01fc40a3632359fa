-- ===== src/Flow/Untouched.antt =====
-- What a piece of a handler does to the requests that are in no queue and not in its hands
-- (watcher.go): nothing.
use gaio.Common.{
  ℕ, ◌<◌, ◌≡◌, refl, ◌∙◌, ap, true, false, List, [], ◌∷◌, arith, ltb, ◌==◌, lookup, length, count,
  Bool-cases, inl, inr, if_both,
}
use gaio.Types.{Side, Event}
use gaio.Timed.{at}
use gaio.Timed.Push.{holds}
use gaio.Kernel.{Kernel}
use gaio.Watcher.{Watcher, cb_of, desc_of, dequeue, try_side}
use gaio.Watcher.Handlers.{is_empty, handle_request}
use gaio.Watcher.Untouched.{
  Untouched, deliver-Untouched, try_side-Untouched, dispatch-Untouched, time_out-Untouched,
  release_found-Untouched,
}
use gaio.Watcher.Invariant.{queued, load-lookup, Inv}
use gaio.Watcher.Invariant.Moves.{load-queue_of}
use gaio.Flow.Jobs.{
  Job, idle, pendings, eventing, retrying, expiring, releasing, expire_one, retry_one, work,
}
use gaio.Flow.Pieces.{in_job, Fits}

module _ (k : Kernel) (q : ℕ) where
  retry_one-Untouched :
      (w : Watcher) (side : Side) (e : Event) (p : ℕ) (ps : List ℕ) (es : List Event)
      → (p == q) ≡ false
      → Untouched k q w (retry_one k w side e p ps es).0
  unfolding retry_one dequeue
  retry_one-Untouched w side e p ps es ne =
      let t = try_side k side w e.ident p in
      let tried = try_side-Untouched k q side w e.ident p ne in
      if_both (λ (r : Watcher × Job). Untouched k q w r.0) t.0 _ _
        (deliver-Untouched k q (dequeue t.1 e.ident side p) p ∙ tried) tried

  -- The root of the heap is in a queue.
  expire_one-Untouched :
      (w : Watcher) (now : ℕ)
      → Inv w
      → count q (queued w.descs) ≡ 0
      → Untouched k q w (expire_one k w now).0
  unfolding expire_one
  expire_one-Untouched w now v h = elim (Bool-cases (is_empty w.timed.arr)) [
    | inl e ↦ rw e refl
    | inr e ↦
        let p = at w.timed 0 in
        let pos : 0 < length w.timed.arr = ground arith in
        let held : holds w.timed p ≡ true = ground (arith, v.heap.tracks.fwd 0 pos) in
        let waits = v.waiting p held in
        rw (e, held)
          (if_both (λ (r : Watcher × Job). Untouched k q w r.0) (ltb (cb_of w p).deadline now) _ _
            (time_out-Untouched k q w p (ground arith)) refl)
  ]

  -- A request that is in no queue and that the handler has not before it.
  pub work-Untouched :
      (w : Watcher) (j : Job)
      → Inv w
      → Fits w j
      → count q (queued w.descs) ≡ 0
      → count q (in_job j) ≡ 0
      → Untouched k q w (work k w j).0
  unfolding work handle_request
  work-Untouched w idle v f h i = refl
  work-Untouched w (pendings []) v f h i = refl
  work-Untouched w (pendings (p ∷ ps)) v f h i =
      dispatch-Untouched k q (lookup (cb_of w p).ptr w.conn_idents) w p h (ground arith)
  work-Untouched w (eventing []) v f h i = refl
  work-Untouched w (eventing (e ∷ es)) v f h i = refl
  work-Untouched w (retrying side e [] es) v f h i = refl
  work-Untouched w (retrying side e (p ∷ ps) es) v f h i =
      let l = load-lookup q e.ident w.descs in
      let m = load-queue_of side q (desc_of w e.ident) in
      let same = ap (λ xs. count q xs) f in retry_one-Untouched w side e p ps es (ground arith)
  work-Untouched w (expiring now) v f h i = expire_one-Untouched w now v h
  work-Untouched w (releasing []) v f h i = refl
  work-Untouched w (releasing (c ∷ cs)) v f h i =
      release_found-Untouched k q (lookup c w.conn_idents) w h
