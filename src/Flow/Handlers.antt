-- ===== src/Flow/Handlers.antt =====
-- The pieces of a handler put together again (watcher.go).
use gaio.Common.{
  ℕ, zero, suc, ◌+◌, ◌%◌, ◌^◌, ◌≤◌, ◌≡◌, ◌≢◌, refl, List, [], ◌∷◌, none, arith, ltb, lookup,
  is_some, length, Bool-cases, Option-cases, inl, inr,
}
use gaio.Types.{Side, readers, writers, Event, ev_read, ev_write}
use gaio.Timed.{at, pop}
use gaio.Timed.Bodies.{length-pop}
use gaio.Kernel.{Kernel}
use gaio.Watcher.{Watcher, cb_of, dequeue, try_side, deliver}
use gaio.Watcher.Handlers.{
  is_empty, ready, handle_request, handle_pending, retry, retry_if, handle_event, handle_events,
  release_found, release_all, handle_gc, time_out, expire_loop, expire,
}
use gaio.Watcher.Fuel.{time_out-length, is_empty-none, is_empty-some}
use gaio.Flow.Jobs.{
  Job, idle, pendings, eventing, retrying, expiring, releasing, begin_writers, begin_readers,
  after_side, expire_one, retry_one, work,
}

-- The pieces of the handler `j` in the state `w`, one after the other, end in the state `w'`.
pub data Runs (k : Kernel) (w' : Watcher) : Watcher → Job → Type 0 where
  ended : {w : Watcher} → w ≡ w' → Runs k w' w idle
  worked :
      {w : Watcher} {j : Job} → j ≢ idle → Runs k w' (work k w j).0 (work k w j).1 → Runs k w' w j

module _ (k : Kernel) where
  pendings-Runs : (w : Watcher) (ps : List ℕ) → Runs k (handle_pending k w ps) w (pendings ps)
  unfolding work handle_pending
  pendings-Runs w [] = worked (λ e. cc) (ended refl)
  pendings-Runs w (p ∷ ps) = worked (λ e. cc) (pendings-Runs (handle_request k w p) ps)

  retrying-Runs :
      (side : Side) (w w' : Watcher) (e : Event) (ps : List ℕ) (es : List Event)
      → Runs k w' (retry k side w e.ident ps) (after_side side (retry k side w e.ident ps) e es)
      → Runs k w' w (retrying side e ps es)
  unfolding work retry_one retry
  retrying-Runs side w w' e [] es r = worked (λ x. cc) r
  retrying-Runs side w w' e (p ∷ ps) es r = elim (Bool-cases (try_side k side w e.ident p).0) [
    | inr blocked ↦ worked (λ x. cc) (rw blocked (rw blocked at r))
    | inl done ↦
        let next = deliver k (dequeue (try_side k side w e.ident p).1 e.ident side p) p in
        worked (λ x. cc) (rw done (retrying-Runs side next w' e ps es (rw done at r)))
  ]

  writers-Runs :
      (w w' : Watcher) (e : Event) (es : List Event)
      → Runs k w' (retry_if k (ready e.ev ev_write) writers w e.ident) (eventing es)
      → Runs k w' w (begin_writers w e es)
  unfolding retry_if
  writers-Runs w w' e es r = elim (Bool-cases (ready e.ev ev_write)) [
    | inr off ↦ rw off (rw off at r)
    | inl on ↦ rw on (retrying-Runs writers w w' e _ es (rw on at r))
  ]

  readers-Runs :
      (w w' : Watcher) (e : Event) (es : List Event)
      → Runs k w'
          (retry_if k
            (ready e.ev ev_write)
            writers
            (retry_if k (ready e.ev ev_read) readers w e.ident)
            e.ident)
          (eventing es)
      → Runs k w' w (begin_readers w e es)
  unfolding retry_if
  readers-Runs w w' e es r = elim (Bool-cases (ready e.ev ev_read)) [
    | inr off ↦ rw off (writers-Runs w w' e es (rw off at r))
    | inl on ↦ rw on (retrying-Runs readers w w' e _ es (writers-Runs _ w' e es (rw on at r)))
  ]

  eventing-Runs : (es : List Event) (w : Watcher) → Runs k (handle_events k w es) w (eventing es)
  unfolding work handle_events handle_event
  eventing-Runs [] w = worked (λ x. cc) (ended refl)
  eventing-Runs (e ∷ es) w =
      worked (λ x. cc)
        (elim (Bool-cases (is_some (lookup e.ident w.descs))) [
          | inr stale ↦ rw stale (eventing-Runs es w)
          | inl known ↦ rw known (readers-Runs w _ e es (eventing-Runs es _))
        ])

  expiring-Runs :
      (f : ℕ) (w : Watcher) (now : ℕ)
      → length w.timed.arr ≤ f
      → Runs k (expire_loop k f w now) w (expiring now)
  unfolding work expire_one expire_loop
  expiring-Runs zero w now h = worked (λ x. cc) (rw (is_empty-none w.timed.arr h) (ended refl))
  expiring-Runs (suc f) w now h =
      worked (λ x. cc)
        (elim (Bool-cases (is_empty w.timed.arr)) [
          | inl e ↦ rw e (ended refl)
          | inr e ↦
              let there = is_empty-some w.timed.arr e in
              let p = at w.timed 0 in
              rw e (elim (Option-cases (cb_of w p).idx) [
                | inl out ↦
                    let n = length-pop w.timed there in
                    rw out
                      (expiring-Runs f (record w { timed = (pop w.timed).1 }) now (omega arith))
                | inr (i, held) ↦ rw held (elim (Bool-cases (ltb (cb_of w p).deadline now)) [
                  | inr on_time ↦ rw on_time (ended refl)
                  | inl late ↦
                      let n = time_out-length k w p there in
                      rw late (expiring-Runs f (time_out k w p) now (omega arith))
                ])
              ])
        ])

  releasing-Runs :
      (w : Watcher) (cs : List ℕ)
      → Runs k
          (let w' = release_all k w cs in
            record w' { gc_closed = (w'.gc_closed + length w'.gc) % 2 ^ 32; gc = [] })
          w
          (releasing cs)
  unfolding work release_all
  releasing-Runs w [] = worked (λ x. cc) (ended refl)
  releasing-Runs w (c ∷ cs) =
      worked (λ x. cc) (releasing-Runs (release_found k (lookup c w.conn_idents) w) cs)

  -- For any state of the watcher, requests, events and time: the pieces of handlePending, of
  -- handleEvents, of the timer's case and of handleGC come to an end one after the other, and the
  -- state at the end is that of the handler in one piece.
  pub handlers-Runs :
      (w : Watcher) (ps : List ℕ) (es : List Event) (now : ℕ)
      → Runs k (handle_pending k w ps) w (pendings ps)
        × Runs k (handle_events k w es) w (eventing es)
        × Runs k (expire k w now) (record w { timer = none }) (expiring now)
        × Runs k (handle_gc k w) w (releasing w.gc)
  unfolding expire handle_gc
  handlers-Runs w ps es now = (
    pendings-Runs w ps,
    eventing-Runs es w,
    expiring-Runs (length w.timed.arr) (record w { timer = none }) now (omega arith),
    releasing-Runs w w.gc,
  )
