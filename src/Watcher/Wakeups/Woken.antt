-- ===== src/Watcher/Wakeups/Woken.antt =====
-- The attempts of handleEvents and handlePending (watcher.go): what they leave in a queue waits for
-- an edge.
use gaio.Common.{
  ℕ, suc, ◌-◌, ◌≤◌, ◌≡◌, ◌≢◌, refl, ◌∙◌, sym, subst, true, false, List, [], ◌∷◌, arith, Bool-cases,
  Option-cases, inl, inr, ◌⊎◌, ◌==◌, if_both,
}
use gaio.Types.{Side, readers, writers, buffer_length}
use gaio.Kernel.{Kernel, Reply}
use gaio.Transfer.{choose_buffer}
use gaio.Watcher.{
  Watcher, cb_of, queue_of, desc_of, dequeue, try_read, try_write, try_side, untrack_at, send,
  deliver,
}
use gaio.Watcher.Handlers.{track, enqueue, is_empty, is_empty-nil, start_side, retry}
use gaio.Watcher.Invariant.{Inv, Frame-Inv}
use gaio.Watcher.Deliver.{deliver-Delivered, try_side-Frame}
use gaio.Watcher.Keeps.{pass-Passed}
use gaio.Watcher.Sized.{Sized}
use gaio.Watcher.Sized.Handled.{dequeue-Sized, deliver-Sized, try_side-Sized}
use gaio.Watcher.Wakeups.{
  drained, IsBuffered, choose-drained, read_step-IsBuffered, write_step-IsBuffered,
  write_step-drained,
}

-- The system call of a direction: call number, descriptor, room.
abbrev pub syscall : Kernel → Side → ℕ → ℕ → ℕ → Reply
syscall k readers = k.read
syscall k writers = k.write

-- A handler has left nothing in the queue of a direction, or its last call, made for the descriptor
-- in this direction, got a reply that leaves nothing to transfer for now.
pub data Woken (k : Kernel) (side : Side) (ident : ℕ) (w w' : Watcher) : Type 0 where
  cleared : queue_of side (desc_of w' ident) ≡ [] → Woken k side ident w w'
  parked :
      (call room : ℕ)
      → w.calls ≤ call
      → suc call ≡ w'.calls
      → drained room (syscall k side call ident room) ≡ true
      → Woken k side ident w w'

-- No request is a ReadFull without a buffer, which the API refuses.
abbrev pub Buffered : Watcher → Type 0
Buffered w = (q : ℕ) → IsBuffered (cb_of w q)

module _ (k : Kernel) where
  try_side-calls :
      (side : Side) (w : Watcher) (fd p : ℕ) → (try_side k side w fd p).1.calls ≡ suc w.calls
  unfolding try_side try_read try_write
  try_side-calls readers w fd p = refl
  try_side-calls writers w fd p = refl

  deliver-calls : (w : Watcher) (p : ℕ) → w.die ≡ false → (deliver k w p).calls ≡ w.calls
  unfolding deliver untrack_at send
  deliver-calls w p on = elim (Option-cases (cb_of w p).idx) [
    | inl e ↦ rw (e, on) refl
    | inr (i, e) ↦ rw (e, on) refl
  ]

  try_side-Buffered :
      (side : Side) (w : Watcher) (fd p : ℕ) → Buffered w → Buffered (try_side k side w fd p).1
  unfolding try_side try_read try_write
  try_side-Buffered readers w fd p b q =
      if_both IsBuffered (p == q) _ _ (read_step-IsBuffered _ (cb_of w p) _ (b p)) (b q)
  try_side-Buffered writers w fd p b q =
      if_both IsBuffered (p == q) _ _ (write_step-IsBuffered (cb_of w p) _ (b p)) (b q)

  -- An attempt that is not complete.
  try_side-Woken :
      (side : Side) (w w' : Watcher) (ident p : ℕ)
      → Sized w
      → IsBuffered (cb_of w p)
      → (try_side k side w ident p).0 ≡ false
      → w'.calls ≡ suc w.calls
      → Woken k side ident w w'
  unfolding try_side try_read try_write
  try_side-Woken readers w w' ident p v b blocked c =
      let room = buffer_length (choose_buffer w.shared (cb_of w p).buffer).buf - (cb_of w p).size in
      parked w.calls room (omega arith) (sym c) (
        choose-drained w.shared (cb_of w p).buffer (cb_of w p) (k.read w.calls ident room) refl b
          (v.fits p) (k.read_within w.calls ident room) blocked)
  try_side-Woken writers w w' ident p v b blocked c =
      let room = buffer_length (cb_of w p).buffer - (cb_of w p).size in
      parked w.calls room (omega arith) (sym c) (
        write_step-drained (cb_of w p) (k.write w.calls ident room) b (v.fits p)
          (k.write_within w.calls ident room) blocked)

  Woken-later :
      {side : Side} {ident : ℕ} {w1 w2 w3 : Watcher}
      → w1.calls ≤ w2.calls
      → Woken k side ident w2 w3
      → Woken k side ident w1 w3
  Woken-later h (cleared e) = cleared e
  Woken-later h (parked call room made last dry) = parked call room (omega arith) last dry

  retry-Woken :
      (side : Side) (w : Watcher) (ident : ℕ) (ps : List ℕ)
      → Inv w
      → w.die ≡ false
      → Sized w
      → Buffered w
      → queue_of side (desc_of w ident) ≡ ps
      → Woken k side ident w (retry k side w ident ps)
  unfolding retry dequeue
  retry-Woken side w ident [] v on z b e = cleared e
  retry-Woken side w ident (p ∷ ps) v on z b e = elim (Bool-cases (try_side k side w ident p).0) [
    | inr blocked ↦
        rw blocked (try_side-Woken side w _ ident p z (b p) blocked (try_side-calls side w ident p))
    | inl done ↦
        let tried = (try_side k side w ident p).1 in
        let cut = dequeue tried ident side p in
        let a = pass-Passed k side w ident p ps v e in
        let c = deliver-calls cut p (a.frame.die ∙ on) ∙ try_side-calls side w ident p in
        rw done (
          Woken-later (omega arith) (
            retry-Woken side (deliver k cut p) ident ps a.keeps.inv (a.keeps.die ∙ on)
              (deliver-Sized k cut p
                (dequeue-Sized tried ident side p (try_side-Sized k side w ident p z)))
              (λ q.
                subst IsBuffered (sym (a.delivered.bodies q))
                  (try_side-Buffered side w ident p b q))
              a.rest))
  ]

  park-calls :
      (side : Side) (w : Watcher) (ident p : ℕ) → (track (enqueue w ident side p) p).calls ≡ w.calls
  unfolding track enqueue
  park-calls side w ident p = refl

  start_side-Woken :
      (side : Side) (w : Watcher) (ident p : ℕ)
      → Inv w
      → Sized w
      → Buffered w
      → is_empty (queue_of side (desc_of w ident)) ≡ true
      → Woken k side ident w (start_side k side w ident p)
  unfolding start_side
  start_side-Woken side w ident p v z b first =
      let f = try_side-Frame k side w ident p in
      let w1 = (try_side k side w ident p).1 in
      rw first (elim (Bool-cases (try_side k side w ident p).0) [
        | inr blocked ↦ rw blocked (
            try_side-Woken side w _ ident p z (b p) blocked
              (park-calls side w1 ident p ∙ try_side-calls side w ident p))
        | inl done ↦
            let d = deliver-Delivered k w1 p (Frame-Inv f v).heap in
            rw done (cleared (rw (d.descs, f.descs) (is_empty-nil _ first)))
      ])

  -- On an open watcher whose invariant holds, whose requests have sizes within their buffers, and
  -- where no ReadFull is without a buffer: handleEvents' loop over the queue of a descriptor in one
  -- direction ends with an empty queue, or its last system call, for this descriptor and direction,
  -- had EAGAIN, ENOBUFS or fewer bytes than asked for. The same holds for a new request that
  -- handlePending takes, unless others wait before it.
  pub attempts-Woken :
      (side : Side) (w : Watcher) (ident p : ℕ)
      → Inv w
      → w.die ≡ false
      → Sized w
      → Buffered w
      → Woken k side ident w (retry k side w ident (queue_of side (desc_of w ident)))
        × ((queue_of side (desc_of w ident) ≢ [])
            ⊎ Woken k side ident w (start_side k side w ident p))
  attempts-Woken side w ident p v on z b = (
    retry-Woken side w ident _ v on z b refl,
    elim (Bool-cases (is_empty (queue_of side (desc_of w ident)))) [
      | inl first ↦ inr (start_side-Woken side w ident p v z b first)
      | inr behind ↦ inl (λ e. let h = rw e at behind in cc)
    ],
  )
