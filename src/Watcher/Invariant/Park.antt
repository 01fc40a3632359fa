-- ===== src/Watcher/Invariant/Park.antt =====
-- A new request that is parked in a queue, and in the heap if it has a deadline, or answered at
-- once (handlePending in watcher.go).
use gaio.Common.{
  ℕ, ◌+◌, ◌≤◌, ◌<◌, ◌≡◌, refl, false, not, List, [], ◌∷◌, ◌++◌, none, some, arith, if◌then◌else◌,
  ◌==◌, count, count-append, lookup, insert, Bool-cases, inl, inr,
}
use gaio.Types.{Side, readers, writers, Aiocb}
use gaio.Timed.Push.{IsValid, holds}
use gaio.Watcher.{Watcher, FdDesc, cb_of, queue_of, set_queue, desc_of}
use gaio.Watcher.Invariant.{queued, load, tally, tag, Inv, load-lookup}
use gaio.Watcher.Invariant.Moves.{
  load-queue_of, queued-set_queue, lookup-set_queue, idents-set_queue, owners-set_queue,
  single-set_queue,
}

-- A request that the loop has just taken up: it is in no queue, not in chResults and not in the
-- heap.
pub record IsFresh (w : Watcher) (p : ℕ) : Type 0 where
  pub nowhere : tally w p ≡ 0
  pub untimed : (cb_of w p).idx ≡ none

pub record Answered (w : Watcher) (p : ℕ) (w' : Watcher) : Type 0 where
  pub heap : IsValid w'.timed
  pub members : (q : ℕ) → holds w'.timed q ≡ holds w.timed q
  pub tags : (q : ℕ) → tag (cb_of w' q) ≡ tag (cb_of w q)
  pub descs : w'.descs ≡ w.descs
  pub conn_idents : w'.conn_idents ≡ w.conn_idents
  pub results : (q : ℕ) → count q w'.results ≤ (if p == q then 1 else 0) + count q w.results
  pub sent :
      w.die ≡ false → (q : ℕ) → count q w'.results ≡ (if p == q then 1 else 0) + count q w.results
  pub die : w'.die ≡ w.die

pub Answered-Inv :
    {w : Watcher} {p : ℕ} {w' : Watcher} → Inv w → IsFresh w p → Answered w p w' → Inv w'
Answered-Inv {w} {p} {w'} v f a = record {
  heap = a.heap;
  once = λ q. rw a.descs (ground (arith, a.results q, v.once q, f.nowhere));
  placed = λ q j t h. ground (arith, a.tags q, v.placed q j t (rw a.descs at h));
  waiting = λ q h. rw a.descs (v.waiting q (ground (arith, a.members q)));
  armed = λ q h. ground (arith, a.members q, a.tags q, v.armed q (rw a.descs at h));
  idents = rw (a.descs, a.conn_idents) v.idents;
  owners = rw (a.descs, a.conn_idents) v.owners;
  single = rw a.descs v.single;
}

-- The place in a queue that enqueue records.
abbrev pub at_place : Aiocb → ℕ → Side → Aiocb
at_place cb fd side = record cb { place = some (record { fd = fd; side = side }) }

pub record Parked (w : Watcher) (p fd : ℕ) (side : Side) (w' : Watcher) : Type 0 where
  pub heap : IsValid w'.timed
  pub members :
      (q : ℕ)
      → holds w'.timed q ≡ (if p == q then not ((cb_of w p).deadline == 0) else holds w.timed q)
  pub tags :
      (q : ℕ)
      → tag (cb_of w' q) ≡ (if p == q then tag (at_place (cb_of w q) fd side) else tag (cb_of w q))
  pub descs :
      w'.descs
      ≡ insert fd (set_queue side (queue_of side (desc_of w fd) ++ p ∷ []) (desc_of w fd)) w.descs
  pub conn_idents : w'.conn_idents ≡ w.conn_idents
  pub results : w'.results ≡ w.results
  pub die : w'.die ≡ w.die

count-queue_of-append :
    (side t : Side) (p q : ℕ) (d : FdDesc)
    → (p == q) ≡ false
    → count q (queue_of t (set_queue side (queue_of side d ++ p ∷ []) d)) ≡ count q (queue_of t d)
count-queue_of-append readers readers p q d h = ground (arith, count-append q d.reads (p ∷ []))
count-queue_of-append readers writers p q d h = refl
count-queue_of-append writers readers p q d h = refl
count-queue_of-append writers writers p q d h = ground (arith, count-append q d.writes (p ∷ []))

count-other_queue :
    (side t : Side) (p : ℕ) (d : FdDesc)
    → load p d ≡ 0
    → 0 < count p (queue_of t (set_queue side (queue_of side d ++ p ∷ []) d))
    → t ≡ side
count-other_queue readers readers p d e h = refl
count-other_queue readers writers p d e h = absurd (omega arith)
count-other_queue writers readers p d e h = absurd (omega arith)
count-other_queue writers writers p d e h = refl

module _ (w w' : Watcher) (p fd : ℕ) (side : Side) (v : Inv w) (f : IsFresh w p)
    (found : lookup fd w.descs ≡ some (desc_of w fd)) (s : Parked w p fd side w') where
  abbrev d : FdDesc
  d = desc_of w fd

  abbrev longer : List ℕ
  longer = queue_of side d ++ p ∷ []

  queued-Parked :
      (q : ℕ) → count q (queued w'.descs) ≡ count q (queued w.descs) + (if q == p then 1 else 0)
  queued-Parked q = omega (
    arith,
    queued-set_queue w w' fd side d longer v found s.descs s.conn_idents q,
    count-append q (queue_of side d) (p ∷ []),
  )

  pub tally-Parked : (q : ℕ) → tally w' q ≡ tally w q + (if q == p then 1 else 0)
  tally-Parked q = rw s.results (omega (arith, queued-Parked q))

  look :
      (j : ℕ)
      → lookup j w'.descs ≡ (if fd == j then some (set_queue side longer d) else lookup j w.descs)
  look j = lookup-set_queue w w' fd side d longer v found s.descs s.conn_idents j

  -- The new request is in no other queue.
  load_none : (j : ℕ) → load p (desc_of w j) ≡ 0
  load_none j = omega (arith, load-lookup p j w.descs, f.nowhere)

  placed-Parked :
      (q j : ℕ) (t : Side)
      → 0 < count q (queue_of t (desc_of w' j))
      → (cb_of w' q).place ≡ some (record { fd = j; side = t })
  placed-Parked q j t h = elim (Bool-cases (fd == j)) [
    | inr o ↦
        let kept : 0 < count q (queue_of t (desc_of w j)) = (let e = look j in rw (e, o) at h) in
        elim (Bool-cases (p == q)) [
          | inr ne ↦ ground (arith, s.tags q, v.placed q j t kept)
          | inl e ↦ absurd (ground (arith, load_none j, load-queue_of t p (desc_of w j)))
        ]
    | inl o ↦
        let same : fd ≡ j = ground arith in
        let here : 0 < count q (queue_of t (set_queue side longer d)) =
          (let e = look j in rw (e, o) at h) in
        elim (Bool-cases (p == q)) [
          | inr ne ↦
              ground (arith, s.tags q, v.placed q fd t, count-queue_of-append side t p q d ne)
          | inl e ↦
              let me : p ≡ q = ground arith in
              let t_eq = count-other_queue side t p d (load_none fd) (rw (← me) at here) in
              rw (t_eq, ← same) (ground (arith, s.tags q))
        ]
  ]

  pub Parked-Inv : Inv w'
  Parked-Inv = record {
    heap = s.heap;
    once = λ q. ground (arith, tally-Parked q, v.once q, f.nowhere);
    placed = placed-Parked;
    waiting = λ q h. ground (arith, queued-Parked q, s.members q, v.waiting q);
    armed = λ q h. ground (arith, queued-Parked q, s.members q, s.tags q, v.armed q);
    idents = idents-set_queue w w' fd side d longer v found s.descs s.conn_idents;
    owners = owners-set_queue w w' fd side d longer v found s.descs s.conn_idents;
    single = single-set_queue w w' fd side d longer v found s.descs s.conn_idents;
  }
