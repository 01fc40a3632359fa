-- ===== src/Watcher/Invariant/Moves.antt =====
-- A queued request that is answered (watcher.go): what changes in the queues, the heap and
-- chResults.
use gaio.Common.{
  ℕ, ◌+◌, ◌≤◌, ◌<◌, ◌≡◌, refl, ap, inl, inr, false, List, Option, none, some, arith, if◌then◌else◌,
  ◌==◌, count, remove, count-remove, lookup, insert, lookup-insert, count-keys-insert, keys,
  Bool-cases, ==_refl,
}
use gaio.Types.{Side, readers, writers}
use gaio.Timed.Push.{IsValid, holds}
use gaio.Watcher.{Watcher, FdDesc, cb_of, queue_of, set_queue, or_empty, desc_of}
use gaio.Watcher.Invariant.{queued, load, tally, tag, Inv, queued-insert}

-- The record of a descriptor after one queue is replaced.
module _ (side : Side) (xs : List ℕ) (d : FdDesc) where
  pub load-set_queue :
      (q : ℕ) → load q (set_queue side xs d) + count q (queue_of side d) ≡ load q d + count q xs
  load-set_queue q = by_side side
    where
      by_side :
          (s : Side) → load q (set_queue s xs d) + count q (queue_of s d) ≡ load q d + count q xs
      by_side readers = omega arith
      by_side writers = omega arith

  pub ptr-set_queue : (set_queue side xs d).ptr ≡ d.ptr
  ptr-set_queue = by_side side
    where
      by_side : (s : Side) → (set_queue s xs d).ptr ≡ d.ptr
      by_side readers = refl
      by_side writers = refl

  pub queue_of-set_queue : queue_of side (set_queue side xs d) ≡ xs
  queue_of-set_queue = by_side side
    where
      by_side : (s : Side) → queue_of s (set_queue s xs d) ≡ xs
      by_side readers = refl
      by_side writers = refl

pub load-queue_of : (side : Side) (q : ℕ) (d : FdDesc) → count q (queue_of side d) ≤ load q d
load-queue_of readers q d = omega arith
load-queue_of writers q d = omega arith

-- `w'` is `w` with another record for the registered descriptor `fd`, in which only one queue
-- differs.
module _ (w w' : Watcher) (fd : ℕ) (side : Side) (d : FdDesc) (xs : List ℕ) (v : Inv w)
    (found : lookup fd w.descs ≡ some d)
    (descs : w'.descs ≡ insert fd (set_queue side xs d) w.descs)
    (conn_idents : w'.conn_idents ≡ w.conn_idents) where
  pub queued-set_queue :
      (q : ℕ)
      → count q (queued w'.descs) + count q (queue_of side d)
        ≡ count q (queued w.descs) + count q xs
  queued-set_queue q =
      ground (arith, queued-insert fd q (set_queue side xs d) w.descs, load-set_queue side xs d q)

  pub lookup-set_queue :
      (j : ℕ)
      → lookup j w'.descs ≡ (if fd == j then some (set_queue side xs d) else lookup j w.descs)
  lookup-set_queue j = rw descs (lookup-insert fd j (set_queue side xs d) w.descs)

  pub idents-set_queue :
      (ptr j : ℕ)
      → lookup ptr w'.conn_idents ≡ some j
      → (x : FdDesc) × (lookup j w'.descs ≡ some x) × (x.ptr ≡ ptr)
  idents-set_queue ptr j e =
      let (x, a, b) = v.idents ptr j (rw conn_idents at e) in
      elim (Bool-cases (fd == j)) [
        | inl s ↦ (
          set_queue side xs d,
          ground (arith, lookup-set_queue j),
          ground (arith, ptr-set_queue side xs d),
        )
        | inr s ↦ (x, ground (arith, lookup-set_queue j), b)
      ]

  pub owners-set_queue :
      (j : ℕ) (x : FdDesc) → lookup j w'.descs ≡ some x → lookup x.ptr w'.conn_idents ≡ some j
  owners-set_queue j x e = ground (
    arith,
    lookup-set_queue j,
    ptr-set_queue side xs d,
    v.owners fd d found,
    v.owners j x,
    ap (λ (t : ℕ). lookup t w.conn_idents) (ptr-set_queue side xs d),
  )

  pub single-set_queue : (j : ℕ) → count j (keys w'.descs) ≤ 1
  single-set_queue j =
      ground (arith, count-keys-insert fd j (set_queue side xs d) w.descs, v.single j)

queue_of-remove :
    (side t : Side) (p q : ℕ) (d : FdDesc)
    → 0 < count p (queue_of side d)
    → count q (queue_of t (set_queue side (remove p (queue_of side d)) d)) ≤ count q (queue_of t d)
queue_of-remove readers readers p q d h = omega (arith, count-remove p q d.reads h)
queue_of-remove readers writers p q d h = omega arith
queue_of-remove writers readers p q d h = omega arith
queue_of-remove writers writers p q d h = omega (arith, count-remove p q d.writes h)

-- A waiting request is answered: it leaves the queue and the heap, and enters chResults or is
-- dropped.
pub record Settled (w : Watcher) (p fd : ℕ) (side : Side) (w' : Watcher) : Type 0 where
  pub heap : IsValid w'.timed
  pub members : (q : ℕ) → holds w'.timed q ≡ (if p == q then false else holds w.timed q)
  pub tags : (q : ℕ) → tag (cb_of w' q) ≡ tag (cb_of w q)
  pub descs :
      w'.descs
      ≡ insert fd (set_queue side (remove p (queue_of side (desc_of w fd))) (desc_of w fd)) w.descs
  pub conn_idents : w'.conn_idents ≡ w.conn_idents
  pub results : (q : ℕ) → count q w'.results ≤ (if p == q then 1 else 0) + count q w.results
  pub sent :
      w.die ≡ false → (q : ℕ) → count q w'.results ≡ (if p == q then 1 else 0) + count q w.results
  pub die : w'.die ≡ w.die

queue_of-lookup :
    (p : ℕ) (side : Side) (o : Option FdDesc)
    → 0 < count p (queue_of side (or_empty o))
    → o ≡ some (or_empty o)
queue_of-lookup p readers none h = absurd (omega arith)
queue_of-lookup p writers none h = absurd (omega arith)
queue_of-lookup p side (some d) h = refl

module _ (w w' : Watcher) (p fd : ℕ) (side : Side) (v : Inv w)
    (waits : 0 < count p (queue_of side (desc_of w fd))) (s : Settled w p fd side w') where
  abbrev d : FdDesc
  d = desc_of w fd

  abbrev rest : List ℕ
  rest = remove p (queue_of side d)

  found : lookup fd w.descs ≡ some d
  found = queue_of-lookup p side (lookup fd w.descs) waits

  queued-Settled :
      (q : ℕ) → count q (queued w'.descs) + (if p == q then 1 else 0) ≡ count q (queued w.descs)
  queued-Settled q = omega (
    arith,
    queued-set_queue w w' fd side d rest v found s.descs s.conn_idents q,
    count-remove p q (queue_of side d) waits,
  )

  pub tally-Settled : (q : ℕ) → tally w' q ≤ tally w q
  tally-Settled q = omega (arith, queued-Settled q, s.results q)

  pub tally-Settled_eq : w.die ≡ false → (q : ℕ) → tally w' q ≡ tally w q
  tally-Settled_eq on q = omega (arith, queued-Settled q, s.sent on q)

  pub queue-Settled : queue_of side (desc_of w' fd) ≡ rest
  queue-Settled = ground (
    arith,
    lookup-set_queue w w' fd side d rest v found s.descs s.conn_idents fd,
    ==_refl fd,
    queue_of-set_queue side rest d,
  )

  s_place : (q : ℕ) → (cb_of w' q).place ≡ (cb_of w q).place
  s_place q = ground (arith, s.tags q)

  placed-Settled :
      (q j : ℕ) (t : Side)
      → 0 < count q (queue_of t (desc_of w' j))
      → (cb_of w' q).place ≡ some (record { fd = j; side = t })
  placed-Settled q j t h = elim (Bool-cases (fd == j)) [
    | inr o ↦ ground (
      arith,
      s.tags q,
      v.placed q j t,
      lookup-set_queue w w' fd side d rest v found s.descs s.conn_idents j,
    )
    | inl o ↦
        let now = lookup-set_queue w w' fd side d rest v found s.descs s.conn_idents j in
        let here : 0 < count q (queue_of t (set_queue side rest d)) = rw (now, o) at h in
        let same : fd ≡ j = ground arith in
        let kept : 0 < count q (queue_of t d) =
          omega (arith, here, queue_of-remove side t p q d waits) in
        rw (s_place q, ← same) (v.placed q fd t kept)
  ]

  pub Settled-Inv : Inv w'
  Settled-Inv = record {
    heap = s.heap;
    once = λ q. omega (arith, tally-Settled q, v.once q);
    placed = placed-Settled;
    waiting = λ q h. ground (arith, queued-Settled q, s.members q, v.waiting q);
    armed = λ q h. ground (arith, queued-Settled q, s.members q, s.tags q, v.armed q, v.once q);
    idents = idents-set_queue w w' fd side d rest v found s.descs s.conn_idents;
    owners = owners-set_queue w w' fd side d rest v found s.descs s.conn_idents;
    single = single-set_queue w w' fd side d rest v found s.descs s.conn_idents;
  }
