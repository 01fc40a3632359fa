-- ===== src/Watcher/Invariant.antt =====
-- The invariant of the watcher's state between two handlers (watcher.go): where a request can be,
-- and how the maps, the queues and the heap of deadlines agree.
pub mod Moves
pub mod Park
pub mod Refit
use gaio.Common.{
  ℕ, ◌+◌, ◌-◌, ◌≤◌, ◌<◌, ◌≡◌, refl, inl, inr, true, false, not, List, [], ◌∷◌, ◌++◌, none, some,
  arith, ◌==◌, count, count-append, lookup, insert, delete, keys, Bool-cases, delete_absent, ltb,
  ==_refl, count-keys,
}
use gaio.Types.{Side, readers, writers, Aiocb, nil}
use gaio.Timed.{at}
use gaio.Timed.Push.{IsValid, IsValid-same, holds}
use gaio.Watcher.{Watcher, FdDesc, cb_of, queue_of, or_empty, desc_of}

-- All requests that wait in a queue.
abbrev pub queued : List (ℕ × FdDesc) → List ℕ
queued [] = []
queued ((i, d) ∷ m) = d.reads ++ (d.writes ++ queued m)

abbrev pub load : ℕ → FdDesc → ℕ
load p d = count p d.reads + count p d.writes

-- How often a request stands in a queue or in chResults.
abbrev pub tally : Watcher → ℕ → ℕ
tally w p = count p (queued w.descs) + count p w.results

-- The fields that no attempt to transfer changes, less the index.
abbrev pub tag : Aiocb → Aiocb
tag cb = record cb { err = none; size = 0; buffer = nil; use_swap = false; idx = none }

pub record Inv (w : Watcher) : Type 0 where
  pub heap : IsValid w.timed
  -- A request is in one place.
  pub once : (p : ℕ) → tally w p ≤ 1
  -- It knows the queue that it stands in.
  pub placed :
      (p fd : ℕ) (side : Side)
      → 0 < count p (queue_of side (desc_of w fd))
      → (cb_of w p).place ≡ some (record { fd = fd; side = side })
  -- The heap holds exactly the waiting requests with a deadline.
  pub waiting : (p : ℕ) → holds w.timed p ≡ true → 0 < count p (queued w.descs)
  pub armed :
      (p : ℕ) → 0 < count p (queued w.descs) → holds w.timed p ≡ not ((cb_of w p).deadline == 0)
  -- The two maps of registrations are inverse to one another.
  pub idents :
      (ptr fd : ℕ)
      → lookup ptr w.conn_idents ≡ some fd
      → (d : FdDesc) × (lookup fd w.descs ≡ some d) × (d.ptr ≡ ptr)
  pub owners :
      (fd : ℕ) (d : FdDesc) → lookup fd w.descs ≡ some d → lookup d.ptr w.conn_idents ≡ some fd
  pub single : (fd : ℕ) → count fd (keys w.descs) ≤ 1

-- `w'` differs from `w` at most in what an attempt to transfer changes, or in what the invariant
-- does not read.
pub record Frame (w w' : Watcher) : Type 0 where
  pub arr : w'.timed.arr ≡ w.timed.arr
  pub idx : (p : ℕ) → (cb_of w' p).idx ≡ (cb_of w p).idx
  pub tags : (p : ℕ) → tag (cb_of w' p) ≡ tag (cb_of w p)
  pub descs : w'.descs ≡ w.descs
  pub conn_idents : w'.conn_idents ≡ w.conn_idents
  pub results : w'.results ≡ w.results
  pub die : w'.die ≡ w.die

-- Where none of what the invariant reads has changed.
pub Frame-aside :
    {w w' : Watcher}
    → w'.timed ≡ w.timed
    → w'.descs ≡ w.descs
    → w'.conn_idents ≡ w.conn_idents
    → w'.results ≡ w.results
    → w'.die ≡ w.die
    → Frame w w'
Frame-aside timed descs conn_idents results die = record {
  arr = rw timed;
  idx = λ p. rw timed;
  tags = λ p. rw timed;
  descs = descs;
  conn_idents = conn_idents;
  results = results;
  die = die;
}

pub Frame-refl : (w : Watcher) → Frame w w
Frame-refl w = Frame-aside refl refl refl refl refl

pub Frame-IsValid : {w w' : Watcher} → Frame w w' → IsValid w.timed → IsValid w'.timed
Frame-IsValid f = IsValid-same f.arr f.idx (λ p _. ground (arith, f.tags p))

pub Frame-Inv : {w w' : Watcher} → Frame w w' → Inv w → Inv w'
Frame-Inv {w} {w'} f v = record {
  heap = Frame-IsValid f v.heap;
  once = λ p. rw (f.descs, f.results) (v.once p);
  placed = λ p fd side h. ground (arith, f.tags p, v.placed p fd side (rw f.descs at h));
  waiting = λ p h. let e = f.idx p in rw f.descs (v.waiting p (rw e at h));
  armed = λ p h. ground (arith, f.idx p, f.tags p, v.armed p (rw f.descs at h));
  idents = rw (f.descs, f.conn_idents) v.idents;
  owners = rw (f.descs, f.conn_idents) v.owners;
  single = rw f.descs v.single;
}

queued-cons :
    (p i : ℕ) (d : FdDesc) (m : List (ℕ × FdDesc))
    → count p (queued ((i, d) ∷ m)) ≡ load p d + count p (queued m)
queued-cons p i d m =
    omega (arith, count-append p d.reads (d.writes ++ queued m), count-append p d.writes (queued m))

-- Storing a descriptor record trades the requests of the old one for those of the new one.
pub queued-insert :
    (fd p : ℕ) (d : FdDesc) (m : List (ℕ × FdDesc))
    → count p (queued (insert fd d m)) + load p (or_empty (lookup fd m))
      ≡ count p (queued m) + load p d
unfolding insert lookup
queued-insert fd p d [] = omega (arith, queued-cons p fd d [])
queued-insert fd p d ((i, x) ∷ m) = elim (Bool-cases (fd == i)) [
  | inl e ↦ rw e (omega (arith, queued-cons p fd d m, queued-cons p i x m))
  | inr e ↦ rw e (
      omega (arith, queued-cons p i x (insert fd d m), queued-cons p i x m, queued-insert fd p d m))
]

-- Deleting a descriptor record takes out its requests.
pub queued-delete :
    (fd p : ℕ) (m : List (ℕ × FdDesc))
    → ((j : ℕ) → count j (keys m) ≤ 1)
    → count p (queued (delete fd m)) + load p (or_empty (lookup fd m)) ≡ count p (queued m)
unfolding delete lookup
queued-delete fd p [] h = refl
queued-delete fd p ((i, x) ∷ m) h = elim (Bool-cases (fd == i)) [
  | inl e ↦
      let gone = delete_absent fd m (ground (arith, h fd)) in
      rw (e, gone) (omega (arith, queued-cons p i x m))
  | inr e ↦ rw e (
      omega (
        arith,
        queued-cons p i x (delete fd m),
        queued-cons p i x m,
        queued-delete fd p m (λ j. ground (arith, h j)),
      ))
]

-- A request that waits is in one of the two queues of a descriptor.
pub queued-lookup :
    (p : ℕ) (m : List (ℕ × FdDesc))
    → ((j : ℕ) → count j (keys m) ≤ 1)
    → 0 < count p (queued m)
    → (fd : ℕ) × (side : Side) × (0 < count p (queue_of side (or_empty (lookup fd m))))
unfolding lookup
queued-lookup p [] h q = absurd (omega arith)
queued-lookup p ((i, x) ∷ m) h q = elim (Bool-cases (ltb 0 (count p x.reads))) [
  | inl r ↦ (i, readers, ground (arith, ==_refl i))
  | inr r ↦ elim (Bool-cases (ltb 0 (count p x.writes))) [
    | inl s ↦ (i, writers, ground (arith, ==_refl i))
    | inr s ↦
        let (fd, side, t) =
          queued-lookup p m (λ j. ground (arith, h j)) (ground (arith, queued-cons p i x m)) in
        (
          fd,
          side,
          elim (Bool-cases (fd == i)) [
            | inl e ↦ absurd (ground (arith, count-keys fd m, h fd))
            | inr e ↦ rw e t
          ],
        )
  ]
]

pub load-lookup :
    (p fd : ℕ) (m : List (ℕ × FdDesc)) → load p (or_empty (lookup fd m)) ≤ count p (queued m)
unfolding lookup
load-lookup p fd [] = omega arith
load-lookup p fd ((i, x) ∷ m) = elim (Bool-cases (fd == i)) [
  | inl e ↦ rw e (omega (arith, queued-cons p i x m))
  | inr e ↦ rw e (omega (arith, queued-cons p i x m, load-lookup p fd m))
]
