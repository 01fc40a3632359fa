-- ===== src/Timed/Laws.antt =====
-- heap.Pop and heap.Remove on the heap of deadlines (time.go).
use gaio.Common.{
  ℕ, zero, suc, ◌-◌, ◌≤◌, ◌<◌, ◌≡◌, refl, ◌∙◌, true, false, none, some, arith, length, ◌==◌,
  if◌then◌else◌, Bool-cases, Option-cases, inl, inr, length-take, get_or-take,
}
use gaio.Timed.{Timed, at, due, set_idx, swap, shrink, pop, expel, remove_at, down}
use gaio.Timed.Track.{
  Tracks, Kept, Kept-refl, at-swap, due-swap, length-swap, swap-Tracks, swap-Kept,
}
use gaio.Timed.Sift.{parent, IsHeapTo, IsHeap, up-Sifted, DownInv, down-Downed, Sifted}
use gaio.Timed.Push.{IsValid, holds, SameBodies}

-- `h'` is a valid heap of the requests of `h` without `p`.
pub record Removed (h : Timed) (p : ℕ) (h' : Timed) : Type 0 where
  pub valid : IsValid h'
  pub members : (q : ℕ) → holds h' q ≡ (if p == q then false else holds h q)
  pub bodies : SameBodies h h'
  pub size : suc (length h'.arr) ≡ length h.arr

-- heap.Pop and heap.Remove do not reset the index of what they take out; their callers do.
abbrev pub forget : Timed → ℕ → Timed
forget h p = record h { cbs = set_idx h.cbs p none }

-- What moving an entry to the end leaves.
record Expelled (n : ℕ) (h : Timed) (p : ℕ) (h' : Timed) : Type 0 where
  before : length h.arr ≡ suc n
  size : length h'.arr ≡ suc n
  tracks : Tracks h'
  order : IsHeapTo n h'
  last : at h' n ≡ p
  members : (q : ℕ) → holds h' q ≡ holds h q
  bodies : SameBodies h h'

shrink-Removed :
    (n : ℕ) (h : Timed) (p : ℕ) (h' : Timed)
    → Expelled n h p h'
    → ((shrink h').0 ≡ p) × Removed h p (forget (shrink h').1 p)
unfolding shrink
shrink-Removed n h p h' e =
    let m : length h'.arr - 1 ≡ n = omega (arith, e.size) in
    let size = length-take n h'.arr (omega (arith, e.size)) in
    let front = λ (c : ℕ). get_or-take n h'.arr c 0 in
    rw m (
      e.last,
      record {
        valid = record {
          tracks = record {
            fwd = λ c hc.
                ground (arith, size, front c, e.last, e.tracks.fwd c, e.tracks.fwd n, e.size);
            bwd = λ q c i.
                ground (arith, size, front c, e.last, e.tracks.bwd q c, e.tracks.fwd n, e.size);
          };
          order = λ c a b. ground (
            arith,
            size,
            front c,
            front (parent c),
            e.order c,
            e.tracks.fwd n,
            e.tracks.fwd c,
            e.tracks.fwd (parent c),
            e.size,
            e.last,
          );
        };
        members = λ q. ground (arith, e.members q);
        bodies = λ q. ground (arith, e.bodies q);
        size = omega (arith, e.before, size);
      },
    )

-- After the entry at `i` is swapped to the end, only the edges at `i` may be out of order.
swap-DownInv_last :
    (n : ℕ) (h : Timed) (i : ℕ)
    → IsValid h
    → length h.arr ≡ suc n
    → i ≤ n
    → DownInv n (swap h i n) i i
swap-DownInv_last n h i v size hi =
    let a : i < length h.arr = omega arith in
    let b : n < length h.arr = omega arith in
    let ds = due-swap h i n a b in
    record {
      room = omega (arith, length-swap h i n a b);
      inside = omega (arith, length-swap h i n a b);
      tracks = swap-Tracks h i n a b v.tracks;
      later = omega arith;
      edges = λ c p q r s. ground (arith, ds c, ds (parent c), v.order c);
      bridged = λ c p q r s. ground (arith, ds c, ds (parent i), v.order c, v.order i);
      top = λ p. absurd (p refl);
    }

module _ (n : ℕ) (h : Timed) (i : ℕ) (v : IsValid h) (size : length h.arr ≡ suc n)
    (hi : i ≤ n) where
  swapped-Kept : Kept (suc n) h (swap h i n)
  swapped-Kept = swap-Kept h i n (omega arith) (omega arith) (omega arith) (omega arith) v.tracks

  swapped_last : at (swap h i n) n ≡ at h i
  swapped_last = ground (arith, at-swap h i n (omega arith) (omega arith) n)

  Sifted-Expelled :
      {h' h'' : Timed} → Kept n (swap h i n) h' → Sifted n h' h'' → Expelled n h (at h i) h''
  Sifted-Expelled k s = record {
    before = size;
    size = omega (arith, size, swapped-Kept.size, k.size, s.kept.size);
    tracks = s.tracks;
    order = s.order;
    last = s.kept.tail n (omega arith) ∙ k.tail n (omega arith) ∙ swapped_last;
    members = λ q. s.kept.members q ∙ k.members q ∙ swapped-Kept.members q;
    bodies = λ q. s.kept.bodies q ∙ k.bodies q ∙ swapped-Kept.bodies q;
  }

expel-Expelled :
    (n : ℕ) (h : Timed) (i : ℕ)
    → IsValid h
    → length h.arr ≡ suc n
    → i < suc n
    → Expelled n h (at h i) (expel h i n)
unfolding expel
expel-Expelled n h i v size hi = elim (Bool-cases (n == i)) [
  | inl e ↦ rw e (record {
    before = size;
    size = size;
    tracks = v.tracks;
    order = λ c p q. v.order c p (omega arith);
    last = ground arith;
    members = λ q. refl;
    bodies = λ q. refl;
  })
  | inr e ↦
      let hn : i < n = ground arith in
      let hi : i ≤ n = omega arith in
      let d = down-Downed n (swap h i n) i (swap-DownInv_last n h i v size hi) in
      rw e (elim (Bool-cases (down (swap h i n) i n).0) [
        | inl moved ↦
            rw moved (Sifted-Expelled n h i v size hi (Kept-refl n (swap h i n)) (d.sifted moved))
        | inr stays ↦
            rw stays (Sifted-Expelled n h i v size hi d.kept (up-Sifted n _ i (d.upward stays hn)))
      ])
]

-- On a valid heap, heap.Remove at the index that a request records returns this request, and once
-- its index is reset the heap is valid, one shorter, and holds exactly the other requests, whose
-- fields other than the index are unchanged.
pub remove_at-Removed :
    (h : Timed) (p i : ℕ)
    → IsValid h
    → (h.cbs p).idx ≡ some i
    → ((remove_at h i).0 ≡ p) × Removed h p (forget (remove_at h i).1 p)
unfolding remove_at
remove_at-Removed h p i v e =
    let (hi, here) = v.tracks.bwd p i e in
    let n = length h.arr - 1 in
    let x = expel-Expelled n h i v (omega arith) (omega arith) in
    shrink-Removed n h p _ (rw here at x)

-- The root has the earliest deadline.
root_least_below :
    (k : ℕ) (h : Timed) (i : ℕ) → IsHeap h → i < k → i < length h.arr → due h 0 ≤ due h i
root_least_below zero h i o f hi = absurd (omega arith)
root_least_below (suc k) h zero o f hi = omega arith
root_least_below (suc k) h (suc i) o f hi = omega (
  arith,
  o (suc i) (omega arith) hi,
  root_least_below k h (parent (suc i)) o (omega arith) (omega arith),
)

pub root_least : (h : Timed) (p : ℕ) → IsValid h → holds h p ≡ true → due h 0 ≤ (h.cbs p).deadline
root_least h p v e = elim (Option-cases (h.cbs p).idx) [
  | inl out ↦ cc
  | inr (i, found) ↦
      let (hi, here) = v.tracks.bwd p i found in
      rw (← here) (root_least_below (suc i) h i v.order (omega arith) hi)
]

-- An empty heap holds nothing.
pub holds_none : (h : Timed) (p : ℕ) → IsValid h → length h.arr ≡ 0 → holds h p ≡ false
holds_none h p v e = elim (Option-cases (h.cbs p).idx) [
  | inl out ↦ rw out
  | inr (i, found) ↦ absurd (omega (arith, (v.tracks.bwd p i found).0))
]

-- On a valid heap that is not empty, heap.Pop returns the request at the root, and once its index
-- is reset the heap is valid, one shorter, and holds exactly the other requests, whose fields other
-- than the index are unchanged.
pub pop-Removed :
    (h : Timed)
    → IsValid h
    → 0 < length h.arr
    → ((pop h).0 ≡ at h 0) × Removed h (at h 0) (forget (pop h).1 (at h 0))
unfolding pop
pop-Removed h v pos =
    let n = length h.arr - 1 in
    let size : length h.arr ≡ suc n = omega arith in
    let d = down-Downed n (swap h 0 n) 0 (swap-DownInv_last n h 0 v size (omega arith)) in
    shrink-Removed n h (at h 0) _
      (Sifted-Expelled n h 0 v size (omega arith) (Kept-refl n (swap h 0 n)) (d.root refl))
