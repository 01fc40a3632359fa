-- ===== src/Timed/Sift.antt =====
-- container/heap's `up` and `down`, and the deadline order (time.go's Less and Swap).
use gaio.Common.{
  ℕ, zero, suc, ◌+◌, ◌-◌, ◌*◌, ◌/◌, ◌≤◌, ◌<◌, ◌≡◌, ◌≢◌, ◌⊎◌, inl, inr, Bool, true, false, arith,
  length, ltb, ◌==◌, Bool-cases,
}
use gaio.Timed.{Timed, due, swap, less, up_loop, up, smaller_child, down_loop, down}
use gaio.Timed.Track.{
  Tracks, Kept, Kept-refl, Kept-trans, due-swap, length-swap, swap-Tracks, swap-Kept,
}

abbrev pub parent : ℕ → ℕ
parent c = (c - 1) / 2

-- The first `n` entries are in heap order.
abbrev pub IsHeapTo : ℕ → Timed → Type 0
IsHeapTo n h = (c : ℕ) → 0 < c → c < n → due h (parent c) ≤ due h c

abbrev pub IsHeap : Timed → Type 0
IsHeap h = IsHeapTo (length h.arr) h

-- Only the edge into `j` may be out of order.
pub record UpInv (n : ℕ) (h : Timed) (j : ℕ) : Type 0 where
  pub inside : j < n
  pub room : n ≤ length h.arr
  pub tracks : Tracks h
  pub edges : (c : ℕ) → 0 < c → c < n → c ≢ j → due h (parent c) ≤ due h c
  pub bridged : (c : ℕ) → 0 < c → c < n → parent c ≡ j → 0 < j → due h (parent j) ≤ due h c

-- `h'` has the entries of `h`, the first `n` of them in order.
pub record Sifted (n : ℕ) (h h' : Timed) : Type 0 where
  pub tracks : Tracks h'
  pub kept : Kept n h h'
  pub order : IsHeapTo n h'

Sifted-after : {n : ℕ} {h h' h'' : Timed} → Kept n h h' → Sifted n h' h'' → Sifted n h h''
Sifted-after k s = record { tracks = s.tracks; kept = Kept-trans k s.kept; order = s.order }

swap-UpInv :
    (n : ℕ) (h : Timed) (j : ℕ)
    → UpInv n h j
    → 0 < j
    → due h j < due h (parent j)
    → UpInv n (swap h (parent j) j) (parent j)
swap-UpInv n h j v pos below =
    let hp : parent j < length h.arr = omega (arith, v.inside, v.room) in
    let hj : j < length h.arr = omega (arith, v.inside, v.room) in
    let ds = due-swap h (parent j) j hp hj in
    record {
      inside = omega (arith, v.inside);
      room = omega (arith, v.room, length-swap h (parent j) j hp hj);
      tracks = swap-Tracks h (parent j) j hp hj v.tracks;
      edges = λ c p q r.
          ground (arith, ds c, ds (parent c), v.edges c, v.edges (parent j), v.bridged c);
      bridged = λ c p q r s.
          ground (arith, ds c, ds (parent (parent j)), v.edges c, v.edges (parent j), v.inside);
    }

up_loop-Sifted : (k n : ℕ) (h : Timed) (j : ℕ) → j < k → UpInv n h j → Sifted n h (up_loop k h j)
unfolding up_loop less
up_loop-Sifted zero n h j f v = absurd (omega arith)
up_loop-Sifted (suc k) n h j f v = elim (Bool-cases (parent j == j)) [
  | inl root ↦ rw root (record {
    tracks = v.tracks;
    kept = Kept-refl n h;
    order = λ c p q. v.edges c p q (ground arith);
  })
  | inr inner ↦ rw inner (elim (Bool-cases (ltb (due h j) (due h (parent j)))) [
    | inl below ↦
        let hp : parent j < length h.arr = omega (arith, v.inside, v.room) in
        let hj : j < length h.arr = omega (arith, v.inside, v.room) in
        let pos : 0 < j = ground arith in
        rw below (
          Sifted-after (swap-Kept h (parent j) j hp hj (omega (arith, v.inside)) v.inside v.tracks)
            (up_loop-Sifted k n (swap h (parent j) j) (parent j) (omega arith)
              (swap-UpInv n h j v pos (ground arith))))
    | inr settled ↦ rw settled (record {
      tracks = v.tracks;
      kept = Kept-refl n h;
      order = λ c p q. ground (arith, v.edges c);
    })
  ])
]

-- `up` brings the entry at `j` to its place.
pub up-Sifted : (n : ℕ) (h : Timed) (j : ℕ) → UpInv n h j → Sifted n h (up h j)
unfolding up
up-Sifted n h j v = up_loop-Sifted (suc j) n h j (omega arith) v

-- While `down` that began at `i0` stands at `i`, only the edges at `i` and the one into `i0` may be
-- out of order.
pub record DownInv (n : ℕ) (h : Timed) (i0 i : ℕ) : Type 0 where
  pub room : n ≤ length h.arr
  pub inside : i < length h.arr
  pub tracks : Tracks h
  pub later : i0 ≤ i
  pub edges : (c : ℕ) → 0 < c → c < n → parent c ≢ i → c ≢ i0 → due h (parent c) ≤ due h c
  pub bridged : (c : ℕ) → 0 < c → c < n → parent c ≡ i → 0 < i → due h (parent i) ≤ due h c
  pub top : i0 ≢ i → 0 < i0 → i0 < n → due h (parent i0) ≤ due h i0

-- `m` is a child of `i` with the earlier deadline.
record IsSmallerChild (n : ℕ) (h : Timed) (i m : ℕ) : Type 0 where
  inside : m < n
  child : (m ≡ 2 * i + 1) ⊎ (m ≡ 2 * i + 2)
  least : (c : ℕ) → 0 < c → c < n → parent c ≡ i → due h m ≤ due h c

smaller_child-IsSmallerChild :
    (n : ℕ) (h : Timed) (i : ℕ) → 2 * i + 1 < n → IsSmallerChild n h i (smaller_child h n i)
unfolding smaller_child less
smaller_child-IsSmallerChild n h i p = grind arith

swap-DownInv :
    (n : ℕ) (h : Timed) (i0 i m : ℕ)
    → DownInv n h i0 i
    → IsSmallerChild n h i m
    → due h m < due h i
    → DownInv n (swap h i m) i0 m
swap-DownInv n h i0 i m v s below =
    let hm : m < length h.arr = omega (arith, s.inside, v.room) in
    let ds = due-swap h i m v.inside hm in
    record {
      room = omega (arith, v.room, length-swap h i m v.inside hm);
      inside = omega (arith, hm, length-swap h i m v.inside hm);
      tracks = swap-Tracks h i m v.inside hm v.tracks;
      later = ground (arith, v.later, s.child);
      edges = λ c p q r t.
          ground
            (arith, ds c, ds (parent c), v.edges c, v.bridged m, s.least c, s.child, v.bridged c);
      bridged = λ c p q r t. ground (arith, ds c, ds (parent m), v.edges c, s.child, v.later);
      top = λ p q r.
          ground (arith, ds i0, ds (parent i0), v.bridged m, v.top, s.child, v.later, s.inside);
    }

-- What `down` from `i0` leaves when it ends at `i`: all edges are in order but the one into `i0`,
-- and that one too if the entry moved.
pub record Sunk (n : ℕ) (h : Timed) (i0 i : ℕ) (h' : Timed) : Type 0 where
  pub tracks : Tracks h'
  pub kept : Kept n h h'
  pub edges : (c : ℕ) → 0 < c → c < n → c ≢ i0 → due h' (parent c) ≤ due h' c
  pub later : i0 ≤ i
  pub moved : i0 ≢ i → 0 < i0 → i0 < n → due h' (parent i0) ≤ due h' i0
  pub stayed :
      i0 ≡ i → (c : ℕ) → 0 < c → c < n → parent c ≡ i0 → 0 < i0 → due h' (parent i0) ≤ due h' c

Sunk-after : {n i0 i : ℕ} {h h' h'' : Timed} → Kept n h h' → Sunk n h' i0 i h'' → Sunk n h i0 i h''
Sunk-after k s = record {
  tracks = s.tracks;
  kept = Kept-trans k s.kept;
  edges = s.edges;
  later = s.later;
  moved = s.moved;
  stayed = s.stayed;
}

DownInv-Sunk :
    (n : ℕ) (h : Timed) (i0 i : ℕ)
    → DownInv n h i0 i
    → ((c : ℕ) → 0 < c → c < n → parent c ≡ i → due h i ≤ due h c)
    → Sunk n h i0 i h
DownInv-Sunk n h i0 i v below = record {
  tracks = v.tracks;
  kept = Kept-refl n h;
  edges = λ c p q r. ground (arith, v.edges c, below c);
  later = v.later;
  moved = v.top;
  stayed = λ e c p q r s. ground (arith, v.bridged c);
}

down_loop-Sunk :
    (k n : ℕ) (h : Timed) (i0 i : ℕ)
    → n - i < k
    → DownInv n h i0 i
    → let r = down_loop k h i n in Sunk n h i0 r.0 r.1
unfolding down_loop less
down_loop-Sunk zero n h i0 i f v = absurd (omega arith)
down_loop-Sunk (suc k) n h i0 i f v = elim (Bool-cases (ltb (2 * i + 1) n)) [
  | inr leaf ↦ rw leaf (DownInv-Sunk n h i0 i v (λ c p q r. absurd (ground arith)))
  | inl inner ↦
      let m = smaller_child h n i in
      let s = smaller_child-IsSmallerChild n h i (ground arith) in
      rw inner (elim (Bool-cases (ltb (due h m) (due h i))) [
        | inr settled ↦ rw settled (DownInv-Sunk n h i0 i v (λ c p q r. ground (arith, s.least c)))
        | inl below ↦
            let hm : m < length h.arr = omega (arith, s.inside, v.room) in
            let hi : i < n = omega (arith, s.inside, s.child) in
            rw below (
              Sunk-after (swap-Kept h i m v.inside hm hi s.inside v.tracks) (
                down_loop-Sunk k n (swap h i m) i0 m (omega (arith, s.inside, s.child))
                  (swap-DownInv n h i0 i m v s (ground arith))))
      ])
]

-- What `down` gives: whether the entry moved, and the heap.
pub record Downed (n : ℕ) (h : Timed) (i0 : ℕ) (r : Bool × Timed) : Type 0 where
  pub sifted : r.0 ≡ true → Sifted n h r.1
  pub upward : r.0 ≡ false → i0 < n → UpInv n r.1 i0
  pub root : i0 ≡ 0 → Sifted n h r.1
  pub kept : Kept n h r.1
  pub tracks : Tracks r.1

-- `down` brings the entry at `i0` down to its place; if it does not move, `up` has to finish.
pub down-Downed : (n : ℕ) (h : Timed) (i0 : ℕ) → DownInv n h i0 i0 → Downed n h i0 (down h i0 n)
unfolding down
down-Downed n h i0 v = record {
  sifted = λ e. record {
    tracks = s.tracks;
    kept = s.kept;
    order = λ c p q. ground (arith, s.edges c, s.moved);
  };
  upward = λ e p. record {
    inside = p;
    room = omega (arith, v.room, s.kept.size);
    tracks = s.tracks;
    edges = s.edges;
    bridged = λ c q t u w. s.stayed (ground (arith, s.later)) c q t u w;
  };
  root = λ e. record {
    tracks = s.tracks;
    kept = s.kept;
    order = λ c p q. s.edges c p q (omega arith);
  };
  kept = s.kept;
  tracks = s.tracks;
}
  where
    s : let r = down_loop (suc n) h i0 n in Sunk n h i0 r.0 r.1
    s = down_loop-Sunk (suc n) n h i0 i0 (omega arith) v
