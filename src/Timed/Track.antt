-- ===== src/Timed/Track.antt =====
-- What the heap's functions leave alone, and the indices that the requests record (time.go).
use gaio.Common.{
  ℕ, ◌≤◌, ◌<◌, ◌≡◌, refl, ◌∙◌, none, some, arith, length, is_some, length-set, get_or-set, ◌==◌,
  if◌then◌else◌, set,
}
use gaio.Types.{Aiocb}
use gaio.Timed.{Timed, at, due, swap}

-- A request's index is `some i` exactly when it stands at position `i`.
pub record Tracks (h : Timed) : Type 0 where
  pub fwd : (i : ℕ) → i < length h.arr → (h.cbs (at h i)).idx ≡ some i
  pub bwd : (p i : ℕ) → (h.cbs p).idx ≡ some i → (i < length h.arr) × (at h i ≡ p)

-- A request without its index.
abbrev pub body : Aiocb → Aiocb
body cb = record cb { idx = none }

-- `h'` has the requests of `h`: no field but `idx` has changed, and positions from `n` on are as
-- before.
pub record Kept (n : ℕ) (h h' : Timed) : Type 0 where
  pub size : length h'.arr ≡ length h.arr
  pub tail : (c : ℕ) → n ≤ c → at h' c ≡ at h c
  pub members : (p : ℕ) → is_some (h'.cbs p).idx ≡ is_some (h.cbs p).idx
  pub bodies : (p : ℕ) → body (h'.cbs p) ≡ body (h.cbs p)

pub Kept-refl : (n : ℕ) (h : Timed) → Kept n h h
Kept-refl n h = record { size = refl; tail = λ c p. refl; members = λ p. refl; bodies = λ p. refl }

pub Kept-trans : {n : ℕ} {h h' h'' : Timed} → Kept n h h' → Kept n h' h'' → Kept n h h''
Kept-trans k l = record {
  size = l.size ∙ k.size;
  tail = λ c p. l.tail c p ∙ k.tail c p;
  members = λ p. l.members p ∙ k.members p;
  bodies = λ p. l.bodies p ∙ k.bodies p;
}

module _ (h : Timed) (i j : ℕ) (hi : i < length h.arr) (hj : j < length h.arr) where
  pub at-swap :
      (c : ℕ) → at (swap h i j) c ≡ (if j == c then at h i else if i == c then at h j else at h c)
  unfolding swap
  at-swap c = ground (
    arith,
    get_or-set (set h.arr i (at h j)) j c (at h i) 0,
    get_or-set h.arr i c (at h j) 0,
    length-set h.arr i (at h j),
  )

  pub length-swap : length (swap h i j).arr ≡ length h.arr
  unfolding swap
  length-swap =
      ground (arith, length-set (set h.arr i (at h j)) j (at h i), length-set h.arr i (at h j))

  pub idx-swap :
      (p : ℕ)
      → ((swap h i j).cbs p).idx
        ≡ (if at h i == p then some j else if at h j == p then some i else (h.cbs p).idx)
  unfolding swap
  idx-swap p = ground arith

  pub body-swap : (p : ℕ) → body ((swap h i j).cbs p) ≡ body (h.cbs p)
  unfolding swap
  body-swap p = ground arith

  pub due-swap :
      (c : ℕ)
      → due (swap h i j) c ≡ (if j == c then due h i else if i == c then due h j else due h c)
  due-swap c = ground (arith, at-swap c, body-swap (at (swap h i j) c))

  pub swap-Tracks : Tracks h → Tracks (swap h i j)
  swap-Tracks t = record {
    fwd = λ c hc. ground (
      arith,
      length-swap,
      at-swap c,
      idx-swap (at (swap h i j) c),
      t.fwd i hi,
      t.fwd j hj,
      t.fwd c,
    );
    bwd = λ p c e.
        ground (arith, length-swap, at-swap c, idx-swap p, t.fwd i hi, t.fwd j hj, t.bwd p c);
  }

  pub swap-Kept : {n : ℕ} → i < n → j < n → Tracks h → Kept n h (swap h i j)
  swap-Kept p q t = record {
    size = length-swap;
    tail = λ c r. ground (arith, at-swap c);
    members = λ p. ground (arith, idx-swap p, t.fwd i hi, t.fwd j hj);
    bodies = body-swap;
  }
