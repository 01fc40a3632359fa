-- ===== src/Timed/Bodies.antt =====
-- The heap's functions change no field of a request but its index, on any heap (time.go).
use gaio.Common.{
  ℕ, zero, suc, ◌-◌, ◌*◌, ◌+◌, ◌/◌, ◌≡◌, ◌<◌, refl, ap, set, length-set, length-take, ◌∙◌, arith,
  if_both, ◌==◌, ltb, length, ◌++◌, ◌∷◌, [], some,
}
use gaio.Timed.{
  Timed, set_idx, at, less, swap, append, shrink, up_loop, up, smaller_child, down_loop, down, push,
  pop, expel, remove_at,
}
use gaio.Timed.Track.{body}
use gaio.Timed.Laws.{forget}

-- `h'` has the requests of `h` with other indices.
abbrev pub SameBodies : Timed → Timed → Type 0
SameBodies h h' = (p : ℕ) → body (h'.cbs p) ≡ body (h.cbs p)

swap-SameBodies : (h : Timed) (i j : ℕ) → SameBodies h (swap h i j)
unfolding swap
swap-SameBodies h i j p = ground arith

up_loop-SameBodies : (k : ℕ) (h : Timed) (j : ℕ) → SameBodies h (up_loop k h j)
unfolding up_loop
up_loop-SameBodies zero h j p = refl
up_loop-SameBodies (suc k) h j p =
    let i = (j - 1) / 2 in
    let rise = up_loop-SameBodies k (swap h i j) i p ∙ swap-SameBodies h i j p in
    if_both (λ (h' : Timed). body (h'.cbs p) ≡ body (h.cbs p)) (i == j) _ _ refl
      (if_both (λ (h' : Timed). body (h'.cbs p) ≡ body (h.cbs p)) (less h j i) _ _ rise refl)

down_loop-SameBodies : (k : ℕ) (h : Timed) (i n : ℕ) → SameBodies h (down_loop k h i n).1
unfolding down_loop
down_loop-SameBodies zero h i n p = refl
down_loop-SameBodies (suc k) h i n p =
    let j = smaller_child h n i in
    let sink = down_loop-SameBodies k (swap h i j) j n p ∙ swap-SameBodies h i j p in
    if_both (λ (r : ℕ × Timed). body (r.1.cbs p) ≡ body (h.cbs p)) (ltb (2 * i + 1) n) _ _
      (if_both (λ (r : ℕ × Timed). body (r.1.cbs p) ≡ body (h.cbs p)) (less h j i) _ _ sink refl)
      refl

pub push-SameBodies : (h : Timed) (q : ℕ) → SameBodies h (push h q)
unfolding push append up
push-SameBodies h q p =
    let h' : Timed = record {
      arr = h.arr ++ q ∷ [];
      cbs = set_idx h.cbs q (some (length h.arr));
    } in
    let set : body (h'.cbs p) ≡ body (h.cbs p) = ground arith in
    let last = length h'.arr - 1 in up_loop-SameBodies (suc last) h' last p ∙ set

pub pop-SameBodies : (h : Timed) → SameBodies h (pop h).1
unfolding pop shrink down
pop-SameBodies h p =
    let n = length h.arr - 1 in
    down_loop-SameBodies (suc n) (swap h 0 n) 0 n p ∙ swap-SameBodies h 0 n p

expel-SameBodies : (h : Timed) (i n : ℕ) → SameBodies h (expel h i n)
unfolding expel down up
expel-SameBodies h i n p =
    let s = swap h i n in
    let d = (down_loop (suc n) s i n).1 in
    let sunk = down_loop-SameBodies (suc n) s i n p ∙ swap-SameBodies h i n p in
    if_both (λ (h' : Timed). body (h'.cbs p) ≡ body (h.cbs p)) (n == i) _ _ refl
      (if_both (λ (h' : Timed). body (h'.cbs p) ≡ body (h.cbs p))
        (ltb i (down_loop (suc n) s i n).0) _ _ sunk (up_loop-SameBodies (suc i) d i p ∙ sunk))

pub remove_at-SameBodies : (h : Timed) (i : ℕ) → SameBodies h (remove_at h i).1
unfolding remove_at shrink
remove_at-SameBodies h i p = expel-SameBodies h i (length h.arr - 1) p

pub forget-SameBodies : (h : Timed) (q : ℕ) → SameBodies h (forget h q)
forget-SameBodies h q p = ground arith

-- heap.Pop takes out one entry of any heap that is not empty, and no other function changes their
-- number.
length-swap_any : (h : Timed) (i j : ℕ) → length (swap h i j).arr ≡ length h.arr
unfolding swap
length-swap_any h i j = length-set (set h.arr i (at h j)) j (at h i) ∙ length-set h.arr i (at h j)

length-down_loop : (k : ℕ) (h : Timed) (i n : ℕ) → length (down_loop k h i n).1.arr ≡ length h.arr
unfolding down_loop
length-down_loop zero h i n = refl
length-down_loop (suc k) h i n =
    let j = smaller_child h n i in
    let sink = length-down_loop k (swap h i j) j n ∙ length-swap_any h i j in
    if_both (λ (r : ℕ × Timed). length r.1.arr ≡ length h.arr) (ltb (2 * i + 1) n) _ _
      (if_both (λ (r : ℕ × Timed). length r.1.arr ≡ length h.arr) (less h j i) _ _ sink refl) refl

pub length-pop : (h : Timed) → 0 < length h.arr → length (pop h).1.arr ≡ length h.arr - 1
unfolding pop shrink down
length-pop h some_there =
    let n = length h.arr - 1 in
    let d = (down_loop (suc n) (swap h 0 n) 0 n).1 in
    let long : length d.arr ≡ length h.arr =
      length-down_loop (suc n) (swap h 0 n) 0 n ∙ length-swap_any h 0 n in
    length-take (length d.arr - 1) d.arr (omega arith) ∙ ap (λ m. m - 1) long
