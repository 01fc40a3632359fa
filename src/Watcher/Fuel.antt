-- ===== src/Watcher/Fuel.antt =====
-- The fuel of the timer's loop (watcher.go).
use gaio.Common.{
  ℕ, zero, suc, ◌-◌, ◌≤◌, ◌<◌, ◌≡◌, refl, ap, sym, ◌∙◌, true, false, List, [], ◌∷◌, Option, none,
  some, arith, length, Bool-cases, inl, inr, ==_refl,
}
use gaio.Types.{Place, deadline_exceeded}
use gaio.Timed.{Timed, at, pop}
use gaio.Timed.Bodies.{length-pop}
use gaio.Timed.Laws.{forget}
use gaio.Kernel.{Kernel}
use gaio.Watcher.{Watcher, cb_of, set_err, dequeue, deliver, untrack_at, send}
use gaio.Watcher.Handlers.{unqueue, time_out, expire_loop, is_empty}

unqueue-timed : (l : Option Place) (w : Watcher) (p : ℕ) → (unqueue l w p).timed ≡ w.timed
unfolding unqueue dequeue
unqueue-timed none w p = refl
unqueue-timed (some l) w p = refl

-- deliver leaves the heap of a request without an index.
deliver-length :
    (k : Kernel) (w : Watcher) (p : ℕ)
    → (cb_of w p).idx ≡ none
    → length (deliver k w p).timed.arr ≡ length w.timed.arr
unfolding deliver untrack_at send
deliver-length k w p e = rw e refl

pub is_empty-none : (xs : List ℕ) → length xs ≤ 0 → is_empty xs ≡ true
is_empty-none [] h = refl
is_empty-none (x ∷ xs) h = absurd (omega arith)

pub is_empty-some : (xs : List ℕ) → is_empty xs ≡ false → 0 < length xs
is_empty-some [] h = cc
is_empty-some (x ∷ xs) h = omega arith

module _ (k : Kernel) where
  pub time_out-length :
      (w : Watcher) (p : ℕ)
      → 0 < length w.timed.arr
      → length (time_out k w p).timed.arr ≡ length w.timed.arr - 1
  unfolding time_out
  time_out-length w p h =
      let w1 = set_err w p deadline_exceeded in
      let w2 = unqueue (cb_of w1 p).place w1 p in
      let w3 : Watcher = record w2 { timed = forget (pop w2.timed).1 p } in
      let same : length w2.timed.arr ≡ length w.timed.arr =
        ap (λ (t : Timed). length t.arr) (unqueue-timed (cb_of w1 p).place w1 p) in
      deliver-length k w3 p (ground (arith, ==_refl p))
      ∙ length-pop w2.timed (omega arith)
      ∙ ap (λ n. n - 1) same

  expire_loop_empty :
      (f : ℕ) (w : Watcher) (now : ℕ) → length w.timed.arr ≤ 0 → expire_loop k f w now ≡ w
  unfolding expire_loop
  expire_loop_empty zero w now h = refl
  expire_loop_empty (suc f) w now h = rw (is_empty-none w.timed.arr h) refl

  -- The loop of the timer's case ends on one unit of fuel for each request in the heap, whatever
  -- the state: any two amounts that are not less give the same state.
  pub expire_loop-fuel :
      (f g : ℕ) (w : Watcher) (now : ℕ)
      → length w.timed.arr ≤ f
      → length w.timed.arr ≤ g
      → expire_loop k f w now ≡ expire_loop k g w now
  unfolding expire_loop
  expire_loop-fuel zero g w now h i = sym (expire_loop_empty g w now h)
  expire_loop-fuel (suc f) zero w now h i = expire_loop_empty (suc f) w now i
  expire_loop-fuel (suc f) (suc g) w now h i = elim (Bool-cases (is_empty w.timed.arr)) [
    | inl e ↦ rw e refl
    | inr e ↦
        let there = is_empty-some w.timed.arr e in
        let p = at w.timed 0 in
        let w1 : Watcher = record w { timed = (pop w.timed).1 } in
        let n1 = length-pop w.timed there in
        let n2 = time_out-length w p there in
        rw
          (
            expire_loop-fuel f g w1 now (omega arith) (omega arith),
            expire_loop-fuel f g (time_out k w p) now (omega arith) (omega arith),
          )
          refl
  ]
