-- ===== src/Watcher/Keeps/Chronology.antt =====
-- The order in which the timer's case of the watcher's loop answers requests (watcher.go).
use gaio.Common.{
  ℕ, zero, suc, ◌≤◌, ◌<◌, ◌≡◌, refl, ◌∙◌, sym, ap, true, false, List, [], ◌∷◌, ◌++◌, Option, none,
  some, arith, if◌then◌else◌, ltb, count, Bool-cases, Option-cases, inl, inr, length,
}
use mathlib.Core.List.{append_assoc, append-nil}
use gaio.Types.{Place, deadline_exceeded}
use gaio.Timed.{at}
use gaio.Timed.Push.{holds}
use gaio.Timed.Laws.{root_least, holds_none}
use gaio.Kernel.{Kernel}
use gaio.Watcher.{Watcher, cb_of, set_err, dequeue, untrack_at, send, deliver}
use gaio.Watcher.Handlers.{is_empty, unqueue, time_out, expire_loop, expire}
use gaio.Watcher.Invariant.{Inv, Frame-aside, Frame-Inv}
use gaio.Watcher.Keeps.{Settled-Keeps}
use gaio.Watcher.Keeps.Expiry.{root-Rooted, time_out-TimedOut, is_late}

-- The requests of the list have keys that never decrease, from `lo` on.
pub data Ascends (key : ℕ → ℕ) : ℕ → List ℕ → Type 0 where
  nothing : {lo : ℕ} → Ascends key lo []
  later : {lo q : ℕ} {qs : List ℕ} → lo ≤ key q → Ascends key (key q) qs → Ascends key lo (q ∷ qs)

-- The requests that the timer's case adds to chResults, in the order of their keys.
pub record InOrder (key : ℕ → ℕ) (lo now : ℕ) (w w' : Watcher) : Type 0 where
  pub answers : List ℕ
  pub sent : w'.results ≡ w.results ++ answers
  pub once : (q : ℕ) → count q answers ≡ (if is_late w now q then 1 else 0)
  pub ascends : Ascends key lo answers

unqueue-results : (l : Option Place) (w : Watcher) (p : ℕ) → (unqueue l w p).results ≡ w.results
unfolding unqueue dequeue
unqueue-results none w p = refl
unqueue-results (some l) w p = refl

unqueue-die : (l : Option Place) (w : Watcher) (p : ℕ) → (unqueue l w p).die ≡ w.die
unfolding unqueue dequeue
unqueue-die none w p = refl
unqueue-die (some l) w p = refl

module _ (k : Kernel) where
  deliver-results :
      (w : Watcher) (p : ℕ) → w.die ≡ false → (deliver k w p).results ≡ w.results ++ p ∷ []
  unfolding deliver untrack_at send
  deliver-results w p on = elim (Option-cases (cb_of w p).idx) [
    | inl e ↦ rw (e, on) refl
    | inr (i, e) ↦ rw (e, on) refl
  ]

  time_out-results :
      (w : Watcher) (p : ℕ) → w.die ≡ false → (time_out k w p).results ≡ w.results ++ p ∷ []
  unfolding time_out
  time_out-results w p on =
      let w1 = set_err w p deadline_exceeded in
      let l = (cb_of w1 p).place in
      deliver-results _ p (unqueue-die l w1 p ∙ on)
      ∙ ap (λ rs. rs ++ p ∷ []) (unqueue-results l w1 p)

  -- Nothing is late, so nothing is added.
  none-InOrder :
      (key : ℕ → ℕ) (lo now : ℕ) (w w' : Watcher)
      → w'.results ≡ w.results
      → ((q : ℕ) → is_late w now q ≡ false)
      → InOrder key lo now w w'
  none-InOrder key lo now w w' e h = record {
    answers = [];
    sent = e ∙ sym (append-nil w.results);
    once = λ q. rw (h q) refl;
    ascends = nothing;
  }

  module _ (key : ℕ → ℕ) (now : ℕ) where
    expire_loop-InOrder :
        (f : ℕ) (w : Watcher) (lo : ℕ)
        → Inv w
        → w.die ≡ false
        → length w.timed.arr ≤ f
        → ((q : ℕ) → (cb_of w q).deadline ≡ key q)
        → ((q : ℕ) → holds w.timed q ≡ true → lo ≤ key q)
        → InOrder key lo now w (expire_loop k f w now)
    unfolding expire_loop
    expire_loop-InOrder zero w lo v on h dl low =
        none-InOrder key lo now w w refl
          (λ q. ground (arith, holds_none w.timed q v.heap (omega arith)))
    expire_loop-InOrder (suc f) w lo v on h dl low = elim (Bool-cases (is_empty w.timed.arr)) [
      | inl e ↦
          rw e (none-InOrder key lo now w w refl (λ q. ground (arith, holds_none w.timed q v.heap)))
      | inr e ↦
          let p = at w.timed 0 in
          let pos : 0 < length w.timed.arr = ground arith in
          let held : holds w.timed p ≡ true = ground (arith, v.heap.tracks.fwd 0 pos) in
          rw (e, held)
            (elim (Bool-cases (ltb (cb_of w p).deadline now)) [
              | inr on_time ↦ rw on_time (
                  none-InOrder key lo now w _ refl
                    (λ q. ground (arith, root_least w.timed q v.heap)))
              | inl late ↦
                  let r = root-Rooted w v pos in
                  let w1 = time_out k w p in
                  let t = time_out-TimedOut k w r.fd r.side v pos r.placed in
                  let s = t.settled in
                  let kept = Settled-Keeps w w1 p r.fd r.side v r.waits s in
                  let rest =
                    expire_loop-InOrder f w1 (key p) kept.inv (s.die ∙ on) (omega (arith, t.size))
                      (λ q. ground (arith, dl q, s.tags q))
                      (λ q i.
                        ground (arith, dl q, dl p, s.members q, root_least w.timed q v.heap)) in
                  let this : InOrder key lo now w (expire_loop k f w1 now) = record {
                    answers = p ∷ rest.answers;
                    sent =
                        rest.sent
                        ∙ ap (λ rs. rs ++ rest.answers) (time_out-results w p on)
                        ∙ append_assoc w.results (p ∷ []) rest.answers;
                    once = λ q. ground (arith, rest.once q, s.members q, s.tags q);
                    ascends = later (low p held) rest.ascends;
                  } in
                  rw late this
            ])
    ]

  -- On an open watcher whose invariant holds, the timer's case at the time `now` appends to
  -- chResults a list of requests in which each request of the heap with a deadline before `now`
  -- stands exactly once and no other stands, and in which the deadlines never decrease.
  pub expire-InOrder :
      (w : Watcher) (now : ℕ)
      → Inv w
      → w.die ≡ false
      → InOrder (λ q. (cb_of w q).deadline) 0 now w (expire k w now)
  unfolding expire
  expire-InOrder w now v on =
      let x =
        expire_loop-InOrder (λ q. (cb_of w q).deadline) now (length w.timed.arr)
          (record w { timer = none }) 0 (Frame-Inv {w = w} (Frame-aside refl refl refl refl refl) v)
          on (omega arith) (λ q. refl) (λ q h. omega arith) in
      record { answers = x.answers; sent = x.sent; once = x.once; ascends = x.ascends }
