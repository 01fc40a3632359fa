-- ===== src/Flow/Progress/Quiet.antt =====
-- From every state the loop comes back to its select, and WaitIO returns all that was delivered
-- (watcher.go).
use mathlib.Core.List.{append-nil}
use gaio.Common.{ℕ, ◌<◌, ◌≡◌, refl, ◌∙◌, sym, ap, false, List, [], ◌∷◌, ◌++◌, inl, inr}
use gaio.Kernel.{Kernel}
use gaio.Flow.{Flow, new_flow, give_back, give, Turns, still, Moves}
use gaio.Flow.Jobs.{idle}
use gaio.Flow.Safety.{new-IsSound, Moves-IsSound}
use gaio.Flow.Order.{new-InOrder}
use gaio.Flow.Progress.{Going, Stage-cases, Turns-trans, one}
use gaio.Flow.Progress.Room.{Beside, Beside-refl, Beside-trans, take_one, drain}
use gaio.Flow.Progress.Finish.{job-Ends}

-- The loop waits in its select, and all that it has delivered is returned.
pub record Quiet (g : Flow) : Type 0 where
  pub job : g.job ≡ idle
  pub outbox : g.outbox ≡ []
  pub results : g.system.watcher.results ≡ []
  pub returned : g.returned ≡ g.delivered

module _ (k : Kernel) (cap : ℕ) (pos : 0 < cap) where
  -- WaitIO takes all that is in chResults.
  take_all :
      (rs : List ℕ) (f : Flow)
      → Going cap f
      → f.system.watcher.results ≡ rs
      → (g : Flow) × Beside k cap f g × (g.system.watcher.results ≡ [])
  take_all [] f v e = (f, Beside-refl k cap f v, e)
  take_all (p ∷ ps) f v e =
      let (g, b, r, s) = take_one k cap f p ps v e in
      let (h, c, r') = take_all ps g b.going r in (h, Beside-trans k cap b c, r')

  returns :
      (f : Flow)
      → Going cap f
      → f.job ≡ idle
      → f.outbox ≡ []
      → f.system.watcher.results ≡ []
      → (g : Flow) × Turns k cap f g × Quiet g
  returns f v i o r =
      let order = v.order.order v.on in
      elim (Stage-cases f.stage) [
        | inl e ↦ (
          f,
          still,
          record {
            job = i;
            outbox = o;
            results = r;
            returned = sym (order ∙ rw (e, r, o) (append-nil f.returned));
          },
        )
        | inr (inl e) ↦ (
          f,
          still,
          record {
            job = i;
            outbox = o;
            results = r;
            returned = sym (order ∙ rw (e, r, o) (append-nil f.returned));
          },
        )
        | inr (inr e) ↦ (
          give_back f,
          one k cap (give e r),
          record {
            job = i;
            outbox = o;
            results = r;
            returned =
                sym (order ∙ rw (e, r, o) (ap (λ rs. f.returned ++ rs) (append-nil f.collected)));
          },
        )
      ]

  going-Quiet : (f : Flow) → Going cap f → (g : Flow) × Turns k cap f g × Quiet g
  going-Quiet f v =
      let (g, ts, v1, o, same, a) = drain k cap f.outbox f v pos refl in
      let (h, us, r, i) = job-Ends k cap pos f.job g (record { going = v1; empty = o }) same in
      let (x, b, e) = take_all h.system.watcher.results h r.going refl in
      let (y, ws, q) = returns x b.going (b.job ∙ i) (b.outbox ∙ r.empty) e in
      (y, Turns-trans k cap ts (Turns-trans k cap us (Turns-trans k cap b.turns ws)), q)

  -- For a capacity of chResults that is not 0 and any state that steps from a new watcher lead to,
  -- in which the watcher is open: some steps of the loop and of WaitIO alone, called again where it
  -- has returned, lead to a state in which the loop is at its select with nothing to send, chResults
  -- is empty, and the results that WaitIO has returned are all that the loop has delivered, in
  -- order.
  pub begin-Quiet :
      (bufsize : ℕ) (f : Flow)
      → Moves k cap (new_flow bufsize) f
      → f.system.watcher.die ≡ false
      → (g : Flow) × Turns k cap f g × Quiet g
  begin-Quiet bufsize f ms on =
      let order = new-InOrder k cap bufsize ms in
      let sound = Moves-IsSound k cap ms (new-IsSound bufsize) in
      going-Quiet f (record { sound = sound; order = order; on = on })
