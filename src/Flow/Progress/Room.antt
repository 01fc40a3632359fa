-- ===== src/Flow/Progress/Room.antt =====
-- Deliver does not wait for ever (watcher.go): WaitIO makes room in chResults, and the loop's
-- requests are sent.
use gaio.Common.{ℕ, ◌<◌, ◌≡◌, ◌≢◌, refl, ◌∙◌, ap, List, [], ◌∷◌, arith, length, inl, inr}
use gaio.Kernel.{Kernel}
use gaio.Flow.{
  taking, Flow, advance, put, call, receive, Turn, piece, send, enter, first, more, Turns, still,
  then_turn,
}
use gaio.Flow.Jobs.{idle, work}
use gaio.Flow.Whole.{with_results}
use gaio.Flow.Progress.{Going, Stage-cases, Turn-Going, Turns-trans, one}
use gaio.System.Collect.{recycle, clear_refs}

-- Steps that leave the handler where it is.
pub record Beside (k : Kernel) (cap : ℕ) (f g : Flow) : Type 0 where
  pub turns : Turns k cap f g
  pub going : Going cap g
  pub outbox : g.outbox ≡ f.outbox
  pub job : g.job ≡ f.job
  pub arr : g.system.watcher.timed.arr ≡ f.system.watcher.timed.arr

module _ (k : Kernel) (cap : ℕ) where
  pub Beside-refl : (f : Flow) → Going cap f → Beside k cap f f
  Beside-refl f v = record { turns = still; going = v; outbox = refl; job = refl; arr = refl }

  pub Beside-trans : {f g h : Flow} → Beside k cap f g → Beside k cap g h → Beside k cap f h
  Beside-trans a b = record {
    turns = Turns-trans k cap a.turns b.turns;
    going = b.going;
    outbox = b.outbox ∙ a.outbox;
    job = b.job ∙ a.job;
    arr = b.arr ∙ a.arr;
  }

  receive-Beside :
      (f : Flow) (p : ℕ) (ps : List ℕ)
      → Going cap f
      → Turn k cap f (receive f p ps)
      → Beside k cap f (receive f p ps)
  unfolding receive clear_refs
  receive-Beside f p ps v t = record {
    turns = one k cap t;
    going = Turn-Going k cap t v;
    outbox = refl;
    job = refl;
    arr = refl;
  }

  -- WaitIO takes the first result, called again if need be.
  pub take_one :
      (f : Flow) (p : ℕ) (ps : List ℕ)
      → Going cap f
      → f.system.watcher.results ≡ p ∷ ps
      → (g : Flow) × Beside k cap f g × (g.system.watcher.results ≡ ps) × (g.stage ≡ taking)
  unfolding call recycle receive
  take_one f p ps v e = elim (Stage-cases f.stage) [
    | inl outside ↦
        let t = enter outside in
        let v1 = Turn-Going k cap t v in
        let b : Beside k cap f (call f) = record {
          turns = one k cap t;
          going = v1;
          outbox = refl;
          job = refl;
          arr = refl;
        } in
        (
          receive (call f) p ps,
          Beside-trans b (receive-Beside (call f) p ps v1 (first p ps refl e)),
          refl,
          refl,
        )
    | inr (inl there) ↦ (receive f p ps, receive-Beside f p ps v (first p ps there e), refl, refl)
    | inr (inr there) ↦ (receive f p ps, receive-Beside f p ps v (more p ps there e), refl, refl)
  ]

  room_from :
      (f : Flow) (rs : List ℕ)
      → Going cap f
      → 0 < cap
      → f.system.watcher.results ≡ rs
      → (g : Flow) × Beside k cap f g × (length g.system.watcher.results < cap)
  room_from f [] v pos e = (f, Beside-refl f v, rw e (omega arith))
  room_from f (p ∷ ps) v pos e =
      let (g, b, r, s) = take_one f p ps v e in
      let n = ap length e in let h = v.order.bounded in (g, b, rw r (omega arith))

  -- What the loop has to send is sent.
  pub drain :
      (ps : List ℕ) (f : Flow)
      → Going cap f
      → 0 < cap
      → f.outbox ≡ ps
      → (g : Flow) × Turns k cap f g
        × Going cap g
        × (g.outbox ≡ [])
        × (g.job ≡ f.job)
        × (g.system.watcher.timed.arr ≡ f.system.watcher.timed.arr)
  drain [] f v pos e = (f, still, v, e, refl, refl)
  drain (p ∷ ps) f v pos e =
      let (g, b, room) = room_from f f.system.watcher.results v pos refl in
      let t : Turn k cap g (put g p ps) = send p ps (b.outbox ∙ e) room in
      let (h, ts, v', o, j, a) = drain ps (put g p ps) (Turn-Going k cap t b.going) pos refl in
      (h, Turns-trans k cap (then_turn b.turns t) ts, v', o, j ∙ b.job, a ∙ b.arr)

  -- A piece of a handler, and its sends.
  pub one_piece :
      (f : Flow)
      → Going cap f
      → 0 < cap
      → f.outbox ≡ []
      → f.job ≢ idle
      → (let r = work k (with_results f.system.watcher []) f.job in
          (g : Flow) × Turns k cap f g
          × Going cap g
          × (g.outbox ≡ [])
          × (g.job ≡ r.1)
          × (g.system.watcher.timed.arr ≡ r.0.timed.arr))
  unfolding advance
  one_piece f v pos e busy =
      let t : Turn k cap f (advance k f) = piece e busy in
      let (g, ts, v', o, j, a) =
        drain (advance k f).outbox (advance k f) (Turn-Going k cap t v) pos refl in
      (g, Turns-trans k cap (one k cap t) ts, v', o, j, a)
