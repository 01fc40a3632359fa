-- ===== src/Flow/Progress.antt =====
-- The loop and WaitIO come to the end of every handler (watcher.go).
pub mod Room
pub mod Finish
pub mod Quiet
use gaio.Common.{ℕ, ◌≡◌, refl, ◌∙◌, false, [], ◌⊎◌, inl, inr}
use gaio.Kernel.{Kernel}
use gaio.Flow.{
  Stage, away, waiting, taking, Flow, advance, call, receive, Turn, piece, send, enter, first, more,
  give, Turns, still, then_turn,
}
use gaio.Flow.Whole.{IsSound, advance-Worked}
use gaio.Flow.Safety.{Turn-IsSound}
use gaio.Flow.Order.{InOrder, Turn-InOrder}
use gaio.System.Collect.{recycle, clear_refs}

-- What the steps rely on.
pub record Going (cap : ℕ) (f : Flow) : Type 0 where
  pub sound : IsSound f
  pub order : InOrder cap f
  pub on : f.system.watcher.die ≡ false

pub Stage-cases : (s : Stage) → (s ≡ away) ⊎ (s ≡ waiting) ⊎ (s ≡ taking)
Stage-cases away = inl refl
Stage-cases waiting = inr (inl refl)
Stage-cases taking = inr (inr refl)

module _ (k : Kernel) (cap : ℕ) where
  Turn-die : {f g : Flow} → Turn k cap f g → IsSound f → g.system.watcher.die ≡ f.system.watcher.die
  unfolding advance call receive recycle clear_refs
  Turn-die (piece {f} e busy) v = (advance-Worked k f v).die
  Turn-die (send {f} p ps e room) v = refl
  Turn-die (enter {f} e) v = refl
  Turn-die (first {f} p ps e r) v = refl
  Turn-die (more {f} p ps e r) v = refl
  Turn-die (give {f} e r) v = refl

  pub Turn-Going : {f g : Flow} → Turn k cap f g → Going cap f → Going cap g
  Turn-Going t v = record {
    sound = Turn-IsSound k cap t v.sound;
    order = Turn-InOrder k cap t v.sound v.order;
    on = Turn-die t v.sound ∙ v.on;
  }

  pub Turns-trans : {f g h : Flow} → Turns k cap f g → Turns k cap g h → Turns k cap f h
  Turns-trans a still = a
  Turns-trans a (then_turn b t) = then_turn (Turns-trans a b) t

  pub one : {f g : Flow} → Turn k cap f g → Turns k cap f g
  one t = then_turn still t
