-- ===== src/System/Cycle.antt =====
-- The life cycle of a request record on an open watcher (watcher.go): what is seen of it from
-- outside.
use gaio.Common.{ℕ, ◌+◌, ◌≤◌, ◌<◌, ◌≡◌, Option, none, some, if◌then◌else◌, count, ltb}
use gaio.Types.{OpType, op_delete}
use gaio.Kernel.{Kernel}
use gaio.Watcher.{Watcher}
use gaio.Watcher.Keeps.{Keeps}
use gaio.System.{System}
use gaio.System.Collect.{Waited}
use gaio.System.Step.{Step}
use gaio.System.Fate.{in_hand, Fate}

-- In the pool or new, with the watcher, or returned by the last WaitIO.
pub data Phase : Type 0 where
  idle held returned : Phase

abbrev pub phase : System → ℕ → Phase
phase s p =
    if ltb 0 (in_hand s p) then held else if ltb 0 (count p s.recycles) then returned else idle

-- How a record goes round, by its operation.
pub data Edge (o : OpType) : Phase → Phase → Type 0 where
  rests : {x : Phase} → Edge o x x
  submits : Edge o idle held
  answers : Edge o held returned
  recycles : Edge o returned idle
  frees : o ≡ op_delete → Edge o held idle

-- What a step changes of the places of a request.
record Shifts (s t : System) (p : ℕ) : Type 0 where
  back : count p t.recycles ≤ count p s.recycles + in_hand s p
  hands : in_hand s p ≡ 0 → 0 < count p s.recycles → in_hand t p ≡ 0

abbrev ShiftsWait : System → ℕ → Option (System × Waited) → Type 0
ShiftsWait s p none = Unit {0}
ShiftsWait s p (some (t, x)) = Shifts s t p
