-- ===== src/Tests/Flows.antt =====
-- The goroutines beside each other: a request that the loop takes up, and a full chResults
-- (watcher.go).
use gaio.Common.{◌<◌, ◌≡◌, refl, false, some, arith}
use gaio.Types.{Event}
use gaio.System.{aio_create, create_at, submit, get_cb, new_watcher_size}
use gaio.Flow.{
  Flow, new_flow, results_cap, take_pending, advance, Turns, piece, turn, request, pending, Moves,
  here, next,
}
use gaio.Flow.Whole.{IsSound}
use gaio.Flow.Safety.{Moves-IsSound, new-IsSound}
use gaio.Flow.Order.{InOrder, new-InOrder}
use gaio.Flow.Progress.Quiet.{Quiet, begin-Quiet}
use gaio.Tests.Sample.{kernel, asks_read, asks_read-IsProper}

-- A request is submitted, and the loop takes the batch and handles the request.
abbrev asked : Flow
asked = record (new_flow 64) { system = (aio_create 0 (new_watcher_size 64) asks_read (some 5)).0 }

abbrev taken : Flow
taken = take_pending asked

abbrev handled : Flow
handled = advance kernel taken

taken-Moves : Moves kernel results_cap (new_flow 64) taken
unfolding aio_create create_at submit get_cb new_watcher_size
taken-Moves =
    next (next {h = asked} here (request 0 asks_read (some 5) asks_read-IsProper))
      (pending refl refl)

handled-Moves : Moves kernel results_cap (new_flow 64) handled
handled-Moves = next taken-Moves (turn (piece refl (λ e. cc)))

taken-open : taken.system.watcher.die ≡ false
unfolding aio_create create_at submit get_cb new_watcher_size
taken-open = refl

room : 0 < results_cap
room = omega arith

Moves-IsSound_example : IsSound handled
Moves-IsSound_example = Moves-IsSound kernel results_cap handled-Moves (new-IsSound 64)

new-InOrder_example : InOrder results_cap handled
new-InOrder_example = new-InOrder kernel results_cap 64 handled-Moves

begin-Quiet_example : (g : Flow) × Turns kernel results_cap taken g × Quiet g
begin-Quiet_example = begin-Quiet kernel results_cap room 64 taken taken-Moves taken-open

abbrev readable : Event
readable = record { ident = 1; ev = 3 }
