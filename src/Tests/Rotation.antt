-- ===== src/Tests/Rotation.antt =====
-- Runs of the three shared buffers (watcher.go).
use gaio.Common.{◌≡◌, refl, true, false, [], ◌∷◌, arith}
use gaio.Kernel.{moved}
use gaio.Transfer.{rotate, read_step, read_loop, finish_read, choose_buffer, choose_shared}
use gaio.System.{new_watcher_size}
use gaio.Buffers.{Buffers, attempt, hand_over, empty_results, notify, collect}
use gaio.Buffers.Safety.{IsKept, initial}
use gaio.Buffers.Split.{
  Split, outside, reading, read, deliver, empty, Reach, here, next, begin, begin-IsKept,
}
use gaio.Buffers.Race.{begin-overwrites}

-- A read of two bytes, whose result WaitIO takes; the loop reads on before the token.
abbrev halfway : Split
halfway = record {
  buffers = attempt (empty_results (hand_over (attempt (initial 64) (moved 2)))) (moved 3);
  half = reading;
}

halfway-Reach : Reach false (begin 64) halfway
unfolding attempt hand_over empty_results read_step read_loop finish_read choose_buffer
    choose_shared rotate new_watcher_size
halfway-Reach =
    next
      (next (next (next here (read (moved 2) refl refl (omega arith))) (deliver refl))
        (empty reading refl (λ e. cc) (λ e. cc)))
      (read (moved 3) refl refl (omega arith))

begin-IsKept_example : IsKept (halfway.buffers)
begin-IsKept_example = begin-IsKept 64 halfway-Reach

begin-overwrites_example :
    (s : Split) × Reach true (begin 64) s × (s.half ≡ outside) × ¬ IsKept s.buffers
begin-overwrites_example = begin-overwrites 64 (omega arith)

-- Reads and deliveries between the two halves of WaitIO, after which the caller holds the third
-- byte of buffer 0 and the next attempt writes into buffer 0 from its start.
abbrev one_read : Buffers → Buffers
one_read b = hand_over (attempt b (moved 1))

abbrev racing : Buffers
racing =
    let b1 = empty_results (one_read (initial 64)) in
    let b2 = notify (attempt (one_read b1) (moved 1)) in
    let b3 = notify (one_read (hand_over (empty_results b2))) in collect (one_read b3)

race :
    (racing.held
      ≡ record { buf = 0; end = 3 }
        ∷ record { buf = 1; end = 1 }
        ∷ record { buf = 2; end = 1 }
        ∷ [])
    × ((rotate racing.shared).front ≡ 0)
    × ((rotate racing.shared).offset ≡ 0)
unfolding new_watcher_size attempt hand_over empty_results notify collect rotate read_step read_loop
    finish_read choose_buffer choose_shared
race = (refl, refl, refl)
