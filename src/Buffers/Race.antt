-- ===== src/Buffers/Race.antt =====
-- What the caller holds is overwritten in a run that mixes reads and deliveries between the halves
-- (watcher.go).
use gaio.Common.{ℕ, ◌+◌, ◌-◌, ◌≤◌, ◌<◌, ◌≡◌, refl, subst, true, none, some, arith, ltb}
use gaio.Types.{nil, buffer_length}
use gaio.Kernel.{moved}
use gaio.Transfer.{rotate, read_step, read_loop, finish_read, choose_buffer, choose_shared}
use gaio.System.{new_watcher_size}
use gaio.Buffers.{Buffers, attempt, hand_over, empty_results, notify}
use gaio.Buffers.Safety.{IsKept, initial}
use gaio.Buffers.Split.{
  Half, outside, racing, reads, delivers, Split, read, deliver, empty, put, Reach, here, next,
  begin,
}

-- An attempt that reads one byte into the shared buffers.
abbrev read_one : Buffers → Buffers
read_one b =
    let s = rotate b.shared in
    record b {
      shared = record s { offset = s.offset + 1 };
      flight = some (record { buf = s.front; end = s.offset + 1 });
    }

attempt_one :
    (b : Buffers)
    → (rotate b.shared).offset < (rotate b.shared).size
    → (attempt b (moved 1) ≡ read_one b) × (1 ≤ buffer_length (choose_buffer b.shared nil).buf)
unfolding attempt read_step read_loop finish_read choose_buffer choose_shared
attempt_one b h =
    let there : ltb 0 ((rotate b.shared).size - (rotate b.shared).offset) ≡ true = ground arith in
    rw there (refl, omega arith)

module _ (s : Split) where
  goes_read :
      (b : Buffers) (h : Half)
      → Reach true s (record { buffers = b; half = h })
      → reads h ≡ true
      → b.flight ≡ none
      → (rotate b.shared).offset < (rotate b.shared).size
      → Reach true s (record { buffers = read_one b; half = h })
  goes_read b h r can idle room =
      let (e, within) = attempt_one b room in
      subst (λ b'. Reach true s (record { buffers = b'; half = h })) e
        (next r (read (moved 1) can idle within))

  goes_deliver :
      (b : Buffers) (h : Half)
      → Reach true s (record { buffers = b; half = h })
      → delivers h ≡ true
      → Reach true s (record { buffers = hand_over b; half = h })
  goes_deliver b h r can = next r (deliver can)

  goes_empty :
      (b : Buffers)
      → Reach true s (record { buffers = b; half = outside })
      → Reach true s (record { buffers = empty_results b; half = racing })
  goes_empty b r = next r (empty racing refl (λ e. cc) (λ e. refl))

  goes_put :
      (b : Buffers)
      → Reach true s (record { buffers = b; half = racing })
      → Reach true s (record { buffers = notify b; half = outside })
  goes_put b r = next r (put (λ e. cc))

-- The run, from buffers of any size. What a WaitIO has returned, what waits in chResults and what
-- is not delivered yet belong to one buffer; two rotations follow before the last of it is
-- returned.
abbrev at_start : ℕ → Buffers
at_start size = initial size

abbrev first_half : ℕ → Buffers
first_half size = empty_results (hand_over (read_one (at_start size)))

abbrev first_token : ℕ → Buffers
first_token size = notify (read_one (hand_over (read_one (first_half size))))

abbrev second_half : ℕ → Buffers
second_half size = empty_results (first_token size)

abbrev second_token : ℕ → Buffers
second_token size = notify (hand_over (read_one (hand_over (second_half size))))

abbrev third_half : ℕ → Buffers
third_half size = empty_results (hand_over (read_one (second_token size)))

abbrev raced : ℕ → Buffers
raced size = notify (third_half size)

module _ (size : ℕ) (room : 2 < size) where
  to_first : Reach true (begin size) (record { buffers = first_token size; half = outside })
  unfolding hand_over empty_results notify new_watcher_size rotate
  to_first =
      let s = begin size in
      goes_put s _ (
        goes_read s _ racing
          (goes_deliver s _ racing
            (goes_read s (first_half size) racing
              (goes_empty s _ (
                goes_deliver s _ outside
                  (goes_read s (at_start size) outside here refl refl (omega arith)) refl))
              refl refl (omega arith))
            refl)
          refl refl (omega arith))

  to_second : Reach true (begin size) (record { buffers = second_token size; half = outside })
  unfolding hand_over empty_results notify new_watcher_size rotate
  to_second =
      let s = begin size in
      goes_put s _ (
        goes_deliver s _ racing
          (goes_read s (hand_over (second_half size)) racing
            (goes_deliver s (second_half size) racing (goes_empty s (first_token size) to_first)
              refl)
            refl refl (omega arith))
          refl)

  to_end : Reach true (begin size) (record { buffers = raced size; half = outside })
  unfolding hand_over empty_results notify new_watcher_size rotate
  to_end =
      let s = begin size in
      goes_put s (third_half size) (
        goes_empty s _ (
          goes_deliver s _ outside
            (goes_read s (second_token size) outside to_second refl refl (omega arith)) refl))

  raced-overwritten : ¬ IsKept (raced size)
  unfolding hand_over empty_results notify new_watcher_size rotate
  raced-overwritten v = let h = v.held.0 refl in absurd (omega arith)

  -- For a new watcher with buffers of more than two bytes there is a sequence of attempts to read,
  -- deliveries and halves of WaitIO, with reads and deliveries between the halves, after which
  -- WaitIO has returned a result, or a result is in chResults, whose bytes the next attempt to read
  -- may overwrite.
  pub begin-overwrites :
      (s : Split) × Reach true (begin size) s × (s.half ≡ outside) × ¬ IsKept s.buffers
  begin-overwrites =
      (record { buffers = raced size; half = outside }, to_end, refl, raced-overwritten)
