-- ===== src/Watcher/Sized.antt =====
-- The sizes of the requests and the offset into the front buffer (watcher.go), which tryRead and
-- tryWrite take for the bounds of their slices.
pub mod Handled
pub mod Served
use gaio.Common.{ℕ, ◌-◌, ◌≤◌, ◌≡◌, refl, true, false, ◌&&◌, arith, ltb, Bool-cases, inl, inr}
use gaio.Types.{
  Aiocb, Buffer, nil, user, swap, own, own_size, buffer_length, eagain, enobufs, errno,
}
use gaio.Kernel.{Reply, moved, failed, interrupted, Within}
use gaio.Transfer.{
  Swap, rotate, Chosen, choose_shared, choose_buffer, read_loop, Tried, finish_read, read_step,
  write_loop, is_nil, write_step,
}
use gaio.Watcher.{Watcher, cb_of}

-- The size of a request is within its buffer; a ReadFull without a buffer, which the API refuses,
-- is left out.
abbrev pub Fits : Aiocb → Type 0
Fits cb = (cb.read_full && is_nil cb.buffer) ≡ false → cb.size ≤ buffer_length cb.buffer

abbrev pub WithinShared : Swap → Type 0
WithinShared s = s.offset ≤ s.size

pub record Sized (w : Watcher) : Type 0 where
  pub fits : (p : ℕ) → Fits (cb_of w p)
  pub shared : WithinShared w.shared

-- What an attempt to read leaves.
pub record ReadSized (t : Tried) : Type 0 where
  pub fits : Fits t.cb
  pub shared : WithinShared t.shared

rotate-WithinShared : (s : Swap) → WithinShared s → WithinShared (rotate s)
unfolding rotate
rotate-WithinShared s h = ground arith

given-ReadSized :
    (s : Swap) (b : Buffer) (cb : Aiocb) (r : Reply)
    → cb.buffer ≡ b
    → is_nil b ≡ false
    → WithinShared s
    → Fits cb
    → Within (buffer_length b - cb.size) r
    → ReadSized
        (read_step (record { buf = b; use_swap = false; back_buffer = false; shared = s }) cb r)
unfolding read_step read_loop finish_read
given-ReadSized s b cb (interrupted r) e n h f w =
    let x = given-ReadSized s b cb r e n h f w in record { fits = x.fits; shared = x.shared }
given-ReadSized s b cb (failed eagain) e n h f w = record { fits = f; shared = h }
given-ReadSized s b cb (failed enobufs) e n h f w = record {
  fits = ground arith;
  shared = ground arith;
}
given-ReadSized s b cb (failed (errno x)) e n h f w = record {
  fits = ground arith;
  shared = ground arith;
}
given-ReadSized s b cb (moved m) e n h f w =
    let small : cb.size ≤ buffer_length b = rw⁻¹ e (f (rw e (ground arith))) in
    record { fits = ground arith; shared = ground arith }

abbrev from_shared : Swap → Chosen
from_shared s = record {
  buf = swap s.front s.offset (s.size - s.offset);
  use_swap = true;
  back_buffer = false;
  shared = s;
}

abbrev from_own : Swap → Chosen
from_own s = record { buf = own; use_swap = false; back_buffer = true; shared = s }

-- A request without a buffer has size 0, but for a ReadFull.
no_buffer : (cb : Aiocb) → cb.buffer ≡ nil → Fits cb → cb.read_full ≡ false → cb.size ≡ 0
no_buffer cb e f n = let h : cb.size ≤ 0 = rw e at (f (rw n refl)) in omega arith

finish_shared-ReadSized :
    (s : Swap) (cb : Aiocb)
    → cb.buffer ≡ nil
    → WithinShared s
    → (cb.read_full ≡ false → cb.size ≤ s.size - s.offset)
    → ReadSized (finish_read (from_shared s) cb)
unfolding finish_read
finish_shared-ReadSized s cb e h room = elim (Bool-cases cb.read_full) [
  | inl full ↦
      let empty : is_nil cb.buffer ≡ true = rw e refl in
      rw full (record { fits = λ x. absurd (ground (arith, empty)); shared = h })
  | inr short ↦
      let fits = room short in rw short (record { fits = λ x. omega arith; shared = omega arith })
]

shared-ReadSized :
    (s : Swap) (cb : Aiocb) (r : Reply)
    → cb.buffer ≡ nil
    → WithinShared s
    → Fits cb
    → Within (s.size - s.offset - cb.size) r
    → ReadSized (read_step (from_shared s) cb r)
unfolding read_step read_loop
shared-ReadSized s cb (interrupted r) e h f w =
    let x = shared-ReadSized s cb r e h f w in record { fits = x.fits; shared = x.shared }
shared-ReadSized s cb (failed eagain) e h f w = record { fits = f; shared = h }
shared-ReadSized s cb (failed enobufs) e h f w =
    finish_shared-ReadSized s _ e h (λ n. omega (arith, no_buffer cb e f n))
shared-ReadSized s cb (failed (errno x)) e h f w =
    finish_shared-ReadSized s _ e h (λ n. omega (arith, no_buffer cb e f n))
shared-ReadSized s cb (moved m) e h f w =
    finish_shared-ReadSized s _ e h (λ n. omega (arith, no_buffer cb e f n))

finish_own-ReadSized :
    (s : Swap) (cb : Aiocb)
    → cb.buffer ≡ nil
    → WithinShared s
    → (cb.read_full ≡ false → cb.size ≤ own_size)
    → ReadSized (finish_read (from_own s) cb)
unfolding finish_read
finish_own-ReadSized s cb e h room = elim (Bool-cases cb.read_full) [
  | inl full ↦
      let empty : is_nil cb.buffer ≡ true = rw e refl in
      rw full (record { fits = λ x. absurd (ground (arith, empty)); shared = h })
  | inr short ↦ let fits = room short in rw short (record { fits = λ x. omega arith; shared = h })
]

own-ReadSized :
    (s : Swap) (cb : Aiocb) (r : Reply)
    → cb.buffer ≡ nil
    → WithinShared s
    → Fits cb
    → Within (own_size - cb.size) r
    → ReadSized (read_step (from_own s) cb r)
unfolding read_step read_loop
own-ReadSized s cb (interrupted r) e h f w =
    let x = own-ReadSized s cb r e h f w in record { fits = x.fits; shared = x.shared }
own-ReadSized s cb (failed eagain) e h f w = record { fits = f; shared = h }
own-ReadSized s cb (failed enobufs) e h f w =
    finish_own-ReadSized s _ e h (λ n. omega (arith, no_buffer cb e f n))
own-ReadSized s cb (failed (errno x)) e h f w =
    finish_own-ReadSized s _ e h (λ n. omega (arith, no_buffer cb e f n))
own-ReadSized s cb (moved m) e h f w =
    finish_own-ReadSized s _ e h (λ n. omega (arith, no_buffer cb e f n))

-- tryRead's work on a request, for any buffer.
pub read_step-ReadSized :
    (s : Swap) (b : Buffer) (cb : Aiocb) (r : Reply)
    → cb.buffer ≡ b
    → WithinShared s
    → Fits cb
    → Within (buffer_length (choose_buffer s b).buf - cb.size) r
    → ReadSized (read_step (choose_buffer s b) cb r)
unfolding choose_buffer choose_shared
read_step-ReadSized s nil cb r e h f w =
    let t = rotate s in
    let h' = rotate-WithinShared s h in
    elim (Bool-cases (ltb 0 (t.size - t.offset))) [
      | inl there ↦ rw there (shared-ReadSized t cb r e h' f (rw there at w))
      | inr full ↦ rw full (own-ReadSized t cb r e h' f (rw full at w))
    ]
read_step-ReadSized s (user name n) cb r e h f w = given-ReadSized s (user name n) cb r e refl h f w
read_step-ReadSized s (swap b off n) cb r e h f w =
    given-ReadSized s (swap b off n) cb r e refl h f w
read_step-ReadSized s own cb r e h f w = given-ReadSized s own cb r e refl h f w

-- tryWrite's.
write_loop-Fits :
    (cb : Aiocb) (r : Reply)
    → cb.size ≤ buffer_length cb.buffer
    → Within (buffer_length cb.buffer - cb.size) r
    → Fits (write_loop cb r).1
unfolding write_loop
write_loop-Fits cb (interrupted r) f w x = write_loop-Fits cb r f w x
write_loop-Fits cb (failed eagain) f w x = f
write_loop-Fits cb (failed enobufs) f w x = f
write_loop-Fits cb (failed (errno n)) f w x = f
write_loop-Fits cb (moved n) f w x = omega arith

pub write_step-Fits :
    (cb : Aiocb) (r : Reply)
    → Fits cb
    → Within (buffer_length cb.buffer - cb.size) r
    → Fits (write_step cb r).1
unfolding write_step
write_step-Fits cb r f w = elim (Bool-cases (is_nil cb.buffer)) [
  | inl empty ↦ rw empty f
  | inr real ↦ rw real (write_loop-Fits cb r (f (ground arith)) w)
]
