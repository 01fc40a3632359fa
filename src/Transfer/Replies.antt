-- ===== src/Transfer/Replies.antt =====
-- What tryRead and tryWrite (watcher.go) make of each reply of the system call, EINTR included.
use gaio.Common.{
  ℕ, ◌+◌, ◌-◌, ◌≤◌, ◌<◌, ◌≡◌, ◌≢◌, refl, ap, Bool, true, false, Option, none, some, arith, ◌==◌,
  if◌then◌else◌,
}
use gaio.Types.{eof, sys, Errno, eagain, enobufs, errno, user, buffer_length, Aiocb}
use gaio.Kernel.{Reply, moved, failed, interrupted, Within}
use gaio.Transfer.{
  Swap, Chosen, choose_buffer, read_loop, Tried, finish_read, read_step, write_loop, is_nil,
  write_step,
}

-- What the last attempt of a reply moved, and how it failed.
abbrev pub bytes : Reply → ℕ
bytes (moved n) = n
bytes (failed e) = 0
bytes (interrupted r) = bytes r

abbrev pub failure : Reply → Option Errno
failure (moved n) = none
failure (failed e) = some e
failure (interrupted r) = failure r

pub record Reads (c : Chosen) (cb : Aiocb) (r : Reply) (t : Tried) : Type 0 where
  pub blocked : failure r ≡ some eagain → (t.done ≡ false) × (t.cb ≡ cb) × (t.shared ≡ c.shared)
  pub size : t.cb.size ≡ cb.size + bytes r
  pub within : t.cb.size ≤ buffer_length c.buf
  pub broken :
      (e : Errno) → failure r ≡ some e → e ≢ eagain → (t.done ≡ true) × (t.cb.err ≡ some (sys e))
  pub ended : failure r ≡ none → bytes r ≡ 0 → (t.done ≡ true) × (t.cb.err ≡ some eof)
  pub more :
      failure r ≡ none
      → 0 < bytes r
      → (t.cb.err ≡ none)
        × (t.done ≡ (if cb.read_full then t.cb.size == buffer_length cb.buffer else true))

-- For a request whose size is within the chosen buffer and a system call that moves no more than the
-- rest of it, tryRead does the following whatever number of EINTR comes first. The size grows by the
-- bytes moved and stays within the buffer. On EAGAIN the request is not complete and is unchanged,
-- and so are the shared buffers as chosen. Any other error completes it with this error. A read of
-- no bytes completes it with io.EOF. A read of some bytes leaves no error, and completes it, except
-- that a ReadFull is complete exactly if its size is the length of its buffer.
pub read_step-Reads :
    (c : Chosen) (cb : Aiocb) (r : Reply)
    → cb.size ≤ buffer_length c.buf
    → Within (buffer_length c.buf - cb.size) r
    → Reads c cb r (read_step c cb r)
unfolding read_step read_loop finish_read
read_step-Reads c cb (moved n) fits w = record {
  blocked = λ e. cc;
  size = ground arith;
  within = ground arith;
  broken = λ x e o. cc;
  ended = λ e z. (ground arith, ground arith);
  more = λ e z. (ground arith, ground arith);
}
read_step-Reads c cb (failed eagain) fits w = record {
  blocked = λ e. (refl, refl, refl);
  size = omega arith;
  within = fits;
  broken = λ x e o. let same : x ≡ eagain = cc in absurd (o same);
  ended = λ e z. cc;
  more = λ e z. cc;
}
read_step-Reads c cb (failed enobufs) fits w = record {
  blocked = λ e. cc;
  size = ground arith;
  within = ground arith;
  broken = λ x e o. (ground arith, ground arith);
  ended = λ e z. cc;
  more = λ e z. cc;
}
read_step-Reads c cb (failed (errno n)) fits w = record {
  blocked = λ e. cc;
  size = ground arith;
  within = ground arith;
  broken = λ x e o. (ground arith, ground arith);
  ended = λ e z. cc;
  more = λ e z. cc;
}
read_step-Reads c cb (interrupted r) fits w =
    let x = read_step-Reads c cb r fits w in
    record {
      blocked = x.blocked;
      size = x.size;
      within = x.within;
      broken = x.broken;
      ended = x.ended;
      more = x.more;
    }

pub record Writes (cb : Aiocb) (r : Reply) (t : Bool × Aiocb) : Type 0 where
  pub size : t.1.size ≡ cb.size + bytes r
  pub within : t.1.size ≤ buffer_length cb.buffer
  pub blocked : failure r ≡ some eagain → t.0 ≡ false
  pub exhausted : failure r ≡ some enobufs → t.0 ≡ false
  pub broken :
      (n : ℕ) → failure r ≡ some (errno n) → (t.0 ≡ true) × (t.1.err ≡ some (sys (errno n)))
  pub more :
      failure r ≡ none → (t.1.err ≡ none) × (t.0 ≡ (cb.size + bytes r == buffer_length cb.buffer))

write_loop-Writes :
    (cb : Aiocb) (r : Reply)
    → cb.size ≤ buffer_length cb.buffer
    → Within (buffer_length cb.buffer - cb.size) r
    → Writes cb r (write_loop cb r)
unfolding write_loop
write_loop-Writes cb (moved n) fits w = record {
  size = refl;
  within = ground arith;
  blocked = λ e. cc;
  exhausted = λ e. cc;
  broken = λ n' e. cc;
  more = λ e. (refl, refl);
}
write_loop-Writes cb (failed eagain) fits w = record {
  size = ground arith;
  within = ground arith;
  blocked = λ e. refl;
  exhausted = λ e. refl;
  broken = λ n e. cc;
  more = λ e. cc;
}
write_loop-Writes cb (failed enobufs) fits w = record {
  size = ground arith;
  within = ground arith;
  blocked = λ e. refl;
  exhausted = λ e. refl;
  broken = λ n e. cc;
  more = λ e. cc;
}
write_loop-Writes cb (failed (errno n)) fits w = record {
  size = ground arith;
  within = ground arith;
  blocked = λ e. cc;
  exhausted = λ e. cc;
  broken = λ m e. (refl, ground arith);
  more = λ e. cc;
}
write_loop-Writes cb (interrupted r) fits w =
    let x = write_loop-Writes cb r fits w in
    record {
      size = x.size;
      within = x.within;
      blocked = x.blocked;
      exhausted = x.exhausted;
      broken = x.broken;
      more = x.more;
    }

-- For a request with a buffer, a size within it and a system call that moves no more than the rest,
-- tryWrite does the following whatever number of EINTR comes first. The size grows by the bytes
-- moved and stays within the buffer. On EAGAIN or ENOBUFS the request is not complete. Any other
-- error completes it with this error. With no error the request has none, and is complete exactly if
-- its size is the length of the buffer.
pub write_step-Writes :
    (cb : Aiocb) (r : Reply)
    → is_nil cb.buffer ≡ false
    → cb.size ≤ buffer_length cb.buffer
    → Within (buffer_length cb.buffer - cb.size) r
    → Writes cb r (write_step cb r)
unfolding write_step
write_step-Writes cb r real fits w = rw real (write_loop-Writes cb r fits w)

no_room : (r : Reply) → Within 0 r → bytes r ≡ 0
no_room (moved n) w = omega arith
no_room (failed e) w = refl
no_room (interrupted r) w = no_room r w

-- A read with no error into a buffer that is not nil and has length 0 completes with io.EOF,
-- whatever the state of the stream.
pub read_empty-eof :
    (s : Swap) (cb : Aiocb) (name : ℕ) (r : Reply)
    → cb.buffer ≡ user name 0
    → cb.size ≡ 0
    → Within 0 r
    → failure r ≡ none
    → let t = read_step (choose_buffer s cb.buffer) cb r in (t.done ≡ true) × (t.cb.err ≡ some eof)
unfolding choose_buffer
read_empty-eof s cb name r empty start w ok =
    let c = choose_buffer s cb.buffer in
    let none_left : buffer_length c.buf ≡ 0 =
      ap (λ b. buffer_length (choose_buffer s b).buf) empty in
    let within : Within (buffer_length c.buf - cb.size) r = rw (none_left, start) w in
    (read_step-Reads c cb r (omega arith) within).ended ok (no_room r w)
