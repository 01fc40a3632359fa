-- ===== src/Watcher/Wakeups.antt =====
-- Why the requests that the watcher leaves in a queue are woken (watcher.go): the pollers report
-- edges, so an attempt that is not complete must have used up what the descriptor had.
pub mod Woken
use gaio.Common.{
  ℕ, ◌-◌, ◌≤◌, ◌≡◌, ◌≢◌, refl, Bool, true, false, [], arith, ltb, ◌==◌, ◌&&◌, Bool-cases, if_both,
  inl, inr,
}
use gaio.Types.{Aiocb, Buffer, nil, user, swap, own, buffer_length, eagain, enobufs, errno}
use gaio.Kernel.{Reply, moved, failed, interrupted, Within}
use gaio.Transfer.{
  Swap, Chosen, choose_buffer, read_loop, finish_read, read_step, write_loop, is_nil, write_step,
}
use gaio.Watcher.Sized.{Fits}

-- The reply to a call for `n` bytes shows that the descriptor has no more for now.
abbrev pub drained : ℕ → Reply → Bool
drained n (moved m) = ltb m n
drained n (failed eagain) = true
drained n (failed enobufs) = true
drained n (failed (errno x)) = false
drained n (interrupted r) = drained n r

-- ReadFull refuses a request without a buffer.
abbrev pub IsBuffered : Aiocb → Type 0
IsBuffered cb = (cb.read_full && is_nil cb.buffer) ≡ false

-- The request with what may have changed of it in an attempt that is not complete.
read_step-drained :
    (b : Buffer) (s : Swap) (cb : Aiocb) (r : Reply)
    → cb.buffer ≡ b
    → is_nil b ≡ false
    → cb.size ≤ buffer_length b
    → Within (buffer_length b - cb.size) r
    → (read_step (record { buf = b; use_swap = false; back_buffer = false; shared = s }) cb r).done
      ≡ false
    → drained (buffer_length b - cb.size) r ≡ true
unfolding read_step read_loop finish_read
read_step-drained b s cb (moved m) e n f w out = ground arith
read_step-drained b s cb (failed eagain) e n f w out = refl
read_step-drained b s cb (failed enobufs) e n f w out = ground arith
read_step-drained b s cb (failed (errno x)) e n f w out = ground arith
read_step-drained b s cb (interrupted r) e n f w out = read_step-drained b s cb r e n f w out

-- A read into a buffer of the watcher's is complete unless it would block.
shared-drained :
    (c : Chosen) (cb : Aiocb) (r : Reply) (n : ℕ)
    → cb.read_full ≡ false
    → (read_step c cb r).done ≡ false
    → drained n r ≡ true
unfolding read_step read_loop finish_read
shared-drained c cb (moved m) n e out = ground arith
shared-drained c cb (failed eagain) n e out = refl
shared-drained c cb (failed enobufs) n e out = ground arith
shared-drained c cb (failed (errno x)) n e out = ground arith
shared-drained c cb (interrupted r) n e out = shared-drained c cb r n e out

write_loop-drained :
    (cb : Aiocb) (r : Reply)
    → cb.size ≤ buffer_length cb.buffer
    → Within (buffer_length cb.buffer - cb.size) r
    → (write_loop cb r).0 ≡ false
    → drained (buffer_length cb.buffer - cb.size) r ≡ true
unfolding write_loop
write_loop-drained cb (moved m) f w out = ground arith
write_loop-drained cb (failed eagain) f w out = refl
write_loop-drained cb (failed enobufs) f w out = refl
write_loop-drained cb (failed (errno x)) f w out = cc
write_loop-drained cb (interrupted r) f w out = write_loop-drained cb r f w out

pub choose-drained :
    (s : Swap) (b : Buffer) (cb : Aiocb) (r : Reply)
    → cb.buffer ≡ b
    → IsBuffered cb
    → Fits cb
    → Within (buffer_length (choose_buffer s b).buf - cb.size) r
    → (read_step (choose_buffer s b) cb r).done ≡ false
    → drained (buffer_length (choose_buffer s b).buf - cb.size) r ≡ true
unfolding choose_buffer
choose-drained s nil cb r e h f w out =
    shared-drained (choose_buffer s nil) cb r _ (let h' = rw e at h in ground arith) out
choose-drained s (user x n) cb r e h f w out =
    read_step-drained (user x n) s cb r e refl (let f' = f h in rw e at f') w out
choose-drained s (swap x off n) cb r e h f w out =
    read_step-drained (swap x off n) s cb r e refl (let f' = f h in rw e at f') w out
choose-drained s own cb r e h f w out =
    read_step-drained own s cb r e refl (let f' = f h in rw e at f') w out

pub read_step-IsBuffered :
    (c : Chosen) (cb : Aiocb) (r : Reply) → IsBuffered cb → IsBuffered (read_step c cb r).cb
unfolding read_step read_loop finish_read
read_step-IsBuffered c cb (moved m) h = ground arith
read_step-IsBuffered c cb (failed eagain) h = h
read_step-IsBuffered c cb (failed enobufs) h = ground arith
read_step-IsBuffered c cb (failed (errno x)) h = ground arith
read_step-IsBuffered c cb (interrupted r) h = read_step-IsBuffered c cb r h

write_loop-IsBuffered : (cb : Aiocb) (r : Reply) → IsBuffered cb → IsBuffered (write_loop cb r).1
unfolding write_loop
write_loop-IsBuffered cb (moved m) h = h
write_loop-IsBuffered cb (failed eagain) h = h
write_loop-IsBuffered cb (failed enobufs) h = h
write_loop-IsBuffered cb (failed (errno x)) h = h
write_loop-IsBuffered cb (interrupted r) h = write_loop-IsBuffered cb r h

pub write_step-IsBuffered :
    (cb : Aiocb) (r : Reply) → IsBuffered cb → IsBuffered (write_step cb r).1
unfolding write_step
write_step-IsBuffered cb r h =
    if_both (λ (t : Bool × Aiocb). IsBuffered t.1) (is_nil cb.buffer) _ _ h
      (write_loop-IsBuffered cb r h)

-- A write without a buffer is complete, since its size is 0.
pub write_step-drained :
    (cb : Aiocb) (r : Reply)
    → IsBuffered cb
    → Fits cb
    → Within (buffer_length cb.buffer - cb.size) r
    → (write_step cb r).0 ≡ false
    → drained (buffer_length cb.buffer - cb.size) r ≡ true
unfolding write_step
write_step-drained cb r h f w out = elim (Bool-cases (is_nil cb.buffer)) [
  | inl e ↦ absurd (nil_done cb e (f h) (rw e at out))
  | inr e ↦ write_loop-drained cb r (f h) w (rw e at out)
]
  where
    nil_length : (b : Buffer) → is_nil b ≡ true → buffer_length b ≡ 0
    nil_length nil e = refl
    nil_length (user x n) e = cc
    nil_length (swap x off n) e = cc
    nil_length own e = cc

    nil_done :
        (c : Aiocb)
        → is_nil c.buffer ≡ true
        → c.size ≤ buffer_length c.buffer
        → (c.size == buffer_length c.buffer) ≢ false
    nil_done c e fits out = let z = nil_length c.buffer e in ground arith
