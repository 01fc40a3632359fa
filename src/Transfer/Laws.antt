-- ===== src/Transfer/Laws.antt =====
-- What one attempt of tryRead or tryWrite (watcher.go) does to a request and to the shared buffers.
use gaio.Common.{◌≡◌, refl, false, none, arith, Option-cases, inl, inr}
use gaio.Types.{eagain, enobufs, errno, nil, Aiocb}
use gaio.Kernel.{Reply, moved, failed, interrupted}
use gaio.Transfer.{Chosen, read_loop, finish_read, read_step, write_loop, write_step}

-- The fields that no attempt changes.
abbrev pub fixed : Aiocb → Aiocb
fixed cb = record cb { err = none; size = 0; buffer = nil; use_swap = false }

finish_read-fixed : (c : Chosen) (cb : Aiocb) → fixed (finish_read c cb).cb ≡ fixed cb
unfolding finish_read
finish_read-fixed c cb = ground arith

pub read_step-fixed : (c : Chosen) (cb : Aiocb) (r : Reply) → fixed (read_step c cb r).cb ≡ fixed cb
unfolding read_step
read_step-fixed c cb r = elim (Option-cases (read_loop cb.size r)) [
  | inl e ↦ rw (e, read_step)
  | inr ((n, x), e) ↦ rw (e, read_step) (finish_read-fixed c (record cb { size = n; err = x }))
]

write_loop-fixed : (cb : Aiocb) (r : Reply) → fixed (write_loop cb r).1 ≡ fixed cb
unfolding write_loop
write_loop-fixed cb (moved n) = refl
write_loop-fixed cb (failed eagain) = refl
write_loop-fixed cb (failed enobufs) = refl
write_loop-fixed cb (failed (errno n)) = refl
write_loop-fixed cb (interrupted r) = write_loop-fixed cb r

pub write_step-fixed : (cb : Aiocb) (r : Reply) → fixed (write_step cb r).1 ≡ fixed cb
unfolding write_step
write_step-fixed cb r = ground (arith, write_loop-fixed cb r)
