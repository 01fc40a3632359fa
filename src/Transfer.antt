-- ===== src/Transfer.antt =====
-- The work of tryRead and tryWrite in watcher.go on one request: the choice of a buffer, the loop
-- over the system call and what is recorded.
-- The bytes themselves are not modelled, only which bytes of which buffer hold them.
pub mod Laws
pub mod Replies
use gaio.Common.{
  ℕ, ◌+◌, ◌-◌, Bool, true, false, Option, none, some, ltb, ◌==◌, if◌then◌else◌, is_some,
}
use gaio.Types.{
  Error, eof, sys, eagain, enobufs, errno, Buffer, nil, user, swap, own, buffer_length, Aiocb,
}
use gaio.Kernel.{Reply, moved, failed, interrupted}

-- The three shared buffers, by number, with the offset into the front one and the token in
-- shouldSwap.
pub record Swap : Type 0 where
  pub size : ℕ
  pub front : ℕ
  pub middle : ℕ
  pub back : ℕ
  pub offset : ℕ
  pub should_swap : Bool

-- The select at the head of tryRead.
unfoldable pub rotate : Swap → Swap
rotate s =
    if s.should_swap
    then record s {
      front = s.middle;
      middle = s.back;
      back = s.front;
      offset = 0;
      should_swap = false;
    }
    else s

-- The slice to read into, and which of useSwap and backBuffer is set.
pub record Chosen : Type 0 where
  pub buf : Buffer
  pub use_swap : Bool
  pub back_buffer : Bool
  pub shared : Swap

unfoldable pub choose_shared : Swap → Chosen
choose_shared s =
    let n = s.size - s.offset in
    if ltb 0 n
    then record { buf = swap s.front s.offset n; use_swap = true; back_buffer = false; shared = s }
    else record { buf = own; use_swap = false; back_buffer = true; shared = s }

unfoldable pub choose_buffer : Swap → Buffer → Chosen
choose_buffer s nil = choose_shared (rotate s)
choose_buffer s (user name n) = record {
  buf = user name n;
  use_swap = false;
  back_buffer = false;
  shared = s;
}
choose_buffer s (swap b off n) = record {
  buf = swap b off n;
  use_swap = false;
  back_buffer = false;
  shared = s;
}
choose_buffer s own = record { buf = own; use_swap = false; back_buffer = false; shared = s }

-- The read loop: `none` on EAGAIN, else the request's size and error.
unfoldable pub read_loop : ℕ → Reply → Option (ℕ × Option Error)
read_loop size (interrupted r) = read_loop size r
read_loop size (failed eagain) = none
read_loop size (failed enobufs) = some (size, some (sys enobufs))
read_loop size (failed (errno n)) = some (size, some (sys (errno n)))
read_loop size (moved n) = some (size + n, if n == 0 then some eof else none)

-- What an attempt on a request gives: whether the request is complete, and what has changed.
pub record Tried : Type 0 where
  pub done : Bool
  pub cb : Aiocb
  pub shared : Swap

-- The rest of tryRead, after the loop.
unfoldable pub finish_read : Chosen → Aiocb → Tried
finish_read c cb =
    if cb.read_full
    then record {
      done = (if is_some cb.err then true else cb.size == buffer_length cb.buffer);
      cb = cb;
      shared = c.shared;
    }
    else (if c.use_swap
        then record {
          done = true;
          cb = record cb { use_swap = true; buffer = swap c.shared.front c.shared.offset cb.size };
          shared = record (c.shared) { offset = c.shared.offset + cb.size };
        }
        else record {
          done = true;
          cb = (if c.back_buffer then record cb { buffer = c.buf } else cb);
          shared = c.shared;
        })

-- tryRead, given the buffer and the kernel's reply.
unfoldable pub read_step : Chosen → Aiocb → Reply → Tried
read_step c cb r = elim (read_loop cb.size r) [
  | none ↦ record { done = false; cb = cb; shared = c.shared }
  | some (n, e) ↦ finish_read c (record cb { size = n; err = e })
]

-- tryWrite's loop over a buffer that is not nil.
unfoldable pub write_loop : Aiocb → Reply → Bool × Aiocb
write_loop cb (interrupted r) = write_loop cb r
write_loop cb (failed eagain) = (false, record cb { err = some (sys eagain) })
write_loop cb (failed enobufs) = (false, record cb { err = some (sys enobufs) })
write_loop cb (failed (errno n)) = (true, record cb { err = some (sys (errno n)) })
write_loop cb (moved n) =
    (cb.size + n == buffer_length cb.buffer, record cb { err = none; size = cb.size + n })

abbrev pub is_nil : Buffer → Bool
is_nil nil = true
is_nil (user name n) = false
is_nil (swap b off n) = false
is_nil own = false

-- tryWrite, given the kernel's reply.
unfoldable pub write_step : Aiocb → Reply → Bool × Aiocb
write_step cb r =
    if is_nil cb.buffer then (cb.size == buffer_length cb.buffer, cb) else write_loop cb r
