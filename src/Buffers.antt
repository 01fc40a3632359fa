-- ===== src/Buffers.antt =====
-- The three shared buffers that back reads without a buffer of their own (watcher.go): the rotation
-- in tryRead, the token that WaitIO puts, and what the caller of WaitIO still holds. Here WaitIO
-- empties chResults and puts its token with no attempt to read in between; the loop may go on at
-- any other point, also between the end of tryRead and the delivery of the result. Split and Race
-- let the loop go on between the last receive of WaitIO and its token as well.
pub mod Ages
pub mod Safety
pub mod Split
pub mod Race
use gaio.Common.{ℕ, ◌+◌, ◌≡◌, true, false, List, [], ◌∷◌, ◌++◌, Option, none, some, if◌then◌else◌}
use gaio.Types.{Buffer, nil, user, swap, own, buffer_length, Aiocb, op_read}
use gaio.Kernel.{Reply, Within}
use gaio.Transfer.{Swap, choose_buffer, read_step}

-- The bytes of a shared buffer that a result refers to.
pub record Slice : Type 0 where
  pub buf : ℕ
  pub end : ℕ

pub record Buffers : Type 0 where
  pub shared : Swap
  -- What tryRead has filled and deliver has not yet queued, what is in chResults, and what the last
  -- WaitIO returned.
  pub flight : Option Slice
  pub queue : List Slice
  pub held : List Slice

abbrev pub slice_of : Buffer → Option Slice
slice_of nil = none
slice_of (user name n) = none
slice_of (swap b off n) = some (record { buf = b; end = off + n })
slice_of own = none

-- A request to read with a nil buffer, not ReadFull, as tryRead gets it.
abbrev pub nil_read : Aiocb
nil_read = record {
  place = none;
  ctx = 0;
  ptr = 1;
  op = op_read;
  conn = 1;
  err = none;
  size = 0;
  buffer = nil;
  read_full = false;
  use_swap = false;
  idx = none;
  deadline = 0;
}

-- tryRead on such a request.
unfoldable pub attempt : Buffers → Reply → Buffers
attempt b r =
    let t = read_step (choose_buffer b.shared nil) nil_read r in
    record b { shared = t.shared; flight = (if t.done then slice_of t.cb.buffer else none) }

abbrev pub queued_with : List Slice → Option Slice → List Slice
queued_with q none = q
queued_with q (some x) = q ++ x ∷ []

-- deliver
unfoldable pub hand_over : Buffers → Buffers
hand_over b = record b { flight = none; queue = queued_with b.queue b.flight }

-- WaitIO empties chResults; the results of the call before it are given up.
unfoldable pub empty_results : Buffers → Buffers
empty_results b = record b { queue = []; held = b.queue }

-- notifyShouldSwap
unfoldable pub notify : Buffers → Buffers
notify b = record b { shared = record (b.shared) { should_swap = true } }

-- WaitIO
unfoldable pub collect : Buffers → Buffers
unfolding empty_results notify
collect b = notify (empty_results b)

pub data Step : Buffers → Buffers → Type 0 where
  read :
      {b : Buffers} (r : Reply)
      → b.flight ≡ none
      → Within (buffer_length (choose_buffer b.shared nil).buf) r
      → Step b (attempt b r)
  deliver : {b : Buffers} → Step b (hand_over b)
  wait : {b : Buffers} → Step b (collect b)

pub data Reach (b : Buffers) : Buffers → Type 0 where
  here : Reach b b
  next : {c d : Buffers} → Reach b c → Step c d → Reach b d
