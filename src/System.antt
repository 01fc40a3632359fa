-- ===== src/System.antt =====
-- The whole watcher (watcher.go): the API that submits requests and collects results, and what its
-- callers share with the loop. Each function is one critical section or one exchange on a channel.
-- `pick` names what the pool of requests gives: that address if it is in the pool, else a new one.
pub mod Collect
pub mod Loop
pub mod Step
pub mod Places
pub mod Submit
pub mod Safety
pub mod Shutdown
pub mod Results
pub mod Close
pub mod Fate
pub mod Cycle
pub mod Bounds
pub mod Open
pub mod Answers
pub mod Life
use gaio.Common.{
  ℕ, suc, Bool, true, false, List, [], ◌∷◌, ◌++◌, Option, none, some, ltb, ◌==◌, not, if◌then◌else◌,
  count, remove,
}
use gaio.Types.{
  Error, unsupported, watcher_closed, conn_closed, empty_buffer, cpuid_range, OpType, op_read,
  op_write, op_delete, Buffer, nil, buffer_length, Aiocb, default_internal_buffer_size,
}
use gaio.Watcher.{Watcher, set_cb}

pub record System : Type 0 where
  pub watcher : Watcher
  pub pending_create : List ℕ
  pub pending_processing : List ℕ
  -- The token in chPendingNotify.
  pub pending_notify : Bool
  -- aiocbPool, the requests of the last WaitIO, and the first address that was never used.
  pub pool : List ℕ
  pub recycles : List ℕ
  pub next : ℕ
  pub loop_done : Bool
  pub poller_err : Option Error
  -- Whether the poller's `die` is closed, and its request for a CPU (`none` for -1).
  pub poller_closed : Bool
  pub poller_cpuid : Option ℕ

-- A request before its first use, as `new` gives it; aioCreate sets every field.
abbrev pub blank : Aiocb
blank = record {
  place = none;
  ctx = 0;
  ptr = 0;
  op = op_read;
  conn = 0;
  err = none;
  size = 0;
  buffer = nil;
  read_full = false;
  use_swap = false;
  idx = none;
  deadline = 0;
}

-- NewWatcherSize, once the poller is open. The three shared buffers are numbered 0, 1 and 2.
unfoldable pub new_watcher_size : ℕ → System
new_watcher_size bufsize = record {
  watcher = record {
    timed = record { arr = []; cbs = λ p. blank };
    shared = record {
      size = bufsize;
      front = 0;
      middle = 1;
      back = 2;
      offset = 0;
      should_swap = false;
    };
    descs = [];
    conn_idents = [];
    results = [];
    timer = none;
    gc = [];
    gc_notify = false;
    gc_found = 0;
    gc_closed = 0;
    die = false;
    calls = 0;
    closed_fds = [];
    closed_conns = [];
  };
  pending_create = [];
  pending_processing = [];
  pending_notify = false;
  pool = [];
  recycles = [];
  next = 0;
  loop_done = false;
  poller_err = none;
  poller_closed = false;
  poller_cpuid = none;
}

-- NewWatcher
unfoldable pub new_watcher : System
new_watcher = new_watcher_size default_internal_buffer_size

-- aiocbPool.Get
unfoldable pub get_cb : ℕ → System → ℕ × System
get_cb pick s =
    if ltb 0 (count pick s.pool)
    then (pick, record s { pool = remove pick s.pool })
    else (s.next, record s { next = suc s.next })

-- What a caller asks for.
pub record Request : Type 0 where
  pub ctx : ℕ
  pub op : OpType
  pub buf : Buffer
  pub deadline : ℕ
  pub read_full : Bool

-- aioCreate's record for a request on the connection at `ptr`.
abbrev pub new_cb : Request → ℕ → Aiocb
new_cb r ptr = record {
  place = none;
  ctx = r.ctx;
  ptr = ptr;
  op = r.op;
  conn = ptr;
  err = none;
  size = 0;
  buffer = r.buf;
  read_full = r.read_full;
  use_swap = false;
  idx = none;
  deadline = r.deadline;
}

-- aioCreate from where it has a record, `p`: the fields are set, and unless the watcher is closed
-- the request is appended to pendingCreate and the loop notified.
unfoldable pub submit : ℕ → System → Request → ℕ → System × Option Error
submit p s r ptr =
    let w = set_cb s.watcher p (new_cb r ptr) in
    if s.watcher.die then (record s { watcher = w; pool = p ∷ s.pool }, some watcher_closed) else (
      record s { watcher = w; pending_create = s.pending_create ++ p ∷ []; pending_notify = true },
      none,
    )

-- aioCreate for a connection that is not nil.
unfoldable pub create_at : ℕ → System → Request → ℕ → System × Option Error
create_at pick s r ptr = let (p, s1) = get_cb pick s in submit p s1 r ptr

-- aioCreate: `none` is a nil interface, and `some 0` one that holds a nil pointer.
unfoldable pub aio_create : ℕ → System → Request → Option ℕ → System × Option Error
aio_create pick s r none = (s, some unsupported)
aio_create pick s r (some ptr) = if ptr == 0 then (s, some unsupported) else create_at pick s r ptr

-- The methods of the API, with the zero time where they take no deadline.
unfoldable pub read : ℕ → System → ℕ → Option ℕ → Buffer → System × Option Error
read pick s ctx conn buf =
    aio_create pick s
      (record { ctx = ctx; op = op_read; buf = buf; deadline = 0; read_full = false }) conn

unfoldable pub read_timeout : ℕ → System → ℕ → Option ℕ → Buffer → ℕ → System × Option Error
read_timeout pick s ctx conn buf deadline =
    aio_create pick s
      (record { ctx = ctx; op = op_read; buf = buf; deadline = deadline; read_full = false }) conn

unfoldable pub read_full : ℕ → System → ℕ → Option ℕ → Buffer → ℕ → System × Option Error
read_full pick s ctx conn buf deadline =
    if buffer_length buf == 0
    then (s, some empty_buffer)
    else aio_create pick s
        (record { ctx = ctx; op = op_read; buf = buf; deadline = deadline; read_full = true }) conn

unfoldable pub write_timeout : ℕ → System → ℕ → Option ℕ → Buffer → ℕ → System × Option Error
write_timeout pick s ctx conn buf deadline =
    if buffer_length buf == 0
    then (s, some empty_buffer)
    else aio_create pick s
        (record { ctx = ctx; op = op_write; buf = buf; deadline = deadline; read_full = false })
        conn

unfoldable pub write : ℕ → System → ℕ → Option ℕ → Buffer → System × Option Error
write pick s ctx conn buf =
    if buffer_length buf == 0
    then (s, some empty_buffer)
    else aio_create pick s
        (record { ctx = ctx; op = op_write; buf = buf; deadline = 0; read_full = false }) conn

unfoldable pub free : ℕ → System → Option ℕ → System × Option Error
free pick s conn =
    aio_create pick s
      (record { ctx = 0; op = op_delete; buf = nil; deadline = 0; read_full = false }) conn

-- SetPollerAffinity, given the number of CPUs and whether wakeup fails. A negative argument is out
-- of range too, and has no number here.
unfoldable pub set_poller_affinity : System → ℕ → ℕ → Option Error → System × Option Error
set_poller_affinity s cpuid cpus none =
    if not (ltb cpuid cpus)
    then (s, some cpuid_range)
    else (record s { poller_cpuid = some cpuid }, none)
set_poller_affinity s cpuid cpus (some e) =
    if not (ltb cpuid cpus)
    then (s, some cpuid_range)
    else (record s { poller_cpuid = none }, some e)

-- SetLoopAffinity: `sent` says that the loop has received the value.
unfoldable pub set_loop_affinity : System → ℕ → ℕ → Bool → Option Error
set_loop_affinity s cpuid cpus sent =
    if not (ltb cpuid cpus) then some cpuid_range else if sent then none else some conn_closed

-- stop: dieOnce lets only the first call close `die` and the poller.
unfoldable pub stop : System → System
stop s =
    if s.watcher.die
    then s
    else record s { watcher = record (s.watcher) { die = true }; poller_closed = true }

-- GetGC
unfoldable pub get_gc : System → ℕ × ℕ
get_gc s = (s.watcher.gc_found, s.watcher.gc_closed)
