-- ===== src/Types.antt =====
-- The types of aio_generic.go: operations, errors, buffers, requests, results and events.
-- A pointer is a number, and 0 is nil. A time is a number, and 0 is the zero time.
-- A connection, a user context and a caller's byte slice are numbers that name them.
use gaio.Common.{ℕ, Option, List, Bool}

pub data OpType : Type 0 where
  op_read op_write op_delete : OpType

-- The error numbers that the code tests, and any other. EINTR is a `Reply` of the kernel's.
pub data Errno : Type 0 where
  eagain enobufs : Errno
  errno : ℕ → Errno

-- The error variables, those of `io` that the code returns, and what a system call fails with.
pub data Error : Type 0 where
  unsupported no_raw_conn watcher_closed poller_closed conn_closed : Error
  deadline_exceeded empty_buffer cpuid_range : Error
  eof closed_pipe : Error
  sys : Errno → Error

-- A byte slice: nil, the caller's slice by name and length, `swap b off n` for
-- the bytes from `off` to `off + n` of the shared buffer `b`, and the request's own 16 bytes.
pub data Buffer : Type 0 where
  nil : Buffer
  user : ℕ → ℕ → Buffer
  swap : ℕ → ℕ → ℕ → Buffer
  own : Buffer

abbrev pub own_size : ℕ
own_size = 16

abbrev pub buffer_length : Buffer → ℕ
buffer_length nil = 0
buffer_length (user name n) = n
buffer_length (swap b off n) = n
buffer_length own = own_size

-- The two lists of requests of a descriptor.
pub data Side : Type 0 where
  readers writers : Side

-- `list` and `elem` together: the list of the descriptor record that holds the request. An element
-- is named by the request in it, since a request is put into a list at most once.
pub record Place : Type 0 where
  pub fd : ℕ
  pub side : Side

pub record Aiocb : Type 0 where
  pub place : Option Place
  pub ctx : ℕ
  pub ptr : ℕ
  pub op : OpType
  pub conn : ℕ
  pub err : Option Error
  pub size : ℕ
  pub buffer : Buffer
  pub read_full : Bool
  pub use_swap : Bool
  pub idx : Option ℕ
  pub deadline : ℕ

-- The requests by address.
abbrev pub Store : Type 0
Store = ℕ → Aiocb

pub record OpResult : Type 0 where
  pub operation : OpType
  pub context : ℕ
  pub conn : ℕ
  pub buffer : Buffer
  pub is_swap_buffer : Bool
  pub size : ℕ
  pub error : Option Error

-- One readiness event: EV_READ and EV_WRITE are the bits 1 and 2 of `ev`.
pub record Event : Type 0 where
  pub ident : ℕ
  pub ev : ℕ

abbrev pub ev_read : ℕ
ev_read = 0x1

abbrev pub ev_write : ℕ
ev_write = 0x2

abbrev pub max_events : ℕ
max_events = 4096

abbrev pub default_internal_buffer_size : ℕ
default_internal_buffer_size = 65536

pub record Signal : Type 0 where
  pub events : List Event
  pub err : Option Error
