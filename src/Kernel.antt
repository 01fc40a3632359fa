-- ===== src/Kernel.antt =====
-- What the code asks of the operating system and of net.Conn, as an interface, and
-- the functions that wrap it: dupconn of aio_unix.go.
-- A reply depends on the number of calls made before, so a kernel is any history of replies.
use gaio.Common.{ℕ, ◌≤◌, ◌≡◌, Bool, List, Option, count}
use gaio.Types.{Error, Errno, unsupported}

-- The outcome of rawRead or rawWrite in a loop that goes on after EINTR: `interrupted r` is an
-- EINTR, and `r` answers the next attempt. An EINTR for ever, with which the loop would not end,
-- has no reply.
pub data Reply : Type 0 where
  moved : ℕ → Reply
  failed : Errno → Reply
  interrupted : Reply → Reply

-- No reply transfers more than it was asked for.
abbrev pub Within : ℕ → Reply → Type 0
Within n (moved m) = m ≤ n
Within n (failed e) = Unit {0}
Within n (interrupted r) = Within n r

-- What a connection offers: no SyscallConn method, one that fails, or a RawConn whose
-- Control fails or hands over a descriptor.
pub data Access : Type 0 where
  no_syscall_conn syscall_conn_fails : Access
  control_fails : Error → Access
  control : ℕ → Access

pub data Opened : Type 0 where
  opened : ℕ → Opened
  refused : Error → Opened

pub record Kernel : Type 0 where
  -- A read or write of at most so many bytes: call number, descriptor, room.
  pub read : ℕ → ℕ → ℕ → Reply
  pub write : ℕ → ℕ → ℕ → Reply
  pub access : ℕ → ℕ → Access
  -- dup: call number, the watcher's open descriptors, the descriptor to duplicate.
  pub dup : ℕ → List ℕ → ℕ → Opened
  -- The poller's answer to Watch.
  pub watch : ℕ → ℕ → Option Error
  -- The runtime's choice in a select with both cases ready.
  pub choose : ℕ → Bool
  -- The order of a range over a map with these keys, which the language leaves open.
  pub range : ℕ → List ℕ → List ℕ
  pub read_within : (c fd n : ℕ) → Within n (read c fd n)
  pub write_within : (c fd n : ℕ) → Within n (write c fd n)
  -- A range comes to each key once.
  pub range_once : (c : ℕ) (keys : List ℕ) (key : ℕ) → count key (range c keys) ≡ count key keys
  -- A new descriptor is none of those that are open.
  pub dup_fresh :
      (c : ℕ) (open_fds : List ℕ) (fd new : ℕ)
      → dup c open_fds fd ≡ opened new
      → count new open_fds ≡ 0

-- dupconn
dupconn_by : Kernel → ℕ → List ℕ → Access → Opened
dupconn_by k c open_fds no_syscall_conn = refused unsupported
dupconn_by k c open_fds syscall_conn_fails = refused unsupported
dupconn_by k c open_fds (control_fails e) = refused e
dupconn_by k c open_fds (control fd) = k.dup c open_fds fd

unfoldable pub dupconn : Kernel → ℕ → List ℕ → ℕ → Opened
unfolding dupconn_by
dupconn k c open_fds conn = dupconn_by k c open_fds (k.access c conn)

dupconn_by-fresh :
    (k : Kernel) (c : ℕ) (open_fds : List ℕ) (a : Access) (new : ℕ)
    → dupconn_by k c open_fds a ≡ opened new
    → count new open_fds ≡ 0
unfolding dupconn_by
dupconn_by-fresh k c open_fds no_syscall_conn new e = cc
dupconn_by-fresh k c open_fds syscall_conn_fails new e = cc
dupconn_by-fresh k c open_fds (control_fails x) new e = cc
dupconn_by-fresh k c open_fds (control fd) new e = k.dup_fresh c open_fds fd new e

-- A descriptor that dupconn gives is none of those that the watcher has open, provided that dup
-- gives one that is not open.
pub dupconn-fresh :
    (k : Kernel) (c : ℕ) (open_fds : List ℕ) (conn new : ℕ)
    → dupconn k c open_fds conn ≡ opened new
    → count new open_fds ≡ 0
unfolding dupconn
dupconn-fresh k c open_fds conn new e = dupconn_by-fresh k c open_fds (k.access c conn) new e
