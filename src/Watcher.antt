-- ===== src/Watcher.antt =====
-- The state of the watcher (watcher.go), its attempts to read and write, deliver and releaseConn.
-- The state is changed by one loop goroutine and, in parts that do not overlap, by the callers of
-- the API. A map is an association list; a channel of capacity 1 that only signals is a Bool;
-- descriptor records are values, since their pool only saves allocations. chResults is unbounded
-- here; Flow gives it its capacity.
pub mod Handlers
pub mod Invariant
pub mod Deliver
pub mod Keeps
pub mod Order
pub mod Free
pub mod Sized
pub mod Fuel
pub mod Wakeups
pub mod Untouched
use gaio.Common.{
  ℕ, suc, ◌+◌, ◌-◌, Bool, true, List, [], ◌∷◌, ◌++◌, Option, none, some, if◌then◌else◌, remove,
  lookup, insert, delete,
}
use gaio.Types.{Error, closed_pipe, Side, readers, writers, Aiocb, buffer_length}
use gaio.Timed.{Timed, update, remove_at}
use gaio.Timed
use gaio.Timed.Laws.{forget}
use gaio.Kernel.{Kernel}
use gaio.Transfer.{Swap, choose_buffer, read_step, write_step}

pub record FdDesc : Type 0 where
  pub reads : List ℕ
  pub writes : List ℕ
  pub ptr : ℕ

pub record Watcher : Type 0 where
  -- The requests by address and the heap of those with a deadline.
  pub timed : Timed
  pub shared : Swap
  pub descs : List (ℕ × FdDesc)
  pub conn_idents : List (ℕ × ℕ)
  -- chResults, the oldest first.
  pub results : List ℕ
  -- When the timer fires, if it is running.
  pub timer : Option ℕ
  pub gc : List ℕ
  pub gc_notify : Bool
  pub gc_found : ℕ
  pub gc_closed : ℕ
  pub die : Bool
  -- The calls of the kernel so far, and what was closed: descriptors, and the callers' connections.
  pub calls : ℕ
  pub closed_fds : List ℕ
  pub closed_conns : List ℕ

abbrev pub cb_of : Watcher → ℕ → Aiocb
cb_of w p = w.timed.cbs p

abbrev pub set_cb : Watcher → ℕ → Aiocb → Watcher
set_cb w p cb = record w { timed = record (w.timed) { cbs = update w.timed.cbs p cb } }

abbrev pub set_err : Watcher → ℕ → Error → Watcher
set_err w p e = set_cb w p (record (cb_of w p) { err = some e })

abbrev pub queue_of : Side → FdDesc → List ℕ
queue_of readers d = d.reads
queue_of writers d = d.writes

abbrev pub set_queue : Side → List ℕ → FdDesc → FdDesc
set_queue readers q d = record d { reads = q }
set_queue writers q d = record d { writes = q }

-- `w.descs[ident]`. A missing entry would be a nil pointer; here it is a record with no requests.
abbrev pub or_empty : Option FdDesc → FdDesc
or_empty none = record { reads = []; writes = []; ptr = 0 }
or_empty (some d) = d

abbrev pub desc_of : Watcher → ℕ → FdDesc
desc_of w ident = or_empty (lookup ident w.descs)

abbrev pub set_desc : Watcher → ℕ → FdDesc → Watcher
set_desc w ident d = record w { descs = insert ident d w.descs }

-- `l.Remove(elem)`
unfoldable pub dequeue : Watcher → ℕ → Side → ℕ → Watcher
dequeue w ident side p =
    let d = desc_of w ident in set_desc w ident (set_queue side (remove p (queue_of side d)) d)

-- The first half of deliver.
unfoldable pub untrack_at : Option ℕ → Watcher → ℕ → Watcher
untrack_at none w p = w
untrack_at (some i) w p = record w { timed = forget (remove_at w.timed i).1 p }

module _ (k : Kernel) where
  -- tryRead
  unfoldable pub try_read : Watcher → ℕ → ℕ → Bool × Watcher
  try_read w fd p =
      let c = choose_buffer w.shared (cb_of w p).buffer in
      let reply = k.read w.calls fd (buffer_length c.buf - (cb_of w p).size) in
      let t = read_step c (cb_of w p) reply in
      (t.done, record (set_cb w p t.cb) { shared = t.shared; calls = suc w.calls })

  -- tryWrite
  unfoldable pub try_write : Watcher → ℕ → ℕ → Bool × Watcher
  try_write w fd p =
      let cb = cb_of w p in
      let reply = k.write w.calls fd (buffer_length cb.buffer - cb.size) in
      let (done, cb') = write_step cb reply in
      (done, record (set_cb w p cb') { calls = suc w.calls })

  unfoldable pub try_side : Side → Watcher → ℕ → ℕ → Bool × Watcher
  try_side readers = try_read
  try_side writers = try_write

  -- The select of deliver: once `die` is closed, both cases are ready.
  unfoldable pub send : Watcher → ℕ → Watcher
  send w p =
      let taken = if w.die then k.choose w.calls else true in
      record w {
        results = (if taken then w.results ++ p ∷ [] else w.results);
        calls = (if w.die then suc w.calls else w.calls);
      }

  unfoldable pub deliver : Watcher → ℕ → Watcher
  unfolding untrack_at send
  deliver w p = send (untrack_at (cb_of w p).idx w p) p

  -- releaseConn's loop over one list.
  unfoldable pub fail_all : Watcher → List ℕ → Watcher
  fail_all w [] = w
  fail_all w (p ∷ ps) = fail_all (deliver (set_err w p closed_pipe) p) ps

  unfoldable pub release_desc : Option FdDesc → Watcher → ℕ → Watcher
  release_desc none w ident = w
  release_desc (some d) w ident =
      let w' = fail_all (fail_all w d.reads) d.writes in
      record w' {
        descs = delete ident w'.descs;
        conn_idents = delete d.ptr w'.conn_idents;
        closed_fds = w'.closed_fds ++ ident ∷ [];
      }

  -- releaseConn
  unfoldable pub release_conn : Watcher → ℕ → Watcher
  unfolding release_desc
  release_conn w ident = release_desc (lookup ident w.descs) w ident
