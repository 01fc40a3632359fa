-- ===== src/System/Collect.antt =====
-- WaitIO (watcher.go) as one step: it recycles the last batch and takes everything that is in
-- chResults.
use gaio.Common.{
  ℕ, Bool, true, List, [], ◌∷◌, ◌++◌, Option, none, some, map, ◌==◌, ◌||◌, if◌then◌else◌, length,
}
use gaio.Types.{Error, watcher_closed, Aiocb, OpResult}
use gaio.Watcher.{Watcher, cb_of, set_cb}
use gaio.System.{System}

abbrev pub result_of : Aiocb → OpResult
result_of cb = record {
  operation = cb.op;
  context = cb.ctx;
  conn = cb.conn;
  buffer = cb.buffer;
  is_swap_buffer = cb.use_swap;
  size = cb.size;
  error = cb.err;
}

-- `pcb.ctx = nil; pcb.conn = nil`
unfoldable pub clear_refs : Watcher → List ℕ → Watcher
clear_refs w [] = w
clear_refs w (p ∷ ps) = clear_refs (set_cb w p (record (cb_of w p) { ctx = 0; conn = 0 })) ps

-- How WaitIO returns.
pub data Waited : Type 0 where
  returned : List OpResult → Waited
  closed : Error → Waited

abbrev pub closed_error : Option Error → Error
closed_error none = watcher_closed
closed_error (some e) = e

-- WaitIO's recycling, before it waits.
unfoldable pub recycle : System → System
recycle s = record s { pool = s.recycles ++ s.pool; recycles = [] }

-- WaitIO's case for chResults: everything that is queued is taken.
unfoldable pub take_results : System → System × Waited
take_results s =
    let w = s.watcher in
    let w1 = clear_refs w w.results in
    (
      record s {
        watcher = record w1 { results = []; shared = record (w1.shared) { should_swap = true } };
        recycles = s.recycles ++ w.results;
      },
      returned (map (λ p. result_of (cb_of w p)) w.results),
    )

-- WaitIO: `none` while it blocks. Once the watcher is closed, `prefer` says which of the ready
-- cases runs.
unfoldable pub wait_io : Bool → System → Option (System × Waited)
wait_io prefer s =
    let s1 = recycle s in
    let over = s.watcher.die || s.loop_done in
    let taken = some (take_results s1) in
    let ended = some (s1, closed (closed_error s.poller_err)) in
    if length s.watcher.results == 0
    then (if over then ended else none)
    else (if over then (if prefer then taken else ended) else taken)
