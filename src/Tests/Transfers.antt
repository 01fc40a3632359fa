-- ===== src/Tests/Transfers.antt =====
-- Runs of the transfers and the queues (watcher.go).
use gaio.Common.{
  ℕ, ◌≡◌, refl, Bool, true, false, [], ◌∷◌, none, some, arith, lookup, insert, keys, suc,
}
use gaio.Types.{Aiocb, user, op_delete, poller_closed, watcher_closed, readers}
use gaio.Kernel.{moved, interrupted, dupconn, opened}
use gaio.Timed.{append, push, up, remove_at, shrink, expel, down}
use gaio.Transfer.{
  Chosen, choose_buffer, choose_shared, finish_read, read_loop, read_step, rotate, write_loop,
  write_step,
}
use gaio.Transfer.Replies.{Reads, read_step-Reads, Writes, write_step-Writes}
use gaio.Watcher.Handlers.{
  handle_events, handle_event, retry_if, retry, start_side, handle_request, handle_pending,
  dispatch, register, register_opened, watch_new, start, adopt, enqueue, track,
}
use gaio.Watcher.Order.{Served, handle_event-Served}
use gaio.Watcher.Order.Started.{Started, start_side-Started}
use gaio.Watcher.{FdDesc, cb_of, deliver, send, try_read, try_side, try_write, untrack_at, dequeue}
use gaio.Watcher.Free.{Released, free-Released}
use gaio.System.{blank, new_watcher_size, aio_create, create_at, submit, get_cb, System, Request}
use gaio.System.Collect.{closed, wait_io, recycle}
use gaio.System.Loop.{on_pending, on_signal}
use gaio.System.Results.{on_signal_fails}
use gaio.Tests.Sample.{
  kernel, waiting, waiting-IsSafe, waiting-open, freeing, freeing_known, freeing_known-IsSafe,
}

-- Half of a buffer of 16 bytes is filled.
abbrev half : Aiocb
half = record blank { size = 8; buffer = user 3 16; read_full = true }

abbrev chosen : Chosen
chosen = record {
  buf = user 3 16;
  use_swap = false;
  back_buffer = false;
  shared = record { size = 64; front = 0; middle = 1; back = 2; offset = 0; should_swap = false };
}

read_step-Reads_example :
    Reads chosen half (interrupted (moved 8)) (read_step chosen half (interrupted (moved 8)))
read_step-Reads_example =
    read_step-Reads chosen half (interrupted (moved 8)) (omega arith) (omega arith)

write_step-Writes_example :
    Writes half (interrupted (moved 5)) (write_step half (interrupted (moved 5)))
write_step-Writes_example =
    write_step-Writes half (interrupted (moved 5)) refl (omega arith) (omega arith)

handle_event-Served_example :
    Served waiting.watcher 1 (handle_event kernel waiting.watcher (record { ident = 1; ev = 1 }))
handle_event-Served_example =
    handle_event-Served kernel waiting.watcher (record { ident = 1; ev = 1 }) waiting-IsSafe.inv
      waiting-open

start_side-Started_example :
    Started readers waiting.watcher 1 5 (start_side kernel readers waiting.watcher 1 5)
start_side-Started_example =
    start_side-Started kernel readers waiting.watcher 1 5 waiting-IsSafe.inv waiting-open

-- The connection is known, its one read waits, and the request to free it is at address 1.
freeing_known-op : (cb_of freeing_known.watcher 1).op ≡ op_delete
unfolding aio_create create_at submit get_cb on_pending new_watcher_size handle_pending
    handle_request dispatch lookup register register_opened dupconn watch_new start adopt insert
    append push up choose_buffer choose_shared finish_read read_loop read_step rotate write_loop
    write_step enqueue start_side track deliver send try_read try_side try_write untrack_at
freeing_known-op = refl

freeing_known-ident :
    lookup (cb_of freeing_known.watcher 1).ptr freeing_known.watcher.conn_idents ≡ some 1
unfolding aio_create create_at submit get_cb on_pending new_watcher_size handle_pending
    handle_request dispatch lookup register register_opened dupconn watch_new start adopt insert
    append push up choose_buffer choose_shared finish_read read_loop read_step rotate write_loop
    write_step enqueue start_side track deliver send try_read try_side try_write untrack_at
freeing_known-ident = refl

abbrev desc : FdDesc
desc = record { reads = 0 ∷ []; writes = []; ptr = 5 }

freeing_known-desc : lookup 1 freeing_known.watcher.descs ≡ some desc
unfolding aio_create create_at submit get_cb on_pending new_watcher_size handle_pending
    handle_request dispatch lookup register register_opened dupconn watch_new start adopt insert
    append push up choose_buffer choose_shared finish_read read_loop read_step rotate write_loop
    write_step enqueue start_side track deliver send try_read try_side try_write untrack_at
freeing_known-desc = refl

free-Released_example :
    Released freeing_known.watcher
      (cb_of freeing_known.watcher 1).ptr
      1
      desc
      (handle_request kernel freeing_known.watcher 1)
free-Released_example =
    free-Released kernel freeing_known.watcher 1 1 desc freeing_known-IsSafe.inv freeing_known-op
      freeing_known-ident freeing_known-desc

freeing-op : (cb_of freeing.watcher 0).op ≡ op_delete
unfolding aio_create create_at submit get_cb new_watcher_size lookup
freeing-op = refl

freeing-deadline : (cb_of freeing.watcher 0).deadline ≡ 0
unfolding aio_create create_at submit get_cb new_watcher_size lookup
freeing-deadline = refl

freeing-unknown : lookup (cb_of freeing.watcher 0).ptr freeing.watcher.conn_idents ≡ none
unfolding aio_create create_at submit get_cb new_watcher_size lookup
freeing-unknown = refl

freeing-dup :
    dupconn kernel freeing.watcher.calls (keys freeing.watcher.descs) (cb_of freeing.watcher 0).conn
    ≡ opened 1
unfolding dupconn aio_create create_at submit get_cb new_watcher_size lookup
freeing-dup = refl

-- A readiness event completes the waiting read, and WaitIO returns it.
abbrev served : System
served =
    on_signal kernel waiting (record { events = record { ident = 1; ev = 1 } ∷ []; err = none })

served-results : served.watcher.results ≡ 0 ∷ []
unfolding aio_create create_at submit get_cb on_pending new_watcher_size handle_pending
    handle_request dispatch lookup register register_opened dupconn watch_new start adopt insert
    append push up choose_buffer choose_shared finish_read read_loop read_step rotate write_loop
    write_step enqueue start_side track deliver send try_read try_side try_write untrack_at
    on_signal handle_events handle_event retry_if retry dequeue remove_at shrink expel down
served-results = refl

served-open : served.watcher.die ≡ false
unfolding aio_create create_at submit get_cb on_pending new_watcher_size handle_pending
    handle_request dispatch lookup register register_opened dupconn watch_new start adopt insert
    append push up choose_buffer choose_shared finish_read read_loop read_step rotate write_loop
    write_step enqueue start_side track deliver send try_read try_side try_write untrack_at
    on_signal handle_events handle_event retry_if retry dequeue remove_at shrink expel down
served-open = refl

served-going : served.loop_done ≡ false
unfolding on_signal aio_create create_at submit get_cb on_pending new_watcher_size
served-going = refl

on_signal_fails_example :
    let t = on_signal kernel waiting (record { events = []; err = some poller_closed }) in
    ((prefer : Bool) → wait_io prefer t ≡ some (recycle t, closed poller_closed))
    × ((pick conn : ℕ) (r : Request)
        → (aio_create pick t r (some (suc conn))).1 ≡ some watcher_closed)
on_signal_fails_example =
    on_signal_fails kernel waiting (record { events = []; err = some poller_closed }) poller_closed
      refl waiting-IsSafe.inv waiting-open
