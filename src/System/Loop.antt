-- ===== src/System/Loop.antt =====
-- The cases of the watcher's loop, its deferred function and the finalizer of a connection
-- (watcher.go).
use gaio.Common.{
  ℕ, ◌+◌, ◌%◌, ◌^◌, true, false, List, [], ◌∷◌, ◌++◌, none, some, keys, if◌then◌else◌,
}
use gaio.Types.{Aiocb, Signal}
use gaio.Kernel.{Kernel}
use gaio.Watcher.{Watcher, set_cb, release_conn}
use gaio.Watcher.Handlers.{handle_pending, handle_events, handle_gc, expire}
use gaio.System.{System, blank, stop}

-- The finalizer that registration sets on a connection. System.Step runs it only for a
-- connection that no request holds.
unfoldable pub finalize : System → ℕ → System
finalize s c =
    let w = s.watcher in
    record s {
      watcher = record w {
        gc = w.gc ++ c ∷ [];
        gc_found = (w.gc_found + 1) % 2 ^ 32;
        gc_notify = true;
      };
    }

-- `*pcb = aiocb{}`: every field is zero, the index too.
abbrev pub zero_cb : Aiocb
zero_cb = record blank { idx = some 0 }

unfoldable pub drain : Watcher → List ℕ → Watcher
drain w [] = w
drain w (p ∷ ps) = drain (set_cb w p zero_cb) ps

module _ (k : Kernel) where
  -- The case for chPendingNotify.
  unfoldable pub on_pending : System → System
  on_pending s = record s {
    watcher = handle_pending k s.watcher s.pending_create;
    pending_create = [];
    pending_processing = [];
    pending_notify = false;
  }

  -- The deferred function's loop over the registered descriptors, in the order of the range.
  unfoldable pub release_idents : Watcher → List ℕ → Watcher
  release_idents w [] = w
  release_idents w (i ∷ is) = release_idents (release_conn k w i) is

  -- The deferred function.
  unfoldable pub shut_down : System → System
  shut_down s =
      let w = release_idents s.watcher (k.range s.watcher.calls (keys s.watcher.descs)) in
      record s {
        watcher = record (drain w w.results) { results = [] };
        pending_create = [];
        pending_processing = [];
        loop_done = true;
      }

  -- The case for chSignal. A poller's error ends the loop.
  unfoldable pub on_signal : System → Signal → System
  on_signal s sig = elim sig.err [
    | some e ↦ shut_down (stop (record s { poller_err = some e }))
    | none ↦ record s { watcher = handle_events k s.watcher sig.events }
  ]

  -- The case for the timer.
  unfoldable pub on_timer : System → ℕ → System
  on_timer s now = record s { watcher = expire k s.watcher now }

  -- The case for gcNotify.
  unfoldable pub on_gc : System → System
  on_gc s = let w = record (s.watcher) { gc_notify = false } in record s { watcher = handle_gc k w }

  -- The case for `die`.
  unfoldable pub on_die : System → System
  on_die s = shut_down s

  -- Close, which returns once the loop has ended.
  unfoldable pub close_watcher : System → System
  close_watcher s = if s.loop_done then stop s else on_die (stop s)
