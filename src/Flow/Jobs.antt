-- ===== src/Flow/Jobs.antt =====
-- The handlers of the loop (watcher.go) cut into pieces: what is left of a handler, and its next
-- piece.
use gaio.Common.{ℕ, ◌+◌, ◌%◌, ◌^◌, List, [], ◌∷◌, some, if◌then◌else◌, ltb, lookup, is_some, length}
use gaio.Types.{Side, readers, writers, Event, ev_read, ev_write}
use gaio.Timed.{at, pop}
use gaio.Kernel.{Kernel}
use gaio.Watcher.{Watcher, cb_of, queue_of, desc_of, dequeue, try_side, deliver}
use gaio.Watcher.Handlers.{is_empty, ready, handle_request, release_found, time_out}

-- What is left of the handler that the loop runs: nothing, handlePending's requests, handleEvents'
-- events, one of handleEvents' loops over a queue and what follows it, the timer's loop, and
-- handleGC's connections.
pub data Job : Type 0 where
  idle : Job
  pendings : List ℕ → Job
  eventing : List Event → Job
  retrying : Side → Event → List ℕ → List Event → Job
  expiring : ℕ → Job
  releasing : List ℕ → Job

-- handleEvents' body for a registered descriptor: the readers, then the writers.
abbrev pub begin_writers : Watcher → Event → List Event → Job
begin_writers w e es =
    if ready e.ev ev_write
    then retrying writers e (queue_of writers (desc_of w e.ident)) es
    else eventing es

abbrev pub begin_readers : Watcher → Event → List Event → Job
begin_readers w e es =
    if ready e.ev ev_read
    then retrying readers e (queue_of readers (desc_of w e.ident)) es
    else begin_writers w e es

abbrev pub after_side : Side → Watcher → Event → List Event → Job
after_side readers w e es = begin_writers w e es
after_side writers w e es = eventing es

module _ (k : Kernel) where
  -- One round of the timer's loop.
  unfoldable pub expire_one : Watcher → ℕ → Watcher × Job
  expire_one w now =
      let p = at w.timed 0 in
      if is_empty w.timed.arr
      then (w, idle)
      else (if is_some (cb_of w p).idx
          then (if ltb (cb_of w p).deadline now
              then (time_out k w p, expiring now)
              else (record w { timer = some (cb_of w p).deadline }, idle))
          else (record w { timed = (pop w.timed).1 }, expiring now))

  -- One round of a loop of handleEvents over a queue.
  unfoldable pub retry_one : Watcher → Side → Event → ℕ → List ℕ → List Event → Watcher × Job
  retry_one w side e p ps es =
      let (done, w') = try_side k side w e.ident p in
      if done
      then (deliver k (dequeue w' e.ident side p) p, retrying side e ps es)
      else (w', after_side side w' e es)

  -- The next piece of a handler.
  unfoldable pub work : Watcher → Job → Watcher × Job
  unfolding expire_one retry_one
  work w idle = (w, idle)
  work w (pendings []) = (w, idle)
  work w (pendings (p ∷ ps)) = (handle_request k w p, pendings ps)
  work w (eventing []) = (w, idle)
  work w (eventing (e ∷ es)) =
      (w, if is_some (lookup e.ident w.descs) then begin_readers w e es else eventing es)
  work w (retrying side e [] es) = (w, after_side side w e es)
  work w (retrying side e (p ∷ ps) es) = retry_one w side e p ps es
  work w (expiring now) = expire_one w now
  work w (releasing []) =
      (record w { gc_closed = (w.gc_closed + length w.gc) % 2 ^ 32; gc = [] }, idle)
  work w (releasing (c ∷ cs)) = (release_found k (lookup c w.conn_idents) w, releasing cs)
