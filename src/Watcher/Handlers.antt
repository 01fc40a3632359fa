-- ===== src/Watcher/Handlers.antt =====
-- The handlers of the watcher's loop (watcher.go): handlePending, handleEvents, handleGC and
-- the expiry of deadlines.
use Prim.Native.Nat.{bit_and}
use gaio.Common.{
  ℕ, zero, suc, ◌+◌, ◌%◌, ◌^◌, Bool, true, false, List, [], ◌∷◌, ◌++◌, Option, none, some,
  if◌then◌else◌, ◌==◌, not, ltb, ◌≡◌, refl, length, lookup, insert, keys, is_some,
}
use gaio.Types.{
  Error, deadline_exceeded, OpType, op_read, op_write, op_delete, Side, readers, writers, Place,
  Event, ev_read, ev_write,
}
use gaio.Timed.{at, push, pop}
use gaio.Timed.Laws.{forget}
use gaio.Kernel.{Kernel, Opened, opened, refused, dupconn}
use gaio.Watcher.{
  Watcher, cb_of, set_cb, set_err, queue_of, set_queue, desc_of, set_desc, dequeue, try_side,
  deliver, release_conn,
}

-- The end of handlePending's loop body: a request that waits under a deadline enters the heap, and
-- the timer is set if it is the first to expire.
unfoldable pub track : Watcher → ℕ → Watcher
track w p =
    let due = (cb_of w p).deadline in
    let pushed = push w.timed p in
    record w {
      timed = (if due == 0 then w.timed else pushed);
      timer = (if due == 0 then w.timer else if at pushed 0 == p then some due else w.timer);
    }

-- `pcb.l = &desc.readers; pcb.elem = pcb.l.PushBack(pcb)`, and the same for writers.
unfoldable pub enqueue : Watcher → ℕ → Side → ℕ → Watcher
enqueue w ident side p =
    let d = desc_of w ident in
    let cb = cb_of w p in
    set_desc (set_cb w p (record cb { place = some (record { fd = ident; side = side }) })) ident
      (set_queue side (queue_of side d ++ p ∷ []) d)

abbrev pub is_empty {ℓ} : {A : Type ℓ} → List A → Bool
is_empty [] = true
is_empty (x ∷ xs) = false

pub is_empty-nil : {A : Type 0} (xs : List A) → is_empty xs ≡ true → xs ≡ []
is_empty-nil [] e = refl
is_empty-nil (x ∷ xs) e = cc

-- Registration, once the poller watches the duplicate `fd`.
unfoldable pub adopt : Watcher → ℕ → ℕ → Watcher
adopt w fd p =
    let cb = cb_of w p in
    record w {
      descs = insert fd (record { reads = []; writes = []; ptr = cb.ptr }) w.descs;
      conn_idents = insert cb.ptr fd w.conn_idents;
      closed_conns = w.closed_conns ++ cb.conn ∷ [];
    }

-- `if pcb.l != nil && pcb.elem != nil { pcb.l.Remove(pcb.elem) }`
unfoldable pub unqueue : Option Place → Watcher → ℕ → Watcher
unqueue none w p = w
unqueue (some l) w p = dequeue w l.fd l.side p

abbrev pub tick : Watcher → Watcher
tick w = record w { calls = suc w.calls }

abbrev pub ready : ℕ → ℕ → Bool
ready ev bit = not (bit_and ev bit == 0)

module _ (k : Kernel) where
  -- The two cases of handlePending's switch that transfer data.
  unfoldable pub start_side : Side → Watcher → ℕ → ℕ → Watcher
  start_side side w ident p =
      let (done, w') = try_side k side w ident p in
      let tried = if done then deliver k w' p else track (enqueue w' ident side p) p in
      if is_empty (queue_of side (desc_of w ident)) then tried else track (enqueue w ident side p) p

  unfoldable pub start : OpType → Watcher → ℕ → ℕ → Watcher
  unfolding start_side
  start op_read w ident p = start_side readers w ident p
  start op_write w ident p = start_side writers w ident p
  start op_delete w ident p = track w p

  unfoldable pub watch_new : Option Error → Watcher → ℕ → ℕ → Watcher
  watch_new none w fd p = start (cb_of w p).op (adopt w fd p) fd p
  watch_new (some e) w fd p =
      deliver k (set_err (record w { closed_fds = w.closed_fds ++ fd ∷ [] }) p e) p

  unfoldable pub register_opened : Opened → Watcher → ℕ → Watcher
  register_opened (refused e) w p = deliver k (set_err w p e) p
  register_opened (opened fd) w p = watch_new (k.watch w.calls fd) (tick w) fd p

  unfoldable pub register : Watcher → ℕ → Watcher
  register w p = register_opened (dupconn k w.calls (keys w.descs) (cb_of w p).conn) (tick w) p

  -- A request of a connection that is registered as `ident`.
  unfoldable pub serve : OpType → Watcher → ℕ → ℕ → Watcher
  serve op_delete w ident p = release_conn k w ident
  serve op_read w ident p = start op_read w ident p
  serve op_write w ident p = start op_write w ident p

  unfoldable pub dispatch : Option ℕ → Watcher → ℕ → Watcher
  dispatch none w p = register w p
  dispatch (some ident) w p = serve (cb_of w p).op w ident p

  -- The body of handlePending's loop, and handlePending.
  unfoldable pub handle_request : Watcher → ℕ → Watcher
  handle_request w p = dispatch (lookup (cb_of w p).ptr w.conn_idents) w p

  unfoldable pub handle_pending : Watcher → List ℕ → Watcher
  handle_pending w [] = w
  handle_pending w (p ∷ ps) = handle_pending (handle_request w p) ps

  -- handleEvents' loop over the readers, or the writers, that wait.
  unfoldable pub retry : Side → Watcher → ℕ → List ℕ → Watcher
  retry side w ident [] = w
  retry side w ident (p ∷ ps) =
      let (done, w') = try_side k side w ident p in
      let rest = retry side (deliver k (dequeue w' ident side p) p) ident ps in
      if done then rest else w'

  unfoldable pub retry_if : Bool → Side → Watcher → ℕ → Watcher
  retry_if b side w ident = if b then retry side w ident (queue_of side (desc_of w ident)) else w

  unfoldable pub handle_event : Watcher → Event → Watcher
  handle_event w e =
      if is_some (lookup e.ident w.descs)
      then retry_if (ready e.ev ev_write) writers (retry_if (ready e.ev ev_read) readers w e.ident)
          e.ident
      else w

  unfoldable pub handle_events : Watcher → List Event → Watcher
  handle_events w [] = w
  handle_events w (e ∷ es) = handle_events (handle_event w e) es

  -- handleGC's loop: `c` is the address of a connection.
  unfoldable pub release_found : Option ℕ → Watcher → Watcher
  release_found none w = w
  release_found (some ident) w = release_conn k w ident

  unfoldable pub release_all : Watcher → List ℕ → Watcher
  release_all w [] = w
  release_all w (c ∷ cs) = release_all (release_found (lookup c w.conn_idents) w) cs

  unfoldable pub handle_gc : Watcher → Watcher
  handle_gc w =
      let w' = release_all w w.gc in
      record w' { gc_closed = (w'.gc_closed + length w'.gc) % 2 ^ 32; gc = [] }

  unfoldable pub time_out : Watcher → ℕ → Watcher
  time_out w p =
      let w1 = set_err w p deadline_exceeded in
      let w2 = unqueue (cb_of w1 p).place w1 p in
      let w3 = record w2 { timed = forget (pop w2.timed).1 p } in deliver k w3 p

  -- The loop of the timer's case, on fuel: one round for each request in the heap is enough.
  unfoldable pub expire_loop : ℕ → Watcher → ℕ → Watcher
  expire_loop zero w now = w
  expire_loop (suc f) w now =
      let p = at w.timed 0 in
      let stale = expire_loop f (record w { timed = (pop w.timed).1 }) now in
      let late = expire_loop f (time_out w p) now in
      if is_empty w.timed.arr
      then w
      else (if is_some (cb_of w p).idx
          then (if ltb (cb_of w p).deadline now
              then late
              else record w { timer = some (cb_of w p).deadline })
          else stale)

  unfoldable pub expire : Watcher → ℕ → Watcher
  unfolding expire_loop
  expire w now = expire_loop (length w.timed.arr) (record w { timer = none }) now
