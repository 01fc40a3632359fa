-- ===== src/Watcher/Sized/Handled.antt =====
-- handlePending and what it calls (watcher.go), for the sizes of the requests.

use gaio.Common.{
  ℕ, List, [], ◌∷◌, ◌++◌, Option, none, some, ◌==◌, lookup, ◌≡◌, refl, sym, subst, ◌∙◌, if_both,
  Option-cases, inl, inr, ◌-◌,
}
use gaio.Types.{
  Error, closed_pipe, OpType, op_read, op_write, op_delete, Side, readers, writers, Place,
}
use gaio.Timed.{remove_at}
use gaio.Timed.Track.{body}
use gaio.Kernel.{Kernel, Opened, opened, refused}
use gaio.Watcher.{
  Watcher, cb_of, set_cb, set_err, queue_of, desc_of, dequeue, try_side, deliver, release_conn,
}
use gaio.Types.{Aiocb, buffer_length}
use gaio.Timed.{Timed}
use gaio.Timed.Bodies.{SameBodies, push-SameBodies, remove_at-SameBodies, forget-SameBodies}
use gaio.Transfer.{choose_buffer}
use gaio.Watcher.{FdDesc, try_read, try_write, untrack_at, send, fail_all, release_desc}
use gaio.Watcher.Handlers.{
  track, enqueue, is_empty, adopt, unqueue, tick, start_side, start, watch_new, register_opened,
  register, serve, dispatch, handle_request, handle_pending,
}
use gaio.Watcher.Sized.{Fits, Sized, read_step-ReadSized, write_step-Fits}

-- Where at most the heap and the indices change.
pub Sized-timed :
    {w w' : Watcher} → Sized w → SameBodies w.timed w'.timed → w'.shared ≡ w.shared → Sized w'
Sized-timed v b e = record { fits = λ p. subst Fits (sym (b p)) (v.fits p); shared = rw e v.shared }

pub set_cb-Sized : (w : Watcher) (p : ℕ) (cb : Aiocb) → Sized w → Fits cb → Sized (set_cb w p cb)
set_cb-Sized w p cb v f = record {
  fits = λ q. if_both Fits (p == q) _ _ f (v.fits q);
  shared = v.shared;
}

pub set_err-Sized : (w : Watcher) (p : ℕ) (e : Error) → Sized w → Sized (set_err w p e)
set_err-Sized w p e v = set_cb-Sized w p _ v (v.fits p)

pub dequeue-Sized :
    (w : Watcher) (ident : ℕ) (side : Side) (p : ℕ) → Sized w → Sized (dequeue w ident side p)
unfolding dequeue
dequeue-Sized w ident side p v = Sized-timed v (λ q. refl) refl

enqueue-Sized :
    (w : Watcher) (ident : ℕ) (side : Side) (p : ℕ) → Sized w → Sized (enqueue w ident side p)
unfolding enqueue
enqueue-Sized w ident side p v = Sized-timed (set_cb-Sized w p _ v (v.fits p)) (λ q. refl) refl

track-Sized : (w : Watcher) (p : ℕ) → Sized w → Sized (track w p)
unfolding track
track-Sized w p v =
    Sized-timed v
      (λ q.
        if_both (λ (h : Timed). body (h.cbs q) ≡ body (cb_of w q)) ((cb_of w p).deadline == 0) _ _
          refl (push-SameBodies w.timed p q))
      refl

adopt-Sized : (w : Watcher) (fd p : ℕ) → Sized w → Sized (adopt w fd p)
unfolding adopt
adopt-Sized w fd p v = Sized-timed v (λ q. refl) refl

pub unqueue-Sized : (l : Option Place) (w : Watcher) (p : ℕ) → Sized w → Sized (unqueue l w p)
unfolding unqueue
unqueue-Sized none w p v = v
unqueue-Sized (some l) w p v = dequeue-Sized w l.fd l.side p v

module _ (k : Kernel) where
  pub deliver-Sized : (w : Watcher) (p : ℕ) → Sized w → Sized (deliver k w p)
  unfolding deliver send untrack_at
  deliver-Sized w p v = elim (Option-cases (cb_of w p).idx) [
    | inl e ↦ rw e (Sized-timed v (λ q. refl) refl)
    | inr (i, e) ↦
        let h = (remove_at w.timed i).1 in
        rw e (Sized-timed v (λ q. forget-SameBodies h p q ∙ remove_at-SameBodies w.timed i q) refl)
  ]

  fail_all-Sized : (w : Watcher) (ps : List ℕ) → Sized w → Sized (fail_all k w ps)
  unfolding fail_all
  fail_all-Sized w [] v = v
  fail_all-Sized w (p ∷ ps) v =
      fail_all-Sized (deliver k (set_err w p closed_pipe) p) ps
        (deliver-Sized _ p (set_err-Sized w p closed_pipe v))

  release_desc-Sized :
      (o : Option FdDesc) (w : Watcher) (ident : ℕ) → Sized w → Sized (release_desc k o w ident)
  unfolding release_desc
  release_desc-Sized none w ident v = v
  release_desc-Sized (some d) w ident v =
      Sized-timed (fail_all-Sized _ d.writes (fail_all-Sized w d.reads v)) (λ q. refl) refl

  pub release_conn-Sized : (w : Watcher) (ident : ℕ) → Sized w → Sized (release_conn k w ident)
  unfolding release_conn
  release_conn-Sized w ident v = release_desc-Sized (lookup ident w.descs) w ident v

  pub try_side-Sized :
      (side : Side) (w : Watcher) (fd p : ℕ) → Sized w → Sized (try_side k side w fd p).1
  unfolding try_side try_read try_write
  try_side-Sized readers w fd p v =
      let cb = cb_of w p in
      let c = choose_buffer w.shared cb.buffer in
      let room = buffer_length c.buf - cb.size in
      let r =
        read_step-ReadSized w.shared cb.buffer cb (k.read w.calls fd room) refl v.shared (v.fits p)
          (k.read_within w.calls fd room) in
      record { fits = λ q. if_both Fits (p == q) _ _ r.fits (v.fits q); shared = r.shared }
  try_side-Sized writers w fd p v =
      let cb = cb_of w p in
      let room = buffer_length cb.buffer - cb.size in
      let f =
        write_step-Fits cb (k.write w.calls fd room) (v.fits p) (k.write_within w.calls fd room) in
      Sized-timed (set_cb-Sized w p _ v f) (λ q. refl) refl

  start_side-Sized :
      (side : Side) (w : Watcher) (ident p : ℕ) → Sized w → Sized (start_side k side w ident p)
  unfolding start_side
  start_side-Sized side w ident p v =
      let t = try_side k side w ident p in
      let v' = try_side-Sized side w ident p v in
      if_both Sized (is_empty (queue_of side (desc_of w ident))) _ _
        (if_both Sized t.0 _ _ (deliver-Sized t.1 p v')
          (track-Sized _ p (enqueue-Sized t.1 ident side p v')))
        (track-Sized _ p (enqueue-Sized w ident side p v))

  start-Sized : (o : OpType) (w : Watcher) (ident p : ℕ) → Sized w → Sized (start k o w ident p)
  unfolding start
  start-Sized op_read w ident p v = start_side-Sized readers w ident p v
  start-Sized op_write w ident p v = start_side-Sized writers w ident p v
  start-Sized op_delete w ident p v = track-Sized w p v

  watch_new-Sized :
      (o : Option Error) (w : Watcher) (fd p : ℕ) → Sized w → Sized (watch_new k o w fd p)
  unfolding watch_new
  watch_new-Sized none w fd p v = start-Sized (cb_of w p).op _ fd p (adopt-Sized w fd p v)
  watch_new-Sized (some e) w fd p v =
      let closed : Watcher = record w { closed_fds = w.closed_fds ++ fd ∷ [] } in
      deliver-Sized (set_err closed p e) p
        (set_err-Sized closed p e (Sized-timed {w' = closed} v (λ q. refl) refl))

  register_opened-Sized :
      (o : Opened) (w : Watcher) (p : ℕ) → Sized w → Sized (register_opened k o w p)
  unfolding register_opened
  register_opened-Sized (refused e) w p v = deliver-Sized _ p (set_err-Sized w p e v)
  register_opened-Sized (opened fd) w p v =
      watch_new-Sized (k.watch w.calls fd) (tick w) fd p (Sized-timed v (λ q. refl) refl)

  serve-Sized : (o : OpType) (w : Watcher) (ident p : ℕ) → Sized w → Sized (serve k o w ident p)
  unfolding serve
  serve-Sized op_delete w ident p v = release_conn-Sized w ident v
  serve-Sized op_read w ident p v = start-Sized op_read w ident p v
  serve-Sized op_write w ident p v = start-Sized op_write w ident p v

  dispatch-Sized : (o : Option ℕ) (w : Watcher) (p : ℕ) → Sized w → Sized (dispatch k o w p)
  unfolding dispatch register
  dispatch-Sized none w p v = register_opened-Sized _ (tick w) p (Sized-timed v (λ q. refl) refl)
  dispatch-Sized (some ident) w p v = serve-Sized (cb_of w p).op w ident p v

  pub handle_pending-Sized : (w : Watcher) (ps : List ℕ) → Sized w → Sized (handle_pending k w ps)
  unfolding handle_pending handle_request
  handle_pending-Sized w [] v = v
  handle_pending-Sized w (p ∷ ps) v =
      handle_pending-Sized (handle_request k w p) ps
        (dispatch-Sized (lookup (cb_of w p).ptr w.conn_idents) w p v)
