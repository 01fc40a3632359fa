-- ===== src/Watcher/Untouched.antt =====
-- What the loop's functions do to the requests that are in no queue and not in their hands
-- (watcher.go): nothing.
use gaio.Common.{
  ℕ, ◌≡◌, refl, ◌++◌, ◌∙◌, false, List, [], ◌∷◌, Option, none, some, arith, ◌==◌, lookup, count,
  Option-cases, inl, inr, if_both,
}
use gaio.Types.{
  Error, closed_pipe, deadline_exceeded, OpType, op_read, op_write, op_delete, Side, readers,
  writers, Place,
}
use gaio.Timed.{Timed, pop, remove_at}
use gaio.Timed.Track.{body}
use gaio.Timed.Laws.{forget}
use gaio.Timed.Bodies.{push-SameBodies, pop-SameBodies, remove_at-SameBodies, forget-SameBodies}
use gaio.Kernel.{Kernel, Opened, opened, refused}
use gaio.Watcher.{
  Watcher, FdDesc, cb_of, set_err, queue_of, or_empty, desc_of, dequeue, try_read, try_write,
  try_side, untrack_at, send, deliver, fail_all, release_desc, release_conn,
}
use gaio.Watcher.Handlers.{
  track, enqueue, is_empty, adopt, unqueue, tick, start_side, start, watch_new, register_opened,
  register, serve, dispatch, release_found, time_out,
}
use gaio.Watcher.Invariant.{queued, load-lookup}

module _ (k : Kernel) (q : ℕ) where
  -- The request is the same, up to its index.
  abbrev pub Untouched : Watcher → Watcher → Type 0
  Untouched w w' = body (cb_of w' q) ≡ body (cb_of w q)

  pub deliver-Untouched : (w : Watcher) (p : ℕ) → Untouched w (deliver k w p)
  unfolding deliver send untrack_at
  deliver-Untouched w p = elim (Option-cases (cb_of w p).idx) [
    | inl e ↦ rw e refl
    | inr (i, e) ↦
        let h = (remove_at w.timed i).1 in
        rw e (forget-SameBodies h p q ∙ remove_at-SameBodies w.timed i q)
  ]

  track-Untouched : (w : Watcher) (p : ℕ) → Untouched w (track w p)
  unfolding track
  track-Untouched w p =
      if_both (λ (h : Timed). body (h.cbs q) ≡ body (cb_of w q)) ((cb_of w p).deadline == 0) _ _
        refl (push-SameBodies w.timed p q)

  set_err-Untouched :
      (w : Watcher) (p : ℕ) (e : Error) → (p == q) ≡ false → Untouched w (set_err w p e)
  set_err-Untouched w p e ne = ground arith

  enqueue-Untouched :
      (w : Watcher) (ident : ℕ) (side : Side) (p : ℕ)
      → (p == q) ≡ false
      → Untouched w (enqueue w ident side p)
  unfolding enqueue
  enqueue-Untouched w ident side p ne = ground arith

  pub try_side-Untouched :
      (side : Side) (w : Watcher) (fd p : ℕ)
      → (p == q) ≡ false
      → Untouched w (try_side k side w fd p).1
  unfolding try_side try_read try_write
  try_side-Untouched readers w fd p ne = ground arith
  try_side-Untouched writers w fd p ne = ground arith

  fail_all-Untouched : (w : Watcher) (ps : List ℕ) → count q ps ≡ 0 → Untouched w (fail_all k w ps)
  unfolding fail_all
  fail_all-Untouched w [] h = refl
  fail_all-Untouched w (p ∷ ps) h =
      fail_all-Untouched (deliver k (set_err w p closed_pipe) p) ps (ground arith)
      ∙ deliver-Untouched (set_err w p closed_pipe) p
      ∙ set_err-Untouched w p closed_pipe (ground arith)

  release_desc-Untouched :
      (o : Option FdDesc) (w : Watcher) (ident : ℕ)
      → count q (or_empty o).reads ≡ 0
      → count q (or_empty o).writes ≡ 0
      → Untouched w (release_desc k o w ident)
  unfolding release_desc
  release_desc-Untouched none w ident r s = refl
  release_desc-Untouched (some d) w ident r s =
      fail_all-Untouched (fail_all k w d.reads) d.writes s ∙ fail_all-Untouched w d.reads r

  release_conn-Untouched :
      (w : Watcher) (ident : ℕ)
      → count q (queued w.descs) ≡ 0
      → Untouched w (release_conn k w ident)
  unfolding release_conn
  release_conn-Untouched w ident h =
      let l = load-lookup q ident w.descs in
      release_desc-Untouched (lookup ident w.descs) w ident (omega arith) (omega arith)

  start_side-Untouched :
      (side : Side) (w : Watcher) (ident p : ℕ)
      → (p == q) ≡ false
      → Untouched w (start_side k side w ident p)
  unfolding start_side
  start_side-Untouched side w ident p ne =
      let t = try_side k side w ident p in
      let tried = try_side-Untouched side w ident p ne in
      if_both (Untouched w) (is_empty (queue_of side (desc_of w ident))) _ _
        (if_both (Untouched w) t.0 _ _ (deliver-Untouched t.1 p ∙ tried) (
          track-Untouched (enqueue t.1 ident side p) p
          ∙ enqueue-Untouched t.1 ident side p ne
          ∙ tried))
        (track-Untouched (enqueue w ident side p) p ∙ enqueue-Untouched w ident side p ne)

  start-Untouched :
      (o : OpType) (w : Watcher) (ident p : ℕ)
      → (p == q) ≡ false
      → Untouched w (start k o w ident p)
  unfolding start
  start-Untouched op_read w ident p ne = start_side-Untouched readers w ident p ne
  start-Untouched op_write w ident p ne = start_side-Untouched writers w ident p ne
  start-Untouched op_delete w ident p ne = track-Untouched w p

  watch_new-Untouched :
      (o : Option Error) (w : Watcher) (fd p : ℕ)
      → (p == q) ≡ false
      → Untouched w (watch_new k o w fd p)
  unfolding watch_new adopt
  watch_new-Untouched none w fd p ne = start-Untouched (cb_of w p).op (adopt w fd p) fd p ne
  watch_new-Untouched (some e) w fd p ne =
      let closed : Watcher = record w { closed_fds = w.closed_fds ++ fd ∷ [] } in
      deliver-Untouched (set_err closed p e) p ∙ set_err-Untouched closed p e ne

  register_opened-Untouched :
      (o : Opened) (w : Watcher) (p : ℕ) → (p == q) ≡ false → Untouched w (register_opened k o w p)
  unfolding register_opened
  register_opened-Untouched (refused e) w p ne =
      deliver-Untouched (set_err w p e) p ∙ set_err-Untouched w p e ne
  register_opened-Untouched (opened fd) w p ne =
      watch_new-Untouched (k.watch w.calls fd) (tick w) fd p ne

  serve-Untouched :
      (o : OpType) (w : Watcher) (ident p : ℕ)
      → count q (queued w.descs) ≡ 0
      → (p == q) ≡ false
      → Untouched w (serve k o w ident p)
  unfolding serve
  serve-Untouched op_delete w ident p h ne = release_conn-Untouched w ident h
  serve-Untouched op_read w ident p h ne = start-Untouched op_read w ident p ne
  serve-Untouched op_write w ident p h ne = start-Untouched op_write w ident p ne

  pub dispatch-Untouched :
      (o : Option ℕ) (w : Watcher) (p : ℕ)
      → count q (queued w.descs) ≡ 0
      → (p == q) ≡ false
      → Untouched w (dispatch k o w p)
  unfolding dispatch register
  dispatch-Untouched none w p h ne = register_opened-Untouched _ (tick w) p ne
  dispatch-Untouched (some ident) w p h ne = serve-Untouched (cb_of w p).op w ident p h ne

  unqueue-Untouched : (o : Option Place) (w : Watcher) (p : ℕ) → Untouched w (unqueue o w p)
  unfolding unqueue dequeue
  unqueue-Untouched none w p = refl
  unqueue-Untouched (some l) w p = refl

  pub time_out-Untouched : (w : Watcher) (p : ℕ) → (p == q) ≡ false → Untouched w (time_out k w p)
  unfolding time_out
  time_out-Untouched w p ne =
      let w1 = set_err w p deadline_exceeded in
      let w2 = unqueue (cb_of w1 p).place w1 p in
      let w3 : Watcher = record w2 { timed = forget (pop w2.timed).1 p } in
      deliver-Untouched w3 p
      ∙ forget-SameBodies (pop w2.timed).1 p q
      ∙ pop-SameBodies w2.timed q
      ∙ unqueue-Untouched (cb_of w1 p).place w1 p
      ∙ set_err-Untouched w p deadline_exceeded ne

  pub release_found-Untouched :
      (o : Option ℕ) (w : Watcher)
      → count q (queued w.descs) ≡ 0
      → Untouched w (release_found k o w)
  unfolding release_found
  release_found-Untouched none w h = refl
  release_found-Untouched (some ident) w h = release_conn-Untouched w ident h
