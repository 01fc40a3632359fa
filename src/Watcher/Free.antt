-- ===== src/Watcher/Free.antt =====
-- Free (watcher.go): what handlePending does with a request to release a connection that is
-- registered, that is not, and that was released before.
use gaio.Common.{
  ℕ, ◌<◌, ◌≡◌, ap, false, [], ◌∷◌, ◌++◌, none, some, arith, ◌==◌, count, lookup, lookup-delete,
  ==_refl, keys,
}
use gaio.Types.{Error, closed_pipe, op_delete}
use gaio.Kernel.{Kernel, refused, dupconn}
use gaio.Watcher.{Watcher, FdDesc, cb_of, set_err, release_conn, release_desc}
use gaio.Watcher.Handlers.{handle_request, dispatch, serve, register, register_opened, tick}
use gaio.Watcher.Invariant.{Inv, Frame-IsValid}
use gaio.Watcher.Deliver.{deliver-Delivered, set_err-Frame}
use gaio.Watcher.Keeps.Release.{fail_queues-Failed}
use gaio.System.Collect.{result_of}

-- `w'` is `w` after the connection at `ptr`, registered as `ident` with the record `d`, was
-- released.
pub record Released (w : Watcher) (ptr ident : ℕ) (d : FdDesc) (w' : Watcher) : Type 0 where
  pub results : w.die ≡ false → w'.results ≡ w.results ++ (d.reads ++ d.writes)
  pub errs : (q : ℕ) → 0 < count q (d.reads ++ d.writes) → (cb_of w' q).err ≡ some closed_pipe
  pub unwatched : lookup ident w'.descs ≡ none
  pub unknown : lookup ptr w'.conn_idents ≡ none
  pub closed_fds : w'.closed_fds ≡ w.closed_fds ++ ident ∷ []
  pub elsewhere : (fd : ℕ) → (ident == fd) ≡ false → lookup fd w'.descs ≡ lookup fd w.descs

module _ (k : Kernel) where
  -- On a watcher whose invariant holds, Free of a registered connection completes with
  -- io.ErrClosedPipe every request of its two queues, the reads first, and while the watcher is open
  -- chResults grows by exactly these; the connection leaves both maps, its duplicate descriptor is
  -- closed, and no other descriptor changes.
  pub free-Released :
      (w : Watcher) (p ident : ℕ) (d : FdDesc)
      → Inv w
      → (cb_of w p).op ≡ op_delete
      → lookup (cb_of w p).ptr w.conn_idents ≡ some ident
      → lookup ident w.descs ≡ some d
      → Released w (cb_of w p).ptr ident d (handle_request k w p)
  unfolding handle_request dispatch serve release_conn release_desc
  free-Released w p ident d v op known found =
      let r = fail_queues-Failed k w d v.heap in
      let (x, there, owner) = v.idents (cb_of w p).ptr ident known in
      let same : d.ptr ≡ (cb_of w p).ptr = ground (arith, there, owner, found) in
      rw (known, op, found)
        (record {
          results = r.sent;
          errs = r.errs;
          unwatched =
              rw r.descs (rw (lookup-delete ident ident w.descs) (ground (arith, ==_refl ident)));
          unknown =
              rw (r.conn_idents, same)
                (rw (lookup-delete (cb_of w p).ptr (cb_of w p).ptr w.conn_idents)
                  (ground (arith, ==_refl (cb_of w p).ptr)));
          closed_fds = ap (λ c. c ++ ident ∷ []) r.closed_fds;
          elsewhere = λ fd e. rw r.descs (rw (lookup-delete ident fd w.descs) (ground arith));
        })

  -- On an open watcher whose invariant holds, Free of a connection that has no registration and
  -- that dupconn refuses delivers the request, so that WaitIO returns a result with the internal
  -- operation opDelete and the error of dupconn.
  pub free_refused-delivers :
      (w : Watcher) (p : ℕ) (e : Error)
      → Inv w
      → w.die ≡ false
      → (cb_of w p).op ≡ op_delete
      → lookup (cb_of w p).ptr w.conn_idents ≡ none
      → dupconn k w.calls (keys w.descs) (cb_of w p).conn ≡ refused e
      → let w' = handle_request k w p in
        (w'.results ≡ w.results ++ p ∷ [])
        × ((result_of (cb_of w' p)).operation ≡ op_delete)
        × ((result_of (cb_of w' p)).error ≡ some e)
  unfolding handle_request dispatch register register_opened
  free_refused-delivers w p e v on op unknown dup =
      let r =
        deliver-Delivered k (set_err (tick w) p e) p
          (Frame-IsValid (set_err-Frame (tick w) p e) v.heap) in
      rw (unknown, dup) (r.sent on, ground (arith, r.bodies p, op), ground (arith, r.bodies p))
