-- ===== src/Watcher/Keeps/Register.antt =====
-- handlePending (watcher.go): the registration of a connection on its first request, and the
-- dispatch of a request.
use gaio.Common.{
  ℕ, ◌≡◌, refl, [], ◌∷◌, ◌++◌, Option, none, some, arith, if◌then◌else◌, ◌==◌, count, Bool-cases,
  Option-cases, inl, inr, insert, lookup, lookup-insert, keys, count-keys, count-keys-insert,
  count-keys-none, ==_refl,
}
use gaio.Types.{readers, writers, Error, OpType, op_read, op_write, op_delete}
use gaio.Kernel.{Kernel, Opened, opened, refused, dupconn, dupconn-fresh}
use gaio.Watcher.{Watcher, FdDesc, cb_of, set_err, desc_of, deliver}
use gaio.Watcher.Handlers.{
  track, start, adopt, tick, watch_new, register_opened, register, serve, dispatch, handle_request,
}
use gaio.Watcher.Invariant.{
  queued, tally, Inv, Frame, Frame-aside, Frame-refl, Frame-Inv, queued-insert,
}
use gaio.Watcher.Invariant.Moves.{load-queue_of}
use gaio.Watcher.Deliver.{deliver-Answered, set_err-Frame}
use gaio.Watcher.Keeps.{Keeps, Keeps-trans, Frame-Keeps}
use gaio.Watcher.Keeps.Release.{release_conn-Keeps}
use gaio.Watcher.Keeps.Requests.{
  Handled, Keeps-Handled, Answered-Handled, Inv-IsFresh, start_side-Handled,
}

-- A request as aioCreate hands it over: it is nowhere yet, and Free sets no deadline.
pub record IsNew (w : Watcher) (p : ℕ) : Type 0 where
  pub nowhere : tally w p ≡ 0
  pub frees : (cb_of w p).op ≡ op_delete → (cb_of w p).deadline ≡ 0

pub adopt-Keeps :
    (w : Watcher) (fd p : ℕ)
    → Inv w
    → lookup fd w.descs ≡ none
    → lookup (cb_of w p).ptr w.conn_idents ≡ none
    → Keeps w (adopt w fd p)
unfolding adopt
adopt-Keeps w fd p v free unknown = record {
  inv = record {
    heap = v.heap;
    once = λ q. ground (arith, same q, v.once q);
    placed = λ q j t h. v.placed q j t (ground (arith, look j, load-queue_of t q empty));
    waiting = λ q h. omega (arith, same q, v.waiting q h);
    armed = λ q h. v.armed q (omega (arith, same q));
    idents = λ x j e. elim (Bool-cases (ptr == x)) [
      | inl s ↦ (empty, ground (arith, look j, ident x, ==_refl fd), ground arith)
      | inr s ↦
          let (d, a, b) = v.idents x j (ground (arith, ident x)) in (d, ground (arith, look j), b)
    ];
    owners = λ j d e. elim (Bool-cases (fd == j)) [
      | inl s ↦ ground (arith, look j, ident d.ptr, ==_refl ptr)
      | inr s ↦ ground (arith, look j, ident d.ptr, v.owners j d)
    ];
    single = λ j.
        ground (
          arith,
          count-keys-insert fd j empty w.descs,
          v.single j,
          count-keys-none fd w.descs free,
        );
  };
  no_more = λ q. omega (arith, same q);
  none_lost = λ on q. omega (arith, same q);
  tags = λ q. refl;
  die = refl;
}
  where
    ptr : ℕ
    ptr = (cb_of w p).ptr

    empty : FdDesc
    empty = record { reads = []; writes = []; ptr = ptr }

    same : (q : ℕ) → count q (queued (insert fd empty w.descs)) ≡ count q (queued w.descs)
    same q = ground (arith, queued-insert fd q empty w.descs, free)

    look :
        (j : ℕ)
        → lookup j (insert fd empty w.descs) ≡ (if fd == j then some empty else lookup j w.descs)
    look j = lookup-insert fd j empty w.descs

    ident :
        (x : ℕ)
        → lookup x (insert ptr fd w.conn_idents)
          ≡ (if ptr == x then some fd else lookup x w.conn_idents)
    ident x = lookup-insert ptr x fd w.conn_idents

tick-Frame : (w : Watcher) → Frame w (tick w)
tick-Frame w = Frame-aside refl refl refl refl refl

-- Freeing a connection that is not registered leaves its request out of every queue.
idle-Handled :
    {w : Watcher} (p : ℕ)
    → Inv w
    → (cb_of w p).op ≡ op_delete
    → (cb_of w p).deadline ≡ 0
    → Handled w p (track w p)
unfolding track
idle-Handled {w} p v op none_set = rw none_set (record {
  inv = v;
  no_more = λ q. omega arith;
  none_lost = λ on q. omega arith;
  taken = λ on other. absurd (other op);
  asks = λ q. refl;
  die = refl;
})

module _ (k : Kernel) where
  start-Handled :
      (op : OpType) (w : Watcher) (ident p : ℕ)
      → (cb_of w p).op ≡ op
      → Inv w
      → IsNew w p
      → lookup ident w.descs ≡ some (desc_of w ident)
      → Handled w p (start k op w ident p)
  unfolding start
  start-Handled op_read w ident p e v f found =
      start_side-Handled k readers w ident p v f.nowhere found
  start-Handled op_write w ident p e v f found =
      start_side-Handled k writers w ident p v f.nowhere found
  start-Handled op_delete w ident p e v f found = idle-Handled p v e (f.frees e)

  refuse-Handled :
      (w w' : Watcher) (p : ℕ) (e : Error)
      → Inv w
      → tally w p ≡ 0
      → Frame w w'
      → Handled w p (deliver k (set_err w' p e) p)
  refuse-Handled w w' p e v f g =
      let a = Frame-Keeps v g in
      let b = Keeps-trans a (Frame-Keeps a.inv (set_err-Frame w' p e)) in
      let f' : tally (set_err w' p e) p ≡ 0 = omega (arith, b.no_more p) in
      Keeps-Handled p b (
        Answered-Handled p b.inv f'
          (deliver-Answered k (set_err w' p e) p b.inv.heap (Inv-IsFresh b.inv p f').untimed))

  watch_new-Handled :
      (o : Option Error) (w : Watcher) (fd p : ℕ)
      → Inv w
      → IsNew w p
      → lookup fd w.descs ≡ none
      → lookup (cb_of w p).ptr w.conn_idents ≡ none
      → Handled w p (watch_new k o w fd p)
  unfolding watch_new adopt
  watch_new-Handled (some e) w fd p v f free unknown =
      refuse-Handled w (record w { closed_fds = w.closed_fds ++ fd ∷ [] }) p e v f.nowhere
        (Frame-aside refl refl refl refl refl)
  watch_new-Handled none w fd p v f free unknown =
      let a = adopt-Keeps w fd p v free unknown in
      Keeps-Handled p a (
        start-Handled (cb_of w p).op (adopt w fd p) fd p refl a.inv
          (record { nowhere = omega (arith, a.no_more p, f.nowhere); frees = f.frees })
          (ground (
            arith,
            lookup-insert fd fd (record { reads = []; writes = []; ptr = (cb_of w p).ptr }) w.descs,
            ==_refl fd,
          )))

  register_opened-Handled :
      (o : Opened) (w : Watcher) (p : ℕ)
      → Inv w
      → IsNew w p
      → ((fd : ℕ) → o ≡ opened fd → lookup fd w.descs ≡ none)
      → lookup (cb_of w p).ptr w.conn_idents ≡ none
      → Handled w p (register_opened k o w p)
  unfolding register_opened
  register_opened-Handled (refused e) w p v f free unknown =
      refuse-Handled w w p e v f.nowhere (Frame-refl w)
  register_opened-Handled (opened fd) w p v f free unknown =
      Keeps-Handled p (Frame-Keeps v (tick-Frame w)) (
        watch_new-Handled (k.watch w.calls fd) (tick w) fd p (Frame-Inv (tick-Frame w) v)
          (record { nowhere = f.nowhere; frees = f.frees }) (free fd refl) unknown)

  register-Handled :
      (w : Watcher) (p : ℕ)
      → Inv w
      → IsNew w p
      → lookup (cb_of w p).ptr w.conn_idents ≡ none
      → Handled w p (register k w p)
  unfolding register
  register-Handled w p v f unknown =
      let conn = (cb_of w p).conn in
      let open_fds = keys w.descs in
      Keeps-Handled p (Frame-Keeps v (tick-Frame w)) (
        register_opened-Handled (dupconn k w.calls open_fds conn) (tick w) p
          (Frame-Inv (tick-Frame w) v) (record { nowhere = f.nowhere; frees = f.frees })
          (λ fd e. count-keys fd w.descs (dupconn-fresh k w.calls open_fds conn fd e)) unknown)

  serve-Handled :
      (op : OpType) (w : Watcher) (ident p : ℕ)
      → (cb_of w p).op ≡ op
      → Inv w
      → IsNew w p
      → lookup ident w.descs ≡ some (desc_of w ident)
      → Handled w p (serve k op w ident p)
  unfolding serve
  serve-Handled op_read w ident p e v f found = start-Handled op_read w ident p e v f found
  serve-Handled op_write w ident p e v f found = start-Handled op_write w ident p e v f found
  serve-Handled op_delete w ident p e v f found =
      let r = release_conn-Keeps k w ident v in
      record {
        inv = r.inv;
        no_more = λ q. omega (arith, r.no_more q);
        none_lost = λ on q. omega (arith, r.none_lost on q);
        taken = λ on other. absurd (other e);
        asks = λ q. ground (arith, r.tags q);
        die = r.die;
      }

  -- handlePending's loop body keeps the invariant, and leaves a request to read or write in exactly
  -- one place.
  pub handle_request-Handled :
      (w : Watcher) (p : ℕ) → Inv w → IsNew w p → Handled w p (handle_request k w p)
  unfolding handle_request dispatch
  handle_request-Handled w p v f = elim (Option-cases (lookup (cb_of w p).ptr w.conn_idents)) [
    | inl e ↦ rw e (register-Handled w p v f e)
    | inr (ident, e) ↦
        let (d, found, _) = v.idents (cb_of w p).ptr ident e in
        rw e (serve-Handled (cb_of w p).op w ident p refl v f (ground arith))
  ]
