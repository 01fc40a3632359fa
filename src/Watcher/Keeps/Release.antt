-- ===== src/Watcher/Keeps/Release.antt =====
-- releaseConn and handleGC (watcher.go): what becomes of the requests and the entries of a
-- connection.
use mathlib.Core.List.{append-nil, append_assoc}
use gaio.Common.{
  ℕ, ◌+◌, ◌≤◌, ◌<◌, ◌≡◌, refl, sym, ap, ◌∙◌, false, List, [], ◌∷◌, ◌++◌, Option, none, some, arith,
  if◌then◌else◌, ◌==◌, count, count-append, Bool-cases, Option-cases, inl, inr, delete, lookup,
  lookup-delete, count-keys-delete,
}
use gaio.Types.{closed_pipe}
use gaio.Timed.Track.{body}
use gaio.Timed.Push.{IsValid, holds}
use gaio.Kernel.{Kernel}
use gaio.Watcher.{Watcher, FdDesc, cb_of, set_err, deliver, fail_all, release_desc, release_conn}
use gaio.Watcher.Handlers.{release_found, release_all, handle_gc}
use gaio.Watcher.Invariant.{queued, load, tag, Inv, Frame-aside, Frame-IsValid, queued-delete}
use gaio.Watcher.Deliver.{deliver-Delivered, set_err-Frame}
use gaio.Watcher.Keeps.{Keeps, Keeps-refl, Keeps-trans, Frame-Keeps}

-- `w'` is `w` with the requests `ps` taken out of the heap and put at the end of chResults.
pub record Failed (w : Watcher) (ps : List ℕ) (w' : Watcher) : Type 0 where
  pub heap : IsValid w'.timed
  pub members : (q : ℕ) → holds w'.timed q ≡ (if count q ps == 0 then holds w.timed q else false)
  pub tags : (q : ℕ) → tag (cb_of w' q) ≡ tag (cb_of w q)
  pub descs : w'.descs ≡ w.descs
  pub conn_idents : w'.conn_idents ≡ w.conn_idents
  pub die : w'.die ≡ w.die
  pub closed_fds : w'.closed_fds ≡ w.closed_fds
  pub errs : (q : ℕ) → 0 < count q ps → (cb_of w' q).err ≡ some closed_pipe
  pub kept : (q : ℕ) → count q ps ≡ 0 → body (cb_of w' q) ≡ body (cb_of w q)
  pub sent : w.die ≡ false → w'.results ≡ w.results ++ ps
  pub dropped : (q : ℕ) → count q w'.results ≤ count q ps + count q w.results

Failed-append :
    {w w' w'' : Watcher} {ps qs : List ℕ}
    → Failed w ps w'
    → Failed w' qs w''
    → Failed w (ps ++ qs) w''
Failed-append {w} {ps} {qs} a b = record {
  heap = b.heap;
  members = λ q. ground (arith, a.members q, b.members q, count-append q ps qs);
  tags = λ q. b.tags q ∙ a.tags q;
  descs = b.descs ∙ a.descs;
  conn_idents = b.conn_idents ∙ a.conn_idents;
  die = b.die ∙ a.die;
  closed_fds = b.closed_fds ∙ a.closed_fds;
  errs = λ q h. elim (Bool-cases (count q qs == 0)) [
    | inl e ↦ ground (arith, a.errs q, b.kept q, count-append q ps qs)
    | inr e ↦ b.errs q (ground arith)
  ];
  kept = λ q h.
      b.kept q (omega (arith, count-append q ps qs))
      ∙ a.kept q (omega (arith, count-append q ps qs));
  sent = λ on. b.sent (a.die ∙ on) ∙ ap (λ r. r ++ qs) (a.sent on) ∙ append_assoc w.results ps qs;
  dropped = λ q. omega (arith, a.dropped q, b.dropped q, count-append q ps qs);
}

module _ (k : Kernel) where
  fail_one-Failed :
      (w : Watcher) (p : ℕ)
      → IsValid w.timed
      → Failed w (p ∷ []) (deliver k (set_err w p closed_pipe) p)
  fail_one-Failed w p v =
      let f = set_err-Frame w p closed_pipe in
      let r = deliver-Delivered k (set_err w p closed_pipe) p (Frame-IsValid f v) in
      record {
        heap = r.heap;
        members = λ q. ground (arith, r.members q);
        tags = λ q. ground (arith, r.bodies q);
        descs = r.descs;
        conn_idents = r.conn_idents;
        die = r.die;
        closed_fds = r.closed_fds;
        errs = λ q h. ground (arith, r.bodies q);
        kept = λ q h. ground (arith, r.bodies q);
        sent = r.sent;
        dropped = λ q. ground (arith, r.dropped q);
      }

  pub fail_all-Failed :
      (w : Watcher) (ps : List ℕ) → IsValid w.timed → Failed w ps (fail_all k w ps)
  unfolding fail_all
  fail_all-Failed w [] v = record {
    heap = v;
    members = λ q. refl;
    tags = λ q. refl;
    descs = refl;
    conn_idents = refl;
    die = refl;
    closed_fds = refl;
    errs = λ q h. absurd (omega arith);
    kept = λ q h. refl;
    sent = λ on. sym (append-nil w.results);
    dropped = λ q. omega arith;
  }
  fail_all-Failed w (p ∷ ps) v =
      let first = fail_one-Failed w p v in
      let next = deliver k (set_err w p closed_pipe) p in
      Failed-append first (fail_all-Failed next ps first.heap)

  pub fail_queues-Failed :
      (w : Watcher) (d : FdDesc)
      → IsValid w.timed
      → Failed w (d.reads ++ d.writes) (fail_all k (fail_all k w d.reads) d.writes)
  fail_queues-Failed w d v =
      let a = fail_all-Failed w d.reads v in
      Failed-append a (fail_all-Failed (fail_all k w d.reads) d.writes a.heap)

  release_desc-Keeps :
      (w : Watcher) (ident : ℕ) (d : FdDesc)
      → Inv w
      → lookup ident w.descs ≡ some d
      → Keeps w (release_desc k (some d) w ident)
  unfolding release_desc
  release_desc-Keeps w ident d v found = record {
    inv = record {
      heap = a.heap;
      once = λ q. omega (arith, gone q, split q, a.dropped q, v.once q);
      placed = λ q j t h. ground (arith, look j, a.tags q, v.placed q j t);
      waiting = λ q h. ground (arith, gone q, split q, a.members q, v.waiting q);
      armed = λ q h. ground (arith, gone q, split q, a.members q, a.tags q, v.armed q, v.once q);
      idents = λ ptr fd e.
          let (x, b, c) = v.idents ptr fd (ground (arith, forgot ptr)) in
          (x, ground (arith, look fd, forgot ptr), c);
      owners = λ fd x e. ground (
        arith,
        look fd,
        forgot x.ptr,
        v.owners fd x,
        v.owners ident d found,
        ap (λ (t : Option ℕ). t) (forgot x.ptr),
      );
      single = λ j. rw a.descs (omega (arith, count-keys-delete ident j w.descs, v.single j));
    };
    no_more = λ q. omega (arith, gone q, split q, a.dropped q);
    none_lost = λ on q. omega (
      arith,
      gone q,
      split q,
      ap (count q) (a.sent on),
      count-append q w.results (d.reads ++ d.writes),
    );
    tags = a.tags;
    die = a.die;
  }
    where
      w1 : Watcher
      w1 = fail_all k (fail_all k w d.reads) d.writes

      a : Failed w (d.reads ++ d.writes) w1
      a = fail_queues-Failed w d v.heap

      split : (q : ℕ) → count q (d.reads ++ d.writes) ≡ load q d
      split q = count-append q d.reads d.writes

      look :
          (j : ℕ)
          → lookup j (delete ident w1.descs) ≡ (if ident == j then none else lookup j w.descs)
      look j = rw a.descs (lookup-delete ident j w.descs)

      gone :
          (q : ℕ) → count q (queued (delete ident w1.descs)) + load q d ≡ count q (queued w.descs)
      gone q = rw a.descs (ground (arith, queued-delete ident q w.descs v.single))

      forgot :
          (ptr : ℕ)
          → lookup ptr (delete d.ptr w1.conn_idents)
            ≡ (if d.ptr == ptr then none else lookup ptr w.conn_idents)
      forgot ptr = rw a.conn_idents (lookup-delete d.ptr ptr w.conn_idents)

  -- On a watcher whose invariant holds, releaseConn keeps the invariant, for a descriptor that is
  -- registered or not; no request gains a place among the queues and chResults, and while the
  -- watcher is open none loses one.
  pub release_conn-Keeps : (w : Watcher) (ident : ℕ) → Inv w → Keeps w (release_conn k w ident)
  unfolding release_conn
  release_conn-Keeps w ident v = elim (Option-cases (lookup ident w.descs)) [
    | inl e ↦ rw (e, release_desc) (Keeps-refl v)
    | inr (d, e) ↦ rw e (release_desc-Keeps w ident d v e)
  ]

  release_all-Keeps : (w : Watcher) (cs : List ℕ) → Inv w → Keeps w (release_all k w cs)
  unfolding release_all release_found
  release_all-Keeps w [] v = Keeps-refl v
  release_all-Keeps w (c ∷ cs) v = elim (Option-cases (lookup c w.conn_idents)) [
    | inl e ↦ rw e (release_all-Keeps w cs v)
    | inr (ident, e) ↦
        let first = release_conn-Keeps w ident v in
        rw e (Keeps-trans first (release_all-Keeps (release_conn k w ident) cs first.inv))
  ]

  -- On a watcher whose invariant holds, handleGC keeps the invariant, whatever connections the
  -- finalizers have queued; no request gains a place among the queues and chResults, and while the
  -- watcher is open none loses one.
  pub handle_gc-Keeps : (w : Watcher) → Inv w → Keeps w (handle_gc k w)
  unfolding handle_gc
  handle_gc-Keeps w v =
      let first = release_all-Keeps w w.gc v in
      Keeps-trans first (Frame-Keeps first.inv (Frame-aside refl refl refl refl refl))
