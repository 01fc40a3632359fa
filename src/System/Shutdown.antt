-- ===== src/System/Shutdown.antt =====
-- The deferred function of the loop (watcher.go): what it leaves of the state.
use mathlib.Core.List.{append_assoc, append-nil}
use gaio.Common.{
  ℕ, ◌≡◌, refl, sym, ap, ◌∙◌, true, List, [], ◌∷◌, ◌++◌, Option, none, some, arith, count, lookup,
  delete, keys, Option-cases, inl, inr, ==_refl, count-append, count-keys-none, if◌then◌else◌, ◌==◌,
  ◌+◌, ◌<◌, ◌≤◌, is_some,
}
use gaio.Kernel.{Kernel}
use gaio.Timed.{at}
use gaio.Watcher.{Watcher, FdDesc, set_cb, release_conn, release_desc}
use gaio.Watcher.Invariant.{Inv}
use gaio.Watcher.Keeps.Release.{fail_queues-Failed, release_conn-Keeps}
use gaio.System.{System}
use gaio.System.Loop.{drain, zero_cb, release_idents, shut_down}

-- Deleting a key of a map takes out its entries, and no others.
count-keys-delete_eq :
    (i q : ℕ) (m : List (ℕ × FdDesc))
    → count q (keys (delete i m)) ≡ (if i == q then 0 else count q (keys m))
unfolding delete
count-keys-delete_eq i q [] = ground arith
count-keys-delete_eq i q ((j, d) ∷ m) = ground (arith, count-keys-delete_eq i q m)

no_keys : (m : List (ℕ × FdDesc)) → ((q : ℕ) → count q (keys m) ≡ 0) → m ≡ []
no_keys [] h = refl
no_keys ((i, d) ∷ m) h = absurd (ground (arith, h i, ==_refl i))

known-keys :
    (fd : ℕ) (m : List (ℕ × FdDesc)) (d : FdDesc) → lookup fd m ≡ some d → 0 < count fd (keys m)
unfolding lookup
known-keys fd [] d e = cc
known-keys fd ((j, x) ∷ m) d e = ground (arith, known-keys fd m d)

registered :
    (fd : ℕ) (m : List (ℕ × FdDesc))
    → count fd (keys m) ≤ 1
    → count fd (keys m) ≡ (if is_some (lookup fd m) then 1 else 0)
registered fd m h = elim (Option-cases (lookup fd m)) [
  | inl missing ↦ rw missing (count-keys-none fd m missing)
  | inr (d, found) ↦ rw found (omega (arith, h, known-keys fd m d found))
]

-- What releasing a registered descriptor leaves.
record Closed (w : Watcher) (i : ℕ) (w' : Watcher) : Type 0 where
  inv : Inv w'
  descs : w'.descs ≡ delete i w.descs
  closed_fds : w'.closed_fds ≡ w.closed_fds ++ i ∷ []
  die : w'.die ≡ w.die

-- What releasing all of them leaves.
record Released (w : Watcher) (is : List ℕ) (w' : Watcher) : Type 0 where
  inv : Inv w'
  descs : w'.descs ≡ []
  closed_fds : w'.closed_fds ≡ w.closed_fds ++ is
  die : w'.die ≡ w.die

module _ (k : Kernel) where
  release_known-Closed :
      (w : Watcher) (i : ℕ) (d : FdDesc)
      → Inv w
      → lookup i w.descs ≡ some d
      → Closed w i (release_conn k w i)
  unfolding release_conn release_desc
  release_known-Closed w i d v found =
      let r = fail_queues-Failed k w d v.heap in
      record {
        inv = (release_conn-Keeps k w i v).inv;
        descs = rw (found, r.descs) refl;
        closed_fds = rw (found, r.closed_fds) refl;
        die = (release_conn-Keeps k w i v).die;
      }

  release_one-Closed :
      (w : Watcher) (i : ℕ) → Inv w → 0 < count i (keys w.descs) → Closed w i (release_conn k w i)
  release_one-Closed w i v there = elim (Option-cases (lookup i w.descs)) [
    | inl missing ↦ absurd (omega (arith, count-keys-none i w.descs missing))
    | inr (d, found) ↦ release_known-Closed w i d v found
  ]

  -- The loop over the descriptors in any order that comes to each once.
  release_idents-Released :
      (w : Watcher) (is : List ℕ)
      → Inv w
      → ((q : ℕ) → count q is ≡ count q (keys w.descs))
      → Released w is (release_idents k w is)
  unfolding release_idents
  release_idents-Released w [] v h = record {
    inv = v;
    descs = no_keys w.descs (λ q. sym (h q));
    closed_fds = sym (append-nil w.closed_fds);
    die = refl;
  }
  release_idents-Released w (i ∷ is) v h =
      let c = release_one-Closed w i v (ground (arith, h i, ==_refl i)) in
      let rest : (q : ℕ) → count q is ≡ count q (keys (release_conn k w i).descs) =
        λ q. rw c.descs (ground (arith, h q, count-keys-delete_eq i q w.descs, v.single i)) in
      let r = release_idents-Released (release_conn k w i) is c.inv rest in
      record {
        inv = r.inv;
        descs = r.descs;
        closed_fds =
            r.closed_fds
            ∙ ap (λ (x : List ℕ). x ++ is) c.closed_fds
            ∙ append_assoc w.closed_fds (i ∷ []) is;
        die = r.die ∙ c.die;
      }

-- What is left when the loop has ended: each duplicate that was registered is closed, once.
pub record Ended (s t : System) : Type 0 where
  pub closed_fds :
      (fd : ℕ)
      → count fd t.watcher.closed_fds
        ≡ count fd s.watcher.closed_fds + (if is_some (lookup fd s.watcher.descs) then 1 else 0)
  pub descs : t.watcher.descs ≡ []
  pub conn_idents : (ptr : ℕ) → lookup ptr t.watcher.conn_idents ≡ none
  pub heap : t.watcher.timed.arr ≡ []
  pub results : t.watcher.results ≡ []
  pub pending : t.pending_create ≡ []
  pub done : t.loop_done ≡ true
  pub die : t.watcher.die ≡ s.watcher.die

no_descs-conn_idents :
    (w : Watcher) (ptr : ℕ) → Inv w → w.descs ≡ [] → lookup ptr w.conn_idents ≡ none
unfolding lookup
no_descs-conn_idents w ptr v e = elim (Option-cases (lookup ptr w.conn_idents)) [
  | inl none_there ↦ none_there
  | inr (fd, there) ↦
      let (d, found, _) = v.idents ptr fd there in
      let missing : ◌≡◌ {A = Option FdDesc} none (some d) = rw e at found in cc
]

no_descs-heap : (w : Watcher) → Inv w → w.descs ≡ [] → w.timed.arr ≡ []
no_descs-heap w v e = empty-heap w.timed.arr refl
  where
    empty-heap : (a : List ℕ) → w.timed.arr ≡ a → a ≡ []
    empty-heap [] same = refl
    empty-heap (p ∷ ps) same =
        let here = v.heap.tracks.fwd 0 (rw same (omega arith)) in
        let waits = v.waiting (at w.timed 0) (rw here) in
        let none_waits = rw e at waits in absurd (omega arith)

drain-keeps :
    (w : Watcher) (ps : List ℕ)
    → let w' = drain w ps in
      (w'.closed_fds ≡ w.closed_fds)
      × (w'.descs ≡ w.descs)
      × (w'.conn_idents ≡ w.conn_idents)
      × (w'.timed.arr ≡ w.timed.arr)
      × (w'.die ≡ w.die)
unfolding drain
drain-keeps w [] = (refl, refl, refl, refl, refl)
drain-keeps w (p ∷ ps) = drain-keeps (set_cb w p zero_cb) ps

module _ (k : Kernel) where
  -- If the watcher's invariant holds when the loop ends, its deferred function closes each
  -- registered duplicate descriptor once, in whatever order the range takes; both maps, the heap,
  -- chResults and pendingCreate are empty afterwards, and loopDone is closed.
  pub shut_down-Ended : (s : System) → Inv s.watcher → Ended s (shut_down k s)
  unfolding shut_down
  shut_down-Ended s v =
      let is = k.range s.watcher.calls (keys s.watcher.descs) in
      let w = release_idents k s.watcher is in
      let once = k.range_once s.watcher.calls (keys s.watcher.descs) in
      let r = release_idents-Released k s.watcher is v once in
      let (a, b, c, d, die') = drain-keeps w w.results in
      record {
        closed_fds = λ fd.
            ap (count fd) (a ∙ r.closed_fds)
            ∙ omega (
              arith,
              count-append fd s.watcher.closed_fds is,
              once fd,
              registered fd s.watcher.descs (v.single fd),
            );
        descs = b ∙ r.descs;
        conn_idents = λ ptr. rw c (no_descs-conn_idents w ptr r.inv r.descs);
        heap = d ∙ no_descs-heap w r.inv r.descs;
        results = refl;
        pending = refl;
        done = refl;
        die = die' ∙ r.die;
      }
