-- ===== src/System/Life.antt =====
-- The watcher with the end of its loop (watcher.go): the steps while the loop runs, the cases that
-- end it (`die`, and an error from the poller), and what the callers do afterwards.
use gaio.Common.{
  ℕ, ◌≤◌, ◌≡◌, refl, subst, sym, ◌∙◌, ◌⊎◌, inl, inr, Bool, true, false, [], Option, none, some,
  arith, count-append, if_both, Bool-cases, lookup, ◌==◌,
}
use gaio.Types.{Error, Signal}
use gaio.Kernel.{Kernel}
use gaio.System.{System, Request, stop, aio_create, create_at, submit, get_cb}
use gaio.System.Collect.{Waited, recycle, take_results, wait_io}
use gaio.System.Loop.{shut_down, on_die, on_pending, on_signal, on_timer, on_gc, finalize}
use gaio.System.Step.{Step, request, wait, pending, events, timer, gc, final, close}
use gaio.System.Places.{IsSafe, places, Got, get_cb-Got}
use gaio.System.Safety.{Step-IsSafe, stop-IsSafe}
use gaio.System.Close.{stop_again}
use gaio.System.Shutdown.{shut_down-Ended}

-- The steps that need no loop.
abbrev pub IsCall : {k : Kernel} {s t : System} → Step k s t → Type 0
IsCall (request pick r conn h) = Unit {0}
IsCall (wait prefer e) = Unit {0}
IsCall (pending h) = ⊥
IsCall (events sig h) = ⊥
IsCall (timer now) = ⊥
IsCall (gc h) = ⊥
IsCall (final c u) = Unit {0}
IsCall close = Unit {0}

-- A step of the watcher, or an end of its loop.
pub data Life (k : Kernel) : System → System → Type 0 where
  goes : {s t : System} (st : Step k s t) → s.loop_done ≡ false → Life k s t
  calls : {s t : System} (st : Step k s t) → IsCall st → s.loop_done ≡ true → Life k s t
  dies : {s : System} → s.loop_done ≡ false → s.watcher.die ≡ true → Life k s (on_die k s)
  fails :
      {s : System} (sig : Signal) (e : Error)
      → s.loop_done ≡ false
      → sig.err ≡ some e
      → Life k s (on_signal k s sig)

pub data Lives (k : Kernel) (s : System) : System → Type 0 where
  born : Lives k s s
  on_to : {t u : System} → Lives k s t → Life k t u → Lives k s u

-- What holds after the end of the loop.
pub record IsOver (s : System) : Type 0 where
  pub done : s.loop_done ≡ true
  pub die : s.watcher.die ≡ true
  pub descs : s.watcher.descs ≡ []
  pub conn_idents : (ptr : ℕ) → lookup ptr s.watcher.conn_idents ≡ none
  pub heap : s.watcher.timed.arr ≡ []
  pub results : s.watcher.results ≡ []
  pub pending : s.pending_create ≡ []
  pub unique : (p : ℕ) → places s p ≤ 1
  pub unused : (p : ℕ) → s.next ≤ p → places s p ≡ 0

-- The loop runs and the state is safe, or the loop has ended.
abbrev pub IsWell : System → Type 0
IsWell s = ((s.loop_done ≡ false) × IsSafe s) ⊎ IsOver s

aio_create-done :
    (pick : ℕ) (s : System) (r : Request) (conn : Option ℕ)
    → (aio_create pick s r conn).0.loop_done ≡ s.loop_done
unfolding aio_create create_at submit get_cb
aio_create-done pick s r none = refl
aio_create-done pick s r (some ptr) = ground arith

wait_io-done :
    (prefer : Bool) (s t : System) (x : Waited)
    → wait_io prefer s ≡ some (t, x)
    → t.loop_done ≡ s.loop_done
unfolding wait_io recycle take_results
wait_io-done prefer s t x e = ground arith

-- No step ends the loop.
pub Step-done : {k : Kernel} {s t : System} → Step k s t → t.loop_done ≡ s.loop_done
unfolding on_signal on_timer on_gc finalize stop on_pending
Step-done (request {s} pick r conn proper) = aio_create-done pick s r conn
Step-done (wait {s} {t} {x} prefer e) = wait_io-done prefer s t x e
Step-done (pending {s} e) = refl
Step-done (events {s} sig e) = rw e refl
Step-done (timer {s} now) = refl
Step-done (gc {s} e) = refl
Step-done (final {s} c u) = refl
Step-done (close {s}) =
    if_both (λ (t : System). t.loop_done ≡ s.loop_done) s.watcher.die _ _ refl refl

shut_down-IsOver :
    (k : Kernel) (s : System) → IsSafe s → s.watcher.die ≡ true → IsOver (shut_down k s)
unfolding shut_down
shut_down-IsOver k s v off =
    let e = shut_down-Ended k s v.inv in
    record {
      done = refl;
      die = e.die ∙ off;
      descs = e.descs;
      conn_idents = e.conn_idents;
      heap = e.heap;
      results = refl;
      pending = refl;
      unique = λ p. rw e.descs (omega (arith, v.unique p));
      unused = λ p h. rw e.descs (omega (arith, v.unused p h));
    }

pub stop-die : (s : System) → (stop s).watcher.die ≡ true
unfolding stop
stop-die s = elim (Bool-cases s.watcher.die) [ inl off ↦ rw off refl | inr on ↦ rw on refl ]

-- aioCreate where it is refused: the record goes back to the pool.
submit-IsOver :
    (s s1 : System) (p : ℕ) (r : Request) (ptr : ℕ)
    → IsOver s
    → s1.loop_done ≡ true
    → Got s (p, s1)
    → IsOver (submit p s1 r ptr).0
unfolding submit
submit-IsOver s s1 p r ptr v going g =
    let off : s1.watcher.die ≡ true = rw g.watcher v.die in
    rw off (record {
      done = going;
      die = refl;
      descs = rw g.watcher v.descs;
      conn_idents = λ c. rw g.watcher (v.conn_idents c);
      heap = rw g.watcher v.heap;
      results = rw g.watcher v.results;
      pending = g.create ∙ v.pending;
      unique = λ q. ground (arith, g.free, g.others q, v.unique q);
      unused = λ q h. ground (arith, (g.unused q h).0, (g.unused q h).1);
    })

get_cb-done : (pick : ℕ) (s : System) → (get_cb pick s).1.loop_done ≡ s.loop_done
unfolding get_cb
get_cb-done pick s = ground arith

aio_create-IsOver :
    (pick : ℕ) (s : System) (r : Request) (conn : Option ℕ)
    → IsOver s
    → IsOver (aio_create pick s r conn).0
unfolding aio_create create_at
aio_create-IsOver pick s r none v = v
aio_create-IsOver pick s r (some ptr) v = elim (Bool-cases (ptr == 0)) [
  | inl null ↦ rw null v
  | inr real ↦
      let g = get_cb-Got pick s v.unique v.unused in
      rw real (submit-IsOver s _ _ r ptr v (get_cb-done pick s ∙ v.done) g)
]

recycle-IsOver : (s : System) → IsOver s → IsOver (recycle s)
unfolding recycle
recycle-IsOver s v = record {
  done = v.done;
  die = v.die;
  descs = v.descs;
  conn_idents = v.conn_idents;
  heap = v.heap;
  results = v.results;
  pending = v.pending;
  unique = λ p. omega (arith, v.unique p, count-append p s.recycles s.pool);
  unused = λ p h. omega (arith, v.unused p h, count-append p s.recycles s.pool);
}

wait_io-recycle :
    (prefer : Bool) (s t : System) (x : Waited)
    → IsOver s
    → wait_io prefer s ≡ some (t, x)
    → t ≡ recycle s
unfolding wait_io
wait_io-recycle prefer s t x v e = let a = v.results in let b = v.done in ground arith

-- The calls after the end leave it so.
Step-IsOver : {k : Kernel} {s t : System} (st : Step k s t) → IsCall st → IsOver s → IsOver t
unfolding finalize
Step-IsOver (request {s} pick r conn proper) c v = aio_create-IsOver pick s r conn v
Step-IsOver (wait {s} {t} {x} prefer e) c v =
    rw (wait_io-recycle prefer s t x v e) (recycle-IsOver s v)
Step-IsOver (pending {s} e) c v = absurd c
Step-IsOver (events {s} sig e) c v = absurd c
Step-IsOver (timer {s} now) c v = absurd c
Step-IsOver (gc {s} e) c v = absurd c
Step-IsOver (final {s} q u) c v = record {
  done = v.done;
  die = v.die;
  descs = v.descs;
  conn_idents = v.conn_idents;
  heap = v.heap;
  results = v.results;
  pending = v.pending;
  unique = v.unique;
  unused = v.unused;
}
Step-IsOver (close {s}) c v = subst IsOver (sym (stop_again s v.die)) v

module _ (k : Kernel) where
  fails-IsOver :
      (s : System) (sig : Signal) (e : Error)
      → sig.err ≡ some e
      → IsSafe s
      → IsOver (on_signal k s sig)
  unfolding on_signal
  fails-IsOver s sig e err v =
      let s1 : System = record s { poller_err = some e } in
      let v1 : IsSafe s1 = record {
        inv = v.inv;
        unique = v.unique;
        unused = v.unused;
        frees = v.frees;
      } in
      rw err (shut_down-IsOver k (stop s1) (stop-IsSafe s1 v1) (stop-die s1))

  Life-IsWell : {s t : System} → Life k s t → IsWell s → IsWell t
  unfolding on_die
  Life-IsWell (goes {s} st on) (inl (going, v)) = inl (Step-done st ∙ going, Step-IsSafe k st v)
  Life-IsWell (goes {s} st on) (inr v) = let off = v.done in cc
  Life-IsWell (calls {s} st c off) (inl (going, v)) = cc
  Life-IsWell (calls {s} st c off) (inr v) = inr (Step-IsOver st c v)
  Life-IsWell (dies {s} on off) (inl (going, v)) = inr (shut_down-IsOver k s v off)
  Life-IsWell (dies {s} on off) (inr v) = let ended = v.done in cc
  Life-IsWell (fails {s} sig e on err) (inl (going, v)) = inr (fails-IsOver s sig e err v)
  Life-IsWell (fails {s} sig e on err) (inr v) = let ended = v.done in cc

  -- For any kernel, from a safe state in which the loop runs, after any steps in any order: calls of
  -- aioCreate (of Free without a deadline), WaitIOs that return, finalizers of connections that no
  -- request holds, stop, the cases of the loop while it runs, among them the one for `die` and an
  -- error of the poller, which end it. As long as the loop runs, the state is safe: the watcher's
  -- invariant holds, each request is in one place at most among pendingCreate, the queues,
  -- chResults, the recycles and the pool, no address that was never given out is in any, and a
  -- submitted Free has no deadline. When the loop has ended, the watcher is closed, both maps, the
  -- heap, chResults and pendingCreate are empty and stay so, and the same holds of the places and
  -- the addresses.
  pub Lives-IsWell : {s t : System} → s.loop_done ≡ false → IsSafe s → Lives k s t → IsWell t
  Lives-IsWell on v born = inl (on, v)
  Lives-IsWell on v (on_to r st) = Life-IsWell st (Lives-IsWell on v r)
