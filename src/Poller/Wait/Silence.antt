-- ===== src/Poller/Wait/Silence.antt =====
-- What an error of epoll_wait or kevent (aio_linux.go, aio_bsd.go) leads to, beside the watcher's
-- loop (watcher.go).
use gaio.Common.{
  ℕ, arith, ◌≡◌, Bool, true, false, List, Option, none, some, refl, ap, subst, sym, ◌∙◌, ◌≢◌,
  if_both,
}
use gaio.Types.{Errno, Event}
use gaio.Kernel.{Kernel}
use gaio.System.{System}
use gaio.Poller.Rounds.{Next, again, over, sends, sends_last}
use gaio.Poller.Wait.{
  Poller, Machine, Message, top, finished, holding, proceed, poll, begin, Move, polls, puts,
  resumes, leaves, receives, handles, acks, quits, others, adjusts, Moves, start, later,
}
use gaio.Poller.Wait.Sync.{at_top, at_top_channel, at_top_worker}
use gaio.Poller.Wait.Delivery.{Log-none, Sync, Moves-Sync, begin-Sync}
use gaio.Poller.Wait.{linux, bsd}
use gaio.Poller.Rounds.{epoll_round, kqueue_round, kqueue_finish, failed_call}
use gaio.System.{aio_create, create_at, submit, get_cb, stop, Request}
use gaio.System.Collect.{wait_io, recycle, take_results, Waited}
use gaio.System.Loop.{on_signal, shut_down, on_pending, on_timer, on_gc, finalize}
use gaio.System.Step.{Step, request, wait, pending, events, timer, gc, final, close}

aio_create-poller_err :
    (pick : ℕ) (s : System) (r : Request) (conn : Option ℕ)
    → (aio_create pick s r conn).0.poller_err ≡ s.poller_err
unfolding aio_create create_at submit get_cb
aio_create-poller_err pick s r none = refl
aio_create-poller_err pick s r (some c) = ground arith

wait_io-poller_err :
    (prefer : Bool) (s t : System) (x : Waited)
    → wait_io prefer s ≡ some (t, x)
    → t.poller_err ≡ s.poller_err
unfolding wait_io take_results recycle
wait_io-poller_err prefer s t x e = ground arith

-- A step of the watcher with no error from the poller keeps pollerErr.
Step-poller_err : {k : Kernel} {s t : System} → Step k s t → t.poller_err ≡ s.poller_err
unfolding on_signal on_pending on_timer on_gc finalize stop
Step-poller_err {s = s} (request pick r conn h) = aio_create-poller_err pick s r conn
Step-poller_err {s = s} {t = t} (wait prefer e) = wait_io-poller_err prefer s t _ e
Step-poller_err (pending h) = refl
Step-poller_err (events sig h) = rw h refl
Step-poller_err (timer now) = refl
Step-poller_err (gc h) = refl
Step-poller_err (final c u) = refl
Step-poller_err {s = s} close =
    if_both (λ t. t.poller_err ≡ s.poller_err) s.watcher.die s _ refl refl

-- The poller has ended with no signal on its way.
record Quiet {p : Poller} (m : Machine p) : Type 0 where
  ended : m.stage ≡ finished
  empty : m.channel ≡ none
  free : (msg : Message) → m.worker ≢ holding msg

module _ {p : Poller} {k : Kernel} where
  Move-Quiet :
      {m n : Machine p}
      → Move p k m n
      → Quiet m
      → Quiet n × (n.handled ≡ m.handled) × (n.system.poller_err ≡ m.system.poller_err)
  unfolding shut_down
  Move-Quiet (polls r e h) q = let x = q.ended in cc
  Move-Quiet (puts e c) q = let x = q.ended in cc
  Move-Quiet (resumes e d) q = let x = q.ended in cc
  Move-Quiet (leaves h) q = (record { ended = refl; empty = q.empty; free = q.free }, refl, refl)
  Move-Quiet (receives i c) q = let x = q.empty in cc
  Move-Quiet (handles e) q = absurd (q.free _ e)
  Move-Quiet (acks e d) q =
      (record { ended = q.ended; empty = q.empty; free = λ msg x. cc }, refl, refl)
  Move-Quiet (quits e h) q =
      (record { ended = q.ended; empty = q.empty; free = λ msg x. cc }, refl, refl)
  Move-Quiet (others st h) q =
      (record { ended = q.ended; empty = q.empty; free = q.free }, refl, Step-poller_err st)
  Move-Quiet (adjusts x) q =
      (record { ended = q.ended; empty = q.empty; free = q.free }, refl, refl)

  Moves-Quiet :
      {m n : Machine p}
      → Moves p k m n
      → Quiet m
      → Quiet n × (n.handled ≡ m.handled) × (n.system.poller_err ≡ m.system.poller_err)
  Moves-Quiet start q = (q, refl, refl)
  Moves-Quiet (later r st) q =
      let (a, b, c) = Moves-Quiet r q in let (x, y, z) = Move-Quiet st a in (x, y ∙ b, z ∙ c)

module _ (p : Poller) where
  proceed-over :
      (m : Machine p) (n : Next) → n ≡ over → proceed p m n ≡ record m { stage = finished }
  unfolding proceed
  proceed-over m again e = cc
  proceed-over m over e = refl
  proceed-over m (sends x) e = cc
  proceed-over m (sends_last x) e = cc

  over-Quiet :
      (m : Machine p) (r : p.Report)
      → Sync m
      → m.stage ≡ top
      → (p.round m.state r).1 ≡ over
      → Quiet (poll p m r)
  unfolding poll
  over-Quiet m r v t e =
      let m1 : Machine p = record m { state = (p.round m.state r).0 } in
      subst (λ n. Quiet n) (sym (proceed-over m1 (p.round m.state r).1 e))
        (record {
          ended = refl;
          empty = at_top_channel v.flight t;
          free = at_top_worker v.flight t;
        })

-- The pollers that end without a signal, and an error of their system call.
abbrev pub unix : Bool → Poller
unix true = linux
unix false = bsd

abbrev pub failing : (b : Bool) → Errno → (unix b).Report
failing true e = failed_call e
failing false e = failed_call e

failing-over :
    (b : Bool) (x : (unix b).State) (e : Errno) → ((unix b).round x (failing b e)).1 ≡ over
unfolding epoll_round kqueue_round kqueue_finish
failing-over true x e = refl
failing-over false x e = refl

-- On Linux and BSD, after an error of epoll_wait or kevent that is not EINTR, the poller has ended,
-- and no step that follows hands a signal to the watcher's loop or sets pollerErr: what is handled
-- stays all that the poller had sent before.
pub failing-silent :
    {k : Kernel} (b : Bool) (s : System) (x : (unix b).State) (a : List Event) (e : Errno)
    (m n : Machine (unix b))
    → Moves (unix b) k (begin s x a) m
    → m.stage ≡ top
    → Moves (unix b) k (poll (unix b) m (failing b e)) n
    → (n.stage ≡ finished) × (n.handled ≡ m.polled) × (n.system.poller_err ≡ m.system.poller_err)
unfolding poll proceed
failing-silent {k} b s x a e m n r t z =
    let v = Moves-Sync r (begin-Sync s x a) in
    let q = over-Quiet (unix b) m (failing b e) v t (failing-over b m.state e) in
    let (quiet, same, err) = Moves-Quiet z q in
    let m1 : Machine (unix b) = record m { state = ((unix b).round m.state (failing b e)).0 } in
    let here = proceed-over (unix b) m1 _ (failing-over b m.state e) in
    (
      quiet.ended,
      same
          ∙ ap (λ (y : Machine (unix b)). y.handled) here
          ∙ sym (Log-none v.log (at_top v.flight t).0 (λ f. cc)),
      err ∙ ap (λ (y : Machine (unix b)). y.system.poller_err) here,
    )
