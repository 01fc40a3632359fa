-- ===== src/Flow/Pieces.antt =====
-- One piece of a handler of the loop (watcher.go): what it changes of the requests.
use gaio.Common.{
  ℕ, ◌+◌, ◌≤◌, ◌<◌, ◌≡◌, ◌≢◌, refl, subst, true, false, List, [], ◌∷◌, Option, none, some, arith,
  ltb, ◌==◌, lookup, is_some, length, count, Bool-cases, inl, inr, if_both, ==_refl,
}
use gaio.Types.{op_delete, Side, readers, writers, Event, ev_read, ev_write}
use gaio.Timed.{at}
use gaio.Timed.Push.{holds}
use gaio.Kernel.{Kernel}
use gaio.Watcher.{Watcher, cb_of, queue_of, desc_of, try_side}
use gaio.Watcher.Handlers.{is_empty, ready, handle_request, release_found, time_out}
use gaio.Watcher.Invariant.{tally, Inv, Frame-aside}
use gaio.Watcher.Deliver.{try_side-Frame}
use gaio.Watcher.Keeps.{Keeps, Keeps-refl, Frame-Keeps, Settled-Keeps, pass-Passed}
use gaio.Watcher.Keeps.Expiry.{root-Rooted, time_out-TimedOut}
use gaio.Watcher.Keeps.Release.{release_conn-Keeps}
use gaio.Watcher.Keeps.Requests.{asked}
use gaio.Watcher.Keeps.Register.{handle_request-Handled}
use gaio.Watcher.Keeps.Batch.{IsBatch}
use gaio.Flow.Jobs.{
  Job, idle, pendings, eventing, retrying, expiring, releasing, begin_writers, begin_readers,
  after_side, expire_one, retry_one, work,
}

-- The requests that the handler has not come to yet.
abbrev pub in_job : Job → List ℕ
in_job idle = []
in_job (pendings ps) = ps
in_job (eventing es) = []
in_job (retrying side e ps es) = []
in_job (expiring now) = []
in_job (releasing cs) = []

-- A loop over a queue has the queue before it.
abbrev pub Fits : Watcher → Job → Type 0
Fits w idle = Unit {0}
Fits w (pendings ps) = Unit {0}
Fits w (eventing es) = Unit {0}
Fits w (retrying side e ps es) = queue_of side (desc_of w e.ident) ≡ ps
Fits w (expiring now) = Unit {0}
Fits w (releasing cs) = Unit {0}

pub record Worked (w : Watcher) (j : Job) (r : Watcher × Job) : Type 0 where
  pub inv : Inv r.0
  pub no_more : (q : ℕ) → tally r.0 q + count q (in_job r.1) ≤ tally w q + count q (in_job j)
  pub none_lost :
      w.die ≡ false
      → (q : ℕ) → (cb_of w q).op ≢ op_delete
      → tally w q + count q (in_job j) ≤ tally r.0 q + count q (in_job r.1)
  pub shorter : (q : ℕ) → count q (in_job r.1) ≤ count q (in_job j)
  pub asks : (q : ℕ) → asked (cb_of r.0 q) ≡ asked (cb_of w q)
  pub die : r.0.die ≡ w.die
  pub fits : Fits r.0 r.1

-- A piece that leaves every request where it is or moves it from a queue to the results.
Keeps-Worked :
    {w w' : Watcher} (j j' : Job)
    → in_job j ≡ []
    → in_job j' ≡ []
    → Keeps w w'
    → Fits w' j'
    → Worked w j (w', j')
Keeps-Worked {w} j j' e e' k f = record {
  inv = k.inv;
  no_more = λ q. rw (e, e') (omega (arith, k.no_more q));
  none_lost = λ on q op. rw (e, e') (omega (arith, k.none_lost on q));
  shorter = λ q. rw (e, e') (omega arith);
  asks = λ q. ground (arith, k.tags q);
  die = k.die;
  fits = f;
}

begin_writers-job : (w : Watcher) (e : Event) (es : List Event) → in_job (begin_writers w e es) ≡ []
begin_writers-job w e es = ground arith

begin_writers-Fits : (w : Watcher) (e : Event) (es : List Event) → Fits w (begin_writers w e es)
begin_writers-Fits w e es = if_both (Fits w) (ready e.ev ev_write) _ _ refl tt

begin_readers-job : (w : Watcher) (e : Event) (es : List Event) → in_job (begin_readers w e es) ≡ []
begin_readers-job w e es = ground arith

begin_readers-Fits : (w : Watcher) (e : Event) (es : List Event) → Fits w (begin_readers w e es)
begin_readers-Fits w e es =
    if_both (Fits w) (ready e.ev ev_read) _ _ refl (begin_writers-Fits w e es)

after_side-job :
    (side : Side) (w : Watcher) (e : Event) (es : List Event) → in_job (after_side side w e es) ≡ []
after_side-job readers w e es = begin_writers-job w e es
after_side-job writers w e es = refl

after_side-Fits :
    (side : Side) (w : Watcher) (e : Event) (es : List Event) → Fits w (after_side side w e es)
after_side-Fits readers w e es = begin_writers-Fits w e es
after_side-Fits writers w e es = tt

module _ (k : Kernel) where
  retry_one-Worked :
      (w : Watcher) (side : Side) (e : Event) (p : ℕ) (ps : List ℕ) (es : List Event)
      → Inv w
      → queue_of side (desc_of w e.ident) ≡ p ∷ ps
      → Worked w (retrying side e (p ∷ ps) es) (retry_one k w side e p ps es)
  unfolding retry_one
  retry_one-Worked w side e p ps es v q = elim (Bool-cases (try_side k side w e.ident p).0) [
    | inr blocked ↦
        let w' = (try_side k side w e.ident p).1 in
        rw blocked (
          Keeps-Worked (retrying side e (p ∷ ps) es) (after_side side w' e es) refl
            (after_side-job side w' e es) (Frame-Keeps v (try_side-Frame k side w e.ident p))
            (after_side-Fits side w' e es))
    | inl done ↦
        let a = pass-Passed k side w e.ident p ps v q in
        rw done (
          Keeps-Worked (retrying side e (p ∷ ps) es) (retrying side e ps es) refl refl a.keeps
            a.rest)
  ]

  expire_one-Worked : (w : Watcher) (now : ℕ) → Inv w → Worked w (expiring now) (expire_one k w now)
  unfolding expire_one
  expire_one-Worked w now v = elim (Bool-cases (is_empty w.timed.arr)) [
    | inl e ↦ rw e (Keeps-Worked (expiring now) idle refl refl (Keeps-refl v) tt)
    | inr e ↦
        let p = at w.timed 0 in
        let pos : 0 < length w.timed.arr = ground arith in
        let held : holds w.timed p ≡ true = ground (arith, v.heap.tracks.fwd 0 pos) in
        rw (e, held)
          (elim (Bool-cases (ltb (cb_of w p).deadline now)) [
            | inr on_time ↦ rw on_time (
                Keeps-Worked (expiring now) idle refl refl
                  (Frame-Keeps v (Frame-aside refl refl refl refl refl)) tt)
            | inl late ↦
                let r = root-Rooted w v pos in
                let t = time_out-TimedOut k w r.fd r.side v pos r.placed in
                rw late (
                  Keeps-Worked (expiring now) (expiring now) refl refl
                    (Settled-Keeps w (time_out k w p) p r.fd r.side v r.waits t.settled) tt)
          ])
  ]

  release_found-Keeps : (o : Option ℕ) (w : Watcher) → Inv w → Keeps w (release_found k o w)
  unfolding release_found
  release_found-Keeps none w v = Keeps-refl v
  release_found-Keeps (some ident) w v = release_conn-Keeps k w ident v

  pub work-Worked :
      (w : Watcher) (j : Job) → Inv w → IsBatch w (in_job j) → Fits w j → Worked w j (work k w j)
  unfolding work
  work-Worked w idle v b f = Keeps-Worked idle idle refl refl (Keeps-refl v) tt
  work-Worked w (pendings []) v b f = Keeps-Worked (pendings []) idle refl refl (Keeps-refl v) tt
  work-Worked w (pendings (p ∷ ps)) v b f =
      let h = handle_request-Handled k w p v (b.new p (ground (arith, ==_refl p))) in
      record {
        inv = h.inv;
        no_more = λ q. ground (arith, h.no_more q);
        none_lost = λ on q op. elim (Bool-cases (p == q)) [
          | inl e ↦
              let same : p ≡ q = ground arith in
              let taken = h.taken on (rw same op) in
              let fresh = (b.new p (ground (arith, ==_refl p))).nowhere in
              subst
                (λ x. tally w x + count x (p ∷ ps) ≤ tally (handle_request k w p) x + count x ps)
                same (ground (arith, b.distinct p, ==_refl p))
          | inr e ↦ ground (arith, h.none_lost on q)
        ];
        shorter = λ q. omega arith;
        asks = h.asks;
        die = h.die;
        fits = tt;
      }
  work-Worked w (eventing []) v b f = Keeps-Worked (eventing []) idle refl refl (Keeps-refl v) tt
  work-Worked w (eventing (e ∷ es)) v b f =
      if_both (λ (j : Job). Worked w (eventing (e ∷ es)) (w, j)) (is_some (lookup e.ident w.descs))
        _ _
        (Keeps-Worked (eventing (e ∷ es)) (begin_readers w e es) refl (begin_readers-job w e es)
          (Keeps-refl v) (begin_readers-Fits w e es))
        (Keeps-Worked (eventing (e ∷ es)) (eventing es) refl refl (Keeps-refl v) tt)
  work-Worked w (retrying side e [] es) v b f =
      Keeps-Worked (retrying side e [] es) (after_side side w e es) refl
        (after_side-job side w e es) (Keeps-refl v) (after_side-Fits side w e es)
  work-Worked w (retrying side e (p ∷ ps) es) v b f = retry_one-Worked w side e p ps es v f
  work-Worked w (expiring now) v b f = expire_one-Worked w now v
  work-Worked w (releasing []) v b f =
      Keeps-Worked (releasing []) idle refl refl
        (Frame-Keeps v (Frame-aside refl refl refl refl refl)) tt
  work-Worked w (releasing (c ∷ cs)) v b f =
      Keeps-Worked (releasing (c ∷ cs)) (releasing cs) refl refl
        (release_found-Keeps (lookup c w.conn_idents) w v) tt
