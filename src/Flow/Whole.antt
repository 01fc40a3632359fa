-- ===== src/Flow/Whole.antt =====
-- The whole watcher at a point of the goroutines' steps (watcher.go): what the loop is sending
-- counts as sent, and what handlePending has not come to as submitted.
use mathlib.Core.List.{append_assoc}
use gaio.Common.{
  ℕ, ◌+◌, ◌≤◌, ◌≡◌, refl, ◌∙◌, sym, ap, List, [], ◌∷◌, ◌++◌, Option, none, some, arith, count,
  count-append,
}
use gaio.Types.{Aiocb}
use gaio.Kernel.{Kernel}
use gaio.Watcher.{Watcher, cb_of}
use gaio.Watcher.Invariant.{tally, Inv}
use gaio.Watcher.Invariant.Refit.{Refits-Inv}
use gaio.Watcher.Keeps.Batch.{IsBatch}
use gaio.Flow.{Flow, advance}
use gaio.Flow.Jobs.{Job, idle, pendings, eventing, retrying, expiring, releasing, work}
use gaio.Flow.Pieces.{in_job, Fits, Worked, work-Worked}
use gaio.System.{System, Request, get_cb, create_at, submit, aio_create}
use gaio.System.Places.{places, IsSafe}

abbrev pub with_results : Watcher → List ℕ → Watcher
with_results w rs = record w { results = rs }

abbrev pub whole : Flow → System
whole f = record (f.system) {
  watcher = with_results f.system.watcher (f.system.watcher.results ++ f.outbox);
  pending_create = in_job f.job ++ f.system.pending_create;
}

-- The whole is in a safe state, and a loop over a queue has the queue before it.
pub record IsSound (f : Flow) : Type 0 where
  pub safe : IsSafe (whole f)
  pub fits : Fits f.system.watcher f.job

-- `t` has no request in a place where `s` has none.
pub record Smaller (s t : System) : Type 0 where
  pub inv : Inv t.watcher
  pub places : (q : ℕ) → places t q ≤ places s q
  pub unused : t.next ≡ s.next
  pub submitted : (q : ℕ) → count q t.pending_create ≤ count q s.pending_create
  pub ops :
      (q : ℕ)
      → ((cb_of t.watcher q).op ≡ (cb_of s.watcher q).op)
        × ((cb_of t.watcher q).deadline ≡ (cb_of s.watcher q).deadline)

pub Smaller-IsSafe : (s t : System) → IsSafe s → Smaller s t → IsSafe t
Smaller-IsSafe s t v m = record {
  inv = m.inv;
  unique = λ q. omega (arith, m.places q, v.unique q);
  unused = λ q h. omega (arith, m.places q, m.unused, v.unused q);
  frees = λ q h e.
      let same = m.ops q in same.1 ∙ v.frees q (omega (arith, m.submitted q)) (sym same.0 ∙ e);
}

-- Where the watcher is the same.
pub same_watcher :
    (s t : System)
    → IsSafe s
    → t.watcher ≡ s.watcher
    → ((q : ℕ) → count q t.pending_create ≡ count q s.pending_create)
    → ((q : ℕ) → count q t.recycles + count q t.pool ≤ count q s.recycles + count q s.pool)
    → t.next ≡ s.next
    → IsSafe t
same_watcher s t v e c r n = Smaller-IsSafe s t v (record {
  inv = rw e v.inv;
  places = λ q. rw e (omega (arith, c q, r q));
  unused = n;
  submitted = λ q. omega (arith, c q);
  ops = λ q. rw e (refl, refl);
})

-- Fewer results, or in another order.
pub results-IsSafe :
    (s : System) (rs : List ℕ)
    → IsSafe s
    → ((q : ℕ) → count q rs ≤ count q s.watcher.results)
    → IsSafe (record s { watcher = with_results s.watcher rs })
results-IsSafe s rs v h = Smaller-IsSafe s _ v (record {
  inv =
      Refits-Inv {w = s.watcher}
        (record {
          arr = refl;
          idx = λ p. refl;
          place = λ p x. refl;
          deadline = λ p x. refl;
          descs = refl;
          conn_idents = refl;
          results = h;
        })
        v.inv;
  places = λ q. omega (arith, h q);
  unused = refl;
  submitted = λ q. omega arith;
  ops = λ q. (refl, refl);
})

Inv-results :
    (w : Watcher) (rs : List ℕ)
    → Inv w
    → ((q : ℕ) → tally (with_results w rs) q ≤ 1)
    → Inv (with_results w rs)
Inv-results w rs v h = record {
  heap = v.heap;
  once = h;
  placed = v.placed;
  waiting = v.waiting;
  armed = v.armed;
  idents = v.idents;
  owners = v.owners;
  single = v.single;
}

-- What the handler has not come to is new to the loop.
pub job-IsBatch : (f : Flow) → IsSound f → IsBatch (with_results f.system.watcher []) (in_job f.job)
job-IsBatch f v = record {
  new = λ q h. record {
    nowhere = omega (arith, v.safe.unique q, count-append q (in_job f.job) f.system.pending_create);
    frees = v.safe.frees q (omega (arith, count-append q (in_job f.job) f.system.pending_create));
  };
  distinct =
      λ q. omega (arith, v.safe.unique q, count-append q (in_job f.job) f.system.pending_create);
}

pub start-Inv : (f : Flow) → IsSound f → Inv (with_results f.system.watcher [])
start-Inv f v = (results-IsSafe (whole f) [] v.safe (λ q. omega arith)).inv

module _ (k : Kernel) where
  pub advance-Worked :
      (f : Flow)
      → IsSound f
      → Worked
          (with_results f.system.watcher [])
          f.job
          (work k (with_results f.system.watcher []) f.job)
  advance-Worked f v =
      work-Worked k (with_results f.system.watcher []) f.job (start-Inv f v) (job-IsBatch f v)
        v.fits

  advance-places :
      (f : Flow) (q : ℕ)
      → IsSound f
      → (places (whole (advance k f)) q ≤ places (whole f) q)
        × (count q (whole (advance k f)).pending_create ≤ count q (whole f).pending_create)
  unfolding advance
  advance-places f q v =
      let w = advance-Worked f v in
      let rs = f.system.watcher.results in
      let pc = f.system.pending_create in
      let r = work k (with_results f.system.watcher []) f.job in
      let here = count-append q (in_job f.job) pc in
      let there = count-append q (in_job r.1) pc in
      let old = count-append q rs f.outbox in
      let new = count-append q rs r.0.results in
      (omega (arith, w.no_more q), omega (arith, w.shorter q))

  pub advance-IsSound : (f : Flow) → IsSound f → IsSound (advance k f)
  unfolding advance
  advance-IsSound f v =
      let w = advance-Worked f v in
      let r = work k (with_results f.system.watcher []) f.job in
      let t = whole (advance k f) in
      let fewer = λ (q : ℕ). advance-places f q v in
      record {
        safe = record {
          inv = Inv-results r.0 _ w.inv (λ q. omega (arith, (fewer q).0, v.safe.unique q));
          unique = λ q. omega (arith, (fewer q).0, v.safe.unique q);
          unused = λ q h. omega (arith, (fewer q).0, v.safe.unused q h);
          frees = λ q h e.
              let same : (cb_of r.0 q).deadline ≡ (cb_of f.system.watcher q).deadline =
                ap (λ (cb : Aiocb). cb.deadline) (w.asks q) in
              let op : (cb_of r.0 q).op ≡ (cb_of f.system.watcher q).op =
                ap (λ (cb : Aiocb). cb.op) (w.asks q) in
              same ∙ v.safe.frees q (omega (arith, (fewer q).1)) (sym op ∙ e);
        };
        fits = w.fits;
      }

-- aioCreate of the whole is aioCreate beside the handler.
pub whole-create :
    (f : Flow) (pick : ℕ) (r : Request) (conn : Option ℕ)
    → whole (record f { system = (aio_create pick f.system r conn).0 })
      ≡ (aio_create pick (whole f) r conn).0
unfolding aio_create create_at submit get_cb
whole-create f pick r none = refl
whole-create f pick r (some ptr) = ground (
  arith,
  append_assoc (in_job f.job) f.system.pending_create (pick ∷ []),
  append_assoc (in_job f.job) f.system.pending_create (f.system.next ∷ []),
)

pub create-descs :
    (pick : ℕ) (s : System) (r : Request) (conn : Option ℕ)
    → (aio_create pick s r conn).0.watcher.descs ≡ s.watcher.descs
unfolding aio_create create_at submit get_cb
create-descs pick s r none = refl
create-descs pick s r (some ptr) = ground arith

-- Nothing but the registrations counts.
pub Fits-descs : (w w' : Watcher) (j : Job) → w'.descs ≡ w.descs → Fits w j → Fits w' j
Fits-descs w w' idle e h = tt
Fits-descs w w' (pendings ps) e h = tt
Fits-descs w w' (eventing es) e h = tt
Fits-descs w w' (retrying side ev ps es) e h = rw e h
Fits-descs w w' (expiring now) e h = tt
Fits-descs w w' (releasing cs) e h = tt
