-- ===== src/Watcher/Invariant/Refit.antt =====
-- Changes to requests that wait in no queue, as aioCreate and WaitIO make them (watcher.go).
use gaio.Common.{ℕ, ◌≤◌, ◌<◌, ◌≡◌, refl, ◌∙◌, true, none, arith, count}
use gaio.Types.{Aiocb}
use gaio.Timed.Push.{IsValid-same}
use gaio.Watcher.{Watcher, cb_of, set_cb, desc_of}
use gaio.Watcher.Invariant.{queued, tally, Inv, load-lookup}
use gaio.Watcher.Invariant.Moves.{load-queue_of}

-- `w'` differs from `w` in requests that are in no queue, and may have fewer results.
pub record Refits (w w' : Watcher) : Type 0 where
  pub arr : w'.timed.arr ≡ w.timed.arr
  pub idx : (p : ℕ) → (cb_of w' p).idx ≡ (cb_of w p).idx
  pub place : (p : ℕ) → 0 < count p (queued w.descs) → (cb_of w' p).place ≡ (cb_of w p).place
  pub deadline :
      (p : ℕ) → 0 < count p (queued w.descs) → (cb_of w' p).deadline ≡ (cb_of w p).deadline
  pub descs : w'.descs ≡ w.descs
  pub conn_idents : w'.conn_idents ≡ w.conn_idents
  pub results : (p : ℕ) → count p w'.results ≤ count p w.results

pub Refits-Inv : {w w' : Watcher} → Refits w w' → Inv w → Inv w'
Refits-Inv {w} {w'} f v = record {
  heap = IsValid-same f.arr f.idx (λ p h. f.deadline p (v.waiting p h)) v.heap;
  once = λ p. rw f.descs (omega (arith, v.once p, f.results p));
  placed = λ p fd side h.
      let h' = rw f.descs at h in
      let e =
        f.place p
          (omega (arith, h', load-queue_of side p (desc_of w fd), load-lookup p fd w.descs)) in
      rw e (v.placed p fd side h');
  waiting = λ p h. let e = f.idx p in rw f.descs (v.waiting p (rw e at h));
  armed = λ p h. let h' = rw f.descs at h in ground (arith, f.idx p, f.deadline p h', v.armed p h');
  idents = rw (f.descs, f.conn_idents) v.idents;
  owners = rw (f.descs, f.conn_idents) v.owners;
  single = rw f.descs v.single;
}

-- A request that is nowhere may be overwritten.
pub set_cb-Refits :
    (w : Watcher) (p : ℕ) (cb : Aiocb)
    → Inv w
    → tally w p ≡ 0
    → cb.idx ≡ none
    → Refits w (set_cb w p cb)
set_cb-Refits w p cb v f e = record {
  arr = refl;
  idx = λ q. ground (arith, v.waiting p);
  place = λ q h. ground arith;
  deadline = λ q h. ground arith;
  descs = refl;
  conn_idents = refl;
  results = λ q. omega arith;
}

pub Refits-trans : {w w' w'' : Watcher} → Refits w w' → Refits w' w'' → Refits w w''
Refits-trans a b = record {
  arr = b.arr ∙ a.arr;
  idx = λ p. b.idx p ∙ a.idx p;
  place = λ p h. b.place p (rw a.descs h) ∙ a.place p h;
  deadline = λ p h. b.deadline p (rw a.descs h) ∙ a.deadline p h;
  descs = b.descs ∙ a.descs;
  conn_idents = b.conn_idents ∙ a.conn_idents;
  results = λ p. omega (arith, a.results p, b.results p);
}

pub Refits-refl : (w : Watcher) → Refits w w
Refits-refl w = record {
  arr = refl;
  idx = λ p. refl;
  place = λ p h. refl;
  deadline = λ p h. refl;
  descs = refl;
  conn_idents = refl;
  results = λ p. omega arith;
}

-- Closing `die` leaves the invariant.
pub close-Inv : (w : Watcher) → Inv w → Inv (record w { die = true })
close-Inv w v =
    Refits-Inv
      (record {
        arr = refl;
        idx = λ p. refl;
        place = λ p h. refl;
        deadline = λ p h. refl;
        descs = refl;
        conn_idents = refl;
        results = λ p. omega arith;
      })
      v
