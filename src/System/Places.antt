-- ===== src/System/Places.antt =====
-- Where a request can be in the whole watcher, and what aioCreate changes of it (watcher.go).
use gaio.Common.{
  ℕ, ◌+◌, ◌≤◌, ◌<◌, ◌≡◌, refl, ap, false, [], ◌∷◌, ◌++◌, Option, none, some, arith, ◌==◌, ltb,
  count, count-append, count-remove, Bool-cases, if_both, inl, inr, ==_refl,
}
use gaio.Types.{Error, op_delete}
use gaio.Watcher.{Watcher, cb_of}
use gaio.Watcher.Invariant.{tally, Inv}
use gaio.Watcher.Invariant.Refit.{Refits-Inv, set_cb-Refits}
use gaio.Watcher.Keeps.{Keeps}
use gaio.System.{System, Request, get_cb, new_cb, create_at, submit, aio_create}
use gaio.System.Step.{IsProper}

-- The places of a request: submitted, in a queue or in chResults, handed to the caller, or in the
-- pool.
abbrev pub places : System → ℕ → ℕ
places s p = count p s.pending_create + tally s.watcher p + count p s.recycles + count p s.pool

pub record IsSafe (s : System) : Type 0 where
  pub inv : Inv s.watcher
  -- A request is in one place at most, and no address from `next` on is in use.
  pub unique : (p : ℕ) → places s p ≤ 1
  pub unused : (p : ℕ) → s.next ≤ p → places s p ≡ 0
  pub frees :
      (p : ℕ)
      → 0 < count p s.pending_create
      → (cb_of s.watcher p).op ≡ op_delete
      → (cb_of s.watcher p).deadline ≡ 0

-- Another watcher that has no more requests, and asks for the same.
pub Keeps-IsSafe :
    (s : System) (w : Watcher) → IsSafe s → Keeps s.watcher w → IsSafe (record s { watcher = w })
Keeps-IsSafe s w v k = record {
  inv = k.inv;
  unique = λ p. omega (arith, v.unique p, k.no_more p);
  unused = λ p h. omega (arith, v.unused p h, k.no_more p);
  frees = λ p h. ground (arith, k.tags p, v.frees p h);
}

-- What aiocbPool.Get gives is in use nowhere.
pub record Got (s : System) (r : ℕ × System) : Type 0 where
  pub free : places r.1 r.0 ≡ 0
  pub others : (q : ℕ) → places r.1 q ≤ places s q
  pub unused : (q : ℕ) → r.1.next ≤ q → (places r.1 q ≡ 0) × ((r.0 == q) ≡ false)
  pub create : r.1.pending_create ≡ s.pending_create
  pub watcher : r.1.watcher ≡ s.watcher

pub get_cb-Got :
    (pick : ℕ) (s : System)
    → ((p : ℕ) → places s p ≤ 1)
    → ((p : ℕ) → s.next ≤ p → places s p ≡ 0)
    → Got s (get_cb pick s)
unfolding get_cb
get_cb-Got pick s unique unused = elim (Bool-cases (ltb 0 (count pick s.pool))) [
  | inl pooled ↦
      let c = λ (q : ℕ). count-remove pick q s.pool (ground arith) in
      rw pooled (record {
        free = ground (arith, c pick, unique pick, ==_refl pick);
        others = λ q. omega (arith, c q);
        unused = λ q h. (omega (arith, c q, unused q h), ground (arith, c q, unused q h));
        create = refl;
        watcher = refl;
      })
  | inr fresh ↦ rw fresh (record {
    free = unused s.next (omega arith);
    others = λ q. omega arith;
    unused = λ q h. (unused q (omega arith), ground arith);
    create = refl;
    watcher = refl;
  })
]

pub submit-IsSafe :
    (s s1 : System) (p : ℕ) (r : Request) (ptr : ℕ)
    → IsProper r
    → IsSafe s
    → Got s (p, s1)
    → IsSafe (submit p s1 r ptr).0
unfolding submit
submit-IsSafe s s1 p r ptr proper v g =
    let v1 : Inv s1.watcher = rw g.watcher v.inv in
    let nowhere : tally s1.watcher p ≡ 0 = omega (arith, g.free) in
    let inv = Refits-Inv (set_cb-Refits s1.watcher p (new_cb r ptr) v1 nowhere refl) v1 in
    if_both (λ (x : System × Option Error). IsSafe x.0) s1.watcher.die _ _
      (record {
        inv = inv;
        unique = λ q. ground (arith, g.free, g.others q, v.unique q);
        unused = λ q h. ground (arith, (g.unused q h).0, (g.unused q h).1);
        frees = λ q h. ground (arith, g.create, g.free, v.frees q, same q, proper);
      })
      (record {
        inv = inv;
        unique = λ q. ground (arith, g.free, g.others q, v.unique q, longer q);
        unused = λ q h. ground (arith, (g.unused q h).0, (g.unused q h).1, longer q);
        frees = λ q h. ground (arith, g.create, g.free, v.frees q, same q, proper, longer q);
      })
  where
    longer :
        (q : ℕ)
        → count q (s1.pending_create ++ p ∷ []) ≡ count q s1.pending_create + count q (p ∷ [])
    longer q = count-append q s1.pending_create (p ∷ [])

    same : (q : ℕ) → cb_of s1.watcher q ≡ cb_of s.watcher q
    same q = ap (λ (w : Watcher). cb_of w q) g.watcher

-- From a safe state, aioCreate leads to a safe state, whether it submits the request or refuses it,
-- and whether its record comes from the pool or is new; of a Free it is assumed that it has no
-- deadline.
pub aio_create-IsSafe :
    (pick : ℕ) (s : System) (r : Request) (conn : Option ℕ)
    → IsProper r
    → IsSafe s
    → IsSafe (aio_create pick s r conn).0
unfolding aio_create create_at
aio_create-IsSafe pick s r none proper v = v
aio_create-IsSafe pick s r (some ptr) proper v = elim (Bool-cases (ptr == 0)) [
  | inl null ↦ rw null v
  | inr real ↦ rw real (submit-IsSafe s _ _ r ptr proper v (get_cb-Got pick s v.unique v.unused))
]
