-- ===== src/Flow/Outcomes.antt =====
-- The results of requests under the steps of the callers (watcher.go).

use gaio.Common.{
  ℕ, ◌<◌, ◌≡◌, refl, ap, false, List, [], ◌∷◌, Option, none, some, arith, Bool-cases, inl, inr, map,
  count, ==_refl,
}
use gaio.Types.{Aiocb}
use gaio.Timed.Track.{body}
use gaio.Watcher.{Watcher, cb_of}
use gaio.Watcher.Invariant.{tally}
use gaio.Flow.{outcome}
use gaio.System.{System, Request, aio_create, create_at, submit, get_cb, stop}
use gaio.System.Collect.{result_of}
use gaio.System.Places.{IsSafe, get_cb-Got}

-- Results that are the same up to the index.
pub map-outcome :
    (w w' : Watcher) (l : List ℕ)
    → ((q : ℕ) → 0 < count q l → body (cb_of w' q) ≡ body (cb_of w q))
    → map (outcome w') l ≡ map (outcome w) l
map-outcome w w' [] h = refl
map-outcome w w' (x ∷ xs) h =
    let first : outcome w' x ≡ outcome w x =
      ap (λ (cb : Aiocb). result_of cb) (h x (ground (arith, ==_refl x))) in
    let rest = map-outcome w w' xs (λ q i. h q (omega arith)) in cc (first, rest)

-- aioCreate's record is none of those that are on their way.
pub create-others :
    (pick : ℕ) (s : System) (r : Request) (conn : Option ℕ) (q : ℕ)
    → IsSafe s
    → 0 < tally s.watcher q
    → cb_of (aio_create pick s r conn).0.watcher q ≡ cb_of s.watcher q
unfolding aio_create create_at submit
create-others pick s r none q v h = refl
create-others pick s r (some ptr) q v h =
    let g = get_cb-Got pick s v.unique v.unused in
    let same = ap (λ (w : Watcher). cb_of w q) g.watcher in
    let held = ap (λ (w : Watcher). tally w q) g.watcher in ground (arith, g.free)

pub create-results :
    (pick : ℕ) (s : System) (r : Request) (conn : Option ℕ)
    → (aio_create pick s r conn).0.watcher.results ≡ s.watcher.results
unfolding aio_create create_at submit get_cb
create-results pick s r none = refl
create-results pick s r (some ptr) = ground arith

pub stop-results :
    (s : System) (xs : List ℕ)
    → ((stop s).watcher.results ≡ s.watcher.results)
      × ((q : ℕ) → 0 < count q xs → body (cb_of (stop s).watcher q) ≡ body (cb_of s.watcher q))
      × ((stop s).watcher.die ≡ false → s.watcher.die ≡ false)
unfolding stop
stop-results s xs = elim (Bool-cases s.watcher.die) [
  | inl off ↦ rw off (refl, λ q h. refl, λ on. on)
  | inr on ↦ rw on (refl, λ q h. refl, λ e. refl)
]
