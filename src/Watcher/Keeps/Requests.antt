-- ===== src/Watcher/Keeps/Requests.antt =====
-- handlePending (watcher.go): a request to read or write that the loop takes up.
use gaio.Common.{
  ℕ, ◌+◌, ◌≤◌, ◌≡◌, ◌≢◌, refl, ◌∙◌, false, not, none, some, arith, if◌then◌else◌, ◌==◌, Bool-cases,
  inl, inr, lookup,
}
use gaio.Types.{Side, Aiocb, op_delete}
use gaio.Timed.{Timed}
use gaio.Timed.Push.{IsValid, IsValid-same, holds, push-Pushed}
use gaio.Kernel.{Kernel}
use gaio.Watcher.{Watcher, cb_of, queue_of, desc_of, try_side}
use gaio.Watcher.Handlers.{track, enqueue, is_empty, start_side}
use gaio.Watcher.Invariant.{tally, tag, Inv, Frame, Frame-Inv}
use gaio.Watcher.Invariant.Park.{IsFresh, Answered, Answered-Inv, Parked, Parked-Inv, tally-Parked}
use gaio.Watcher.Deliver.{deliver-Answered, try_side-Frame}
use gaio.Watcher.Keeps.{Keeps, Frame-Keeps}

-- What was asked for: the fields that nothing changes after aioCreate.
abbrev pub asked : Aiocb → Aiocb
asked cb = record (tag cb) { place = none }

-- `w'` has the requests of `w`, and `p` if it is taken up for a transfer.
pub record Handled (w : Watcher) (p : ℕ) (w' : Watcher) : Type 0 where
  pub inv : Inv w'
  pub no_more : (q : ℕ) → tally w' q ≤ tally w q + (if p == q then 1 else 0)
  pub none_lost : w.die ≡ false → (q : ℕ) → tally w q ≤ tally w' q
  pub taken : w.die ≡ false → (cb_of w p).op ≢ op_delete → tally w' p ≡ 1
  pub asks : (q : ℕ) → asked (cb_of w' q) ≡ asked (cb_of w q)
  pub die : w'.die ≡ w.die

pub Inv-IsFresh : {w : Watcher} → Inv w → (p : ℕ) → tally w p ≡ 0 → IsFresh w p
Inv-IsFresh {w} v p e = record { nowhere = e; untimed = ground (arith, v.waiting p) }

pub Keeps-Handled : {w w' w'' : Watcher} (p : ℕ) → Keeps w w' → Handled w' p w'' → Handled w p w''
Keeps-Handled p a b = record {
  inv = b.inv;
  no_more = λ q. omega (arith, a.no_more q, b.no_more q);
  none_lost = λ on q. omega (arith, a.none_lost on q, b.none_lost (a.die ∙ on) q);
  taken = λ on op. b.taken (a.die ∙ on) (ground (arith, a.tags p));
  asks = λ q. ground (arith, a.tags q, b.asks q);
  die = b.die ∙ a.die;
}

pub Answered-Handled :
    {w w' : Watcher} (p : ℕ) → Inv w → tally w p ≡ 0 → Answered w p w' → Handled w p w'
Answered-Handled {w} {w'} p v f a = record {
  inv = Answered-Inv v (Inv-IsFresh v p f) a;
  no_more = λ q. rw a.descs (omega (arith, a.results q));
  none_lost = λ on q. rw a.descs (omega (arith, a.sent on q));
  taken = λ on op. rw a.descs (ground (arith, a.sent on p, f));
  asks = λ q. ground (arith, a.tags q);
  die = a.die;
}

Parked-Handled :
    {w w' : Watcher} (p fd : ℕ) (side : Side)
    → Inv w
    → tally w p ≡ 0
    → lookup fd w.descs ≡ some (desc_of w fd)
    → Parked w p fd side w'
    → Handled w p w'
Parked-Handled {w} {w'} p fd side v f found s =
    let more = tally-Parked w w' p fd side v (Inv-IsFresh v p f) found s in
    record {
      inv = Parked-Inv w w' p fd side v (Inv-IsFresh v p f) found s;
      no_more = λ q. ground (arith, more q);
      none_lost = λ on q. ground (arith, more q);
      taken = λ on op. ground (arith, more p, f);
      asks = λ q. ground (arith, s.tags q);
      die = s.die;
    }

-- What parking does to the heap.
record Tracked (h : Timed) (p : ℕ) (h' : Timed) : Type 0 where
  heap : IsValid h'
  members : (q : ℕ) → holds h' q ≡ (if p == q then not ((h.cbs p).deadline == 0) else holds h q)
  tags : (q : ℕ) → tag (h'.cbs q) ≡ tag (h.cbs q)

track-Tracked :
    (w : Watcher) (p : ℕ)
    → IsValid w.timed
    → (cb_of w p).idx ≡ none
    → Tracked w.timed p (track w p).timed
unfolding track
track-Tracked w p v out = elim (Bool-cases ((cb_of w p).deadline == 0)) [
  | inl e ↦ rw e (record { heap = v; members = λ q. ground arith; tags = λ q. refl })
  | inr e ↦
      let r = push-Pushed w.timed p v out in
      rw e (record {
        heap = r.valid;
        members = λ q. ground (arith, r.members q);
        tags = λ q. ground (arith, r.bodies q);
      })
]

enqueue-IsValid :
    (w : Watcher) (p fd : ℕ) (side : Side) → IsValid w.timed → IsValid (enqueue w fd side p).timed
unfolding enqueue
enqueue-IsValid w p fd side v = IsValid-same refl (λ q. ground arith) (λ q _. ground arith) v

-- A request with a deadline enters the heap when it is parked.
park-Parked :
    (w : Watcher) (p fd : ℕ) (side : Side)
    → IsValid w.timed
    → (cb_of w p).idx ≡ none
    → Parked w p fd side (track (enqueue w fd side p) p)
unfolding track enqueue
park-Parked w p fd side v out =
    let r = track-Tracked (enqueue w fd side p) p (enqueue-IsValid w p fd side v) (ground arith) in
    record {
      heap = r.heap;
      members = λ q. ground (arith, r.members q);
      tags = λ q. ground (arith, r.tags q);
      descs = refl;
      conn_idents = refl;
      results = refl;
      die = refl;
    }

module _ (k : Kernel) where
  -- A request for which an attempt is made, or which waits behind others.
  pub start_side-Handled :
      (side : Side) (w : Watcher) (ident p : ℕ)
      → Inv w
      → tally w p ≡ 0
      → lookup ident w.descs ≡ some (desc_of w ident)
      → Handled w p (start_side k side w ident p)
  unfolding start_side
  start_side-Handled side w ident p v f found =
      elim (Bool-cases (is_empty (queue_of side (desc_of w ident)))) [
        | inr behind ↦ rw behind (
            Parked-Handled p ident side v f found
              (park-Parked w p ident side v.heap (Inv-IsFresh v p f).untimed))
        | inl first ↦ rw first (
            Keeps-Handled p (Frame-Keeps v g) (elim (Bool-cases (try_side k side w ident p).0) [
              | inl done ↦ rw done (
                  Answered-Handled p v' f'
                    (deliver-Answered k tried p v'.heap (Inv-IsFresh v' p f').untimed))
              | inr waits ↦ rw waits (
                  Parked-Handled p ident side v' f' (rw g.descs found)
                    (park-Parked tried p ident side v'.heap (Inv-IsFresh v' p f').untimed))
            ]))
      ]
    where
      tried : Watcher
      tried = (try_side k side w ident p).1

      g : Frame w tried
      g = try_side-Frame k side w ident p

      v' : Inv tried
      v' = Frame-Inv g v

      f' : tally tried p ≡ 0
      f' = rw (g.descs, g.results) f
