-- ===== src/Watcher/Keeps.antt =====
-- The handlers of watcher.go, the invariant, and the places of the requests.
pub mod Release
pub mod Expiry
pub mod Chronology
pub mod Requests
pub mod Register
pub mod Batch
use gaio.Common.{
  ℕ, ap, remove_head, ◌≤◌, ◌<◌, ◌≡◌, refl, ◌∙◌, Bool, true, false, List, [], ◌∷◌, arith, ◌==◌,
  count, Bool-cases, inl, inr, is_some, remove, lookup, ==_refl,
}
use gaio.Types.{Side, readers, writers, Event, ev_read, ev_write}
use gaio.Timed.Push.{IsValid}
use gaio.Kernel.{Kernel}
use gaio.Watcher.{Watcher, cb_of, queue_of, desc_of, dequeue, try_side, deliver}
use gaio.Watcher.Handlers.{retry, retry_if, handle_event, handle_events, ready}
use gaio.Watcher.Invariant.{tag, tally, Inv, Frame, Frame-Inv}
use gaio.Watcher.Invariant.Moves.{
  Settled, Settled-Inv, tally-Settled, tally-Settled_eq, queue-Settled,
}
use gaio.Watcher.Deliver.{Delivered, deliver-Delivered, settle-Settled, try_side-Frame}

-- `w'` has the requests of `w`; after a shutdown it may have dropped some.
pub record Keeps (w w' : Watcher) : Type 0 where
  pub inv : Inv w'
  pub no_more : (q : ℕ) → tally w' q ≤ tally w q
  pub none_lost : w.die ≡ false → (q : ℕ) → tally w' q ≡ tally w q
  pub tags : (q : ℕ) → tag (cb_of w' q) ≡ tag (cb_of w q)
  pub die : w'.die ≡ w.die

pub Keeps-refl : {w : Watcher} → Inv w → Keeps w w
Keeps-refl v = record {
  inv = v;
  no_more = λ q. omega arith;
  none_lost = λ on q. refl;
  tags = λ q. refl;
  die = refl;
}

pub Keeps-trans : {w w' w'' : Watcher} → Keeps w w' → Keeps w' w'' → Keeps w w''
Keeps-trans a b = record {
  inv = b.inv;
  no_more = λ q. omega (arith, a.no_more q, b.no_more q);
  none_lost = λ on q. b.none_lost (a.die ∙ on) q ∙ a.none_lost on q;
  tags = λ q. b.tags q ∙ a.tags q;
  die = b.die ∙ a.die;
}

pub Frame-Keeps : {w w' : Watcher} → Inv w → Frame w w' → Keeps w w'
Frame-Keeps v f = record {
  inv = Frame-Inv f v;
  no_more = λ q. rw (f.descs, f.results) (omega arith);
  none_lost = λ on q. rw (f.descs, f.results);
  tags = f.tags;
  die = f.die;
}

module _ (w w' : Watcher) (p fd : ℕ) (side : Side) (v : Inv w)
    (waits : 0 < count p (queue_of side (desc_of w fd))) (s : Settled w p fd side w') where
  pub Settled-Keeps : Keeps w w'
  Settled-Keeps = record {
    inv = Settled-Inv w w' p fd side v waits s;
    no_more = tally-Settled w w' p fd side v waits s;
    none_lost = tally-Settled_eq w w' p fd side v waits s;
    tags = s.tags;
    die = s.die;
  }

module _ (k : Kernel) where
  -- What a request at the head of a queue leaves that is complete and delivered.
  pub record Passed (w : Watcher) (ident : ℕ) (side : Side) (p : ℕ) (ps : List ℕ) (w' : Watcher)
      : Type 0 where
    pub frame : Frame w (try_side k side w ident p).1
    pub delivered : Delivered (dequeue (try_side k side w ident p).1 ident side p) p w'
    pub keeps : Keeps w w'
    pub rest : queue_of side (desc_of w' ident) ≡ ps

  dequeue-IsValid :
      (w : Watcher) (ident : ℕ) (side : Side) (p : ℕ)
      → IsValid w.timed
      → IsValid (dequeue w ident side p).timed
  unfolding dequeue
  dequeue-IsValid w ident side p v = v

  pub pass-Passed :
      (side : Side) (w : Watcher) (ident p : ℕ) (ps : List ℕ)
      → Inv w
      → queue_of side (desc_of w ident) ≡ p ∷ ps
      → Passed w ident side p ps (deliver k (dequeue (try_side k side w ident p).1 ident side p) p)
  pass-Passed side w ident p ps v e =
      let tried = (try_side k side w ident p).1 in
      let f = try_side-Frame k side w ident p in
      let v1 = Frame-Inv f v in
      let s = settle-Settled k tried ident side p v1.heap in
      let head : queue_of side (desc_of tried ident) ≡ p ∷ ps = rw f.descs e in
      let waits : 0 < count p (queue_of side (desc_of tried ident)) =
        rw head (ground (arith, ==_refl p)) in
      record {
        frame = f;
        delivered = deliver-Delivered k _ p (dequeue-IsValid tried ident side p v1.heap);
        keeps = Keeps-trans (Frame-Keeps v f) (Settled-Keeps tried _ p ident side v1 waits s);
        rest =
            queue-Settled tried _ p ident side v1 waits s ∙ ap (remove p) head ∙ remove_head p ps;
      }

  -- handleEvents' loop over a queue.
  pub retry-Keeps :
      (side : Side) (w : Watcher) (ident : ℕ) (ps : List ℕ)
      → Inv w
      → queue_of side (desc_of w ident) ≡ ps
      → Keeps w (retry k side w ident ps)
  unfolding retry
  retry-Keeps side w ident [] v e = Keeps-refl v
  retry-Keeps side w ident (p ∷ ps) v e = elim (Bool-cases (try_side k side w ident p).0) [
    | inr blocked ↦ rw blocked (Frame-Keeps v (try_side-Frame k side w ident p))
    | inl done ↦
        let a = pass-Passed side w ident p ps v e in
        rw done (
          Keeps-trans a.keeps (
            retry-Keeps side (deliver k (dequeue (try_side k side w ident p).1 ident side p) p)
              ident ps a.keeps.inv a.rest))
  ]

  pub retry_if-Keeps :
      (b : Bool) (side : Side) (w : Watcher) (ident : ℕ)
      → Inv w
      → Keeps w (retry_if k b side w ident)
  unfolding retry_if
  retry_if-Keeps true side w ident v = retry-Keeps side w ident _ v refl
  retry_if-Keeps false side w ident v = Keeps-refl v

  pub handle_event-Keeps : (w : Watcher) (e : Event) → Inv w → Keeps w (handle_event k w e)
  unfolding handle_event
  handle_event-Keeps w e v = elim (Bool-cases (is_some (lookup e.ident w.descs))) [
    | inr stale ↦ rw stale (Keeps-refl v)
    | inl known ↦
        let reads = retry_if-Keeps (ready e.ev ev_read) readers w e.ident v in
        rw known
          (Keeps-trans reads (retry_if-Keeps (ready e.ev ev_write) writers _ e.ident reads.inv))
  ]

  -- handleEvents.
  pub handle_events-Keeps : (w : Watcher) (es : List Event) → Inv w → Keeps w (handle_events k w es)
  unfolding handle_events
  handle_events-Keeps w [] v = Keeps-refl v
  handle_events-Keeps w (e ∷ es) v =
      let first = handle_event-Keeps w e v in
      Keeps-trans first (handle_events-Keeps (handle_event k w e) es first.inv)
