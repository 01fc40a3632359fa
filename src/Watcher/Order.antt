-- ===== src/Watcher/Order.antt =====
-- The order in which requests complete (watcher.go): the loops of
-- handleEvents.
pub mod Started
use mathlib.Core.List.{append-nil, append_assoc}
use gaio.Common.{
  ℕ, ◌≡◌, refl, sym, ap, ◌∙◌, Bool, true, false, List, [], ◌∷◌, ◌++◌, arith, ◌==◌, Bool-cases, inl,
  inr, is_some, lookup, lookup-insert, ==_refl,
}
use gaio.Types.{Side, readers, writers, Event, ev_read, ev_write}
use gaio.Kernel.{Kernel}
use gaio.Watcher.{Watcher, queue_of, or_empty, desc_of, dequeue, try_side, deliver}
use gaio.Watcher.Handlers.{retry, retry_if, handle_event, ready}
use gaio.Watcher.Invariant.{Inv, Frame}
use gaio.Watcher.Deliver.{Delivered, try_side-Frame}
use gaio.Watcher.Keeps.{pass-Passed, retry_if-Keeps}

abbrev pub other : Side → Side
other readers = writers
other writers = readers

-- `w'` is `w` after the requests `answered`, the first of the queue, have been answered in their
-- order.
pub record Ordered (side : Side) (w : Watcher) (ident : ℕ) (w' : Watcher) : Type 0 where
  pub answered : List ℕ
  pub split : queue_of side (desc_of w ident) ≡ answered ++ queue_of side (desc_of w' ident)
  pub results : w'.results ≡ w.results ++ answered
  pub beside : queue_of (other side) (desc_of w' ident) ≡ queue_of (other side) (desc_of w ident)
  pub elsewhere : (fd : ℕ) → (ident == fd) ≡ false → lookup fd w'.descs ≡ lookup fd w.descs

Ordered-refl : (side : Side) (w : Watcher) (ident : ℕ) → Ordered side w ident w
Ordered-refl side w ident = record {
  answered = [];
  split = refl;
  results = sym (append-nil w.results);
  beside = refl;
  elsewhere = λ fd e. refl;
}

-- `w'` is `w` after an event on `ident`: requests from the front of its two queues have been
-- answered, the reads first.
pub record Served (w : Watcher) (ident : ℕ) (w' : Watcher) : Type 0 where
  pub read : List ℕ
  pub written : List ℕ
  pub readers : (desc_of w ident).reads ≡ read ++ (desc_of w' ident).reads
  pub writers : (desc_of w ident).writes ≡ written ++ (desc_of w' ident).writes
  pub results : w'.results ≡ w.results ++ (read ++ written)
  pub elsewhere : (fd : ℕ) → (ident == fd) ≡ false → lookup fd w'.descs ≡ lookup fd w.descs

-- Taking a request out of one queue leaves the others.
dequeue-beside :
    (side : Side) (w : Watcher) (ident p : ℕ)
    → queue_of (other side) (desc_of (dequeue w ident side p) ident)
      ≡ queue_of (other side) (desc_of w ident)
unfolding dequeue
dequeue-beside readers w ident p = rw (lookup-insert ident ident) (ground (arith, ==_refl ident))
dequeue-beside writers w ident p = rw (lookup-insert ident ident) (ground (arith, ==_refl ident))

dequeue-elsewhere :
    (side : Side) (w : Watcher) (ident p fd : ℕ)
    → (ident == fd) ≡ false
    → lookup fd (dequeue w ident side p).descs ≡ lookup fd w.descs
unfolding dequeue
dequeue-elsewhere side w ident p fd e = rw (lookup-insert ident fd, e)

module _ (k : Kernel) where
  -- One round of handleEvents' loop, and the rounds after it.
  Ordered-cons :
      (side : Side) (w w1 w2 : Watcher) (ident p : ℕ) (ps : List ℕ)
      → Frame w w1
      → w.die ≡ false
      → queue_of side (desc_of w ident) ≡ p ∷ ps
      → Delivered (dequeue w1 ident side p) p w2
      → queue_of side (desc_of w2 ident) ≡ ps
      → {w3 : Watcher} → Ordered side w2 ident w3
      → Ordered side w ident w3
  unfolding dequeue
  Ordered-cons side w w1 w2 ident p ps f on e d rest {w3} r = record {
    answered = p ∷ r.answered;
    split = e ∙ ap (λ q. p ∷ q) (sym rest ∙ r.split);
    results =
        r.results
        ∙ ap (λ q. q ++ r.answered) (d.sent (f.die ∙ on) ∙ ap (λ q. q ++ p ∷ []) f.results)
        ∙ append_assoc w.results (p ∷ []) r.answered;
    beside =
        r.beside
        ∙ ap (λ m. queue_of (other side) (or_empty (lookup ident m))) d.descs
        ∙ dequeue-beside side w1 ident p
        ∙ rw f.descs;
    elsewhere = λ fd x.
        r.elsewhere fd x
        ∙ ap (lookup fd) d.descs
        ∙ dequeue-elsewhere side w1 ident p fd x
        ∙ ap (lookup fd) f.descs;
  }

  -- On an open watcher whose invariant holds, handleEvents' loop over a queue answers the requests
  -- of an initial part of it, in their order, and leaves the rest, the other queue of the descriptor
  -- and all other descriptors as they are.
  pub retry-Ordered :
      (side : Side) (w : Watcher) (ident : ℕ) (ps : List ℕ)
      → Inv w
      → w.die ≡ false
      → queue_of side (desc_of w ident) ≡ ps
      → Ordered side w ident (retry k side w ident ps)
  unfolding retry
  retry-Ordered side w ident [] v on e = Ordered-refl side w ident
  retry-Ordered side w ident (p ∷ ps) v on e = elim (Bool-cases (try_side k side w ident p).0) [
    | inr blocked ↦
        let f = try_side-Frame k side w ident p in
        rw blocked (record {
          answered = [];
          split = rw f.descs;
          results = f.results ∙ sym (append-nil w.results);
          beside = rw f.descs;
          elsewhere = λ fd x. rw f.descs;
        })
    | inl done ↦
        let tried = (try_side k side w ident p).1 in
        let next = deliver k (dequeue tried ident side p) p in
        let a = pass-Passed k side w ident p ps v e in
        let r = retry-Ordered side next ident ps a.keeps.inv (a.keeps.die ∙ on) a.rest in
        rw done (Ordered-cons side w tried next ident p ps a.frame on e a.delivered a.rest r)
  ]

  retry_if-Ordered :
      (b : Bool) (side : Side) (w : Watcher) (ident : ℕ)
      → Inv w
      → w.die ≡ false
      → Ordered side w ident (retry_if k b side w ident)
  unfolding retry_if
  retry_if-Ordered true side w ident v on = retry-Ordered side w ident _ v on refl
  retry_if-Ordered false side w ident v on = Ordered-refl side w ident

  -- On an open watcher whose invariant holds, one readiness event answers an initial part of the
  -- descriptor's readers and then an initial part of its writers, each in the order of submission;
  -- what is left of the queues is the rest of them, chResults grows by exactly the answered
  -- requests, and no other descriptor changes. An event for an unknown descriptor answers nothing.
  pub handle_event-Served :
      (w : Watcher) (e : Event) → Inv w → w.die ≡ false → Served w e.ident (handle_event k w e)
  unfolding handle_event
  handle_event-Served w e v on = elim (Bool-cases (is_some (lookup e.ident w.descs))) [
    | inr stale ↦ rw stale (record {
      read = [];
      written = [];
      readers = refl;
      writers = refl;
      results = sym (append-nil w.results);
      elsewhere = λ fd x. refl;
    })
    | inl known ↦
        let w1 = retry_if k (ready e.ev ev_read) readers w e.ident in
        let first = retry_if-Keeps k (ready e.ev ev_read) readers w e.ident v in
        let a = retry_if-Ordered (ready e.ev ev_read) readers w e.ident v on in
        let b =
          retry_if-Ordered (ready e.ev ev_write) writers w1 e.ident first.inv (first.die ∙ on) in
        rw known (record {
          read = a.answered;
          written = b.answered;
          readers = a.split ∙ ap (λ q. a.answered ++ q) (sym b.beside);
          writers = sym a.beside ∙ b.split;
          results =
              b.results
              ∙ ap (λ q. q ++ b.answered) a.results
              ∙ append_assoc w.results a.answered b.answered;
          elsewhere = λ fd x. b.elsewhere fd x ∙ a.elsewhere fd x;
        })
  ]
