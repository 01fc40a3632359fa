-- ===== src/System/Fate.antt =====
-- What a step of the watcher does to a request that waits for its answer or for WaitIO
-- (watcher.go).
use gaio.Common.{
  ℕ, ◌+◌, ◌<◌, ◌≡◌, ◌≢◌, refl, sym, ap, subst, ◌∙◌, ◌⊎◌, inl, inr, Bool, false, List, [], ◌∷◌,
  Option, none, some, arith, if_both, ◌||◌, ◌==◌, count, count-append, Bool-cases, length, ltb,
}
use gaio.Types.{Error, op_delete}
use gaio.Kernel.{Kernel}
use gaio.Watcher.{Watcher, cb_of, set_cb}
use gaio.Watcher.Invariant.{tally, Frame-aside}
use gaio.Watcher.Keeps.{Keeps, Keeps-trans, Frame-Keeps, handle_events-Keeps}
use gaio.Watcher.Keeps.Release.{handle_gc-Keeps}
use gaio.Watcher.Keeps.Expiry.{expire-Expired}
use gaio.Watcher.Keeps.Requests.{asked}
use gaio.Watcher.Keeps.Batch.{handle_pending-Batched}
use gaio.System.{System, Request, new_cb, aio_create, create_at, submit, stop}
use gaio.System.Collect.{Waited, clear_refs, recycle, take_results, wait_io}
use gaio.System.Loop.{finalize, on_pending, on_signal, on_timer, on_gc}
use gaio.System.Step.{Step, request, wait, pending, events, timer, gc, final, close}
use gaio.System.Places.{IsSafe, Got, get_cb-Got}
use gaio.System.Safety.{pending-IsBatch}

-- How often a request stands where it waits for an answer or for WaitIO.
abbrev pub in_hand : System → ℕ → ℕ
in_hand s p = count p s.pending_create + tally s.watcher p

-- The request is still with the watcher, and asks for the same.
pub record Held (s t : System) (p : ℕ) : Type 0 where
  pub still : in_hand t p ≡ 1
  pub asks : asked (cb_of t.watcher p) ≡ asked (cb_of s.watcher p)

-- Or this call of WaitIO has returned it.
abbrev pub Fate : System → System → ℕ → Type 0
Fate s t p = Held s t p ⊎ (0 < count p t.recycles)

Keeps-Fate :
    (s : System) (w : Watcher) (p : ℕ)
    → Keeps s.watcher w
    → in_hand s p ≡ 1
    → w.die ≡ false
    → Fate s (record s { watcher = w }) p
Keeps-Fate s w p k one on = inl (record {
  still = omega (arith, k.none_lost (sym k.die ∙ on) p);
  asks = ground (arith, k.tags p);
})

clear_refs-other :
    (w : Watcher) (ps : List ℕ) (p : ℕ) → count p ps ≡ 0 → (cb_of (clear_refs w ps) p ≡ cb_of w p)
unfolding clear_refs
clear_refs-other w [] p h = refl
clear_refs-other w (q ∷ ps) p h =
    ground (arith, clear_refs-other (set_cb w q (record (cb_of w q) { ctx = 0; conn = 0 })) ps p)

pub clear_refs-descs : (w : Watcher) (ps : List ℕ) → (clear_refs w ps).descs ≡ w.descs
unfolding clear_refs
clear_refs-descs w [] = refl
clear_refs-descs w (q ∷ ps) =
    clear_refs-descs (set_cb w q (record (cb_of w q) { ctx = 0; conn = 0 })) ps

recycle-Fate : (s : System) (p : ℕ) → in_hand s p ≡ 1 → Fate s (recycle s) p
unfolding recycle
recycle-Fate s p one = inl (record { still = one; asks = refl })

take_results-Fate : (s : System) (p : ℕ) → in_hand s p ≡ 1 → Fate s (take_results (recycle s)).0 p
unfolding take_results recycle
take_results-Fate s p one = elim (Bool-cases (ltb 0 (count p s.watcher.results))) [
  | inl taken ↦ inr (ground arith)
  | inr left ↦
      let same = clear_refs-other s.watcher s.watcher.results p (ground arith) in
      inl (record {
        still = rw (clear_refs-descs s.watcher s.watcher.results) (ground arith);
        asks = ap asked same;
      })
]

abbrev FateWait : System → ℕ → Option (System × Waited) → Type 0
FateWait s p none = Unit {0}
FateWait s p (some (t, x)) = Fate s t p

wait_io-FateWait :
    (prefer : Bool) (s : System) (p : ℕ) → in_hand s p ≡ 1 → FateWait s p (wait_io prefer s)
unfolding wait_io
wait_io-FateWait prefer s p one =
    let r = recycle-Fate s p one in
    let a = take_results-Fate s p one in
    if_both (FateWait s p) (length s.watcher.results == 0) _ _
      (if_both (FateWait s p) (s.watcher.die || s.loop_done) _ _ r tt)
      (if_both (FateWait s p) (s.watcher.die || s.loop_done) _ _
        (if_both (FateWait s p) prefer _ _ a r) a)

submit-Fate :
    (s s1 : System) (q : ℕ) (r : Request) (ptr p : ℕ)
    → Got s (q, s1)
    → in_hand s p ≡ 1
    → Fate s (submit q s1 r ptr).0 p
unfolding submit
submit-Fate s s1 q r ptr p g one =
    if_both (λ (x : System × Option Error). Fate s x.0 p) s1.watcher.die _ _
      (inl (record { still = still; asks = asks }))
      (inl (record {
        still = ground (arith, count-append p s1.pending_create (q ∷ []), still, differ);
        asks = asks;
      }))
  where
    tallied : tally s1.watcher p ≡ tally s.watcher p
    tallied = ap (λ (w : Watcher). tally w p) g.watcher

    still : in_hand s1 p ≡ 1
    still =
        ap (λ (l : List ℕ). count p l + tally s1.watcher p) g.create
        ∙ ap (λ (n : ℕ). count p s.pending_create + n) tallied
        ∙ one

    differ : (q == p) ≡ false
    differ = ground (arith, g.free, still)

    asks : asked (cb_of (set_cb s1.watcher q (new_cb r ptr)) p) ≡ asked (cb_of s.watcher p)
    asks = rw differ (ap (λ (w : Watcher). asked (cb_of w p)) g.watcher)

module _ (k : Kernel) where
  -- From a safe state, for any kernel, a step of the state machine that leaves the watcher open
  -- loses no request to read or write that stands once in pendingCreate, the queues and chResults
  -- taken together: afterwards it stands there once and asks for the same, with every field as
  -- aioCreate set it but those that record its progress, or it is among the recycles, where WaitIO
  -- puts what it returns.
  pub Step-Fate :
      {s t : System}
      → Step k s t
      → IsSafe s
      → (p : ℕ) → in_hand s p ≡ 1
      → (cb_of s.watcher p).op ≢ op_delete
      → t.watcher.die ≡ false
      → Fate s t p
  unfolding on_signal on_timer on_gc finalize stop on_pending aio_create create_at
  Step-Fate (request {s} pick r none proper) v p one op on =
      inl (record { still = one; asks = refl })
  Step-Fate (request {s} pick r (some ptr) proper) v p one op on = elim (Bool-cases (ptr == 0)) [
    | inl null ↦ rw null (inl (record { still = one; asks = refl }))
    | inr real ↦ rw real (submit-Fate s _ _ r ptr p (get_cb-Got pick s v.unique v.unused) one)
  ]
  Step-Fate (wait {s} {t} {x} prefer e) v p one op on =
      subst (FateWait s p) e (wait_io-FateWait prefer s p one)
  Step-Fate (pending {s} e) v p one op on =
      let b = handle_pending-Batched k s.watcher s.pending_create v.inv (pending-IsBatch s v) in
      let open_before : s.watcher.die ≡ false = sym b.die ∙ on in
      inl (record {
        still = elim (Bool-cases (ltb 0 (count p s.pending_create))) [
          | inl new ↦ omega (arith, b.taken open_before p (ground arith) op)
          | inr old ↦ ground (arith, b.none_lost open_before p, b.inv.once p)
        ];
        asks = b.asks p;
      })
  Step-Fate (events {s} sig e) v p one op on =
      let on' = rw e at on in
      rw e (Keeps-Fate s _ p (handle_events-Keeps k s.watcher sig.events v.inv) one on')
  Step-Fate (timer {s} now) v p one op on =
      let a = Frame-Keeps v.inv (Frame-aside refl refl refl refl refl) in
      Keeps-Fate s _ p (Keeps-trans a (expire-Expired k s.watcher now v.inv).keeps) one on
  Step-Fate (gc {s} e) v p one op on =
      let a = Frame-Keeps v.inv (Frame-aside refl refl refl refl refl) in
      Keeps-Fate s _ p (Keeps-trans a (handle_gc-Keeps k _ a.inv)) one on
  Step-Fate (final {s} c u) v p one op on = inl (record { still = one; asks = refl })
  Step-Fate (close {s}) v p one op on = elim (Bool-cases s.watcher.die) [
    | inl off ↦ absurd (ground arith)
    | inr open_before ↦ absurd (ground arith)
  ]
