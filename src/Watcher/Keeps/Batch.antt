-- ===== src/Watcher/Keeps/Batch.antt =====
-- handlePending (watcher.go) on a whole batch of requests.
use gaio.Common.{
  ℕ, ◌+◌, ◌≤◌, ◌<◌, ◌≡◌, ◌≢◌, refl, ◌∙◌, false, List, [], ◌∷◌, arith, ◌==◌, count, Bool-cases, inl,
  inr, ==_refl,
}
use gaio.Types.{op_delete}
use gaio.Kernel.{Kernel}
use gaio.Watcher.{Watcher, cb_of}
use gaio.Watcher.Handlers.{handle_request, handle_pending}
use gaio.Watcher.Invariant.{tally, Inv}
use gaio.Watcher.Keeps.Requests.{Handled, asked}
use gaio.Watcher.Keeps.Register.{IsNew, handle_request-Handled}

-- `w'` has the requests of `w` and those of the batch.
pub record Batched (w : Watcher) (ps : List ℕ) (w' : Watcher) : Type 0 where
  pub inv : Inv w'
  pub no_more : (q : ℕ) → tally w' q ≤ tally w q + count q ps
  pub none_lost : w.die ≡ false → (q : ℕ) → tally w q ≤ tally w' q
  pub taken : w.die ≡ false → (q : ℕ) → 0 < count q ps → (cb_of w q).op ≢ op_delete → tally w' q ≡ 1
  pub asks : (q : ℕ) → asked (cb_of w' q) ≡ asked (cb_of w q)
  pub die : w'.die ≡ w.die

-- The requests of a batch are new and differ from each other.
pub record IsBatch (w : Watcher) (ps : List ℕ) : Type 0 where
  pub new : (q : ℕ) → 0 < count q ps → IsNew w q
  pub distinct : (q : ℕ) → count q ps ≤ 1

IsBatch-tail :
    {w w' : Watcher} {p : ℕ} {ps : List ℕ} → IsBatch w (p ∷ ps) → Handled w p w' → IsBatch w' ps
IsBatch-tail {w} {w'} {p} {ps} b h = record {
  new = λ q in_ps. record {
    nowhere = ground (arith, h.no_more q, b.distinct q, (b.new q (omega arith)).nowhere);
    frees = λ e. ground (arith, h.asks q, (b.new q (omega arith)).frees);
  };
  distinct = λ q. omega (arith, b.distinct q);
}

module _ (k : Kernel) where
  -- On a watcher whose invariant holds and a batch of distinct requests that are in no queue and not
  -- in chResults, with no deadline on a Free, handlePending keeps the invariant; no request gains a
  -- place but those of the batch, which gain one at most; while the watcher is open none loses its
  -- place, and each of the batch that is to read or write is afterwards in exactly one queue or in
  -- chResults; what the requests ask for and whether the watcher is closed do not change.
  pub handle_pending-Batched :
      (w : Watcher) (ps : List ℕ) → Inv w → IsBatch w ps → Batched w ps (handle_pending k w ps)
  unfolding handle_pending
  handle_pending-Batched w [] v b = record {
    inv = v;
    no_more = λ q. omega arith;
    none_lost = λ on q. omega arith;
    taken = λ on q h. absurd (omega arith);
    asks = λ q. refl;
    die = refl;
  }
  handle_pending-Batched w (p ∷ ps) v b =
      let w1 = handle_request k w p in
      let first = handle_request-Handled k w p v (b.new p (ground (arith, ==_refl p))) in
      let rest = handle_pending-Batched w1 ps first.inv (IsBatch-tail b first) in
      record {
        inv = rest.inv;
        no_more = λ q. ground (arith, first.no_more q, rest.no_more q);
        none_lost = λ on q. omega (arith, first.none_lost on q, rest.none_lost (first.die ∙ on) q);
        taken = λ on q h op. elim (Bool-cases (p == q)) [
          | inl e ↦
              let same : p ≡ q = ground arith in
              rw (← same) (
                omega (
                  arith,
                  first.taken on (rw same op),
                  rest.none_lost (first.die ∙ on) p,
                  rest.inv.once p,
                ))
          | inr e ↦ rest.taken (first.die ∙ on) q (ground arith) (ground (arith, first.asks q))
        ];
        asks = λ q. rest.asks q ∙ first.asks q;
        die = rest.die ∙ first.die;
      }
