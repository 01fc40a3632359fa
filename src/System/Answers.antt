-- ===== src/System/Answers.antt =====
-- From a submitted request to its result (watcher.go).
use gaio.Common.{
  ℕ, ◌<◌, ◌≡◌, ◌≢◌, refl, sym, ap, subst, ◌∙◌, ◌⊎◌, inl, inr, Bool, false, List, [], ◌∷◌, ◌++◌, map,
  Option, none, some, arith, if_both, ◌||◌, ◌==◌, count, Bool-cases, length, ==_iff,
}
use gaio.Types.{op_delete, Aiocb, OpResult}
use gaio.Kernel.{Kernel}
use gaio.Watcher.{cb_of}
use gaio.Watcher.Keeps.Requests.{asked}
use gaio.System.{System}
use gaio.System.Collect.{Waited, returned, result_of, recycle, take_results, wait_io}
use gaio.System.Step.{Step, Reach, here, next}
use gaio.System.Places.{IsSafe}
use gaio.System.Safety.{Reach-IsSafe}
use gaio.System.Open.{Step-recycles, Step-open}
use gaio.System.Fate.{in_hand, Held, Step-Fate}

-- A call of WaitIO in the state `u`, which returns the result of the request `p`.
pub record Returns (s u v : System) (p : ℕ) : Type 0 where
  pub prefer : Bool
  pub before : List OpResult
  pub result : OpResult
  pub after : List OpResult
  pub call : wait_io prefer u ≡ some (v, returned (before ++ result ∷ after))
  pub context : result.context ≡ (cb_of s.watcher p).ctx
  pub operation : result.operation ≡ (cb_of s.watcher p).op
  pub conn : result.conn ≡ (cb_of s.watcher p).conn

-- The run from `s` to `t` has a call of WaitIO that returns the result of `p`.
pub record Answered (k : Kernel) (s t : System) (p : ℕ) : Type 0 where
  pub u : System
  pub v : System
  pub to : Reach k s u
  pub returns : Returns s u v p
  pub from : Reach k v t

-- A list with `p` in it, mapped.
record Split (f : ℕ → OpResult) (p : ℕ) (ps : List ℕ) : Type 0 where
  before : List OpResult
  after : List OpResult
  split : map f ps ≡ before ++ f p ∷ after

count-Split : (f : ℕ → OpResult) (p : ℕ) (ps : List ℕ) → 0 < count p ps → Split f p ps
count-Split f p [] h = absurd (omega arith)
count-Split f p (q ∷ ps) h = elim (Bool-cases (p == q)) [
  | inl e ↦
      let same : p ≡ q = (==_iff p q).0 e in
      record { before = []; after = map f ps; split = ap (λ x. f x ∷ map f ps) (sym same) }
  | inr e ↦
      let r = count-Split f p ps (ground arith) in
      record { before = f q ∷ r.before; after = r.after; split = ap (λ l. f q ∷ l) r.split }
]

-- WaitIO puts a request among the recycles only with all that is queued.
abbrev WaitAnswers : System → ℕ → Option (System × Waited) → Type 0
WaitAnswers s p none = Unit {0}
WaitAnswers s p (some (t, x)) =
    0 < count p t.recycles
    → (x ≡ returned (map (λ q. result_of (cb_of s.watcher q)) s.watcher.results))
      × (0 < count p s.watcher.results)

wait_io-WaitAnswers : (prefer : Bool) (s : System) (p : ℕ) → WaitAnswers s p (wait_io prefer s)
unfolding wait_io recycle take_results
wait_io-WaitAnswers prefer s p =
    if_both (WaitAnswers s p) (length s.watcher.results == 0) _ _
      (if_both (WaitAnswers s p) (s.watcher.die || s.loop_done) _ _ (λ h. absurd (omega arith)) tt)
      (if_both (WaitAnswers s p) (s.watcher.die || s.loop_done) _ _
        (if_both (WaitAnswers s p) prefer _ _ (λ h. (refl, h)) (λ h. absurd (omega arith)))
        (λ h. (refl, h)))

module _ (k : Kernel) where
  Step-Answered :
      {s t : System}
      → Step k s t
      → IsSafe s
      → (p : ℕ) → in_hand s p ≡ 1
      → (cb_of s.watcher p).op ≢ op_delete
      → t.watcher.die ≡ false
      → Held s t p ⊎ Returns s s t p
  Step-Answered {s} {t} st v p one op on = elim (Step-Fate k st v p one op on) [
    | inl h ↦ inl h
    | inr r ↦ elim (Step-recycles st) [
      | inl same ↦ absurd (omega (arith, v.unique p, ap (count p) same))
      | inr (prefer, x, e) ↦
          let (all, there) = subst (WaitAnswers s p) e (wait_io-WaitAnswers prefer s p) r in
          let f = λ (q : ℕ). result_of (cb_of s.watcher q) in
          let c = count-Split f p s.watcher.results there in
          inr (record {
            prefer = prefer;
            before = c.before;
            result = f p;
            after = c.after;
            call = e ∙ ap (λ (y : Waited). some (t, y)) (all ∙ ap returned c.split);
            context = refl;
            operation = refl;
            conn = refl;
          })
    ]
  ]

  asked-Returns :
      {s u v : System} {p : ℕ}
      → asked (cb_of u.watcher p) ≡ asked (cb_of s.watcher p)
      → Returns u u v p
      → Returns s u v p
  asked-Returns e r = record {
    prefer = r.prefer;
    before = r.before;
    result = r.result;
    after = r.after;
    call = r.call;
    context = r.context ∙ ap (λ (cb : Aiocb). cb.ctx) e;
    operation = r.operation ∙ ap (λ (cb : Aiocb). cb.op) e;
    conn = r.conn ∙ ap (λ (cb : Aiocb). cb.conn) e;
  }

  -- From a safe state, for any kernel and any run that leaves the watcher open: a request to read or
  -- write that stands once in pendingCreate, the queues and chResults taken together is not lost. At
  -- the end of the run it stands there once and asks for the same, with every field as aioCreate set
  -- it but those that record its progress; or a WaitIO on the way has returned a result with its
  -- context, operation and connection.
  pub Reach-Answered :
      {s t : System}
      → Reach k s t
      → IsSafe s
      → (p : ℕ) → in_hand s p ≡ 1
      → (cb_of s.watcher p).op ≢ op_delete
      → t.watcher.die ≡ false
      → Held s t p ⊎ Answered k s t p
  Reach-Answered here v p one op on = inl (record { still = one; asks = refl })
  Reach-Answered {s} {t} (next {t = u} r st) v p one op on =
      let v' = Reach-IsSafe k v r in
      elim (Reach-Answered r v p one op (Step-open k st v' on)) [
        | inl h ↦
            let same : (cb_of u.watcher p).op ≡ (cb_of s.watcher p).op =
              ap (λ (cb : Aiocb). cb.op) h.asks in
            elim (Step-Answered st v' p h.still (λ e. op (sym same ∙ e)) on) [
              | inl h' ↦ inl (record { still = h'.still; asks = h'.asks ∙ h.asks })
              | inr a ↦
                  inr
                    (record { u = u; v = t; to = r; returns = asked-Returns h.asks a; from = here })
            ]
        | inr a ↦
            inr (record { u = a.u; v = a.v; to = a.to; returns = a.returns; from = next a.from st })
      ]
