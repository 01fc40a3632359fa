-- ===== src/Flow/Progress/Finish.antt =====
-- Every handler of the loop ends (watcher.go), whatever is in the queues, and WaitIO returns what
-- it delivers.

use gaio.Common.{
  ℕ, zero, suc, ◌≤◌, ◌<◌, ◌≡◌, ◌≢◌, refl, ◌∙◌, sym, ap, List, [], ◌∷◌, arith, ltb, length, lookup,
  is_some, Bool-cases, Option-cases, inl, inr, ◌⊎◌,
}
use gaio.Types.{Side, readers, writers, Event, ev_read, ev_write}
use gaio.Timed.{at}
use gaio.Timed.Bodies.{length-pop}
use gaio.Kernel.{Kernel}
use gaio.Watcher.{Watcher, cb_of, try_side}
use gaio.Watcher.Handlers.{is_empty, ready}
use gaio.Watcher.Fuel.{time_out-length, is_empty-some}
use gaio.Flow.{Flow, Turns, still}
use gaio.Flow.Jobs.{
  Job, idle, pendings, eventing, retrying, expiring, releasing, begin_writers, begin_readers,
  after_side, expire_one, retry_one, work,
}
use gaio.Flow.Whole.{with_results}
use gaio.Flow.Progress.{Going, Turns-trans}
use gaio.Flow.Progress.Room.{one_piece}

module _ (k : Kernel) (cap : ℕ) (pos : 0 < cap) where
  -- At the start of a piece.
  pub record Ready (f : Flow) : Type 0 where
    pub going : Going cap f
    pub empty : f.outbox ≡ []

  abbrev pub Done : Flow → Type 0
  Done f = (g : Flow) × Turns k cap f g × Ready g × (g.job ≡ idle)

  abbrev pub Ends : Job → Type 0
  Ends j = (f : Flow) → Ready f → f.job ≡ j → Done f

  -- A piece of the handler `j`.
  piece_of :
      (f : Flow) (j : Job)
      → Ready f
      → f.job ≡ j
      → j ≢ idle
      → (let r = work k (with_results f.system.watcher []) j in
          (g : Flow) × Turns k cap f g
          × Ready g
          × (g.job ≡ r.1)
          × (g.system.watcher.timed.arr ≡ r.0.timed.arr))
  piece_of f j v e busy =
      let r = λ (j' : Job). work k (with_results f.system.watcher []) j' in
      let (g, ts, v', o, same, a) = one_piece k cap f v.going pos v.empty (λ x. busy (sym e ∙ x)) in
      (
        g,
        ts,
        record { going = v'; empty = o },
        same ∙ ap (λ j'. (r j').1) e,
        a ∙ ap (λ j'. (r j').0.timed.arr) e,
      )

  Done-later : {f g : Flow} → Turns k cap f g → Done g → Done f
  Done-later ts (h, us, w, i) = (h, Turns-trans k cap ts us, w, i)

  -- If the job after a piece ends, so does the job before it.
  by_piece :
      (f : Flow) (j j' : Job)
      → Ready f
      → f.job ≡ j
      → j ≢ idle
      → (work k (with_results f.system.watcher []) j).1 ≡ j'
      → Ends j'
      → Done f
  by_piece f j j' v e busy step ends =
      let (g, ts, v', same, a) = piece_of f j v e busy in Done-later ts (ends g v' (same ∙ step))

  idle-Ends : Ends idle
  idle-Ends f v e = (f, still, v, e)

  pendings-Ends : (ps : List ℕ) → Ends (pendings ps)
  unfolding work
  pendings-Ends [] f v e = by_piece f (pendings []) idle v e (λ x. cc) refl idle-Ends
  pendings-Ends (p ∷ ps) f v e =
      by_piece f (pendings (p ∷ ps)) (pendings ps) v e (λ x. cc) refl (pendings-Ends ps)

  releasing-Ends : (cs : List ℕ) → Ends (releasing cs)
  unfolding work
  releasing-Ends [] f v e = by_piece f (releasing []) idle v e (λ x. cc) refl idle-Ends
  releasing-Ends (c ∷ cs) f v e =
      by_piece f (releasing (c ∷ cs)) (releasing cs) v e (λ x. cc) refl (releasing-Ends cs)

  -- A loop over a queue ends if what follows it does.
  retrying-Ends :
      (side : Side) (e : Event) (es : List Event) (ps : List ℕ)
      → ((w : Watcher) → Ends (after_side side w e es))
      → Ends (retrying side e ps es)
  unfolding work retry_one
  retrying-Ends side e es [] rest f v x =
      let w = with_results f.system.watcher [] in
      by_piece f (retrying side e [] es) (after_side side w e es) v x (λ y. cc) refl (rest w)
  retrying-Ends side e es (p ∷ ps) rest f v x =
      let w = with_results f.system.watcher [] in
      let t = try_side k side w e.ident p in
      elim (Bool-cases t.0) [
        | inl done ↦
            by_piece f (retrying side e (p ∷ ps) es) (retrying side e ps es) v x (λ y. cc)
              (rw done refl) (retrying-Ends side e es ps rest)
        | inr blocked ↦
            by_piece f (retrying side e (p ∷ ps) es) (after_side side t.1 e es) v x (λ y. cc)
              (rw blocked refl) (rest t.1)
      ]

  writers-Ends :
      (e : Event) (es : List Event)
      → Ends (eventing es)
      → (w : Watcher) → Ends (begin_writers w e es)
  writers-Ends e es rest w f v x = elim (Bool-cases (ready e.ev ev_write)) [
    | inl on ↦ retrying-Ends writers e es _ (λ w'. rest) f v (rw on at x)
    | inr off ↦ rest f v (rw off at x)
  ]

  readers-Ends :
      (e : Event) (es : List Event)
      → Ends (eventing es)
      → (w : Watcher) → Ends (begin_readers w e es)
  readers-Ends e es rest w f v x = elim (Bool-cases (ready e.ev ev_read)) [
    | inl on ↦ retrying-Ends readers e es _ (writers-Ends e es rest) f v (rw on at x)
    | inr off ↦ writers-Ends e es rest w f v (rw off at x)
  ]

  eventing-Ends : (es : List Event) → Ends (eventing es)
  unfolding work
  eventing-Ends [] f v x = by_piece f (eventing []) idle v x (λ y. cc) refl idle-Ends
  eventing-Ends (e ∷ es) f v x =
      let w = with_results f.system.watcher [] in
      elim (Bool-cases (is_some (lookup e.ident w.descs))) [
        | inl known ↦
            by_piece f (eventing (e ∷ es)) (begin_readers w e es) v x (λ y. cc) (rw known refl)
              (readers-Ends e es (eventing-Ends es) w)
        | inr stale ↦
            by_piece f (eventing (e ∷ es)) (eventing es) v x (λ y. cc) (rw stale refl)
              (eventing-Ends es)
      ]

  -- A round of the timer's loop ends it or leaves a smaller heap.
  expire_one-falls :
      (w : Watcher) (now : ℕ)
      → ((expire_one k w now).1 ≡ idle)
        ⊎ (((expire_one k w now).1 ≡ expiring now)
            × (length (expire_one k w now).0.timed.arr < length w.timed.arr))
  unfolding expire_one
  expire_one-falls w now = elim (Bool-cases (is_empty w.timed.arr)) [
    | inl e ↦ rw e (inl refl)
    | inr e ↦
        let there = is_empty-some w.timed.arr e in
        let p = at w.timed 0 in
        rw e (elim (Option-cases (cb_of w p).idx) [
          | inl out ↦ let n = length-pop w.timed there in rw out (inr (refl, omega arith))
          | inr (i, held) ↦ rw held (elim (Bool-cases (ltb (cb_of w p).deadline now)) [
            | inr on_time ↦ rw on_time (inl refl)
            | inl late ↦ let n = time_out-length k w p there in rw late (inr (refl, omega arith))
          ])
        ])
  ]

  expiring_piece :
      (f : Flow) (now : ℕ)
      → Ready f
      → f.job ≡ expiring now
      → ((g : Flow)
          → Ready g
          → g.job ≡ expiring now
          → length g.system.watcher.timed.arr < length f.system.watcher.timed.arr
          → Done g)
      → Done f
  unfolding work
  expiring_piece f now v x rest =
      let w = with_results f.system.watcher [] in
      let (g, ts, v', same, a) = piece_of f (expiring now) v x (λ y. cc) in
      elim (expire_one-falls w now) [
        | inl over ↦ (g, ts, v', same ∙ over)
        | inr (goes, less) ↦
            let l = ap (λ xs. length xs) a in Done-later ts (rest g v' (same ∙ goes) (omega arith))
      ]

  expiring-Ends :
      (n now : ℕ) (f : Flow)
      → length f.system.watcher.timed.arr ≤ n
      → Ready f
      → f.job ≡ expiring now
      → Done f
  unfolding work
  expiring-Ends zero now f h v x = expiring_piece f now v x (λ g v' y l. absurd (omega arith))
  expiring-Ends (suc n) now f h v x =
      expiring_piece f now v x (λ g v' y l. expiring-Ends n now g (omega arith) v' y)

  pub job-Ends : (j : Job) → Ends j
  job-Ends idle = idle-Ends
  job-Ends (pendings ps) = pendings-Ends ps
  job-Ends (eventing es) = eventing-Ends es
  job-Ends (retrying readers e ps es) =
      retrying-Ends readers e es ps (writers-Ends e es (eventing-Ends es))
  job-Ends (retrying writers e ps es) = retrying-Ends writers e es ps (λ w. eventing-Ends es)
  job-Ends (expiring now) =
      λ f v x. expiring-Ends (length f.system.watcher.timed.arr) now f (omega arith) v x
  job-Ends (releasing cs) = releasing-Ends cs
