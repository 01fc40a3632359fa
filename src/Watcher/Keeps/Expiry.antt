-- ===== src/Watcher/Keeps/Expiry.antt =====
-- The timer's case of the watcher's loop (watcher.go): the requests whose deadlines have passed,
-- and the others.
use gaio.Common.{
  ℕ, zero, suc, ◌≤◌, ◌<◌, ◌≡◌, refl, ◌∙◌, Bool, true, false, [], ◌∷◌, none, some, arith,
  if◌then◌else◌, ◌==◌, ltb, ◌&&◌, count, count-append, Bool-cases, inl, inr, length, ==_refl,
}
use gaio.Types.{Side, deadline_exceeded}
use gaio.Timed.{at, due, pop}
use gaio.Timed.Track.{body}
use gaio.Timed.Push.{holds}
use gaio.Timed.Laws.{forget, pop-Removed, root_least, holds_none}
use gaio.Kernel.{Kernel}
use gaio.Watcher.{Watcher, cb_of, set_err, queue_of, desc_of, dequeue, deliver}
use gaio.Watcher.Handlers.{is_empty, unqueue, time_out, expire_loop, expire}
use gaio.Watcher.Invariant.{Inv, Frame-aside, Frame-Inv, Frame-IsValid, queued-lookup}
use gaio.Watcher.Invariant.Moves.{Settled}
use gaio.Watcher.Deliver.{deliver-Delivered, set_err-Frame}
use gaio.Watcher.Keeps.{Keeps, Keeps-refl, Keeps-trans, Frame-Keeps, Settled-Keeps}

-- The root of the heap waits in the queue that it records.
pub record Rooted (w : Watcher) : Type 0 where
  pub fd : ℕ
  pub side : Side
  pub placed : (cb_of w (at w.timed 0)).place ≡ some (record { fd = fd; side = side })
  pub waits : 0 < count (at w.timed 0) (queue_of side (desc_of w fd))

pub root-Rooted : (w : Watcher) → Inv w → 0 < length w.timed.arr → Rooted w
root-Rooted w v pos =
    let p = at w.timed 0 in
    let held : holds w.timed p ≡ true = ground (arith, v.heap.tracks.fwd 0 pos) in
    let (fd, side, waits) = queued-lookup p w.descs v.single (v.waiting p held) in
    record { fd = fd; side = side; placed = v.placed p fd side waits; waits = waits }

-- What answering the root `p` with ErrDeadline changes.
pub record TimedOut (w : Watcher) (p fd : ℕ) (side : Side) (w' : Watcher) : Type 0 where
  pub settled : Settled w p fd side w'
  pub size : suc (length w'.timed.arr) ≡ length w.timed.arr
  pub err : (cb_of w' p).err ≡ some deadline_exceeded
  pub others : (q : ℕ) → (p == q) ≡ false → body (cb_of w' q) ≡ body (cb_of w q)
  pub timer : w'.timer ≡ w.timer

module _ (k : Kernel) where
  pub time_out-TimedOut :
      (w : Watcher) (fd : ℕ) (side : Side)
      → Inv w
      → 0 < length w.timed.arr
      → (cb_of w (at w.timed 0)).place ≡ some (record { fd = fd; side = side })
      → TimedOut w (at w.timed 0) fd side (time_out k w (at w.timed 0))
  unfolding time_out unqueue dequeue
  time_out-TimedOut w fd side v pos placed =
      let p = at w.timed 0 in
      let w1 = set_err w p deadline_exceeded in
      let f = set_err-Frame w p deadline_exceeded in
      let (_, r) = pop-Removed w1.timed (Frame-IsValid f v.heap) pos in
      let e : (cb_of w1 p).place ≡ some (record { fd = fd; side = side }) =
        ground (arith, f.tags p) in
      let w2 = dequeue w1 fd side p in
      let w3 = record w2 { timed = forget (pop w1.timed).1 p } in
      let d = deliver-Delivered k w3 p r.valid in
      let s : Settled w p fd side (deliver k w3 p) = record {
        heap = d.heap;
        members = λ q. ground (arith, d.members q, r.members q, f.idx q);
        tags = λ q. ground (arith, d.bodies q, r.bodies q, f.tags q);
        descs = d.descs;
        conn_idents = d.conn_idents;
        results = d.dropped;
        sent = λ on q. ground (arith, d.sent on, count-append q w.results (p ∷ []));
        die = d.die;
      } in
      let t : TimedOut w p fd side (deliver k w3 p) = record {
        settled = s;
        size = ground (arith, d.still (ground (arith, ==_refl p)), r.size);
        err = ground (arith, d.bodies p, r.bodies p, ==_refl p);
        others = λ q ne. ground (arith, d.bodies q, r.bodies q);
        timer = d.timer;
      } in
      rw e t

-- A request in the heap whose deadline has passed.
abbrev pub is_late : Watcher → ℕ → ℕ → Bool
is_late w now q = holds w.timed q && ltb (cb_of w q).deadline now

-- What the timer's case gives: exactly the late requests have left the heap, with ErrDeadline, the
-- others are as they were, and the timer is set for the earliest deadline that is left.
pub record Expired (w : Watcher) (now : ℕ) (w' : Watcher) : Type 0 where
  pub keeps : Keeps w w'
  pub members : (q : ℕ) → holds w'.timed q ≡ (if is_late w now q then false else holds w.timed q)
  pub answered : (q : ℕ) → is_late w now q ≡ true → (cb_of w' q).err ≡ some deadline_exceeded
  pub untouched : (q : ℕ) → is_late w now q ≡ false → body (cb_of w' q) ≡ body (cb_of w q)
  pub rearmed :
      w.timer ≡ none → w'.timer ≡ (if is_empty w'.timed.arr then none else some (due w'.timed 0))

idle-Expired : (w : Watcher) (now : ℕ) → Inv w → length w.timed.arr ≡ 0 → Expired w now w
idle-Expired w now v e = record {
  keeps = Keeps-refl v;
  members = λ q. ground (arith, holds_none w.timed q v.heap e);
  answered = λ q h. ground (arith, holds_none w.timed q v.heap e);
  untouched = λ q h. refl;
  rearmed = λ t. rw t (ground arith);
}

-- The root is not late, so nothing is.
settled-Expired :
    (w : Watcher) (now : ℕ)
    → Inv w
    → 0 < length w.timed.arr
    → now ≤ due w.timed 0
    → Expired w now (record w { timer = some (due w.timed 0) })
settled-Expired w now v pos h = record {
  keeps = Frame-Keeps v (Frame-aside refl refl refl refl refl);
  members = λ q. ground (arith, root_least w.timed q v.heap);
  answered = λ q e. ground (arith, root_least w.timed q v.heap);
  untouched = λ q e. refl;
  rearmed = λ t. ground arith;
}

late-Expired :
    (w w1 w2 : Watcher) (now fd : ℕ) (side : Side)
    → Keeps w w1
    → TimedOut w (at w.timed 0) fd side w1
    → is_late w now (at w.timed 0) ≡ true
    → Expired w1 now w2
    → Expired w now w2
late-Expired w w1 w2 now fd side k t late x = record {
  keeps = Keeps-trans k x.keeps;
  members = λ q. ground (arith, x.members q, t.settled.members q, t.settled.tags q);
  answered = λ q e. ground (
    arith,
    x.answered q,
    x.untouched q,
    t.settled.members q,
    t.settled.tags q,
    t.err,
    t.others q,
  );
  untouched =
      λ q e. ground (arith, x.untouched q, t.settled.members q, t.settled.tags q, t.others q);
  rearmed = λ e. x.rearmed (t.timer ∙ e);
}

module _ (k : Kernel) where
  expire_loop-Expired :
      (f : ℕ) (w : Watcher) (now : ℕ)
      → Inv w
      → length w.timed.arr ≤ f
      → Expired w now (expire_loop k f w now)
  unfolding expire_loop
  expire_loop-Expired zero w now v h = idle-Expired w now v (omega arith)
  expire_loop-Expired (suc f) w now v h = elim (Bool-cases (is_empty w.timed.arr)) [
    | inl e ↦ rw e (idle-Expired w now v (ground arith))
    | inr e ↦
        let p = at w.timed 0 in
        let pos : 0 < length w.timed.arr = ground arith in
        let held : holds w.timed p ≡ true = ground (arith, v.heap.tracks.fwd 0 pos) in
        rw (e, held)
          (elim (Bool-cases (ltb (cb_of w p).deadline now)) [
            | inr on_time ↦ rw on_time (settled-Expired w now v pos (ground arith))
            | inl late ↦
                let r = root-Rooted w v pos in
                let w1 = time_out k w p in
                let t = time_out-TimedOut k w r.fd r.side v pos r.placed in
                let kept = Settled-Keeps w w1 p r.fd r.side v r.waits t.settled in
                rw late (
                  late-Expired w w1 (expire_loop k f w1 now) now r.fd r.side kept t (ground arith)
                    (expire_loop-Expired f w1 now kept.inv (omega (arith, t.size))))
          ])
  ]

  -- On a watcher whose invariant holds, the timer's case at the time `now` keeps the invariant; no
  -- request gains a place among the queues and chResults, and while the watcher is open none loses
  -- one; exactly the requests of the heap with a deadline before `now` leave the heap, and they have
  -- the error ErrDeadline; every other request is as before, up to its index; the timer is set to
  -- the earliest deadline that is left, or stopped if none is.
  pub expire-Expired :
      (w : Watcher) (now : ℕ) → Inv w → Expired (record w { timer = none }) now (expire k w now)
  unfolding expire
  expire-Expired w now v =
      expire_loop-Expired (length w.timed.arr) (record w { timer = none }) now
        (Frame-Inv {w = w} (Frame-aside refl refl refl refl refl) v) (omega arith)
