-- ===== src/Watcher/Deliver.antt =====
-- deliver and the attempts to transfer (watcher.go): what they change of the state.
use gaio.Common.{
  ℕ, ◌+◌, ◌-◌, ◌≤◌, ◌≡◌, refl, false, [], ◌∷◌, ◌++◌, none, some, arith, if◌then◌else◌, ◌==◌, count,
  count-append, Option-cases, inl, inr,
}
use gaio.Types.{Side, readers, writers, Error, buffer_length}
use gaio.Timed.Track.{body}
use gaio.Timed.Push.{IsValid, holds}
use gaio.Timed.Laws.{remove_at-Removed}
use gaio.Kernel.{Kernel}
use gaio.Transfer.Laws.{read_step-fixed, write_step-fixed}
use gaio.Transfer.{choose_buffer}
use gaio.Watcher.{
  Watcher, cb_of, set_err, dequeue, try_read, try_write, try_side, untrack_at, send, deliver,
}
use gaio.Watcher.Invariant.{Frame}
use gaio.Watcher.Invariant.Moves.{Settled}
use gaio.Watcher.Invariant.Park.{Answered}

-- `w'` is `w` with `p` taken out of the heap and put at the end of chResults, or dropped after a
-- shutdown.
pub record Delivered (w : Watcher) (p : ℕ) (w' : Watcher) : Type 0 where
  pub heap : IsValid w'.timed
  pub members : (q : ℕ) → holds w'.timed q ≡ (if p == q then false else holds w.timed q)
  pub bodies : (q : ℕ) → body (cb_of w' q) ≡ body (cb_of w q)
  pub descs : w'.descs ≡ w.descs
  pub conn_idents : w'.conn_idents ≡ w.conn_idents
  pub die : w'.die ≡ w.die
  pub sent : w.die ≡ false → w'.results ≡ w.results ++ p ∷ []
  pub still : (cb_of w p).idx ≡ none → w'.timed ≡ w.timed
  pub timer : w'.timer ≡ w.timer
  pub closed_fds : w'.closed_fds ≡ w.closed_fds
  pub dropped : (q : ℕ) → count q w'.results ≤ (if p == q then 1 else 0) + count q w.results

pub set_err-Frame : (w : Watcher) (p : ℕ) (e : Error) → Frame w (set_err w p e)
set_err-Frame w p e = record {
  arr = refl;
  idx = λ q. ground arith;
  tags = λ q. ground arith;
  descs = refl;
  conn_idents = refl;
  results = refl;
  die = refl;
}

module _ (k : Kernel) where
  send-results :
      (w : Watcher) (p q : ℕ)
      → count q (send k w p).results ≤ (if p == q then 1 else 0) + count q w.results
  unfolding send
  send-results w p q = ground (arith, count-append q w.results (p ∷ []))

  -- On a valid heap, deliver leaves a valid heap without the request and with all others; while the
  -- watcher is open the request is appended to chResults, and after a shutdown chResults gains at
  -- most this request; the requests' other fields, the maps, the timer, `die` and the closed
  -- descriptors do not change, nor does the heap if the request was not in it.
  pub deliver-Delivered : (w : Watcher) (p : ℕ) → IsValid w.timed → Delivered w p (deliver k w p)
  unfolding deliver
  deliver-Delivered w p v = elim (Option-cases (cb_of w p).idx) [
    | inl e ↦ rw e (record {
      heap = v;
      members = λ q. ground arith;
      bodies = λ q. refl;
      descs = refl;
      conn_idents = refl;
      die = refl;
      sent = λ on. ground arith;
      still = λ out. refl;
      timer = refl;
      closed_fds = refl;
      dropped = send-results w p;
    })
    | inr (i, e) ↦
        let (_, r) = remove_at-Removed w.timed p i v e in
        rw e (record {
          heap = r.valid;
          members = r.members;
          bodies = r.bodies;
          descs = refl;
          conn_idents = refl;
          die = refl;
          sent = λ on. ground arith;
          still = λ out. cc;
          timer = refl;
          closed_fds = refl;
          dropped = send-results (untrack_at (some i) w p) p;
        })
  ]

  -- A queued request whose attempt is complete leaves its queue before it is delivered.
  pub settle-Settled :
      (w : Watcher) (ident : ℕ) (side : Side) (p : ℕ)
      → IsValid w.timed
      → Settled w p ident side (deliver k (dequeue w ident side p) p)
  unfolding dequeue
  settle-Settled w ident side p v =
      let r = deliver-Delivered (dequeue w ident side p) p v in
      record {
        heap = r.heap;
        members = r.members;
        tags = λ q. ground (arith, r.bodies q);
        descs = r.descs;
        conn_idents = r.conn_idents;
        results = r.dropped;
        sent = λ on q. ground (arith, r.sent on, count-append q w.results (p ∷ []));
        die = r.die;
      }

  -- A new request that is complete at once is only delivered.
  pub deliver-Answered :
      (w : Watcher) (p : ℕ)
      → IsValid w.timed
      → (cb_of w p).idx ≡ none
      → Answered w p (deliver k w p)
  deliver-Answered w p v out =
      let r = deliver-Delivered w p v in
      record {
        heap = r.heap;
        members = λ q. ground (arith, r.members q);
        tags = λ q. ground (arith, r.bodies q);
        descs = r.descs;
        conn_idents = r.conn_idents;
        results = r.dropped;
        sent = λ on q. ground (arith, r.sent on, count-append q w.results (p ∷ []));
        die = r.die;
      }

  -- An attempt to transfer changes no more than the request's error, size and buffer, the shared
  -- buffers and the kernel.
  try_read-Frame : (w : Watcher) (fd p : ℕ) → Frame w (try_read k w fd p).1
  unfolding try_read
  try_read-Frame w fd p =
      let c = choose_buffer w.shared (cb_of w p).buffer in
      let reply = k.read w.calls fd (buffer_length c.buf - (cb_of w p).size) in
      let f = read_step-fixed c (cb_of w p) reply in
      record {
        arr = refl;
        idx = λ q. ground (arith, f);
        tags = λ q. ground (arith, f);
        descs = refl;
        conn_idents = refl;
        results = refl;
        die = refl;
      }

  try_write-Frame : (w : Watcher) (fd p : ℕ) → Frame w (try_write k w fd p).1
  unfolding try_write
  try_write-Frame w fd p =
      let cb = cb_of w p in
      let reply = k.write w.calls fd (buffer_length cb.buffer - cb.size) in
      let f = write_step-fixed cb reply in
      record {
        arr = refl;
        idx = λ q. ground (arith, f);
        tags = λ q. ground (arith, f);
        descs = refl;
        conn_idents = refl;
        results = refl;
        die = refl;
      }

  pub try_side-Frame : (side : Side) (w : Watcher) (fd p : ℕ) → Frame w (try_side k side w fd p).1
  unfolding try_side
  try_side-Frame readers = try_read-Frame
  try_side-Frame writers = try_write-Frame
