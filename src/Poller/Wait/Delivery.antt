-- ===== src/Poller/Wait/Delivery.antt =====
-- The hand-over of batches of events by a poller to the watcher's loop (aio_linux.go, aio_bsd.go,
-- aio_windows.go, watcher.go).
use gaio.Common.{
  ◌≡◌, Bool, true, false, List, [], ◌∷◌, ◌++◌, Option, none, some, length, take, refl, ap, subst,
  ◌⊎◌, ◌≢◌, inl, inr,
}
use gaio.Types.{Error, Event, Signal}
use gaio.Kernel.{Kernel}
use gaio.System.{System}
use gaio.Poller.Rounds.{Next, again, over, sends, sends_last}
use gaio.Poller.Wait.{
  Poller, Machine, Message, Stage, top, sending, finished, holding, acking, overwrite, build,
  proceed, poll, handle, handle_err, begin, Move, polls, puts, resumes, leaves, receives, handles,
  acks, quits, others, adjusts, Moves, start, later,
}
use gaio.Poller.Wait.Sync.{
  Flight, rests_idle, free_top, no_batch, at_top, at_put, at_resume, at_receive, at_handle, at_ack,
  at_quit, at_end, keeps, drops, at_free, at_channel,
}

-- The first elements of an overwritten array are those written.
take-overwrite : (es xs : List Event) → take (length es) (overwrite es xs) ≡ es
unfolding overwrite
take-overwrite es [] = take_all es
  where
    take_all : (es : List Event) → take (length es) es ≡ es
    take_all [] = refl
    take_all (e ∷ es) = ap (λ x. e ∷ x) (take_all es)
take-overwrite [] (x ∷ xs) = refl
take-overwrite (e ∷ es) (x ∷ xs) = ap (λ y. e ∷ y) (take-overwrite es xs)

-- The batches: all handled, all but the one in flight, whose events the array holds, or all but the
-- last one, which the poller dropped when it ended.
pub data Log
    : Stage → Option Message → List Event → List (List Event) → List (List Event) → Type 0 where
  settled : {s : Stage} {a : List Event} {h : List (List Event)} → Log s none a h h
  open_batch :
      {s : Stage} {msg : Message} {a : List Event} {h : List (List Event)}
      → Log s (some msg) a (h ++ take msg.count a ∷ []) h
  dropped :
      {a : List Event} {h : List (List Event)} (b : List Event)
      → Log finished none a (h ++ b ∷ []) h

pub record Sync {p : Poller} (m : Machine p) : Type 0 where
  pub batch : Option Message
  pub flight : Flight m.stage m.channel m.done m.worker batch
  pub log : Log m.stage batch m.array m.polled m.handled

pub begin-Sync :
    {p : Poller} (s : System) (x : p.State) (a : List Event) → Sync (begin {p = p} s x a)
unfolding begin
begin-Sync s x a = record { batch = none; flight = no_batch free_top rests_idle; log = settled }

-- Only the end of the poller drops a batch.
pub Log-none :
    {s : Stage} {o : Option Message} {a : List Event} {ps hs : List (List Event)}
    → Log s o a ps hs
    → o ≡ none
    → s ≢ finished
    → ps ≡ hs
Log-none settled e h = refl
Log-none open_batch e h = cc
Log-none (dropped b) e h = absurd (h refl)

pub Log-some :
    {s : Stage} {o : Option Message} {a : List Event} {ps hs : List (List Event)}
    → Log s o a ps hs
    → (msg : Message) → o ≡ some msg
    → ps ≡ hs ++ take msg.count a ∷ []
Log-some settled msg e = cc
Log-some open_batch msg e = cc
Log-some (dropped b) msg e = cc

not_finished : {s : Stage} → s ≡ top → s ≢ finished
not_finished e h = cc

Log-move :
    {s : Stage} {o : Option Message} {a : List Event} {ps hs : List (List Event)}
    → Log s o a ps hs
    → s ≢ finished
    → (t : Stage) → Log t o a ps hs
Log-move settled e t = settled
Log-move open_batch e t = open_batch
Log-move (dropped b) e t = absurd (e refl)

Log-end :
    {s : Stage} {o : Option Message} {a : List Event} {ps hs : List (List Event)}
    → Log s o a ps hs
    → Log finished o a ps hs
Log-end settled = settled
Log-end open_batch = open_batch
Log-end (dropped b) = dropped b

module _ {p : Poller} where
  build-Sync :
      (m : Machine p) (sig : Signal) (last : Bool)
      → Sync m
      → m.stage ≡ top
      → Sync (build p m sig last)
  unfolding build
  build-Sync m sig last v e =
      let (o, f, g) = at_top v.flight e in
      record {
        batch = some (record { count = length sig.events; err = sig.err });
        flight = f _ last;
        log = rw (Log-none v.log o (not_finished e)) (
            subst
              (λ es.
                Log (sending (record { count = length sig.events; err = sig.err }) last)
                  (some (record { count = length sig.events; err = sig.err }))
                  (overwrite sig.events m.array) (m.handled ++ es ∷ []) m.handled)
              (take-overwrite sig.events m.array) open_batch);
      }

  proceed-Sync : (m : Machine p) (n : Next) → Sync m → m.stage ≡ top → Sync (proceed p m n)
  unfolding proceed
  proceed-Sync m again v e = v
  proceed-Sync m over v e =
      let (o, f, g) = at_top v.flight e in
      record { batch = none; flight = g; log = rw (Log-none v.log o (not_finished e)) settled }
  proceed-Sync m (sends sig) v e = build-Sync m sig false v e
  proceed-Sync m (sends_last sig) v e = build-Sync m sig true v e

  handle_err-Sync :
      (k : Kernel) (m : Machine p) (msg : Message) (x : Option Error)
      → Sync m
      → m.worker ≡ holding msg
      → Sync (handle_err p k m (take msg.count m.array) x)
  unfolding handle_err
  handle_err-Sync k m msg none v e =
      let (o, f, g) = at_handle v.flight msg e in
      record { batch = none; flight = f; log = rw (Log-some v.log msg o) settled }
  handle_err-Sync k m msg (some x) v e =
      let (o, f, g) = at_handle v.flight msg e in
      record { batch = none; flight = g; log = rw (Log-some v.log msg o) settled }

  end-Sync : (m : Machine p) → Sync m → Sync (record m { stage = finished })
  end-Sync m v = elim (at_end v.flight) [
    | keeps f ↦ record { batch = v.batch; flight = f; log = Log-end v.log }
    | drops msg o f ↦ record {
      batch = none;
      flight = f;
      log = rw (Log-some v.log msg o) (dropped _);
    }
  ]

  Move-Sync : {k : Kernel} {m n : Machine p} → Move p k m n → Sync m → Sync n
  unfolding poll handle
  Move-Sync {m = m} (polls r e h) v =
      proceed-Sync (record m { state = (p.round m.state r).0 }) (p.round m.state r).1
        (record { batch = v.batch; flight = v.flight; log = v.log }) e
  Move-Sync {m = m} (puts {msg = msg} {last = last} e c) v =
      let (o, f) = at_put v.flight msg last e in
      record { batch = some msg; flight = f; log = rw (Log-some v.log msg o) open_batch }
  Move-Sync (resumes e d) v =
      let (o, f) = at_resume v.flight d in
      record { batch = v.batch; flight = f; log = Log-move v.log (λ x. cc) top }
  Move-Sync {m = m} (leaves h) v = end-Sync m v
  Move-Sync (receives {msg = msg} i c) v =
      let (o, f) = at_receive v.flight msg i c in
      record { batch = some msg; flight = f; log = rw (Log-some v.log msg o) open_batch }
  Move-Sync {k = k} {m = m} (handles {msg = msg} e) v = handle_err-Sync k m msg msg.err v e
  Move-Sync (acks e d) v = record { batch = v.batch; flight = at_ack v.flight e; log = v.log }
  Move-Sync (quits e h) v = record { batch = v.batch; flight = at_quit v.flight h; log = v.log }
  Move-Sync (others st h) v = record { batch = v.batch; flight = v.flight; log = v.log }
  Move-Sync (adjusts x) v = record { batch = v.batch; flight = v.flight; log = v.log }

  pub Moves-Sync : {k : Kernel} {m n : Machine p} → Moves p k m n → Sync m → Sync n
  Moves-Sync start v = v
  Moves-Sync (later r st) v = Move-Sync st (Moves-Sync r v)

Log-order :
    {s : Stage} {o : Option Message} {a : List Event} {ps hs : List (List Event)}
    → Log s o a ps hs
    → (ps ≡ hs) ⊎ ((b : List Event) × (ps ≡ hs ++ b ∷ []))
Log-order settled = inl refl
Log-order open_batch = inr (_, refl)
Log-order (dropped b) = inr (b, refl)

-- What the loop has handled against what the poller has found.
pub record Delivered {p : Poller} (m : Machine p) : Type 0 where
  pub order : (m.polled ≡ m.handled) ⊎ ((b : List Event) × (m.polled ≡ m.handled ++ b ∷ []))
  pub settled_top : m.stage ≡ top → m.polled ≡ m.handled
  pub intact :
      (msg : Message)
      → (m.channel ≡ some msg) ⊎ (m.worker ≡ holding msg)
      → m.polled ≡ m.handled ++ take msg.count m.array ∷ []
  pub room_ack : m.worker ≡ acking → m.done ≡ false
  pub room_signal : (msg : Message) (last : Bool) → m.stage ≡ sending msg last → m.channel ≡ none

Sync-Delivered : {p : Poller} (m : Machine p) → Sync m → Delivered m
Sync-Delivered m v = record {
  order = Log-order v.log;
  settled_top = λ e. Log-none v.log (at_top v.flight e).0 (not_finished e);
  intact = λ msg h. elim h [
    | inl e ↦ Log-some v.log msg (at_channel v.flight msg e)
    | inr e ↦ Log-some v.log msg (at_handle v.flight msg e).0
  ];
  room_ack = (at_free v.flight).0;
  room_signal = (at_free v.flight).1;
}

-- Whatever the passes of a poller find, after any steps of Wait, of the watcher's loop and of other
-- goroutines from their start: the loop has handled the signals that the poller has built, each once
-- and in their order, all of them or all but the last; it has handled all when the poller is at the
-- head of its loop; a signal in the channel, or in the loop's hands, is the last one built, and the
-- array that both share still holds its events; and neither the send of a signal nor that of an
-- acknowledgement finds its channel full.
pub begin-Delivered :
    {p : Poller} {k : Kernel} (s : System) (x : p.State) (a : List Event) (m : Machine p)
    → Moves p k (begin s x a) m
    → Delivered m
begin-Delivered s x a m r = Sync-Delivered m (Moves-Sync r (begin-Sync s x a))
