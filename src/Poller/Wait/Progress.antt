-- ===== src/Poller/Wait/Progress.antt =====
-- The way of a batch from a poller that has found it back to the head of the poller's loop
-- (aio_linux.go, aio_bsd.go, aio_windows.go, watcher.go).
use gaio.Common.{
  ℕ, suc, arith, ◌≤◌, ◌≡◌, Bool, true, false, List, [], ◌∷◌, ◌++◌, Option, none, some, take, refl,
  ap, sym, ◌∙◌, ◌&&◌, ◌⊎◌, ◌≢◌, inl, inr,
}
use gaio.Types.{Error, Event}
use gaio.Kernel.{Kernel}
use gaio.System.{System}
use gaio.Poller.Wait.{
  polls, leaves, quits, others, adjusts, Poller, Machine, Message, Stage, top, sending, awaiting,
  finished, Worker, idle, holding, acking, gone, handle, handle_err, begin, Move, puts, resumes,
  receives, handles, acks, Moves, start, later,
}
use gaio.Poller.Wait.Sync.{
  Waits, waits_awaiting, waits_finished, after_send-Waits, rests_gone, to_send, in_channel,
  in_hands, to_ack, acked, unacked, free_finished, Flight, Rests, rests_idle, free_top, no_batch,
}
use gaio.Poller.Wait.Delivery.{Log-none, Log-some, Moves-Sync, begin-Sync}

and-both : (a b : Bool) → (a && b) ≡ true → (a ≡ true) × (b ≡ true)
and-both a b e = ground arith

unfoldable pub steps : {p : Poller} {k : Kernel} {m n : Machine p} → Moves p k m n → ℕ
steps start = 0
steps (later r st) = suc (steps r)

-- A step of the hand-over: a send or a receive on chSignal, the handling of a signal, or the send or
-- receive of its acknowledgement. The rest are passes that poll, ends on `die`, and other callers.
abbrev pub hands_over : {p : Poller} {k : Kernel} {m n : Machine p} → Move p k m n → Bool
hands_over (puts e c) = true
hands_over (resumes e d) = true
hands_over (receives e c) = true
hands_over (handles e) = true
hands_over (acks e d) = true
hands_over (polls r e h) = false
hands_over (leaves h) = false
hands_over (quits h e) = false
hands_over (others st h) = false
hands_over (adjusts x) = false

unfoldable pub all_hand_over : {p : Poller} {k : Kernel} {m n : Machine p} → Moves p k m n → Bool
all_hand_over start = true
all_hand_over (later r st) = all_hand_over r && hands_over st

module _ {p : Poller} {k : Kernel} where
  unfoldable pub first : {m n o : Machine p} → Move p k m n → Moves p k n o → Moves p k m o
  first st start = later start st
  first st (later r x) = later (first st r) x

  pub steps-first :
      {m n o : Machine p} (st : Move p k m n) (r : Moves p k n o)
      → steps (first st r) ≡ suc (steps r)
  unfolding steps first
  steps-first st start = refl
  steps-first st (later r x) = ap suc (steps-first st r)

  all_hand_over-first :
      {m n o : Machine p} (st : Move p k m n) (r : Moves p k n o)
      → hands_over st ≡ true
      → all_hand_over r ≡ true
      → all_hand_over (first st r) ≡ true
  unfolding all_hand_over first
  all_hand_over-first st start a b = a
  all_hand_over-first st (later r x) a b =
      let (c, d) = and-both (all_hand_over r) (hands_over x) b in
      rw (all_hand_over-first st r a c, d) refl

-- A run of at most `b` steps of the hand-over after which all that the poller had found is handled, and it is back
-- at the head of its loop, or has returned, or the watcher's loop has ended.
pub record Settles (p : Poller) (k : Kernel) (b : ℕ) (m : Machine p) : Type 0 where
  pub last : Machine p
  pub run : Moves p k m last
  pub short : steps run ≤ b
  pub own : all_hand_over run ≡ true
  pub polled : last.polled ≡ m.polled
  pub handled : last.handled ≡ m.polled
  pub stands : (last.stage ≡ top) ⊎ ((last.stage ≡ finished) ⊎ (last.worker ≡ gone))

Waits-cases : {s : Stage} → Waits s → (s ≡ awaiting) ⊎ (s ≡ finished)
Waits-cases waits_awaiting = inl refl
Waits-cases waits_finished = inr refl

Rests-idle : {w : Worker} → Rests w → w ≢ gone → w ≡ idle
Rests-idle rests_idle e = refl
Rests-idle rests_gone e = absurd (e refl)

module _ {p : Poller} {k : Kernel} where
  step-Settles :
      {m n : Machine p} {b : ℕ} (st : Move p k m n)
      → hands_over st ≡ true
      → n.polled ≡ m.polled
      → Settles p k b n
      → Settles p k (suc b) m
  step-Settles st a e r = record {
    last = r.last;
    run = first st r.run;
    short = omega (arith, steps-first st r.run, r.short);
    own = all_hand_over-first st r.run a r.own;
    polled = r.polled ∙ e;
    handled = r.handled ∙ e;
    stands = r.stands;
  }

  rest-Settles :
      (m : Machine p)
      → m.polled ≡ m.handled
      → (m.stage ≡ top) ⊎ ((m.stage ≡ finished) ⊎ (m.worker ≡ gone))
      → (b : ℕ) → Settles p k b m
  unfolding steps all_hand_over
  rest-Settles m e h b = record {
    last = m;
    run = start;
    short = omega arith;
    own = refl;
    polled = refl;
    handled = sym e;
    stands = h;
  }

  acked-Settles :
      (m : Machine p) → Waits m.stage → m.done ≡ true → m.polled ≡ m.handled → Settles p k 1 m
  acked-Settles m v d e = elim (Waits-cases v) [
    | inl a ↦ step-Settles (resumes a d) refl refl (rest-Settles _ e (inl refl) 0)
    | inr f ↦ rest-Settles m e (inr (inl f)) 1
  ]

  to_ack-Settles :
      (m : Machine p)
      → Waits m.stage
      → m.worker ≡ acking
      → m.done ≡ false
      → m.polled ≡ m.handled
      → Settles p k 2 m
  to_ack-Settles m v w d e = step-Settles (acks w d) refl refl (acked-Settles _ v refl e)

  in_hands-Settles :
      (m : Machine p) (msg : Message)
      → Waits m.stage
      → m.worker ≡ holding msg
      → m.done ≡ false
      → m.polled ≡ m.handled ++ take msg.count m.array ∷ []
      → Settles p k 3 m
  unfolding handle handle_err
  in_hands-Settles m msg v w d e = step-Settles (handles w) refl (same msg.err) (go msg.err)
    where
      same : (x : Option Error) → (handle_err p k m (take msg.count m.array) x).polled ≡ m.polled
      same none = refl
      same (some x) = refl

      go : (x : Option Error) → Settles p k 2 (handle_err p k m (take msg.count m.array) x)
      go none = to_ack-Settles _ v refl d e
      go (some x) = rest-Settles _ e (inr (inr refl)) 2

  in_channel-Settles :
      (m : Machine p) (msg : Message)
      → Waits m.stage
      → m.worker ≡ idle
      → m.channel ≡ some msg
      → m.done ≡ false
      → m.polled ≡ m.handled ++ take msg.count m.array ∷ []
      → Settles p k 4 m
  in_channel-Settles m msg v w c d e =
      step-Settles (receives w c) refl refl (in_hands-Settles _ msg v refl d e)

  to_send-Settles :
      (m : Machine p) (msg : Message) (last : Bool)
      → m.stage ≡ sending msg last
      → m.worker ≡ idle
      → m.channel ≡ none
      → m.done ≡ false
      → m.polled ≡ m.handled ++ take msg.count m.array ∷ []
      → Settles p k 5 m
  to_send-Settles m msg last s w c d e =
      step-Settles (puts s c) refl refl
        (in_channel-Settles _ msg (after_send-Waits last) w refl d e)

  more-Settles : {m : Machine p} {b : ℕ} (c : ℕ) → b ≤ c → Settles p k b m → Settles p k c m
  more-Settles c h r = record {
    last = r.last;
    run = r.run;
    short = omega (arith, r.short);
    own = r.own;
    polled = r.polled;
    handled = r.handled;
    stands = r.stands;
  }

-- Where the batch is while neither has ended.
pub data Where (s : Stage) (c : Option Message) (d : Bool) (w : Worker) (o : Option Message)
    : Type 0 where
  nowhere : s ≡ top → o ≡ none → Where s c d w o
  with_poller :
      (msg : Message) (last : Bool)
      → s ≡ sending msg last
      → w ≡ idle
      → c ≡ none
      → d ≡ false
      → o ≡ some msg
      → Where s c d w o
  between :
      (msg : Message)
      → Waits s
      → w ≡ idle
      → c ≡ some msg
      → d ≡ false
      → o ≡ some msg
      → Where s c d w o
  with_worker :
      (msg : Message) → Waits s → w ≡ holding msg → d ≡ false → o ≡ some msg → Where s c d w o
  with_token : Waits s → w ≡ acking → d ≡ false → o ≡ none → Where s c d w o
  token_back : Waits s → d ≡ true → o ≡ none → Where s c d w o

locate :
    {s : Stage} {c : Option Message} {d : Bool} {w : Worker} {o : Option Message}
    → Flight s c d w o
    → s ≢ finished
    → w ≢ gone
    → Where s c d w o
locate (no_batch free_top r) h g = nowhere refl refl
locate (no_batch free_finished r) h g = absurd (h refl)
locate (to_send r) h g = with_poller _ _ refl (Rests-idle r g) refl refl refl
locate (in_channel v r) h g = between _ v (Rests-idle r g) refl refl refl
locate (in_hands v) h g = with_worker _ v refl refl refl
locate (to_ack v) h g = with_token v refl refl refl
locate (acked v r) h g = token_back v refl refl
locate (unacked v) h g = absurd (g refl)

-- From every state of a poller and the watcher's loop in which neither has ended, at most five steps
-- of the hand-over alone - a send or a receive on chSignal, the handling of a signal, a send or a
-- receive of its acknowledgement - lead to a state in which every signal built so far is handled,
-- and where the poller is back at the head of its loop or has returned, or the watcher's loop has
-- ended.
pub Moves-Settles :
    {p : Poller} {k : Kernel} (s : System) (x : p.State) (a : List Event) (m : Machine p)
    → Moves p k (begin s x a) m
    → m.stage ≢ finished
    → m.worker ≢ gone
    → Settles p k 5 m
Moves-Settles s x a m r h g =
    let v = Moves-Sync r (begin-Sync s x a) in
    elim (locate v.flight h g) [
      | nowhere e o ↦ rest-Settles m (Log-none v.log o h) (inl e) 5
      | with_poller msg last e w c d o ↦ to_send-Settles m msg last e w c d (Log-some v.log msg o)
      | between msg z w c d o ↦
          more-Settles 5 (omega arith) (in_channel-Settles m msg z w c d (Log-some v.log msg o))
      | with_worker msg z w d o ↦
          more-Settles 5 (omega arith) (in_hands-Settles m msg z w d (Log-some v.log msg o))
      | with_token z w d o ↦
          more-Settles 5 (omega arith) (to_ack-Settles m z w d (Log-none v.log o h))
      | token_back z d o ↦ more-Settles 5 (omega arith) (acked-Settles m z d (Log-none v.log o h))
    ]
