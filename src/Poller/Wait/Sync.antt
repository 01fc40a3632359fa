-- ===== src/Poller/Wait/Sync.antt =====
-- Where a batch of events is between a poller and the watcher's loop (aio_linux.go, aio_bsd.go,
-- aio_windows.go, watcher.go).
use gaio.Common.{◌≡◌, Bool, true, false, Option, none, some, refl, ◌⊎◌, ◌≢◌, inl, inr}
use gaio.Poller.Wait.{
  Message, Stage, top, sending, awaiting, finished, Worker, idle, holding, acking, gone, after_send,
}

-- The worker in its select, or at its end.
pub data Rests : Worker → Type 0 where
  rests_idle : Rests idle
  rests_gone : Rests gone

-- The poller at the head of its loop, or at its end.
pub data Free : Stage → Type 0 where
  free_top : Free top
  free_finished : Free finished

-- The poller before the acknowledgement, or at its end.
pub data Waits : Stage → Type 0 where
  waits_awaiting : Waits awaiting
  waits_finished : Waits finished

-- Where the batch in flight is: stage, channel, done, worker, and the batch if it is not handled.
pub data Flight : Stage → Option Message → Bool → Worker → Option Message → Type 0 where
  no_batch : {s : Stage} {w : Worker} → Free s → Rests w → Flight s none false w none
  to_send :
      {msg : Message} {last : Bool} {w : Worker}
      → Rests w
      → Flight (sending msg last) none false w (some msg)
  in_channel :
      {s : Stage} {msg : Message} {w : Worker}
      → Waits s
      → Rests w
      → Flight s (some msg) false w (some msg)
  in_hands : {s : Stage} {msg : Message} → Waits s → Flight s none false (holding msg) (some msg)
  to_ack : {s : Stage} → Waits s → Flight s none false acking none
  acked : {s : Stage} {w : Worker} → Waits s → Rests w → Flight s none true w none
  unacked : {s : Stage} → Waits s → Flight s none false gone none

Waits-top : {s : Stage} → Waits s → s ≢ top
Waits-top waits_awaiting e = cc
Waits-top waits_finished e = cc

Waits-sending : {s : Stage} {msg : Message} {last : Bool} → Waits s → s ≢ sending msg last
Waits-sending waits_awaiting e = cc
Waits-sending waits_finished e = cc

pub after_send-Waits : (last : Bool) → Waits (after_send last)
after_send-Waits true = waits_finished
after_send-Waits false = waits_awaiting

Rests-holding : {w : Worker} {msg : Message} → Rests w → w ≢ holding msg
Rests-holding rests_idle e = cc
Rests-holding rests_gone e = cc

Rests-acking : {w : Worker} → Rests w → w ≢ acking
Rests-acking rests_idle e = cc
Rests-acking rests_gone e = cc

-- The place of the batch after each step.
pub at_top :
    {s : Stage} {c : Option Message} {d : Bool} {w : Worker} {o : Option Message}
    → Flight s c d w o
    → s ≡ top
    → (o ≡ none)
      × ((msg : Message) (last : Bool) → Flight (sending msg last) c d w (some msg))
      × Flight finished c d w none
at_top (no_batch f r) e = (refl, λ msg last. to_send r, no_batch free_finished r)
at_top (to_send r) e = cc
at_top (in_channel v r) e = absurd (Waits-top v e)
at_top (in_hands v) e = absurd (Waits-top v e)
at_top (to_ack v) e = absurd (Waits-top v e)
at_top (acked v r) e = absurd (Waits-top v e)
at_top (unacked v) e = absurd (Waits-top v e)

pub at_put :
    {s : Stage} {c : Option Message} {d : Bool} {w : Worker} {o : Option Message}
    → Flight s c d w o
    → (msg : Message) (last : Bool) → s ≡ sending msg last
    → (o ≡ some msg) × Flight (after_send last) (some msg) d w (some msg)
at_put (no_batch free_top r) msg last e = cc
at_put (no_batch free_finished r) msg last e = cc
at_put (to_send r) msg last e = (cc, in_channel (after_send-Waits last) r)
at_put (in_channel v r) msg last e = absurd (Waits-sending v e)
at_put (in_hands v) msg last e = absurd (Waits-sending v e)
at_put (to_ack v) msg last e = absurd (Waits-sending v e)
at_put (acked v r) msg last e = absurd (Waits-sending v e)
at_put (unacked v) msg last e = absurd (Waits-sending v e)

pub at_resume :
    {s : Stage} {c : Option Message} {d : Bool} {w : Worker} {o : Option Message}
    → Flight s c d w o
    → d ≡ true
    → (o ≡ none) × Flight top c false w o
at_resume (no_batch f r) e = cc
at_resume (to_send r) e = cc
at_resume (in_channel v r) e = cc
at_resume (in_hands v) e = cc
at_resume (to_ack v) e = cc
at_resume (acked v r) e = (refl, no_batch free_top r)
at_resume (unacked v) e = cc

pub at_receive :
    {s : Stage} {c : Option Message} {d : Bool} {w : Worker} {o : Option Message}
    → Flight s c d w o
    → (msg : Message) → w ≡ idle
    → c ≡ some msg
    → (o ≡ some msg) × Flight s none d (holding msg) (some msg)
at_receive (no_batch f r) msg i e = cc
at_receive (to_send r) msg i e = cc
at_receive (in_channel v r) msg i e = (e, in_hands v)
at_receive (in_hands v) msg i e = cc
at_receive (to_ack v) msg i e = cc
at_receive (acked v r) msg i e = cc
at_receive (unacked v) msg i e = cc

pub at_handle :
    {s : Stage} {c : Option Message} {d : Bool} {w : Worker} {o : Option Message}
    → Flight s c d w o
    → (msg : Message) → w ≡ holding msg
    → (o ≡ some msg) × Flight s c d acking none × Flight s c d gone none
at_handle (no_batch f r) msg e = absurd (Rests-holding r e)
at_handle (to_send r) msg e = absurd (Rests-holding r e)
at_handle (in_channel v r) msg e = absurd (Rests-holding r e)
at_handle (in_hands v) msg e = (cc, to_ack v, unacked v)
at_handle (to_ack v) msg e = cc
at_handle (acked v r) msg e = absurd (Rests-holding r e)
at_handle (unacked v) msg e = cc

pub at_ack :
    {s : Stage} {c : Option Message} {d : Bool} {w : Worker} {o : Option Message}
    → Flight s c d w o
    → w ≡ acking
    → Flight s c true idle o
at_ack (no_batch f r) e = absurd (Rests-acking r e)
at_ack (to_send r) e = absurd (Rests-acking r e)
at_ack (in_channel v r) e = absurd (Rests-acking r e)
at_ack (in_hands v) e = cc
at_ack (to_ack v) e = acked v rests_idle
at_ack (acked v r) e = absurd (Rests-acking r e)
at_ack (unacked v) e = cc

pub at_quit :
    {s : Stage} {c : Option Message} {d : Bool} {w : Worker} {o : Option Message}
    → Flight s c d w o
    → (w ≡ idle) ⊎ (w ≡ acking)
    → Flight s c d gone o
at_quit (no_batch f r) e = no_batch f rests_gone
at_quit (to_send r) e = to_send rests_gone
at_quit (in_channel v r) e = in_channel v rests_gone
at_quit (in_hands v) (inl e) = cc
at_quit (in_hands v) (inr e) = cc
at_quit (to_ack v) e = unacked v
at_quit (acked v r) e = acked v rests_gone
at_quit (unacked v) e = unacked v

-- The poller ends: a batch that is not in the channel yet is dropped.
pub data Ending (c : Option Message) (d : Bool) (w : Worker) (s : Stage) (o : Option Message)
    : Type 0 where
  keeps : Flight finished c d w o → Ending c d w s o
  drops : (msg : Message) → o ≡ some msg → Flight finished c d w none → Ending c d w s o

pub at_end :
    {s : Stage} {c : Option Message} {d : Bool} {w : Worker} {o : Option Message}
    → Flight s c d w o
    → Ending c d w s o
at_end (no_batch f r) = keeps (no_batch free_finished r)
at_end (to_send r) = drops _ refl (no_batch free_finished r)
at_end (in_channel v r) = keeps (in_channel waits_finished r)
at_end (in_hands v) = keeps (in_hands waits_finished)
at_end (to_ack v) = keeps (to_ack waits_finished)
at_end (acked v r) = keeps (acked waits_finished r)
at_end (unacked v) = keeps (unacked waits_finished)

-- Neither send waits: `done` is empty before an acknowledgement, and chSignal before a signal.
pub at_free :
    {s : Stage} {c : Option Message} {d : Bool} {w : Worker} {o : Option Message}
    → Flight s c d w o
    → (w ≡ acking → d ≡ false) × ((msg : Message) (last : Bool) → s ≡ sending msg last → c ≡ none)
at_free (no_batch f r) = (λ e. refl, λ msg last e. refl)
at_free (to_send r) = (λ e. refl, λ msg last e. refl)
at_free (in_channel v r) = (λ e. refl, λ msg last e. absurd (Waits-sending v e))
at_free (in_hands v) = (λ e. refl, λ msg last e. refl)
at_free (to_ack v) = (λ e. refl, λ msg last e. refl)
at_free (acked v r) = (λ e. absurd (Rests-acking r e), λ msg last e. refl)
at_free (unacked v) = (λ e. refl, λ msg last e. refl)

-- The batch of a message in the channel.
pub at_channel :
    {s : Stage} {c : Option Message} {d : Bool} {w : Worker} {o : Option Message}
    → Flight s c d w o
    → (msg : Message) → c ≡ some msg
    → o ≡ some msg
at_channel (no_batch f r) msg e = cc
at_channel (to_send r) msg e = cc
at_channel (in_channel v r) msg e = e
at_channel (in_hands v) msg e = cc
at_channel (to_ack v) msg e = cc
at_channel (acked v r) msg e = cc
at_channel (unacked v) msg e = cc

-- At the head of its loop the poller has nothing in the channel, and the loop has no batch in its
-- hands.
pub at_top_channel :
    {s : Stage} {c : Option Message} {d : Bool} {w : Worker} {o : Option Message}
    → Flight s c d w o
    → s ≡ top
    → c ≡ none
at_top_channel (no_batch f r) e = refl
at_top_channel (to_send r) e = refl
at_top_channel (in_channel v r) e = absurd (Waits-top v e)
at_top_channel (in_hands v) e = refl
at_top_channel (to_ack v) e = refl
at_top_channel (acked v r) e = refl
at_top_channel (unacked v) e = refl

pub at_top_worker :
    {s : Stage} {c : Option Message} {d : Bool} {w : Worker} {o : Option Message}
    → Flight s c d w o
    → s ≡ top
    → (msg : Message) → w ≢ holding msg
at_top_worker (no_batch f r) e msg = Rests-holding r
at_top_worker (to_send r) e msg = Rests-holding r
at_top_worker (in_channel v r) e msg = Rests-holding r
at_top_worker (in_hands v) e msg = absurd (Waits-top v e)
at_top_worker (to_ack v) e msg = λ x. cc
at_top_worker (acked v r) e msg = Rests-holding r
at_top_worker (unacked v) e msg = λ x. cc
