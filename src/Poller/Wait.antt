-- ===== src/Poller/Wait.antt =====
-- A poller's Wait (aio_linux.go, aio_bsd.go, aio_windows.go) beside the watcher's loop
-- (watcher.go): the array of events that they share, chSignal, the acknowledgement in `sig.done`,
-- and `die`.
pub mod Sync
pub mod Delivery
pub mod Progress
pub mod Failure
pub mod Silence
use gaio.Common.{
  ℕ, ◌≡◌, ◌≢◌, ◌⊎◌, Bool, true, false, List, [], ◌∷◌, ◌++◌, Option, none, some, length, take,
}
use gaio.Types.{Error, Event, Signal}
use gaio.Kernel.{Kernel}
use gaio.System.{System}
use gaio.System.Loop.{on_signal, shut_down}
use gaio.System.Step.{Step, request, wait, pending, events, timer, gc, final, close}
use gaio.Poller.Rounds.{
  Next, again, over, sends, sends_last, Epoll, epoll_round, Polled, Kqueue, kqueue_round, Wsa,
  WsaPolled, wsa_round,
}
use gaio.Poller.Events.{Filter}

-- What the protocol needs of a poller: its state and one pass of its loop, given what the system
-- reports.
pub record Poller : Type 1 where
  pub State : Type 0
  pub Report : Type 0
  pub round : State → Report → State × Next

abbrev pub linux : Poller
linux = record { State = Epoll; Report = Polled (List (ℕ × ℕ)); round = epoll_round }

abbrev pub bsd : Poller
bsd = record { State = Kqueue; Report = Polled (List (ℕ × Filter × ℕ)); round = kqueue_round }

abbrev pub windows : Poller
windows = record { State = Wsa; Report = WsaPolled; round = wsa_round }

-- A Signal in a channel: its events are the first `count` of the shared array.
pub record Message : Type 0 where
  pub count : ℕ
  pub err : Option Error

-- Where Wait stands: at the head of its loop, before a send (and whether it returns after it),
-- before the acknowledgement, or at its end.
pub data Stage : Type 0 where
  top : Stage
  sending : Message → Bool → Stage
  awaiting finished : Stage

-- Where the watcher's loop stands: in its select, with a signal to handle, before the
-- acknowledgement, or at its end.
pub data Worker : Type 0 where
  idle : Worker
  holding : Message → Worker
  acking gone : Worker

-- `polled` and `handled` are the events of the signals built and handled so far, in order; the loop
-- does not look at those of a signal with an error.
pub record Machine (p : Poller) : Type 0 where
  pub system : System
  pub state : p.State
  pub stage : Stage
  pub array : List Event
  pub channel : Option Message
  pub done : Bool
  pub worker : Worker
  pub polled : List (List Event)
  pub handled : List (List Event)

-- The appends to `eventSet[:0]`: the array's first elements are overwritten.
unfoldable pub overwrite : List Event → List Event → List Event
overwrite es [] = es
overwrite [] (x ∷ xs) = x ∷ xs
overwrite (e ∷ es) (x ∷ xs) = e ∷ overwrite es xs

-- Where Wait stands after a send.
abbrev pub after_send : Bool → Stage
after_send true = finished
after_send false = awaiting

module _ (p : Poller) where
  -- The signal `sig` is built in the shared array.
  unfoldable pub build : Machine p → Signal → Bool → Machine p
  build m sig last = record m {
    array = overwrite sig.events m.array;
    stage = sending (record { count = length sig.events; err = sig.err }) last;
    polled = m.polled ++ sig.events ∷ [];
  }

  unfoldable pub proceed : Machine p → Next → Machine p
  proceed m again = m
  proceed m over = record m { stage = finished }
  proceed m (sends sig) = build m sig false
  proceed m (sends_last sig) = build m sig true

  -- One pass of Wait's loop.
  unfoldable pub poll : Machine p → p.Report → Machine p
  poll m r = let (state, n) = p.round m.state r in proceed (record m { state = state }) n

  -- handleEvents, or the end of the loop, on what the array holds at this time.
  unfoldable pub handle_err : Kernel → Machine p → List Event → Option Error → Machine p
  handle_err k m es none = record m {
    system = on_signal k m.system (record { events = es; err = none });
    worker = acking;
    handled = m.handled ++ es ∷ [];
  }
  handle_err k m es (some e) = record m {
    system = on_signal k m.system (record { events = es; err = some e });
    worker = gone;
    handled = m.handled ++ es ∷ [];
  }

  unfoldable pub handle : Kernel → Machine p → Message → Machine p
  handle k m msg = handle_err k m (take msg.count m.array) msg.err

-- A case of the loop runs only from its select; a call or a finalizer runs at any time. A batch of
-- events comes by a message.
abbrev pub Allowed : {k : Kernel} {s t : System} → Worker → Step k s t → Type 0
Allowed w (request pick r conn h) = Unit {0}
Allowed w (wait prefer e) = Unit {0}
Allowed w (pending h) = w ≡ idle
Allowed w (events sig h) = w ≢ w
Allowed w (timer now) = w ≡ idle
Allowed w (gc h) = w ≡ idle
Allowed w (final c u) = Unit {0}
Allowed w close = Unit {0}

-- The steps: of the poller, of the worker, and all else. With more than one case of a select ready,
-- any of them can run. `adjust` stands for what other goroutines do to the poller's state.
pub data Move (p : Poller) (k : Kernel) : Machine p → Machine p → Type 0 where
  polls :
      {m : Machine p} (r : p.Report)
      → m.stage ≡ top
      → m.system.poller_closed ≡ false
      → Move p k m (poll p m r)
  puts :
      {m : Machine p} {msg : Message} {last : Bool}
      → m.stage ≡ sending msg last
      → m.channel ≡ none
      → Move p k m (record m { stage = after_send last; channel = some msg })
  resumes :
      {m : Machine p}
      → m.stage ≡ awaiting
      → m.done ≡ true
      → Move p k m (record m { stage = top; done = false })
  leaves :
      {m : Machine p} → m.system.poller_closed ≡ true → Move p k m (record m { stage = finished })
  receives :
      {m : Machine p} {msg : Message}
      → m.worker ≡ idle
      → m.channel ≡ some msg
      → Move p k m (record m { channel = none; worker = holding msg })
  handles : {m : Machine p} {msg : Message} → m.worker ≡ holding msg → Move p k m (handle p k m msg)
  acks :
      {m : Machine p}
      → m.worker ≡ acking
      → m.done ≡ false
      → Move p k m (record m { done = true; worker = idle })
  quits :
      {m : Machine p}
      → m.system.watcher.die ≡ true
      → (m.worker ≡ idle) ⊎ (m.worker ≡ acking)
      → Move p k m (record m { system = shut_down k m.system; worker = gone })
  others :
      {m : Machine p} {t : System} (st : Step k m.system t)
      → Allowed m.worker st
      → Move p k m (record m { system = t })
  adjusts : {m : Machine p} (x : p.State) → Move p k m (record m { state = x })

pub data Moves (p : Poller) (k : Kernel) (m : Machine p) : Machine p → Type 0 where
  start : Moves p k m m
  later : {n o : Machine p} → Moves p k m n → Move p k n o → Moves p k m o

-- Wait and the loop as NewWatcherSize starts them.
unfoldable pub begin : {p : Poller} → System → p.State → List Event → Machine p
begin s x array = record {
  system = s;
  state = x;
  stage = top;
  array = array;
  channel = none;
  done = false;
  worker = idle;
  polled = [];
  handled = [];
}
