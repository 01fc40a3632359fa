-- ===== src/Flow.antt =====
-- The watcher's loop, WaitIO and the other callers beside each other on a chResults of limited
-- capacity (watcher.go): the loop's handlers in pieces with at most one exchange on chResults each,
-- and WaitIO with one step for each receive. releaseConn is one piece: no other goroutine sees what
-- it changes before it sends. The loop's end is System.Shutdown.
pub mod Jobs
pub mod Pieces
pub mod Whole
pub mod Safety
pub mod Outcomes
pub mod Order
pub mod Handlers
pub mod Progress
pub mod Untouched
use gaio.Common.{
  ℕ, ◌+◌, ◌*◌, ◌<◌, ◌≡◌, ◌≢◌, Bool, true, false, List, [], ◌∷◌, ◌++◌, Option, none, length, map,
  count, ◌==◌,
}
use gaio.Types.{Event, max_events, OpResult}
use gaio.Kernel.{Kernel}
use gaio.Watcher.Invariant.{tally}
use gaio.Watcher.{Watcher, cb_of}
use gaio.System.{System, Request, aio_create, stop, new_watcher_size}
use gaio.System.Collect.{clear_refs, recycle, result_of}
use gaio.System.Loop.{finalize}
use gaio.System.Step.{IsProper}
use gaio.Flow.Jobs.{Job, idle, pendings, eventing, retrying, expiring, releasing, work}

-- `make(chan *aiocb, maxEvents*4)`
abbrev pub results_cap : ℕ
results_cap = max_events * 4

-- WaitIO: not called, in its select, or in the loop that takes the other results.
pub data Stage : Type 0 where
  away waiting taking : Stage

-- The system, with chResults as its results; the requests that the loop is sending; the handler;
-- WaitIO and the results that it has collected; and the history of what the loop has delivered and
-- what WaitIO has returned.
pub record Flow : Type 0 where
  pub system : System
  pub outbox : List ℕ
  pub job : Job
  pub stage : Stage
  pub collected : List OpResult
  pub delivered : List OpResult
  pub returned : List OpResult

abbrev pub new_flow : ℕ → Flow
new_flow bufsize = record {
  system = new_watcher_size bufsize;
  outbox = [];
  job = idle;
  stage = away;
  collected = [];
  delivered = [];
  returned = [];
}

-- The OpResult of a request.
abbrev pub outcome : Watcher → ℕ → OpResult
outcome w p = result_of (cb_of w p)

-- handleGC holds gcMutex, which the finalizers and GetGC take.
abbrev pub locked : Job → Bool
locked idle = false
locked (pendings ps) = false
locked (eventing es) = false
locked (retrying side e ps es) = false
locked (expiring now) = false
locked (releasing cs) = true

-- The loop takes the batch of pendingCreate, a batch of events, the timer or the queue of handleGC.
abbrev pub take_pending : Flow → Flow
take_pending f = record f {
  job = pendings f.system.pending_create;
  system = record (f.system) {
    pending_create = [];
    pending_processing = [];
    pending_notify = false;
  };
}

abbrev pub take_timer : Flow → ℕ → Flow
take_timer f now = record f {
  job = expiring now;
  system = record (f.system) { watcher = record (f.system.watcher) { timer = none } };
}

abbrev pub take_gc : Flow → Flow
take_gc f = record f {
  job = releasing f.system.watcher.gc;
  system = record (f.system) { watcher = record (f.system.watcher) { gc_notify = false } };
}

-- The next piece of the loop's handler: what it delivers is in the outbox until it is sent.
unfoldable pub advance : Kernel → Flow → Flow
advance k f =
    let rs = f.system.watcher.results in
    let (w, j) = work k (record (f.system.watcher) { results = [] }) f.job in
    record f {
      system = record (f.system) { watcher = record w { results = rs } };
      outbox = w.results;
      job = j;
      delivered = f.delivered ++ map (outcome w) w.results;
    }

-- The send of a request, and the end of its select where `die` is closed.
abbrev pub put : Flow → ℕ → List ℕ → Flow
put f p ps = record f {
  system = record (f.system) {
    watcher = record (f.system.watcher) { results = f.system.watcher.results ++ p ∷ [] };
  };
  outbox = ps;
}

-- WaitIO up to its select, a receive of `p`, and its return.
abbrev pub call : Flow → Flow
unfolding recycle
call f = record f { system = recycle f.system; stage = waiting; collected = [] }

unfoldable pub receive : Flow → ℕ → List ℕ → Flow
receive f p ps = record f {
  system = record (f.system) {
    watcher = record (clear_refs f.system.watcher (p ∷ [])) { results = ps };
    recycles = f.system.recycles ++ p ∷ [];
  };
  stage = taking;
  collected = f.collected ++ outcome f.system.watcher p ∷ [];
}

abbrev pub give_back : Flow → Flow
give_back f =
    let w = f.system.watcher in
    record f {
      system = record (f.system) {
        watcher = record w { shared = record (w.shared) { should_swap = true } };
      };
      stage = away;
      returned = f.returned ++ f.collected;
    }

-- The requests that handlePending has not come to.
abbrev pub held : Job → List ℕ
held idle = []
held (pendings ps) = ps
held (eventing es) = []
held (retrying side e ps es) = []
held (expiring now) = []
held (releasing cs) = []

-- A request of these, or in pendingCreate, a queue or chResults, or that the loop is sending, keeps
-- its connection reachable.
abbrev pub IsUnreachable : Flow → ℕ → Type 0
IsUnreachable f c =
    (p : ℕ)
    → 0
      < count p f.system.pending_create
        + tally f.system.watcher p
        + count p f.outbox
        + count p (held f.job)
    → ((cb_of f.system.watcher p).conn == c) ≡ false

-- The steps of the loop within a handler, and of WaitIO.
pub data Turn (k : Kernel) (cap : ℕ) : Flow → Flow → Type 0 where
  piece : {f : Flow} → f.outbox ≡ [] → f.job ≢ idle → Turn k cap f (advance k f)
  send :
      {f : Flow} (p : ℕ) (ps : List ℕ)
      → f.outbox ≡ p ∷ ps
      → length f.system.watcher.results < cap
      → Turn k cap f (put f p ps)
  enter : {f : Flow} → f.stage ≡ away → Turn k cap f (call f)
  first :
      {f : Flow} (p : ℕ) (ps : List ℕ)
      → f.stage ≡ waiting
      → f.system.watcher.results ≡ p ∷ ps
      → Turn k cap f (receive f p ps)
  more :
      {f : Flow} (p : ℕ) (ps : List ℕ)
      → f.stage ≡ taking
      → f.system.watcher.results ≡ p ∷ ps
      → Turn k cap f (receive f p ps)
  give : {f : Flow} → f.stage ≡ taking → f.system.watcher.results ≡ [] → Turn k cap f (give_back f)

-- These, a new handler of the loop, the ends of both selects where `die` is closed, and the steps
-- of the other callers and of the finalizers at any time.
pub data Move (k : Kernel) (cap : ℕ) : Flow → Flow → Type 0 where
  turn : {f g : Flow} → Turn k cap f g → Move k cap f g
  pending :
      {f : Flow} → f.job ≡ idle → f.system.pending_notify ≡ true → Move k cap f (take_pending f)
  events :
      {f : Flow} (es : List Event) → f.job ≡ idle → Move k cap f (record f { job = eventing es })
  timer : {f : Flow} (now : ℕ) → f.job ≡ idle → Move k cap f (take_timer f now)
  gc : {f : Flow} → f.job ≡ idle → f.system.watcher.gc_notify ≡ true → Move k cap f (take_gc f)
  drop :
      {f : Flow} (p : ℕ) (ps : List ℕ)
      → f.outbox ≡ p ∷ ps
      → f.system.watcher.die ≡ true
      → Move k cap f (record f { outbox = ps })
  give_up :
      {f : Flow}
      → f.stage ≡ waiting
      → f.system.watcher.die ≡ true
      → Move k cap f (record f { stage = away })
  request :
      {f : Flow} (pick : ℕ) (r : Request) (conn : Option ℕ)
      → IsProper r
      → Move k cap f (record f { system = (aio_create pick f.system r conn).0 })
  final :
      {f : Flow} (c : ℕ)
      → locked f.job ≡ false
      → IsUnreachable f c
      → Move k cap f (record f { system = finalize f.system c })
  close : {f : Flow} → Move k cap f (record f { system = stop f.system })

pub data Turns (k : Kernel) (cap : ℕ) (f : Flow) : Flow → Type 0 where
  still : Turns k cap f f
  then_turn : {g h : Flow} → Turns k cap f g → Turn k cap g h → Turns k cap f h

pub data Moves (k : Kernel) (cap : ℕ) (f : Flow) : Flow → Type 0 where
  here : Moves k cap f f
  next : {g h : Flow} → Moves k cap f g → Move k cap g h → Moves k cap f h
