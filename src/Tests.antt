-- ===== src/Tests.antt =====
-- Runs of the model on concrete inputs, and the theorems at concrete inputs.
pub mod Sample
pub mod Rotation
pub mod Transfers
pub mod Pollers
pub mod Waits
pub mod Setups
pub mod Servers
pub mod Cycles
pub mod Timers
pub mod Wakeups
pub mod Flows
use gaio.Common.{◌⊎◌, ◌-◌, ◌<◌, ◌≡◌, ◌≢◌, refl, true, [], ◌∷◌, none, some, arith, length}
use gaio.Types.{op_delete}
use gaio.Timed.{Timed, push, append, shrink, up, down, pop, remove_at}
use gaio.Timed.Push.{IsValid, Pushed, push-Pushed}
use gaio.Timed.Laws.{forget, Removed, remove_at-Removed}
use gaio.Kernel.{opened, dupconn}
use gaio.Watcher.{cb_of}
use gaio.Watcher.Handlers.{handle_pending, expire}
use gaio.Watcher.Keeps.Expiry.{Expired, expire-Expired}
use gaio.Watcher.Keeps.Batch.{Batched, handle_pending-Batched}
use gaio.System.{aio_create, create_at, submit, get_cb, new_watcher_size, blank}
use gaio.System.Step.{next, timer, pending}
use gaio.System.Step.{here, next}
use gaio.System.Answers.{Answered, Reach-Answered}
use gaio.System.Fate.{Held, in_hand}
use gaio.Tests.Sample.{
  kernel, submitted, waiting, submitted-IsSafe, submitted-IsBatch, waiting-IsSafe, waiting-open,
}

handle_pending-Batched_example :
    Batched submitted.watcher (0 ∷ []) (handle_pending kernel submitted.watcher (0 ∷ []))
handle_pending-Batched_example =
    handle_pending-Batched kernel submitted.watcher (0 ∷ []) submitted-IsSafe.inv submitted-IsBatch

expire-Expired_example :
    Expired (record (waiting.watcher) { timer = none }) 50 (expire kernel waiting.watcher 50)
expire-Expired_example = expire-Expired kernel waiting.watcher 50 waiting-IsSafe.inv

abbrev empty_heap : Timed
empty_heap = record { arr = []; cbs = λ p. record blank { deadline = 50 - p } }

empty_heap-IsValid : IsValid empty_heap
empty_heap-IsValid = record {
  tracks = record { fwd = λ i h. absurd (omega arith); bwd = λ p i e. cc };
  order = λ c p q. absurd (omega arith);
}

abbrev heap : Timed
heap = push empty_heap 3

heap-Pushed : Pushed empty_heap 3 heap
heap-Pushed = push-Pushed empty_heap 3 empty_heap-IsValid refl

-- The later request has the earlier deadline and rises to the root; it leaves first.
rises : (push heap 7).arr ≡ 7 ∷ 3 ∷ []
unfolding push append up
rises = refl

leaves : ((pop (push heap 7)).0 ≡ 7) × ((pop (push heap 7)).1.arr ≡ 3 ∷ [])
unfolding push append up pop shrink down
leaves = (refl, refl)

push-Pushed_example : Pushed heap 7 (push heap 7)
unfolding push append up
push-Pushed_example = push-Pushed heap 7 heap-Pushed.valid refl

heap-held : (heap.cbs 3).idx ≡ some 0
unfolding push append up
heap-held = refl

remove_at-Removed_example :
    ((remove_at heap 0).0 ≡ 3) × Removed heap 3 (forget (remove_at heap 0).1 3)
remove_at-Removed_example = remove_at-Removed heap 3 0 heap-Pushed.valid heap-held

heap-long : 0 < length heap.arr
unfolding push append up
heap-long = omega arith

duplicate : dupconn kernel 0 (7 ∷ []) 5 ≡ opened 8
unfolding dupconn
duplicate = refl

submitted-in_hand : in_hand submitted 0 ≡ 1
unfolding aio_create create_at submit get_cb new_watcher_size
submitted-in_hand = refl

submitted-reads : (cb_of submitted.watcher 0).op ≢ op_delete
unfolding aio_create create_at submit get_cb new_watcher_size
submitted-reads e = cc

submitted-notified : submitted.pending_notify ≡ true
unfolding aio_create create_at submit get_cb new_watcher_size
submitted-notified = refl

Reach-Answered_example : Held submitted waiting 0 ⊎ Answered kernel submitted waiting 0
Reach-Answered_example =
    Reach-Answered kernel (next here (pending submitted-notified)) submitted-IsSafe 0
      submitted-in_hand submitted-reads waiting-open
