-- ===== src/Tests/Timers.antt =====
-- Two requests on one connection whose deadlines fall in the opposite order (watcher.go).
use gaio.Common.{◌≡◌, refl, ◌∙◌, false, [], ◌∷◌, some}
use gaio.Types.{op_read, user}
use gaio.Watcher.{cb_of}
use gaio.Watcher.Handlers.{expire}
use gaio.Watcher.Keeps.Batch.{Batched, handle_pending-Batched}
use gaio.Watcher.Keeps.Chronology.{InOrder, expire-InOrder}
use gaio.System.{System, Request, aio_create, create_at, submit, get_cb, new_watcher_size}
use gaio.System.Loop.{on_pending}
use gaio.System.Step.{IsProper, Reach, next, request}
use gaio.System.Places.{IsSafe}
use gaio.System.Safety.{Reach-IsSafe, new-IsSafe, pending-IsBatch}
use gaio.Tests.Sample.{kernel, fresh, submitted, submitted-Reach}

abbrev asks_soon : Request
asks_soon = record { ctx = 13; op = op_read; buf = user 10 16; deadline = 20; read_full = false }

abbrev asked : System
asked = (aio_create 1 submitted asks_soon (some 5)).0

abbrev both : System
both = on_pending kernel asked

asks_soon-IsProper : IsProper asks_soon
asks_soon-IsProper e = cc

asked-Reach : Reach kernel fresh asked
asked-Reach = next submitted-Reach (request 1 asks_soon (some 5) asks_soon-IsProper)

asked-IsSafe : IsSafe asked
asked-IsSafe = Reach-IsSafe kernel (new-IsSafe 64) asked-Reach

asked-batch : asked.pending_create ≡ 0 ∷ 1 ∷ []
unfolding aio_create create_at submit get_cb new_watcher_size
asked-batch = refl

asked-open : asked.watcher.die ≡ false
unfolding aio_create create_at submit get_cb new_watcher_size
asked-open = refl

both-Batched : Batched asked.watcher asked.pending_create both.watcher
unfolding on_pending
both-Batched =
    handle_pending-Batched kernel asked.watcher asked.pending_create asked-IsSafe.inv
      (pending-IsBatch asked asked-IsSafe)

expire-InOrder_example :
    InOrder (λ q. (cb_of both.watcher q).deadline) 0 50 both.watcher (expire kernel both.watcher 50)
expire-InOrder_example =
    expire-InOrder kernel both.watcher 50 both-Batched.inv (both-Batched.die ∙ asked-open)
