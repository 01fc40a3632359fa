-- ===== src/Tests/Wakeups.antt =====
-- The attempts of the watcher on the request that waits, and on one behind it (watcher.go).
use gaio.Common.{◌≡◌, ◌≢◌, ◌∙◌, ap, ℕ, false, [], ◌∷◌, ◌⊎◌, arith}
use gaio.Types.{readers, Aiocb}
use gaio.Watcher.{cb_of, queue_of, desc_of}
use gaio.Watcher.Handlers.{retry, start_side}
use gaio.Watcher.Keeps.Batch.{Batched, handle_pending-Batched}
use gaio.Watcher.Wakeups.Woken.{Woken, Buffered, attempts-Woken}
use gaio.System.{aio_create, create_at, submit, get_cb, new_watcher_size}
use gaio.System.Loop.{on_pending}
use gaio.System.Bounds.{Reach-Sized}
use gaio.Tests.Sample.{
  kernel, submitted, submitted-IsSafe, submitted-IsBatch, waiting, waiting-IsSafe, waiting-open,
  waiting-Reach,
}

submitted-short : (q : ℕ) → (cb_of submitted.watcher q).read_full ≡ false
unfolding aio_create create_at submit get_cb new_watcher_size
submitted-short q = ground arith

waiting-Batched : Batched submitted.watcher (0 ∷ []) waiting.watcher
unfolding on_pending aio_create create_at submit get_cb new_watcher_size
waiting-Batched =
    handle_pending-Batched kernel submitted.watcher (0 ∷ []) submitted-IsSafe.inv submitted-IsBatch

waiting-Buffered : Buffered waiting.watcher
waiting-Buffered q =
    let e = ap (λ (cb : Aiocb). cb.read_full) (waiting-Batched.asks q) ∙ submitted-short q in
    ground arith

attempts-Woken_example :
    Woken kernel readers 1 waiting.watcher
      (retry kernel readers waiting.watcher 1 (queue_of readers (desc_of waiting.watcher 1)))
    × ((queue_of readers (desc_of waiting.watcher 1) ≢ [])
        ⊎ Woken kernel readers 1 waiting.watcher (start_side kernel readers waiting.watcher 1 1))
attempts-Woken_example =
    attempts-Woken kernel readers waiting.watcher 1 1 waiting-IsSafe.inv waiting-open
      (Reach-Sized kernel 64 waiting waiting-Reach) waiting-Buffered
