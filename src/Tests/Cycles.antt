-- ===== src/Tests/Cycles.antt =====
-- Runs of a request record through its life, and of the sizes (watcher.go).
use gaio.Common.{false, ◌≡◌, ◌∙◌, refl}
use gaio.Watcher.Sized.{Sized}
use gaio.System.{aio_create, create_at, submit, get_cb, new_watcher_size, stop}
use gaio.System.Loop.{on_pending, on_timer, on_die}
use gaio.System.Step.{timer, close, here, next}
use gaio.System.Close.{IsClosed, close-IsClosed}
use gaio.System.Life.{goes, dies, born, on_to, IsWell, Step-done, stop-die, Lives-IsWell}
use gaio.System.Bounds.{Reach-Sized}
use gaio.Tests.Sample.{kernel, waiting, waiting-Reach, waiting-open, waiting-IsSafe}

Reach-Sized_example : Sized waiting.watcher
Reach-Sized_example = Reach-Sized kernel 64 waiting waiting-Reach

waiting-going : waiting.loop_done ≡ false
unfolding on_pending aio_create create_at submit get_cb new_watcher_size
waiting-going = refl

waiting-still_going : (stop waiting).loop_done ≡ false
waiting-still_going = Step-done {k = kernel} close ∙ waiting-going

-- Close, a run of the timer before the loop takes the case for `die`, and that case.
close-IsClosed_example :
    let s = on_timer kernel (stop waiting) 50 in IsClosed kernel s (on_die kernel s)
close-IsClosed_example =
    close-IsClosed kernel waiting (on_timer kernel (stop waiting) 50) waiting-IsSafe waiting-open
      (next here (timer 50))

-- Close, and the end of the loop.
Lives-IsWell_example : IsWell (on_die kernel (stop waiting))
Lives-IsWell_example =
    Lives-IsWell kernel waiting-going waiting-IsSafe
      (on_to (on_to born (goes close waiting-going)) (dies waiting-still_going (stop-die waiting)))
