-- ===== src/Tests/Servers.antt =====
-- Runs of the servers of examples/ (examples/echo-server/main.go, examples/push-server/main.go).
use gaio.Common.{ℕ, ◌≡◌, refl, false, [], ◌∷◌, none}
use gaio.Types.{OpResult, op_read, op_write, user}
use gaio.System.{System, new_watcher_size}
use gaio.System.Submit.{SubmittedAll}
use gaio.System.Safety.{new-IsSafe}
use gaio.Examples.Push.{Push, tick, push_step, push_asks, push_step-Pushed}
use gaio.Tests.Sample.{fresh}

fresh-open : fresh.watcher.die ≡ false
unfolding new_watcher_size
fresh-open = refl

-- What WaitIO may return: 5 bytes read on one connection, a write completed on another.
abbrev read_done : OpResult
read_done = record {
  operation = op_read;
  context = 0;
  conn = 6;
  buffer = user 1 128;
  is_swap_buffer = false;
  size = 5;
  error = none;
}

abbrev write_done : OpResult
write_done = record read_done { operation = op_write; conn = 7; buffer = user 2 9; size = 9 }

abbrev pool : System → ℕ
pool s = s.next

abbrev two_conns : Push
two_conns = record { system = fresh; conns = 6 ∷ 7 ∷ [] }

push_step-Pushed_example :
    let t = push_step pool two_conns (tick 3 30) in
    SubmittedAll fresh (push_asks (user 3 30) (6 ∷ 7 ∷ [])) t.system × (t.conns ≡ [])
push_step-Pushed_example =
    push_step-Pushed pool two_conns (new-IsSafe 64) fresh-open (tick 3 30) refl (refl, (refl, tt))
