-- ===== src/Tests/Sample.antt =====
-- Sample data for the tests: an operating system whose first reply to a read is EAGAIN and which
-- then transfers all that is asked for, and a watcher with one request.
use gaio.Common.{
  ℕ, suc, ◌+◌, ◌<◌, ◌≡◌, refl, true, false, List, [], ◌∷◌, none, some, arith, ltb, ◌==◌,
  if◌then◌else◌, count, if_both, ◌++◌, count-append,
}
use gaio.Types.{conn_closed, op_read, op_write, op_delete, user, eagain}
use gaio.Kernel.{
  Kernel, Reply, moved, failed, interrupted, Within, Access, control, control_fails, Opened, opened,
}
use gaio.System.{System, Request, new_watcher_size, aio_create, create_at, submit, get_cb}
use gaio.System.Loop.{on_pending}
use gaio.System.Step.{IsProper, pending, request, Reach, here, next}
use gaio.System.Places.{IsSafe, aio_create-IsSafe}
use gaio.System.Safety.{new-IsSafe, Reach-IsSafe}
use gaio.Watcher.Keeps.Register.{IsNew}
use gaio.Watcher.Keeps.Batch.{IsBatch, handle_pending-Batched}

abbrev pub reply : ℕ → ℕ → ℕ → Reply
reply c fd n = if ltb c 3 then interrupted (failed eagain) else moved n

pub reply-Within : (c fd n : ℕ) → Within n (reply c fd n)
reply-Within c fd n =
    if_both (Within n) (ltb c 3) (interrupted (failed eagain)) (moved n) tt (omega arith)

abbrev pub total : List ℕ → ℕ
total [] = 0
total (x ∷ xs) = x + total xs

count-total : (x : ℕ) (xs : List ℕ) → total xs < x → count x xs ≡ 0
count-total x [] h = refl
count-total x (y ∷ ys) h = ground (arith, count-total x ys (omega arith))

-- The connection at 9 cannot be controlled any more.
abbrev pub access : ℕ → ℕ → Access
access c conn = if conn == 9 then control_fails conn_closed else control conn

abbrev pub dup : ℕ → List ℕ → ℕ → Opened
dup c open_fds fd = opened (suc (total open_fds))

pub dup-fresh :
    (c : ℕ) (open_fds : List ℕ) (fd new : ℕ)
    → dup c open_fds fd ≡ opened new
    → count new open_fds ≡ 0
dup-fresh c open_fds fd new e =
    let same : suc (total open_fds) ≡ new = cc in count-total new open_fds (omega arith)

-- The order of a range is the reverse of the order of insertion.
abbrev pub reverse : List ℕ → List ℕ → List ℕ
reverse [] ys = ys
reverse (x ∷ xs) ys = reverse xs (x ∷ ys)

reverse-once : (q : ℕ) (xs ys : List ℕ) → count q (reverse xs ys) ≡ count q (xs ++ ys)
reverse-once q [] ys = refl
reverse-once q (x ∷ xs) ys =
    omega (arith, reverse-once q xs (x ∷ ys), count-append q xs (x ∷ ys), count-append q xs ys)

pub reverse_all-once : (q : ℕ) (xs : List ℕ) → count q (reverse xs []) ≡ count q xs
reverse_all-once q xs = omega (arith, reverse-once q xs [], count-append q xs [])

abbrev pub kernel : Kernel
kernel = record {
  read = reply;
  write = reply;
  access = access;
  dup = dup;
  watch = λ c fd. none;
  choose = λ c. true;
  range = λ c keys. reverse keys [];
  read_within = reply-Within;
  write_within = reply-Within;
  range_once = λ c keys key. reverse_all-once key keys;
  dup_fresh = dup-fresh;
}

abbrev pub asks_read : Request
asks_read = record { ctx = 11; op = op_read; buf = user 8 16; deadline = 30; read_full = false }

abbrev pub asks_write : Request
asks_write = record { ctx = 12; op = op_write; buf = user 9 4; deadline = 0; read_full = false }

abbrev pub asks_free : Request
asks_free = record { ctx = 0; op = op_delete; buf = user 0 0; deadline = 0; read_full = false }

-- A new watcher, after a call of ReadTimeout, and with the request waiting in its queue.
abbrev pub fresh : System
fresh = new_watcher_size 64

abbrev pub submitted : System
submitted = (aio_create 0 fresh asks_read (some 5)).0

abbrev pub waiting : System
waiting = on_pending kernel submitted

pub asks_read-IsProper : IsProper asks_read
asks_read-IsProper e = cc

pub submitted-Reach : Reach kernel fresh submitted
submitted-Reach = next here (request 0 asks_read (some 5) asks_read-IsProper)

pub waiting-Reach : Reach kernel fresh waiting
unfolding aio_create create_at submit get_cb new_watcher_size
waiting-Reach = next submitted-Reach (pending refl)

pub submitted-IsSafe : IsSafe submitted
submitted-IsSafe = Reach-IsSafe kernel (new-IsSafe 64) submitted-Reach

pub waiting-IsSafe : IsSafe waiting
waiting-IsSafe = Reach-IsSafe kernel (new-IsSafe 64) waiting-Reach

pub submitted-IsNew : (q : ℕ) → 0 < count q (0 ∷ []) → IsNew submitted.watcher q
unfolding aio_create create_at submit get_cb new_watcher_size
submitted-IsNew q h = record { nowhere = refl; frees = λ e. ground arith }

pub submitted-IsBatch : IsBatch submitted.watcher (0 ∷ [])
submitted-IsBatch = record { new = submitted-IsNew; distinct = λ q. ground arith }

pub waiting-open : waiting.watcher.die ≡ false
unfolding on_pending aio_create create_at submit get_cb new_watcher_size
waiting-open =
    (handle_pending-Batched kernel submitted.watcher (0 ∷ []) submitted-IsSafe.inv
      submitted-IsBatch).die

-- Free of the connection, before and after it is registered.
abbrev pub freeing : System
freeing = (aio_create 7 fresh asks_free (some 5)).0

abbrev pub freeing_known : System
freeing_known = (aio_create 7 waiting asks_free (some 5)).0

pub asks_free-IsProper : IsProper asks_free
asks_free-IsProper e = refl

pub freeing_known-IsSafe : IsSafe freeing_known
freeing_known-IsSafe =
    aio_create-IsSafe 7 waiting asks_free (some 5) asks_free-IsProper waiting-IsSafe
