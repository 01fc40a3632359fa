-- ===== src/Poller/Table.antt =====
-- The sockets that the poller for Windows watches (aio_windows.go): a slice for WSAPoll and a map
-- from a socket to its index in it. Index 0 is the socket that wakes the poller.
pub mod Watch
pub mod Unwatch
use gaio.Common.{
  ℕ, zero, suc, ◌-◌, ◌<◌, ◌≡◌, ◌&&◌, ◌+◌, Bool, true, List, [], ◌∷◌, ◌++◌, Option, none, some,
  arith, if◌then◌else◌, ◌==◌, length, get_or, set, take, lookup, insert, delete, is_some, ==_refl,
}

pub record PollFd : Type 0 where
  pub fd : ℕ
  pub events : ℕ

pub record Table : Type 0 where
  pub poll_fds : List PollFd
  pub fd_map : List (ℕ × ℕ)

abbrev pub no_fd : PollFd
no_fd = record { fd = 0; events = 0 }

abbrev pub fd_at : Table → ℕ → ℕ
fd_at t i = (get_or t.poll_fds i no_fd).fd

-- The two fields as openPoll sets them: only the reading end of the socket pair is watched.
unfoldable pub open_table : ℕ → Table
open_table reader = record {
  poll_fds = record { fd = reader; events = 0x0100 } ∷ [];
  fd_map = insert reader 0 [];
}

-- An entry for read and write readiness.
abbrev pub both_ways : ℕ → PollFd
both_ways fd = record { fd = fd; events = 0x0110 }

unfoldable pub watch : Table → ℕ → Table
watch t fd = if is_some (lookup fd t.fd_map) then t else record {
  poll_fds = t.poll_fds ++ both_ways fd ∷ [];
  fd_map = insert fd (length t.poll_fds) t.fd_map;
}

-- unwatch, once the index is known.
unfoldable pub unwatch_at : Option ℕ → Table → ℕ → Table
unwatch_at none t fd = t
unwatch_at (some zero) t fd = t
unwatch_at (some (suc i)) t fd =
    let last = length t.poll_fds - 1 in
    let moved = get_or t.poll_fds last no_fd in
    if suc i == last
    then record { poll_fds = take last t.poll_fds; fd_map = delete fd t.fd_map }
    else record {
      poll_fds = take last (set t.poll_fds (suc i) moved);
      fd_map = delete fd (insert moved.fd (suc i) t.fd_map);
    }

unfoldable pub unwatch : Table → ℕ → Table
unfolding unwatch_at
unwatch t fd = unwatch_at (lookup fd t.fd_map) t fd

-- The map gives exactly the positions in the slice, so no socket stands in it twice.
pub record IsTable (t : Table) : Type 0 where
  pub fwd : (i : ℕ) → i < length t.poll_fds → lookup (fd_at t i) t.fd_map ≡ some i
  pub bwd : (fd i : ℕ) → lookup fd t.fd_map ≡ some i → (i < length t.poll_fds) × (fd_at t i ≡ fd)

abbrev pub watches : Table → ℕ → Bool
watches t fd = is_some (lookup fd t.fd_map)

pub record Watched (t : Table) (fd : ℕ) (t' : Table) : Type 0 where
  pub valid : IsTable t'
  pub members : (q : ℕ) → watches t' q ≡ (if fd == q then true else watches t q)
  pub wakeup : 0 < length t.poll_fds → fd_at t' 0 ≡ fd_at t 0

pub record Unwatched (t : Table) (fd : ℕ) (t' : Table) : Type 0 where
  pub valid : IsTable t'
  pub members :
      (q : ℕ) → watches t' q ≡ (if fd == q then fd == fd_at t 0 && watches t fd else watches t q)
  pub wakeup : fd_at t' 0 ≡ fd_at t 0

-- The table of a new poller is valid: the map gives exactly the positions in the slice.
pub open_table-IsTable : (reader : ℕ) → IsTable (open_table reader)
unfolding open_table insert lookup
open_table-IsTable reader = record {
  fwd = λ i h. ground (arith, ==_refl reader);
  bwd = λ fd i e. ground arith;
}
