-- ===== src/Poller/Table/Watch.antt =====
-- Watch of the poller for Windows (aio_windows.go): the table after it.
use gaio.Common.{
  ℕ, ◌<◌, ◌≡◌, refl, ap, ◌+◌, [], ◌∷◌, ◌++◌, some, arith, if◌then◌else◌, ◌==◌, length, lookup,
  insert, lookup-insert, is_some, Bool-cases, inl, inr, ==_refl, length-append, get_or-append,
  get_or-append_end,
}
use gaio.Poller.Table.{PollFd, Table, no_fd, fd_at, both_ways, watch, IsTable, Watched}

-- The table after Watch.
pub watch-Watched : (t : Table) (fd : ℕ) → IsTable t → Watched t fd (watch t fd)
unfolding watch
watch-Watched t fd v = elim (Bool-cases (is_some (lookup fd t.fd_map))) [
  | inl known ↦ rw known (record { valid = v; members = λ q. ground arith; wakeup = λ h. refl })
  | inr new ↦ rw new (record {
    valid = record {
      fwd = λ i h. elim (Bool-cases (i == length t.poll_fds)) [
        | inl e ↦
            rw (fd_at, get_or-append_end t.poll_fds (both_ways fd) no_fd i (ground (arith)))
              (ground (arith, look fd, ==_refl fd))
        | inr e ↦
            let low : i < length t.poll_fds = ground (arith, long) in
            rw (fd_at, get_or-append t.poll_fds (both_ways fd ∷ []) i no_fd low)
              (ground (arith, look (fd_at t i), v.fwd i low, new))
      ];
      bwd = λ q i e. elim (Bool-cases (fd == q)) [
        | inl same ↦
            let end : i ≡ length t.poll_fds = ground (arith, look q) in
            (
              omega (arith, long),
              rw (fd_at, get_or-append_end t.poll_fds (both_ways fd) no_fd i end) (ground arith),
            )
        | inr differ ↦
            let (low, there) = v.bwd q i (ground (arith, look q)) in
            (
              omega (arith, long),
              rw (fd_at, get_or-append t.poll_fds (both_ways fd ∷ []) i no_fd low) there,
            )
      ];
    };
    members = λ q. ground (arith, look q);
    wakeup = λ h. ap (λ (x : PollFd). x.fd) (get_or-append t.poll_fds _ 0 no_fd h);
  })
]
  where
    long : length (t.poll_fds ++ both_ways fd ∷ []) ≡ length t.poll_fds + 1
    long = length-append t.poll_fds (both_ways fd ∷ [])

    look :
        (q : ℕ)
        → lookup q (insert fd (length t.poll_fds) t.fd_map)
          ≡ (if fd == q then some (length t.poll_fds) else lookup q t.fd_map)
    look q = lookup-insert fd q (length t.poll_fds) t.fd_map
