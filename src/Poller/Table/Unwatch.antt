-- ===== src/Poller/Table/Unwatch.antt =====
-- unwatch of the poller for Windows (aio_windows.go): the last socket moves into the gap.
use gaio.Common.{
  ℕ, zero, suc, ◌-◌, ◌<◌, ◌≡◌, refl, ap, ◌∙◌, false, List, none, some, arith, if◌then◌else◌, ◌==◌,
  length, get_or, set, take, lookup, insert, delete, lookup-insert, lookup-delete, Bool-cases,
  Option-cases, inl, inr, ==_refl, length-set, length-take, get_or-set, get_or-take,
}
use gaio.Poller.Table.{PollFd, Table, no_fd, fd_at, unwatch_at, unwatch, IsTable, Unwatched}

-- Removing the socket at `suc i`, which is not the wakeup socket.
module _ (t : Table) (fd i : ℕ) (v : IsTable t) (found : lookup fd t.fd_map ≡ some (suc i)) where
  abbrev last : ℕ
  last = length t.poll_fds - 1

  inside : suc i < length t.poll_fds
  inside = (v.bwd fd (suc i) found).0

  fwd_last : (j : ℕ) → j < last → suc i ≡ last → lookup (fd_at t j) (delete fd t.fd_map) ≡ some j
  fwd_last j h e = ground (arith, lookup-delete fd (fd_at t j) t.fd_map, v.fwd j, found, inside)

  bwd_last :
      (q j : ℕ)
      → suc i ≡ last
      → lookup q (delete fd t.fd_map) ≡ some j
      → (j < last) × (fd_at t j ≡ q)
  bwd_last q j e h =
      let kept : lookup q t.fd_map ≡ some j = ground (arith, lookup-delete fd q t.fd_map) in
      let differ : (fd == q) ≡ false = ground (arith, lookup-delete fd q t.fd_map) in
      let (low, there) = v.bwd q j kept in (ground (arith, (v.bwd fd (suc i) found).1), there)

  abbrev moved : PollFd
  moved = get_or t.poll_fds last no_fd

  abbrev after : List PollFd
  after = take last (set t.poll_fds (suc i) moved)

  abbrev fds : List (ℕ × ℕ)
  fds = delete fd (insert moved.fd (suc i) t.fd_map)

  look :
      (q : ℕ)
      → lookup q fds
        ≡ (if fd == q then none else if moved.fd == q then some (suc i) else lookup q t.fd_map)
  look q = ground (
    arith,
    lookup-delete fd q (insert moved.fd (suc i) t.fd_map),
    lookup-insert moved.fd q (suc i) t.fd_map,
  )

  size : length after ≡ last
  size =
      length-take last (set t.poll_fds (suc i) moved)
        (omega (arith, length-set t.poll_fds (suc i) moved, inside))

  placed :
      (j : ℕ) → j < last → (get_or after j no_fd).fd ≡ (if suc i == j then moved.fd else fd_at t j)
  placed j h = ground (
    arith,
    get_or-take last (set t.poll_fds (suc i) moved) j no_fd h,
    get_or-set t.poll_fds (suc i) j moved no_fd inside,
  )

  moved-lookup : lookup moved.fd t.fd_map ≡ some last
  moved-lookup = v.fwd last (omega (arith, inside))

  module _ (other : (suc i == last) ≡ false) where
    fwd_moved : (j : ℕ) → j < length after → lookup (get_or after j no_fd).fd fds ≡ some j
    fwd_moved j h =
        let low : j < last = omega (arith, size) in
        rw (placed j low) (elim (Bool-cases (suc i == j)) [
          | inl e ↦ rw e (ground (arith, look moved.fd, moved-lookup, found, ==_refl moved.fd))
          | inr e ↦ rw e (ground (arith, look (fd_at t j), moved-lookup, found, v.fwd j))
        ])

    bwd_moved :
        (q j : ℕ) → lookup q fds ≡ some j → (j < length after) × ((get_or after j no_fd).fd ≡ q)
    bwd_moved q j h = elim (Bool-cases (moved.fd == q)) [
      | inl e ↦
          let same : j ≡ suc i = ground (arith, look q) in
          let low : j < last = ground (arith, inside) in
          (omega (arith, size), ground (arith, placed j low))
      | inr e ↦
          let kept : lookup q t.fd_map ≡ some j = ground (arith, look q) in
          let differ : (fd == q) ≡ false = ground (arith, look q) in
          let (inside_j, there) = v.bwd q j kept in
          let low : j < last = ground (arith, inside) in
          (omega (arith, size), ground (arith, placed j low, (v.bwd fd (suc i) found).1))
    ]

  unwatch_at-Unwatched : Unwatched t fd (unwatch_at (some (suc i)) t fd)
  unfolding unwatch_at
  unwatch_at-Unwatched = elim (Bool-cases (suc i == last)) [
    | inl e ↦
        let end : suc i ≡ last = ground arith in
        let short = length-take last t.poll_fds (omega (arith, inside)) in
        let at' = λ (j : ℕ) (h : j < last).
          ap (λ (x : PollFd). x.fd) (get_or-take last t.poll_fds j no_fd h) in
        rw e (record {
          valid = record {
            fwd = λ j h.
                let low : j < last = omega (arith, short) in
                ground (arith, at' j low, fwd_last j low end);
            bwd = λ q j h.
                let (low, there) = bwd_last q j end h in (omega (arith, short), at' j low ∙ there);
          };
          members = λ q. ground (arith, lookup-delete fd q t.fd_map, v.fwd 0, found, inside);
          wakeup = at' 0 (omega (arith, inside));
        })
    | inr e ↦ rw e (record {
      valid = record { fwd = fwd_moved e; bwd = bwd_moved e };
      members = λ q. ground (arith, look q, moved-lookup, v.fwd 0, found, inside);
      wakeup = ground (arith, placed 0, inside);
    })
  ]

-- unwatch keeps the table valid, with the map corrected for the socket that moves into the gap; it
-- takes exactly the socket out of those that are watched, unless it is the one at index 0, and
-- leaves the wakeup socket at index 0.
pub unwatch-Unwatched : (t : Table) (fd : ℕ) → IsTable t → Unwatched t fd (unwatch t fd)
unfolding unwatch
unwatch-Unwatched t fd v = elim (Option-cases (lookup fd t.fd_map)) [
  | inl e ↦ rw (e, unwatch_at) (record { valid = v; members = λ q. ground arith; wakeup = refl })
  | inr (zero, e) ↦
      rw (e, unwatch_at)
        (record { valid = v; members = λ q. ground (arith, v.bwd fd 0 e); wakeup = refl })
  | inr (suc i, e) ↦ rw e (unwatch_at-Unwatched t fd i v e)
]
