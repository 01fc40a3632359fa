-- ===== src/Poller/Undo.antt =====
-- Watch and then unwatch on the table of the poller for Windows (aio_windows.go).
use gaio.Common.{
  ℕ, suc, ◌-◌, ◌<◌, ◌≡◌, refl, ap, ◌∙◌, true, List, [], ◌∷◌, ◌++◌, none, some, arith, ◌==◌,
  Bool-cases, inl, inr, length, take, lookup, insert, delete, ==_refl, length-append, lookup-insert,
}
use gaio.Poller.Table.{PollFd, Table, both_ways, watch, unwatch, unwatch_at}

delete-insert : (k v : ℕ) (m : List (ℕ × ℕ)) → lookup k m ≡ none → delete k (insert k v m) ≡ m
unfolding delete insert lookup
delete-insert k v [] h = ground (arith, ==_refl k)
delete-insert k v ((j, w) ∷ m) h = elim (Bool-cases (k == j)) [
  | inl e ↦ absurd (ground arith)
  | inr e ↦ rw e (rw e (ap (λ l. (j, w) ∷ l) (delete-insert k v m (rw e at h))))
]

take-append : (xs : List PollFd) (x : PollFd) → take (length xs) (xs ++ x ∷ []) ≡ xs
take-append [] x = refl
take-append (y ∷ xs) x = ap (λ l. y ∷ l) (take-append xs x)

unwatch_end :
    (fds : List PollFd) (x : PollFd) (m : List (ℕ × ℕ)) (fd : ℕ)
    → 0 < length fds
    → unwatch_at (some (length fds)) (record { poll_fds = fds ++ x ∷ []; fd_map = m }) fd
      ≡ record { poll_fds = fds; fd_map = delete fd m }
unfolding unwatch_at
unwatch_end [] x m fd h = absurd (omega arith)
unwatch_end (y ∷ fds) x m fd h =
    let long = length-append fds (x ∷ []) in
    let last : suc (length (fds ++ x ∷ [])) - 1 ≡ suc (length fds) = omega (arith, long) in
    let same : (suc (length fds) == (suc (length (fds ++ x ∷ [])) - 1)) ≡ true =
      ground (arith, last) in
    rw same (
      ap (λ i. record { poll_fds = take i (y ∷ (fds ++ x ∷ [])); fd_map = delete fd m }) last
      ∙ ap (λ l. record { poll_fds = y ∷ l; fd_map = delete fd m }) (take-append fds x))

-- On Windows, Watch of a socket that is not watched, and then unwatch of it, gives back the same
-- table, if the wakeup socket is there.
pub unwatch-watch :
    (t : Table) (fd : ℕ)
    → 0 < length t.poll_fds
    → lookup fd t.fd_map ≡ none
    → unwatch (watch t fd) fd ≡ t
unfolding watch unwatch
unwatch-watch t fd some_there new =
    rw (new, lookup-insert fd fd (length t.poll_fds) t.fd_map, ==_refl fd)
      (unwatch_end t.poll_fds (both_ways fd) (insert fd (length t.poll_fds) t.fd_map) fd some_there
        ∙ ap (λ m. record { poll_fds = t.poll_fds; fd_map = m })
            (delete-insert fd (length t.poll_fds) t.fd_map new))
