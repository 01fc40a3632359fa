-- ===== src/Setup/Balance/Windows.antt =====
-- The sockets and handles of openPoll, of the end of Wait and of dupconn on Windows
-- (aio_windows.go).
use gaio.Common.{
  ℕ, ◌≡◌, ◌<◌, ◌+◌, refl, false, ◌||◌, List, [], ◌∷◌, ◌++◌, Option, none, some, ◌==◌, count,
  count-append, arith, Bool-cases, inl, inr,
}
use gaio.Types.{sys, Errno}
use gaio.Setup.{Call, gives, refuses, Attempt, failed}
use gaio.Setup.Windows.{
  PairCalls, handle_of, opened_by, if_open, pair_modes, pair_extract, pair_accept,
  create_socket_pair, wsa_open, wsa_end, wsa_dupconn, dup_nonblocking, duplicate_socket,
}
use gaio.Kernel.{Access, no_syscall_conn, syscall_conn_fails, control_fails, control}
use gaio.Setup.Balance.{closed_by, Balanced}

-- The handles of the pair that are left open with it.
abbrev pub end_pair : ℕ × ℕ → List ℕ
end_pair (r, w) = if_open r ++ if_open w

-- A socket that WSASocketW gives is not 0.
abbrev pub IsHandle : Call → Type 0
IsHandle (gives h) = 0 < h
IsHandle (refuses e) = Unit {0}

opened_by-if_open :
    (q : ℕ) (c : Call) → IsHandle c → count q (opened_by c) ≡ count q (if_open (handle_of c))
opened_by-if_open q (gives h) n = ground arith
opened_by-if_open q (refuses e) n = refl

-- The dialed connection that is left in its channel when accept fails.
abbrev pub accept_left : Call → Call → List ℕ
accept_left dial (refuses e) = opened_by dial
accept_left dial (gives a) = []

abbrev pub pair_left : PairCalls → List ℕ
pair_left c = elim c.listen [ refuses e ↦ [] | gives l ↦ accept_left c.dial c.accept ]

made-if_open :
    (q : ℕ) (c : PairCalls) (conns : List ℕ)
    → IsHandle c.reader
    → IsHandle c.writer
    → count q (conns ++ opened_by c.reader ++ opened_by c.writer)
      ≡ count q (conns ++ if_open (handle_of c.reader) ++ if_open (handle_of c.writer))
made-if_open q c conns hr hw = omega (
  arith,
  count-append q (conns ++ opened_by c.reader) (opened_by c.writer),
  count-append q conns (opened_by c.reader),
  count-append q (conns ++ if_open (handle_of c.reader)) (if_open (handle_of c.writer)),
  count-append q conns (if_open (handle_of c.reader)),
  opened_by-if_open q c.reader hr,
  opened_by-if_open q c.writer hw,
)

pair_modes-count :
    (r w : ℕ) (x y : Option Errno) (made conns : List ℕ) (q : ℕ)
    → count q made ≡ count q (conns ++ if_open r ++ if_open w)
    → (r == 0 || w == 0) ≡ false
    → let a = pair_modes r w x y made conns in
      count q a.opened ≡ count q a.closed + count q (closed_by end_pair a.result)
unfolding pair_modes
pair_modes-count r w (some e) y made conns q h n = ground (
  arith,
  count-append q (conns ++ if_open r) (if_open w),
  count-append q conns (if_open r),
  count-append q conns (r ∷ w ∷ []),
)
pair_modes-count r w none (some e) made conns q h n = ground (
  arith,
  count-append q (conns ++ if_open r) (if_open w),
  count-append q conns (if_open r),
  count-append q conns (r ∷ w ∷ []),
)
pair_modes-count r w none none made conns q h n = ground (
  arith,
  count-append q (conns ++ if_open r) (if_open w),
  count-append q conns (if_open r),
  count-append q (if_open r) (if_open w),
)

pair_extract-count :
    (c : PairCalls) (conns : List ℕ) (q : ℕ)
    → IsHandle c.reader
    → IsHandle c.writer
    → let a = pair_extract c conns in
      count q a.opened ≡ count q a.closed + count q (closed_by end_pair a.result)
unfolding pair_extract
pair_extract-count c conns q hr hw =
    let r = handle_of c.reader in
    let w = handle_of c.writer in
    elim (Bool-cases (r == 0 || w == 0)) [
      | inl e ↦ rw e (omega (arith, made-if_open q c conns hr hw))
      | inr e ↦ rw e (
          pair_modes-count r w c.reader_mode c.writer_mode _ conns q (made-if_open q c conns hr hw)
            e)
    ]

pair_accept-count :
    (c : PairCalls) (l : ℕ) (dial accept : Call) (q : ℕ)
    → IsHandle c.reader
    → IsHandle c.writer
    → let a = pair_accept c l dial accept in
      count q a.opened
      ≡ count q a.closed + count q (closed_by end_pair a.result) + count q (accept_left dial accept)
unfolding pair_accept
pair_accept-count c l dial (refuses e) q hr hw = omega arith
pair_accept-count c l (refuses e) (gives a) q hr hw = omega arith
pair_accept-count c l (gives d) (gives a) q hr hw =
    omega (arith, pair_extract-count c (l ∷ d ∷ a ∷ []) q hr hw)

create_socket_pair-count :
    (c : PairCalls) (q : ℕ)
    → IsHandle c.reader
    → IsHandle c.writer
    → let a = create_socket_pair c in
      count q a.opened
      ≡ count q a.closed + count q (closed_by end_pair a.result) + count q (pair_left c)
unfolding create_socket_pair
create_socket_pair-count c q hr hw = by_listen c.listen
  where
    by_listen :
        (x : Call)
        → let a : Attempt (ℕ × ℕ) = elim x [
          | refuses e ↦ failed (sys e) [] []
          | gives l ↦ pair_accept c l c.dial c.accept
        ] in
          count q a.opened
          ≡ count q a.closed
            + count q (closed_by end_pair a.result)
            + count q (elim x [ refuses e ↦ [] | gives l ↦ accept_left c.dial c.accept ])
    by_listen (refuses e) = refl
    by_listen (gives l) = pair_accept-count c l c.dial c.accept q hr hw

wsa_open-Balanced :
    (c : PairCalls)
    → IsHandle c.reader
    → IsHandle c.writer
    → Balanced (λ p. (wsa_end p).1) (pair_left c) (wsa_open c)
unfolding wsa_open wsa_end
wsa_open-Balanced c hr hw = record {
  ledger = λ q. by_result (create_socket_pair c).result q (create_socket_pair-count c q hr hw);
}
  where
    by_result :
        (x : Option (ℕ × ℕ)) (q : ℕ)
        → count q (create_socket_pair c).opened
          ≡ count q (create_socket_pair c).closed
            + count q (closed_by end_pair x)
            + count q (pair_left c)
        → count q (create_socket_pair c).opened
          ≡ count q (create_socket_pair c).closed
            + count q (
                closed_by
                  (λ p. (wsa_end p).1)
                  (elim x [
                    | none ↦ none
                    | some (r, w) ↦ some (record { reader = r; writer = w; die = false })
                  ]))
            + count q (pair_left c)
    by_result none q h = h
    by_result (some (r, w)) q h = h

wsa_dupconn-Balanced :
    (a : Access) (dup : Option Errno) (socket : Call) (mode : Option Errno)
    → Balanced (λ h. h ∷ []) [] (wsa_dupconn a dup socket mode)
unfolding wsa_dupconn dup_nonblocking duplicate_socket
wsa_dupconn-Balanced no_syscall_conn dup socket mode = record { ledger = λ q. refl }
wsa_dupconn-Balanced syscall_conn_fails dup socket mode = record { ledger = λ q. refl }
wsa_dupconn-Balanced (control_fails e) dup socket mode = record { ledger = λ q. refl }
wsa_dupconn-Balanced (control fd) (some e) socket mode = record { ledger = λ q. refl }
wsa_dupconn-Balanced (control fd) none (refuses e) mode = record { ledger = λ q. refl }
wsa_dupconn-Balanced (control fd) none (gives h) (some e) = record { ledger = λ q. omega arith }
wsa_dupconn-Balanced (control fd) none (gives h) none = record { ledger = λ q. omega arith }

-- On Windows, where a duplicated socket is never 0: whatever its calls give, openPoll closes the
-- listener, both connections and each duplicate that it opens, once each, or leaves a duplicate in
-- the poller, where the end of Wait closes it, once; except that a failure of Accept leaves the
-- connection open that the goroutine has dialed. And dupconn returns the duplicate that it opens, or
-- closes it.
pub windows-Balanced :
    (c : PairCalls) (a : Access) (dup : Option Errno) (socket : Call) (mode : Option Errno)
    → IsHandle c.reader
    → IsHandle c.writer
    → Balanced (λ p. (wsa_end p).1) (pair_left c) (wsa_open c)
      × Balanced (λ h. h ∷ []) [] (wsa_dupconn a dup socket mode)
windows-Balanced c a dup socket mode hr hw =
    (wsa_open-Balanced c hr hw, wsa_dupconn-Balanced a dup socket mode)
