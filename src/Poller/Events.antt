-- ===== src/Poller/Events.antt =====
-- How the pollers translate what the system reports: epoll (aio_linux.go), kqueue (aio_bsd.go) and
-- WSAPoll (aio_windows.go). The values of the flags are those of the systems' headers.
use Prim.Native.Nat.{bit_and, bit_or}
use gaio.Common.{
  ℕ, ◌≡◌, refl, Bool, true, false, not, ◌&&◌, ◌||◌, List, [], ◌∷◌, if◌then◌else◌, ◌==◌, Bool-cases,
  inl, inr,
}
use gaio.Types.{Event, ev_read, ev_write}
use gaio.Poller.Table.{Table, fd_at, unwatch, IsTable, watches}

-- `flags & mask != 0`
abbrev pub has : ℕ → ℕ → Bool
has flags mask = not (bit_and flags mask == 0)

-- EPOLLIN | EPOLLRDHUP, EPOLLOUT and EPOLLERR | EPOLLHUP.
abbrev pub r_set : ℕ
r_set = 0x2001

abbrev pub w_set : ℕ
w_set = 0x4

abbrev pub e_set : ℕ
e_set = 0x18

-- `ev |= bits` under a test.
abbrev pub add_if : Bool → ℕ → ℕ → ℕ
add_if b bits ev = if b then bit_or ev bits else ev

unfoldable pub epoll_event : ℕ → ℕ → Event
epoll_event fd flags = record {
  ident = fd;
  ev =
      add_if (has flags w_set) ev_write
        (add_if (has flags r_set) ev_read (add_if (has flags e_set) (bit_or ev_read ev_write) 0));
}

-- The loop of Wait on Linux over what epoll_wait returned: `efd` only wakes the poller.
unfoldable pub epoll_events : ℕ → List (ℕ × ℕ) → List Event
epoll_events efd [] = []
epoll_events efd ((fd, flags) ∷ es) =
    let rest = epoll_events efd es in if fd == efd then rest else epoll_event fd flags ∷ rest

pub data Filter : Type 0 where
  evfilt_read evfilt_write evfilt_other : Filter

abbrev pub flag_error : ℕ
flag_error = 0x4000

abbrev pub flag_eof : ℕ
flag_eof = 0x8000

abbrev pub kqueue_filter : Filter → ℕ → ℕ
kqueue_filter evfilt_read flags = add_if (has flags flag_eof) ev_write (bit_or 0 ev_read)
kqueue_filter evfilt_write flags = bit_or 0 ev_write
kqueue_filter evfilt_other flags = 0

unfoldable pub kqueue_event : ℕ → Filter → ℕ → Event
kqueue_event ident filter flags = record {
  ident = ident;
  ev = (if has flags flag_error then bit_or ev_read ev_write else kqueue_filter filter flags);
}

-- The loop of Wait on BSD over what kevent returned; the identity 0 is the one that wakes the
-- poller.
unfoldable pub kqueue_events : List (ℕ × Filter × ℕ) → List Event
kqueue_events [] = []
kqueue_events ((ident, filter, flags) ∷ es) =
    let rest = kqueue_events es in
    if ident == 0 then rest else kqueue_event ident filter flags ∷ rest

-- POLLRDNORM | POLLHUP | POLLERR, POLLWRNORM | POLLERR and POLLNVAL.
abbrev pub wsa_read : ℕ
wsa_read = 0x0103

abbrev pub wsa_write : ℕ
wsa_write = 0x0011

abbrev pub wsa_invalid : ℕ
wsa_invalid = 0x0004

unfoldable pub wsa_event : ℕ → ℕ → Event
wsa_event fd flags = record {
  ident = fd;
  ev = add_if (has flags wsa_write) ev_write (add_if (has flags wsa_read) ev_read 0);
}

-- The loop of Wait on Windows over the snapshot that WSAPoll has filled in.
unfoldable pub wsa_events : ℕ → Table → List (ℕ × ℕ) → Table × List Event
wsa_events reader t [] = (t, [])
wsa_events reader t ((fd, flags) ∷ es) =
    let skipped = flags == 0 || fd == reader in
    let invalid = not skipped && has flags wsa_invalid in
    let e = wsa_event fd flags in
    let (t', rest) = wsa_events reader (if invalid then unwatch t fd else t) es in
    (t', if skipped || invalid || e.ev == 0 then rest else e ∷ rest)

epoll_event-ready :
    (fd flags : ℕ)
    → let e = epoll_event fd flags in
      (has e.ev ev_read ≡ (has flags e_set || has flags r_set))
      × (has e.ev ev_write ≡ (has flags e_set || has flags w_set))
unfolding epoll_event
epoll_event-ready fd flags = elim (Bool-cases (has flags e_set)) [
  | inl e ↦ elim (Bool-cases (has flags r_set)) [
    | inl r ↦ elim (Bool-cases (has flags w_set)) [
      | inl w ↦ rw (e, r, w) (refl, refl)
      | inr w ↦ rw (e, r, w) (refl, refl)
    ]
    | inr r ↦ elim (Bool-cases (has flags w_set)) [
      | inl w ↦ rw (e, r, w) (refl, refl)
      | inr w ↦ rw (e, r, w) (refl, refl)
    ]
  ]
  | inr e ↦ elim (Bool-cases (has flags r_set)) [
    | inl r ↦ elim (Bool-cases (has flags w_set)) [
      | inl w ↦ rw (e, r, w) (refl, refl)
      | inr w ↦ rw (e, r, w) (refl, refl)
    ]
    | inr r ↦ elim (Bool-cases (has flags w_set)) [
      | inl w ↦ rw (e, r, w) (refl, refl)
      | inr w ↦ rw (e, r, w) (refl, refl)
    ]
  ]
]

abbrev pub is_read : Filter → Bool
is_read evfilt_read = true
is_read evfilt_write = false
is_read evfilt_other = false

abbrev pub is_write : Filter → Bool
is_write evfilt_read = false
is_write evfilt_write = true
is_write evfilt_other = false

kqueue_event-ready :
    (ident : ℕ) (filter : Filter) (flags : ℕ)
    → let e = kqueue_event ident filter flags in
      (has e.ev ev_read ≡ (has flags flag_error || is_read filter))
      × (has e.ev ev_write
          ≡ (has flags flag_error || (is_write filter || (is_read filter && has flags flag_eof))))
unfolding kqueue_event
kqueue_event-ready ident evfilt_write flags = elim (Bool-cases (has flags flag_error)) [
  | inl e ↦ rw e (refl, refl)
  | inr e ↦ rw e (refl, refl)
]
kqueue_event-ready ident evfilt_other flags = elim (Bool-cases (has flags flag_error)) [
  | inl e ↦ rw e (refl, refl)
  | inr e ↦ rw e (refl, refl)
]
kqueue_event-ready ident evfilt_read flags = elim (Bool-cases (has flags flag_error)) [
  | inl e ↦ rw e (refl, refl)
  | inr e ↦ elim (Bool-cases (has flags flag_eof)) [
    | inl f ↦ rw (e, f) (refl, refl)
    | inr f ↦ rw (e, f) (refl, refl)
  ]
]

-- On Linux an event wakes the readers exactly if EPOLLERR, EPOLLHUP, EPOLLIN or EPOLLRDHUP is set,
-- and the writers exactly if EPOLLERR, EPOLLHUP or EPOLLOUT is set. On BSD an event wakes the
-- readers exactly if it has EV_ERROR or is of EVFILT_READ, and the writers exactly if it has
-- EV_ERROR, is of EVFILT_WRITE, or is of EVFILT_READ with EV_EOF.
pub events-ready :
    (fd flags : ℕ) (filter : Filter)
    → (let e = epoll_event fd flags in
        (has e.ev ev_read ≡ (has flags e_set || has flags r_set))
        × (has e.ev ev_write ≡ (has flags e_set || has flags w_set)))
      × (let e = kqueue_event fd filter flags in
          (has e.ev ev_read ≡ (has flags flag_error || is_read filter))
          × (has e.ev ev_write ≡ (
              has flags flag_error || (is_write filter || (is_read filter && has flags flag_eof)))))
events-ready fd flags filter = (epoll_event-ready fd flags, kqueue_event-ready fd filter flags)

-- What Wait on Windows leaves of the table.
pub record Polled (t t' : Table) : Type 0 where
  pub valid : IsTable t'
  pub fewer : (q : ℕ) → watches t' q ≡ true → watches t q ≡ true
  pub wakeup : fd_at t' 0 ≡ fd_at t 0
