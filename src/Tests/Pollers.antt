-- ===== src/Tests/Pollers.antt =====
-- Runs of the pollers (aio_linux.go, aio_bsd.go, aio_windows.go).
use gaio.Common.{◌≡◌, refl, [], ◌∷◌, ◌||◌, ◌&&◌, lookup, insert, delete}
use gaio.Types.{ev_read, ev_write}
use gaio.Poller.Table.{Table, open_table, watch, unwatch, IsTable, open_table-IsTable, Unwatched}
use gaio.Poller.Table.Unwatch.{unwatch-Unwatched}
use gaio.Poller.Table.Watch.{watch-Watched}
use gaio.Poller.Events.{
  has, e_set, r_set, w_set, epoll_event, epoll_events, events-ready, evfilt_read, kqueue_event,
  kqueue_events, flag_error, flag_eof, is_read, is_write,
}

-- EPOLLHUP on one descriptor, EPOLLOUT on another, and the eventfd.
epoll_run :
    epoll_events 4 ((7, 0x10) ∷ (4, 0x1) ∷ (9, 0x4) ∷ [])
    ≡ record { ident = 7; ev = 3 } ∷ record { ident = 9; ev = 2 } ∷ []
unfolding epoll_events epoll_event
epoll_run = refl

kqueue_run :
    kqueue_events ((0, evfilt_read, 0) ∷ (7, evfilt_read, 0x8000) ∷ [])
    ≡ record { ident = 7; ev = 3 } ∷ []
unfolding kqueue_events kqueue_event
kqueue_run = refl

abbrev three : Table
three = watch (watch (open_table 2) 5) 8

two-IsTable : IsTable (watch (open_table 2) 5)
two-IsTable = (watch-Watched (open_table 2) 5 (open_table-IsTable 2)).valid

three-IsTable : IsTable three
three-IsTable = (watch-Watched (watch (open_table 2) 5) 8 two-IsTable).valid

-- The last socket takes the place of the one that is removed.
unwatch_run : (unwatch three 5).fd_map ≡ (2, 0) ∷ (8, 1) ∷ []
unfolding unwatch watch open_table lookup insert delete
unwatch_run = refl

unwatch-Unwatched_example : Unwatched three 5 (unwatch three 5)
unwatch-Unwatched_example = unwatch-Unwatched three 5 three-IsTable

events-ready_example :
    (let e = epoll_event 7 0x8001 in
      (has e.ev ev_read ≡ (has 0x8001 e_set || has 0x8001 r_set))
      × (has e.ev ev_write ≡ (has 0x8001 e_set || has 0x8001 w_set)))
    × (let e = kqueue_event 7 evfilt_read 0x8001 in
        (has e.ev ev_read ≡ (has 0x8001 flag_error || is_read evfilt_read))
        × (has e.ev ev_write ≡ (
            has 0x8001 flag_error
            || (is_write evfilt_read || (is_read evfilt_read && has 0x8001 flag_eof)))))
events-ready_example = events-ready 7 0x8001 evfilt_read
