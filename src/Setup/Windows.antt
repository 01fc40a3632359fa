-- ===== src/Setup/Windows.antt =====
-- The sockets of the poller for Windows (aio_windows.go): the pair that wakes it, duplication, and
-- non-blocking mode.
use gaio.Common.{
  ℕ, Bool, true, false, ◌||◌, List, [], ◌∷◌, ◌++◌, Option, none, some, if◌then◌else◌, ◌==◌,
}
use gaio.Types.{Error, unsupported, sys, poller_closed, Errno}
use gaio.Kernel.{Access, no_syscall_conn, syscall_conn_fails, control_fails, control}
use gaio.Setup.{Call, gives, refuses, Attempt, gave, failed}

-- duplicateSocket: what WSADuplicateSocketW and WSASocketW give.
unfoldable pub duplicate_socket : Option Errno → Call → Call
duplicate_socket (some e) socket = refuses e
duplicate_socket none socket = socket

-- What dupconn does with a handle for which it asks for non-blocking mode.
unfoldable pub dup_nonblocking : Call → Option Errno → Attempt ℕ
dup_nonblocking (refuses e) mode = failed (sys e) [] []
dup_nonblocking (gives h) (some e) = failed (sys e) (h ∷ []) (h ∷ [])
dup_nonblocking (gives h) none = gave h (h ∷ []) []

-- dupconn
unfoldable pub wsa_dupconn : Access → Option Errno → Call → Option Errno → Attempt ℕ
wsa_dupconn no_syscall_conn dup socket mode = failed unsupported [] []
wsa_dupconn syscall_conn_fails dup socket mode = failed unsupported [] []
wsa_dupconn (control_fails e) dup socket mode = failed e [] []
wsa_dupconn (control fd) dup socket mode = dup_nonblocking (duplicate_socket dup socket) mode

-- The calls of createSocketPair: listen, dial and accept; the duplicates of the accepted and of the
-- dialed connection; the mode of the two.
pub record PairCalls : Type 0 where
  pub listen : Call
  pub dial : Call
  pub accept : Call
  pub reader : Call
  pub writer : Call
  pub reader_mode : Option Errno
  pub writer_mode : Option Errno
  pub no_pair : Error

-- A handle, 0 if there is none, and what is opened by it.
abbrev pub handle_of : Call → ℕ
handle_of (gives h) = h
handle_of (refuses e) = 0

abbrev pub opened_by : Call → List ℕ
opened_by (gives h) = h ∷ []
opened_by (refuses e) = []

-- The two tests `readerFd != 0` and `writerFd != 0` before a close.
abbrev pub if_open : ℕ → List ℕ
if_open h = if h == 0 then [] else h ∷ []

-- The two non-blocking modes.
unfoldable pub pair_modes : ℕ → ℕ → Option Errno → Option Errno → List ℕ → List ℕ → Attempt (ℕ × ℕ)
pair_modes r w (some e) mode made shut = failed (sys e) made (shut ++ r ∷ w ∷ [])
pair_modes r w none (some e) made shut = failed (sys e) made (shut ++ r ∷ w ∷ [])
pair_modes r w none none made shut = gave (r, w) made shut

-- From where both connections are there: `conns` are the listener, the dialed and the accepted one.
unfoldable pub pair_extract : PairCalls → List ℕ → Attempt (ℕ × ℕ)
pair_extract c conns =
    let r = handle_of c.reader in
    let w = handle_of c.writer in
    let all = conns ++ opened_by c.reader ++ opened_by c.writer in
    if r == 0 || w == 0
    then failed c.no_pair all (conns ++ if_open r ++ if_open w)
    else pair_modes r w c.reader_mode c.writer_mode all conns

-- The goroutine dials at the same time; its result is read only once a connection is accepted.
unfoldable pub pair_accept : PairCalls → ℕ → Call → Call → Attempt (ℕ × ℕ)
pair_accept c l dial (refuses e) = failed (sys e) (l ∷ opened_by dial) (l ∷ [])
pair_accept c l (refuses e) (gives a) = failed (sys e) (l ∷ a ∷ []) (l ∷ a ∷ [])
pair_accept c l (gives d) (gives a) = pair_extract c (l ∷ d ∷ a ∷ [])

-- createSocketPair
unfoldable pub create_socket_pair : PairCalls → Attempt (ℕ × ℕ)
create_socket_pair c = elim c.listen [
  | refuses e ↦ failed (sys e) [] []
  | gives l ↦ pair_accept c l c.dial c.accept
]

-- The poller's sockets, 0 for none, and whether `die` is closed.
pub record WsaSockets : Type 0 where
  pub reader : ℕ
  pub writer : ℕ
  pub die : Bool

-- openPoll, less its poll set.
unfoldable pub wsa_open : PairCalls → Attempt WsaSockets
wsa_open c =
    let a = create_socket_pair c in
    record {
      result = elim a.result [
        | none ↦ none
        | some (r, w) ↦ some (record { reader = r; writer = w; die = false })
      ];
      error = a.error;
      opened = a.opened;
      closed = a.closed;
    }

-- wakeup, which does not report an error of WSASend.
unfoldable pub wsa_wakeup : WsaSockets → Option Error
wsa_wakeup p = if p.writer == 0 then some poller_closed else none

unfoldable pub wsa_close : WsaSockets → WsaSockets × Option Error
wsa_close p = (record p { die = true }, wsa_wakeup p)

-- Wait's deferred function, with what it closes.
unfoldable pub wsa_end : WsaSockets → WsaSockets × List ℕ
wsa_end p = (record p { reader = 0; writer = 0 }, if_open p.reader ++ if_open p.writer)
