-- ===== src/Setup/Raw.antt =====
-- rawRead and rawWrite (aio_linux.go, aio_bsd.go, aio_windows.go): what they make of the system
-- call. Both treat it in the same way.
use gaio.Common.{
  ==_refl, Bool-cases, inl, inr, Bool, true, ℕ, ◌+◌, ◌≡◌, refl, false, Option, none, some,
  if◌then◌else◌, ◌==◌, arith,
}
use gaio.Types.{Aiocb, buffer_length, Error, eof, sys, eagain, enobufs, errno}
use gaio.Kernel.{Reply, moved, failed, interrupted}
use gaio.Transfer.{read_loop, write_loop}

-- The results: the number of bytes, `none` for -1, and the number of an error, 0 for nil.
pub record Raw : Type 0 where
  pub n : Option ℕ
  pub err : ℕ

-- On Linux and BSD, where the system call gives `r0` and `e1`.
unfoldable pub unix_raw : ℕ → ℕ → Raw
unix_raw r0 e1 = if e1 == 0 then record { n = some r0; err = 0 } else record { n = none; err = e1 }

abbrev pub wsaewouldblock : ℕ
wsaewouldblock = 10035

-- On Windows, for a buffer of `len` bytes, where WSARecv or WSASend gives `ret`, its error and the
-- bytes moved. `again` is the value of syscall.EAGAIN.
unfoldable pub wsa_raw : ℕ → ℕ → ℕ → ℕ → ℕ → Raw
wsa_raw again len ret code bytes =
    if len == 0
    then record { n = some 0; err = 0 }
    else if ret == 0
    then record { n = some bytes; err = 0 }
    else if code == wsaewouldblock
    then record { n = none; err = again }
    else record { n = none; err = code }

-- rawWrite.
unfoldable pub unix_raw_write : ℕ → ℕ → Raw
unix_raw_write r0 e1 =
    if e1 == 0 then record { n = some r0; err = 0 } else record { n = none; err = e1 }

unfoldable pub wsa_raw_write : ℕ → ℕ → ℕ → ℕ → ℕ → Raw
wsa_raw_write again len ret code sent =
    if len == 0
    then record { n = some 0; err = 0 }
    else if ret == 0
    then record { n = some sent; err = 0 }
    else if code == wsaewouldblock
    then record { n = none; err = again }
    else record { n = none; err = code }

-- The error numbers of a system that the callers test for.
pub record Errnos : Type 0 where
  pub intr : ℕ
  pub again : ℕ
  pub nobufs : ℕ

-- What a caller sees, with the reply to its next attempt, which only follows an EINTR.
unfoldable pub seen : Errnos → Raw → Reply → Reply
seen s r next = elim r.n [
  | some n ↦ moved n
  | none ↦
      if r.err == s.intr
      then interrupted next
      else failed
          (if r.err == s.again then eagain else if r.err == s.nobufs then enobufs else errno r.err)
]

-- How tryRead goes on after an error number.
abbrev pub read_error : Errnos → ℕ → Reply → ℕ → Option (ℕ × Option Error)
read_error s e next size =
    if e == s.intr
    then read_loop size next
    else if e == s.again
    then none
    else some (size, some (sys (if e == s.nobufs then enobufs else errno e)))

wsa_raw-read_loop :
    (s : Errnos) (len ret code bytes size : ℕ) (next : Reply)
    → (s.again == s.intr) ≡ false
    → read_loop size (seen s (wsa_raw s.again len ret code bytes) next) ≡ (
        if len == 0
        then some (size + 0, some eof)
        else if ret == 0
        then some (size + bytes, if bytes == 0 then some eof else none)
        else if code == wsaewouldblock
        then none
        else read_error s code next size)
unfolding read_loop seen wsa_raw
wsa_raw-read_loop s len ret code bytes size next h = ground arith

unix_raw-read_loop :
    (s : Errnos) (r0 e1 size : ℕ) (next : Reply)
    → read_loop size (seen s (unix_raw r0 e1) next) ≡ (
        if e1 == 0
        then some (size + r0, if r0 == 0 then some eof else none)
        else read_error s e1 next size)
unfolding read_loop seen unix_raw
unix_raw-read_loop s r0 e1 size next = ground arith

-- How tryWrite goes on after an error number: not complete after EAGAIN and ENOBUFS.
abbrev pub write_error : Errnos → ℕ → Reply → Aiocb → Bool × Aiocb
write_error s e next cb =
    if e == s.intr
    then write_loop cb next
    else if e == s.again
    then (false, record cb { err = some (sys eagain) })
    else if e == s.nobufs
    then (false, record cb { err = some (sys enobufs) })
    else (true, record cb { err = some (sys (errno e)) })

-- After `n` bytes.
abbrev pub written : ℕ → Aiocb → Bool × Aiocb
written n cb =
    (cb.size + n == buffer_length cb.buffer, record cb { err = none; size = cb.size + n })

seen-write_error :
    (s : Errnos) (e : ℕ) (next : Reply) (cb : Aiocb)
    → write_loop cb (seen s (record { n = none; err = e }) next) ≡ write_error s e next cb
unfolding write_loop seen
seen-write_error s e next cb = elim (Bool-cases (e == s.intr)) [
  | inl i ↦ rw i refl
  | inr i ↦ elim (Bool-cases (e == s.again)) [
    | inl a ↦ rw (i, a) refl
    | inr a ↦ elim (Bool-cases (e == s.nobufs)) [
      | inl b ↦ rw (i, a, b) refl
      | inr b ↦ rw (i, a, b) refl
    ]
  ]
]

-- What the two loops make of the wrappers of Linux and BSD, and of those of Windows.
pub record Wrapped (s : Errnos) (next : Reply) : Type 0 where
  pub unix_read :
      (r0 e1 size : ℕ)
      → read_loop size (seen s (unix_raw r0 e1) next) ≡ (
          if e1 == 0
          then some (size + r0, if r0 == 0 then some eof else none)
          else read_error s e1 next size)
  pub wsa_read :
      (len ret code bytes size : ℕ)
      → read_loop size (seen s (wsa_raw s.again len ret code bytes) next) ≡ (
          if len == 0
          then some (size + 0, some eof)
          else if ret == 0
          then some (size + bytes, if bytes == 0 then some eof else none)
          else if code == wsaewouldblock
          then none
          else read_error s code next size)
  pub unix_write :
      (r0 e1 : ℕ) (cb : Aiocb)
      → write_loop cb (seen s (unix_raw_write r0 e1) next)
        ≡ (if e1 == 0 then written r0 cb else write_error s e1 next cb)
  pub wsa_write :
      (len ret code sent : ℕ) (cb : Aiocb)
      → write_loop cb (seen s (wsa_raw_write s.again len ret code sent) next) ≡ (
          if len == 0
          then written 0 cb
          else if ret == 0
          then written sent cb
          else if code == wsaewouldblock
          then (false, record cb { err = some (sys eagain) })
          else write_error s code next cb)

unix_raw_write-write_loop :
    (s : Errnos) (next : Reply) (r0 e1 : ℕ) (cb : Aiocb)
    → write_loop cb (seen s (unix_raw_write r0 e1) next)
      ≡ (if e1 == 0 then written r0 cb else write_error s e1 next cb)
unfolding write_loop seen unix_raw_write
unix_raw_write-write_loop s next r0 e1 cb = elim (Bool-cases (e1 == 0)) [
  | inl z ↦ rw z refl
  | inr z ↦ rw z (seen-write_error s e1 next cb)
]

wsa_raw_write-write_loop :
    (s : Errnos) (next : Reply) (len ret code sent : ℕ) (cb : Aiocb)
    → (s.again == s.intr) ≡ false
    → write_loop cb (seen s (wsa_raw_write s.again len ret code sent) next) ≡ (
        if len == 0
        then written 0 cb
        else if ret == 0
        then written sent cb
        else if code == wsaewouldblock
        then (false, record cb { err = some (sys eagain) })
        else write_error s code next cb)
unfolding write_loop seen wsa_raw_write
wsa_raw_write-write_loop s next len ret code sent cb h = elim (Bool-cases (len == 0)) [
  | inl z ↦ rw z refl
  | inr z ↦ elim (Bool-cases (ret == 0)) [
    | inl r ↦ rw (z, r) refl
    | inr r ↦ elim (Bool-cases (code == wsaewouldblock)) [
      | inl b ↦ rw (z, r, b) (rw (h, ==_refl s.again) refl)
      | inr b ↦ rw (z, r, b) (seen-write_error s code next cb)
    ]
  ]
]

-- Where EAGAIN and EINTR are different numbers: with rawRead and rawWrite of Linux and BSD, the
-- loops of tryRead and tryWrite try again on EINTR, wait on EAGAIN, report any other error (tryWrite
-- waits on ENOBUFS), and take a read of no bytes for io.EOF. With those of Windows the same holds,
-- except that WSAEWOULDBLOCK stands for EAGAIN, and that an empty buffer gives a transfer of no
-- bytes without a call.
pub loops-Wrapped : (s : Errnos) (next : Reply) → (s.again == s.intr) ≡ false → Wrapped s next
loops-Wrapped s next h = record {
  unix_read = λ r0 e1 size. unix_raw-read_loop s r0 e1 size next;
  wsa_read = λ len ret code bytes size. wsa_raw-read_loop s len ret code bytes size next h;
  unix_write = unix_raw_write-write_loop s next;
  wsa_write = λ len ret code sent cb. wsa_raw_write-write_loop s next len ret code sent cb h;
}
