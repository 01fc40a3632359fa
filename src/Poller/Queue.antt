-- ===== src/Poller/Queue.antt =====
-- The queue of descriptors to watch on BSD (aio_bsd.go), and the requests for a CPU in the passes
-- of the pollers (aio_linux.go, aio_bsd.go, aio_windows.go).
use mathlib.Core.List.{append_assoc, append-nil}
use gaio.Common.{
  ℕ, ◌≡◌, refl, ap, sym, ◌∙◌, Bool, true, false, List, [], ◌∷◌, ◌++◌, none, some, if◌then◌else◌,
  ◌==◌, Bool-cases, Option-cases, inl, inr,
}
use gaio.Poller.Events.{Filter, epoll_event, epoll_events}
use gaio.Poller.Rounds.{
  Polled, interrupted_call, failed_call, reports, Change, changes_of, Kqueue, kqueue_watch,
  kqueue_prepare, kqueue_finish, kqueue_round, Pinning, pin, epoll_scan,
}

-- What a call of kevent has registered of the changes that it was given.
abbrev pub accepted : {A : Type 0} → Polled A → List Change → List Change
accepted interrupted_call cs = []
accepted (failed_call e) cs = []
accepted (reports x) cs = cs

-- The states of the poller, with the calls of Watch so far and the changes that kevent has
-- accepted.
pub data Queued : Kqueue → List ℕ → List Change → Type 0 where
  opens : (a : Pinning) → Queued (record { watch_queue = []; changes = []; pinning = a }) [] []
  watches :
      {p : Kqueue} {fds : List ℕ} {cs : List Change} (fd : ℕ)
      → Queued p fds cs
      → Queued (kqueue_watch p fd) (fds ++ fd ∷ []) cs
  passes :
      {p : Kqueue} {fds : List ℕ} {cs : List Change} (r : Polled (List (ℕ × Filter × ℕ)))
      → Queued p fds cs
      → Queued (kqueue_round p r).0 fds (cs ++ accepted r (kqueue_prepare p).changes)

changes_of-append : (fds gds : List ℕ) → changes_of (fds ++ gds) ≡ changes_of fds ++ changes_of gds
unfolding changes_of
changes_of-append [] gds = refl
changes_of-append (fd ∷ fds) gds = ap (λ l. changes_of (fd ∷ []) ++ l) (changes_of-append fds gds)

kqueue_finish-accepted :
    (p : Kqueue) (r : Polled (List (ℕ × Filter × ℕ)))
    → ((kqueue_finish p r).0.watch_queue ≡ p.watch_queue)
      × (accepted r p.changes ++ (kqueue_finish p r).0.changes ≡ p.changes)
unfolding kqueue_finish
kqueue_finish-accepted p interrupted_call = (refl, refl)
kqueue_finish-accepted p (failed_call e) = (refl, refl)
kqueue_finish-accepted p (reports x) = (refl, append-nil p.changes)

-- On BSD, for any calls of Watch between any passes of the poller: the changes that the successful
-- calls of kevent were given, then those that wait for the next call, then those of the queue, are
-- together the read and the write registration of every watched descriptor, once each and in the
-- order of the calls, also if calls of kevent were interrupted.
pub Queued-all :
    (p : Kqueue) (fds : List ℕ) (cs : List Change)
    → Queued p fds cs
    → cs ++ (p.changes ++ changes_of p.watch_queue) ≡ changes_of fds
unfolding changes_of kqueue_watch kqueue_round kqueue_prepare
Queued-all p fds cs (opens a) = refl
Queued-all _ _ _ (watches {p = p} {fds = fds} {cs = cs} fd r) =
    let new = changes_of (fd ∷ []) in
    let old = changes_of p.watch_queue in
    ap (λ l. cs ++ (p.changes ++ l)) (changes_of-append p.watch_queue (fd ∷ []))
    ∙ ap (λ l. cs ++ l) (sym (append_assoc p.changes old new))
    ∙ sym (append_assoc cs (p.changes ++ old) new)
    ∙ ap (λ l. l ++ new) (Queued-all p fds cs r)
    ∙ sym (changes_of-append fds (fd ∷ []))
Queued-all _ _ _ (passes {p = p} {fds = fds} {cs = cs} r q) =
    let (empty, kept) = kqueue_finish-accepted (kqueue_prepare p) r in
    let after = (kqueue_finish (kqueue_prepare p) r).0 in
    let given = accepted r (kqueue_prepare p).changes in
    ap (λ l. (cs ++ given) ++ (after.changes ++ changes_of l)) empty
    ∙ ap (λ l. (cs ++ given) ++ l) (append-nil after.changes)
    ∙ append_assoc cs given after.changes
    ∙ ap (λ l. cs ++ l) kept
    ∙ Queued-all p fds cs q

-- The CPUs that are requested, and those that are applied.
abbrev pub waiting_pin : Pinning → List ℕ
waiting_pin a = elim a.cpuid [ none ↦ [] | some c ↦ c ∷ [] ]

pub pin-all :
    (a : Pinning) → ((pin a).cpuid ≡ none) × ((pin a).applied ≡ a.applied ++ waiting_pin a)
unfolding pin
pin-all a = elim (Option-cases a.cpuid) [
  | inl e ↦ rw e (refl, sym (append-nil a.applied))
  | inr (c, e) ↦ rw e (refl, refl)
]

pin-none : (a : Pinning) → a.cpuid ≡ none → pin a ≡ a
unfolding pin
pin-none a e = rw e refl

-- Whether the eventfd is among what epoll_wait reports.
abbrev pub wakes : ℕ → List (ℕ × ℕ) → Bool
wakes efd [] = false
wakes efd ((fd, flags) ∷ es) = if fd == efd then true else wakes efd es

if_same {ℓ} : {A : Type ℓ} (b : Bool) (x : A) → (if b then x else x) ≡ x
if_same true x = refl
if_same false x = refl

-- On Linux, the loop over what epoll_wait reports builds exactly the translated events of all
-- descriptors but the eventfd, and applies the pending request for a CPU, once, exactly if the
-- eventfd is among them.
pub epoll_scan-epoll_events :
    (efd : ℕ) (a : Pinning) (es : List (ℕ × ℕ))
    → ((epoll_scan efd a es).1 ≡ epoll_events efd es)
      × ((epoll_scan efd a es).0 ≡ (if wakes efd es then pin a else a))
unfolding epoll_scan epoll_events
epoll_scan-epoll_events efd a [] = (refl, refl)
epoll_scan-epoll_events efd a ((fd, flags) ∷ es) = elim (Bool-cases (fd == efd)) [
  | inl e ↦
      let (x, y) = epoll_scan-epoll_events efd (pin a) es in
      rw e (
        x,
        y
            ∙ ap (λ z. if wakes efd es then z else pin a) (pin-none (pin a) (pin-all a).0)
            ∙ if_same (wakes efd es) (pin a),
      )
  | inr e ↦
      let (x, y) = epoll_scan-epoll_events efd a es in
      rw e (ap (λ l. epoll_event fd flags ∷ l) x, y)
]
