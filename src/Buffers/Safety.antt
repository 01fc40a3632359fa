-- ===== src/Buffers/Safety.antt =====
-- Which bytes the next attempt to read spares (watcher.go, the three shared buffers): the invariant
-- over attempts, deliveries and WaitIO.
use gaio.Common.{
  ℕ, ◌+◌, ◌-◌, ◌≤◌, ◌≡◌, ◌≢◌, refl, sym, subst, ◌⊎◌, inl, inr, true, [], Option, none, some, arith,
  ltb, Bool-cases,
}
use gaio.Types.{eagain, enobufs, errno}
use gaio.Kernel.{Reply, moved, failed, interrupted}
use gaio.Transfer.{Swap, rotate, choose_buffer, choose_shared, read_step, read_loop, finish_read}
use gaio.System.{new_watcher_size}
use gaio.Buffers.{
  Slice, Buffers, attempt, queued_with, hand_over, collect, Step, read, deliver, wait, Reach, here,
  next,
}
use gaio.Buffers.Ages.{
  All, All-map, All-snoc, IsSpared, Age, Young, rotate-idle, Age-rotate, Young-rotate, Age-advance,
  Young-advance, Young-Age, Young-Age_now, Age-IsSpared,
}

pub record IsKept (b : Buffers) : Type 0 where
  pub held : All (IsSpared b.shared) b.held
  pub queue : All (IsSpared b.shared) b.queue

abbrev pub InFront : Swap → Option Slice → Type 0
InFront s none = Unit
InFront s (some x) = (x.buf ≡ s.front) × (x.end ≤ s.offset)

abbrev pub IsApart : Swap → Type 0
IsApart s = (s.front ≢ s.middle) × (s.middle ≢ s.back) × (s.back ≢ s.front)

pub record Ages (b : Buffers) : Type 0 where
  pub apart : IsApart b.shared
  pub held : All (Age b.shared) b.held
  pub queue : All (Young b.shared) b.queue
  pub flight : InFront b.shared b.flight

-- What an attempt leaves.
record Attempted (s : Swap) (s' : Swap) (x : Option Slice) : Type 0 where
  taken : ℕ
  shared : s' ≡ (record (rotate s) { offset = (rotate s).offset + taken })
  flight :
      (x ≡ none) ⊎ (x ≡ some (record { buf = (rotate s).front; end = (rotate s).offset + taken }))

offset_same : (s : Swap) → s ≡ (record s { offset = s.offset + 0 })
offset_same s = ground arith

attempt-Attempted :
    (b : Buffers) (r : Reply) → Attempted b.shared (attempt b r).shared (attempt b r).flight
unfolding attempt read_step read_loop finish_read choose_buffer choose_shared
attempt-Attempted b (interrupted r) =
    let x = attempt-Attempted b r in
    record { taken = x.taken; shared = x.shared; flight = x.flight }
attempt-Attempted b (failed eagain) =
    elim (Bool-cases (ltb 0 ((rotate b.shared).size - (rotate b.shared).offset))) [
      | inl e ↦
          rw e (record { taken = 0; shared = offset_same (rotate b.shared); flight = inl refl })
      | inr e ↦
          rw e (record { taken = 0; shared = offset_same (rotate b.shared); flight = inl refl })
    ]
attempt-Attempted b (failed enobufs) =
    elim (Bool-cases (ltb 0 ((rotate b.shared).size - (rotate b.shared).offset))) [
      | inl e ↦ rw e (record { taken = 0; shared = refl; flight = inr refl })
      | inr e ↦
          rw e (record { taken = 0; shared = offset_same (rotate b.shared); flight = inl refl })
    ]
attempt-Attempted b (failed (errno n)) =
    elim (Bool-cases (ltb 0 ((rotate b.shared).size - (rotate b.shared).offset))) [
      | inl e ↦ rw e (record { taken = 0; shared = refl; flight = inr refl })
      | inr e ↦
          rw e (record { taken = 0; shared = offset_same (rotate b.shared); flight = inl refl })
    ]
attempt-Attempted b (moved n) =
    elim (Bool-cases (ltb 0 ((rotate b.shared).size - (rotate b.shared).offset))) [
      | inl e ↦ rw e (record { taken = 0 + n; shared = refl; flight = inr refl })
      | inr e ↦
          rw e (record { taken = 0; shared = offset_same (rotate b.shared); flight = inl refl })
    ]

pub Ages-IsKept : (b : Buffers) → Ages b → IsKept b
Ages-IsKept b v =
    let (fm, mb, bf) = v.apart in
    record {
      held =
          All-map (Age b.shared) (IsSpared b.shared) (λ x a. Age-IsSpared b.shared x fm mb bf a)
            b.held v.held;
      queue =
          All-map (Young b.shared) (IsSpared b.shared)
            (λ x a. Age-IsSpared b.shared x fm mb bf (Young-Age_now b.shared x a)) b.queue v.queue;
    }

rotate-IsApart : (s : Swap) → IsApart s → IsApart (rotate s)
unfolding rotate
rotate-IsApart s (fm, mb, bf) = elim (Bool-cases s.should_swap) [
  | inl e ↦ rw e (mb, bf, fm)
  | inr e ↦ subst IsApart (sym (rotate-idle s e)) (fm, mb, bf)
]

Attempted-Ages :
    (b c : Buffers)
    → Attempted b.shared c.shared c.flight
    → c.held ≡ b.held
    → c.queue ≡ b.queue
    → Ages b
    → Ages c
Attempted-Ages b c t held queue v =
    let turned = rotate b.shared in
    record {
      apart = rw t.shared (rotate-IsApart b.shared v.apart);
      held =
          rw (t.shared, held)
            (All-map (Age b.shared) (Age (record turned { offset = turned.offset + t.taken }))
              (λ x a. Age-advance turned t.taken x (Age-rotate b.shared x a)) b.held v.held);
      queue =
          rw (t.shared, queue)
            (All-map (Young b.shared) (Young (record turned { offset = turned.offset + t.taken }))
              (λ x a. Young-advance turned t.taken x (Young-rotate b.shared x a)) b.queue v.queue);
      flight = elim t.flight [ inl e ↦ rw e tt | inr e ↦ rw (e, t.shared) (refl, omega arith) ];
    }

pub attempt-Ages : (b : Buffers) (r : Reply) → Ages b → Ages (attempt b r)
unfolding attempt
attempt-Ages b r v = Attempted-Ages b (attempt b r) (attempt-Attempted b r) refl refl v

pub hand_over-Ages : (b : Buffers) → Ages b → Ages (hand_over b)
unfolding hand_over
hand_over-Ages b v = record {
  apart = v.apart;
  held = v.held;
  queue = queued_with-Young b.flight v.flight;
  flight = tt;
}
  where
    queued_with-Young :
        (x : Option Slice) → InFront b.shared x → All (Young b.shared) (queued_with b.queue x)
    queued_with-Young none f = v.queue
    queued_with-Young (some x) (e, o) =
        All-snoc (Young b.shared) b.queue x v.queue (Young.front e o)

collect-Ages : (b : Buffers) → Ages b → Ages (collect b)
unfolding collect
collect-Ages b v = record {
  apart = v.apart;
  held =
      All-map (Young b.shared) (Age (record (b.shared) { should_swap = true }))
        (λ x a. Young-Age b.shared x a) b.queue v.queue;
  queue = tt;
  flight = in_front b.flight v.flight;
}
  where
    in_front :
        (x : Option Slice)
        → InFront b.shared x
        → InFront (record (b.shared) { should_swap = true }) x
    in_front none f = f
    in_front (some x) f = f

Step-Ages : {b c : Buffers} → Step b c → Ages b → Ages c
Step-Ages (read {b} r idle w) v = attempt-Ages b r v
Step-Ages (deliver {b}) v = hand_over-Ages b v
Step-Ages (wait {b}) v = collect-Ages b v

Reach-Ages : {b c : Buffers} → Ages b → Reach b c → Ages c
Reach-Ages v here = v
Reach-Ages v (next r st) = Step-Ages st (Reach-Ages v r)

-- The buffers of a new watcher.
abbrev pub initial : ℕ → Buffers
initial size = record {
  shared = (new_watcher_size size).watcher.shared;
  flight = none;
  queue = [];
  held = [];
}

pub initial-Ages : (size : ℕ) → Ages (initial size)
unfolding new_watcher_size
initial-Ages size = record {
  apart = (λ e. omega arith, λ e. omega arith, λ e. omega arith);
  held = tt;
  queue = tt;
  flight = tt;
}

-- From the buffers of a new watcher of any size, after any sequence of attempts to read into them,
-- deliveries and WaitIO calls, each WaitIO in one piece and each delivery at any time after its
-- read: for every result in chResults and every result that the last WaitIO returned, the next
-- attempt to read, with the rotation that it may start with, does not write into the bytes of the
-- result.
pub initial-IsKept : (size : ℕ) {b : Buffers} → Reach (initial size) b → IsKept b
unfolding new_watcher_size
initial-IsKept size {b} r = Ages-IsKept b (Reach-Ages (initial-Ages size) r)
