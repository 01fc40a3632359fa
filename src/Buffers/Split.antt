-- ===== src/Buffers/Split.antt =====
-- The three shared buffers where the loop goes on between the two halves of WaitIO, the last
-- receive and the token (watcher.go).
use gaio.Common.{ℕ, ◌≤◌, ◌≡◌, ◌≢◌, refl, Bool, true, false, [], Option, none, some}
use gaio.Types.{nil, buffer_length}
use gaio.Kernel.{Reply, Within}
use gaio.Transfer.{Swap, choose_buffer}
use gaio.Buffers.{Slice, Buffers, attempt, queued_with, hand_over, empty_results, notify}
use gaio.Buffers.Ages.{
  All, All-map, All-snoc, IsSpared, Age, Young, Young-Age, Young-Age_now, Age-IsSpared,
}
use gaio.Buffers.Safety.{
  IsKept, Ages, InFront, IsApart, Ages-IsKept, attempt-Ages, hand_over-Ages, initial, initial-Ages,
}

-- No WaitIO between its halves, or one in which the loop only reads, only delivers, or does both.
pub data Half : Type 0 where
  outside reading delivering racing : Half

abbrev pub reads : Half → Bool
reads outside = true
reads reading = true
reads delivering = false
reads racing = true

abbrev pub delivers : Half → Bool
delivers outside = true
delivers reading = false
delivers delivering = true
delivers racing = true

pub record Split : Type 0 where
  pub buffers : Buffers
  pub half : Half

-- The steps of the loop and the halves of WaitIO; `racy` allows both between the halves.
pub data Step (racy : Bool) : Split → Split → Type 0 where
  read :
      {s : Split} (r : Reply)
      → reads s.half ≡ true
      → s.buffers.flight ≡ none
      → Within (buffer_length (choose_buffer s.buffers.shared nil).buf) r
      → Step racy s (record s { buffers = attempt s.buffers r })
  deliver :
      {s : Split}
      → delivers s.half ≡ true
      → Step racy s (record s { buffers = hand_over s.buffers })
  empty :
      {s : Split} (h : Half)
      → s.half ≡ outside
      → h ≢ outside
      → (h ≡ racing → racy ≡ true)
      → Step racy s (record { buffers = empty_results s.buffers; half = h })
  put :
      {s : Split}
      → s.half ≢ outside
      → Step racy s (record { buffers = notify s.buffers; half = outside })

pub data Reach (racy : Bool) (s : Split) : Split → Type 0 where
  here : Reach racy s s
  next : {t u : Split} → Reach racy s t → Step racy t u → Reach racy s u

abbrev pub begin : ℕ → Split
begin size = record { buffers = initial size; half = outside }

-- The slices of the front buffer that are written already.
abbrev Fronts : Swap → Slice → Type 0
Fronts s x = (x.buf ≡ s.front) × (x.end ≤ s.offset)

-- Between the halves: what is returned is young still, and what is delivered meanwhile is in front.
record Halfway (b : Buffers) : Type 0 where
  apart : IsApart b.shared
  held : All (Young b.shared) b.held
  queue : All (Fronts b.shared) b.queue
  flight : InFront b.shared b.flight

abbrev Sound : Half → Buffers → Type 0
Sound outside b = Ages b
Sound reading b = Halfway b × (b.queue ≡ [])
Sound delivering b = Halfway b
Sound racing b = ⊥

empty-Halfway : (b : Buffers) → Ages b → Halfway (empty_results b)
unfolding empty_results
empty-Halfway b v = record { apart = v.apart; held = v.queue; queue = tt; flight = v.flight }

attempt-Halfway :
    (b : Buffers) (r : Reply)
    → Halfway b
    → b.queue ≡ []
    → Halfway (attempt b r) × ((attempt b r).queue ≡ [])
unfolding attempt
attempt-Halfway b r v e =
    let old : Buffers = record b { held = []; queue = b.held } in
    let ages : Ages old = record {
      apart = v.apart;
      held = tt;
      queue = v.held;
      flight = v.flight;
    } in
    let a = attempt-Ages old r ages in
    (record { apart = a.apart; held = a.queue; queue = rw e tt; flight = a.flight }, e)

hand_over-Halfway : (b : Buffers) → Halfway b → Halfway (hand_over b)
unfolding hand_over
hand_over-Halfway b v = record {
  apart = v.apart;
  held = v.held;
  queue = queued b.flight v.flight;
  flight = tt;
}
  where
    queued : (x : Option Slice) → InFront b.shared x → All (Fronts b.shared) (queued_with b.queue x)
    queued none f = v.queue
    queued (some x) f = All-snoc (Fronts b.shared) b.queue x v.queue f

notify-Ages : (b : Buffers) → Halfway b → Ages (notify b)
unfolding notify
notify-Ages b v = record {
  apart = v.apart;
  held =
      All-map (Young b.shared) (Age (record (b.shared) { should_swap = true }))
        (λ x a. Young-Age b.shared x a) b.held v.held;
  queue =
      All-map (Fronts b.shared) (Young (record (b.shared) { should_swap = true }))
        (λ x f. Young.front f.0 f.1) b.queue v.queue;
  flight = in_front b.flight v.flight;
}
  where
    in_front :
        (x : Option Slice)
        → InFront b.shared x
        → InFront (record (b.shared) { should_swap = true }) x
    in_front none f = f
    in_front (some x) f = f

Step-Sound : {s t : Split} → Step false s t → Sound s.half s.buffers → Sound t.half t.buffers
unfolding empty_results
Step-Sound (read {s} r can idle w) v = reads_on s.half can v
  where
    reads_on : (h : Half) → reads h ≡ true → Sound h s.buffers → Sound h (attempt s.buffers r)
    reads_on outside e v = attempt-Ages s.buffers r v
    reads_on reading e v = attempt-Halfway s.buffers r v.0 v.1
    reads_on delivering e v = cc
    reads_on racing e v = v
Step-Sound (deliver {s} can) v = delivers_on s.half can v
  where
    delivers_on : (h : Half) → delivers h ≡ true → Sound h s.buffers → Sound h (hand_over s.buffers)
    delivers_on outside e v = hand_over-Ages s.buffers v
    delivers_on reading e v = cc
    delivers_on delivering e v = hand_over-Halfway s.buffers v
    delivers_on racing e v = v
Step-Sound (empty {s} h e between calm) v = halves h between calm (rw e at v)
  where
    halves :
        (h : Half)
        → h ≢ outside
        → (h ≡ racing → false ≡ true)
        → Ages s.buffers
        → Sound h (empty_results s.buffers)
    halves outside n c a = absurd (n refl)
    halves reading n c a = (empty-Halfway s.buffers a, refl)
    halves delivering n c a = empty-Halfway s.buffers a
    halves racing n c a = let clash = c refl in cc
Step-Sound (put {s} between) v = puts s.half between v
  where
    puts : (h : Half) → h ≢ outside → Sound h s.buffers → Ages (notify s.buffers)
    puts outside n a = absurd (n refl)
    puts reading n a = notify-Ages s.buffers a.0
    puts delivering n a = notify-Ages s.buffers a
    puts racing n a = absurd a

Reach-Sound : {s t : Split} → Reach false s t → Sound s.half s.buffers → Sound t.half t.buffers
Reach-Sound here v = v
Reach-Sound (next r st) v = Step-Sound st (Reach-Sound r v)

Halfway-IsKept : (b : Buffers) → Halfway b → IsKept b
Halfway-IsKept b v =
    let (fm, mb, bf) = v.apart in
    record {
      held =
          All-map (Young b.shared) (IsSpared b.shared)
            (λ x a. Age-IsSpared b.shared x fm mb bf (Young-Age_now b.shared x a)) b.held v.held;
      queue =
          All-map (Fronts b.shared) (IsSpared b.shared)
            (λ x f. Age-IsSpared b.shared x fm mb bf (Age.front f.0 f.1)) b.queue v.queue;
    }

Sound-IsKept : (h : Half) (b : Buffers) → Sound h b → IsKept b
Sound-IsKept outside b v = Ages-IsKept b v
Sound-IsKept reading b v = Halfway-IsKept b v.0
Sound-IsKept delivering b v = Halfway-IsKept b v
Sound-IsKept racing b v = absurd v

-- From the buffers of a new watcher of any size, after any sequence of attempts to read into them,
-- deliveries at any time after the read, and halves of WaitIO, where between the halves of one
-- WaitIO the loop only reads or only delivers: for every result in chResults and every result that
-- WaitIO returned last or is about to return, the next attempt to read, with the rotation that it
-- may start with, does not write into the bytes of the result.
pub begin-IsKept : (size : ℕ) {s : Split} → Reach false (begin size) s → IsKept s.buffers
begin-IsKept size {s} r = Sound-IsKept s.half s.buffers (Reach-Sound r (initial-Ages size))
