-- ===== src/Timed.antt =====
-- time.go, and the functions of the standard library's container/heap that drive it.
-- The heap is a slice of addresses; each request in it records its index. An index outside
-- the slice would panic in Go; the model then reads address 0 or changes nothing, and the theorems
-- carry the bounds that exclude it.
pub mod Track
pub mod Sift
pub mod Push
pub mod Laws
pub mod Bodies
use gaio.Common.{
  ℕ, zero, suc, ◌+◌, ◌-◌, ◌*◌, ◌/◌, Bool, List, [], ◌∷◌, ◌++◌, Option, some, ltb, ◌==◌,
  if◌then◌else◌, length, get_or, set, take,
}
use gaio.Types.{Aiocb, Store}

pub record Timed : Type 0 where
  pub arr : List ℕ
  pub cbs : Store

abbrev pub update : Store → ℕ → Aiocb → Store
update f p cb q = if p == q then cb else f q

abbrev pub set_idx : Store → ℕ → Option ℕ → Store
set_idx f p i = update f p (record (f p) { idx = i })

-- `h[i]`
abbrev pub at : Timed → ℕ → ℕ
at h i = get_or h.arr i 0

abbrev pub due : Timed → ℕ → ℕ
due h i = (h.cbs (at h i)).deadline

pub less : Timed → ℕ → ℕ → Bool
less h i j = ltb (due h i) (due h j)

pub swap : Timed → ℕ → ℕ → Timed
swap h i j = record {
  arr = set (set h.arr i (at h j)) j (at h i);
  cbs = set_idx (set_idx h.cbs (at h j) (some i)) (at h i) (some j);
}

-- timedHeap.Push
unfoldable pub append : Timed → ℕ → Timed
append h p = record { arr = h.arr ++ p ∷ []; cbs = set_idx h.cbs p (some (length h.arr)) }

-- timedHeap.Pop
unfoldable pub shrink : Timed → ℕ × Timed
shrink h = let n = length h.arr in (at h (n - 1), record h { arr = take (n - 1) h.arr })

-- container/heap's `up`: the loop on fuel.
pub up_loop : ℕ → Timed → ℕ → Timed
up_loop zero h j = h
up_loop (suc k) h j =
    let i = (j - 1) / 2 in
    let rise = up_loop k (swap h i j) i in if (i == j) then h else (if less h j i then rise else h)

unfoldable pub up : Timed → ℕ → Timed
unfolding up_loop less swap
up h j = up_loop (suc j) h j

-- The child of `i` that `down` compares with.
pub smaller_child : Timed → ℕ → ℕ → ℕ
smaller_child h n i =
    let j1 = 2 * i + 1 in
    let j2 = j1 + 1 in if ltb j2 n then (if less h j2 j1 then j2 else j1) else j1

-- container/heap's `down` on the first `n` entries: the loop, with the place where it ends.
pub down_loop : ℕ → Timed → ℕ → ℕ → ℕ × Timed
down_loop zero h i n = (i, h)
down_loop (suc k) h i n =
    let j = smaller_child h n i in
    let sink = down_loop k (swap h i j) j n in
    if ltb (2 * i + 1) n then (if less h j i then sink else (i, h)) else (i, h)

unfoldable pub down : Timed → ℕ → ℕ → Bool × Timed
unfolding down_loop smaller_child less swap
down h i0 n = let (i, h') = down_loop (suc n) h i0 n in (ltb i0 i, h')

-- heap.Push
unfoldable pub push : Timed → ℕ → Timed
push h p = let h' = append h p in up h' (length h'.arr - 1)

-- heap.Pop
unfoldable pub pop : Timed → ℕ × Timed
pop h = let n = length h.arr - 1 in shrink (down (swap h 0 n) 0 n).1

-- The part of heap.Remove before the last entry is cut off: the entry at `i` moves there.
unfoldable pub expel : Timed → ℕ → ℕ → Timed
expel h i n =
    if n == i then h else (let (moved, h') = down (swap h i n) i n in if moved then h' else up h' i)

-- heap.Remove
unfoldable pub remove_at : Timed → ℕ → ℕ × Timed
remove_at h i = shrink (expel h i (length h.arr - 1))
