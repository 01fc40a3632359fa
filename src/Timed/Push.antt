-- ===== src/Timed/Push.antt =====
-- The valid heaps of deadlines, and heap.Push (time.go).
use gaio.Common.{
  ℕ, suc, ◌-◌, ◌≡◌, refl, ◌∙◌, Bool, true, none, [], ◌∷◌, arith, length, is_some, ◌==◌,
  if◌then◌else◌, length-append, get_or-append, get_or-append_end,
}
use gaio.Timed.{Timed, at, append, push, up}
use gaio.Timed.Track.{Tracks, body}
use gaio.Timed.Sift.{parent, IsHeap, UpInv, up-Sifted, Sifted}

-- The heap is in order and every request knows its index.
pub record IsValid (h : Timed) : Type 0 where
  pub tracks : Tracks h
  pub order : IsHeap h

-- What the heap depends on.
pub IsValid-same :
    {h h' : Timed}
    → h'.arr ≡ h.arr
    → ((p : ℕ) → (h'.cbs p).idx ≡ (h.cbs p).idx)
    → ((p : ℕ) → is_some (h.cbs p).idx ≡ true → (h'.cbs p).deadline ≡ (h.cbs p).deadline)
    → IsValid h
    → IsValid h'
IsValid-same {h} {h'} arr idx deadline v = record {
  tracks = record {
    fwd = λ i e. rw (arr, idx (at h i)) (v.tracks.fwd i (rw arr at e));
    bwd = λ p i e. let x = idx p in rw arr (v.tracks.bwd p i (rw x at e));
  };
  order = λ c p q. ground (
    arith,
    arr,
    v.order c,
    deadline (at h c),
    deadline (at h (parent c)),
    v.tracks.fwd c,
    v.tracks.fwd (parent c),
  );
}

-- A request is in the heap exactly when it has an index.
abbrev pub holds : Timed → ℕ → Bool
holds h p = is_some (h.cbs p).idx

-- No request differs but in its index.
abbrev pub SameBodies : Timed → Timed → Type 0
SameBodies h h' = (q : ℕ) → body (h'.cbs q) ≡ body (h.cbs q)

-- `h'` is a valid heap of the requests of `h` and `p`.
pub record Pushed (h : Timed) (p : ℕ) (h' : Timed) : Type 0 where
  pub valid : IsValid h'
  pub members : (q : ℕ) → holds h' q ≡ (if p == q then true else holds h q)
  pub bodies : SameBodies h h'

append-UpInv :
    (h : Timed) (p : ℕ)
    → IsValid h
    → (h.cbs p).idx ≡ none
    → UpInv (suc (length h.arr)) (append h p) (length h.arr)
unfolding append
append-UpInv h p v out =
    let n = length h.arr in
    let last = get_or-append_end h.arr p 0 n refl in
    let front = λ (c : ℕ). get_or-append h.arr (p ∷ []) c 0 in
    let size = length-append h.arr (p ∷ []) in
    record {
      inside = omega arith;
      room = omega (arith, size);
      tracks = record {
        fwd = λ c hc. ground (arith, last, front c, size, v.tracks.fwd c);
        bwd = λ q c e. ground (arith, last, front c, size, v.tracks.bwd q c);
      };
      edges = λ c q r s. ground (
        arith,
        last,
        front c,
        front (parent c),
        v.order c,
        v.tracks.fwd c,
        v.tracks.fwd (parent c),
      );
      bridged = omega arith;
    }

module _ (h : Timed) (p : ℕ) where
  length-append_heap : length (append h p).arr ≡ suc (length h.arr)
  unfolding append
  length-append_heap = omega (arith, length-append h.arr (p ∷ []))

  holds-append : (q : ℕ) → holds (append h p) q ≡ (if p == q then true else holds h q)
  unfolding append
  holds-append q = ground arith

  append-SameBodies : SameBodies h (append h p)
  unfolding append
  append-SameBodies q = ground arith

-- On a valid heap (each request records its index, no parent is due after its child) and a request
-- that is not in it, heap.Push gives a valid heap that holds exactly the request and those of
-- before, and changes no field of a request but the index.
pub push-Pushed : (h : Timed) (p : ℕ) → IsValid h → (h.cbs p).idx ≡ none → Pushed h p (push h p)
unfolding push
push-Pushed h p v out = rw last (record {
  valid = record {
    tracks = s.tracks;
    order = λ c q r. s.order c q (omega (arith, s.kept.size, size));
  };
  members = λ q. s.kept.members q ∙ holds-append h p q;
  bodies = λ q. s.kept.bodies q ∙ append-SameBodies h p q;
})
  where
    size : length (append h p).arr ≡ suc (length h.arr)
    size = length-append_heap h p

    last : length (append h p).arr - 1 ≡ length h.arr
    last = omega (arith, size)

    s : Sifted (suc (length h.arr)) (append h p) (up (append h p) (length h.arr))
    s = up-Sifted _ _ _ (append-UpInv h p v out)
