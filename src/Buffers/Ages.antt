-- ===== src/Buffers/Ages.antt =====
-- How far the bytes of a result are behind the buffer that is written (watcher.go, the three shared
-- buffers).
use gaio.Common.{
  ℕ, ◌+◌, ◌≤◌, ◌≡◌, ◌≢◌, refl, sym, subst, ◌∙◌, inl, inr, true, false, List, [], ◌∷◌, ◌++◌, arith,
  Bool-cases,
}
use gaio.Transfer.{Swap, rotate}
use gaio.Buffers.{Slice}

abbrev pub All {ℓ κ} : {A : Type ℓ} → (A → Type κ) → List A → Type κ
All P [] = Unit
All P (x ∷ xs) = P x × All P xs

pub All-map {ℓ κ} :
    {A : Type ℓ} (P Q : A → Type κ) → ((x : A) → P x → Q x) → (xs : List A) → All P xs → All Q xs
All-map P Q f [] a = tt
All-map P Q f (x ∷ xs) (p, a) = (f x p, All-map P Q f xs a)

pub All-snoc {ℓ κ} :
    {A : Type ℓ} (P : A → Type κ) (xs : List A) (x : A) → All P xs → P x → All P (xs ++ x ∷ [])
All-snoc P [] x a p = (p, tt)
All-snoc P (y ∷ xs) x (q, a) p = (q, All-snoc P xs x a p)

-- The next attempt to read writes into the front buffer, from the offset on, after the rotation
-- that it may start with.
abbrev pub IsSpared : Swap → Slice → Type 0
IsSpared s x = x.buf ≡ (rotate s).front → x.end ≤ (rotate s).offset

-- How far a slice is behind the front buffer.
pub data Age (s : Swap) (x : Slice) : Type 0 where
  front : x.buf ≡ s.front → x.end ≤ s.offset → Age s x
  back : x.buf ≡ s.back → Age s x
  middle : x.buf ≡ s.middle → s.should_swap ≡ false → Age s x

-- The same of a slice that WaitIO has not returned yet.
pub data Young (s : Swap) (x : Slice) : Type 0 where
  front : x.buf ≡ s.front → x.end ≤ s.offset → Young s x
  back : x.buf ≡ s.back → s.should_swap ≡ false → Young s x

pub rotate-idle : (s : Swap) → s.should_swap ≡ false → rotate s ≡ s
unfolding rotate
rotate-idle s idle = simp idle

pub Age-rotate : (s : Swap) (x : Slice) → Age s x → Age (rotate s) x
unfolding rotate
Age-rotate s x a = elim (Bool-cases s.should_swap) [
  | inr idle ↦ subst (λ (t : Swap). Age t x) (sym (rotate-idle s idle)) a
  | inl e ↦ rw e (turned e a)
]
  where
    turned :
        s.should_swap ≡ true
        → Age s x
        → Age
            (record s {
              front = s.middle;
              middle = s.back;
              back = s.front;
              offset = 0;
              should_swap = false;
            })
            x
    turned e (Age.front b o) = Age.back b
    turned e (Age.back b) = Age.middle b refl
    turned e (Age.middle b o) = let clash : true ≡ false = sym e ∙ o in cc

pub Young-rotate : (s : Swap) (x : Slice) → Young s x → Young (rotate s) x
unfolding rotate
Young-rotate s x a = elim (Bool-cases s.should_swap) [
  | inr idle ↦ subst (λ (t : Swap). Young t x) (sym (rotate-idle s idle)) a
  | inl e ↦ rw e (turned e a)
]
  where
    turned :
        s.should_swap ≡ true
        → Young s x
        → Young
            (record s {
              front = s.middle;
              middle = s.back;
              back = s.front;
              offset = 0;
              should_swap = false;
            })
            x
    turned e (Young.front b o) = Young.back b refl
    turned e (Young.back b o) = let clash : true ≡ false = sym e ∙ o in cc

pub Age-advance :
    (s : Swap) (n : ℕ) (x : Slice) → Age s x → Age (record s { offset = s.offset + n }) x
Age-advance s n x (Age.front b o) = Age.front b (omega arith)
Age-advance s n x (Age.back b) = Age.back b
Age-advance s n x (Age.middle b o) = Age.middle b o

pub Young-advance :
    (s : Swap) (n : ℕ) (x : Slice) → Young s x → Young (record s { offset = s.offset + n }) x
Young-advance s n x (Young.front b o) = Young.front b (omega arith)
Young-advance s n x (Young.back b o) = Young.back b o

-- WaitIO hands out young slices.
pub Young-Age : (s : Swap) (x : Slice) → Young s x → Age (record s { should_swap = true }) x
Young-Age s x (Young.front b o) = Age.front b o
Young-Age s x (Young.back b o) = Age.back b

pub Young-Age_now : (s : Swap) (x : Slice) → Young s x → Age s x
Young-Age_now s x (Young.front b o) = Age.front b o
Young-Age_now s x (Young.back b o) = Age.back b

pub Age-IsSpared :
    (s : Swap) (x : Slice)
    → s.front ≢ s.middle
    → s.middle ≢ s.back
    → s.back ≢ s.front
    → Age s x
    → IsSpared s x
unfolding rotate
Age-IsSpared s x fm mb bf (Age.front b o) e = ground arith
Age-IsSpared s x fm mb bf (Age.back b) e = ground arith
Age-IsSpared s x fm mb bf (Age.middle b o) e = ground arith
