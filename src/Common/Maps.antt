-- ===== src/Common/Maps.antt =====
-- A map with numbers for keys as an association list: `insert` replaces the first entry of its
-- key or adds one at the end, and `delete` removes every entry.
use Prim.Native.Nat.{ℕ, suc, ◌≤◌}
use mathlib.Core.Path.{◌≡◌, refl}
use mathlib.Core.List.{List, [], ◌∷◌}
use mathlib.Core.Option.{Option, none, some}
use native.Mathlib.Omega.{arith}
use gaio.Common.Tests.{◌==◌, if◌then◌else◌, is_some}
use gaio.Common.Counts.{count}

module _ {ℓ} {A : Type ℓ} where
  unfoldable pub lookup : ℕ → List (ℕ × A) → Option A
  lookup k [] = none
  lookup k ((j, v) ∷ m) = if k == j then some v else lookup k m

  unfoldable pub insert : ℕ → A → List (ℕ × A) → List (ℕ × A)
  insert k v [] = (k, v) ∷ []
  insert k v ((j, w) ∷ m) = if k == j then (k, v) ∷ m else (j, w) ∷ insert k v m

  unfoldable pub delete : ℕ → List (ℕ × A) → List (ℕ × A)
  delete k [] = []
  delete k ((j, w) ∷ m) = let rest = delete k m in if k == j then rest else (j, w) ∷ rest

  abbrev pub keys : List (ℕ × A) → List ℕ
  keys [] = []
  keys ((j, w) ∷ m) = j ∷ keys m

  pub lookup-insert :
      (k j : ℕ) (v : A) (m : List (ℕ × A))
      → lookup j (insert k v m) ≡ (if k == j then some v else lookup j m)
  unfolding lookup insert
  lookup-insert k j v [] = ground arith
  lookup-insert k j v ((i, w) ∷ m) = ground (arith, lookup-insert k j v m)

  pub lookup-delete :
      (k j : ℕ) (m : List (ℕ × A)) → lookup j (delete k m) ≡ (if k == j then none else lookup j m)
  unfolding lookup delete
  lookup-delete k j [] = ground arith
  lookup-delete k j ((i, w) ∷ m) = ground (arith, lookup-delete k j m)

  pub count-keys : (k : ℕ) (m : List (ℕ × A)) → count k (keys m) ≡ 0 → lookup k m ≡ none
  unfolding lookup
  count-keys k [] h = refl
  count-keys k ((i, w) ∷ m) h = ground (arith, count-keys k m)

  pub count-keys-none : (k : ℕ) (m : List (ℕ × A)) → lookup k m ≡ none → count k (keys m) ≡ 0
  unfolding lookup
  count-keys-none k [] h = refl
  count-keys-none k ((i, w) ∷ m) h = ground (arith, count-keys-none k m)

  -- Only a key that was not there adds an entry.
  pub count-keys-insert :
      (k j : ℕ) (v : A) (m : List (ℕ × A))
      → count j (keys (insert k v m)) ≡ (
          if k == j
          then (if is_some (lookup k m) then count j (keys m) else suc (count j (keys m)))
          else count j (keys m))
  unfolding lookup insert
  count-keys-insert k j v [] = ground arith
  count-keys-insert k j v ((i, w) ∷ m) = ground (arith, count-keys-insert k j v m)

  pub count-keys-delete :
      (k j : ℕ) (m : List (ℕ × A)) → count j (keys (delete k m)) ≤ count j (keys m)
  unfolding delete
  count-keys-delete k j [] = omega arith
  count-keys-delete k j ((i, w) ∷ m) = ground (arith, count-keys-delete k j m)

  pub delete_absent : (k : ℕ) (m : List (ℕ × A)) → count k (keys m) ≡ 0 → delete k m ≡ m
  unfolding delete
  delete_absent k [] h = refl
  delete_absent k ((i, w) ∷ m) h = ground (arith, delete_absent k m)
