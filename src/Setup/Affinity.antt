-- ===== src/Setup/Affinity.antt =====
-- setAffinity (affinity_linux.go, affinity_windows.go, affinity_other.go) and the order of the
-- accesses to a poller's `cpuid` (watcher.go, aio_linux.go).
use gaio.Common.{
  ℕ, zero, suc, ◌+◌, ◌-◌, Bool-cases, inl, inr, ◌*◌, ◌%◌, ◌^◌, ◌≡◌, ◌<◌, ap, sym, ◌∙◌, Bool, true,
  List, [], ◌∷◌, ◌++◌, Option, none, some, arith, if◌then◌else◌, ltb,
}
use native.Mathlib.Omega.{pow_step}
use native.Mathlib.Nat.{mod-eq_of_lt, mul-mod_left, mul_assoc}
use gaio.Types.{Errno}

-- A thread: whether it is locked to its goroutine, and the set of CPUs that it may run on.
pub record Thread (A : Type 0) : Type 0 where
  pub locked : Bool
  pub cpus : A

-- The system's answer changes the set or not; the callers do not see it.
abbrev pub try_cpus : {A : Type 0} → Thread A → A → Option Errno → Thread A
try_cpus t a none = record { locked = true; cpus = a }
try_cpus t a (some e) = record { locked = true; cpus = t.cpus }

-- setAffinity on Linux, with unix.CPUSet, its Set, and SchedSetaffinity.
unfoldable pub linux_set_affinity :
    {A : Type 0} (empty : A) (set : ℕ → A → A) (sched : A → Option Errno) → Thread A → ℕ → Thread A
linux_set_affinity empty set sched t cpuid = try_cpus t (set cpuid empty) (sched (set cpuid empty))

-- setAffinity on Windows, with words of `w` bits and SetThreadAffinityMask: the mask, and the
-- thread after the call, which is given the address of the mask.
unfoldable pub windows_mask : ℕ → ℕ → ℕ
windows_mask w cpuid = 2 ^ cpuid % 2 ^ w

unfoldable pub windows_set_affinity :
    (w : ℕ) (set_mask : ℕ → Option Errno) → Thread ℕ → (cpuid address : ℕ) → ℕ × Thread ℕ
windows_set_affinity w set_mask t cpuid address =
    (windows_mask w cpuid, try_cpus t address (set_mask address))

-- setAffinity elsewhere.
unfoldable pub other_set_affinity : {A : Type 0} → Thread A → ℕ → Thread A
other_set_affinity t cpuid = t

power_positive : (c : ℕ) → 0 < 2 ^ c
power_positive zero = omega arith
power_positive (suc c) = omega (arith, pow_step 2 c, power_positive c)

same_power : (c d : ℕ) → c ≡ d → 2 ^ c ≡ 2 ^ d
same_power c d e = ap (λ x. 2 ^ x) e

power_multiple : (w k : ℕ) → (m : ℕ) × (2 ^ (w + k) ≡ m * 2 ^ w)
power_multiple w zero = (1, omega (arith, same_power (w + 0) w (omega arith)))
power_multiple w (suc k) =
    let (m, e) = power_multiple w k in
    (
      2 * m,
      same_power (w + suc k) (suc (w + k)) (omega arith)
          ∙ pow_step 2 (w + k)
          ∙ ap (λ x. 2 * x) e
          ∙ sym (mul_assoc 2 m (2 ^ w)),
    )

power_grows : (c k : ℕ) → 2 ^ c < 2 ^ (c + suc k)
power_grows c zero =
    omega (arith, same_power (c + 1) (suc c) (omega arith), pow_step 2 c, power_positive c)
power_grows c (suc k) = omega (
  arith,
  same_power (c + suc (suc k)) (suc (c + suc k)) (omega arith),
  pow_step 2 (c + suc k),
  power_grows c k,
)

-- On Windows, the mask of setAffinity in words of `w` bits has exactly the bit of the CPU, if its
-- number is below `w`, and is 0 otherwise.
pub windows_mask-bit : (w cpuid : ℕ) → windows_mask w cpuid ≡ (if ltb cpuid w then 2 ^ cpuid else 0)
unfolding windows_mask
windows_mask-bit w cpuid = elim (Bool-cases (ltb cpuid w)) [
  | inl e ↦
      let grows = power_grows cpuid (w - suc cpuid) in
      let same = same_power (cpuid + suc (w - suc cpuid)) w (ground arith) in
      rw e (mod-eq_of_lt (omega arith))
  | inr e ↦
      let (m, multiple) = power_multiple w (cpuid - w) in
      let same = same_power (w + (cpuid - w)) cpuid (ground arith) in
      rw e (ap (λ x. x % 2 ^ w) (sym same ∙ multiple) ∙ mul-mod_left m (2 ^ w))
]

-- A poller's `cpuid` with its separate accesses: a call of SetPollerAffinity whose wakeup succeeds,
-- the poller's load, and setAffinity with the store of -1.
pub record Slot : Type 0 where
  pub cpuid : Option ℕ
  pub loaded : Option ℕ
  pub applied : List ℕ

pub data Access : Slot → Slot → Type 0 where
  requests : {s : Slot} (c : ℕ) → Access s (record s { cpuid = some c })
  loads : {s : Slot} → s.loaded ≡ none → Access s (record s { loaded = s.cpuid })
  applies :
      {s : Slot} {c : ℕ}
      → s.loaded ≡ some c
      → Access s (record { cpuid = none; loaded = none; applied = s.applied ++ c ∷ [] })

pub data Accesses (s : Slot) : Slot → Type 0 where
  begins : Accesses s s
  follows : {t u : Slot} → Accesses s t → Access t u → Accesses s u
