-- ===== src/Helpers/Memory.antt =====
-- `_MemoryStats` and `MemoryChecker` of framework/helpers/memworker.py. The memory that is in use
-- at each measurement is a function of its number; sleeping and the garbage collector are left out.
use tempesta_test.Base.{
  ℕ, zero, suc, ◌+◌, ◌≡◌, refl, Bool, true, false, ◌&&◌, List, [], ◌∷◌, ◌++◌, Option, none, some,
  if◌then◌else◌, is_empty, ◌⊎◌, Result, ok, raise, ◌>>=◌, value_error, framework_error, arith,
  Bool-cases, inl, inr,
}
use tempesta_test.Base.Int.{ℤ, pos, ◌-ℤ◌, ltb_ℤ}

-- In KB.
pub record MemoryStats : Type 0 where
  pub system_memory_first : ℤ
  pub python_memory_first : Option ℤ
  pub system_memory_second : Option ℤ
  pub python_memory_second : Option ℤ
  pub delta_python : ℤ
  pub memory_leak_threshold : ℤ
  pub memory_consumption : ℤ

-- One measurement: the system's memory, and that of the python process if it runs on this host.
abbrev pub Sample : Type 0
Sample = ℤ × Option ℤ

-- `__init__`. The consumption is read only after the second measurement is set.
unfoldable pub new_stats : ℤ → Sample → MemoryStats
new_stats threshold (system, python) = record {
  system_memory_first = system;
  python_memory_first = python;
  system_memory_second = none;
  python_memory_second = none;
  delta_python = pos 0;
  memory_leak_threshold = threshold;
  memory_consumption = pos 0;
}

new_delta : Option ℤ → Option ℤ → ℤ → ℤ
new_delta (some first) (some second) old = second -ℤ first
new_delta _ _ old = old

-- `_MemoryStats.set_second_memory_stats`.
unfoldable pub set_second : Sample → MemoryStats → MemoryStats
unfolding new_delta
set_second (system, python) m =
    let delta = new_delta m.python_memory_first python m.delta_python in
    record m {
      system_memory_second = some system;
      python_memory_second = python;
      delta_python = delta;
      memory_consumption = system -ℤ delta -ℤ m.system_memory_first;
    }

unfoldable pub is_memory_leak : MemoryStats → Result Bool
is_memory_leak m = elim m.system_memory_second [
  | none ↦ raise value_error
  | some s ↦ ok (ltb_ℤ m.memory_leak_threshold m.memory_consumption)
]

-- The `for` loop of `MemoryChecker.set_second_memory_stats`: `steps` rounds are left, and k
-- measurements have been made.
unfoldable pub measure_again : ℕ → (ℕ → Sample) → ℕ → MemoryStats → Result MemoryStats
measure_again zero samples k m = ok m
measure_again (suc steps) samples k m =
    let again = measure_again steps samples (k + 1) (set_second (samples k) m) in
    is_memory_leak m >>= λ leak. if leak then again else ok m

abbrev pub steps_to_check_memory : ℕ
steps_to_check_memory = 5

unfoldable pub set_second_memory_stats : (ℕ → Sample) → MemoryStats → Result MemoryStats
unfolding measure_again is_memory_leak set_second
set_second_memory_stats samples m =
    measure_again steps_to_check_memory samples 1 (set_second (samples 0) m)

-- `check_memory_consumption_of_test`: the list of failed tests grows by the test if it leaks.
unfoldable pub check_test {ℓ} :
    {T : Type ℓ}
    → (ℕ → Sample)
    → MemoryStats
    → T
    → List (T × MemoryStats)
    → Result (List (T × MemoryStats))
unfolding set_second_memory_stats
check_test samples m test failed = do
  m' ← set_second_memory_stats samples m
  leak ← is_memory_leak m'
  ok (if leak then failed ++ (test, m') ∷ [] else failed)

-- `check_memory_consumption_of_test_suite`.
unfoldable pub check_suite {ℓ} :
    {T : Type ℓ} → (ℕ → Sample) → MemoryStats → List (T × MemoryStats) → Result (Unit {0})
unfolding set_second_memory_stats
check_suite samples m failed = do
  m' ← set_second_memory_stats samples m
  leak ← (if is_empty failed then ok false else is_memory_leak m')
  if leak then raise framework_error else ok tt

-- Whether a measurement shows a leak against the first one.
unfoldable pub leaks : MemoryStats → Sample → Bool
unfolding set_second
leaks m s = ltb_ℤ m.memory_leak_threshold (set_second s m).memory_consumption

-- All of `n` measurements from number k on show a leak.
abbrev pub all_leak : ℕ → (ℕ → Sample) → ℕ → MemoryStats → Bool
all_leak zero samples k m = true
all_leak (suc n) samples k m = leaks m (samples k) && all_leak n samples (k + 1) m

-- The python process is measured each time, or it was not measured at first: `_is_local_setup` does
-- not change.
abbrev pub IsSteady : MemoryStats → (ℕ → Sample) → Type 0
IsSteady m samples = (m.python_memory_first ≡ none) ⊎ ((k : ℕ) → (x : ℤ) × ((samples k).1 ≡ some x))

-- Then a measurement forgets the one before it.
set_second-set_second :
    (m : MemoryStats) (samples : ℕ → Sample) (j k : ℕ)
    → IsSteady m samples
    → set_second (samples k) (set_second (samples j) m) ≡ set_second (samples k) m
unfolding set_second
set_second-set_second m samples j k (inl e) = ground arith
set_second-set_second m samples j k (inr e) = ground (arith, e k)

is_memory_leak-set_second :
    (m : MemoryStats) (s : Sample) → is_memory_leak (set_second s m) ≡ ok (leaks m s)
unfolding is_memory_leak leaks
is_memory_leak-set_second m s = refl

measure_again-all_leak :
    (n k j : ℕ) (samples : ℕ → Sample) (m : MemoryStats)
    → IsSteady m samples
    → (m' : MemoryStats) × (measure_again n samples k (set_second (samples j) m) ≡ ok m')
      × (is_memory_leak m' ≡ ok (leaks m (samples j) && all_leak n samples k m))
unfolding measure_again
measure_again-all_leak zero k j samples m h =
    (set_second (samples j) m, refl, ground (arith, is_memory_leak-set_second m (samples j)))
measure_again-all_leak (suc n) k j samples m h = elim (Bool-cases (leaks m (samples j))) [
  | inr fine ↦ (
    set_second (samples j) m,
    rw (is_memory_leak-set_second m (samples j), fine, measure_again) refl,
    rw (is_memory_leak-set_second m (samples j), fine) refl,
  )
  | inl leak ↦
      let (m', e, l) = measure_again-all_leak n (k + 1) k samples m h in
      (
        m',
        rw (is_memory_leak-set_second m (samples j), leak, measure_again)
            (rw (set_second-set_second m samples j k h) e),
        rw leak l,
      )
]

-- If the python process is measured each time or was not measured at first, then the measurements
-- end, and a leak is reported exactly if all six of them show one.
set_second_memory_stats-all_leak :
    (samples : ℕ → Sample) (m : MemoryStats)
    → IsSteady m samples
    → (m' : MemoryStats) × (set_second_memory_stats samples m ≡ ok m')
      × (is_memory_leak m' ≡ ok (all_leak (suc steps_to_check_memory) samples 0 m))
unfolding set_second_memory_stats
set_second_memory_stats-all_leak samples m h = measure_again-all_leak 5 1 0 samples m h
