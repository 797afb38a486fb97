-- ===== src/Suite/Asserts.antt =====
-- `WaitUntilAsserts` of framework/test_suite/tester.py.
use tempesta_test.Base.{
  ℕ, suc, ◌≡◌, ◌⊎◌, inl, inr, Bool, true, false, not, List, Option, none, some, ◌==◌, length,
  Result, ok, arith,
}
use tempesta_test.Text.{Text, same, same_iff}
use tempesta_test.Wait.{wait_until}
use tempesta_test.Wait.Asserting.{Observed, world_of, assert_wait, assert_wait-IsSeen}

-- `wait_until` of a condition on what `func()` gives, and `fail` if the condition holds in the end.
unfoldable pub assert_until {ℓ} :
    {A : Type ℓ} → (A → Bool) → ℕ → ℕ → ℕ → Observed A → Result (Unit {0})
assert_until wait fuel start timeout o =
    assert_wait fuel (world_of wait (λ a. false) o) start timeout

-- The asserts on texts: `func()` is compared with `second`.
unfoldable pub assert_wait_until_equal : Text → ℕ → ℕ → ℕ → Observed Text → Result (Unit {0})
unfolding assert_until
assert_wait_until_equal second = assert_until (λ a. not (same a second))

unfoldable pub assert_wait_until_not_equal : Text → ℕ → ℕ → ℕ → Observed Text → Result (Unit {0})
unfolding assert_until
assert_wait_until_not_equal second = assert_until (λ a. same a second)

abbrev is_none {ℓ} : {A : Type ℓ} → Option A → Bool
is_none none = true
is_none (some a) = false

unfoldable pub assert_wait_until_is_not_none {ℓ} :
    {A : Type ℓ} → ℕ → ℕ → ℕ → Observed (Option A) → Result (Unit {0})
unfolding assert_until
assert_wait_until_is_not_none = assert_until is_none

unfoldable pub assert_wait_until_count_equal {ℓ} :
    {A : Type ℓ} → ℕ → ℕ → ℕ → ℕ → Observed (List A) → Result (Unit {0})
unfolding assert_until
assert_wait_until_count_equal count = assert_until (λ a. not (length a == count))

-- `func() is False` and `func() is True`; `none` is any value but the two.
abbrev is_bool : Bool → Option Bool → Bool
is_bool b none = false
is_bool true (some c) = c
is_bool false (some c) = not c

unfoldable pub assert_wait_until_true : ℕ → ℕ → ℕ → Observed (Option Bool) → Result (Unit {0})
unfolding assert_until
assert_wait_until_true = assert_until (is_bool false)

unfoldable pub assert_wait_until_false : ℕ → ℕ → ℕ → Observed (Option Bool) → Result (Unit {0})
unfolding assert_until
assert_wait_until_false = assert_until (is_bool true)

-- If the assert on an equal value passes, then the value was seen at some read.
pub assert_wait_until_equal-IsSeen :
    (second : Text) (fuel start timeout : ℕ) (o : Observed Text)
    → assert_wait_until_equal second fuel start timeout o ≡ ok tt
    → (j : ℕ) × ((o.value j ≡ second) ⊎ (o.last_value j ≡ second))
unfolding assert_wait_until_equal assert_until
assert_wait_until_equal-IsSeen second fuel start timeout o h =
    let (j, seen) = assert_wait-IsSeen fuel _ start timeout h in
    elim seen [
      | inl now ↦ (j, inl ((same_iff (o.value j) second).0 (ground arith)))
      | inr late ↦ (j, inr ((same_iff (o.last_value j) second).0 (ground arith)))
    ]

-- A value that is neither `True` nor `False` passes both asserts at once.
pub assert_wait_until_true-none :
    (fuel start timeout : ℕ) (o : Observed (Option Bool))
    → o.value 0 ≡ none
    → (assert_wait_until_true (suc fuel) start timeout o ≡ ok tt)
      × (assert_wait_until_false (suc fuel) start timeout o ≡ ok tt)
unfolding assert_wait_until_true assert_wait_until_false assert_until assert_wait wait_until
assert_wait_until_true-none fuel start timeout o h = (rw (h), rw (h))
