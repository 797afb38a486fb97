-- ===== src/Wait/Asserting.antt =====
-- The waits that end in an assertion, as framework/deproxy/deproxy_client.py and
-- framework/test_suite/tester.py have them around `wait_until`.
use tempesta_test.Base.{
  ℕ, zero, suc, ◌+◌, ◌≡◌, refl, ◌⊎◌, inl, inr, ap, ◌∙◌, Bool, true, false, Option, none, some, ltb,
  Result, ok, ◌>>=◌, check, assertion_error, arith, Bool-cases, >>=-eq-ok,
}
use tempesta_test.Wait.{World, wait_until, wait_until_event}

-- What is read of an object of any type: at the head of each round, and once more before giving up.
pub record Observed {ℓ} (A : Type ℓ) : Type ℓ where
  pub value : ℕ → A
  pub last_value : ℕ → A
  pub clock : ℕ → ℕ

abbrev pub world_of {ℓ} : {A : Type ℓ} → (A → Bool) → (A → Bool) → Observed A → World
world_of wait abort o k = record {
  waiting = wait (o.value k);
  now = o.clock k;
  aborted = abort (o.value k);
  still_waiting = wait (o.last_value k);
  fired = false;
}

abbrev pub is_success : Option Bool → Bool
is_success (some b) = b
is_success none = false

-- `assert await wait_until(...)`, from the time t0 on.
unfoldable pub assert_wait : ℕ → World → ℕ → ℕ → Result (Unit {0})
assert_wait f w t0 timeout =
    wait_until f w t0 timeout 0 >>= λ r. check (is_success r) assertion_error

-- The condition was seen not to hold.
abbrev pub IsSeen : World → Type 0
IsSeen w = (j : ℕ) × (((w j).waiting ≡ false) ⊎ ((w j).still_waiting ≡ false))

wait_until-IsSeen :
    (f : ℕ) (w : World) (t0 timeout k : ℕ) → wait_until f w t0 timeout k ≡ ok (some true) → IsSeen w
unfolding wait_until
wait_until-IsSeen zero w t0 timeout k h = absurd (ground arith)
wait_until-IsSeen (suc f) w t0 timeout k h = elim (Bool-cases (w k).waiting) [
  | inr over ↦ (k, inl over)
  | inl wait ↦ elim (Bool-cases (ltb (t0 + timeout) (w k).now)) [
    | inl late ↦ (k, inr (ground (arith, rw (wait, late, wait_until) at h)))
    | inr early ↦ elim (Bool-cases (w k).aborted) [
      | inl gone ↦ absurd (ground (arith, rw (wait, early, gone, wait_until) at h))
      | inr on ↦ wait_until-IsSeen f w t0 timeout (k + 1) (rw (wait, early, on, wait_until) at h)
    ]
  ]
]

success : (r : Option Bool) → check (is_success r) assertion_error ≡ ok tt → r ≡ some true
success (some true) q = refl
success (some false) q = absurd (ground arith)
success none q = absurd (ground arith)

pub assert_wait-IsSeen :
    (f : ℕ) (w : World) (t0 timeout : ℕ) → assert_wait f w t0 timeout ≡ ok tt → IsSeen w
unfolding assert_wait
assert_wait-IsSeen f w t0 timeout h =
    let (r, waited, checked) = >>=-eq-ok (wait_until f w t0 timeout 0) _ h in
    wait_until-IsSeen f w t0 timeout 0 (waited ∙ ap ok (success r checked))

-- `assert await wait_until_event(...)`, where `fired` says in which rounds the event fires in time.
unfoldable pub assert_wait_event : ℕ → (ℕ → Bool) → World → ℕ → ℕ → Result (Unit {0})
assert_wait_event f fired w t0 timeout =
    wait_until_event f (λ k. record (w k) { fired = fired k }) t0 timeout 0 >>= λ r.
    check (is_success r) assertion_error

wait_until_event-IsSeen :
    (f : ℕ) (w : World) (t0 timeout k : ℕ)
    → wait_until_event f w t0 timeout k ≡ ok (some true)
    → IsSeen w
unfolding wait_until_event
wait_until_event-IsSeen zero w t0 timeout k h = absurd (ground arith)
wait_until_event-IsSeen (suc f) w t0 timeout k h = elim (Bool-cases (w k).waiting) [
  | inr over ↦ (k, inl over)
  | inl wait ↦ elim (Bool-cases (w k).still_waiting) [
    | inr gone ↦ (k, inr gone)
    | inl still ↦
        wait_until_event-IsSeen f w t0 timeout (k + 1)
          (ground (arith, rw (wait, still, wait_until_event) at h))
  ]
]

pub assert_wait_event-IsSeen :
    (f : ℕ) (fired : ℕ → Bool) (w : World) (t0 timeout : ℕ)
    → assert_wait_event f fired w t0 timeout ≡ ok tt
    → IsSeen w
unfolding assert_wait_event
assert_wait_event-IsSeen f fired w t0 timeout h =
    let seen : World = (λ k. record (w k) { fired = fired k }) in
    let (r, waited, checked) = >>=-eq-ok (wait_until_event f seen t0 timeout 0) _ h in
    wait_until_event-IsSeen f seen t0 timeout 0 (waited ∙ ap ok (success r checked))
