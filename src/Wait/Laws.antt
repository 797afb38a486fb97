-- ===== src/Wait/Laws.antt =====
-- The waits end, and their results mean what they say.
use tempesta_test.Base.{
  ℕ, zero, suc, ◌+◌, ◌≤◌, ◌<◌, ◌≡◌, ◌⊎◌, inl, inr, Bool, true, false, not, Option, none, some, ltb,
  leb, Result, ok, raise, arith, Bool-cases,
}
use tempesta_test.Wait.{World, wait_until, wait_until_event}

-- What a result says of the round in which the wait ended: `True`, the condition was seen not to
-- hold; `False`, the time was over and the condition held still; `None`, the wait was aborted.
abbrev pub Explains : (ℕ → Type 0) → World → ℕ → Option Bool → Type 0
Explains IsLate w j (some true) = ((w j).waiting ≡ false) ⊎ ((w j).still_waiting ≡ false)
Explains IsLate w j (some false) = IsLate j × ((w j).waiting ≡ true) × ((w j).still_waiting ≡ true)
Explains IsLate w j none = ((w j).aborted ≡ true) × ((w j).waiting ≡ true)

-- The wait that starts at round k returns, at a round that explains its result.
abbrev pub Ends : (ℕ → Type 0) → World → ℕ → Result (Option Bool) → Type 0
Ends IsLate w k (raise e) = ⊥
Ends IsLate w k (ok r) = (j : ℕ) × (k ≤ j) × Explains IsLate w j r

Ends-later :
    (IsLate : ℕ → Type 0) (w : World) (k : ℕ) (r : Result (Option Bool))
    → Ends IsLate w (k + 1) r
    → Ends IsLate w k r
Ends-later IsLate w k (ok r) (j, h, e) = (j, omega arith, e)
Ends-later IsLate w k (raise e) h = h

-- Giving up: the condition is read once more.
gives_up :
    (IsLate : ℕ → Type 0) (w : World) (k : ℕ)
    → (w k).waiting ≡ true
    → IsLate k
    → Ends IsLate w k (ok (some (not (w k).still_waiting)))
gives_up IsLate w k wait late = elim (Bool-cases (w k).still_waiting) [
  | inl still ↦ rw still (k, omega arith, (late, wait, still))
  | inr gone ↦ rw gone (k, omega arith, inr gone)
]

module _ (w : World) (t0 timeout : ℕ) where
  -- `time.time() - t0 > timeout`
  abbrev pub IsOver : ℕ → Type 0
  IsOver j = t0 + timeout < (w j).now

  -- No time is left, or the event did not fire in the time that was.
  abbrev pub IsExpired : ℕ → Type 0
  IsExpired j = (t0 + timeout ≤ (w j).now) ⊎ ((w j).fired ≡ false)

  module _ (clock : (j : ℕ) → t0 + j ≤ (w j).now) where
    -- If the clock goes on by a tick each round at least, and `wait_until` starts within `timeout
    -- + 1` rounds with fuel up to round `timeout + 2`, then it returns, and a round explains the
    -- result: `True`, the condition was seen not to hold; `False`, the time was over and the
    -- condition held still; `None`, the wait was aborted while the condition held.
    pub wait_until-Ends :
        (f k : ℕ)
        → timeout + 1 < f + k
        → k ≤ timeout + 1
        → Ends IsOver w k (wait_until f w t0 timeout k)
    unfolding wait_until
    wait_until-Ends zero k h l = absurd (omega arith)
    wait_until-Ends (suc f) k h l = elim (Bool-cases (w k).waiting) [
      | inr over ↦ rw (over, wait_until) (k, omega arith, inl over)
      | inl wait ↦ elim (Bool-cases (ltb (t0 + timeout) (w k).now)) [
        | inl late ↦ rw (wait, late, wait_until) (gives_up IsOver w k wait (ground arith))
        | inr early ↦ elim (Bool-cases (w k).aborted) [
          | inl abort ↦ rw (wait, early, abort, wait_until) (k, omega arith, (abort, wait))
          | inr on ↦
              rw (wait, early, on, wait_until)
                (Ends-later IsOver w k _
                  (wait_until-Ends f (k + 1) (omega arith) (ground (arith, clock k))))
        ]
      ]
    ]

    -- If the clock goes on by a tick each round at least, and `wait_until_event` starts within
    -- `timeout` rounds with fuel up to round `timeout + 1`, then it returns, and a round explains
    -- the result: `True`, the condition was seen not to hold; `False`, the condition held still
    -- when no time was left or the event did not fire in the time left; `None`, the wait was
    -- aborted while the condition held.
    pub wait_until_event-Ends :
        (f k : ℕ)
        → timeout < f + k
        → k ≤ timeout
        → Ends IsExpired w k (wait_until_event f w t0 timeout k)
    unfolding wait_until_event
    wait_until_event-Ends zero k h l = absurd (omega arith)
    wait_until_event-Ends (suc f) k h l = elim (Bool-cases (w k).waiting) [
      | inr over ↦ rw (over, wait_until_event) (k, omega arith, inl over)
      | inl wait ↦ elim (Bool-cases (w k).aborted) [
        | inl abort ↦ rw (wait, abort, wait_until_event) (k, omega arith, (abort, wait))
        | inr on ↦ elim (Bool-cases (leb (t0 + timeout) (w k).now)) [
          | inl late ↦
              rw (wait, on, late, wait_until_event)
                (gives_up IsExpired w k wait (inl (ground arith)))
          | inr early ↦ elim (Bool-cases (w k).fired) [
            | inr silent ↦
                rw (wait, on, early, silent, wait_until_event)
                  (gives_up IsExpired w k wait (inr silent))
            | inl fired ↦
                rw (wait, on, early, fired, wait_until_event)
                  (Ends-later IsExpired w k _
                    (wait_until_event-Ends f (k + 1) (omega arith) (ground (arith, clock k))))
          ]
        ]
      ]
    ]
