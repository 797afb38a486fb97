-- ===== src/Wait.antt =====
-- `wait_until` and `wait_until_event` of framework/helpers/util.py. What the coroutine sees of the
-- world is a function of the round: the conditions at each of its reads, the clock in ticks, and
-- whether the awaited event fires in time.
pub mod Laws
pub mod Asserting
use tempesta_test.Base.{
  ℕ, zero, suc, ◌+◌, ◌-◌, Bool, true, false, not, ◌&&◌, Option, none, some, if◌then◌else◌, ltb, leb,
  Result, ok, raise, no_fuel,
}

-- One round: `wait_cond()` at its head, the clock, `abort_cond()`, `wait_cond()` when it is asked
-- once more before giving up, and whether `event.wait()` ends before its timeout.
pub record Round : Type 0 where
  pub waiting : Bool
  pub now : ℕ
  pub aborted : Bool
  pub still_waiting : Bool
  pub fired : Bool

abbrev pub World : Type 0
World = ℕ → Round

-- `__adjust_timeout_for_tcp_segmentation`, in seconds.
unfoldable pub adjust_timeout : Bool → ℕ → ℕ
adjust_timeout tcp_segmentation timeout = if tcp_segmentation && ltb timeout 30 then 60 else timeout

-- The loop of `wait_until` from round k on; `some b` is `return b`, and `none` is `return None`.
unfoldable pub wait_until : ℕ → World → ℕ → ℕ → ℕ → Result (Option Bool)
wait_until zero w t0 timeout k = raise no_fuel
wait_until (suc f) w t0 timeout k =
    let again = wait_until f w t0 timeout (k + 1) in
    if (w k).waiting
    then (if ltb (t0 + timeout) ((w k).now)
        then ok (some (not ((w k).still_waiting)))
        else if (w k).aborted
        then ok none
        else again)
    else ok (some true)

-- The loop of `wait_until_event`.
unfoldable pub wait_until_event : ℕ → World → ℕ → ℕ → ℕ → Result (Option Bool)
wait_until_event zero w t0 timeout k = raise no_fuel
wait_until_event (suc f) w t0 timeout k =
    let again = wait_until_event f w t0 timeout (k + 1) in
    if (w k).waiting
    then (if (w k).aborted
        then ok none
        else if leb (t0 + timeout) (w k).now
        then ok (some (not (w k).still_waiting))
        else if (w k).fired
        then again
        else ok (some (not (w k).still_waiting)))
    else ok (some true)
