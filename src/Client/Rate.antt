-- ===== src/Client/Rate.antt =====
-- When the client of framework/deproxy/deproxy_client.py may write: `_has_pending_data` and
-- `next_request_time`. Times are in milliseconds, and the comparison with the time of the next
-- request, `start + cur / rps` in seconds, is written without the division.
use tempesta_test.Base.{
  ℕ, ◌+◌, ◌-◌, ◌*◌, ◌≤◌, ◌<◌, ◌≡◌, Bool, true, false, not, ◌&&◌, if◌then◌else◌, ◌==◌, ltb, leb,
  arith, ◌⊎◌,
}
use tempesta_test.Client.{Client}

pub record Clock : Type 0 where
  pub now : ℕ
  pub start_time : ℕ
  pub last_segment_time : ℕ
  pub rps : ℕ
  pub segment_gap : ℕ

-- `time.time() < self.next_request_time()`
unfoldable pub is_early : Clock → ℕ → Bool
is_early t cur =
    if t.rps == 0
    then ltb t.now t.start_time
    else ltb (t.now * t.rps) (t.start_time * t.rps + 1000 * cur)

unfoldable pub has_pending_data : Clock → Client → Bool
unfolding is_early
has_pending_data t c =
    if leb c.nrreq c.cur_req_num
    then false
    else if is_early t c.cur_req_num
    then false
    else if not (t.segment_gap == 0) && ltb (t.now - t.last_segment_time) t.segment_gap
    then false
    else true

-- If the client may write, then a request is left, its time has come, and the gap after the last
-- segment has passed.
pub has_pending_data-rate :
    (t : Clock) (c : Client)
    → has_pending_data t c ≡ true
    → (c.cur_req_num < c.nrreq)
      × (((t.rps ≡ 0) × (t.start_time ≤ t.now))
          ⊎ (t.start_time * t.rps + 1000 * c.cur_req_num ≤ t.now * t.rps))
      × ((t.segment_gap ≡ 0) ⊎ (t.last_segment_time + t.segment_gap ≤ t.now))
unfolding has_pending_data
has_pending_data-rate t c h = (ground arith, ground arith, ground arith)
