-- ===== src/Client/Waits.antt =====
-- The waits of the clients in framework/deproxy/deproxy_client.py.
use tempesta_test.Base.{
  zero, suc, false, ℕ, ◌≤◌, ◌≡◌, ◌⊎◌, inl, inr, Bool, not, ◌&&◌, Option, none, some, if◌then◌else◌,
  ◌==◌, ltb, Result, ok, ◌>>=◌, arith,
}
use tempesta_test.Stateful.{State, is_error, is_started}
use tempesta_test.Wait.{adjust_timeout}
use tempesta_test.Wait.Asserting.{Observed, world_of, assert_wait, assert_wait-IsSeen}

-- What a wait reads of a client: `_connected` and `_connecting`, its state and its counters, and of
-- the HTTP/2 client what it knows of the settings, the pings and the streams of the h2 package.
pub record Moment : Type 0 where
  pub connected : Bool
  pub connecting : Bool
  pub state : State
  pub cur_req_num : ℕ
  pub valid_req_num : ℕ
  pub nr_responses : ℕ
  pub ack_settings : Bool
  pub ping_received : ℕ
  pub is_reset : ℕ → Bool
  pub has_headers : ℕ → Bool

-- How a wait goes: the fuel, whether TCP segmentation is on, and the time at its start.
pub record Going : Type 0 where
  pub fuel : ℕ
  pub tcp_segmentation : Bool
  pub start : ℕ

-- `self.connection_is_closed and not self._connecting`
abbrev pub is_gone : Moment → Bool
is_gone m = not m.connected && not m.connecting

abbrev adjusted : Going → Bool → ℕ → ℕ
adjusted g adjust timeout = if adjust then adjust_timeout g.tcp_segmentation timeout else timeout

-- `n or other`
abbrev pub or_number : Option ℕ → ℕ → ℕ
or_number none m = m
or_number (some n) m = if n == 0 then m else n

unfoldable pub wait_for_connection_open : Going → ℕ → Bool → Observed Moment → Result (Unit {0})
wait_for_connection_open g timeout adjust o =
    assert_wait g.fuel (world_of (λ m. not m.connected) (λ m. not m.connecting) o) g.start
      (adjusted g adjust timeout)

unfoldable pub wait_for_connection_close : Going → ℕ → Bool → Observed Moment → Result (Unit {0})
wait_for_connection_close g timeout adjust o =
    assert_wait g.fuel (world_of (λ m. m.connected) (λ m. is_error m.state) o) g.start
      (adjusted g adjust timeout)

-- The number to wait for is read once, before the wait: `before` is the client then.
unfoldable pub wait_for_client_sends_requests :
    Going → Moment → ℕ → ℕ → Observed Moment → Result (Unit {0})
wait_for_client_sends_requests g before n timeout o =
    let wanted = or_number (some n) before.valid_req_num in
    assert_wait g.fuel (world_of (λ m. ltb m.cur_req_num wanted) (λ m. not (is_started m.state)) o)
      g.start timeout

unfoldable pub wait_for_response : Going → ℕ → Bool → Option ℕ → Observed Moment → Result (Unit {0})
wait_for_response g timeout adjust n o =
    assert_wait g.fuel (world_of (λ m. ltb m.nr_responses (or_number n m.valid_req_num)) is_gone o)
      g.start (adjusted g adjust timeout)

unfoldable pub wait_for_ack_settings : Going → ℕ → Observed Moment → Result (Unit {0})
wait_for_ack_settings g timeout o =
    assert_wait g.fuel (world_of (λ m. not m.ack_settings) is_gone o) g.start timeout

unfoldable pub wait_for_reset_stream : Going → ℕ → ℕ → Observed Moment → Result (Unit {0})
wait_for_reset_stream g stream timeout o =
    assert_wait g.fuel (world_of (λ m. not (m.is_reset stream)) is_gone o) g.start timeout

-- `find` is `_get_stream_by_id` of the h2 package, which raises for a stream that is not there.
unfoldable pub wait_for_headers_frame :
    Going → (ℕ → Result (Unit {0})) → ℕ → ℕ → Observed Moment → Result (Unit {0})
wait_for_headers_frame g find stream timeout o = find stream >>= λ u.
    assert_wait g.fuel (world_of (λ m. not (m.has_headers stream)) is_gone o) g.start timeout

unfoldable pub wait_for_ping_frames : Going → ℕ → ℕ → Observed Moment → Result (Unit {0})
wait_for_ping_frames g count timeout o =
    assert_wait g.fuel (world_of (λ m. ltb m.ping_received count) is_gone o) g.start timeout

-- Enough responses are there.
abbrev pub HasResponses : Option ℕ → Moment → Type 0
HasResponses none m = m.valid_req_num ≤ m.nr_responses
HasResponses (some zero) m = m.valid_req_num ≤ m.nr_responses
HasResponses (some (suc n)) m = suc n ≤ m.nr_responses

HasResponses-or_number :
    (n : Option ℕ) (m : Moment)
    → ltb m.nr_responses (or_number n m.valid_req_num) ≡ false
    → HasResponses n m
HasResponses-or_number none m h = ground arith
HasResponses-or_number (some zero) m h = ground arith
HasResponses-or_number (some (suc n)) m h = ground arith

-- If `wait_for_response` returns, then at some read of the client it had as many responses as
-- were asked for, or, if no number or 0 was given, as many as it expected at that read.
pub wait_for_response-HasResponses :
    (g : Going) (timeout : ℕ) (adjust : Bool) (n : Option ℕ) (o : Observed Moment)
    → wait_for_response g timeout adjust n o ≡ ok tt
    → (j : ℕ) × (HasResponses n (o.value j) ⊎ HasResponses n (o.last_value j))
unfolding wait_for_response
wait_for_response-HasResponses g timeout adjust n o h =
    let (j, seen) = assert_wait-IsSeen g.fuel _ g.start (adjusted g adjust timeout) h in
    elim seen [
      | inl now ↦ (j, inl (HasResponses-or_number n (o.value j) now))
      | inr late ↦ (j, inr (HasResponses-or_number n (o.last_value j) late))
    ]
