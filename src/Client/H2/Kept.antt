-- ===== src/Client/H2/Kept.antt =====
-- What the HTTP/2 client of framework/deproxy/deproxy_client.py keeps true when it reads.
use tempesta_test.Base.{
  ℕ, zero, suc, ◌≤◌, ◌≡◌, ap, sym, ◌∙◌, inl, inr, Bool, true, false, List, [], ◌∷◌, ◌++◌, some,
  none, if◌then◌else◌, length, Result, ok, raise, ◌>>=◌, Error, incomplete_message, attribute_error,
  arith, Returns, >>=-Returns, >>=-Returns_of, Returns-mono, if-Returns, Option-cases, Result-cases,
  length-append,
}
use tempesta_test.Text.{Text, codes}
use tempesta_test.Message.{Response}
use tempesta_test.AutoParser.{Surroundings, check_expected_response}
use tempesta_test.Client.H2.{
  H2Library, H2Client, Event, response_received, data_received, trailers_received, stream_ended,
  stream_reset, connection_terminated, settings_acknowledged, window_updated, ping_ack_received,
  other_event, increment_flow_control_window, send_pending,
}
use tempesta_test.Client.H2.Aligned.{IsAligned, send_bytes-IsAligned}
use tempesta_test.Client.H2.Reading.{
  decode_result, has_none, handle_event, handle_events, handle_all, follow, read_body, add_body,
  take_input, handle_h2_read, last_of, Next, go_on, read_again, leave, end_response,
  on_h2_exception, parse_h2_response, binary_headers_to_string, find_response,
}

-- The streams in the order of their responses, and the counter of responses.
abbrev pub IsKept : {C : Type 0} → H2Client C → Type 0
IsKept s =
    IsAligned s
    × (length s.response_sequence ≡ length s.client.responses)
    × (s.client.nrresp ≤ length s.client.responses)

on_h2_exception-IsKept :
    {C : Type 0} (e : Error) (s : H2Client C)
    → IsKept s
    → Returns (λ r. IsKept r.1) (on_h2_exception e s)
on_h2_exception-IsKept incomplete_message s h = h
on_h2_exception-IsKept e s h = tt

end_response-IsKept :
    {C : Type 0} (w : Surroundings) (stream : ℕ) (r : Response) (s : H2Client C)
    → IsKept s
    → Returns (λ t. IsKept t.1) (end_response w stream r s)
unfolding end_response
end_response-IsKept w stream r s h =
    let more : length (s.response_sequence ++ stream ∷ []) ≡ length (s.client.responses ++ r ∷ []) =
      omega (
        arith,
        h.1,
        length-append s.response_sequence (stream ∷ []),
        length-append s.client.responses (r ∷ []),
      ) in
    let checked =
      if s.client.auto_parser.parsing
      then check_expected_response w true r s.client.auto_parser
      else ok s.client.auto_parser in
    elim (Result-cases checked) [
      | inl (p, good) ↦
          rw (good, end_response)
            (h.0, more, omega (arith, h.2, length-append s.client.responses (r ∷ [])))
      | inr (e, bad) ↦
          rw (bad, end_response)
            (on_h2_exception-IsKept e _
              (h.0, more, omega (arith, h.2, length-append s.client.responses (r ∷ []))))
    ]

add_body-IsKept :
    {C : Type 0} (stream : ℕ) (body : Text) (r : Response) (s : H2Client C)
    → IsKept s
    → IsKept (add_body stream body r s)
unfolding add_body
add_body-IsKept stream body r s h = h

module _ {C : Type 0} (h2 : H2Library C) (w : Surroundings) where
  increment_flow_control_window-IsKept :
      (stream n : ℕ) (s : H2Client C)
      → IsKept s
      → Returns IsKept (increment_flow_control_window h2 w stream n s)
  unfolding increment_flow_control_window send_pending
  increment_flow_control_window-IsKept stream n s h =
      >>=-Returns IsKept
        (if h2.is_closed s.connection
          then ok s.connection
          else (h2.increment_window n none s.connection >>= λ all.
              if h2.is_stream_open stream all
              then h2.increment_window n (some stream) all
              else ok all))
        _
        (λ c.
          Returns-mono _ IsKept _
            (λ d kept. (
              kept.0,
              ap length kept.1.1 ∙ h.1 ∙ ap length (sym kept.1.0),
              omega (arith, kept.1.2, ap length kept.1.0, h.2),
            ))
            (send_bytes-IsAligned h2 w (h2.data_to_send c).0 false
              (record s { connection = (h2.data_to_send c).1 }) h.0))

  read_body-IsKept :
      (stream n : ℕ) (body : Text) (r : Response) (s : H2Client C)
      → IsKept s
      → Returns (λ t. IsKept t.1) (read_body h2 w stream n body r s)
  unfolding read_body
  read_body-IsKept stream n body r s h =
      let read = add_body stream body r s in
      let kept : IsKept read = add_body-IsKept stream body r s h in
      >>=-Returns_of IsKept (λ t. IsKept t.1)
        (if s.auto_flow_control then increment_flow_control_window h2 w stream n read else ok read)
        _
        (if-Returns IsKept s.auto_flow_control _ _
          (increment_flow_control_window-IsKept stream n read kept) kept)
        (λ d kept. kept)

  handle_event-IsKept :
      (is_last : Bool) (e : Event) (s : H2Client C)
      → IsKept s
      → Returns (λ r. IsKept r.1) (handle_event h2 w is_last e s)
  unfolding handle_event
  handle_event-IsKept is_last (response_received stream decoded) s h =
      >>=-Returns (λ r. IsKept r.1) (decode_result decoded) _
        (λ headers.
          let text = binary_headers_to_string headers ++ codes "\r\n" in
          elim (Result-cases (parse_h2_response w.fw_version text)) [
            | inl (r, good) ↦ rw (good) h
            | inr (e, bad) ↦ rw (bad) (on_h2_exception-IsKept e s h)
          ])
  handle_event-IsKept is_last (data_received stream decoded n) s h =
      >>=-Returns (λ r. IsKept r.1) (decode_result decoded) _
        (λ body. elim (Option-cases (find_response stream s.active_responses)) [
          | inl miss ↦ rw (miss) tt
          | inr (r, found) ↦ rw (found) (read_body-IsKept stream n body r s h)
        ])
  handle_event-IsKept is_last (trailers_received stream decoded) s h =
      elim (Option-cases (find_response stream s.active_responses)) [
        | inl miss ↦
            rw (miss, handle_event)
              (if-Returns (λ r. IsKept r.1) (has_none decoded) (ok (go_on, s))
                (raise attribute_error) h tt)
        | inr (r, found) ↦
            rw (found, handle_event)
              (>>=-Returns (λ r. IsKept r.1) (decode_result decoded) _ (λ trailers. h))
      ]
  handle_event-IsKept is_last (stream_ended stream) s h =
      elim (Option-cases (find_response stream s.active_responses)) [
        | inl miss ↦ rw (miss, handle_event) h
        | inr (r, found) ↦ rw (found, handle_event) (end_response-IsKept w stream r s h)
      ]
  handle_event-IsKept is_last (stream_reset code) s h = h
  handle_event-IsKept is_last (connection_terminated code i) s h = h
  handle_event-IsKept is_last settings_acknowledged s h = h
  handle_event-IsKept is_last window_updated s h = h
  handle_event-IsKept is_last ping_ack_received s h = h
  handle_event-IsKept is_last other_event s h = h

  -- A reading keeps it.
  abbrev Keeps : (List Text × H2Client C → Result (List Text × H2Client C)) → Type 0
  Keeps read = (t : List Text × H2Client C) → IsKept t.1 → Returns (λ u. IsKept u.1) (read t)

  follow-Keeps :
      (again rest : List Text × H2Client C → Result (List Text × H2Client C))
      → Keeps again
      → Keeps rest
      → (next : Next) → Keeps (follow h2 w again rest next)
  follow-Keeps again rest k l go_on t h = l t h
  follow-Keeps again rest k l leave t h = h
  follow-Keeps again rest k l read_again t h =
      >>=-Returns_of (λ u. IsKept u.1) (λ u. IsKept u.1) (again t) rest (k t h) l

  handle_events-Keeps :
      (again : List Text × H2Client C → Result (List Text × H2Client C))
      → Keeps again
      → (last_event : Event) (l : List Event) → Keeps (handle_events h2 w again last_event l)
  unfolding handle_events
  handle_events-Keeps again k last_event [] t h = h
  handle_events-Keeps again k last_event (e ∷ l) t h =
      >>=-Returns_of (λ r. IsKept r.1) (λ u. IsKept u.1)
        (handle_event h2 w (h2.same_event e last_event) e t.1) _
        (handle_event-IsKept (h2.same_event e last_event) e t.1 h)
        (λ done kept.
          follow-Keeps again (handle_events h2 w again last_event l) k
            (handle_events-Keeps again k last_event l) done.0 (t.0, done.1) kept)

  handle_all-Keeps :
      (again : List Text × H2Client C → Result (List Text × H2Client C))
      → Keeps again
      → (l : List Event) → Keeps (handle_all h2 w again l)
  handle_all-Keeps again k [] t h = h
  handle_all-Keeps again k (e ∷ l) t h = handle_events-Keeps again k (last_of e l) (e ∷ l) t h

  take_input-IsKept : (d : Text) (s : H2Client C) → IsKept s → IsKept (take_input d s)
  unfolding take_input
  take_input-IsKept d s h = h

  -- If each request of the HTTP/2 client has its two buffers, its counter of requests agrees with
  -- them, the current request is none beyond them, the finished streams are as many as the
  -- responses, and no more responses are counted than there are, then all this holds again if
  -- `_handle_read` returns, whatever events the h2 package makes of the input.
  pub handle_h2_read-IsKept :
      (f : ℕ) (input : List Text) (s : H2Client C)
      → IsKept s
      → Returns (λ t. IsKept t.1) (handle_h2_read h2 w f (input, s))
  unfolding handle_h2_read
  handle_h2_read-IsKept zero input s h = tt
  handle_h2_read-IsKept (suc f) [] s h = h
  handle_h2_read-IsKept (suc f) ([] ∷ input) s h = h
  handle_h2_read-IsKept (suc f) ((c ∷ d) ∷ input) s h =
      >>=-Returns (λ t. IsKept t.1) (h2.receive_data (c ∷ d) s.connection) _
        (λ received.
          handle_all-Keeps (handle_h2_read h2 w f) (λ t kept. handle_h2_read-IsKept f t.0 t.1 kept)
            received.0 _ (take_input-IsKept (c ∷ d) s h))
