-- ===== src/Client/H2/Termination.antt =====
-- The rounds of the HTTP/2 client's `_handle_read` in framework/deproxy/deproxy_client.py.
use tempesta_test.Base.{
  ℕ, zero, suc, ◌≤◌, ◌≢◌, ap, ◌∙◌, inl, inr, Bool, true, List, [], ◌∷◌, ◌++◌, Option, some, none,
  if◌then◌else◌, length, Result, ok, raise, ◌>>=◌, Error, no_fuel, incomplete_message, arith,
  Returns, Returns-ok, >>=-Returns, >>=-Returns_of, Returns-mono, Option-cases, Result-cases,
  >>=-IsFueled, if-IsFueled,
}
use tempesta_test.Text.{Text, codes}
use tempesta_test.Message.{Response, none_read}
use tempesta_test.Message.Termination.{parse_rest-IsFueled}
use tempesta_test.AutoParser.{Surroundings, check_expected_response}
use tempesta_test.AutoParser.Termination.{check_expected_response-IsFueled}
use tempesta_test.Client.H2.{
  H2Library, H2Client, Event, response_received, data_received, trailers_received, stream_ended,
  stream_reset, connection_terminated, settings_acknowledged, window_updated, ping_ack_received,
  other_event, increment_flow_control_window, send_pending, send_bytes, add_to_request_buffers,
  add_data, expect_h2_request,
}
use tempesta_test.Client.H2.Reading.{
  decode_result, handle_event, handle_events, handle_all, follow, read_body, add_body, take_input,
  handle_h2_read, last_of, Next, go_on, read_again, leave, end_response, on_h2_exception,
  parse_h2_response, binary_headers_to_string, find_response,
}

decode_result-IsFueled : {A : Type 0} (o : Option A) → decode_result o ≢ raise no_fuel
decode_result-IsFueled none = ground arith
decode_result-IsFueled (some a) = ground arith

on_h2_exception-IsFueled :
    {C : Type 0} (e : Error) (s : H2Client C) → e ≢ no_fuel → on_h2_exception e s ≢ raise no_fuel
on_h2_exception-IsFueled incomplete_message s h = ground arith
on_h2_exception-IsFueled e s h = λ q. h (ground arith)

parse_h2_response-IsFueled :
    (fw_version text : Text) → parse_h2_response fw_version text ≢ raise no_fuel
unfolding parse_h2_response
parse_h2_response-IsFueled fw_version text =
    >>=-IsFueled _ _
      (parse_rest-IsFueled (λ headers s. ok (none_read s)) true text text _
        (λ headers t. ground arith))
      (λ m e. ground arith)

send_pending-IsFueled :
    {C : Type 0} (h2 : H2Library C) (w : Surroundings) (s : H2Client C)
    → send_pending h2 w s ≢ raise no_fuel
unfolding send_pending send_bytes add_to_request_buffers add_data expect_h2_request
send_pending-IsFueled h2 w s = ground arith

-- A reading of at most n texts ends, and it leaves at most as many.
abbrev IsGood :
    {C : Type 0} → ℕ → (List Text × H2Client C → Result (List Text × H2Client C)) → Type 0
IsGood {C = C} n read =
    (t : List Text × H2Client C)
    → length t.0 ≤ n
    → (read t ≢ raise no_fuel) × Returns (λ u. length u.0 ≤ length t.0) (read t)

module _ {C : Type 0} (h2 : H2Library C) (w : Surroundings)
    (known_dates : (s : Text) → w.parse_date s ≢ raise no_fuel)
    (known_data : (d : Text) (c : C) → h2.receive_data d c ≢ raise no_fuel)
    (known_window : (n : ℕ) (i : Option ℕ) (c : C)
      → h2.increment_window n i c ≢ raise no_fuel) where
  end_response-IsFueled :
      (stream : ℕ) (r : Response) (s : H2Client C) → end_response w stream r s ≢ raise no_fuel
  unfolding end_response
  end_response-IsFueled stream r s =
      let checked =
        if s.client.auto_parser.parsing
        then check_expected_response w true r s.client.auto_parser
        else ok s.client.auto_parser in
      let fueled =
        if-IsFueled s.client.auto_parser.parsing
          (check_expected_response w true r s.client.auto_parser) (ok s.client.auto_parser)
          (check_expected_response-IsFueled w known_dates true r s.client.auto_parser)
          (ground arith) in
      elim (Result-cases checked) [
        | inl (p, good) ↦ rw (good, end_response) (ground arith)
        | inr (e, bad) ↦
            rw (bad, end_response) (on_h2_exception-IsFueled e _ (λ q. fueled (bad ∙ ap raise q)))
      ]

  increment_flow_control_window-IsFueled :
      (stream n : ℕ) (s : H2Client C)
      → increment_flow_control_window h2 w stream n s ≢ raise no_fuel
  unfolding increment_flow_control_window
  increment_flow_control_window-IsFueled stream n s =
      >>=-IsFueled
        (if h2.is_closed s.connection
          then ok s.connection
          else (h2.increment_window n none s.connection >>= λ all.
              if h2.is_stream_open stream all
              then h2.increment_window n (some stream) all
              else ok all))
        _
        (if-IsFueled (h2.is_closed s.connection) (ok s.connection) _ (ground arith) (
          >>=-IsFueled (h2.increment_window n none s.connection) _
            (known_window n none s.connection)
            (λ all e.
              if-IsFueled (h2.is_stream_open stream all) _ (ok all)
                (known_window n (some stream) all) (ground arith))))
        (λ c e. send_pending-IsFueled h2 w (record s { connection = c }))

  read_body-IsFueled :
      (stream n : ℕ) (body : Text) (r : Response) (s : H2Client C)
      → read_body h2 w stream n body r s ≢ raise no_fuel
  unfolding read_body
  read_body-IsFueled stream n body r s =
      let read = add_body stream body r s in
      >>=-IsFueled
        (if s.auto_flow_control then increment_flow_control_window h2 w stream n read else ok read)
        _
        (if-IsFueled s.auto_flow_control (increment_flow_control_window h2 w stream n read)
          (ok read) (increment_flow_control_window-IsFueled stream n read) (ground arith))
        (λ d e. ground arith)

  handle_event-IsFueled :
      (is_last : Bool) (e : Event) (s : H2Client C) → handle_event h2 w is_last e s ≢ raise no_fuel
  unfolding handle_event
  handle_event-IsFueled is_last (response_received stream decoded) s =
      >>=-IsFueled (decode_result decoded) _ (decode_result-IsFueled decoded) (λ headers q.
        let text = binary_headers_to_string headers ++ codes "\r\n" in
        elim (Result-cases (parse_h2_response w.fw_version text)) [
          | inl (r, good) ↦ rw (good) (ground arith)
          | inr (e, bad) ↦ rw (bad) (
              on_h2_exception-IsFueled e s
                (λ q. parse_h2_response-IsFueled w.fw_version text (bad ∙ ap raise q)))
        ])
  handle_event-IsFueled is_last (data_received stream decoded n) s =
      >>=-IsFueled (decode_result decoded) _ (decode_result-IsFueled decoded) (λ body q.
        elim (Option-cases (find_response stream s.active_responses)) [
          | inl miss ↦ rw (miss) (ground arith)
          | inr (r, found) ↦ rw (found) (read_body-IsFueled stream n body r s)
        ])
  handle_event-IsFueled is_last (trailers_received stream decoded) s =
      elim (Option-cases (find_response stream s.active_responses)) [
        | inl miss ↦ rw (miss, handle_event) (ground arith)
        | inr (r, found) ↦
            rw (found, handle_event)
              (>>=-IsFueled (decode_result decoded) _ (decode_result-IsFueled decoded)
                (λ l q. ground arith))
      ]
  handle_event-IsFueled is_last (stream_ended stream) s =
      elim (Option-cases (find_response stream s.active_responses)) [
        | inl miss ↦ rw (miss, handle_event) (ground arith)
        | inr (r, found) ↦ rw (found, handle_event) (end_response-IsFueled stream r s)
      ]
  handle_event-IsFueled is_last (stream_reset code) s = ground arith
  handle_event-IsFueled is_last (connection_terminated code i) s = ground arith
  handle_event-IsFueled is_last settings_acknowledged s = ground arith
  handle_event-IsFueled is_last window_updated s = ground arith
  handle_event-IsFueled is_last ping_ack_received s = ground arith
  handle_event-IsFueled is_last other_event s = ground arith

  >>=-IsGood :
      (n : ℕ) (first rest : List Text × H2Client C → Result (List Text × H2Client C))
      → IsGood n first
      → IsGood n rest
      → IsGood n (λ t. first t >>= rest)
  >>=-IsGood n first rest g h t le = (
    >>=-IsFueled (first t) rest (g t le).0 (λ u e.
        (h u (omega (arith, Returns-ok (λ u. length u.0 ≤ length t.0) (first t) (g t le).1 e))).0),
    >>=-Returns_of (λ u. length u.0 ≤ length t.0) (λ u. length u.0 ≤ length t.0) (first t) rest
        (g t le).1
        (λ u less.
          Returns-mono (λ v. length v.0 ≤ length u.0) (λ v. length v.0 ≤ length t.0) (rest u)
            (λ v more. omega (arith, less, more)) (h u (omega (arith, less))).1),
  )

  follow-IsGood :
      (n : ℕ) (again rest : List Text × H2Client C → Result (List Text × H2Client C))
      → IsGood n again
      → IsGood n rest
      → (next : Next) → IsGood n (follow h2 w again rest next)
  follow-IsGood n again rest g h go_on t le = h t le
  follow-IsGood n again rest g h leave t le = (ground arith, omega arith)
  follow-IsGood n again rest g h read_again t le = >>=-IsGood n again rest g h t le

  handle_events-IsGood :
      (n : ℕ) (again : List Text × H2Client C → Result (List Text × H2Client C))
      → IsGood n again
      → (last_event : Event) (l : List Event) → IsGood n (handle_events h2 w again last_event l)
  unfolding handle_events
  handle_events-IsGood n again g last_event [] t le = (ground arith, omega arith)
  handle_events-IsGood n again g last_event (e ∷ l) t le =
      let event = handle_event h2 w (h2.same_event e last_event) e t.1 in
      let next = λ (done : Next × H2Client C).
        follow-IsGood n again (handle_events h2 w again last_event l) g
          (handle_events-IsGood n again g last_event l) done.0 (t.0, done.1) le in
      (
        >>=-IsFueled event _ (handle_event-IsFueled (h2.same_event e last_event) e t.1)
            (λ done q. (next done).0),
        >>=-Returns (λ u. length u.0 ≤ length t.0) event _ (λ done. (next done).1),
      )

  handle_all-IsGood :
      (n : ℕ) (again : List Text × H2Client C → Result (List Text × H2Client C))
      → IsGood n again
      → (l : List Event) → IsGood n (handle_all h2 w again l)
  handle_all-IsGood n again g [] t le = (ground arith, omega arith)
  handle_all-IsGood n again g (e ∷ l) t le =
      handle_events-IsGood n again g (last_of e l) (e ∷ l) t le

  handle_h2_read-IsGood : (n : ℕ) → IsGood n (handle_h2_read h2 w (suc n))
  unfolding handle_h2_read
  handle_h2_read-IsGood n ([], s) le = (ground arith, omega arith)
  handle_h2_read-IsGood n ([] ∷ input, s) le = (ground arith, omega arith)
  handle_h2_read-IsGood zero ((c ∷ d) ∷ input, s) le = absurd (ground arith)
  handle_h2_read-IsGood (suc n) ((c ∷ d) ∷ input, s) le =
      let next = λ (received : List Event × C).
        handle_all-IsGood n (handle_h2_read h2 w (suc n)) (handle_h2_read-IsGood n) received.0
          (input, record (take_input (c ∷ d) s) { connection = received.1 }) (omega arith) in
      (
        >>=-IsFueled (h2.receive_data (c ∷ d) s.connection) _ (known_data (c ∷ d) s.connection)
            (λ received q. (next received).0),
        >>=-Returns (λ u. length u.0 ≤ suc (length input)) (h2.receive_data (c ∷ d) s.connection) _
            (λ received.
              Returns-mono (λ u. length u.0 ≤ length input) (λ u. length u.0 ≤ suc (length input)) _
                (λ u less. omega (arith, less)) (next received).1),
      )

  -- If parsing a date, receiving data and opening a window end, then `_handle_read` of the HTTP/2
  -- client, which calls itself for further events, ends within one round more than there are
  -- texts to receive: it returns or raises one of the program's exceptions, and if it returns
  -- there are no more texts to receive than before.
  pub handle_h2_read-IsFueled :
      (input : List Text) (s : H2Client C)
      → (handle_h2_read h2 w (suc (length input)) (input, s) ≢ raise no_fuel)
        × Returns
            (λ u. length u.0 ≤ length input)
            (handle_h2_read h2 w (suc (length input)) (input, s))
  handle_h2_read-IsFueled input s = handle_h2_read-IsGood (length input) (input, s) (omega arith)
