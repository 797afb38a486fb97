-- ===== src/Client/H2/Reading.antt =====
-- How the HTTP/2 client of framework/deproxy/deproxy_client.py reads: `_handle_read`, with the
-- responses that it builds from the events of the h2 package.
use tempesta_test.Base.{
  ℕ, zero, suc, ◌+◌, ◌==◌, Bool, true, false, List, [], ◌∷◌, ◌++◌, Option, none, some,
  if◌then◌else◌, Result, ok, raise, ◌>>=◌, Error, no_fuel, attribute_error, value_error,
}
use tempesta_test.Text.{Text, codes}
use tempesta_test.Headers.{Header, get, add}
use tempesta_test.Message.{Response, parse_rest, none_read}
use tempesta_test.Message.Change.{new_h2_response}
use tempesta_test.AutoParser.{Surroundings, check_expected_response}
use tempesta_test.Client.H2.{
  H2Library, H2Client, Event, response_received, data_received, trailers_received, stream_ended,
  stream_reset, connection_terminated, settings_acknowledged, window_updated, ping_ack_received,
  other_event, increment_flow_control_window,
}

-- `__binary_headers_to_string`
unfoldable pub binary_headers_to_string : List Header → Text
binary_headers_to_string [] = []
binary_headers_to_string ((name, value) ∷ l) =
    name ++ (codes ": " ++ (value ++ (codes "\r\n" ++ binary_headers_to_string l)))

-- `H2Response(text, method="", body_parsing=False)`
unfoldable pub parse_h2_response : Text → Text → Result Response
parse_h2_response fw_version text = do
  let empty = new_h2_response fw_version (some [])
  m ←
      parse_rest (λ headers s. ok (none_read s)) true text text
        (record (empty.message) { body_parsing = false })
  ok (record empty { message = m; status = get m.headers (codes ":status") })

-- `decode` raises a `UnicodeDecodeError`, which is a `ValueError`.
abbrev pub decode_result : {A : Type 0} → Option A → Result A
decode_result none = raise value_error
decode_result (some a) = ok a

-- There is no trailer to be added.
abbrev pub has_none : Option (List Header) → Bool
has_none (some []) = true
has_none _ = false

-- The dict of the responses that are not complete.
unfoldable pub find_response : ℕ → List (ℕ × Response) → Option Response
find_response i [] = none
find_response i ((j, r) ∷ l) = if i == j then some r else find_response i l

unfoldable pub drop_response : ℕ → List (ℕ × Response) → List (ℕ × Response)
drop_response i [] = []
drop_response i ((j, r) ∷ l) =
    let rest = drop_response i l in if i == j then rest else (j, r) ∷ rest

abbrev pub put_response : ℕ → Response → List (ℕ × Response) → List (ℕ × Response)
put_response i r l = (i, r) ∷ drop_response i l

unfoldable pub add_trailers : List Header → Response → Response
add_trailers [] r = r
add_trailers ((name, value) ∷ l) r =
    add_trailers l
      (record r { message = record (r.message) { trailer = add r.trailer name value } })

-- What is left to do after an event: the loop goes on, the client reads again first, or
-- `_handle_read` returns.
pub data Next : Type 0 where
  go_on read_again leave : Next

-- `except IncompleteMessage`: the client stays as it is. Any other exception is passed on.
abbrev pub on_h2_exception : {C : Type 0} → Error → H2Client C → Result (Next × H2Client C)
on_h2_exception Error.incomplete_message s = ok (leave, s)
on_h2_exception e s = raise e

-- The response of a stream that is ended: it is put in its place, then it is checked and counted.
unfoldable pub end_response :
    {C : Type 0} → Surroundings → ℕ → Response → H2Client C → Result (Next × H2Client C)
end_response w stream r s =
    let ended = record s {
      active_responses = drop_response stream s.active_responses;
      response_sequence = s.response_sequence ++ stream ∷ [];
      client = record (s.client) { responses = s.client.responses ++ r ∷ [] };
      clear_last_response_buffer = true;
    } in
    elim (if s.client.auto_parser.parsing
      then check_expected_response w true r s.client.auto_parser
      else ok s.client.auto_parser) [
        | raise e ↦ on_h2_exception e ended
        | ok p ↦ ok (
          go_on,
          record ended {
            client = record (ended.client) { auto_parser = p; nrresp = s.client.nrresp + 1 };
          },
        )
      ]

-- A counter goes up, and the client reads again after the last event.
abbrev pub then_read : {C : Type 0} → Bool → H2Client C → Result (Next × H2Client C)
then_read is_last s = ok (if is_last then read_again else go_on, s)

-- Data is added to the response.
unfoldable pub add_body : {C : Type 0} → ℕ → Text → Response → H2Client C → H2Client C
add_body stream body r s =
    let longer = record r { message = record (r.message) { body = r.body ++ body } } in
    record s { active_responses = put_response stream longer s.active_responses }

-- `events[-1]`
abbrev pub last_of : Event → List Event → Event
last_of e [] = e
last_of e (f ∷ l) = last_of f l

-- What is read is the buffer, and it is added to what came since the last response.
unfoldable pub take_input : {C : Type 0} → Text → H2Client C → H2Client C
take_input data_ s =
    let kept = if s.clear_last_response_buffer then [] else s.last_response_buffer in
    record s {
      client = record (s.client) { response_buffer = data_ };
      clear_last_response_buffer = false;
      last_response_buffer = kept ++ data_;
    }

module _ {C : Type 0} (h2 : H2Library C) (w : Surroundings) where
  -- The windows of flow control are opened again.
  unfoldable pub read_body : ℕ → ℕ → Text → Response → H2Client C → Result (Next × H2Client C)
  read_body stream flow_length body r s = do
    let read = add_body stream body r s
    flowing ←
        (if s.auto_flow_control
          then increment_flow_control_window h2 w stream flow_length read
          else ok read)
    ok (go_on, flowing)

  -- One event; `is_last` says that it equals the last one of them.
  unfoldable pub handle_event : Bool → Event → H2Client C → Result (Next × H2Client C)
  handle_event is_last (response_received stream decoded) s = do
    headers ← decode_result decoded
    (elim (parse_h2_response w.fw_version (binary_headers_to_string headers ++ codes "\r\n")) [
      | raise e ↦ on_h2_exception e s
      | ok r ↦ ok (go_on, record s { active_responses = put_response stream r s.active_responses })
    ])
  handle_event is_last (data_received stream decoded flow_length) s = do
    body ← decode_result decoded
    (elim (find_response stream s.active_responses) [
      | none ↦ raise attribute_error
      | some r ↦ read_body stream flow_length body r s
    ])
  handle_event is_last (trailers_received stream decoded) s =
      elim (find_response stream s.active_responses) [
        | none ↦ if has_none decoded then ok (go_on, s) else raise attribute_error
        | some r ↦ do
          trailers ← decode_result decoded
          ok (
            go_on,
            record s {
              active_responses = put_response stream (add_trailers trailers r) s.active_responses;
            },
          )
      ]
  handle_event is_last (stream_ended stream) s = elim (find_response stream s.active_responses) [
    | none ↦ ok (leave, s)
    | some r ↦ end_response w stream r s
  ]
  handle_event is_last (stream_reset code) s =
      ok (go_on, record s { resets = s.resets + 1; error_codes = s.error_codes ++ code ∷ [] })
  handle_event is_last (connection_terminated code last_stream) s =
      ok
        (go_on, record s { error_codes = s.error_codes ++ code ∷ []; last_stream_id = last_stream })
  handle_event is_last settings_acknowledged s =
      then_read is_last (record s { ack_settings = true; ack_cnt = s.ack_cnt + 1 })
  handle_event is_last window_updated s = then_read is_last s
  handle_event is_last ping_ack_received s =
      then_read is_last (record s { ping_received = s.ping_received + 1 })
  handle_event is_last other_event s = ok (read_again, s)

  abbrev pub follow :
      (List Text × H2Client C → Result (List Text × H2Client C))
      → (List Text × H2Client C → Result (List Text × H2Client C))
      → Next
      → List Text × H2Client C
      → Result (List Text × H2Client C)
  follow again rest go_on t = rest t
  follow again rest leave t = ok t
  follow again rest read_again t = again t >>= rest

  -- The loop over the events. `again` is `_handle_read`, over what the socket has still to give.
  unfoldable pub handle_events :
      (List Text × H2Client C → Result (List Text × H2Client C))
      → Event
      → List Event
      → List Text × H2Client C
      → Result (List Text × H2Client C)
  handle_events again last_event [] (input, s) = ok (input, s)
  handle_events again last_event (e ∷ l) (input, s) = do
    done ← handle_event (h2.same_event e last_event) e s
    follow again (handle_events again last_event l) done.0 (input, done.1)

  -- All events of a reading, of which the last one is known.
  abbrev pub handle_all :
      (List Text × H2Client C → Result (List Text × H2Client C))
      → List Event
      → List Text × H2Client C
      → Result (List Text × H2Client C)
  handle_all again [] t = ok t
  handle_all again (e ∷ l) t = handle_events again (last_of e l) (e ∷ l) t

  -- `_handle_read`. The socket gives the texts of `input` one after another, then nothing; each
  -- reading again takes one, so n texts need n + 1 rounds.
  unfoldable pub handle_h2_read : ℕ → List Text × H2Client C → Result (List Text × H2Client C)
  handle_h2_read zero (input, s) = raise no_fuel
  handle_h2_read (suc f) ([], s) =
      ok ([], record s { client = record (s.client) { response_buffer = [] } })
  handle_h2_read (suc f) ([] ∷ input, s) =
      ok (input, record s { client = record (s.client) { response_buffer = [] } })
  handle_h2_read (suc f) ((c ∷ d) ∷ input, s) = do
    received ← h2.receive_data (c ∷ d) s.connection
    handle_all (handle_h2_read f) received.0
        (input, record (take_input (c ∷ d) s) { connection = received.1 })
