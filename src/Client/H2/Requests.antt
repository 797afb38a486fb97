-- ===== src/Client/H2/Requests.antt =====
-- How the HTTP/2 client of framework/deproxy/deproxy_client.py takes what it has to send.
use tempesta_test.Base.{
  ℕ, ◌+◌, Bool, false, ◌&&◌, List, [], ◌∷◌, ◌++◌, Option, none, some, if◌then◌else◌, Result, ok,
  ◌>>=◌,
}
use tempesta_test.Text.{Text}
use tempesta_test.Headers.{Header}
use tempesta_test.AutoParser.{
  Surroundings, prepare_expected_request, create_request_from_list_or_tuple,
}
use tempesta_test.Client.H2.Library.{
  H2Library, H2Client, BodyBuffer, Data, Priority, bytes, body_text, headers_and_body, headers_only,
  encode, is_true,
}

abbrev pub no_body : BodyBuffer
no_body = record { body = none; buffer_stream_id = none; end_stream = none }

-- The two buffers of a request are appended together.
unfoldable pub append_buffers : {C : Type 0} → Text → BodyBuffer → H2Client C → H2Client C
append_buffers request buffer s = record s {
  client = record (s.client) { request_buffers = s.client.request_buffers ++ request ∷ [] };
  body_buffers = s.body_buffers ++ buffer ∷ [];
}

-- The headers and the body that are checked later, if the data has both ends of the request.
abbrev pub checked_parts : Data → Option (List Header × Text)
checked_parts (bytes d) = none
checked_parts (body_text s) = none
checked_parts (headers_and_body l s) = some (l, s)
checked_parts (headers_only l) = some (l, [])

-- The end of `_add_to_request_buffers`.
unfoldable pub expect_h2_request :
    {C : Type 0} → Surroundings → Data → Option Bool → H2Client C → Result (H2Client C)
expect_h2_request w data_ end_stream s = elim (checked_parts data_) [
  | none ↦ ok s
  | some (l, body) ↦
      if s.client.auto_parser.parsing && is_true end_stream
      then (do
        text ← create_request_from_list_or_tuple l body
        p ← prepare_expected_request w s.client.sender text s.client.auto_parser
        ok (record s { client = record (s.client) { auto_parser = p } }))
      else ok s
]

module _ {C : Type 0} (h2 : H2Library C) where
  -- `h2_connection.send_headers`, and the bytes of its frame.
  unfoldable pub headers_frame :
      List Header → Option Bool → Priority → H2Client C → Result (Text × H2Client C)
  headers_frame l end_stream priority s = do
    sent ← h2.send_headers s.stream_id l end_stream priority s.connection
    (let out = h2.data_to_send sent in ok (out.0, record s { connection = out.1 }))

  -- The branches of `_add_to_request_buffers`.
  unfoldable pub add_data : Data → Option Bool → Priority → H2Client C → Result (H2Client C)
  add_data (bytes d) end_stream priority s = ok (append_buffers d no_body s)
  add_data (body_text t) end_stream priority s = do
    encoded ← encode t
    ok (
        append_buffers []
          (record {
            body = some encoded;
            buffer_stream_id = some s.stream_id;
            end_stream = end_stream;
          })
          s)
  add_data (headers_and_body l t) end_stream priority s = do
    frame ← headers_frame l (some false) priority s
    encoded ← encode t
    ok (
        append_buffers frame.0
          (record {
            body = some encoded;
            buffer_stream_id = some s.stream_id;
            end_stream = end_stream;
          })
          frame.1)
  add_data (headers_only l) end_stream priority s = do
    frame ← headers_frame l end_stream priority s
    ok (append_buffers frame.0 no_body frame.1)

  unfoldable pub add_to_request_buffers :
      Surroundings → Data → Option Bool → Priority → H2Client C → Result (H2Client C)
  add_to_request_buffers w data_ end_stream priority s = do
    added ← add_data data_ end_stream priority s
    expect_h2_request w data_ end_stream added

  -- `make_request`
  unfoldable pub make_h2_request :
      Surroundings → Data → Bool → Priority → Bool → H2Client C → Result (H2Client C)
  make_h2_request w data_ end_stream priority huffman s = do
    let tuned = h2.set_huffman huffman s.connection
    let settled = record s {
      connection = if s.client.parsing then tuned else h2.skip_validation tuned;
    }
    added ← add_to_request_buffers w data_ (some end_stream) priority settled
    let counted = record (added.client) { nrreq = added.client.nrreq + 1 }
    ok (
        if end_stream
        then record added {
          client = record counted { valid_req_num = counted.valid_req_num + 1 };
          stream_id = added.stream_id + 2;
        }
        else record added { client = counted })

  -- `send_bytes`, which has no end of a stream and no priority.
  unfoldable pub send_bytes : Surroundings → Text → Bool → H2Client C → Result (H2Client C)
  send_bytes w d expect_response s = do
    added ←
        add_to_request_buffers w (bytes d) none
          (record { weight = none; depends_on = none; exclusive = none }) s
    ok (record added {
      client = record (added.client) {
        nrreq = added.client.nrreq + 1;
        valid_req_num = added.client.valid_req_num + (if expect_response then 1 else 0);
      };
    })

  -- What an operation of the connection leaves to be sent.
  unfoldable pub send_pending : Surroundings → H2Client C → Result (H2Client C)
  send_pending w s =
      let out = h2.data_to_send s.connection in
      send_bytes w out.0 false (record s { connection = out.1 })

  -- `send_reset_stream`
  unfoldable pub send_reset_stream : Surroundings → ℕ → ℕ → H2Client C → Result (H2Client C)
  send_reset_stream w stream code s = do
    c ← h2.reset_stream stream code s.connection
    send_pending w (record s { connection = c })

  -- `send_goaway`
  unfoldable pub send_goaway : Surroundings → ℕ → Option ℕ → H2Client C → Result (H2Client C)
  send_goaway w code last_stream s = do
    c ← h2.close_connection code last_stream s.connection
    send_pending w (record s { connection = c })

  -- `send_ping`; the buffer that is cleared at last is the one that was just emptied.
  unfoldable pub send_ping : Surroundings → Text → H2Client C → Result (H2Client C)
  send_ping w opaque s = do
    c ← h2.ping opaque s.connection
    send_pending w (record s { connection = c })

  -- `increment_flow_control_window`
  unfoldable pub increment_flow_control_window :
      Surroundings → ℕ → ℕ → H2Client C → Result (H2Client C)
  increment_flow_control_window w stream n s = do
    c ←
        (if h2.is_closed s.connection then ok s.connection else (do
          all ← h2.increment_window n none s.connection
          (if h2.is_stream_open stream all
              then h2.increment_window n (some stream) all
              else ok all)))
    send_pending w (record s { connection = c })
