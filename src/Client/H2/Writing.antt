-- ===== src/Client/H2/Writing.antt =====
-- How the HTTP/2 client of framework/deproxy/deproxy_client.py writes: `_send_data` and
-- `__prepare_data_frames`.
use tempesta_test.Base.{
  ℕ, ◌+◌, ◌-◌, ◌==◌, Bool, false, [], Option, none, some, if◌then◌else◌, ltb, length, take, drop,
  is_empty, get_elem?, set, Result, ok, raise, ◌>>=◌, index_error,
}
use tempesta_test.Base.Int.{ℤ, pos, negsuc, ltb_ℤ}
use tempesta_test.Text.{Text}
use tempesta_test.Client.{send_data}
use tempesta_test.Client.H2.Library.{H2Library, H2Client, BodyBuffer}

-- `body[:size]`; a negative size counts from the end.
abbrev pub slice : ℤ → Text → Text
slice (pos n) s = take n s
slice (negsuc n) s = take (length s - (n + 1)) s

abbrev pub rest_of : ℤ → Text → Text
rest_of (pos n) s = drop n s
rest_of (negsuc n) s = drop (length s - (n + 1)) s

-- `min(max_outbound_frame_size, local_flow_control_window(stream_id))`
abbrev pub frame_size : ℕ → ℤ → ℤ
frame_size limit window = if ltb_ℤ window (pos limit) then window else pos limit

-- The data of the next frame, its flag and its size: a part of the body, or all of it.
unfoldable pub frame_part : ℤ → Text → Option Bool → Text × Option Bool × ℤ
frame_part size body end_stream =
    if ltb_ℤ size (pos (length body))
    then (slice size body, some false, size)
    else (body, end_stream, pos (length body))

abbrev pub is_zero : ℤ → Bool
is_zero (pos n) = n == 0
is_zero (negsuc n) = false

-- The body, if the request buffer is `b""` and the body is not `None`.
abbrev pub next_body : Option Text → Option Text → Option Text
next_body (some []) body = body
next_body buffer body = none

-- `len(body) == size`
abbrev pub same_size : Text → ℤ → Bool
same_size body (pos n) = length body == n
same_size body (negsuc n) = false

-- The counter goes back to a request whose body is not sent yet.
unfoldable pub step_back : {C : Type 0} → ℕ → H2Client C → H2Client C
step_back cur s =
    let n = s.client.cur_req_num in
    record s { client = record (s.client) { cur_req_num = if ltb cur n then n - 1 else n } }

-- The frame goes to the request's buffer, and the rest stays in the other.
unfoldable pub put_frame :
    {C : Type 0} → ℕ → BodyBuffer → Bool → Text → Text → H2Client C → H2Client C
put_frame cur buffer is_all frame rest s = record s {
  client = record (s.client) { request_buffers = set s.client.request_buffers cur frame };
  body_buffers =
      set s.body_buffers cur (record buffer { body = if is_all then none else some rest });
}

module _ {C : Type 0} (h2 : H2Library C) where
  -- `__prepare_data_frames`: the bytes of one DATA frame and its size.
  unfoldable pub prepare_data_frames : Text → Option Bool → Option ℕ → C → Result (Text × ℤ × C)
  prepare_data_frames body end_stream stream c = do
    window ← h2.local_flow_control_window stream c
    let size = frame_size (h2.max_outbound_frame_size c) window
    (if is_zero size then ok ([], size, c) else (do
      let part = frame_part size body end_stream
      sent ← h2.send_frame stream part.0 part.1 c
      (let out = h2.data_to_send sent in ok (out.0, part.2, out.1))))

  -- What `_send_data` does with the body of the request `cur` that it started with: when the frames
  -- so far are sent, the next one is prepared.
  unfoldable pub refill : ℕ → H2Client C → Result (H2Client C)
  refill cur s = elim (get_elem? s.body_buffers cur) [
    | none ↦ raise index_error
    | some buffer ↦ elim (next_body (get_elem? s.client.request_buffers cur) buffer.body) [
      | some body ↦ do
        frame ← prepare_data_frames body buffer.end_stream buffer.buffer_stream_id s.connection
        (let taken = step_back cur (record s { connection = frame.2 }) in
            ok (
              if is_empty frame.0
              then taken
              else put_frame cur buffer (same_size body frame.1) frame.0 (rest_of frame.1 body)
                  taken))
      | none ↦ ok s
    ]
  ]

  -- `_send_data`, with the socket of `send_data`.
  unfoldable pub send_h2_data : (Text → Option ℕ) → H2Client C → Result (H2Client C)
  send_h2_data send s = elim (get_elem? s.client.request_buffers s.client.cur_req_num) [
    | none ↦ raise index_error
    | some buffer ↦ do
      written ← (if is_empty buffer then ok s.client else send_data send s.client)
      refill s.client.cur_req_num (record s { client = written })
  ]
