-- ===== src/Client/H2/Sent.antt =====
-- The buffers and the counters of the HTTP/2 client in framework/deproxy/deproxy_client.py, when it
-- writes.
use tempesta_test.Base.{
  ℕ, sym, ◌∙◌, inl, inr, Bool, Option, if◌then◌else◌, is_empty, get_elem?, drop, ok, arith, Returns,
  >>=-Returns, >>=-Returns_of, Option-cases, Bool-cases, length-set, get_elem?-lt,
}
use tempesta_test.Text.{Text}
use tempesta_test.Client.{send_data, cut_sent, segment}
use tempesta_test.Client.H2.{
  H2Library, H2Client, BodyBuffer, refill, send_h2_data, next_body, prepare_data_frames, step_back,
  put_frame, same_size, rest_of,
}
use tempesta_test.Client.H2.Aligned.{IsAligned}

module _ {C : Type 0} (h2 : H2Library C) where
  step_back-IsAligned : (cur : ℕ) (s : H2Client C) → IsAligned s → IsAligned (step_back cur s)
  unfolding step_back
  step_back-IsAligned cur s h = (h.0, h.1, ground (arith, h.2))

  put_frame-IsAligned :
      (cur : ℕ) (b : BodyBuffer) (is_all : Bool) (frame rest : Text) (s : H2Client C)
      → IsAligned s
      → IsAligned (put_frame cur b is_all frame rest s)
  unfolding put_frame
  put_frame-IsAligned cur b is_all frame rest s h =
      let first = length-set s.client.request_buffers cur frame in
      (length-set s.body_buffers cur _ ∙ h.0 ∙ sym first, h.1 ∙ sym first, h.2)

  refill-IsAligned : (cur : ℕ) (s : H2Client C) → IsAligned s → Returns IsAligned (refill h2 cur s)
  unfolding refill
  refill-IsAligned cur s h = elim (Option-cases (get_elem? s.body_buffers cur)) [
    | inl miss ↦ rw (miss, refill) tt
    | inr (buffer, found) ↦
        elim (Option-cases (next_body (get_elem? s.client.request_buffers cur) buffer.body)) [
          | inl no_next ↦ rw (found, no_next, refill) h
          | inr (body, next) ↦
              rw (found, next, refill)
                (>>=-Returns IsAligned
                  (prepare_data_frames h2 body buffer.end_stream buffer.buffer_stream_id
                    s.connection)
                  _
                  (λ frame.
                    let back = step_back-IsAligned cur (record s { connection = frame.2 }) h in
                    elim (Bool-cases (is_empty frame.0)) [
                      | inl no_frame ↦ rw (no_frame) back
                      | inr a_frame ↦ rw (a_frame) (
                          put_frame-IsAligned cur buffer (same_size body frame.1) frame.0
                            (rest_of frame.1 body) _ back)
                    ]))
        ]
  ]

  send_data-IsAligned :
      (send : Text → Option ℕ) (s : H2Client C)
      → IsAligned s
      → Returns (λ c. IsAligned (record s { client = c })) (send_data send s.client)
  unfolding send_data cut_sent
  send_data-IsAligned send s h =
      elim (Option-cases (get_elem? s.client.request_buffers s.client.cur_req_num)) [
        | inl miss ↦ rw (miss, send_data) tt
        | inr (reqs, found) ↦ elim (Option-cases (send (segment s.client.segment_size reqs))) [
          | inl failed ↦ rw (found, failed, send_data) h
          | inr (sent, took) ↦
              rw (found, took, send_data)
                (let before =
                    get_elem?-lt s.client.request_buffers s.client.cur_req_num reqs found in
                  let same =
                    length-set s.client.request_buffers s.client.cur_req_num (drop sent reqs) in
                  elim (Bool-cases (is_empty (drop sent reqs))) [
                    | inl all ↦
                        rw (all) (h.0 ∙ sym same, h.1 ∙ sym same, omega (arith, h.1, before))
                    | inr part ↦ rw (part) (h.0 ∙ sym same, h.1 ∙ sym same, h.2)
                  ])
        ]
      ]

  -- If each request of the HTTP/2 client has its two buffers, the counter of requests agrees with
  -- them and the current request is none beyond them, then this holds again if `_send_data`
  -- returns, although it may step back to a request whose body is not sent.
  pub send_h2_data-IsAligned :
      (send : Text → Option ℕ) (s : H2Client C)
      → IsAligned s
      → Returns IsAligned (send_h2_data h2 send s)
  unfolding send_h2_data
  send_h2_data-IsAligned send s h =
      elim (Option-cases (get_elem? s.client.request_buffers s.client.cur_req_num)) [
        | inl miss ↦ rw (miss, send_h2_data) tt
        | inr (buffer, found) ↦
            rw (found, send_h2_data)
              (>>=-Returns_of (λ c. IsAligned (record s { client = c })) IsAligned
                (if is_empty buffer then ok s.client else send_data send s.client) _
                (elim (Bool-cases (is_empty buffer)) [
                  | inl empty ↦ rw (empty) h
                  | inr full ↦ rw (full) (send_data-IsAligned send s h)
                ])
                (λ c aligned.
                  refill-IsAligned s.client.cur_req_num (record s { client = c }) aligned))
      ]
