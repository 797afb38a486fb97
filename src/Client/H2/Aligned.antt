-- ===== src/Client/H2/Aligned.antt =====
-- The two lists of buffers of the HTTP/2 client in framework/deproxy/deproxy_client.py, and its
-- counters of requests.
use tempesta_test.Base.{
  ℕ, ◌+◌, ◌≤◌, ◌≡◌, refl, ◌∙◌, inl, inr, Bool, false, ◌&&◌, List, [], ◌∷◌, Option, some, none,
  if◌then◌else◌, length, arith, Returns, >>=-Returns, >>=-Returns_of, Returns-mono, Option-cases,
  Bool-cases, length-append,
}
use tempesta_test.Text.{Text}
use tempesta_test.Headers.{Header}
use tempesta_test.AutoParser.{
  Surroundings, prepare_expected_request, create_request_from_list_or_tuple,
}
use tempesta_test.Client.H2.{
  H2Library, H2Client, Data, Priority, BodyBuffer, bytes, body_text, headers_and_body, headers_only,
  no_body, append_buffers, encode, expect_h2_request, headers_frame, add_data,
  add_to_request_buffers, make_h2_request, send_bytes, checked_parts, is_true,
}

-- Each request has its two buffers, and the current one is a request or the next one to come.
abbrev pub IsAligned : {C : Type 0} → H2Client C → Type 0
IsAligned s =
    (length s.body_buffers ≡ length s.client.request_buffers)
    × (s.client.nrreq ≡ length s.client.request_buffers)
    × (s.client.cur_req_num ≤ s.client.nrreq)

-- What was received stays.
abbrev pub SameResponses : {C : Type 0} → H2Client C → H2Client C → Type 0
SameResponses s d =
    (d.client.responses ≡ s.client.responses)
    × (d.response_sequence ≡ s.response_sequence)
    × (d.client.nrresp ≡ s.client.nrresp)

-- What an operation that appends n pairs of buffers does to the counters.
abbrev Grew : {C : Type 0} → ℕ → H2Client C → H2Client C → Type 0
Grew n s d =
    (length d.body_buffers ≡ length s.body_buffers + n)
    × (length d.client.request_buffers ≡ length s.client.request_buffers + n)
    × (d.client.nrreq ≡ s.client.nrreq)
    × (d.client.cur_req_num ≡ s.client.cur_req_num)
    × (d.client.valid_req_num ≡ s.client.valid_req_num)
    × SameResponses s d

Grew-trans :
    {C : Type 0} (m n : ℕ) (s d e : H2Client C) → Grew m s d → Grew n d e → Grew (m + n) s e
Grew-trans m n s d e g h = (
  omega (arith, g.0, h.0),
  omega (arith, g.1, h.1),
  h.2 ∙ g.2,
  h.3 ∙ g.3,
  h.4 ∙ g.4,
  (h.5.0 ∙ g.5.0, h.5.1 ∙ g.5.1, h.5.2 ∙ g.5.2),
)

append_buffers-Grew :
    {C : Type 0} (request : Text) (b : BodyBuffer) (s d : H2Client C)
    → Grew 0 s d
    → Grew 1 s (append_buffers request b d)
unfolding append_buffers
append_buffers-Grew request b s d g = (
  omega (arith, length-append d.body_buffers (b ∷ []), g.0),
  omega (arith, length-append d.client.request_buffers (request ∷ []), g.1),
  g.2,
  g.3,
  g.4,
  g.5,
)

same_client : {C : Type 0} (s : H2Client C) → Grew 0 s s
same_client s = (omega arith, omega arith, refl, refl, refl, (refl, refl, refl))

expect_h2_request-Grew :
    {C : Type 0} (w : Surroundings) (q : Data) (end_stream : Option Bool) (s : H2Client C)
    → Returns (Grew 0 s) (expect_h2_request w q end_stream s)
unfolding expect_h2_request
expect_h2_request-Grew w q end_stream s = elim (Option-cases (checked_parts q)) [
  | inl unchecked ↦ rw (unchecked, expect_h2_request) (same_client s)
  | inr ((l, body), checked) ↦
      elim (Bool-cases (s.client.auto_parser.parsing && is_true end_stream)) [
        | inl tested ↦
            rw (checked, tested, expect_h2_request)
              (>>=-Returns (Grew 0 s) (create_request_from_list_or_tuple l body) _ (λ text.
                >>=-Returns (Grew 0 s)
                  (prepare_expected_request w s.client.sender text s.client.auto_parser) _
                  (λ p. (omega arith, omega arith, refl, refl, refl, (refl, refl, refl)))))
        | inr untested ↦ rw (checked, untested, expect_h2_request) (same_client s)
      ]
]

module _ {C : Type 0} (h2 : H2Library C) where
  headers_frame-Grew :
      (l : List Header) (end_stream : Option Bool) (priority : Priority) (s : H2Client C)
      → Returns (λ r. Grew 0 s r.1) (headers_frame h2 l end_stream priority s)
  unfolding headers_frame
  headers_frame-Grew l end_stream priority s =
      >>=-Returns (λ r. Grew 0 s r.1)
        (h2.send_headers s.stream_id l end_stream priority s.connection) _
        (λ sent. (omega arith, omega arith, refl, refl, refl, (refl, refl, refl)))

  add_data-Grew :
      (q : Data) (end_stream : Option Bool) (priority : Priority) (s : H2Client C)
      → Returns (Grew 1 s) (add_data h2 q end_stream priority s)
  unfolding add_data
  add_data-Grew (bytes d) end_stream priority s = append_buffers-Grew d no_body s s (same_client s)
  add_data-Grew (body_text t) end_stream priority s =
      >>=-Returns (Grew 1 s) (encode t) _ (λ encoded. append_buffers-Grew [] _ s s (same_client s))
  add_data-Grew (headers_and_body l t) end_stream priority s =
      >>=-Returns_of (λ r. Grew 0 s r.1) (Grew 1 s) (headers_frame h2 l (some false) priority s) _
        (headers_frame-Grew l (some false) priority s)
        (λ frame same.
          >>=-Returns (Grew 1 s) (encode t) _
            (λ encoded. append_buffers-Grew frame.0 _ s frame.1 same))
  add_data-Grew (headers_only l) end_stream priority s =
      >>=-Returns_of (λ r. Grew 0 s r.1) (Grew 1 s) (headers_frame h2 l end_stream priority s) _
        (headers_frame-Grew l end_stream priority s)
        (λ frame same. append_buffers-Grew frame.0 no_body s frame.1 same)

  add_to_request_buffers-Grew :
      (w : Surroundings) (q : Data) (end_stream : Option Bool) (priority : Priority)
      (s : H2Client C)
      → Returns (Grew 1 s) (add_to_request_buffers h2 w q end_stream priority s)
  unfolding add_to_request_buffers
  add_to_request_buffers-Grew w q end_stream priority s =
      >>=-Returns_of (Grew 1 s) (Grew 1 s) (add_data h2 q end_stream priority s) _
        (add_data-Grew q end_stream priority s)
        (λ added grew.
          Returns-mono (Grew 0 added) (Grew 1 s) (expect_h2_request w q end_stream added)
            (λ d same. Grew-trans 1 0 s added d grew same)
            (expect_h2_request-Grew w q end_stream added))

  -- A pair of buffers was appended, and one request is counted.
  counted :
      (s d : H2Client C)
      → Grew 1 s d
      → IsAligned s
      → (length d.body_buffers ≡ length d.client.request_buffers)
        × (d.client.nrreq + 1 ≡ length d.client.request_buffers)
        × (d.client.cur_req_num ≤ d.client.nrreq + 1)
  counted s d g h =
      (omega (arith, g.0, g.1, h.0), omega (arith, g.1, g.2, h.1), omega (arith, g.2, g.3, h.2))

  -- If each request of the HTTP/2 client has its two buffers, the counter of requests agrees with
  -- them and the current request is none beyond them, then this holds again if `make_request`
  -- returns, for each kind of data; one request more is counted, and one response more is
  -- expected exactly if the stream is ended.
  pub make_h2_request-IsAligned :
      (w : Surroundings) (q : Data) (end_stream : Bool) (priority : Priority) (huffman : Bool)
      (s : H2Client C)
      → IsAligned s
      → Returns
          (λ d.
            IsAligned d
            × (d.client.nrreq ≡ s.client.nrreq + 1)
            × (d.client.valid_req_num ≡ s.client.valid_req_num + (if end_stream then 1 else 0)))
          (make_h2_request h2 w q end_stream priority huffman s)
  unfolding make_h2_request
  make_h2_request-IsAligned w q end_stream priority huffman s h =
      let tuned = h2.set_huffman huffman s.connection in
      let settled = record s {
        connection = if s.client.parsing then tuned else h2.skip_validation tuned;
      } in
      >>=-Returns_of (Grew 1 s) _ (add_to_request_buffers h2 w q (some end_stream) priority settled)
        _ (add_to_request_buffers-Grew w q (some end_stream) priority settled)
        (λ added g. elim (Bool-cases end_stream) [
          | inl ends ↦ rw (ends) (counted s added g h, omega (arith, g.2), omega (arith, g.4))
          | inr open_end ↦
              rw (open_end) (counted s added g h, omega (arith, g.2), omega (arith, g.4))
        ])

  pub send_bytes-IsAligned :
      (w : Surroundings) (d : Text) (expect_response : Bool) (s : H2Client C)
      → IsAligned s
      → Returns (λ e. IsAligned e × SameResponses s e) (send_bytes h2 w d expect_response s)
  unfolding send_bytes
  send_bytes-IsAligned w d expect_response s h =
      >>=-Returns_of (Grew 1 s) (λ e. IsAligned e × SameResponses s e)
        (add_to_request_buffers h2 w (bytes d) none _ s) _
        (add_to_request_buffers-Grew w (bytes d) none _ s) (λ added g. (counted s added g h, g.5))
