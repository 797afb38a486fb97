-- ===== src/Client/H2/Stuck.antt =====
-- The requests that the HTTP/2 client of framework/deproxy/deproxy_client.py can never send.
use tempesta_test.Base.{
  ℕ, ◌+◌, ◌<◌, ◌≡◌, refl, sym, ◌∙◌, List, [], ◌∷◌, ◌++◌, Option, some, length, get_elem?, ok, arith,
}
use tempesta_test.Text.{Text}
use tempesta_test.AutoParser.{Surroundings}
use tempesta_test.Client.H2.{
  H2Library, H2Client, no_body, append_buffers, expect_h2_request, add_data, add_to_request_buffers,
  send_bytes, send_pending, refill, send_h2_data,
}
use tempesta_test.Client.H2.Aligned.{IsAligned}

module _ {C : Type 0} (h2 : H2Library C) where
  -- The requests that wait: the current buffer is empty and there is no body.
  abbrev pub IsStuck : H2Client C → Type 0
  IsStuck s =
      (get_elem? s.client.request_buffers s.client.cur_req_num ≡ some [])
      × (get_elem? s.body_buffers s.client.cur_req_num ≡ some no_body)

  refill-IsStuck : (s : H2Client C) → IsStuck s → refill h2 s.client.cur_req_num s ≡ ok s
  unfolding refill
  refill-IsStuck s h = rw (h.1, h.0, refill)

  send_h2_data-IsStuck :
      (send : Text → Option ℕ) (s : H2Client C) → IsStuck s → send_h2_data h2 send s ≡ ok s
  unfolding send_h2_data
  send_h2_data-IsStuck send s h = rw (h.0, send_h2_data) (refill-IsStuck s h)

  get_elem?-append_length :
      {A : Type 0} (l : List A) (a : A) (i : ℕ) → i ≡ length l → get_elem? (l ++ a ∷ []) i ≡ some a
  get_elem?-append_length [] a i h = rw (h)
  get_elem?-append_length (x ∷ l) a i h = rw (h) (get_elem?-append_length l a (length l) refl)

  -- The client after an operation of the connection left nothing to be sent.
  blocked : C → H2Client C → H2Client C
  blocked c s = record (append_buffers [] no_body (record s { connection = c })) {
    client = record ((append_buffers [] no_body s).client) {
      nrreq = s.client.nrreq + 1;
      valid_req_num = s.client.valid_req_num + 0;
    };
  }

  send_pending-blocked :
      (w : Surroundings) (s : H2Client C) (c : C)
      → h2.data_to_send s.connection ≡ ([], c)
      → send_pending h2 w s ≡ ok (blocked c s)
  unfolding send_pending send_bytes add_to_request_buffers add_data expect_h2_request append_buffers
      blocked
  send_pending-blocked w s c nothing = rw (nothing)

  -- If the two lists of buffers and the counter of the HTTP/2 client agree, all its requests are
  -- sent and the h2 package has nothing to be sent, then sending what it has returns a client
  -- with a request that is not sent, and no call of `_send_data` changes this client, whatever
  -- the socket takes.
  pub send_pending-IsStuck :
      (w : Surroundings) (s : H2Client C) (c : C)
      → IsAligned s
      → s.client.cur_req_num ≡ s.client.nrreq
      → h2.data_to_send s.connection ≡ ([], c)
      → (d : H2Client C) × (send_pending h2 w s ≡ ok d)
        × (d.client.cur_req_num < d.client.nrreq)
        × ((send : Text → Option ℕ) → send_h2_data h2 send d ≡ ok d)
  unfolding append_buffers blocked
  send_pending-IsStuck w s c h all_sent nothing = (
    blocked c s,
    send_pending-blocked w s c nothing,
    omega (arith, all_sent),
    λ send. send_h2_data-IsStuck send (blocked c s) (
      get_elem?-append_length s.client.request_buffers [] s.client.cur_req_num (all_sent ∙ h.1),
      get_elem?-append_length s.body_buffers no_body s.client.cur_req_num
          (all_sent ∙ h.1 ∙ sym h.0),
    ),
  )
