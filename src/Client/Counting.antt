-- ===== src/Client/Counting.antt =====
-- The counters of the client in framework/deproxy/deproxy_client.py.
use tempesta_test.Base.{
  ℕ, suc, ◌+◌, ◌≡◌, refl, ap, ◌∙◌, Bool, true, false, List, [], ◌∷◌, length, ok, arith,
  length-append, concat, Returns, >>=-Returns, >>=-Returns_of, Returns-ok, Returns-mono,
  if◌then◌else◌,
}
use tempesta_test.AutoParser.{Surroundings, prepare_expected_request}
use tempesta_test.Client.{
  Client, ToSend, check_request, check_each, make_request, make_each, make_requests, to_text,
  to_texts, request_methods,
}

-- Each buffer is a request that the client must send.
abbrev pub IsCounted : Client → Type 0
IsCounted c = c.nrreq ≡ length c.request_buffers

-- The counters and the buffers of two clients agree.
abbrev Agree : Client → Client → Type 0
Agree c d =
    (d.request_buffers ≡ c.request_buffers)
    × (d.nrreq ≡ c.nrreq)
    × (d.valid_req_num ≡ c.valid_req_num)

check_request-Agree :
    (w : Surroundings) (q : ToSend) (c : Client) → Returns (Agree c) (check_request w q c)
unfolding check_request
check_request-Agree w q c = >>=-Returns (Agree c) (request_methods c.parsing q) _ (λ added.
    >>=-Returns (Agree c) (to_text q) _ (λ s.
      >>=-Returns (Agree c)
        (if c.auto_parser.parsing
          then prepare_expected_request w c.sender s c.auto_parser
          else ok c.auto_parser)
        _ (λ p. (refl, refl, refl))))

-- What a client has after some requests are given to it.
abbrev After : ℕ → Client → Client → Type 0
After n c d = (IsCounted c → IsCounted d) × (d.valid_req_num ≡ c.valid_req_num + n)

make_request-After :
    (w : Surroundings) (q : ToSend) (c : Client) → Returns (After 1 c) (make_request w q c)
unfolding make_request
make_request-After w q c =
    >>=-Returns_of (Agree c) (After 1 c) (check_request w q c) _ (check_request-Agree w q c)
      (λ d agree. >>=-Returns (After 1 c) (to_text q) _ (λ s. (
        λ counted.
            omega (
              arith,
              counted,
              agree.1,
              ap length agree.0,
              length-append d.request_buffers (s ∷ []),
            ),
        omega (arith, agree.2),
      )))

make_each-After :
    (w : Surroundings) (l : List ToSend) (c : Client)
    → Returns (After (length l) c) (make_each w l c)
unfolding make_each
make_each-After w [] c = (λ h. h, omega arith)
make_each-After w (q ∷ l) c =
    >>=-Returns_of (After 1 c) (After (suc (length l)) c) (make_request w q c) _
      (make_request-After w q c)
      (λ d one.
        Returns-mono (After (length l) d) (After (suc (length l)) c) (make_each w l d)
          (λ e rest. (λ counted. rest.0 (one.0 counted), omega (arith, rest.1, one.1)))
          (make_each-After w l d))

check_each-Agree :
    (w : Surroundings) (l : List ToSend) (c : Client) → Returns (Agree c) (check_each w l c)
unfolding check_each
check_each-Agree w [] c = (refl, refl, refl)
check_each-Agree w (q ∷ l) c =
    >>=-Returns_of (Agree c) (Agree c) (check_request w q c) _ (check_request-Agree w q c) (λ d one.
      Returns-mono (Agree d) (Agree c) (check_each w l d)
        (λ e rest. (rest.0 ∙ one.0, rest.1 ∙ one.1, rest.2 ∙ one.2)) (check_each-Agree w l d))

make_requests-After :
    (w : Surroundings) (pipelined : Bool) (l : List ToSend) (c : Client)
    → Returns (After (length l) c) (make_requests w pipelined l c)
unfolding make_requests
make_requests-After w false l c = make_each-After w l c
make_requests-After w true l c =
    >>=-Returns_of (Agree c) (After (length l) c) (check_each w l c) _ (check_each-Agree w l c)
      (λ d agree. >>=-Returns (After (length l) c) (to_texts l) _ (λ texts.
        let longer = length-append d.request_buffers (concat texts ∷ []) in
        (
          λ counted. omega (arith, counted, agree.1, ap length agree.0, longer),
          omega (arith, agree.2),
        )))

-- If the number of requests to send is the number of buffers, and `make_requests` returns,
-- pipelined or not, then the two numbers agree again, and the number of expected responses has
-- grown by the number of requests.
make_requests-IsCounted :
    (w : Surroundings) (pipelined : Bool) (l : List ToSend) (c d : Client)
    → IsCounted c
    → make_requests w pipelined l c ≡ ok d
    → IsCounted d × (d.valid_req_num ≡ c.valid_req_num + length l)
make_requests-IsCounted w pipelined l c d counted made =
    let after =
      Returns-ok (After (length l) c) (make_requests w pipelined l c)
        (make_requests-After w pipelined l c) made in
    (after.0 counted, after.1)
