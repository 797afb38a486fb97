-- ===== src/Server/Termination.antt =====
-- The read loop of `ServerConnection` in framework/deproxy/deproxy_server.py ends on every buffer of
-- ASCII bytes, where each request that is served takes at least one byte; and it does not end on bytes
-- that decode to no text.
use tempesta_test.Base.{
  ℕ, zero, suc, ◌+◌, ◌<◌, ◌≡◌, ◌≢◌, refl, ap, ◌∙◌, Bool, true, false, ◌&&◌, [], ◌∷◌, ◌++◌,
  if◌then◌else◌, ltb, leb, length, drop, is_empty, Result, ok, raise, ◌>>=◌, no_fuel,
  is_parse_error, >>=-IsFueled, if-IsFueled, if-IsFueled_of, Result-cases, Bool-cases, inl, inr,
  arith, length-drop, All,
}
use tempesta_test.Text.{Text}
use tempesta_test.Message.{Request, new_request}
use tempesta_test.Message.Termination.{new_request-IsFueled}
use tempesta_test.Message.Lengths.{new_request-original_length}
use tempesta_test.AutoParser.{Surroundings, check_expected_request, prepare_expected_response}
use tempesta_test.AutoParser.Termination.{
  check_expected_request-IsFueled, prepare_expected_response-IsFueled,
}
use tempesta_test.Server.{
  Server, Connection, Turn, receive_request, answer_request, serve_request, serve_buffer, read_data,
  enqueue, flush, close, add_response_to_sending_buffer,
}

length_of_not_empty : (s : Text) → is_empty s ≡ false → 0 < length s
length_of_not_empty [] h = absurd (ground arith)
length_of_not_empty (c ∷ s) h = omega arith

pub enqueue-req_buffer :
    (s : Server) (response : Text) (c : Connection)
    → (enqueue s response c).req_buffer ≡ c.req_buffer
unfolding enqueue flush add_response_to_sending_buffer
enqueue-req_buffer s response c = ground arith

-- Bytes that are characters by themselves.
abbrev pub IsAscii : Text → Type 0
IsAscii s = All (λ b. b < 128) s

IsAscii-drop : (n : ℕ) (s : Text) → IsAscii s → IsAscii (drop n s)
IsAscii-drop zero s h = h
IsAscii-drop (suc n) [] h = h
IsAscii-drop (suc n) (c ∷ s) h = IsAscii-drop n s h.1

IsAscii-append : (s t : Text) → IsAscii s → IsAscii t → IsAscii (s ++ t)
IsAscii-append [] t h k = k
IsAscii-append (c ∷ s) t h k = (h.0, IsAscii-append s t h.1 k)

-- The loop goes on after a turn only with a shorter buffer, of ASCII bytes still.
abbrev GoesOn : ℕ → Turn → Type 0
GoesOn n t = t.2 ≡ true → (length t.1.req_buffer < n) × IsAscii t.1.req_buffer

if-GoesOn :
    (n : ℕ) (a b : Bool) (s : Server) (x y z : Connection)
    → (length z.req_buffer < n) × IsAscii z.req_buffer
    → GoesOn n (if a then (s, x, false) else if b then (s, y, false) else (s, z, true))
if-GoesOn n true b s x y z h = λ e. cc
if-GoesOn n false true s x y z h = λ e. cc
if-GoesOn n false false s x y z h = λ e. h

answer_request-GoesOn :
    (r : Request) (s : Server) (response : Text) (need_close : Bool) (c : Connection)
    → 0 < r.original_length
    → 0 < length c.req_buffer
    → IsAscii c.req_buffer
    → GoesOn (length c.req_buffer) (answer_request r s response need_close c)
unfolding answer_request
answer_request-GoesOn r s response need_close c h k ascii =
    if-GoesOn (length c.req_buffer) s.drop_conn_when_request_received need_close s (close c)
      (close (flush (enqueue s response c)))
      (record (enqueue s response c) {
        req_buffer = drop r.original_length (enqueue s response c).req_buffer;
      })
      (
        omega (
          arith,
          ap length (enqueue-req_buffer s response c),
          length-drop r.original_length (enqueue s response c).req_buffer,
        ),
        IsAscii-drop r.original_length (enqueue s response c).req_buffer
            (rw (enqueue-req_buffer s response c) ascii),
      )

module _ (w : Surroundings) (known : (s : Text) → w.parse_date s ≢ raise no_fuel) where
  receive_request-IsFueled : (r : Request) (s : Server) → receive_request w r s ≢ raise no_fuel
  unfolding receive_request
  receive_request-IsFueled r s =
      let s' = record s { requests = s.requests ++ r ∷ [] } in
      if-IsFueled (ltb 0 s.hang_on_req_num && leb s.hang_on_req_num (length (s.requests ++ r ∷ [])))
        (ok (s', [], true)) _ (ground arith)
        (if-IsFueled s.auto_parser.parsing _ (ok (s', s.response, false))
          (>>=-IsFueled (check_expected_request w r s.auto_parser) _
            (check_expected_request-IsFueled w known r s.auto_parser)
            (λ p e.
              >>=-IsFueled (prepare_expected_response w s.response p)
                (λ q. ok (record s' { auto_parser = q }, s.response, false))
                (prepare_expected_response-IsFueled w known s.response p) (λ q e. ground arith)))
          (ground arith))

  -- One turn on a buffer of n characters: it does not run out of fuel, and goes on with less.
  abbrev Serves : ℕ → Result Turn → Type 0
  Serves n (ok t) = GoesOn n t
  Serves n (raise e) = e ≢ no_fuel

  >>=-Serves {ℓ} :
      {A : Type ℓ} (n : ℕ) (m : Result A) (f : A → Result Turn)
      → m ≢ raise no_fuel
      → ((a : A) → Serves n (f a))
      → Serves n (m >>= f)
  >>=-Serves n (ok a) f h k = k a
  >>=-Serves n (raise e) f h k = λ q. h (ground arith)

  module _ (plain : (s : Text) → IsAscii s → w.decode s ≡ s) where
    serve_request-Serves :
        (s : Server) (c : Connection)
        → is_empty c.req_buffer ≡ false
        → IsAscii c.req_buffer
        → Serves (length c.req_buffer) (serve_request w s c)
    unfolding serve_request
    serve_request-Serves s c h ascii =
        rw (serve_request, plain c.req_buffer ascii)
          (elim (Result-cases (new_request true false c.req_buffer)) [
            | inl (r, parsed) ↦ rw (parsed) (
                >>=-Serves (length c.req_buffer) (receive_request w r s) _
                  (receive_request-IsFueled r s)
                  (λ answer.
                    answer_request-GoesOn r answer.0 answer.1 answer.2
                      (record c { nrreq = c.nrreq + 1 })
                      (new_request-original_length true false c.req_buffer r h parsed).0
                      (length_of_not_empty c.req_buffer h) ascii))
            | inr (e, failed) ↦ rw (failed) (elim (Bool-cases (is_parse_error e)) [
              | inl parse ↦ rw parse (λ q. cc)
              | inr other ↦
                  rw other (λ q. new_request-IsFueled true false c.req_buffer (failed ∙ ap raise q))
            ])
          ])

    serve_buffer-IsFueled :
        (f : ℕ) (s : Server) (c : Connection)
        → length c.req_buffer < f
        → IsAscii c.req_buffer
        → serve_buffer f w s c ≢ raise no_fuel
    unfolding serve_buffer
    serve_buffer-IsFueled zero s c h ascii = elim h [ ]
    serve_buffer-IsFueled (suc f) s c h ascii = elim (Bool-cases (is_empty c.req_buffer)) [
      | inl empty ↦ rw (empty, serve_buffer) (ground arith)
      | inr more ↦
          let serves = serve_request-Serves s c more ascii in
          if-IsFueled (is_empty c.req_buffer) (ok (s, c)) _ (ground arith) (
            >>=-IsFueled (serve_request w s c) _ (λ e. (rw e at serves) refl)
              (λ turn e.
                let goes_on : GoesOn (length c.req_buffer) turn = rw e at serves in
                if-IsFueled_of turn.2 (serve_buffer f w turn.0 turn.1) (ok (turn.0, turn.1))
                  (λ on.
                    let (shorter, still) = goes_on on in
                    serve_buffer-IsFueled f turn.0 turn.1 (omega arith) still)
                  (ground arith)))
    ]

    -- If parsing a date ends, decoding leaves ASCII bytes as they are, and both the buffer of a
    -- server connection and the data that it gets are ASCII, then the loop over the requests in
    -- the buffer ends within one round more than the buffer has bytes: reading data returns or
    -- raises one of the program's exceptions.
    pub read_data-IsFueled :
        (text : Text) (s : Server) (c : Connection)
        → IsAscii c.req_buffer
        → IsAscii text
        → read_data w text s c ≢ raise no_fuel
    unfolding read_data
    read_data-IsFueled text s c before ascii =
        let buffered = record c { req_buffer = c.req_buffer ++ text } in
        if-IsFueled (is_empty text) (ok (s, close c)) _ (ground arith) (
          serve_buffer-IsFueled (suc (length buffered.req_buffer)) s buffered (omega arith)
            (IsAscii-append c.req_buffer text before ascii))
