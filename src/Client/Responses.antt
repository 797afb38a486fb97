-- ===== src/Client/Responses.antt =====
-- How the HTTP/1 client of framework/deproxy/deproxy_client.py reads responses: `_handle_read` and
-- `receive_response`.
use tempesta_test.Base.{
  ℕ, zero, suc, ◌+◌, ◌≤◌, ◌<◌, ◌≡◌, ◌≢◌, refl, ap, ◌∙◌, Bool, true, false, [], ◌∷◌, ◌++◌, none,
  some, if◌then◌else◌, length, drop, is_empty, get_elem?, Result, ok, raise, ◌>>=◌, Error, no_fuel,
  incomplete_message, index_error, >>=-IsFueled, if-IsFueled, Result-cases, Option-cases,
  Bool-cases, inl, inr, arith, length-drop, length-append, get_elem?-lt, Returns, >>=-Returns,
  >>=-Returns_of, Returns-ok,
}
use tempesta_test.Text.{Text}
use tempesta_test.Message.{Response, new_response}
use tempesta_test.Message.Termination.{new_response-IsFueled}
use tempesta_test.Message.Lengths.{new_response-original_length}
use tempesta_test.AutoParser.{Surroundings, check_expected_response}
use tempesta_test.AutoParser.Termination.{check_expected_response-IsFueled}
use tempesta_test.Client.{Client}

-- `receive_response`; `http2` is `_is_http2`.
unfoldable pub receive_response : Surroundings → Bool → Response → Client → Result Client
receive_response w http2 r c = do
  p ←
      (if c.auto_parser.parsing
        then check_expected_response w http2 r c.auto_parser
        else ok c.auto_parser)
  ok (record c { responses = c.responses ++ r ∷ []; auto_parser = p })

-- What follows a response: it is cut from the buffer, counted and received.
unfoldable pub take_response : Surroundings → Response → Client → Result Client
take_response w r c =
    receive_response w false r (record c {
      response_buffer = drop r.original_length c.response_buffer;
      nrresp = c.nrresp + 1;
    })

-- `except IncompleteMessage`: the rest comes later. Any other exception is passed on.
abbrev pub on_exception : Error → Client → Result Client
on_exception Error.incomplete_message c = ok c
on_exception e c = raise e

-- The loop of `_handle_read`. A response has at least one character, so n + 1 rounds are enough.
unfoldable pub read_responses : ℕ → Surroundings → Client → Result Client
read_responses zero w c = raise no_fuel
read_responses (suc f) w c =
    let next : Result Client = elim (get_elem? c.methods c.nrresp) [
      | none ↦ raise index_error
      | some method ↦ elim (new_response w.fw_version method true false c.response_buffer) [
        | raise e ↦ on_exception e c
        | ok r ↦ do taken ← take_response w r c; read_responses f w taken
      ]
    ] in
    if is_empty c.response_buffer then ok c else next

-- `_handle_read`: the text that the socket gave is put behind the buffer.
unfoldable pub handle_read : Surroundings → Text → Client → Result Client
handle_read w text c =
    let buffered = record c { response_buffer = c.response_buffer ++ text } in
    read_responses (suc (length buffered.response_buffer)) w buffered

-- Taking a response counts it, and shortens the buffer.
abbrev Took : Client → Client → Type 0
Took c d =
    (d.nrresp ≡ c.nrresp + 1)
    × (length d.responses ≡ length c.responses + 1)
    × (d.methods ≡ c.methods)

abbrev Shorter : Client → Client → Type 0
Shorter c d = length d.response_buffer < length c.response_buffer

take_response-Took :
    (w : Surroundings) (r : Response) (c : Client)
    → 0 < r.original_length
    → 0 < length c.response_buffer
    → Returns (λ d. Took c d × Shorter c d) (take_response w r c)
unfolding take_response receive_response
take_response-Took w r c h k =
    >>=-Returns (λ d. Took c d × Shorter c d)
      (if c.auto_parser.parsing
        then check_expected_response w false r c.auto_parser
        else ok c.auto_parser)
      _
      (λ p. (
        (refl, omega (arith, length-append c.responses (r ∷ [])), refl),
        omega (arith, length-drop r.original_length c.response_buffer),
      ))

length_of_not_empty : (s : Text) → is_empty s ≡ false → 0 < length s
length_of_not_empty [] h = absurd (ground arith)
length_of_not_empty (c ∷ s) h = omega arith

on_exception-IsFueled : (e : Error) (c : Client) → e ≢ no_fuel → on_exception e c ≢ raise no_fuel
on_exception-IsFueled Error.incomplete_message c h = ground arith
on_exception-IsFueled e c h = λ q. h (ground arith)

module _ (w : Surroundings) (known : (s : Text) → w.parse_date s ≢ raise no_fuel) where
  take_response-IsFueled : (r : Response) (c : Client) → take_response w r c ≢ raise no_fuel
  unfolding take_response receive_response
  take_response-IsFueled r c =
      >>=-IsFueled
        (if c.auto_parser.parsing
          then check_expected_response w false r c.auto_parser
          else ok c.auto_parser)
        _
        (if-IsFueled c.auto_parser.parsing (check_expected_response w false r c.auto_parser)
          (ok c.auto_parser) (check_expected_response-IsFueled w known false r c.auto_parser)
          (ground arith))
        (λ p e. ground arith)

  read_responses-IsFueled :
      (f : ℕ) (c : Client) → length c.response_buffer < f → read_responses f w c ≢ raise no_fuel
  unfolding read_responses
  read_responses-IsFueled zero c h = elim h [ ]
  read_responses-IsFueled (suc f) c h = elim (Bool-cases (is_empty c.response_buffer)) [
    | inl empty ↦ rw (empty, read_responses) (ground arith)
    | inr more ↦ elim (Option-cases (get_elem? c.methods c.nrresp)) [
      | inl miss ↦ rw (more, miss, read_responses) (ground arith)
      | inr (method, found) ↦
          elim (Result-cases (new_response w.fw_version method true false c.response_buffer)) [
            | inr (e, failed) ↦
                rw (more, found, failed, read_responses)
                  (on_exception-IsFueled e c (λ q.
                    new_response-IsFueled w.fw_version method true false c.response_buffer
                      (failed ∙ ap raise q)))
            | inl (r, parsed) ↦
                rw (more, found, parsed, read_responses)
                  (>>=-IsFueled (take_response w r c) (λ taken. read_responses f w taken)
                    (take_response-IsFueled r c)
                    (λ d e.
                      let shorter =
                        (Returns-ok (λ d. Took c d × Shorter c d) (take_response w r c)
                          (take_response-Took w r c
                            (new_response-original_length w.fw_version method true false
                              c.response_buffer r more parsed).0
                            (length_of_not_empty c.response_buffer more))
                          e).1 in
                      read_responses-IsFueled f d (omega arith)))
          ]
    ]
  ]

  -- If parsing a date ends, then the loop of the HTTP/1 client's `_handle_read` ends within one
  -- round more than the buffer has characters: it returns or raises one of the program's
  -- exceptions.
  pub handle_read-IsFueled : (text : Text) (c : Client) → handle_read w text c ≢ raise no_fuel
  unfolding handle_read
  handle_read-IsFueled text c =
      read_responses-IsFueled (suc (length (c.response_buffer ++ text)))
        (record c { response_buffer = c.response_buffer ++ text }) (omega arith)

-- Each counted response is there, and each was read for a method that was sent.
abbrev pub IsMatched : Client → Type 0
IsMatched c = (c.nrresp ≡ length c.responses) × (c.nrresp ≤ length c.methods)

on_exception-Returns :
    (P : Client → Type 0) (e : Error) (c : Client) → P c → Returns P (on_exception e c)
on_exception-Returns P incomplete_message c h = h
on_exception-Returns P e c h = tt

read_responses-IsMatched :
    (f : ℕ) (w : Surroundings) (c : Client) → IsMatched c → Returns IsMatched (read_responses f w c)
unfolding read_responses
read_responses-IsMatched zero w c h = tt
read_responses-IsMatched (suc f) w c h = elim (Bool-cases (is_empty c.response_buffer)) [
  | inl empty ↦ rw (empty, read_responses) h
  | inr more ↦ elim (Option-cases (get_elem? c.methods c.nrresp)) [
    | inl miss ↦ rw (more, miss, read_responses) tt
    | inr (method, found) ↦
        elim (Result-cases (new_response w.fw_version method true false c.response_buffer)) [
          | inr (e, failed) ↦
              rw (more, found, failed, read_responses) (on_exception-Returns IsMatched e c h)
          | inl (r, parsed) ↦
              rw (more, found, parsed, read_responses)
                (>>=-Returns_of (λ d. Took c d × Shorter c d) IsMatched (take_response w r c)
                  (λ taken. read_responses f w taken)
                  (take_response-Took w r c
                    (new_response-original_length w.fw_version method true false c.response_buffer r
                      more parsed).0
                    (length_of_not_empty c.response_buffer more))
                  (λ d took. read_responses-IsMatched f w d (
                    omega (arith, took.0.0, took.0.1, h.0),
                    omega (
                      arith,
                      took.0.0,
                      ap length took.0.2,
                      get_elem?-lt c.methods c.nrresp method found,
                    ),
                  )))
        ]
  ]
]

-- If the HTTP/1 client has counted as many responses as it has, and no more than the methods that
-- it has sent, then this holds again if `_handle_read` returns.
pub handle_read-IsMatched :
    (w : Surroundings) (text : Text) (c : Client)
    → IsMatched c
    → Returns IsMatched (handle_read w text c)
unfolding handle_read
handle_read-IsMatched w text c h =
    read_responses-IsMatched (suc (length (c.response_buffer ++ text))) w
      (record c { response_buffer = c.response_buffer ++ text }) h
