-- ===== src/AutoParser/Termination.antt =====
-- The checks of `DeproxyAutoParser` (framework/deproxy/deproxy_auto_parser.py) end: with dates that
-- are parsed or refused, none of them runs out of fuel.
use tempesta_test.Base.{
  ◌≢◌, Bool, true, false, Option, none, some, Result, ok, raise, ◌>>◌, check, Error, no_fuel,
  assertion_error, is_parse_error, >>=-IsFueled, check-IsFueled, if-IsFueled, arith,
}
use tempesta_test.Text.{Text, codes, same}
use tempesta_test.Headers.{int-IsFueled, equal, equal-IsFueled}
use tempesta_test.Message.{HttpMessage, Request, Response, new_response}
use tempesta_test.Message.Compare.{equal_message, equal_request, equal_response, same_option}
use tempesta_test.Message.Termination.{new_response-IsFueled}
use tempesta_test.AutoParser.State.{
  AutoParser, Surroundings, record_assertion, check_expected_request, compare_response, status_code,
  check_expected_response, or_unparsed, prepare_expected_response,
  prepare_expected_response_for_request,
}

record_assertion-IsFueled :
    (p : AutoParser) (m : Result (Unit {0}))
    → m ≢ raise no_fuel
    → record_assertion p m ≢ raise no_fuel
unfolding record_assertion
record_assertion-IsFueled p (ok u) h = ground arith
record_assertion-IsFueled p (raise Error.assertion_error) h = ground arith
record_assertion-IsFueled p (raise e) h = λ q. h (ground arith)

or_unparsed-IsFueled {ℓ} :
    {A : Type ℓ} (m again : Result A)
    → m ≢ raise no_fuel
    → again ≢ raise no_fuel
    → or_unparsed m again ≢ raise no_fuel
or_unparsed-IsFueled (ok a) again h k = ground arith
or_unparsed-IsFueled (raise Error.value_error) again h k = k
or_unparsed-IsFueled (raise e) again h k =
    if-IsFueled (is_parse_error e) again (raise e) k (λ q. h (ground arith))

module _ (w : Surroundings) (known : (s : Text) → w.parse_date s ≢ raise no_fuel) where
  equal_message-IsFueled :
      (a b : HttpMessage) → equal_message w.parse_date false a b ≢ raise no_fuel
  unfolding equal_message
  equal_message-IsFueled a b =
      >>=-IsFueled (check (same a.body b.body) assertion_error) _
        (check-IsFueled _ assertion_error (ground arith))
        (λ u e.
          >>=-IsFueled (equal w.parse_date false a.headers b.headers) _
            (equal-IsFueled w.parse_date known false a.headers b.headers)
            (λ u e.
              >>=-IsFueled (equal w.parse_date false a.trailer b.trailer) _
                (equal-IsFueled w.parse_date known false a.trailer b.trailer)
                (λ u e. ground arith)))

  -- Three assertions, and then the comparison of the rest.
  checked :
      (a b c : Bool) (m : Result (Unit {0}))
      → m ≢ raise no_fuel
      → (check a assertion_error >> (check b assertion_error >> (check c assertion_error >> m)))
        ≢ raise no_fuel
  checked true true true m h = h
  checked true true false m h = ground arith
  checked true false c m h = ground arith
  checked false b c m h = ground arith

  equal_request-IsFueled : (a b : Request) → equal_request w.parse_date false a b ≢ raise no_fuel
  unfolding equal_request
  equal_request-IsFueled a b =
      checked (same_option a.method b.method) (same a.version b.version) (same_option a.uri b.uri)
        (equal_message w.parse_date false a.message b.message)
        (equal_message-IsFueled a.message b.message)

  equal_response-IsFueled : (a b : Response) → equal_response w.parse_date false a b ≢ raise no_fuel
  unfolding equal_response
  equal_response-IsFueled a b =
      checked (same_option a.status b.status) (same a.version b.version)
        (same_option a.reason b.reason) (equal_message w.parse_date false a.message b.message)
        (equal_message-IsFueled a.message b.message)

  pub check_expected_request-IsFueled :
      (r : Request) (p : AutoParser) → check_expected_request w r p ≢ raise no_fuel
  unfolding check_expected_request
  check_expected_request-IsFueled r p =
      elim p.expected_request
        as (λ o.
          (elim o [
            | none ↦ ok p
            | some expected ↦ record_assertion p (equal_request w.parse_date false r expected)
          ])
          ≢ raise no_fuel) [
            | none ↦ ground arith
            | some expected ↦
                record_assertion-IsFueled p (equal_request w.parse_date false r expected)
                  (equal_request-IsFueled r expected)
          ]

  compare_response-IsFueled :
      (http2 : Bool) (received : Response) (expected : Option Response) (client : Option Request)
      (p : AutoParser)
      → compare_response w http2 received expected client p ≢ raise no_fuel
  unfolding compare_response
  compare_response-IsFueled http2 received none client p = ground arith
  compare_response-IsFueled http2 received (some e) none p = ground arith
  compare_response-IsFueled http2 received (some e) (some c) p =
      let adapted = prepare_expected_response_for_request w http2 received c e in
      record_assertion-IsFueled p (equal_response w.parse_date false received adapted)
        (equal_response-IsFueled received adapted)

  pub check_expected_response-IsFueled :
      (http2 : Bool) (received : Response) (p : AutoParser)
      → check_expected_response w http2 received p ≢ raise no_fuel
  unfolding check_expected_response
  check_expected_response-IsFueled http2 received p =
      >>=-IsFueled (status_code received.status) _ (status_code-IsFueled received.status)
        (λ status e.
          if-IsFueled _ _ (ok p)
            (compare_response-IsFueled http2 received p.expected_response p.client_request p)
            (ground arith))
    where
      status_code-IsFueled : (o : Option Text) → status_code o ≢ raise no_fuel
      status_code-IsFueled none = ground arith
      status_code-IsFueled (some s) = int-IsFueled s

  pub prepare_expected_response-IsFueled :
      (text : Text) (p : AutoParser) → prepare_expected_response w text p ≢ raise no_fuel
  unfolding prepare_expected_response
  prepare_expected_response-IsFueled text p =
      >>=-IsFueled
        (or_unparsed (new_response w.fw_version (some (codes "GET")) true false text)
          (new_response w.fw_version (some (codes "GET")) false false text))
        _
        (or_unparsed-IsFueled (new_response w.fw_version (some (codes "GET")) true false text)
          (new_response w.fw_version (some (codes "GET")) false false text)
          (new_response-IsFueled w.fw_version (some (codes "GET")) true false text)
          (new_response-IsFueled w.fw_version (some (codes "GET")) false false text))
        (λ r e. ground arith)
