-- ===== src/AutoParser/Checks.antt =====
-- When the failed comparisons of `DeproxyAutoParser` (framework/deproxy/deproxy_auto_parser.py)
-- reach the test.
use tempesta_test.Base.{◌≡◌, refl, false, [], some, Result, ok, raise, ◌>>=◌, Error}
use tempesta_test.Message.{Request}
use tempesta_test.Message.Compare.{equal_request}
use tempesta_test.AutoParser.State.{
  AutoParser, Surroundings, check_expected_request, check_exceptions, record_assertion,
}

record_assertion-check_exceptions :
    (p : AutoParser) (outcome : Result (Unit {0}))
    → p.exceptions ≡ []
    → (record_assertion p outcome >>= check_exceptions) ≡ outcome
unfolding record_assertion check_exceptions
record_assertion-check_exceptions p (ok u) h = rw h refl
record_assertion-check_exceptions p (raise Error.assertion_error) h = rw h refl
record_assertion-check_exceptions p (raise e) h = refl

-- With no exception recorded before, checking a received request and then asking for the recorded
-- exceptions has the outcome of comparing the request with the expected one: a failed assertion,
-- which the check records, and any other exception reach the test.
check_expected_request-check_exceptions :
    (w : Surroundings) (r expected : Request) (p : AutoParser)
    → (check_expected_request w r (record p { expected_request = some expected; exceptions = [] })
        >>= check_exceptions)
      ≡ equal_request w.parse_date false r expected
unfolding check_expected_request
check_expected_request-check_exceptions w r expected p =
    record_assertion-check_exceptions
      (record p { expected_request = some expected; exceptions = [] })
      (equal_request w.parse_date false r expected) refl
