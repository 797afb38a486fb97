-- ===== src/Message/Compare.antt =====
-- The comparison of messages: `HttpMessage.__eq__`, `Request.__eq__` and `Response.__eq__`. Each
-- returns `True` or raises.
use tempesta_test.Base.{
  Bool, true, false, Option, none, some, Result, ok, ◌>>=◌, ◌>>◌, check, assertion_error,
}
use tempesta_test.Base.Int.{ℤ}
use tempesta_test.Text.{Text, same}
use tempesta_test.Headers.{equal}
use tempesta_test.Message.Parse.{HttpMessage, Request, Response}

-- `==` on a text or `None`.
abbrev pub same_option : Option Text → Option Text → Bool
same_option none none = true
same_option none (some t) = false
same_option (some s) none = false
same_option (some s) (some t) = same s t

module _ (parse_date : Text → Result ℤ) (disable_report : Bool) where
  unfoldable pub equal_message : HttpMessage → HttpMessage → Result (Unit {0})
  unfolding equal
  equal_message a b = do
    check (same a.body b.body) assertion_error
    _ ← equal parse_date disable_report a.headers b.headers
    _ ← equal parse_date disable_report a.trailer b.trailer
    ok tt

  unfoldable pub equal_request : Request → Request → Result (Unit {0})
  unfolding equal_message
  equal_request a b = do
    check (same_option a.method b.method) assertion_error
    check (same a.version b.version) assertion_error
    check (same_option a.uri b.uri) assertion_error
    equal_message a.message b.message

  unfoldable pub equal_response : Response → Response → Result (Unit {0})
  unfolding equal_message
  equal_response a b = do
    check (same_option a.status b.status) assertion_error
    check (same a.version b.version) assertion_error
    check (same_option a.reason b.reason) assertion_error
    equal_message a.message b.message
