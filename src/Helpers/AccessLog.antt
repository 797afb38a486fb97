-- ===== src/Helpers/AccessLog.antt =====
-- Access log records: `AccessLogLine.__eq__` of framework/helpers/access_log.py, and the filter and
-- the counting conditions of framework/helpers/dmesg.py. Finding the records in the text of the log
-- is left to the regular expressions of the standard library.
use tempesta_test.Base.{
  ℕ, ◌-◌, ◌≡◌, refl, sym, Bool, true, false, not, ◌&&◌, List, [], ◌∷◌, ◌++◌, Option, none, some,
  if◌then◌else◌, ◌==◌, ltb, leb, length, take, keep, get_last?, Result, ok, ◌>>◌, check,
  assertion_error, arith,
}
use tempesta_test.Text.{Text, codes, same, last}

-- The fields of a record. `version` is compared as the text that it is.
pub record AccessLogLine : Type 0 where
  pub address : Text
  pub vhost : Text
  pub method : Text
  pub uri : Text
  pub version : Text
  pub status : ℕ
  pub response_content_length : ℕ
  pub referer : Text
  pub user_agent : Text
  pub tft : Text
  pub tfh : Text
  pub timestamp : Option ℕ
  pub dropped_events : Option ℕ
  pub response_time : Option ℕ

-- The arguments of `access_log_find`; `none` is the default `None`.
pub record Filters : Type 0 where
  pub address : Option Text
  pub vhost : Option Text
  pub method : Option Text
  pub uri : Option Text
  pub version : Option Text
  pub status : Option ℕ
  pub content_length : Option ℕ
  pub referer : Option Text
  pub user_agent : Option Text
  pub tft : Option Text
  pub tfh : Option Text
  pub timestamp : Option ℕ
  pub dropped_events : Option ℕ
  pub response_time : Option ℕ

-- `wanted is not None and value != wanted`
unfoldable pub rejects : Option Text → Text → Bool
rejects none value = false
rejects (some wanted) value = not (same value wanted)

unfoldable pub rejects_number : Option ℕ → ℕ → Bool
rejects_number none value = false
rejects_number (some wanted) value = not (value == wanted)

-- The same where the record's field may be `None`, which differs from every number.
unfoldable pub rejects_optional : Option ℕ → Option ℕ → Bool
rejects_optional none value = false
rejects_optional (some wanted) none = true
rejects_optional (some wanted) (some value) = not (value == wanted)

-- `__records_filter`: a record is passed over at the first filter that rejects it.
unfoldable pub records_filter : Filters → List AccessLogLine → List AccessLogLine
records_filter f [] = []
records_filter f (record_ ∷ l) =
    let next = records_filter f l in
    if rejects f.address record_.address
    then next
    else if rejects f.vhost record_.vhost
    then next
    else if rejects f.method record_.method
    then next
    else if rejects f.uri record_.uri
    then next
    else if rejects f.version record_.version
    then next
    else if rejects_number f.status record_.status
    then next
    else if rejects_number f.content_length record_.response_content_length
    then next
    else if rejects f.referer record_.referer
    then next
    else if rejects f.user_agent record_.user_agent
    then next
    else if rejects f.tft record_.tft
    then next
    else if rejects f.tfh record_.tfh
    then next
    else if rejects_optional f.timestamp record_.timestamp
    then next
    else if rejects_optional f.dropped_events record_.dropped_events
    then next
    else if rejects_optional f.response_time record_.response_time
    then next
    else record_ ∷ next

-- What the filters say of one field: it is not asked for, or it has the value.
agrees : Option Text → Text → Bool
agrees none value = true
agrees (some wanted) value = same value wanted

agrees_number : Option ℕ → ℕ → Bool
agrees_number none value = true
agrees_number (some wanted) value = value == wanted

agrees_optional : Option ℕ → Option ℕ → Bool
agrees_optional none value = true
agrees_optional (some wanted) none = false
agrees_optional (some wanted) (some value) = value == wanted

-- A record that has every value that is asked for.
pub fits : Filters → AccessLogLine → Bool
fits f r =
    agrees f.address r.address
    && (agrees f.vhost r.vhost
        && (agrees f.method r.method
            && (agrees f.uri r.uri
                && (agrees f.version r.version
                    && (agrees_number f.status r.status
                        && (agrees_number f.content_length r.response_content_length
                            && (agrees f.referer r.referer
                                && (agrees f.user_agent r.user_agent
                                    && (agrees f.tft r.tft
                                        && (agrees f.tfh r.tfh
                                            && (agrees_optional f.timestamp r.timestamp
                                                && (agrees_optional f.dropped_events
                                                      r.dropped_events
                                                    && agrees_optional f.response_time
                                                        r.response_time))))))))))))

rejects-agrees : (w : Option Text) (v : Text) → rejects w v ≡ not (agrees w v)
unfolding rejects agrees
rejects-agrees none v = refl
rejects-agrees (some w) v = refl

rejects_number-agrees : (w : Option ℕ) (v : ℕ) → rejects_number w v ≡ not (agrees_number w v)
unfolding rejects_number agrees_number
rejects_number-agrees none v = refl
rejects_number-agrees (some w) v = refl

rejects_optional-agrees : (w v : Option ℕ) → rejects_optional w v ≡ not (agrees_optional w v)
unfolding rejects_optional agrees_optional
rejects_optional-agrees none v = refl
rejects_optional-agrees (some w) none = refl
rejects_optional-agrees (some w) (some v) = refl

if-and {ℓ} :
    {A : Type ℓ} (b c : Bool) (x y : A)
    → (if b then (if c then y else x) else x) ≡ (if b && c then y else x)
if-and true c x y = refl
if-and false c x y = refl

keep_if_not {ℓ} :
    {A : Type ℓ} (b : Bool) (x y : A) → (if not b then x else y) ≡ (if b then y else x)
keep_if_not true x y = refl
keep_if_not false x y = refl

keep-cons :
    (p : AccessLogLine → Bool) (r : AccessLogLine) (l : List AccessLogLine)
    → keep p (r ∷ l) ≡ (if p r then r ∷ keep p l else keep p l)
keep-cons p r l = ground arith

-- The filter of access log records keeps exactly the records that have every value that is asked
-- for, in their order.
records_filter-keep : (f : Filters) (l : List AccessLogLine) → records_filter f l ≡ keep (fits f) l
unfolding records_filter fits
records_filter-keep f [] = refl
records_filter-keep f (r ∷ l) = rw (records_filter-keep f l) (
    simp (rejects-agrees, rejects_number-agrees, rejects_optional-agrees, keep_if_not)
      (simp if-and (sym (keep-cons (fits f) r l))))

-- The conditions that `DmesgFinder.find` is called with.
unfoldable pub amount_one : List Text → Bool
amount_one matches = length matches == 1

unfoldable pub amount_zero : List Text → Bool
amount_zero matches = length matches == 0

unfoldable pub amount_positive : List Text → Bool
amount_positive matches = ltb 0 (length matches)

unfoldable pub amount_equals : ℕ → List Text → Bool
amount_equals expected matches = length matches == expected

unfoldable pub amount_greater_eq : ℕ → List Text → Bool
amount_greater_eq expected matches = leb expected (length matches)

-- `access_log_last_message`, of the records found.
unfoldable pub last_message : List AccessLogLine → Option AccessLogLine
last_message = get_last?

-- The URI that is expected of a record whose own may be cut short by dots.
unfoldable pub expected_uri : Text → Text → Text
expected_uri received expected =
    if ltb 3 (length received) && same (last 3 received) (codes "...")
    then take (length received - 3) expected ++ codes "..."
    else expected

abbrev same_optional : Option ℕ → Option ℕ → Bool
same_optional none none = true
same_optional none (some b) = false
same_optional (some a) none = false
same_optional (some a) (some b) = a == b

-- `AccessLogLine.__eq__`, field by field.
unfoldable pub equal_line : AccessLogLine → AccessLogLine → Result Bool
unfolding expected_uri
equal_line received expected = do
  check (same received.address expected.address) assertion_error
  check (same received.vhost expected.vhost) assertion_error
  check (same received.method expected.method) assertion_error
  check (same received.uri (expected_uri received.uri expected.uri)) assertion_error
  check (same received.version expected.version) assertion_error
  check (received.status == expected.status) assertion_error
  check (received.response_content_length == expected.response_content_length) assertion_error
  check (same received.referer expected.referer) assertion_error
  check (same received.user_agent expected.user_agent) assertion_error
  check (same received.tft expected.tft) assertion_error
  check (same received.tfh expected.tfh) assertion_error
  check (same_optional received.timestamp expected.timestamp) assertion_error
  check (same_optional received.dropped_events expected.dropped_events) assertion_error
  check (same_optional received.response_time expected.response_time) assertion_error
  ok true
