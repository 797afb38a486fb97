-- ===== src/Headers/Compare.antt =====
-- `HeaderCollection.__eq__`: the comparison of a received collection with an expected one, which
-- raises `AssertionError` at the first difference. The parsing of a date (`time.strptime` and
-- `calendar.timegm`) is a parameter, as the seconds since the epoch.
use tempesta_test.Base.{
  ℕ, Bool, true, false, not, ◌&&◌, List, [], ◌∷◌, ◌++◌, Option, none, some, if◌then◌else◌, ltb,
  length, map, Result, ok, raise, ◌>>=◌, ◌>>◌, check, value_error, assertion_error, framework_error,
}
use mathlib.Core.Bool.{xor}
use tempesta_test.Base.Int.{ℤ, pos, ◌+ℤ◌, ◌-ℤ◌, leb_ℤ}
use tempesta_test.Text.{Text, codes, same, lower, one_of, int_of}
use tempesta_test.Headers.Methods.{Header, HeaderCollection}

-- A `dict` from names to the lists of their values, in the order of insertion.
abbrev pub Values : Type 0
Values = List (Text × List Text)

-- `d.setdefault(k, []).append(v)`
unfoldable pub append_value : Text → Text → Values → Values
append_value k v [] = (k, v ∷ []) ∷ []
append_value k v ((j, vs) ∷ d) =
    let rest = append_value k v d in if same j k then (j, vs ++ v ∷ []) ∷ d else (j, vs) ∷ rest

dict_of : Values → List Header → Values
unfolding append_value
dict_of d [] = d
dict_of d ((name, value) ∷ l) = dict_of (append_value (lower name) value d) l

unfoldable pub as_dict_lower : HeaderCollection → Values
unfolding dict_of
as_dict_lower c = dict_of [] c.headers

-- `d.get(k, None)`, and `d.get(k, [])`.
unfoldable pub find : Text → Values → Option (List Text)
find k [] = none
find k ((j, vs) ∷ d) = if same j k then some vs else find k d

abbrev pub found_or_nil : Option (List Text) → List Text
found_or_nil none = []
found_or_nil (some vs) = vs

unfoldable pub remove : Text → Values → Values
remove k [] = []
remove k ((j, vs) ∷ d) = let rest = remove k d in if same j k then d else (j, vs) ∷ rest

-- `vs == ws` for lists of texts.
unfoldable pub same_list : List Text → List Text → Bool
same_list [] [] = true
same_list [] (w ∷ ws) = false
same_list (v ∷ vs) [] = false
same_list (v ∷ vs) (w ∷ ws) = same v w && same_list vs ws

unfoldable pub same_found : Option (List Text) → Option (List Text) → Bool
unfolding same_list
same_found none none = true
same_found none (some ws) = false
same_found (some vs) none = false
same_found (some vs) (some ws) = same_list vs ws

-- `int(s)`
unfoldable pub int : Text → Result ℤ
unfolding int_of
int s = elim (int_of 10 s) [ none ↦ raise value_error | some n ↦ ok n ]

-- The dicts that are left of the expected and of the received headers.
abbrev pub Pair : Type 0
Pair = Values × Values

-- The assertion on the two dates. Both sides of the inequalities are doubled, since the code
-- halves the time delta.
unfoldable pub check_dates : (Text → Result ℤ) → ℕ → Text → Text → Result (Unit {0})
check_dates parse_date delta expected received = do
  ts_expected ← parse_date expected
  ts_received ← parse_date received
  check
      (leb_ℤ (ts_expected +ℤ ts_expected -ℤ pos delta) (ts_received +ℤ ts_received)
        && leb_ℤ (ts_received +ℤ ts_received) (ts_expected +ℤ ts_expected +ℤ pos delta))
      assertion_error

-- The dates are compared and popped if each side has exactly one.
unfoldable pub pop_dates : (Text → Result ℤ) → ℕ → Pair → List Text → List Text → Result Pair
pop_dates parse_date delta (e, r) (date_expected ∷ []) (date_received ∷ []) =
    check_dates parse_date delta date_expected date_received
    >> ok (remove (codes "date") e, remove (codes "date") r)
pop_dates parse_date delta p _ _ = ok p

unfoldable pub check_date_header : (Text → Result ℤ) → ℕ → Pair → Result Pair
unfolding pop_dates check_dates find remove
check_date_header parse_date delta p =
    pop_dates parse_date delta p (found_or_nil (find (codes "date") p.0))
      (found_or_nil (find (codes "date") p.1))

-- The assertions on the received and the expected values of `Age`.
unfoldable pub check_ages : List Text → List Text → Result (Unit {0})
unfolding int
check_ages (r ∷ []) (e ∷ []) = do
  received ← int r
  expected ← int e
  check (leb_ℤ expected received) assertion_error
check_ages [] e = ok tt
check_ages (r ∷ []) [] = do age ← int r; check (leb_ℤ (pos 0) age) assertion_error
check_ages (r ∷ []) (e ∷ f ∷ es) = do age ← int r; check (leb_ℤ (pos 0) age) assertion_error
check_ages (r ∷ q ∷ rs) e = raise assertion_error

unfoldable pub check_connections : List Text → List Text → Result (Unit {0})
unfolding same_list
check_connections (r ∷ rs) (e ∷ es) = check (same_list (r ∷ rs) (e ∷ es)) assertion_error
check_connections [] e = ok tt
check_connections (r ∷ []) [] =
    check (one_of r (codes "close" ∷ codes "keep-alive" ∷ [])) assertion_error
check_connections (r ∷ q ∷ rs) [] = raise assertion_error

abbrev pub known_warnings : List Text
known_warnings =
    codes "110 - Response is stale"
    ∷ codes "111 - Revalidation Failed"
    ∷ codes "112 - Disconnected Operation"
    ∷ codes "113 - Heuristic Expiration"
    ∷ codes "199 - Miscellaneous Warning"
    ∷ codes "214 - Transformation Applied"
    ∷ codes "299 - Miscellaneous Persistent Warning"
    ∷ []

unfoldable pub all_known : List Text → Result (Unit {0})
all_known [] = ok tt
all_known (r ∷ rs) = check (one_of r known_warnings) assertion_error >> all_known rs

unfoldable pub check_warnings : List Text → List Text → Result (Unit {0})
unfolding same_list all_known
check_warnings (r ∷ rs) (e ∷ es) = check (same_list (r ∷ rs) (e ∷ es)) assertion_error
check_warnings [] e = ok tt
check_warnings (r ∷ rs) [] = all_known (r ∷ rs)

-- A header is popped from both dicts, and its two lists of values are checked.
abbrev pub popped : Text → (List Text → List Text → Result (Unit {0})) → Pair → Result Pair
popped name assertions (e, r) =
    assertions (found_or_nil (find name r)) (found_or_nil (find name e))
    >> ok (remove name e, remove name r)

unfoldable pub check_age_header : Pair → Result Pair
unfolding check_ages find remove
check_age_header = popped (codes "age") check_ages

unfoldable pub check_connection_header : Pair → Result Pair
unfolding check_connections find remove
check_connection_header = popped (codes "connection") check_connections

unfoldable pub check_warning_header : Pair → Result Pair
unfolding check_warnings find remove
check_warning_header = popped (codes "warning") check_warnings

unfoldable pub is_header_expect : Text → Bool
is_header_expect name = same (lower name) (codes "expect")

-- The loop of `__check_other_headers` over the names of one dict.
unfoldable pub check_names : List Text → Pair → Result (Unit {0})
check_names [] p = ok tt
check_names (name ∷ l) (e, r) =
    let rest = check_names l (e, r) in
    if is_header_expect name
    then rest
    else (check (same_found (find name r) (find name e)) assertion_error >> rest)

abbrev pub dict_keys : Values → List Text
dict_keys = map (λ x. x.0)

unfoldable pub check_other_headers : Pair → Result (Unit {0})
unfolding check_names is_header_expect same_found find
check_other_headers (e, r) =
    check_names (dict_keys (if ltb (length r) (length e) then e else r)) (e, r)

unfoldable pub compare_dicts : (Text → Result ℤ) → ℕ → Pair → Result (Unit {0})
unfolding check_date_header check_age_header check_connection_header check_warning_header
compare_dicts parse_date delta p = do
  no_date ← check_date_header parse_date delta p
  no_age ← check_age_header no_date
  no_connection ← check_connection_header no_age
  no_warning ← check_warning_header no_connection
  check_other_headers no_warning

-- `a == b`. Both or neither being expected is a bug of the caller, which is reported unless the
-- report is switched off; then the method returns `None`, which counts as false.
unfoldable pub equal : (Text → Result ℤ) → Bool → HeaderCollection → HeaderCollection → Result Bool
unfolding compare_dicts check_other_headers as_dict_lower
equal parse_date disable_report a b =
    if xor a.is_expected b.is_expected
    then (if a.is_expected
        then compare_dicts parse_date a.expected_time_delta (as_dict_lower a, as_dict_lower b)
          >> ok true
        else compare_dicts parse_date b.expected_time_delta (as_dict_lower b, as_dict_lower a)
          >> ok true)
    else if disable_report
    then ok false
    else raise framework_error

-- `a != b`
unfoldable pub differ : (Text → Result ℤ) → Bool → HeaderCollection → HeaderCollection → Result Bool
unfolding equal
differ parse_date disable_report a b = do
  same_headers ← equal parse_date disable_report a b
  ok (not same_headers)
