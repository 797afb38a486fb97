-- ===== src/Headers/Termination.antt =====
-- The comparison of collections in framework/deproxy/deproxy_message.py ends: with dates that are
-- parsed or refused, it never runs out of fuel.
use tempesta_test.Base.{
  ℕ, ◌≢◌, Bool, List, [], ◌∷◌, if◌then◌else◌, Result, raise, check, no_fuel, assertion_error,
  >>=-IsFueled, check-IsFueled, if-IsFueled, ltb, length, arith, Option-cases, inl, inr,
}
use mathlib.Core.Bool.{xor}
use tempesta_test.Base.Int.{ℤ}
use tempesta_test.Text.{Text, codes, one_of, int_of}
use tempesta_test.Headers.Methods.{HeaderCollection}
use tempesta_test.Headers.Compare.{
  Pair, int, check_dates, pop_dates, check_date_header, check_ages, check_age_header,
  check_connections, check_connection_header, check_warnings, check_warning_header, all_known,
  popped, known_warnings, check_names, check_other_headers, compare_dicts, equal, find,
  found_or_nil, is_header_expect, same_found, dict_keys, as_dict_lower,
}

abbrev Fueled {ℓ} : {A : Type ℓ} → Result A → Type ℓ
Fueled m = m ≢ raise no_fuel

pub int-IsFueled : (s : Text) → int s ≢ raise no_fuel
unfolding int
int-IsFueled s = elim (Option-cases (int_of 10 s)) [
  | inl bad ↦ rw (bad, int) (ground arith)
  | inr (n, good) ↦ rw (good, int) (ground arith)
]

module _ (parse_date : Text → Result ℤ) (known : (s : Text) → parse_date s ≢ raise no_fuel) where
  check_dates-IsFueled : (delta : ℕ) (e r : Text) → Fueled (check_dates parse_date delta e r)
  unfolding check_dates
  check_dates-IsFueled delta e r = >>=-IsFueled (parse_date e) _ (known e) (λ t p.
      >>=-IsFueled (parse_date r) _ (known r)
        (λ u q. check-IsFueled _ assertion_error (ground arith)))

  pop_dates-IsFueled :
      (delta : ℕ) (p : Pair) (e r : List Text) → Fueled (pop_dates parse_date delta p e r)
  unfolding pop_dates
  pop_dates-IsFueled delta p [] [] = ground arith
  pop_dates-IsFueled delta p [] (r ∷ rs) = ground arith
  pop_dates-IsFueled delta p (e ∷ []) [] = ground arith
  pop_dates-IsFueled delta p (e ∷ []) (r ∷ []) =
      >>=-IsFueled (check_dates parse_date delta e r) _ (check_dates-IsFueled delta e r)
        (λ u q. ground arith)
  pop_dates-IsFueled delta p (e ∷ []) (r ∷ q ∷ rs) = ground arith
  pop_dates-IsFueled delta p (e ∷ f ∷ es) [] = ground arith
  pop_dates-IsFueled delta p (e ∷ f ∷ es) (r ∷ rs) = ground arith

  check_ages-IsFueled : (r e : List Text) → Fueled (check_ages r e)
  unfolding check_ages
  check_ages-IsFueled [] e = ground arith
  check_ages-IsFueled (r ∷ []) [] =
      >>=-IsFueled (int r) _ (int-IsFueled r)
        (λ a q. check-IsFueled _ assertion_error (ground arith))
  check_ages-IsFueled (r ∷ []) (e ∷ []) = >>=-IsFueled (int r) _ (int-IsFueled r) (λ a q.
      >>=-IsFueled (int e) _ (int-IsFueled e)
        (λ b q. check-IsFueled _ assertion_error (ground arith)))
  check_ages-IsFueled (r ∷ []) (e ∷ f ∷ es) =
      >>=-IsFueled (int r) _ (int-IsFueled r)
        (λ a q. check-IsFueled _ assertion_error (ground arith))
  check_ages-IsFueled (r ∷ q ∷ rs) e = ground arith

  check_connections-IsFueled : (r e : List Text) → Fueled (check_connections r e)
  unfolding check_connections
  check_connections-IsFueled [] e = ground arith
  check_connections-IsFueled (r ∷ rs) (e ∷ es) = check-IsFueled _ assertion_error (ground arith)
  check_connections-IsFueled (r ∷ []) [] = check-IsFueled _ assertion_error (ground arith)
  check_connections-IsFueled (r ∷ q ∷ rs) [] = ground arith

  all_known-IsFueled : (r : List Text) → Fueled (all_known r)
  unfolding all_known
  all_known-IsFueled [] = ground arith
  all_known-IsFueled (r ∷ rs) =
      >>=-IsFueled (check (one_of r known_warnings) assertion_error) _
        (check-IsFueled _ assertion_error (ground arith)) (λ u q. all_known-IsFueled rs)

  check_warnings-IsFueled : (r e : List Text) → Fueled (check_warnings r e)
  unfolding check_warnings
  check_warnings-IsFueled [] e = ground arith
  check_warnings-IsFueled (r ∷ rs) (e ∷ es) = check-IsFueled _ assertion_error (ground arith)
  check_warnings-IsFueled (r ∷ rs) [] = all_known-IsFueled (r ∷ rs)

  popped-IsFueled :
      (name : Text) (assertions : List Text → List Text → Result (Unit {0}))
      → ((r e : List Text) → assertions r e ≢ raise no_fuel)
      → (p : Pair) → Fueled (popped name assertions p)
  popped-IsFueled name assertions h (e, r) =
      >>=-IsFueled (assertions (found_or_nil (find name r)) (found_or_nil (find name e))) _
        (h (found_or_nil (find name r)) (found_or_nil (find name e))) (λ u q. ground arith)

  check_names-IsFueled : (l : List Text) (p : Pair) → Fueled (check_names l p)
  unfolding check_names
  check_names-IsFueled [] p = ground arith
  check_names-IsFueled (name ∷ l) (e, r) =
      if-IsFueled (is_header_expect name) _ _ (check_names-IsFueled l (e, r)) (
        >>=-IsFueled (check (same_found (find name r) (find name e)) assertion_error) _
          (check-IsFueled _ assertion_error (ground arith)) (λ u q. check_names-IsFueled l (e, r)))

  compare_dicts-IsFueled : (delta : ℕ) (p : Pair) → Fueled (compare_dicts parse_date delta p)
  unfolding compare_dicts check_date_header check_age_header check_connection_header
      check_warning_header check_other_headers
  compare_dicts-IsFueled delta p =
      >>=-IsFueled (check_date_header parse_date delta p) _
        (pop_dates-IsFueled delta p (found_or_nil (find (codes "date") p.0))
          (found_or_nil (find (codes "date") p.1)))
        (λ a q.
          >>=-IsFueled (check_age_header a) _
            (popped-IsFueled (codes "age") check_ages check_ages-IsFueled a)
            (λ b q.
              >>=-IsFueled (check_connection_header b) _
                (popped-IsFueled (codes "connection") check_connections check_connections-IsFueled
                  b)
                (λ c q.
                  >>=-IsFueled (check_warning_header c) _
                    (popped-IsFueled (codes "warning") check_warnings check_warnings-IsFueled c)
                    (λ d q.
                      check_names-IsFueled
                        (dict_keys (if ltb (length d.1) (length d.0) then d.0 else d.1)) d))))

  pub equal-IsFueled :
      (disable_report : Bool) (a b : HeaderCollection)
      → equal parse_date disable_report a b ≢ raise no_fuel
  unfolding equal
  equal-IsFueled disable_report a b =
      if-IsFueled (xor a.is_expected b.is_expected) _ _
        (if-IsFueled a.is_expected _ _
          (>>=-IsFueled
            (compare_dicts parse_date a.expected_time_delta (as_dict_lower a, as_dict_lower b)) _
            (compare_dicts-IsFueled a.expected_time_delta (as_dict_lower a, as_dict_lower b))
            (λ u q. ground arith))
          (>>=-IsFueled
            (compare_dicts parse_date b.expected_time_delta (as_dict_lower b, as_dict_lower a)) _
            (compare_dicts-IsFueled b.expected_time_delta (as_dict_lower b, as_dict_lower a))
            (λ u q. ground arith)))
        (if-IsFueled disable_report _ _ (ground arith) (ground arith))
