-- ===== src/Client/Statuses.antt =====
-- What a test reads of a client's responses and errors in framework/deproxy/deproxy_client.py.
use tempesta_test.Base.{
  ℕ, suc, ◌+◌, ◌≡◌, refl, Bool, true, false, List, [], ◌∷◌, Option, none, some, if◌then◌else◌, ◌==◌,
  any_of, length, get_last?, Result, ok, raise, ◌>>=◌, check, value_error, type_error,
  assertion_error, >>=-eq-ok, arith,
}
use tempesta_test.Base.Int.{ℤ, leb_ℤ}
use tempesta_test.Text.{int_of}
use tempesta_test.Message.{Response}

-- `d[status] += 1` for a `defaultdict` of zeros.
unfoldable pub add_one : ℤ → List (ℤ × ℕ) → List (ℤ × ℕ)
add_one n [] = (n, 1) ∷ []
add_one n ((m, count) ∷ d) = elim (leb_ℤ m n) [
  | false ↦ (m, count) ∷ add_one n d
  | true ↦ elim (leb_ℤ n m) [ true ↦ (m, count + 1) ∷ d | false ↦ (m, count) ∷ add_one n d ]
]

-- `int(r.status)`
abbrev pub status_number : Response → Result ℤ
status_number r = elim r.status [
  | none ↦ raise type_error
  | some s ↦ elim (int_of 10 s) [ none ↦ raise value_error | some n ↦ ok n ]
]

unfoldable pub count_statuses : List Response → List (ℤ × ℕ) → Result (List (ℤ × ℕ))
count_statuses [] d = ok d
count_statuses (r ∷ l) d = status_number r >>= λ n. count_statuses l (add_one n d)

-- `statuses`
unfoldable pub statuses : List Response → Result (List (ℤ × ℕ))
unfolding count_statuses
statuses responses = count_statuses responses []

abbrev pub last_response : List Response → Option Response
last_response responses = get_last? responses

-- `assert_error_code`, for error codes of any type.
unfoldable pub assert_error_code {ℓ} : {E : Type ℓ} → (E → Bool) → ℕ → List E → Result (Unit {0})
assert_error_code is_expected segment_size error_codes =
    if segment_size == 0 then check (any_of is_expected error_codes) assertion_error else ok tt

abbrev total : List (ℤ × ℕ) → ℕ
total [] = 0
total ((m, count) ∷ d) = count + total d

total-add_one : (n : ℤ) (d : List (ℤ × ℕ)) → total (add_one n d) ≡ suc (total d)
unfolding add_one
total-add_one n [] = refl
total-add_one n ((m, count) ∷ d) =
    choose (leb_ℤ m n) _ _ _
      (choose (leb_ℤ n m) _ _ _ (omega arith) (omega (arith, total-add_one n d)))
      (omega (arith, total-add_one n d))
  where
    choose :
        (b : Bool) (x y : List (ℤ × ℕ)) (k : ℕ)
        → total x ≡ k
        → total y ≡ k
        → total (elim b [ true ↦ x | false ↦ y ]) ≡ k
    choose true x y k h h' = h
    choose false x y k h h' = h'

total-count_statuses :
    (l : List Response) (d e : List (ℤ × ℕ))
    → count_statuses l d ≡ ok e
    → total e ≡ total d + length l
unfolding count_statuses
total-count_statuses [] d e h = ground arith
total-count_statuses (r ∷ l) d e h =
    let (n, is_status, counted) = >>=-eq-ok (status_number r) _ h in
    omega (arith, total-count_statuses l (add_one n d) e counted, total-add_one n d)

-- If `statuses` returns, then its counts sum up to the number of responses.
total-statuses :
    (responses : List Response) (d : List (ℤ × ℕ))
    → statuses responses ≡ ok d
    → total d ≡ length responses
unfolding statuses
total-statuses responses d h = omega (arith, total-count_statuses responses [] d h)
