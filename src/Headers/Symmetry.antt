-- ===== src/Headers/Symmetry.antt =====
-- What the comparison of two collections in framework/deproxy/deproxy_message.py sees.
use tempesta_test.Base.{
  ◌≡◌, refl, Bool, List, [], ◌∷◌, Bool-cases, inl, inr, Result, ok, ℕ_discrete,
}
use mathlib.Core.Bool.{xor}
use tempesta_test.Base.Int.{ℤ}
use tempesta_test.Text.{Text, Text-discrete, codes}
use tempesta_test.Headers.Methods.{HeaderCollection}
use tempesta_test.Headers.Compare.{equal, check_other_headers}

-- Comparing two collections has the same outcome in both orders, whichever of them is the
-- expected one, exceptions included.
pub equal_comm :
    (parse_date : Text → Result ℤ) (disable_report : Bool) (a b : HeaderCollection)
    → equal parse_date disable_report a b ≡ equal parse_date disable_report b a
unfolding equal xor
equal_comm parse_date disable_report a b = elim (Bool-cases a.is_expected) [
  | inl ha ↦ elim (Bool-cases b.is_expected) [
    | inl hb ↦ rw (ha, hb) refl
    | inr hb ↦ rw (ha, hb) refl
  ]
  | inr ha ↦ elim (Bool-cases b.is_expected) [
    | inl hb ↦ rw (ha, hb) refl
    | inr hb ↦ rw (ha, hb) refl
  ]
]

-- If one header is expected and an `Expect` header is received in its place, then the comparison
-- of the other headers finds no difference, whatever the two headers hold.
check_other_headers-expect :
    (name : Text) (expected received : List Text)
    → check_other_headers ((name, expected) ∷ [], (codes "expect", received) ∷ []) ≡ ok tt
unfolding check_other_headers Text-discrete ℕ_discrete
check_other_headers-expect name expected received = refl
