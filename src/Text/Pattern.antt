-- ===== src/Text/Pattern.antt =====
-- What regular expressions over texts find: runs of characters of a class, and the value of digits.
use tempesta_test.Base.{ℕ, ◌+◌, ◌-◌, ◌*◌, ◌&&◌, Bool, [], ◌∷◌, if◌then◌else◌, leb}
use tempesta_test.Text.Methods.{Text}

abbrev pub is_digit : ℕ → Bool
is_digit c = leb b'0' c && leb c b'9'

-- The longest start of a text with characters of a class, and the rest.
abbrev pub span : (ℕ → Bool) → Text → Text × Text
span p [] = ([], [])
span p (c ∷ s) = let rest = span p s in if p c then (c ∷ rest.0, rest.1) else ([], c ∷ s)

abbrev pub digits : Text → Text × Text
digits = span is_digit

abbrev pub value_from : ℕ → Text → ℕ
value_from n [] = n
value_from n (c ∷ s) = value_from (n * 10 + (c - b'0')) s

-- `int(digits)`
abbrev pub number_of : Text → ℕ
number_of = value_from 0
