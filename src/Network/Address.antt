-- ===== src/Network/Address.antt =====
-- IPv4 addresses as numbers and as texts, in framework/helpers/networker.py.
use tempesta_test.Base.{
  ℕ, ◌/◌, ◌%◌, ◌<◌, ◌≡◌, sym, ap, ◌∙◌, false, ◌∷◌, ◌++◌, Option, some, if◌then◌else◌, ltb, Result,
  ok, raise, value_error, Result-cases, inl, inr, arith,
}
use tempesta_test.Text.{Text, to_base, has, cut_at, cut_at-append, to_base-no_dot, to_base_inj}

abbrev decimal : ℕ → Text
decimal = to_base 10

-- The last two and the last three bytes of an address.
abbrev two_bytes : ℕ → Text
two_bytes n = decimal (n / 256 % 256) ++ b'.' ∷ decimal (n % 256)

abbrev three_bytes : ℕ → Text
three_bytes n = decimal (n / 65536 % 256) ++ b'.' ∷ two_bytes n

-- `inet_ntoa(pack("!L", n))`; packing a number that needs more than four bytes raises `struct.error`,
-- here `value_error`.
unfoldable pub ip_number_to_str : ℕ → Result Text
ip_number_to_str n =
    if ltb n 4294967296
    then ok (decimal (n / 16777216) ++ b'.' ∷ three_bytes n)
    else raise value_error

dot_inj :
    (a b s t : Text)
    → has b'.' a ≡ false
    → has b'.' b ≡ false
    → a ++ b'.' ∷ s ≡ b ++ b'.' ∷ t
    → (a ≡ b) × (s ≡ t)
dot_inj a b s t no_a no_b h =
    parts (sym (cut_at-append b'.' a s no_a) ∙ ap (cut_at b'.') h ∙ cut_at-append b'.' b t no_b)
  where
    parts : ◌≡◌ {A = Text × Option Text} (a, some s) (b, some t) → (a ≡ b) × (s ≡ t)
    parts e = (ap (λ p. p.0) e, ground (arith, ap (λ (p : Text × Option Text). p.1) e))

decimal_inj : (m n : ℕ) → decimal m ≡ decimal n → m ≡ n
decimal_inj m n h = to_base_inj 10 m n (omega arith) (omega arith) h

number_dot_inj :
    (m n : ℕ) (s t : Text) → decimal m ++ b'.' ∷ s ≡ decimal n ++ b'.' ∷ t → (m ≡ n) × (s ≡ t)
number_dot_inj m n s t h =
    let (same_number, same_rest) =
      dot_inj (decimal m) (decimal n) s t (to_base-no_dot 10 m (omega arith) (omega arith))
        (to_base-no_dot 10 n (omega arith) (omega arith)) h in
    (decimal_inj m n same_number, same_rest)

written_inj :
    (m n : ℕ)
    → decimal (m / 16777216) ++ b'.' ∷ three_bytes m
      ≡ decimal (n / 16777216) ++ b'.' ∷ three_bytes n
    → m ≡ n
written_inj m n h =
    let (first, rest) =
      number_dot_inj (m / 16777216) (n / 16777216) (three_bytes m) (three_bytes n) h in
    let (second, rest2) =
      number_dot_inj (m / 65536 % 256) (n / 65536 % 256) (two_bytes m) (two_bytes n) rest in
    let (third, rest3) =
      number_dot_inj (m / 256 % 256) (n / 256 % 256) (decimal (m % 256)) (decimal (n % 256))
        rest2 in
    let fourth = decimal_inj (m % 256) (n % 256) rest3 in omega arith

-- Numbers with the same address are equal.
pub ip_number_to_str_inj :
    (m n : ℕ) (s : Text) → ip_number_to_str m ≡ ok s → ip_number_to_str n ≡ ok s → m ≡ n
unfolding ip_number_to_str
ip_number_to_str_inj m n s h k = written_inj m n (ground arith)

-- A number of four bytes has an address.
pub ip_number_to_str_ok : (n : ℕ) → n < 4294967296 → (s : Text) × (ip_number_to_str n ≡ ok s)
unfolding ip_number_to_str
ip_number_to_str_ok n h = elim (Result-cases (ip_number_to_str n)) [
  | inl found ↦ found
  | inr (e, bad) ↦ absurd (ground arith)
]
