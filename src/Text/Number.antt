-- ===== src/Text/Number.antt =====
-- Numbers in texts: `int(s)`, `int(s, 16)`, `str(n)` and `hex(n)[2:]`.
use tempesta_test.Base.{
  sym, ℕ, zero, suc, ◌+◌, ◌-◌, ◌*◌, ◌/◌, ◌%◌, ◌≤◌, ◌<◌, ◌≡◌, refl, Bool, true, false, ◌&&◌, ◌||◌,
  [], ◌∷◌, ◌++◌, Option, none, some, ◌==◌, ltb, leb, if◌then◌else◌, Bool-cases, Option-cases, arith,
  inl, inr, all_of, any_of, ap, ◌∙◌,
}
use native.Mathlib.Nat.{div-add-mod, div-add-mod'}
use tempesta_test.Base.Int.{ℤ, pos, negsuc}
use tempesta_test.Text.Methods.{has, Text, strip, is_space}
use tempesta_test.Text.Laws.{strip_of_none}

-- The value of a digit in a base up to 16.
abbrev digit_value : ℕ → Option ℕ
digit_value c =
    if leb b'0' c && leb c b'9'
    then some (c - b'0')
    else if leb b'a' c && leb c b'f'
    then some (c - b'a' + 10)
    else if leb b'A' c && leb c b'F'
    then some (c - b'A' + 10)
    else none

unfoldable pub digit_of : ℕ → ℕ → Option ℕ
digit_of base c = elim (digit_value c) [
  | none ↦ none
  | some d ↦ if ltb d base then some d else none
]

-- Digits, with single underscores between two of them; `ready` says that the last was a digit.
unfoldable pub number_from : ℕ → Bool → ℕ → Text → Option ℕ
number_from base ready acc [] = if ready then some acc else none
number_from base ready acc (c ∷ s) = elim (digit_of base c) [
  | some d ↦ number_from base true (acc * base + d) s
  | none ↦ elim (ready && (c == b'_')) [ true ↦ number_from base false acc s | false ↦ none ]
]

-- `0x`, which `int(s, 16)` allows in front of the digits, also with an underscore after it.
abbrev skip_prefix : ℕ → Text → Text
skip_prefix base (c ∷ d ∷ e ∷ s) =
    if (base == 16) && ((c == b'0') && ((d == b'x') || (d == b'X')))
    then (if e == b'_' then s else e ∷ s)
    else c ∷ d ∷ e ∷ s
skip_prefix base s = s

abbrev natural : ℕ → Text → Option ℕ
natural base s = number_from base false 0 (skip_prefix base s)

abbrev opposite : ℕ → ℤ
opposite zero = pos 0
opposite (suc n) = negsuc n

abbrev signed : ℕ → Text → Option ℤ
signed base [] = none
signed base (c ∷ s) =
    if c == b'-'
    then elim (natural base s) [ none ↦ none | some n ↦ some (opposite n) ]
    else elim (natural base (if c == b'+' then s else c ∷ s)) [
      | none ↦ none
      | some n ↦ some (pos n)
    ]

-- `int(s, base)`; `none` is the `ValueError`.
unfoldable pub int_of : ℕ → Text → Option ℤ
unfolding number_from digit_of
int_of base s = signed base (strip s)

abbrev digit_char : ℕ → ℕ
digit_char d = if ltb d 10 then b'0' + d else b'a' + (d - 10)

digits_of : ℕ → ℕ → ℕ → Text
digits_of zero base n = []
digits_of (suc f) base n = elim (ltb n base) [
  | true ↦ digit_char n ∷ []
  | false ↦ digits_of f base (n / base) ++ digit_char (n % base) ∷ []
]

-- `str(n)` at base 10 and `hex(n)[2:]` at base 16. A number has fewer digits than its successor.
unfoldable pub to_base : ℕ → ℕ → Text
unfolding digits_of
to_base base n = digits_of (suc n) base n

digit_of-digit_char : (base d : ℕ) → base ≤ 16 → d < base → digit_of base (digit_char d) ≡ some d
unfolding digit_of
digit_of-digit_char base d b h = ground arith

number_from-append :
    (base : ℕ) (ready : Bool) (acc : ℕ) (s : Text) (c d m : ℕ)
    → digit_of base c ≡ some d
    → number_from base ready acc s ≡ some m
    → number_from base ready acc (s ++ c ∷ []) ≡ some (m * base + d)
unfolding number_from
number_from-append base true acc [] c d m h e = ground arith
number_from-append base false acc [] c d m h e = cc
number_from-append base ready acc (x ∷ s) c d m h e = elim (Option-cases (digit_of base x)) [
  | inl none_x ↦ ground (arith, number_from-append base false acc s c d m h)
  | inr (y, some_x) ↦ ground (arith, number_from-append base true (acc * base + y) s c d m h)
]

is_hex : ℕ → Bool
is_hex c = (leb b'0' c && leb c b'9') || (leb b'a' c && leb c b'f')

digit_char-is_hex : (d : ℕ) → d < 16 → is_hex (digit_char d) ≡ true
unfolding is_hex
digit_char-is_hex d h = ground arith

all_of-append :
    (p : ℕ → Bool) (s t : Text) → all_of p s ≡ true → all_of p t ≡ true → all_of p (s ++ t) ≡ true
all_of-append p [] t h k = k
all_of-append p (c ∷ s) t h k = ground (arith, all_of-append p s t)

module _ (base : ℕ) (low : 2 ≤ base) (high : base ≤ 16) where
  mod-lt-base : (n : ℕ) → n % base < base
  mod-lt-base n = grind arith

  div-lt : (f n : ℕ) → n < suc f → base ≤ n → n / base < f
  div-lt f n h k = grind (arith, div-add-mod n base)

  digits_of-is_hex : (f n : ℕ) → all_of is_hex (digits_of f base n) ≡ true
  unfolding digits_of
  digits_of-is_hex zero n = refl
  digits_of-is_hex (suc f) n = elim (Bool-cases (ltb n base)) [
    | inl one ↦ rw (one, digits_of) (rw (digit_char-is_hex n (ground arith)))
    | inr more ↦
        rw (more, digits_of)
          (all_of-append is_hex (digits_of f base (n / base)) (digit_char (n % base) ∷ [])
            (digits_of-is_hex f (n / base))
            (rw (digit_char-is_hex (n % base) (omega (arith, mod-lt-base n)))))
  ]

  number_from-digit : (n : ℕ) → n < base → number_from base false 0 (digit_char n ∷ []) ≡ some n
  unfolding number_from
  number_from-digit n h = ground (arith, digit_of-digit_char base n high)

  number_from-digits_of : (f n : ℕ) → n < f → number_from base false 0 (digits_of f base n) ≡ some n
  unfolding digits_of
  number_from-digits_of zero n h = elim h [ ]
  number_from-digits_of (suc f) n h = elim (Bool-cases (ltb n base)) [
    | inl one ↦ rw (one, digits_of) (number_from-digit n (ground arith))
    | inr more ↦
        rw (more, digits_of)
          (number_from-append base false 0 (digits_of f base (n / base)) (digit_char (n % base))
              (n % base) (n / base) (digit_of-digit_char base (n % base) high (mod-lt-base n))
              (number_from-digits_of f (n / base) (div-lt f n h (ground arith)))
            ∙ ap some (div-add-mod' n base))
  ]

natural-hex :
    (base : ℕ) (s : Text) → all_of is_hex s ≡ true → natural base s ≡ number_from base false 0 s
unfolding is_hex
natural-hex base [] h = refl
natural-hex base (c ∷ []) h = refl
natural-hex base (c ∷ d ∷ []) h = refl
natural-hex base (c ∷ d ∷ e ∷ s) h = ground arith

signed-hex :
    (base : ℕ) (s : Text) (n : ℕ)
    → all_of is_hex s ≡ true
    → number_from base false 0 s ≡ some n
    → signed base s ≡ some (pos n)
signed-hex base [] n h e = unfold number_from in cc
signed-hex base (c ∷ s) n h e = unfold is_hex in ground (arith, natural-hex base (c ∷ s))

hex-no_space : (s : Text) → all_of is_hex s ≡ true → any_of is_space s ≡ false
unfolding is_hex
hex-no_space [] h = refl
hex-no_space (c ∷ s) h = ground (arith, hex-no_space s)

strip-hex : (s : Text) → all_of is_hex s ≡ true → strip s ≡ s
strip-hex s h = strip_of_none s (hex-no_space s h)

pub to_base-no_space :
    (base n : ℕ) → 2 ≤ base → base ≤ 16 → any_of is_space (to_base base n) ≡ false
unfolding to_base
to_base-no_space base n low high = hex-no_space _ (digits_of-is_hex base low high (suc n) n)

hex-no_dot : (s : Text) → all_of is_hex s ≡ true → has b'.' s ≡ false
unfolding is_hex
hex-no_dot [] h = refl
hex-no_dot (c ∷ s) h = ground (arith, hex-no_dot s)

pub to_base-no_dot : (base n : ℕ) → 2 ≤ base → base ≤ 16 → has b'.' (to_base base n) ≡ false
unfolding to_base
to_base-no_dot base n low high = hex-no_dot _ (digits_of-is_hex base low high (suc n) n)

-- A number printed in a base from 2 to 16 is read back as itself.
pub int_of-to_base :
    (base n : ℕ) → 2 ≤ base → base ≤ 16 → int_of base (to_base base n) ≡ some (pos n)
unfolding int_of to_base
int_of-to_base base n low high =
    let digits = digits_of-is_hex base low high (suc n) n in
    rw (strip-hex _ digits)
      (signed-hex base _ n digits (number_from-digits_of base low high (suc n) n (omega arith)))

-- Different numbers are printed as different texts.
pub to_base_inj : (base m n : ℕ) → 2 ≤ base → base ≤ 16 → to_base base m ≡ to_base base n → m ≡ n
to_base_inj base m n low high h =
    pos_inj
      (sym (int_of-to_base base m low high) ∙ ap (int_of base) h ∙ int_of-to_base base n low high)
  where
    pos_inj : some (pos m) ≡ some (pos n) → m ≡ n
    pos_inj e = ground arith
