-- ===== src/Text/Laws.antt =====
-- Laws of the text methods: stripping, cutting a line and lower case.
use tempesta_test.Base.{
  ℕ, ◌+◌, ◌≡◌, refl, ap, ◌≢◌, ◌↔◌, Bool, true, false, ◌||◌, [], ◌∷◌, ◌++◌, some, if◌then◌else◌,
  arith, length, any_of, if_pos, if_neg, length-append, is_empty, suc, ◌-◌, sym, ◌∙◌,
}
use tempesta_test.Text.Methods.{
  Text, Text-discrete, same, lower, lower_char, is_space, is_crlf, lstrip, rstrip, strip, cut_at,
  readline, has, ends_in_newline, last,
}

pub same_iff : (s t : Text) → (same s t ≡ true) ↔ (s ≡ t)
same_iff s t = ground arith

pub same_refl : (s : Text) → same s s ≡ true
same_refl s = if_pos (Text-discrete s s) refl true false

pub same_ne : (s t : Text) → s ≢ t → same s t ≡ false
same_ne s t h = if_neg (Text-discrete s t) h true false

pub lower_char_idem : (c : ℕ) → lower_char (lower_char c) ≡ lower_char c
lower_char_idem c = ground arith

pub lower_idem : (s : Text) → lower (lower s) ≡ lower s
lower_idem [] = refl
lower_idem (c ∷ s) = cc (lower_char_idem c, lower_idem s)

-- A line without its line feed is read back with it.
pub readline-append :
    (s rest : Text) → has 10 s ≡ false → readline (s ++ 10 ∷ rest) ≡ (s ++ 10 ∷ [], rest)
readline-append [] rest h = refl
readline-append (c ∷ s) rest h = ground (arith, readline-append s rest)

-- What `readline` takes and leaves is the whole text.
pub readline-parts : (s : Text) → (readline s).0 ++ (readline s).1 ≡ s
readline-parts [] = refl
readline-parts (c ∷ s) = ground (arith, readline-parts s)

pub length-readline : (s : Text) → length (readline s).0 + length (readline s).1 ≡ length s
length-readline [] = omega arith
length-readline (c ∷ s) = ground (arith, length-readline s)

pub has-append : (c : ℕ) (s t : Text) → has c (s ++ t) ≡ (has c s || has c t)
has-append c [] t = refl
has-append c (d ∷ s) t = ground (arith, has-append c s t)

pub ends_in_newline-append : (s : Text) → ends_in_newline (s ++ 10 ∷ []) ≡ true
ends_in_newline-append [] = refl
ends_in_newline-append (c ∷ []) = refl
ends_in_newline-append (c ∷ d ∷ s) = ends_in_newline-append (d ∷ s)

-- A text is cut at the first occurrence of the character.
pub cut_at-append : (c : ℕ) (s t : Text) → has c s ≡ false → cut_at c (s ++ c ∷ t) ≡ (s, some t)
cut_at-append c [] t h = ground arith
cut_at-append c (d ∷ s) t h = ground (arith, cut_at-append c s t)

-- Characters of the class at the end are dropped.
pub rstrip-append_of_class :
    (p : ℕ → Bool) (s : Text) (c : ℕ) → p c ≡ true → rstrip p (s ++ c ∷ []) ≡ rstrip p s
rstrip-append_of_class p [] c h = ground arith
rstrip-append_of_class p (d ∷ s) c h = ground (arith, rstrip-append_of_class p s c h)

-- A text that ends in another character is left as it is.
pub rstrip-append_of_other :
    (p : ℕ → Bool) (s : Text) (c : ℕ) → p c ≡ false → rstrip p (s ++ c ∷ []) ≡ s ++ c ∷ []
rstrip-append_of_other p [] c h = ground arith
rstrip-append_of_other p (d ∷ []) c h = ground arith
rstrip-append_of_other p (d ∷ e ∷ s) c h = ground (arith, rstrip-append_of_other p (e ∷ s) c h)

pub lstrip_of_none : (p : ℕ → Bool) (s : Text) → any_of p s ≡ false → lstrip p s ≡ s
lstrip_of_none p [] h = refl
lstrip_of_none p (c ∷ s) h = ground arith

pub rstrip_of_none : (p : ℕ → Bool) (s : Text) → any_of p s ≡ false → rstrip p s ≡ s
rstrip_of_none p [] h = refl
rstrip_of_none p (c ∷ s) h = ground (arith, rstrip_of_none p s)

pub strip_of_none : (s : Text) → any_of is_space s ≡ false → strip s ≡ s
strip_of_none s h = rw (lstrip_of_none is_space s h) (rstrip_of_none is_space s h)

-- Stripping stops at the last character outside the class.
pub rstrip-append :
    (p : ℕ → Bool) (s : Text) (c : ℕ) (t : Text)
    → p c ≡ false
    → rstrip p (s ++ c ∷ t) ≡ s ++ c ∷ rstrip p t
rstrip-append p [] c t h = ground arith
rstrip-append p (d ∷ []) c t h = ground (arith, rstrip-append p [] c t h)
rstrip-append p (d ∷ e ∷ s) c t h = ground (arith, rstrip-append p (e ∷ s) c t h)

rstrip-rstrip_crlf : (s : Text) → rstrip is_crlf (rstrip is_space s) ≡ rstrip is_space s
rstrip-rstrip_crlf [] = refl
rstrip-rstrip_crlf (c ∷ s) =
    elim (rstrip is_space s)
        as (λ r.
          rstrip is_crlf r ≡ r
          → rstrip is_crlf (elim r [ [] ↦ if is_space c then [] else c ∷ [] | d ∷ t ↦ c ∷ d ∷ t ])
            ≡ (elim r [ [] ↦ if is_space c then [] else c ∷ [] | d ∷ t ↦ c ∷ d ∷ t ])) [
              | [] ↦ λ e. ground arith
              | d ∷ t ↦ λ e. ground arith
            ]
      (rstrip-rstrip_crlf s)

-- A stripped text has no line end behind it either.
pub rstrip_crlf-strip : (s : Text) → strip s ≡ s → rstrip is_crlf s ≡ s
rstrip_crlf-strip s h = ap (rstrip is_crlf) (sym h) ∙ (rstrip-rstrip_crlf (lstrip is_space s) ∙ h)

pub has-last_newline : (s : Text) → has 10 (last 2 (s ++ 10 ∷ [])) ≡ true
has-last_newline [] = refl
has-last_newline (c ∷ []) = ground arith
has-last_newline (c ∷ d ∷ s) =
    let shift : length (c ∷ d ∷ s ++ 10 ∷ []) - 2 ≡ suc (length (d ∷ s ++ 10 ∷ []) - 2) =
      omega (arith, length-append s (10 ∷ [])) in
    rw shift (has-last_newline (d ∷ s))

pub is_empty-append : (s : Text) (c : ℕ) (t : Text) → is_empty (s ++ c ∷ t) ≡ false
is_empty-append [] c t = refl
is_empty-append (d ∷ s) c t = refl
