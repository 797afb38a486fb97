-- ===== src/Headers/RoundTrip.antt =====
-- A printed block of headers is read back by `from_stream`.
use tempesta_test.Base.{
  ℕ, zero, suc, ◌≤◌, ◌<◌, ◌≡◌, refl, ◌∙◌, ap, Bool, true, false, List, [], ◌∷◌, ◌++◌, length, arith,
  ok, All, append-nil, append_assoc, length-append, ℕ_discrete,
}
use tempesta_test.Text.{
  Text, Text-discrete, codes, strip, rstrip, is_crlf, readline, has, readline-append, has-append,
  ends_in_newline-append, cut_at-append, rstrip-append, rstrip-append_of_class, rstrip_crlf-strip,
  has-last_newline, is_empty-append, same_ne,
}
use tempesta_test.Headers.Methods.{
  Header, HeaderCollection, no_headers, add, show_lines, show, crlf,
}
use tempesta_test.Headers.Stream.{
  starts_with_blank, continuation, split_header, rest_of_field, one_field, fields, from_stream,
  is_end_of_headers,
}

-- What a name and a value must be like for the printed line to be one header: the name has no
-- colon, neither has a line feed, and both are stripped.
pub record IsPrintable (h : Header) : Type 0 where
  pub name_no_colon : has b':' h.0 ≡ false
  pub name_no_newline : has 10 h.0 ≡ false
  pub name_stripped : strip h.0 ≡ h.0
  pub name_no_blank : starts_with_blank h.0 ≡ false
  pub value_no_newline : has 10 h.1 ≡ false
  pub value_stripped : strip h.1 ≡ h.1

-- A printed header up to its line feed.
abbrev line_of : Header → Text
line_of h = h.0 ++ (b':' ∷ b' ' ∷ (h.1 ++ 13 ∷ []))

show_lines-line_of :
    (h : Header) (l : List Header) (t : Text)
    → show_lines (h ∷ l) ++ t ≡ line_of h ++ 10 ∷ (show_lines l ++ t)
unfolding show_lines
show_lines-line_of h l t = simp append_assoc

line_of-no_newline : (h : Header) → IsPrintable h → has 10 (line_of h) ≡ false
line_of-no_newline h p =
    ground (arith, has-append 10 h.0 (b':' ∷ b' ' ∷ (h.1 ++ 13 ∷ [])), has-append 10 h.1 (13 ∷ []))

readline-line_of :
    (h : Header) (l : List Header) (t : Text)
    → IsPrintable h
    → readline (show_lines (h ∷ l) ++ t) ≡ (line_of h ++ 10 ∷ [], show_lines l ++ t)
readline-line_of h l t p =
    rw (show_lines-line_of h l t) (readline-append (line_of h) _ (line_of-no_newline h p))

split_header-append :
    (name t : Text) → has b':' name ≡ false → split_header false (name ++ b':' ∷ t) ≡ ok (name, t)
unfolding split_header
split_header-append [] t h = refl
split_header-append (c ∷ name) t h = ground (arith, cut_at-append b':' (c ∷ name) t h)

rstrip-line_of :
    (h : Header) → IsPrintable h → rstrip is_crlf (line_of h ++ 10 ∷ []) ≡ h.0 ++ b':' ∷ b' ' ∷ h.1
rstrip-line_of h p =
    rstrip-append_of_class is_crlf (line_of h) 10 refl
    ∙ (rstrip-append is_crlf h.0 b':' (b' ' ∷ (h.1 ++ 13 ∷ [])) refl
        ∙ ap (λ t. h.0 ++ b':' ∷ t) value)
  where
    value : rstrip is_crlf (b' ' ∷ (h.1 ++ 13 ∷ [])) ≡ b' ' ∷ h.1
    value =
        rstrip-append is_crlf [] b' ' (h.1 ++ 13 ∷ []) refl
        ∙ ap (λ t. b' ' ∷ t)
            (rstrip-append_of_class is_crlf h.1 13 refl ∙ rstrip_crlf-strip h.1 p.value_stripped)

has_colon-not_end : (s : Text) → has b':' s ≡ true → is_end_of_headers s ≡ false
has_colon-not_end s h =
    rw
      (
        same_ne s (codes "\r\n") (λ e. cc (ap (has b':') e)),
        same_ne s (codes "\n") (λ e. cc (ap (has b':') e)),
      )
      refl

line_of-has_colon : (h : Header) → has b':' (line_of h ++ 10 ∷ []) ≡ true
line_of-has_colon h = ground (
  arith,
  has-append b':' (line_of h) (10 ∷ []),
  has-append b':' h.0 (b':' ∷ b' ' ∷ (h.1 ++ 13 ∷ [])),
)

abbrev tail_of : List Header → Text → Text
tail_of l rest = show_lines l ++ (crlf ++ rest)

rest_of_field-tail_of :
    (f : ℕ) (value : Text) (l : List Header) (rest : Text)
    → All IsPrintable l
    → rest_of_field (suc f) value (tail_of l rest)
      ≡ ok (value, (readline (tail_of l rest)).0, (readline (tail_of l rest)).1)
unfolding rest_of_field continuation
rest_of_field-tail_of f value [] rest p = unfold show_lines in refl
rest_of_field-tail_of f value (h ∷ l) rest p =
    rw (readline-line_of h l (crlf ++ rest) p.0, has-last_newline (line_of h), rest_of_field)
      (rw (not_blank h.0 p.0.name_no_blank, continuation) refl)
  where
    not_blank :
        (name : Text)
        → starts_with_blank name ≡ false
        → starts_with_blank ((name ++ b':' ∷ b' ' ∷ (h.1 ++ 13 ∷ [])) ++ 10 ∷ []) ≡ false
    not_blank [] e = refl
    not_blank (c ∷ name) e = e

one_field-line_of :
    (f : ℕ) (c : HeaderCollection) (h : Header) (l : List Header) (rest : Text)
    → IsPrintable h
    → All IsPrintable l
    → one_field (suc f) false c (line_of h ++ 10 ∷ []) (tail_of l rest)
      ≡ ok (add c h.0 h.1, (readline (tail_of l rest)).0, (readline (tail_of l rest)).1)
unfolding one_field
one_field-line_of f c h l rest p q =
    rw (rstrip-line_of h p, split_header-append h.0 (b' ' ∷ h.1) p.name_no_colon, one_field)
      (rw (p.name_stripped, p.value_stripped, rest_of_field-tail_of f h.1 l rest q) refl)

readline-crlf : (rest : Text) → readline (tail_of [] rest) ≡ (crlf, rest)
unfolding show_lines
readline-crlf rest = refl

crlf-is_end : is_end_of_headers crlf ≡ true
unfolding Text-discrete ℕ_discrete
crlf-is_end = refl

fields-tail_of :
    (f : ℕ) (no_crlf : Bool) (c : HeaderCollection) (l : List Header) (rest : Text)
    → length l < f
    → All IsPrintable l
    → fields f no_crlf false c (readline (tail_of l rest)).0 (readline (tail_of l rest)).1
      ≡ ok (record c { headers = c.headers ++ l }, rest)
unfolding fields add
fields-tail_of zero no_crlf c l rest h p = elim h [ ]
fields-tail_of (suc f) no_crlf c [] rest h p =
    rw (readline-crlf rest, crlf-is_end, append-nil, fields) refl
fields-tail_of (suc f) no_crlf c (h ∷ l) rest e p = rw (readline-line_of h l (crlf ++ rest) p.0) (
    ground (
      arith,
      has_colon-not_end (line_of h ++ 10 ∷ []) (line_of-has_colon h),
      is_empty-append (line_of h) 10 [],
      ends_in_newline-append (line_of h),
      one_field-line_of f c h l rest p.0 p.1,
      fields-tail_of f no_crlf (add c h.0 h.1) l rest (omega arith) p.1,
      append_assoc c.headers (h ∷ []) l,
    ))

length-show_lines : (l : List Header) → length l ≤ length (show_lines l)
unfolding show_lines
length-show_lines [] = omega arith
length-show_lines (h ∷ l) = omega (
  arith,
  length-append h.0 (codes ": " ++ (h.1 ++ (crlf ++ show_lines l))),
  length-append h.1 (crlf ++ show_lines l),
  length-show_lines l,
)

-- If every header of a collection is printable (the name has no colon and does not start with a
-- blank, neither name nor value has a line feed, both are stripped), then reading the printed
-- collection, an empty line and any rest gives the same headers in the same order, and leaves the
-- stream at that rest.
pub from_stream-show :
    (no_crlf : Bool) (c : HeaderCollection) (rest : Text)
    → All IsPrintable c.headers
    → from_stream no_crlf false (show c ++ (crlf ++ rest))
      ≡ ok (record no_headers { headers = c.headers }, rest)
unfolding from_stream show
from_stream-show no_crlf c rest p =
    fields-tail_of (suc (length (tail_of c.headers rest))) no_crlf no_headers c.headers rest
      (omega
        (arith, length-append (show_lines c.headers) (crlf ++ rest), length-show_lines c.headers))
      p
