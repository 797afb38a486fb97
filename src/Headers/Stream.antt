-- ===== src/Headers/Stream.antt =====
-- `HeaderCollection.from_stream`. A stream is the text that is left of it, and the two `while`
-- loops take fuel. A stream of n characters gets n + 1 rounds, since each round takes a line.
use tempesta_test.Base.{
  ℕ, zero, suc, ◌+◌, ◌≤◌, ◌<◌, refl, ◌≢◌, inl, inr, Bool, true, false, ◌&&◌, ◌||◌, [], ◌∷◌, ◌++◌,
  none, some, if◌then◌else◌, ◌==◌, length, arith, Bool-cases, Result, ok, raise, ◌>>=◌,
  incomplete_message, parse_error, no_fuel, is_empty, >>=-IsFueled, Result-cases, ap, ◌∙◌,
}
use tempesta_test.Text.{
  Text, codes, same, strip, rstrip, is_crlf, cut_at, readline, has, last, ends_in_newline,
  length-readline,
}
use tempesta_test.Headers.Methods.{Header, HeaderCollection, no_headers, add}

abbrev pub starts_with_blank : Text → Bool
starts_with_blank [] = false
starts_with_blank (c ∷ s) = (c == b' ') || (c == 9)

-- The continuation lines of a value: the value, the line after them, and the text after that.
unfoldable pub continuation : ℕ → Text → Text → Text → Result (Text × Text × Text)
continuation zero value line s = raise no_fuel
continuation (suc f) value line s = elim (starts_with_blank line) [
  | true ↦ continuation f (value ++ (codes " " ++ strip line)) (readline s).0 (readline s).1
  | false ↦ ok (value, line, s)
]

-- `line.split(":", 1)`, or `line.split(":", 2)` for an HTTP/2 pseudo-header, whose name keeps the
-- colon in front.
unfoldable pub split_header : Bool → Text → Result Header
split_header is_h2 [] = raise parse_error
split_header is_h2 (c ∷ line) = elim (is_h2 && (c == b':')) [
  | true ↦ elim ((cut_at b':' line).1) [
    | none ↦ ok (b':' ∷ line, [])
    | some value ↦ ok (b':' ∷ (cut_at b':' line).0, value)
  ]
  | false ↦ elim ((cut_at b':' (c ∷ line)).1) [
    | none ↦ raise parse_error
    | some value ↦ ok ((cut_at b':' (c ∷ line)).0, value)
  ]
]

abbrev pub is_end_of_headers : Text → Bool
is_end_of_headers line = same line (codes "\r\n") || same line (codes "\n")

-- The next line, which must end in a line feed, and the continuation lines from it on.
unfoldable pub rest_of_field : ℕ → Text → Text → Result (Text × Text × Text)
rest_of_field fuel value s =
    let next = readline s in
    if has 10 (last 2 next.0)
    then continuation fuel value next.0 next.1
    else raise incomplete_message

-- One header and its continuation lines, from a line that is read already: the headers with it,
-- the next line, and the text after that.
unfoldable pub one_field :
    ℕ → Bool → HeaderCollection → Text → Text → Result (HeaderCollection × Text × Text)
one_field fuel is_h2 headers line s = do
  header ← split_header is_h2 (rstrip is_crlf line)
  cont ← rest_of_field fuel (strip header.1) s
  ok (add headers (strip header.0) cont.0, cont.1, cont.2)

-- The outer loop.
unfoldable pub fields :
    ℕ → Bool → Bool → HeaderCollection → Text → Text → Result (HeaderCollection × Text)
fields zero no_crlf is_h2 headers line s = raise no_fuel
fields (suc f) no_crlf is_h2 headers line s =
    let next_round : Result (HeaderCollection × Text) =
      one_field (suc f) is_h2 headers line s >>= λ r. fields f no_crlf is_h2 r.0 r.1 r.2 in
    if is_end_of_headers line || (no_crlf && is_empty line)
    then ok (headers, s)
    else if ends_in_newline line
    then next_round
    else raise incomplete_message

-- `HeaderCollection.from_stream(rfile, no_crlf, is_h2)`: the headers and what is left of the stream.
unfoldable pub from_stream : Bool → Bool → Text → Result (HeaderCollection × Text)
unfolding fields one_field rest_of_field continuation split_header
from_stream no_crlf is_h2 s =
    fields (suc (length s)) no_crlf is_h2 no_headers (readline s).0 (readline s).1

-- What a step of a loop over a stream of n characters yields: an exception of the program, or a
-- state with no more than m characters left.
abbrev Shorter : ℕ → Result (Text × Text × Text) → Type 0
Shorter n (ok (value, line, s)) = length line + length s ≤ n
Shorter n (raise e) = e ≢ no_fuel

Shorter-mono : (m n : ℕ) (r : Result (Text × Text × Text)) → m ≤ n → Shorter m r → Shorter n r
Shorter-mono m n (ok (value, line, s)) h k = omega arith
Shorter-mono m n (raise e) h k = k

continuation-Shorter :
    (f : ℕ) (value line s : Text)
    → length line + length s < f
    → Shorter (length line + length s) (continuation f value line s)
unfolding continuation
continuation-Shorter zero value line s h = elim h [ ]
continuation-Shorter (suc f) value [] s h = omega arith
continuation-Shorter (suc f) value (c ∷ line) s h =
    let shorter = length-readline s in
    elim (Bool-cases (starts_with_blank (c ∷ line))) [
      | inl blank ↦
          rw (blank, continuation)
            (Shorter-mono _ _ (continuation f _ (readline s).0 (readline s).1) (omega arith)
              (continuation-Shorter f _ (readline s).0 (readline s).1 (omega arith)))
      | inr other ↦ rw (other, continuation) (omega arith)
    ]

rest_of_field-Shorter :
    (f : ℕ) (value s : Text) → length s < f → Shorter (length s) (rest_of_field f value s)
unfolding rest_of_field
rest_of_field-Shorter f value s h =
    let n = readline s in
    elim (Bool-cases (has 10 (last 2 n.0))) [
      | inl more ↦
          rw (more, rest_of_field)
            (Shorter-mono _ _ (continuation f value n.0 n.1) (omega (arith, length-readline s))
              (continuation-Shorter f value n.0 n.1 (omega (arith, length-readline s))))
      | inr end ↦ rw (end, rest_of_field) (ground arith)
    ]

split_header-IsFueled : (is_h2 : Bool) (line : Text) → split_header is_h2 line ≢ raise no_fuel
unfolding split_header
split_header-IsFueled is_h2 [] = ground arith
split_header-IsFueled is_h2 (c ∷ line) = ground arith

-- The same of one header.
abbrev pub ShorterField : ℕ → Result (HeaderCollection × Text × Text) → Type 0
ShorterField n (ok (headers, line, s)) = length line + length s ≤ n
ShorterField n (raise e) = e ≢ no_fuel

pub one_field-Shorter :
    (f : ℕ) (is_h2 : Bool) (hs : HeaderCollection) (line s : Text)
    → length s < f
    → ShorterField (length s) (one_field f is_h2 hs line s)
unfolding one_field
one_field-Shorter f is_h2 hs line s h =
    elim (Result-cases (split_header is_h2 (rstrip is_crlf line))) [
      | inr (e, failed) ↦
          rw (failed, one_field)
            (λ p. split_header-IsFueled is_h2 (rstrip is_crlf line) (failed ∙ ap raise p))
      | inl (header, found) ↦ rw (found, one_field) (after (strip header.0) (strip header.1))
    ]
  where
    after :
        (name value : Text)
        → ShorterField (length s) (rest_of_field f value s >>= λ c. ok (add hs name c.0, c.1, c.2))
    after name value = elim (Result-cases (rest_of_field f value s)) [
      | inl (c, found) ↦ rw (found, ◌>>=◌) (rw found at (rest_of_field-Shorter f value s h))
      | inr (e, failed) ↦ rw (failed, ◌>>=◌) (rw failed at (rest_of_field-Shorter f value s h))
    ]

fields-IsFueled :
    (f : ℕ) (no_crlf is_h2 : Bool) (hs : HeaderCollection) (line s : Text)
    → length line + length s < f
    → fields f no_crlf is_h2 hs line s ≢ raise no_fuel
unfolding fields
fields-IsFueled zero no_crlf is_h2 hs line s h = elim h [ ]
fields-IsFueled (suc f) no_crlf is_h2 hs [] s h = ground arith
fields-IsFueled (suc f) no_crlf is_h2 hs (c ∷ line) s h =
    let shorter = one_field-Shorter (suc f) is_h2 hs (c ∷ line) s (omega arith) in
    let next_round =
      >>=-IsFueled (one_field (suc f) is_h2 hs (c ∷ line) s)
        (λ r. fields f no_crlf is_h2 r.0 r.1 r.2) (λ e. (rw e at shorter) refl)
        (λ r e.
          let fewer : length r.1 + length r.2 ≤ length s = rw e at shorter in
          fields-IsFueled f no_crlf is_h2 r.0 r.1 r.2 (omega arith)) in
    ground (arith, next_round)

-- Reading headers from any stream never runs out of the rounds that the model gives the two
-- loops: it returns or raises one of the program's exceptions.
pub from_stream-IsFueled :
    (no_crlf is_h2 : Bool) (s : Text) → from_stream no_crlf is_h2 s ≢ raise no_fuel
unfolding from_stream
from_stream-IsFueled no_crlf is_h2 s =
    fields-IsFueled (suc (length s)) no_crlf is_h2 no_headers (readline s).0 (readline s).1
      (omega (arith, length-readline s))
