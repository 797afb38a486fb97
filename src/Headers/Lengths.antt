-- ===== src/Headers/Lengths.antt =====
-- What reading headers leaves of the stream.
use tempesta_test.Base.{
  ℕ, zero, suc, ◌+◌, ◌≤◌, ◌<◌, [], ◌∷◌, Bool, true, false, ◌&&◌, ◌||◌, length, ok, raise, ◌>>=◌,
  Returns, >>=-Returns_eq, Returns-mono, if-Returns, arith, incomplete_message,
}
use tempesta_test.Text.{Text, readline, length-readline, ends_in_newline}
use tempesta_test.Headers.Methods.{HeaderCollection, no_headers}
use tempesta_test.Headers.Stream.{
  one_field, fields, from_stream, one_field-Shorter, is_end_of_headers,
}

-- At most n characters are left.
abbrev pub Leaves {ℓ} : {A : Type ℓ} → ℕ → A × Text → Type 0
Leaves n r = length r.1 ≤ n

fields-Leaves :
    (f : ℕ) (no_crlf is_h2 : Bool) (hs : HeaderCollection) (line s : Text)
    → length line + length s < f
    → Returns (Leaves (length s)) (fields f no_crlf is_h2 hs line s)
unfolding fields
fields-Leaves zero no_crlf is_h2 hs line s h = tt
fields-Leaves (suc f) no_crlf is_h2 hs [] s h =
    if-Returns (Leaves (length s)) (is_end_of_headers [] || (no_crlf && true)) (ok (hs, s))
      (raise incomplete_message) (omega arith) tt
fields-Leaves (suc f) no_crlf is_h2 hs (c ∷ line) s h =
    let shorter = one_field-Shorter (suc f) is_h2 hs (c ∷ line) s (omega arith) in
    if-Returns (Leaves (length s)) (is_end_of_headers (c ∷ line) || (no_crlf && false)) (ok (hs, s))
      _ (omega arith)
      (if-Returns (Leaves (length s)) (ends_in_newline (c ∷ line))
        (one_field (suc f) is_h2 hs (c ∷ line) s >>= λ r. fields f no_crlf is_h2 r.0 r.1 r.2)
        (raise incomplete_message)
        (>>=-Returns_eq (Leaves (length s)) (one_field (suc f) is_h2 hs (c ∷ line) s) _ (λ r e.
          let less : length r.1 + length r.2 ≤ length s = rw e at shorter in
          Returns-mono (Leaves (length r.2)) (Leaves (length s))
            (fields f no_crlf is_h2 r.0 r.1 r.2) (λ (t : HeaderCollection × Text) left. omega arith)
            (fields-Leaves f no_crlf is_h2 r.0 r.1 r.2 (omega arith))))
        tt)

-- Reading headers takes at least the first line from the stream.
pub from_stream-Leaves :
    (no_crlf is_h2 : Bool) (s : Text)
    → Returns (Leaves (length (readline s).1)) (from_stream no_crlf is_h2 s)
unfolding from_stream
from_stream-Leaves no_crlf is_h2 s =
    fields-Leaves (suc (length s)) no_crlf is_h2 no_headers (readline s).0 (readline s).1
      (omega (arith, length-readline s))
