-- ===== src/Message/Reads.antt =====
-- What the body readers of framework/deproxy/deproxy_message.py take from the stream and leave.
use tempesta_test.Base.{
  ℕ, zero, suc, ◌<◌, ◌≡◌, ◌≢◌, ap, sym, ◌∙◌, true, false, [], ◌∷◌, ◌++◌, length, is_empty, ok,
  raise, >>=-eq-ok, >>=-IsFueled, no_fuel, Bool-cases, Option-cases, inl, inr, arith, append-nil,
  append_assoc, take-append-drop,
}
use tempesta_test.Base.Int.{ℤ, pos, negsuc}
use tempesta_test.Text.{Text, codes, readline, readline-parts, length-readline}
use tempesta_test.Headers.{
  HeaderCollection, get_item, no_headers, from_stream, from_stream-IsFueled,
}
use tempesta_test.Message.Body.{
  read_trailer, read_chunked_body, Read, read, read_sized_body, sized_body, content_length,
  chunk_size_of, read_chunk, read_chunks,
}

read-parts : (size : ℤ) (s : Text) → (read size s).0 ++ (read size s).1 ≡ s
unfolding read
read-parts (pos n) s = take-append-drop n s
read-parts (negsuc n) s = append-nil s

sized_body-parts :
    (headers : HeaderCollection) (size : ℤ) (body rest : Text) (r : Read)
    → sized_body headers size body rest ≡ ok r
    → r ≡ (body, no_headers, rest)
unfolding sized_body
sized_body-parts headers size body rest r h = ground arith

pub read_chunk-readline :
    (size : ℕ) (s : Text) (r : Text × Text) → read_chunk size s ≡ ok r → r ≡ readline s
unfolding read_chunk
read_chunk-readline size s r h = ground arith

read_chunk-IsFueled : (size : ℕ) (s : Text) → read_chunk size s ≢ raise no_fuel
unfolding read_chunk
read_chunk-IsFueled size s = ground arith

-- If reading a body by its `Content-Length` returns, then the body followed by what is left of
-- the stream is the stream.
pub read_sized_body-append :
    (headers : HeaderCollection) (s : Text) (r : Read)
    → read_sized_body headers s ≡ ok r
    → r.0 ++ r.2 ≡ s
unfolding read_sized_body
read_sized_body-append headers s r h =
    let (size, found, got) =
      >>=-eq-ok (content_length (get_item headers (codes "Content-Length"))) _ h in
    ap (λ (r : Read). r.0 ++ r.2)
      (sized_body-parts headers size (read size s).0 (read size s).1 r got)
    ∙ read-parts size s

line-append : (body s : Text) → (body ++ (readline s).0) ++ (readline s).1 ≡ body ++ s
line-append body s =
    append_assoc body (readline s).0 (readline s).1 ∙ ap (λ t. body ++ t) (readline-parts s)

chunk-append :
    (body s : Text) (chunk : Text × Text)
    → chunk ≡ readline (readline s).1
    → (body ++ ((readline s).0 ++ chunk.0)) ++ chunk.1 ≡ body ++ s
chunk-append body s chunk e = rw e (
    append_assoc body ((readline s).0 ++ (readline (readline s).1).0) (readline (readline s).1).1
    ∙ ap (λ t. body ++ t)
        (append_assoc (readline s).0 _ _
          ∙ (ap (λ t. (readline s).0 ++ t) (readline-parts (readline s).1) ∙ readline-parts s)))

length_of_not_empty : (s : Text) → is_empty s ≡ false → 0 < length s
length_of_not_empty [] h = absurd (ground arith)
length_of_not_empty (c ∷ s) h = omega arith

chunk-shorter :
    (s : Text) (chunk : Text × Text)
    → is_empty (readline s).0 ≡ false
    → chunk ≡ readline (readline s).1
    → length chunk.1 < length s
chunk-shorter s chunk h e = rw e (
    omega (
      arith,
      length_of_not_empty (readline s).0 h,
      length-readline s,
      length-readline (readline s).1,
    ))

-- If the loop over the chunks of a body returns, then the body that it returns, followed by what
-- is left of the stream, is the body that it started with followed by the stream: chunk heads and
-- data are kept as they came.
pub read_chunks-append :
    (f : ℕ) (body s : Text) (r : Text × Text) → read_chunks f body s ≡ ok r → r.0 ++ r.1 ≡ body ++ s
unfolding read_chunks
read_chunks-append zero body s r h = cc
read_chunks-append (suc f) body s r h =
    let line = readline s in
    elim (Bool-cases (is_empty line.0)) [
      | inl end ↦ absurd (ground (arith, rw (end, read_chunks) at h))
      | inr more ↦ elim (Option-cases (chunk_size_of line.0)) [
        | inl bad ↦ absurd (ground (arith, rw (more, bad, read_chunks) at h))
        | inr (zero, last) ↦
            let taken : (body ++ line.0, line.1) ≡ r =
              ground (arith, rw (more, last, read_chunks) at h) in
            ap (λ (r : Text × Text). r.0 ++ r.1) (sym taken) ∙ line-append body s
        | inr (suc n, size) ↦
            let (chunk, got, rest) =
              >>=-eq-ok (read_chunk (suc n) line.1) _ (rw (more, size, read_chunks) at h) in
            read_chunks-append f (body ++ (line.0 ++ chunk.0)) chunk.1 r rest
            ∙ chunk-append body s chunk (read_chunk-readline (suc n) line.1 chunk got)
      ]
    ]

read_chunks-IsFueled : (f : ℕ) (body s : Text) → length s < f → read_chunks f body s ≢ raise no_fuel
unfolding read_chunks
read_chunks-IsFueled zero body s h = elim h [ ]
read_chunks-IsFueled (suc f) body s h =
    let line = readline s in
    elim (Bool-cases (is_empty line.0)) [
      | inl end ↦ ground arith
      | inr more ↦ elim (Option-cases (chunk_size_of line.0)) [
        | inl bad ↦ ground arith
        | inr (zero, last) ↦ ground arith
        | inr (suc n, size) ↦
            rw (more, size, read_chunks)
              (>>=-IsFueled (read_chunk (suc n) line.1) _ (read_chunk-IsFueled (suc n) line.1)
                (λ chunk got. read_chunks-IsFueled f (body ++ (line.0 ++ chunk.0)) chunk.1 (
                  let less =
                    chunk-shorter s chunk more (read_chunk-readline (suc n) line.1 chunk got) in
                  omega arith)))
      ]
    ]

read_trailer-IsFueled : (body s : Text) → read_trailer body s ≢ raise no_fuel
unfolding read_trailer
read_trailer-IsFueled body s =
    let trailer =
      >>=-IsFueled {B = Read} (from_stream true false s) (λ t. ok (body, t.0, t.1))
        (from_stream-IsFueled true false s) (λ t e. ground arith) in
    ground (arith, trailer)

-- Reading a chunked body never runs out of the rounds that the model gives the loop: it returns
-- or raises one of the program's exceptions.
pub read_chunked_body-IsFueled : (s : Text) → read_chunked_body s ≢ raise no_fuel
unfolding read_chunked_body
read_chunked_body-IsFueled s =
    >>=-IsFueled (read_chunks (suc (length s)) [] s) (λ c. read_trailer c.0 c.1)
      (read_chunks-IsFueled (suc (length s)) [] s (omega arith))
      (λ c e. read_trailer-IsFueled c.0 c.1)
