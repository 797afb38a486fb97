-- ===== src/Chunked/RoundTrip.antt =====
-- What `encode_chunked` writes, `decode_chunked` reads back.
use tempesta_test.Base.{
  ℕ, zero, suc, ◌<◌, ◌≡◌, refl, ◌∙◌, ap, false, List, [], ◌∷◌, ◌++◌, some, length, take, drop, ok,
  raise, ◌>>=◌, no_fuel, arith, any_of, length-take, length-drop, take-append-drop, append_assoc,
  append-nil, take_of_length-le,
}
use tempesta_test.Base.Int.{ℤ, pos}
use tempesta_test.Text.{
  Text, codes, split_on, int_of, to_base, has, is_space, int_of-to_base, to_base-no_space,
}
use tempesta_test.Chunked.{
  crlf, show_chunk, encode_loop, encode_chunked, read_pairs, join_chunks, decode_chunked,
}

-- A text without a carriage return stays in one piece, up to the next separator.
split_on-append :
    (s t : Text) → has 13 s ≡ false → split_on crlf (s ++ (crlf ++ t)) ≡ s ∷ split_on crlf t
split_on-append [] t h = refl
split_on-append (c ∷ s) t h = ground (arith, split_on-append s t)

no_cr_of_no_space : (s : Text) → any_of is_space s ≡ false → has 13 s ≡ false
no_cr_of_no_space [] h = refl
no_cr_of_no_space (c ∷ s) h = ground (arith, no_cr_of_no_space s)

-- The lengths and the chunks of a text that is cut into pieces of at most `size` characters.
chunks_of : ℕ → Text → ℕ → List (ℤ × Text)
chunks_of zero content size = []
chunks_of (suc f) [] size = (pos 0, []) ∷ []
chunks_of (suc f) (c ∷ content) size =
    (pos (length (take size (c ∷ content))), take size (c ∷ content))
    ∷ chunks_of f (drop size (c ∷ content)) size

read-last_chunk : read_pairs (split_on crlf (codes "0\r\n\r\n")) ≡ ok ((pos 0, []) ∷ [])
unfolding read_pairs int_of
read-last_chunk = refl

read_pairs-cons :
    (p chunk : Text) (l : List Text) {n : ℤ}
    → int_of 16 p ≡ some n
    → read_pairs (p ∷ chunk ∷ l) ≡ (read_pairs l >>= λ rest. ok ((n, chunk) ∷ rest))
unfolding read_pairs
read_pairs-cons p chunk l e = rw (e, read_pairs)

read_pairs-show_chunk :
    (chunk t : Text)
    → has 13 chunk ≡ false
    → read_pairs (split_on crlf (show_chunk chunk ++ t))
      ≡ (read_pairs (split_on crlf t) >>= λ rest. ok ((pos (length chunk), chunk) ∷ rest))
unfolding show_chunk
read_pairs-show_chunk chunk t h =
    ap (λ s. read_pairs (split_on crlf s)) regrouped
    ∙ (ap read_pairs (
          split_on-append hex (chunk ++ (crlf ++ t))
            (no_cr_of_no_space hex (to_base-no_space 16 (length chunk) (omega arith) (omega arith)))
          ∙ ap (◌∷◌ hex) (split_on-append chunk t h))
        ∙ read_pairs-cons hex chunk (split_on crlf t)
            (int_of-to_base 16 (length chunk) (omega arith) (omega arith)))
  where
    hex : Text
    hex = to_base 16 (length chunk)

    regrouped : (hex ++ (crlf ++ (chunk ++ crlf))) ++ t ≡ hex ++ (crlf ++ (chunk ++ (crlf ++ t)))
    regrouped = simp append_assoc

module _ (size : ℕ) (some_room : 0 < size) where
  drop-shorter :
      (f : ℕ) (c : ℕ) (content : Text)
      → length (c ∷ content) < suc f
      → length (drop size (c ∷ content)) < f
  drop-shorter f c content h = omega (arith, length-drop size (c ∷ content))

  take-pos : (c : ℕ) (content : Text) → 0 < length (take size (c ∷ content))
  take-pos c content = omega (arith, length-take size (c ∷ content))

  has-take : (n : ℕ) (s : Text) → has 13 s ≡ false → has 13 (take n s) ≡ false
  has-take zero s h = refl
  has-take (suc n) [] h = refl
  has-take (suc n) (c ∷ s) h = ground (arith, has-take n s)

  has-drop : (n : ℕ) (s : Text) → has 13 s ≡ false → has 13 (drop n s) ≡ false
  has-drop zero s h = h
  has-drop (suc n) [] h = refl
  has-drop (suc n) (c ∷ s) h = ground (arith, has-drop n s)

  -- The encoding ends, and splitting it and reading its lengths gives the chunks.
  read-encode :
      (f : ℕ) (content : Text)
      → length content < f
      → has 13 content ≡ false
      → (t : Text) × (encode_loop f content size ≡ ok t)
        × (read_pairs (split_on crlf t) ≡ ok (chunks_of f content size))
  unfolding encode_loop chunks_of
  read-encode zero content h n = absurd (omega arith)
  read-encode (suc f) [] h n = (codes "0\r\n\r\n", refl, read-last_chunk)
  read-encode (suc f) (c ∷ content) h n =
      let (t, e, r) =
        read-encode f (drop size (c ∷ content)) (drop-shorter f c content h)
          (has-drop size (c ∷ content) n) in
      (
        show_chunk (take size (c ∷ content)) ++ t,
        rw e,
        rw (read_pairs-show_chunk _ t (has-take size (c ∷ content) n), r) refl,
      )

  join_chunks-pos :
      (n : ℕ) (chunk : Text) (l : List (ℤ × Text)) (result : Text)
      → 0 < n
      → join_chunks ((pos n, chunk) ∷ l) result ≡ join_chunks l (result ++ take n chunk)
  unfolding join_chunks
  join_chunks-pos zero chunk l result h = elim h [ ]
  join_chunks-pos (suc n) chunk l result h = refl

  join_chunks-chunks_of :
      (f : ℕ) (content result : Text)
      → length content < f
      → join_chunks (chunks_of f content size) result ≡ some (result ++ content)
  unfolding chunks_of
  join_chunks-chunks_of zero content result h = elim h [ ]
  join_chunks-chunks_of (suc f) [] result h = unfold join_chunks in rw append-nil
  join_chunks-chunks_of (suc f) (c ∷ content) result h =
      let chunk = take size (c ∷ content) in
      join_chunks-pos (length chunk) chunk (chunks_of f (drop size (c ∷ content)) size) result
        (take-pos c content)
      ∙ (rw (take_of_length-le (length chunk) chunk (omega arith)) (
            join_chunks-chunks_of f (drop size (c ∷ content)) (result ++ chunk)
              (drop-shorter f c content h))
          ∙ ap some (
              append_assoc result chunk (drop size (c ∷ content))
              ∙ ap (◌++◌ result) (take-append-drop size (c ∷ content))))

-- With a chunk size of at least 1, `encode_chunked` returns, and decoding what it returns gives
-- the text back, if the text has no carriage return.
pub decode_chunked-encode_chunked :
    (content : Text) (size : ℕ)
    → 0 < size
    → has 13 content ≡ false
    → (t : Text) × (encode_chunked (some content) size ≡ ok t)
      × (decode_chunked (some t) ≡ ok (some content))
unfolding encode_chunked decode_chunked
decode_chunked-encode_chunked content size room no_cr =
    let (t, e, r) = read-encode size room (suc (length content)) content (omega arith) no_cr in
    (
      t,
      e,
      rw r
          (ap ok (join_chunks-chunks_of size room (suc (length content)) content [] (omega arith))),
    )

-- With a chunk size of 0 the loop of `encode_chunked` does not end on a text that is not empty,
-- for any number of rounds.
pub encode_loop-zero :
    (f : ℕ) (c : ℕ) (content : Text) → encode_loop f (c ∷ content) 0 ≡ raise no_fuel
unfolding encode_loop
encode_loop-zero zero c content = refl
encode_loop-zero (suc f) c content = rw (encode_loop-zero f c content)
