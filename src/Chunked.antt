-- ===== src/Chunked.antt =====
-- `encode_chunked` and `decode_chunked` of framework/helpers/util.py.
pub mod RoundTrip
use tempesta_test.Base.{
  ℕ, zero, suc, ◌+◌, ◌-◌, List, [], ◌∷◌, ◌++◌, Option, none, some, if◌then◌else◌, length, take,
  drop, is_empty, Result, ok, raise, ◌>>=◌, no_fuel, value_error,
}
use tempesta_test.Base.Int.{ℤ, pos, negsuc}
use tempesta_test.Text.{Text, codes, split_on, int_of, to_base}

abbrev pub crlf : Text
crlf = codes "\r\n"

-- `hex(len(chunk))[2:]`, the chunk, and the line ends behind both.
unfoldable pub show_chunk : Text → Text
unfolding to_base
show_chunk chunk = to_base 16 (length chunk) ++ (crlf ++ (chunk ++ crlf))

-- The `while len(data)` loop of `encode_chunked`, with the last chunk behind it.
unfoldable pub encode_loop : ℕ → Text → ℕ → Result Text
encode_loop zero content size = raise no_fuel
encode_loop (suc f) content size =
    let rest : Result Text = (do
      more ← encode_loop f (drop size content) size
      ok (show_chunk (take size content) ++ more)) in
    if is_empty content then ok (codes "0\r\n\r\n") else rest

-- `encode_chunked(data, chunk_size)`; the loop ends within n + 1 rounds on n characters, unless the
-- chunk size is 0, with which the program's loop does not end.
unfoldable pub encode_chunked : Option Text → ℕ → Result Text
unfolding encode_loop show_chunk
encode_chunked none size = ok []
encode_chunked (some content) size = encode_loop (suc (length content)) content size

-- `[(int(length, base=16), chunk) for length, chunk in zip(data[::2], data[1::2])]`
unfoldable pub read_pairs : List Text → Result (List (ℤ × Text))
read_pairs [] = ok []
read_pairs (p ∷ []) = ok []
read_pairs (p ∷ chunk ∷ l) = elim (int_of 16 p) [
  | none ↦ raise value_error
  | some n ↦ do rest ← read_pairs l; ok ((n, chunk) ∷ rest)
]

-- `chunk[:length]`
abbrev cut : ℤ → Text → Text
cut (pos n) chunk = take n chunk
cut (negsuc n) chunk = take (length chunk - suc n) chunk

-- The loop of `decode_chunked`; `none` is the `None` of a text without a last chunk.
unfoldable pub join_chunks : List (ℤ × Text) → Text → Option Text
join_chunks [] result = none
join_chunks ((pos zero, chunk) ∷ l) result = some result
join_chunks ((pos (suc n), chunk) ∷ l) result = join_chunks l (result ++ cut (pos (suc n)) chunk)
join_chunks ((negsuc n, chunk) ∷ l) result = join_chunks l (result ++ cut (negsuc n) chunk)

unfoldable pub decode_chunked : Option Text → Result (Option Text)
unfolding read_pairs join_chunks int_of
decode_chunked none = ok (some [])
decode_chunked (some content) = do
  pairs ← read_pairs (split_on crlf content)
  ok (join_chunks pairs [])
