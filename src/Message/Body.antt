-- ===== src/Message/Body.antt =====
-- The body readers of `HttpMessage` (framework/deproxy/deproxy_message.py). A reader takes the
-- headers and the text that is left of the stream; it returns the body, the trailer, and what is
-- left after them.
use tempesta_test.Base.{
  ℕ, zero, suc, Bool, true, false, not, ◌&&◌, ◌||◌, List, [], ◌∷◌, ◌++◌, Option, none, some,
  if◌then◌else◌, ◌==◌, ltb, length, take, drop, is_empty, Result, ok, raise, ◌>>=◌, Error,
  incomplete_message, parse_error, type_error, no_fuel, keep, get_last?,
}
use tempesta_test.Base.Int.{ℤ, pos, negsuc}
use tempesta_test.Text.{
  Text, codes, same, lower, strip, rstrip, is_crlf, split_char, readline, has, last, int_of,
}
use tempesta_test.Headers.{HeaderCollection, no_headers, get, get_item, from_stream, int}

-- A body, a trailer and the rest of the stream.
abbrev pub Read : Type 0
Read = Text × HeaderCollection × Text

abbrev pub none_read : Text → Read
none_read s = ([], no_headers, s)

-- `read_rest_body`: all that is left.
unfoldable pub read_rest_body : Text → Result Read
read_rest_body s = ok (s, no_headers, [])

-- `stream.read(size)`, which reads everything if the size is negative.
unfoldable pub read : ℤ → Text → Text × Text
read (pos n) s = (take n s, drop n s)
read (negsuc n) s = (s, [])

-- `len(body) > size` and `len(body) < size`.
abbrev pub longer : Text → ℤ → Bool
longer body (pos n) = ltb n (length body)
longer body (negsuc n) = true

abbrev pub shorter : Text → ℤ → Bool
shorter body (pos n) = ltb (length body) n
shorter body (negsuc n) = false

abbrev pub is_text : Option Text → Text → Bool
is_text none t = false
is_text (some s) t = same s t

-- `int(headers["Content-Length"])`; `int(None)` is a `TypeError`.
abbrev pub content_length : Option Text → Result ℤ
content_length none = raise type_error
content_length (some s) = int s

unfoldable pub sized_body : HeaderCollection → ℤ → Text → Text → Result Read
sized_body headers size body rest =
    if longer body size
    then raise parse_error
    else if shorter body size && is_text (get headers (codes "expect")) (codes "100-continue")
    then ok (body, no_headers, rest)
    else if shorter body size
    then raise incomplete_message
    else ok (body, no_headers, rest)

unfoldable pub read_sized_body : HeaderCollection → Text → Result Read
unfolding read int get_item get sized_body
read_sized_body headers s = do
  size ← content_length (get_item headers (codes "Content-Length"))
  let r = read size s
  sized_body headers size r.0 r.1

-- `int(line.rstrip("\r\n").split(";")[0], 16)` with the assertion on its sign; any exception here
-- becomes a `ParseError`.
abbrev head_of : List Text → Text
head_of [] = []
head_of (p ∷ parts) = p

unfoldable pub chunk_size_of : Text → Option ℕ
unfolding int_of
chunk_size_of line = elim (int_of 16 (head_of (split_char b';' (rstrip is_crlf line)))) [
  | none ↦ none
  | some (pos n) ↦ some n
  | some (negsuc n) ↦ none
]

-- The data of one chunk: the line that holds it, and what is left.
unfoldable pub read_chunk : ℕ → Text → Result (Text × Text)
read_chunk size s =
    let chunk = readline s in
    let chunk_size = length (rstrip is_crlf chunk.0) in
    if ltb chunk_size size || not (has 10 (last 2 chunk.0))
    then raise incomplete_message
    else if chunk_size == size
    then ok chunk
    else raise parse_error

-- The `while True` loop of `read_chunked_body`: the lines up to the last chunk, and what is left.
unfoldable pub read_chunks : ℕ → Text → Text → Result (Text × Text)
read_chunks zero body s = raise no_fuel
read_chunks (suc f) body s =
    let line = readline s in
    let next : Result (Text × Text) = elim (chunk_size_of line.0) [
      | none ↦ raise parse_error
      | some zero ↦ ok (body ++ line.0, line.1)
      | some (suc n) ↦ do
        chunk ← read_chunk (suc n) line.1
        read_chunks f (body ++ (line.0 ++ chunk.0)) chunk.1
    ] in
    if is_empty line.0 then raise incomplete_message else next

unfoldable pub count_newlines : Text → ℕ
count_newlines s = length (keep (λ c. c == 10) s)

-- What follows the last chunk: an empty line, or the trailer.
unfoldable pub read_trailer : Text → Text → Result Read
unfolding count_newlines from_stream
read_trailer body s =
    let end = take 2 s in
    if not (is_empty end) && is_empty (rstrip is_crlf end)
    then (if count_newlines (last 3 (body ++ end)) == 2
        then ok (body ++ end, no_headers, drop 2 s)
        else raise incomplete_message)
    else if is_empty end
    then raise incomplete_message
    else (do trailer ← from_stream true false s; ok (body, trailer.0, trailer.1))

-- A round of the loop takes at least one character, so n + 1 rounds are enough for n characters.
unfoldable pub read_chunked_body : Text → Result Read
unfolding read_chunks read_chunk chunk_size_of read_trailer
read_chunked_body s = do chunks ← read_chunks (suc (length s)) [] s; read_trailer chunks.0 chunks.1

-- `enc.split(",")[-1].strip().lower() == "chunked"`
abbrev last_option : Text → Text
last_option enc = elim (get_last? (split_char b',' enc)) [ none ↦ [] | some option ↦ option ]

unfoldable pub is_chunked : Text → Bool
is_chunked enc = same (lower (strip (last_option enc))) (codes "chunked")

-- `read_encoded_body`. Its callers see to it that the header is there; `None` has no `split`.
unfoldable pub read_encoded_body : HeaderCollection → Bool → Text → Result Read
unfolding read_chunked_body read_rest_body is_chunked get_item
read_encoded_body headers is_req s = elim (get_item headers (codes "Transfer-Encoding")) [
  | none ↦ raise Error.attribute_error
  | some enc ↦
      if is_chunked enc
      then read_chunked_body s
      else if is_req
      then raise parse_error
      else read_rest_body s
]
