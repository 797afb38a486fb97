-- ===== src/Message/Lengths.antt =====
-- How much of a text a message of framework/deproxy/deproxy_message.py takes.
use tempesta_test.Base.{
  ℕ, zero, suc, ◌≤◌, ◌<◌, ◌≡◌, ap, refl, Bool, true, false, not, ◌&&◌, [], ◌∷◌, ◌++◌, none, some,
  if◌then◌else◌, ltb, length, take, drop, ◌==◌, is_empty, Result, ok, raise, check, Error,
  index_error, incomplete_message, parse_error, arith, Returns, >>=-Returns, >>=-Returns_eq,
  >>=-Returns_of, Returns-mono, if-Returns, Returns-ok, length-append, length-drop,
}
use tempesta_test.Text.{
  Text, codes, one_of, split_space, rstrip, is_crlf, readline, ends_in_newline, length-readline,
  last,
}
use tempesta_test.Headers.{HeaderCollection, contains, get_item, from_stream, no_headers}
use tempesta_test.Headers.Lengths.{Leaves, from_stream-Leaves}
use tempesta_test.Message.Body.{
  Read, read_sized_body, read_chunked_body, read_encoded_body, read_rest_body, is_chunked,
  read_chunks, read_trailer, count_newlines,
}
use tempesta_test.Headers.{int}
use tempesta_test.Base.Int.{leb_ℤ, pos}
use tempesta_test.Base.{framework_error, Option, some, none}
use tempesta_test.Message.Body.{none_read}
use tempesta_test.Message.Parse.{
  Response, StatusLine, status_words, is_status, response_firstline, response_body, has_method,
  is_bodiless, parse_response_text, new_response, HttpMessage, Request, RequestLine, is_blank_line,
  skip_blank_lines, request_words, request_firstline, request_body, parse_rest, parse_request_text,
  new_request, methods, new_message, get_version,
}
use tempesta_test.Message.Reads.{read_chunks-append, read_sized_body-append}

skip_blank_lines-Leaves :
    (f : ℕ) (line s : Text) → Returns (Leaves (length s)) (skip_blank_lines f line s)
unfolding skip_blank_lines
skip_blank_lines-Leaves zero line s = tt
skip_blank_lines-Leaves (suc f) line s =
    if-Returns (Leaves (length s)) (is_blank_line line && ltb 0 (length line)) _ _
      (Returns-mono (Leaves (length (readline s).1)) (Leaves (length s))
        (skip_blank_lines f (readline s).0 (readline s).1)
        (λ (t : Text × Text) left. omega (arith, length-readline s))
        (skip_blank_lines-Leaves f (readline s).0 (readline s).1))
      (omega arith)

-- Fewer than n characters are left.
abbrev Shortens {ℓ} : {A : Type ℓ} → ℕ → A × Text → Type 0
Shortens n r = length r.1 < n

not_empty-readline : (s : Text) → is_empty s ≡ false → length (readline s).1 < length s
not_empty-readline [] h = absurd (ground arith)
not_empty-readline (c ∷ s) h = ground (arith, length-readline s)

request_firstline-Shortens :
    (s : Text) → is_empty s ≡ false → Returns (Shortens (length s)) (request_firstline s)
unfolding request_firstline
request_firstline-Shortens s h =
    >>=-Returns (Shortens (length s)) (check (not (is_empty (readline s).0)) index_error) _ (λ u.
      >>=-Returns (Shortens (length s)) (check (ends_in_newline (readline s).0) incomplete_message)
        _
        (λ u.
          >>=-Returns_of (Leaves (length (readline s).1)) (Shortens (length s))
            (skip_blank_lines (suc (length s)) (readline s).0 (readline s).1) _
            (skip_blank_lines-Leaves (suc (length s)) (readline s).0 (readline s).1)
            (λ line left.
              >>=-Returns (Shortens (length s))
                (request_words (split_space (rstrip is_crlf line.0))) _
                (λ w.
                  >>=-Returns (Shortens (length s)) (check (one_of w.0 methods) parse_error) _
                    (λ u. omega (arith, left, not_empty-readline s h))))))

abbrev LeavesBody : ℕ → Read → Type 0
LeavesBody n r = length r.2 ≤ n

Returns-all {ℓ κ} :
    {A : Type ℓ} (P : A → Type κ) (m : Result A) → ((a : A) → m ≡ ok a → P a) → Returns P m
Returns-all P (ok a) h = h a refl
Returns-all P (raise e) h = tt

read_sized_body-LeavesBody :
    (headers : HeaderCollection) (s : Text)
    → Returns (LeavesBody (length s)) (read_sized_body headers s)
read_sized_body-LeavesBody headers s =
    Returns-all (LeavesBody (length s)) (read_sized_body headers s) (λ r e.
      omega (arith, ap length (read_sized_body-append headers s r e), length-append r.0 r.2))

read_trailer-LeavesBody : (body s : Text) → Returns (LeavesBody (length s)) (read_trailer body s)
unfolding read_trailer
read_trailer-LeavesBody body s =
    let end = take 2 s in
    if-Returns (LeavesBody (length s)) (not (is_empty end) && is_empty (rstrip is_crlf end)) _ _
      (if-Returns (LeavesBody (length s)) (count_newlines (last 3 (body ++ end)) == 2)
        (ok (body ++ end, no_headers, drop 2 s)) (raise incomplete_message)
        (omega (arith, length-drop 2 s)) tt)
      (if-Returns (LeavesBody (length s)) (is_empty end) (raise incomplete_message) _ tt (
        >>=-Returns_of (Leaves (length (readline s).1)) (LeavesBody (length s))
          (from_stream true false s) _ (from_stream-Leaves true false s)
          (λ t left. omega (arith, left, length-readline s))))

read_chunked_body-LeavesBody : (s : Text) → Returns (LeavesBody (length s)) (read_chunked_body s)
unfolding read_chunked_body
read_chunked_body-LeavesBody s =
    >>=-Returns_eq (LeavesBody (length s)) (read_chunks (suc (length s)) [] s) _ (λ c e.
      Returns-mono (LeavesBody (length c.1)) (LeavesBody (length s)) (read_trailer c.0 c.1)
        (λ (r : Read) left.
          omega (
            arith,
            ap length (read_chunks-append (suc (length s)) [] s c e),
            length-append c.0 c.1,
          ))
        (read_trailer-LeavesBody c.0 c.1))

encoded-LeavesBody :
    (headers : HeaderCollection) (is_req : Bool) (s : Text)
    → Returns (LeavesBody (length s)) (read_encoded_body headers is_req s)
unfolding read_encoded_body
encoded-LeavesBody headers is_req s =
    elim (get_item headers (codes "Transfer-Encoding"))
      as (λ o. Returns (LeavesBody (length s)) (elim o [
        | none ↦ raise Error.attribute_error
        | some enc ↦
            if is_chunked enc
            then read_chunked_body s
            else if is_req
            then raise parse_error
            else read_rest_body s
      ])) [
        | none ↦ tt
        | some enc ↦
            if-Returns (LeavesBody (length s)) (is_chunked enc) _ _ (read_chunked_body-LeavesBody s)
              (if-Returns (LeavesBody (length s)) is_req (raise parse_error) (read_rest_body s) tt
                (omega arith))
      ]

request_body-LeavesBody :
    (headers : HeaderCollection) (s : Text)
    → Returns (LeavesBody (length s)) (request_body headers s)
unfolding request_body
request_body-LeavesBody headers s =
    if-Returns (LeavesBody (length s)) (contains headers (codes "Transfer-Encoding")) _ _
      (encoded-LeavesBody headers true s)
      (if-Returns (LeavesBody (length s)) (contains headers (codes "Content-Length")) _ _
        (read_sized_body-LeavesBody headers s) (omega arith))

-- What a message took is its `original_length`.
abbrev Takes : ℕ → HttpMessage → Type 0
Takes n m = (0 < m.original_length) × (m.original_length ≤ n)

parse_rest-Takes :
    (read_body : HeaderCollection → Text → Result Read)
    → ((headers : HeaderCollection) (t : Text)
        → Returns (LeavesBody (length t)) (read_body headers t))
    → (is_h2 : Bool) (text s : Text) (m : HttpMessage) → length s < length text
    → Returns (Takes (length text)) (parse_rest read_body is_h2 text s m)
unfolding parse_rest
parse_rest-Takes read_body leaves is_h2 text s m h =
    >>=-Returns_of (Leaves (length (readline s).1)) (Takes (length text))
      (from_stream false is_h2 s) _ (from_stream-Leaves false is_h2 s)
      (λ r left.
        >>=-Returns_of (LeavesBody (length r.1)) (Takes (length text))
          (if m.body_parsing then read_body r.0 r.1 else ok (r.1, m.trailer, [])) _
          (if-Returns (LeavesBody (length r.1)) m.body_parsing (read_body r.0 r.1)
            (ok (r.1, m.trailer, [])) (leaves r.0 r.1) (omega arith))
          (λ b less. (omega (arith, less, left, length-readline s), omega arith)))

parse_request_text-Takes :
    (body_parsing keep : Bool) (text : Text)
    → is_empty text ≡ false
    → Returns
        (λ (r : Request). Takes (length text) r.message)
        (parse_request_text body_parsing keep text)
unfolding parse_request_text
parse_request_text-Takes body_parsing keep text h =
    >>=-Returns_of (Shortens (length text)) (λ (r : Request). Takes (length text) r.message)
      (request_firstline text) _ (request_firstline-Shortens text h)
      (λ first less.
        >>=-Returns_of (Takes (length text)) (λ (r : Request). Takes (length text) r.message)
          (parse_rest request_body false text first.1 (start first.0)) _
          (parse_rest-Takes request_body request_body-LeavesBody false text first.1 (start first.0)
            less)
          (λ m takes. takes))
  where
    start : RequestLine → HttpMessage
    start line = record (new_message (some line.0) keep) {
      body_parsing = body_parsing;
      version = get_version line.2 (codes "HTTP/0.9");
    }

-- If parsing a text that is not empty as a request returns, then the request takes at least one
-- character of the text and no more than there are.
pub new_request-original_length :
    (body_parsing keep : Bool) (text : Text) (r : Request)
    → is_empty text ≡ false
    → new_request body_parsing keep text ≡ ok r
    → (0 < r.original_length) × (r.original_length ≤ length text)
unfolding new_request
new_request-original_length body_parsing keep text r h e =
    Returns-ok (λ (r : Request). Takes (length text) r.message)
      (parse_request_text body_parsing keep text)
      (parse_request_text-Takes body_parsing keep text h) (rw h at e)

response_firstline-Shortens :
    (s : Text) → is_empty s ≡ false → Returns (Shortens (length s)) (response_firstline s)
unfolding response_firstline
response_firstline-Shortens s h =
    >>=-Returns (Shortens (length s)) (check (not (is_empty (readline s).0)) index_error) _ (λ u.
      >>=-Returns (Shortens (length s)) (check (ends_in_newline (readline s).0) incomplete_message)
        _
        (λ u.
          >>=-Returns (Shortens (length s))
            (status_words (split_space (rstrip is_crlf (readline s).0))) _
            (λ w.
              >>=-Returns (Shortens (length s)) (check (is_status w.1) parse_error) _
                (λ u. not_empty-readline s h))))

response_body-LeavesBody :
    (method : Option Text) (status : Text) (headers : HeaderCollection) (s : Text)
    → Returns (LeavesBody (length s)) (response_body method status headers s)
unfolding response_body read_rest_body
response_body-LeavesBody method status headers s =
    if-Returns (LeavesBody (length s)) (has_method method (codes "HEAD")) (ok (none_read s)) _
      (omega arith)
      (>>=-Returns (LeavesBody (length s)) (int status) _ (λ code.
        if-Returns (LeavesBody (length s)) (is_bodiless code) (ok (none_read s)) _ (omega arith) (
          if-Returns (LeavesBody (length s))
            (has_method method (codes "CONNECT") && (leb_ℤ (pos 200) code && leb_ℤ code (pos 299)))
            (raise framework_error) _ tt
            (if-Returns (LeavesBody (length s)) (contains headers (codes "Transfer-Encoding")) _ _
              (encoded-LeavesBody headers false s)
              (if-Returns (LeavesBody (length s)) (contains headers (codes "Content-Length")) _ _
                (read_sized_body-LeavesBody headers s) (omega arith))))))

parse_response_text-Takes :
    (fw_version : Text) (method : Option Text) (body_parsing keep : Bool) (text : Text)
    → is_empty text ≡ false
    → Returns
        (λ (r : Response). Takes (length text) r.message)
        (parse_response_text fw_version method body_parsing keep text)
unfolding parse_response_text
parse_response_text-Takes fw_version method body_parsing keep text h =
    >>=-Returns_of (Shortens (length text)) (λ (r : Response). Takes (length text) r.message)
      (response_firstline text) _ (response_firstline-Shortens text h)
      (λ first less.
        >>=-Returns_of (Takes (length text)) (λ (r : Response). Takes (length text) r.message)
          (parse_rest (response_body method first.0.1) false text first.1 (start first.0)) _
          (parse_rest-Takes (response_body method first.0.1)
            (response_body-LeavesBody method first.0.1) false text first.1 (start first.0) less)
          (λ m takes. takes))
  where
    start : StatusLine → HttpMessage
    start line = record (new_message method keep) { body_parsing = body_parsing; version = line.0 }

-- If parsing a text that is not empty as a response returns, then the response takes at least one
-- character of the text and no more than there are.
pub new_response-original_length :
    (fw_version : Text) (method : Option Text) (body_parsing keep : Bool) (text : Text)
    (r : Response)
    → is_empty text ≡ false
    → new_response fw_version method body_parsing keep text ≡ ok r
    → (0 < r.original_length) × (r.original_length ≤ length text)
unfolding new_response
new_response-original_length fw_version method body_parsing keep text r h e =
    Returns-ok (λ (r : Response). Takes (length text) r.message)
      (parse_response_text fw_version method body_parsing keep text)
      (parse_response_text-Takes fw_version method body_parsing keep text h) (rw h at e)
