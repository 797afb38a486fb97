-- ===== src/Message/Termination.antt =====
-- Parsing a message of framework/deproxy/deproxy_message.py ends: its loops get enough fuel.
use tempesta_test.Base.{
  ℕ, zero, suc, ◌+◌, ◌<◌, ◌≢◌, Bool, true, false, not, ◌&&◌, List, [], ◌∷◌, Option, none, some,
  if◌then◌else◌, length, is_empty, Result, ok, raise, check, no_fuel, index_error,
  incomplete_message, parse_error, >>=-IsFueled, check-IsFueled, if-IsFueled, arith,
}
use tempesta_test.Base.Int.{ℤ, pos, leb_ℤ}
use tempesta_test.Text.{
  Text, codes, one_of, split_space, rstrip, is_crlf, readline, ends_in_newline, length-readline,
}
use tempesta_test.Headers.{
  HeaderCollection, contains, get_item, from_stream, from_stream-IsFueled, int-IsFueled, int,
}
use tempesta_test.Message.Body.{
  Read, content_length, read, sized_body, read_sized_body, read_encoded_body, read_rest_body,
}
use tempesta_test.Message.Parse.{
  HttpMessage, RequestLine, skip_blank_lines, request_words, request_firstline, request_body,
  parse_rest, parse_request_text, new_request, methods, new_message, get_version, StatusLine,
  status_words, is_status, response_firstline, response_body, has_method, is_bodiless,
  parse_response_text, new_response,
}
use tempesta_test.Message.Reads.{read_chunked_body-IsFueled}

skip_blank_lines-IsFueled :
    (f : ℕ) (line s : Text) → length line + length s < f → skip_blank_lines f line s ≢ raise no_fuel
unfolding skip_blank_lines
skip_blank_lines-IsFueled zero line s h = elim h [ ]
skip_blank_lines-IsFueled (suc f) [] s h = ground arith
skip_blank_lines-IsFueled (suc f) (c ∷ line) s h =
    let next =
      skip_blank_lines-IsFueled f (readline s).0 (readline s).1
        (omega (arith, length-readline s)) in
    ground (arith, next)

request_words-IsFueled : (l : List Text) → request_words l ≢ raise no_fuel
unfolding request_words
request_words-IsFueled [] = ground arith
request_words-IsFueled (a ∷ []) = ground arith
request_words-IsFueled (a ∷ b ∷ []) = ground arith
request_words-IsFueled (a ∷ b ∷ c ∷ []) = ground arith
request_words-IsFueled (a ∷ b ∷ c ∷ d ∷ l) = ground arith

request_firstline-IsFueled : (s : Text) → request_firstline s ≢ raise no_fuel
unfolding request_firstline
request_firstline-IsFueled s =
    >>=-IsFueled (check (not (is_empty (readline s).0)) index_error) _
      (check-IsFueled _ index_error (ground arith))
      (λ u e.
        >>=-IsFueled (check (ends_in_newline (readline s).0) incomplete_message) _
          (check-IsFueled _ incomplete_message (ground arith))
          (λ u e.
            >>=-IsFueled (skip_blank_lines (suc (length s)) (readline s).0 (readline s).1) _
              (skip_blank_lines-IsFueled (suc (length s)) (readline s).0 (readline s).1
                (omega (arith, length-readline s)))
              (λ line e.
                >>=-IsFueled (request_words (split_space (rstrip is_crlf line.0))) _
                  (request_words-IsFueled _)
                  (λ w e.
                    >>=-IsFueled (check (one_of w.0 methods) parse_error) _
                      (check-IsFueled _ parse_error (ground arith)) (λ u e. ground arith)))))

sized_body-IsFueled :
    (headers : HeaderCollection) (size : ℤ) (body rest : Text)
    → sized_body headers size body rest ≢ raise no_fuel
unfolding sized_body
sized_body-IsFueled headers size body rest = ground arith

content_length-IsFueled : (o : Option Text) → content_length o ≢ raise no_fuel
content_length-IsFueled none = ground arith
content_length-IsFueled (some s) = int-IsFueled s

read_sized_body-IsFueled :
    (headers : HeaderCollection) (s : Text) → read_sized_body headers s ≢ raise no_fuel
unfolding read_sized_body
read_sized_body-IsFueled headers s =
    >>=-IsFueled (content_length (get_item headers (codes "Content-Length"))) _
      (content_length-IsFueled (get_item headers (codes "Content-Length")))
      (λ size e. sized_body-IsFueled headers size (read size s).0 (read size s).1)

encoded-IsFueled :
    (headers : HeaderCollection) (is_req : Bool) (s : Text)
    → read_encoded_body headers is_req s ≢ raise no_fuel
unfolding read_encoded_body
encoded-IsFueled headers is_req s = ground (arith, read_chunked_body-IsFueled s)

request_body-IsFueled :
    (headers : HeaderCollection) (s : Text) → request_body headers s ≢ raise no_fuel
unfolding request_body
request_body-IsFueled headers s =
    ground (arith, encoded-IsFueled headers true s, read_sized_body-IsFueled headers s)

pub parse_rest-IsFueled :
    (read_body : HeaderCollection → Text → Result Read) (is_h2 : Bool) (text s : Text)
    (m : HttpMessage)
    → ((headers : HeaderCollection) (t : Text) → read_body headers t ≢ raise no_fuel)
    → parse_rest read_body is_h2 text s m ≢ raise no_fuel
unfolding parse_rest
parse_rest-IsFueled read_body is_h2 text s m h =
    >>=-IsFueled (from_stream false is_h2 s) _ (from_stream-IsFueled false is_h2 s) (λ r e.
      >>=-IsFueled (if m.body_parsing then read_body r.0 r.1 else ok (r.1, m.trailer, [])) _
        (ground (arith, h r.0 r.1)) (λ b e. ground arith))

parse_request_text-IsFueled :
    (body_parsing keep : Bool) (text : Text)
    → parse_request_text body_parsing keep text ≢ raise no_fuel
unfolding parse_request_text
parse_request_text-IsFueled body_parsing keep text =
    >>=-IsFueled (request_firstline text) _ (request_firstline-IsFueled text) (λ first e.
      >>=-IsFueled (parse_rest request_body false text first.1 (start first.0)) _
        (parse_rest-IsFueled request_body false text first.1 (start first.0) request_body-IsFueled)
        (λ m e. ground arith))
  where
    start : RequestLine → HttpMessage
    start line = record (new_message (some line.0) keep) {
      body_parsing = body_parsing;
      version = get_version line.2 (codes "HTTP/0.9");
    }

-- Parsing any text as a request never runs out of the rounds that the model gives its loops: it
-- returns or raises one of the program's exceptions.
pub new_request-IsFueled :
    (body_parsing keep : Bool) (text : Text) → new_request body_parsing keep text ≢ raise no_fuel
unfolding new_request
new_request-IsFueled body_parsing keep text =
    ground (arith, parse_request_text-IsFueled body_parsing keep text)

status_words-IsFueled : (l : List Text) → status_words l ≢ raise no_fuel
unfolding status_words
status_words-IsFueled [] = ground arith
status_words-IsFueled (a ∷ []) = ground arith
status_words-IsFueled (a ∷ b ∷ []) = ground arith
status_words-IsFueled (a ∷ b ∷ c ∷ l) = ground arith

response_firstline-IsFueled : (s : Text) → response_firstline s ≢ raise no_fuel
unfolding response_firstline
response_firstline-IsFueled s =
    >>=-IsFueled (check (not (is_empty (readline s).0)) index_error) _
      (check-IsFueled _ index_error (ground arith))
      (λ u e.
        >>=-IsFueled (check (ends_in_newline (readline s).0) incomplete_message) _
          (check-IsFueled _ incomplete_message (ground arith))
          (λ u e.
            >>=-IsFueled (status_words (split_space (rstrip is_crlf (readline s).0))) _
              (status_words-IsFueled _)
              (λ w e.
                >>=-IsFueled (check (is_status w.1) parse_error) _
                  (check-IsFueled _ parse_error (ground arith)) (λ u e. ground arith))))

response_body-IsFueled :
    (method : Option Text) (status : Text) (headers : HeaderCollection) (s : Text)
    → response_body method status headers s ≢ raise no_fuel
unfolding response_body read_rest_body
response_body-IsFueled method status headers s =
    if-IsFueled (has_method method (codes "HEAD")) _ _ (ground arith) (
      >>=-IsFueled (int status) _ (int-IsFueled status) (λ code e.
        if-IsFueled (is_bodiless code) _ _ (ground arith) (
          if-IsFueled
            (has_method method (codes "CONNECT") && (leb_ℤ (pos 200) code && leb_ℤ code (pos 299)))
            _ _ (ground arith)
            (if-IsFueled (contains headers (codes "Transfer-Encoding")) _ _
              (encoded-IsFueled headers false s)
              (if-IsFueled (contains headers (codes "Content-Length")) _ _
                (read_sized_body-IsFueled headers s) (ground arith))))))

parse_response_text-IsFueled :
    (fw_version : Text) (method : Option Text) (body_parsing keep : Bool) (text : Text)
    → parse_response_text fw_version method body_parsing keep text ≢ raise no_fuel
unfolding parse_response_text
parse_response_text-IsFueled fw_version method body_parsing keep text =
    >>=-IsFueled (response_firstline text) _ (response_firstline-IsFueled text) (λ first e.
      >>=-IsFueled (parse_rest (response_body method first.0.1) false text first.1 (start first.0))
        _
        (parse_rest-IsFueled (response_body method first.0.1) false text first.1 (start first.0)
          (response_body-IsFueled method first.0.1))
        (λ m e. ground arith))
  where
    start : StatusLine → HttpMessage
    start line = record (new_message method keep) { body_parsing = body_parsing; version = line.0 }

-- Parsing any text as a response to a request of any method never runs out of the rounds that the
-- model gives its loops: it returns or raises one of the program's exceptions.
pub new_response-IsFueled :
    (fw_version : Text) (method : Option Text) (body_parsing keep : Bool) (text : Text)
    → new_response fw_version method body_parsing keep text ≢ raise no_fuel
unfolding new_response
new_response-IsFueled fw_version method body_parsing keep text =
    ground (arith, parse_response_text-IsFueled fw_version method body_parsing keep text)
