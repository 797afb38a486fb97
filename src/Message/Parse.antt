-- ===== src/Message/Parse.antt =====
-- `Request` and `Response`: the first lines, the choice of a body reader, and `parse_text`.
use tempesta_test.Base.{
  ℕ, zero, suc, ◌-◌, Bool, true, false, not, ◌&&◌, ◌||◌, List, [], ◌∷◌, ◌++◌, Option, none, some,
  if◌then◌else◌, ltb, length, take, is_empty, Result, ok, raise, ◌>>=◌, ◌>>◌, check,
  incomplete_message, parse_error, index_error, no_fuel, framework_error,
}
use tempesta_test.Base.Int.{ℤ, pos, leb_ℤ, ltb_ℤ}
use tempesta_test.Text.{
  Text, codes, same, one_of, rstrip, is_crlf, split_space, readline, join, int_of, ends_in_newline,
}
use tempesta_test.Headers.{HeaderCollection, no_headers, contains, from_stream, int}
use tempesta_test.Message.Body.{Read, none_read, read_sized_body, read_encoded_body, read_rest_body}

-- The fields of `HttpMessage`. `None` is `none`.
pub record HttpMessage : Type 0 where
  pub original_length : ℕ
  pub method : Option Text
  pub body_parsing : Bool
  pub headers : HeaderCollection
  pub trailer : HeaderCollection
  pub body : Text
  pub keep_original_data : Bool
  pub original_data : Text
  pub version : Text

pub record Request : Type 0 where
  pub message : HttpMessage
  pub open message use *
  pub uri : Option Text

pub record Response : Type 0 where
  pub message : HttpMessage
  pub open message use *
  pub status : Option Text
  pub reason : Option Text
  pub via_header : Text
  pub server_header : Text

-- `HttpMessage.__init__` before the text is parsed.
abbrev pub new_message : Option Text → Bool → HttpMessage
new_message method keep = record {
  original_length = 0;
  method = method;
  body_parsing = true;
  headers = no_headers;
  trailer = no_headers;
  body = [];
  keep_original_data = keep;
  original_data = [];
  version = codes "HTTP/0.9";
}

-- `parse_text` once the first line is read: headers, then the body or all the rest, then the
-- bookkeeping of the original text.
unfoldable pub parse_rest :
    (HeaderCollection → Text → Result Read) → Bool → Text → Text → HttpMessage → Result HttpMessage
unfolding from_stream
parse_rest read_body is_h2 text s m = do
  h ← from_stream false is_h2 s
  b ← (if m.body_parsing then read_body h.0 h.1 else ok (h.1, m.trailer, []))
  let used = length text - length b.2
  ok (record m {
    headers = h.0;
    body = b.0;
    trailer = b.1;
    original_length = used;
    original_data = if m.keep_original_data then take used text else m.original_data;
  })

-- The methods that `Request.methods` lists.
abbrev pub methods : List Text
methods =
    codes "ACL"
    ∷ codes "BASELINE-CONTROL"
    ∷ codes "BIND"
    ∷ codes "CHECKIN"
    ∷ codes "CHECKOUT"
    ∷ codes "CONNECT"
    ∷ codes "COPY"
    ∷ codes "DELETE"
    ∷ codes "GET"
    ∷ codes "HEAD"
    ∷ codes "LABEL"
    ∷ codes "LINK"
    ∷ codes "LOCK"
    ∷ codes "MERGE"
    ∷ codes "MKACTIVITY"
    ∷ codes "MKCALENDAR"
    ∷ codes "MKCOL"
    ∷ codes "MKREDIRECTREF"
    ∷ codes "MKWORKSPACE"
    ∷ codes "MOVE"
    ∷ codes "OPTIONS"
    ∷ codes "ORDERPATCH"
    ∷ codes "PATCH"
    ∷ codes "POST"
    ∷ codes "PRI"
    ∷ codes "PROPFIND"
    ∷ codes "PROPPATCH"
    ∷ codes "PUT"
    ∷ codes "REBIND"
    ∷ codes "REPORT"
    ∷ codes "SEARCH"
    ∷ codes "TRACE"
    ∷ codes "UNBIND"
    ∷ codes "UNCHECKOUT"
    ∷ codes "UNLINK"
    ∷ codes "UNLOCK"
    ∷ codes "UPDATE"
    ∷ codes "UPDATEREDIRECTREF"
    ∷ codes "POT"
    ∷ codes "GFT"
    ∷ codes "PUTA"
    ∷ codes "GETA"
    ∷ codes "OPTIONA"
    ∷ codes "VERSION-CONTROL"
    ∷ codes "PURGE"
    ∷ codes "UNKNOWN"
    ∷ []

-- `re.match("^[\r]?$", line)`, whose `$` also matches before a last line feed.
abbrev pub is_blank_line : Text → Bool
is_blank_line line =
    is_empty line
    || (same line (codes "\r") || (same line (codes "\n") || same line (codes "\r\n")))

-- The loop that skips empty lines before a request line.
unfoldable pub skip_blank_lines : ℕ → Text → Text → Result (Text × Text)
skip_blank_lines zero line s = raise no_fuel
skip_blank_lines (suc f) line s =
    let next = skip_blank_lines f (readline s).0 (readline s).1 in
    if is_blank_line line && ltb 0 (length line) then next else ok (line, s)

-- What a request line says: method, URI and version, if it has one.
abbrev pub RequestLine : Type 0
RequestLine = Text × Text × Option Text

unfoldable pub request_words : List Text → Result RequestLine
request_words (method ∷ uri ∷ version ∷ []) = ok (method, uri, some version)
request_words (method ∷ uri ∷ []) = ok (method, uri, none)
request_words _ = raise parse_error

-- `Request.parse_firstline`: the words, and the text after the line. The subscript of an empty
-- first line raises an `IndexError`.
unfoldable pub request_firstline : Text → Result (RequestLine × Text)
unfolding skip_blank_lines request_words
request_firstline s = do
  let first = readline s
  check (not (is_empty first.0)) index_error
  check (ends_in_newline first.0) incomplete_message
  line ← skip_blank_lines (suc (length s)) first.0 first.1
  w ← request_words (split_space (rstrip is_crlf line.0))
  check (one_of w.0 methods) parse_error
  ok (w, line.1)

abbrev pub get_version : Option Text → Text → Text
get_version none v = v
get_version (some w) v = w

-- `Request.parse_body`.
unfoldable pub request_body : HeaderCollection → Text → Result Read
unfolding contains read_encoded_body read_sized_body
request_body headers s =
    if contains headers (codes "Transfer-Encoding")
    then read_encoded_body headers true s
    else if contains headers (codes "Content-Length")
    then read_sized_body headers s
    else ok (none_read s)

-- `Request()`: nothing is parsed.
abbrev pub empty_request : Bool → Request
empty_request keep = record { message = new_message (some (codes "GET")) keep; uri = none }

-- `parse_text` of a request.
unfoldable pub parse_request_text : Bool → Bool → Text → Result Request
unfolding request_firstline request_body parse_rest
parse_request_text body_parsing keep text = do
  first ← request_firstline text
  let m = new_message (some first.0.0) keep
  m' ←
      parse_rest request_body false text first.1
        (record m { body_parsing = body_parsing; version = get_version first.0.2 m.version })
  ok (record { message = m'; uri = some first.0.1 })

-- `Request(text, body_parsing, keep_original_data=keep)`; an empty text is not parsed.
unfoldable pub new_request : Bool → Bool → Text → Result Request
unfolding parse_request_text
new_request body_parsing keep text =
    if is_empty text then ok (empty_request keep) else parse_request_text body_parsing keep text

-- What a status line says: version, status and reason, if it has one.
abbrev pub StatusLine : Type 0
StatusLine = Text × Text × Option Text

unfoldable pub status_words : List Text → Result StatusLine
status_words (version ∷ status ∷ r ∷ reason) =
    ok (version, status, some (join (codes " ") (r ∷ reason)))
status_words (version ∷ status ∷ []) = ok (version, status, none)
status_words _ = raise parse_error

-- `status > 99 and status < 600`, and no exception.
unfoldable pub is_status : Text → Bool
unfolding int_of
is_status s = elim (int_of 10 s) [ none ↦ false | some n ↦ ltb_ℤ (pos 99) n && ltb_ℤ n (pos 600) ]

-- `Response.parse_firstline`.
unfoldable pub response_firstline : Text → Result (StatusLine × Text)
unfolding status_words is_status
response_firstline s = do
  let line = readline s
  check (not (is_empty line.0)) index_error
  check (ends_in_newline line.0) incomplete_message
  w ← status_words (split_space (rstrip is_crlf line.0))
  check (is_status w.1) parse_error
  ok (w, line.1)

-- Statuses whose responses have no body.
abbrev pub is_bodiless : ℤ → Bool
is_bodiless code =
    (leb_ℤ (pos 100) code && leb_ℤ code (pos 199))
    || ((leb_ℤ (pos 204) code && leb_ℤ code (pos 204))
        || (leb_ℤ (pos 304) code && leb_ℤ code (pos 304)))

abbrev pub has_method : Option Text → Text → Bool
has_method none m = false
has_method (some n) m = same n m

-- `Response.parse_body`, which knows the request's method.
unfoldable pub response_body : Option Text → Text → HeaderCollection → Text → Result Read
unfolding int contains read_encoded_body read_sized_body read_rest_body
response_body method status headers s =
    if has_method method (codes "HEAD")
    then ok (none_read s)
    else (int status >>= λ code.
        if is_bodiless code
        then ok (none_read s)
        else if has_method method (codes "CONNECT")
            && (leb_ℤ (pos 200) code && leb_ℤ code (pos 299))
        then raise framework_error
        else if contains headers (codes "Transfer-Encoding")
        then read_encoded_body headers false s
        else if contains headers (codes "Content-Length")
        then read_sized_body headers s
        else read_rest_body s)

-- `Response(method=method)`; `fw_version` is what `tempesta.version()` returns.
abbrev pub empty_response : Text → Option Text → Bool → Response
empty_response fw_version method keep = record {
  message = new_message method keep;
  status = none;
  reason = none;
  via_header = codes "1.1 tempesta_fw (Tempesta FW " ++ (fw_version ++ codes ")");
  server_header = codes "Tempesta FW/" ++ fw_version;
}

-- `parse_text` of a response.
unfoldable pub parse_response_text : Text → Option Text → Bool → Bool → Text → Result Response
unfolding response_firstline response_body parse_rest
parse_response_text fw_version method body_parsing keep text = do
  first ← response_firstline text
  let m = new_message method keep
  m' ←
      parse_rest (response_body method first.0.1) false text first.1
        (record m { body_parsing = body_parsing; version = first.0.0 })
  ok (record (empty_response fw_version method keep) {
    message = m';
    status = some first.0.1;
    reason = first.0.2;
  })

-- `Response(text, body_parsing, method, keep_original_data=keep)`; an empty text is not parsed.
unfoldable pub new_response : Text → Option Text → Bool → Bool → Text → Result Response
unfolding parse_response_text
new_response fw_version method body_parsing keep text =
    if is_empty text
    then ok (empty_response fw_version method keep)
    else parse_response_text fw_version method body_parsing keep text
