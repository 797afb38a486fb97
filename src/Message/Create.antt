-- ===== src/Message/Create.antt =====
-- The messages that tests make: the `create` methods of framework/deproxy/deproxy_message.py, with
-- the reason phrases of `http.server` and the current date as parameters.
use tempesta_test.Base.{
  Bool, true, false, List, [], ◌∷◌, ◌++◌, map, Option, none, some, if◌then◌else◌, Result, ok, raise,
  ◌>>=◌, value_error, key_error, index_error, type_error,
}
use tempesta_test.Base.Int.{ℤ}
use tempesta_test.Text.{Text, codes, same, join, int_of}
use tempesta_test.Headers.{Header, HeaderCollection, no_headers, add, from_mapping}
use tempesta_test.Message.{Request, Response, new_request, new_response, empty_request}
use tempesta_test.Message.Change.{set_expected, add_response_headers, new_h2_response}

-- A header in the list that a test gives: a tuple, or the line of it.
pub data Given : Type 0 where
  pair : Header → Given
  line : Text → Given

-- `f"{header[0]}: {header[1]}"`, which takes the first two characters of a line.
abbrev pub pair_line : Given → Result Text
pair_line (pair (name, value)) = ok (name ++ (codes ": " ++ value))
pair_line (line (c ∷ d ∷ s)) = ok (c ∷ (codes ": " ++ d ∷ []))
pair_line (line s) = raise index_error

-- `join` takes texts only.
abbrev pub whole_line : Given → Result Text
whole_line (line s) = ok s
whole_line (pair h) = raise type_error

unfoldable pub lines_of : (Given → Result Text) → List Given → Result (List Text)
lines_of read [] = ok []
lines_of read (g ∷ l) = do first ← read g; rest ← lines_of read l; ok (first ∷ rest)

abbrev pub header_lines : List Given → Result (List Text)
header_lines [] = ok []
header_lines (pair h ∷ l) = lines_of pair_line (pair h ∷ l)
header_lines (line s ∷ l) = lines_of whole_line (line s ∷ l)

-- `if value: headers.append(...)`
abbrev pub titled : Text → Option Text → List Text
titled title none = []
titled title (some []) = []
titled title (some (c ∷ s)) = (title ++ c ∷ s) ∷ []

abbrev pub end_lines : Option Text → List Text
end_lines none = codes "\r\n" ∷ []
end_lines (some []) = codes "\r\n" ∷ []
end_lines (some (c ∷ s)) = [] ∷ (c ∷ s) ∷ []

-- `HttpMessage.create`
unfoldable pub create_message :
    Text → List Given → Option Text → Option Text → Option Text → Result Text
create_message first_line headers date srv_version body = do
  lines ← header_lines headers
  ok (
      join (codes "\r\n") (
        first_line
        ∷ (lines
            ++ (titled (codes "date: ") date
                ++ (titled (codes "Server: ") srv_version ++ end_lines body)))))

abbrev with_host : Text → List Given → List Given
with_host [] headers = headers
with_host (c ∷ s) headers = pair (codes "Host", c ∷ s) ∷ headers

-- `Request.create`
unfoldable pub create_request :
    Text → List Given → Text → Text → Text → Option Text → Text → Result Request
create_request method headers authority uri version date body = do
  text ←
      create_message (join (codes " ") (method ∷ uri ∷ version ∷ [])) (with_host authority headers)
        date none (some body)
  new_request true false text

-- `(name, value) if value else ()`
abbrev pub pseudo_header : Text → Option Text → Option Header
pseudo_header name none = none
pseudo_header name (some []) = none
pseudo_header name (some (c ∷ s)) = some (name, c ∷ s)

-- Adding `()` raises an `IndexError`.
unfoldable pub add_pseudo_headers :
    List (Option Header) → HeaderCollection → Result HeaderCollection
add_pseudo_headers [] h = ok h
add_pseudo_headers (none ∷ l) h = raise index_error
add_pseudo_headers (some (name, value) ∷ l) h = add_pseudo_headers l (add h name value)

abbrev pub dated : Option Text → List Header
dated none = []
dated (some []) = []
dated (some (c ∷ s)) = (codes "date", c ∷ s) ∷ []

-- `H2Request.create`
unfoldable pub create_h2_request :
    Option Text
    → List Header
    → Option Text
    → Option Text
    → Text
    → Option Text
    → Text
    → Result Request
create_h2_request method headers authority uri version date body = do
  all ←
      add_pseudo_headers
        (pseudo_header (codes ":method") method
          ∷ pseudo_header (codes ":path") uri
          ∷ some (codes ":scheme", codes "https")
          ∷ pseudo_header (codes ":authority") authority
          ∷ map some (headers ++ dated date))
        no_headers
  (let r = empty_request false in
      ok (record r {
        message = record (r.message) {
          method = method;
          version = version;
          headers = all;
          body = body;
        };
        uri = uri;
      }))

-- `int(status)` and the phrase of `BaseHTTPRequestHandler.responses`.
unfoldable pub reason_of : (ℤ → Option Text) → Text → Result Text
reason_of reasons status = elim (int_of 10 status) [
  | none ↦ raise value_error
  | some n ↦ elim (reasons n) [ none ↦ raise key_error | some reason ↦ ok reason ]
]

-- `Response.create_simple_response`
unfoldable pub create_simple_response :
    (ℤ → Option Text)
    → Text
    → List Given
    → Text
    → Option Text
    → Option Text
    → Option Text
    → Result Text
create_simple_response reasons status headers version date srv_version body = do
  reason ← reason_of reasons status
  create_message (join (codes " ") (version ∷ status ∷ reason ∷ [])) headers date srv_version body

-- The end of `create`: the marks that a test asks for.
abbrev pub marked : Text → Bool → Bool → Response → Response
marked now tempesta_headers expected r =
    let waited = if expected then record r { message = set_expected 0 r.message } else r in
    if tempesta_headers then add_response_headers now waited else waited

-- `Response.create`
unfoldable pub create_response :
    (ℤ → Option Text)
    → Text
    → Text
    → Text
    → List Given
    → Text
    → Option Text
    → Option Text
    → Option Text
    → Option Text
    → Bool
    → Bool
    → Result Response
create_response reasons fw_version now status headers version date srv_version body method tempesta
      expected =
    do
      text ← create_simple_response reasons status headers version date srv_version body
      r ← new_response fw_version method true false text
      ok (marked now tempesta expected r)

-- A dict of the headers: of several with one name, the last value stands at the first place.
unfoldable pub put_header : Header → List Header → List Header
put_header h [] = h ∷ []
put_header (name, value) ((n, v) ∷ l) =
    let rest = put_header (name, value) l in if same n name then (n, value) ∷ l else (n, v) ∷ rest

unfoldable pub dict_of : List Header → List Header → List Header
dict_of [] d = d
dict_of (h ∷ l) d = dict_of l (put_header h d)

-- `H2Response.create`
unfoldable pub create_h2_response :
    Text → Text → Text → List Header → Option Text → Text → Bool → Bool → Response
create_h2_response fw_version now status headers date body tempesta expected =
    let empty = new_h2_response fw_version (some []) in
    let built = record empty {
      message = record (empty.message) {
        headers = from_mapping (dict_of ((codes ":status", status) ∷ (headers ++ dated date)) []);
      };
      status = some status;
    } in
    let done = marked now tempesta expected built in
    record done { message = record (done.message) { body = body } }
