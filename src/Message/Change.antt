-- ===== src/Message/Change.antt =====
-- The methods that change a message: the headers that Tempesta adds, the conversion of a chunked
-- body, and the conversion of a response to HTTP/2.
use tempesta_test.Base.{
  ℕ, Bool, false, not, ◌&&◌, List, [], ◌∷◌, ◌++◌, Option, none, some, if◌then◌else◌, length, concat,
}
use tempesta_test.Text.{Text, codes, split_on, to_base}
use tempesta_test.Headers.{
  HeaderCollection, add, delete_all, get, set_expected as expect_headers, crlf,
}
use tempesta_test.Message.Parse.{HttpMessage, Response, new_message}

-- `HttpMessage.set_expected()`.
unfoldable pub set_expected : ℕ → HttpMessage → HttpMessage
unfolding expect_headers
set_expected delta m = record m {
  headers = expect_headers m.headers delta;
  trailer = expect_headers m.trailer delta;
}

-- `x if x else default`
abbrev text_or : Option Text → Text → Text
text_or none t = t
text_or (some []) t = t
text_or (some (c ∷ s)) t = c ∷ s

-- `Request.add_tempesta_headers`; `client_ip` is the configured address of the client.
unfoldable pub add_request_headers : Text → Text → Option Text → HttpMessage → HttpMessage
unfolding add delete_all
add_request_headers fw_version client_ip forwarded m =
    let with_via =
      add m.headers (codes "Via")
        (codes "1.1 tempesta_fw (Tempesta FW " ++ (fw_version ++ codes ")")) in
    let name = codes "X-Forwarded-For" in
    record m { headers = add (delete_all with_via name) name (text_or forwarded client_ip) }

add_date : Text → HeaderCollection → HeaderCollection
add_date now headers = elim (get headers (codes "date")) [
  | none ↦ add headers (codes "date") now
  | some d ↦ headers
]

-- `Response.add_tempesta_headers`; `now` is what `date_time_string()` returns.
unfoldable pub add_response_headers : Text → Response → Response
unfolding add delete_all add_date get
add_response_headers now r =
    let via = codes "via" in
    let server = codes "server" in
    let with_via = add (delete_all r.headers via) via r.via_header in
    let with_server = add (delete_all with_via server) server r.server_header in
    record r {
      message = record (r.message) {
        headers = add_date now with_server;
        trailer = delete_all (delete_all r.trailer server) via;
      };
    }

-- `l[1::2]`
abbrev pub odd_places : List Text → List Text
odd_places [] = []
odd_places (p ∷ []) = []
odd_places (p ∷ q ∷ l) = q ∷ odd_places l

-- A body as a single chunk, without the last empty line.
one_chunk : Text → Text
one_chunk [] = codes "0\r\n"
one_chunk (c ∷ s) = to_base 16 (length (c ∷ s)) ++ (crlf ++ ((c ∷ s) ++ (crlf ++ codes "0\r\n")))

-- `convert_chunked_body`.
unfoldable pub convert_chunked_body : Bool → Bool → HttpMessage → HttpMessage
unfolding one_chunk to_base
convert_chunked_body http2 method_is_head m =
    let content = concat (odd_places (split_on crlf m.body)) in
    record m { body = if not http2 && not method_is_head then one_chunk content else content }

-- The empty `H2Response` of an unused method.
unfoldable pub new_h2_response : Text → Option Text → Response
new_h2_response fw_version method = record {
  message = record (new_message method false) { version = codes "HTTP/2" };
  status = none;
  reason = none;
  via_header = codes "2.0 tempesta_fw (Tempesta FW " ++ (fw_version ++ codes ")");
  server_header = codes "Tempesta FW/" ++ fw_version;
}

abbrev status_text : Option Text → Text
status_text none = codes "None"
status_text (some s) = s

-- `H2Response.convert_http1_to_http2`. The trailer is copied after the Tempesta headers are added.
unfoldable pub convert_http1_to_http2 : Text → Text → Response → Response
unfolding new_h2_response add_response_headers add
convert_http1_to_http2 fw_version now r =
    let new = new_h2_response fw_version r.method in
    let with_headers = record new {
      message = record (new.message) {
        headers = add r.headers (codes ":status") (status_text r.status);
      };
      status = r.status;
    } in
    let done = add_response_headers now with_headers in
    record done { message = record (done.message) { trailer = r.trailer; body = r.body } }
