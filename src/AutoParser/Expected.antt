-- ===== src/AutoParser/Expected.antt =====
-- The private methods of `DeproxyAutoParser` (framework/deproxy/deproxy_auto_parser.py) that turn
-- a message into the one that Tempesta FW is expected to forward.
use tempesta_test.Base.{
  Bool, true, false, not, ◌&&◌, ◌||◌, List, [], ◌∷◌, ◌++◌, Option, none, some, if◌then◌else◌,
  length, is_empty, any_of, Result, ok, raise, ◌>>=◌, index_error, attribute_error, get_last?,
}
use tempesta_test.Text.{
  Text, codes, same, lower, strip, split_char, split_on, join, starts_with, cut_at, last, to_base,
}
use tempesta_test.Headers.{
  Header, HeaderCollection, delete_all, get, contains, keys, add, set_item, crlf,
}
use tempesta_test.Message.{HttpMessage, Request, has_method}
use tempesta_test.Message.Change.{convert_chunked_body}

-- `for name in names: headers.delete_all(name)`
unfoldable pub delete_each : List Text → HeaderCollection → HeaderCollection
unfolding delete_all
delete_each [] c = c
delete_each (name ∷ l) c = delete_each l (delete_all c name)

-- The second piece of `uri.split("://")`.
abbrev after_scheme : List Text → Result Text
after_scheme (scheme ∷ rest ∷ more) = ok rest
after_scheme _ = raise index_error

-- `host.rpartition("@")[-1]`
abbrev without_user : Text → Text
without_user host = elim (get_last? (split_char b'@' host)) [ none ↦ [] | some h ↦ h ]

abbrev path_of : Option Text → Text
path_of none = codes "/"
path_of (some url) = codes "/" ++ url

-- `__prepare_host_for_http1`; a URI of `None` has no `startswith`, which only an HTTP/1 client
-- asks for.
unfoldable pub prepare_host_for_http1 : Bool → Request → Result Request
unfolding set_item
prepare_host_for_http1 false r = ok r
prepare_host_for_http1 true r = elim r.uri [
  | none ↦ raise attribute_error
  | some uri ↦
      (let rewritten : Result Request = (do
        rest ← after_scheme (split_on (codes "://") uri)
        let parts = cut_at b'/' rest
        ok (record {
          message = record (r.message) {
            headers = set_item r.headers (codes "host") (without_user parts.0);
          };
          uri = some (path_of parts.1);
        })) in
        if starts_with uri (codes "http") then rewritten else ok r)
]

-- `re.search(r"cache ([012]);", config)` and the value of its digit as a truth value.
unfoldable pub cache_on_tempesta : Text → Bool
cache_on_tempesta [] = false
cache_on_tempesta (c ∷ s) =
    let rest = cache_on_tempesta s in
    if starts_with (c ∷ s) (codes "cache 0;")
    then false
    else if starts_with (c ∷ s) (codes "cache 1;") || starts_with (c ∷ s) (codes "cache 2;")
    then true
    else rest

-- Whether the `Cache-Control` value lists `no-cache`.
unfoldable pub lists_no_cache : Option Text → Bool
lists_no_cache none = false
lists_no_cache (some value) =
    not (is_empty value)
    && any_of (λ name. same (strip name) (codes "no-cache")) (split_char b',' value)

-- `__prepare_method_for_expected_request`.
unfoldable pub prepare_method : Bool → Request → Request
unfolding lists_no_cache get
prepare_method cache_on r =
    if has_method r.method (codes "PURGE")
      || (has_method r.method (codes "HEAD")
          && (cache_on && not (lists_no_cache (get r.headers (codes "cache-control")))))
    then record r { message = record (r.message) { method = some (codes "GET") } }
    else r

-- `__prepare_body_for_HEAD_request`.
unfoldable pub prepare_body_for_head : Bool → HttpMessage → HttpMessage
unfolding delete_each keys
prepare_body_for_head is_head m =
    if is_head then record m { body = []; trailer = delete_each (keys m.trailer) m.trailer } else m

-- The trailer without the names that the `Connection` header lists.
unfoldable pub drop_connection_options : Option Text → HeaderCollection → HeaderCollection
unfolding delete_each
drop_connection_options none trailer = trailer
drop_connection_options (some []) trailer = trailer
drop_connection_options (some (c ∷ s)) trailer =
    delete_each (lower_each (split_char b' ' (c ∷ s))) trailer
  where
    lower_each : List Text → List Text
    lower_each [] = []
    lower_each (t ∷ l) = lower t ∷ lower_each l

abbrev pub hop_by_hop : List Text
hop_by_hop =
    codes "connection" ∷ codes "keep-alive" ∷ codes "proxy-connection" ∷ codes "upgrade" ∷ []

ends_in_empty_line : Text → Bool
ends_in_empty_line body = same (last 4 body) (codes "\r\n\r\n") || same (last 4 body) (codes "\n\n")

-- `__prepare_hop_by_hop_headers`.
unfoldable pub prepare_hop_by_hop_headers : HttpMessage → HttpMessage
unfolding drop_connection_options delete_each get keys ends_in_empty_line
prepare_hop_by_hop_headers m =
    let is_chunked_msg = not (is_empty (keys m.trailer)) in
    let trailer =
      delete_each hop_by_hop
        (drop_connection_options (get m.headers (codes "connection")) m.trailer) in
    let headers = delete_each hop_by_hop m.headers in
    let body =
      if is_empty (keys trailer) && (not (ends_in_empty_line m.body) && is_chunked_msg)
      then m.body ++ crlf
      else m.body in
    record m { headers = headers; trailer = trailer; body = body }

-- `te.split(", ")[:-1]` joined by commas.
abbrev all_but_last : List Text → List Text
all_but_last [] = []
all_but_last (p ∷ []) = []
all_but_last (p ∷ q ∷ l) = p ∷ all_but_last (q ∷ l)

abbrev pub content_encoding : Text → Text
content_encoding te = join (codes ",") (all_but_last (split_on (codes ", ") te))

-- The headers of an HTTP/2 response: the codings but the last move to `Content-Encoding`.
unfoldable pub move_codings : Option Text → HeaderCollection → HeaderCollection
unfolding delete_all add
move_codings none headers = headers
move_codings (some te) headers =
    let rest = delete_all headers (codes "Transfer-Encoding") in
    if is_empty (content_encoding te)
    then rest
    else add rest (codes "content-encoding") (content_encoding te)

unfoldable pub move_encodings : HeaderCollection → HeaderCollection
unfolding move_codings get
move_encodings headers = move_codings (get headers (codes "Transfer-Encoding")) headers

header_names : List Header → List Text
header_names [] = []
header_names ((name, value) ∷ l) = name ∷ header_names l

-- `for name, value in trailer.headers: trailer.delete_all(name)`, over the list as it was.
unfoldable pub clear_trailer : HttpMessage → HttpMessage
unfolding delete_each header_names
clear_trailer m = record m { trailer = delete_each (header_names m.trailer.headers) m.trailer }

-- `__prepare_chunked_expected_response`.
unfoldable pub prepare_chunked : Bool → Bool → HttpMessage → HttpMessage
unfolding move_encodings contains convert_chunked_body clear_trailer
prepare_chunked http2 is_head m =
    let moved = if http2 then record m { headers = move_encodings m.headers } else m in
    let converted = convert_chunked_body http2 is_head moved in
    if contains m.headers (codes "Transfer-Encoding")
    then (if is_head then clear_trailer converted else converted)
    else m

abbrev pub is_none : Option Text → Bool
is_none none = true
is_none (some t) = false

-- `__add_content_length_header_to_expected_response`.
unfoldable pub add_content_length : Option Text → HttpMessage → HttpMessage
unfolding get add to_base
add_content_length status m =
    if is_none (get m.headers (codes "content-length"))
      && (not (has_method status (codes "204"))
          && is_none (get m.headers (codes "Transfer-Encoding")))
    then record m { headers = add m.headers (codes "content-length") (to_base 10 (length m.body)) }
    else m

-- The steps of `__prepare_expected_response_for_request` after the choice of the protocol, in their
-- order. `is_cache` says that the received response has an `Age` header, `is_head` that the client
-- sent a HEAD request.
unfoldable pub strip_response : Bool → HttpMessage → HttpMessage
strip_response is_head m =
    let bare = prepare_body_for_head is_head m in
    prepare_hop_by_hop_headers (record bare { headers = delete_all bare.headers (codes "trailer") })

unfoldable pub uncache : Bool → HttpMessage → HttpMessage
uncache is_cache m =
    if is_cache then record m { headers = delete_all m.headers (codes "set-cookie") } else m

unfoldable pub encode_response : Bool → Bool → Bool → HttpMessage → HttpMessage
encode_response http2 is_cache is_head m =
    if http2 || is_cache
    then prepare_chunked http2 is_head m
    else if is_head
    then clear_trailer m
    else m

unfoldable pub adapt_response : Bool → Bool → Bool → Option Text → HttpMessage → HttpMessage
adapt_response http2 is_cache is_head status m =
    let encoded =
      encode_response http2 is_cache is_head (uncache is_cache (strip_response is_head m)) in
    prepare_body_for_head is_head (if http2 then encoded else add_content_length status encoded)
