-- ===== src/AutoParser/State.antt =====
-- `DeproxyAutoParser`: its fields, and the methods that the client and the server call.
use tempesta_test.Base.{
  Bool, true, false, not, ◌&&◌, List, [], ◌∷◌, ◌++◌, Option, none, some, if◌then◌else◌, length,
  is_empty, Result, ok, raise, ◌>>=◌, Error, assertion_error, type_error, is_parse_error,
}
use tempesta_test.Base.Int.{ℤ, pos, leb_ℤ, ltb_ℤ}
use tempesta_test.Text.{Text, codes, same, join, to_base}
use tempesta_test.Headers.{
  Header, HeaderCollection, delete_all, contains, int, add, find_all, set_item,
}
use tempesta_test.Message.{
  Request, Response, has_method, new_request, new_response, empty_request, show_request,
}
use tempesta_test.Message.Change.{
  set_expected, add_request_headers, add_response_headers, convert_http1_to_http2,
}
use tempesta_test.Message.Compare.{equal_request, equal_response}
use tempesta_test.AutoParser.Expected.{
  prepare_host_for_http1, cache_on_tempesta, prepare_method, prepare_hop_by_hop_headers,
  adapt_response,
}

-- `parsing` starts as `run_config.AUTO_PARSER`.
pub record AutoParser : Type 0 where
  pub expected_response : Option Response
  pub expected_request : Option Request
  pub client_request : Option Request
  pub parsing : Bool
  pub exceptions : List Error

-- What the parser reads of its surroundings: the version of Tempesta FW, the client's configured
-- address, the text of the Tempesta configuration, the `run_config.AUTO_PARSER` switch, the
-- current date, how dates are parsed, and `bytes.decode("utf-8", errors="ignore")`.
pub record Surroundings : Type 0 where
  pub fw_version : Text
  pub client_ip : Text
  pub config : Text
  pub auto_parser : Bool
  pub now : Text
  pub parse_date : Text → Result ℤ
  pub decode : Text → Text

-- The client that sends a request: its protocol and its addresses.
pub record Sender : Type 0 where
  pub is_http2 : Bool
  pub bind_addr : Option Text
  pub conn_addr : Text

-- `cleanup`, which also gives the first state.
unfoldable pub cleanup : Surroundings → AutoParser
cleanup w = record {
  expected_response = none;
  expected_request = none;
  client_request = none;
  parsing = w.auto_parser;
  exceptions = [];
}

-- `check_exceptions` raises the first exception that was recorded.
unfoldable pub check_exceptions : AutoParser → Result (Unit {0})
check_exceptions p = elim p.exceptions [ [] ↦ ok tt | e ∷ l ↦ raise e ]

-- `except AssertionError`: the exception is recorded, any other is passed on.
unfoldable pub record_assertion : AutoParser → Result (Unit {0}) → Result AutoParser
record_assertion p (ok u) = ok p
record_assertion p (raise Error.assertion_error) =
    ok (record p { exceptions = p.exceptions ++ assertion_error ∷ [] })
record_assertion p (raise e) = raise e

unfoldable pub check_expected_request : Surroundings → Request → AutoParser → Result AutoParser
unfolding equal_request record_assertion
check_expected_request w r p = elim p.expected_request [
  | none ↦ ok p
  | some expected ↦ record_assertion p (equal_request w.parse_date false r expected)
]

-- `__prepare_expected_response_for_request`.
unfoldable pub prepare_expected_response_for_request :
    Surroundings → Bool → Response → Request → Response → Response
unfolding adapt_response convert_http1_to_http2 contains
prepare_expected_response_for_request w http2 received client expected =
    let r = if http2 then convert_http1_to_http2 w.fw_version w.now expected else expected in
    record r {
      message =
          adapt_response http2 (contains received.headers (codes "age"))
            (has_method client.method (codes "HEAD")) r.status r.message;
    }

abbrev pub status_code : Option Text → Result ℤ
status_code none = raise type_error
status_code (some s) = int s

-- Whether a response to this request is checked.
abbrev pub is_checked : Option Request → Bool
is_checked none = false
is_checked (some r) = not (has_method r.method (codes "PURGE"))

-- The comparison, where an expected response and the client's request are there.
unfoldable pub compare_response :
    Surroundings
    → Bool
    → Response
    → Option Response
    → Option Request
    → AutoParser
    → Result AutoParser
unfolding equal_response record_assertion prepare_expected_response_for_request
compare_response w http2 received none client p = ok p
compare_response w http2 received (some expected) none p = ok p
compare_response w http2 received (some expected) (some client) p = record_assertion p (
    equal_response w.parse_date false received
      (prepare_expected_response_for_request w http2 received client expected))

unfoldable pub check_expected_response :
    Surroundings → Bool → Response → AutoParser → Result AutoParser
unfolding compare_response int
check_expected_response w http2 received p = do
  status ← status_code received.status
  (if (leb_ℤ (pos 200) status && ltb_ℤ status (pos 300)) && is_checked p.client_request
      then compare_response w http2 received p.expected_response p.client_request p
      else ok p)

-- `except (ParseError, ValueError)`: the message is parsed again, without its body.
abbrev pub or_unparsed {ℓ} : {A : Type ℓ} → Result A → Result A → Result A
or_unparsed (ok a) again = ok a
or_unparsed (raise Error.value_error) again = again
or_unparsed (raise e) again = if is_parse_error e then again else raise e

-- `client.bind_addr or client.conn_addr`
abbrev pub address : Sender → Option Text
address c = elim c.bind_addr [
  | none ↦ some c.conn_addr
  | some a ↦ if is_empty a then some c.conn_addr else some a
]

-- What is done to the request that a client sends, to have the one that the server should get.
unfoldable pub expect_request : Surroundings → Sender → Request → Result Request
unfolding set_expected add_request_headers delete_all prepare_host_for_http1
    prepare_hop_by_hop_headers prepare_method cache_on_tempesta
expect_request w c r = do
  let marked = add_request_headers w.fw_version w.client_ip (address c) (set_expected 0 r.message)
  let m =
      if c.is_http2
      then marked
      else record marked { headers = delete_all marked.headers (codes "trailer") }
  hosted ← prepare_host_for_http1 (not c.is_http2) (record r { message = m })
  let hopless = record hosted { message = prepare_hop_by_hop_headers hosted.message }
  ok (prepare_method (cache_on_tempesta w.config) hopless)

unfoldable pub prepare_expected_request :
    Surroundings → Sender → Text → AutoParser → Result AutoParser
unfolding new_request expect_request
prepare_expected_request w c text p = do
  r ← or_unparsed (new_request true false text) (new_request false false text)
  expected ← expect_request w c r
  ok (record p { client_request = some r; expected_request = some expected })

-- What is done to the response that the server sends.
unfoldable pub expect_response : Surroundings → Response → Response
unfolding set_expected add_response_headers
expect_response w r =
    let marked = add_response_headers w.now (record r { message = set_expected 0 r.message }) in
    record marked {
      message = record (marked.message) {
        headers = record (marked.headers) { expected_time_delta = 30 };
      };
    }

unfoldable pub prepare_expected_response : Surroundings → Text → AutoParser → Result AutoParser
unfolding new_response expect_response
prepare_expected_response w text p = do
  let parse = λ (body_parsing : Bool).
      new_response w.fw_version (some (codes "GET")) body_parsing false text
  r ← or_unparsed (parse true) (parse false)
  ok (record p { expected_response = some (expect_response w r) })

-- The request that is built from the headers of an HTTP/2 request, and its cookies.
abbrev Building : Type 0
Building = Request × List Text

unfoldable pub convert_header : Header → Building → Building
unfolding add
convert_header (name, value) (r, cookies) =
    if same name (codes ":authority")
    then (
      record r { message = record (r.message) { headers = add r.headers (codes "host") value } },
      cookies,
    )
    else if same name (codes ":path")
    then (record r { uri = some value }, cookies)
    else if same name (codes ":method")
    then (record r { message = record (r.message) { method = some value } }, cookies)
    else if same name (codes ":scheme")
    then (record r { message = record (r.message) { version = codes "HTTP/1.1" } }, cookies)
    else if same name (codes "cookie")
    then (r, cookies ++ value ∷ [])
    else (record r { message = record (r.message) { headers = add r.headers name value } }, cookies)

unfoldable pub convert_headers : List Header → Building → Building
unfolding convert_header
convert_headers [] b = b
convert_headers (h ∷ l) b = convert_headers l (convert_header h b)

-- `:authority` and `host` are both there: the first one stays.
one_host : HeaderCollection → List Text → HeaderCollection
one_host headers (host ∷ other ∷ l) =
    set_item (delete_all headers (codes "host")) (codes "host") host
one_host headers _ = headers

one_cookie : HeaderCollection → List Text → HeaderCollection
one_cookie headers [] = headers
one_cookie headers (c ∷ l) = add headers (codes "cookie") (join (codes "; ") (c ∷ l))

own_length : HeaderCollection → Text → HeaderCollection
own_length headers [] = headers
own_length headers (c ∷ s) =
    add (delete_all headers (codes "content-length")) (codes "content-length")
      (to_base 10 (length (c ∷ s)))

-- The request of `create_request_from_list_or_tuple`, before it is printed; a list of headers has
-- no body.
unfoldable pub request_from_headers : List Header → Text → Request
unfolding convert_headers one_host one_cookie own_length find_all set_item delete_all add
request_from_headers headers body =
    let start = empty_request false in
    let built =
      convert_headers headers
        (record start { message = record (start.message) { body = body } }, []) in
    let r = built.0 in
    let hosts = find_all r.headers (codes "host") in
    record r {
      message = record (r.message) {
        headers = own_length (one_cookie (one_host r.headers hosts) built.1) body;
      };
    }

unfoldable pub create_request_from_list_or_tuple : List Header → Text → Result Text
unfolding request_from_headers show_request
create_request_from_list_or_tuple headers body = show_request (request_from_headers headers body)
