-- ===== src/External/Curl.antt =====
-- `CurlClient` of framework/services/curl_client.py: its command, and what it makes of curl's output.
-- Parameters: `email.message_from_file`, `json.loads`, and the files that curl writes.
pub mod Counting
pub mod Command
use tempesta_test.Base.{
  ℕ, ◌+◌, Bool, true, false, not, ◌&&◌, ◌||◌, List, [], ◌∷◌, ◌++◌, map, Option, none, some,
  if◌then◌else◌, ◌==◌, leb, is_empty, get_last?, Result, ok, raise, ◌>>=◌, ◌>>◌, check,
  attribute_error, plain_exception, framework_error, index_error, length, max, keep, drop,
}
use tempesta_test.Text.{
  Text, codes, same, one_of, lower, join, split_on, split_char, split_space, starts_with, is_in,
}
use tempesta_test.Headers.{Header}
use tempesta_test.Text.{span, digits, number_of}

-- `CurlResponse`; the last three fields are unset if the dump has no end of line.
pub record CurlResponse : Type 0 where
  pub headers_dump : Text
  pub stdout_raw : Text
  pub stderr_raw : Text
  pub status : Option ℕ
  pub proto : Option Text
  pub multi_headers : List (Text × List Text)

-- `self._multi_headers[k].append(v)`
unfoldable pub add_value : Text → Text → List (Text × List Text) → List (Text × List Text)
add_value k v [] = (k, v ∷ []) ∷ []
add_value k v ((j, values) ∷ d) =
    let rest = add_value k v d in if same j k then (j, values ++ v ∷ []) ∷ d else (j, values) ∷ rest

unfoldable pub multi_headers_of : List Header → List (Text × List Text) → List (Text × List Text)
unfolding add_value
multi_headers_of [] d = d
multi_headers_of ((k, v) ∷ l) d = multi_headers_of l (add_value (lower k) v d)

-- `headers`: the last value of each name.
unfoldable pub last_values : List (Text × List Text) → List (Text × Option Text)
last_values d = map (λ e. (e.0, get_last? e.1)) d

abbrev is_proto_char : ℕ → Bool
is_proto_char c = (c == b'.') || (c == b'0') || (c == b'1') || (c == b'2')

-- `re.match(r"HTTP/([.012]+) (\d+)", response_line)`: the two groups.
unfoldable pub match_line : Text → Option (Text × ℕ)
match_line line =
    let (proto, rest) = span is_proto_char (drop 5 line) in
    let code = (digits (drop 1 rest)).0 in
    if starts_with line (codes "HTTP/")
      && (starts_with rest (codes " ") && (not (is_empty proto) && not (is_empty code)))
    then some (proto, number_of code)
    else none

-- `split("\r\n", 1)` into two parts.
unfoldable pub cut_line : Text → Option (Text × Text)
cut_line [] = none
cut_line (c ∷ s) =
    let rest = cut_line s in
    if starts_with (c ∷ s) (codes "\r\n")
    then some ([], drop 1 s)
    else (elim rest [ none ↦ none | some (line, headers) ↦ some (c ∷ line, headers) ])

-- `__post_init__`, where `message_items` gives the headers of a text.
unfoldable pub new_curl_response : (Text → List Header) → Text → Text → Text → Result CurlResponse
unfolding cut_line match_line multi_headers_of
new_curl_response message_items dump stdout stderr =
    let unset : CurlResponse = record {
      headers_dump = dump;
      stdout_raw = stdout;
      stderr_raw = stderr;
      status = none;
      proto = none;
      multi_headers = [];
    } in
    elim (cut_line dump) [
      | none ↦ ok unset
      | some (line, headers) ↦ elim (match_line line) [
        | none ↦ raise attribute_error
        | some (proto, status) ↦ ok (record unset {
          status = some status;
          proto = some proto;
          multi_headers = multi_headers_of (message_items headers) [];
        })
      ]
    ]

-- The statistics of a transfer, as far as they are read.
pub record Stats : Type 0 where
  pub response_code : ℕ
  pub http_version : Text
  pub curl_version : Text
  pub errormsg : Option Text

pub record CurlClient : Type 0 where
  pub dump_headers : Bool
  pub disable_output : Bool
  pub http2 : Bool
  pub responses : List CurlResponse
  pub stats : List Stats
  pub statuses : List (Option ℕ × ℕ)

unfoldable pub clear_curl_stats : CurlClient → CurlClient
clear_curl_stats c = record c { responses = []; stats = []; statuses = [] }

-- `requests`
unfoldable pub requests : CurlClient → ℕ
requests c = max (length c.stats) (length c.responses)

abbrev pub same_status : Option ℕ → Option ℕ → Bool
same_status none none = true
same_status (some m) (some n) = m == n
same_status _ _ = false

-- `self._statuses[status] += 1`
unfoldable pub count_status : Option ℕ → List (Option ℕ × ℕ) → List (Option ℕ × ℕ)
count_status s [] = (s, 1) ∷ []
count_status s ((t, n) ∷ d) =
    let rest = count_status s d in if same_status t s then (t, n + 1) ∷ d else (t, n) ∷ rest

-- The counts of the statistics, as `statuses_from_stats` has them.
unfoldable pub count_stats : List Stats → List (Option ℕ × ℕ) → List (Option ℕ × ℕ)
unfolding count_status
count_stats [] d = d
count_stats (s ∷ l) d = count_stats l (count_status (some s.response_code) d)

unfoldable pub statuses_from_stats : CurlClient → List (Option ℕ × ℕ)
unfolding count_stats
statuses_from_stats c = count_stats c.stats []

abbrev is_reset : Stats → Bool
is_reset s =
    (elim s.errormsg [ none ↦ false | some e ↦ is_in (codes "Connection reset by peer") e ])
    && (s.response_code == 0)

unfoldable pub reset_conn_n : CurlClient → ℕ
reset_conn_n c = length (keep is_reset c.stats)

abbrev pub expected_proto : Bool → List Text
expected_proto true = codes "2" ∷ []
expected_proto false = codes "1.0" ∷ codes "1.1" ∷ []

abbrev pub is_expected : Bool → Option Text → Bool
is_expected http2 none = true
is_expected http2 (some proto) = one_of proto (expected_proto http2)

-- A round of the loop over the dumps.
unfoldable pub take_dump :
    (Text → List Header) → Text → Text → Text → CurlClient → Result CurlClient
unfolding new_curl_response count_status
take_dump message_items output stderr dump c = do
  r ← new_curl_response message_items dump output stderr
  check (is_expected c.http2 r.proto) plain_exception
      >> ok (record c {
        responses = c.responses ++ r ∷ [];
        statuses = count_status r.status c.statuses;
      })

unfoldable pub take_dumps :
    (Text → List Header) → Text → Text → List Text → CurlClient → Result CurlClient
take_dumps message_items output stderr [] c = ok c
take_dumps message_items output stderr (dump ∷ l) c =
    take_dump message_items output stderr dump c >>= λ d. take_dumps message_items output stderr l d

-- `filter(None, dump.split(b"\r\n\r\n"))`
abbrev pub dumps_of : Text → List Text
dumps_of dump = keep (λ s. not (is_empty s)) (split_on (codes "\r\n\r\n") dump)

-- The loop over the statistics. The message of the exception reads `response.proto` of a dict.
abbrev is_expected_version : Bool → Text → Bool
is_expected_version http2 version =
    is_empty version
    || (if http2 then is_in version (codes "2") else one_of version (expected_proto false))

unfoldable pub take_stats : List Stats → CurlClient → Result CurlClient
unfolding count_status
take_stats [] c = ok c
take_stats (s ∷ l) c =
    check (is_expected_version c.http2 s.http_version) attribute_error
    >> take_stats l (record c { statuses = count_status (some s.response_code) c.statuses })

abbrev first_part : List Text → Result Text
first_part [] = raise index_error
first_part (a ∷ l) = ok a

abbrev second_part : List Text → Result Text
second_part [] = raise index_error
second_part (a ∷ []) = raise index_error
second_part (a ∷ b ∷ l) = ok b

-- `_parse_binary_version`
unfoldable pub parse_binary_version : Text → Result Text
parse_binary_version version = do
  word ← first_part (split_space version)
  number ← second_part (split_char b'/' word)
  first_part (split_char b'-' number)

-- `_check_binary_version`, with the expected version; without statistics there is none.
unfoldable pub check_binary_version : Text → List Stats → Result (Unit {0})
unfolding parse_binary_version
check_binary_version expected stats = elim (get_last? stats) [
  | none ↦ raise framework_error
  | some s ↦ parse_binary_version s.curl_version >>= λ version.
      check (not (is_empty version) && same version expected) framework_error
]

unfoldable pub version_check : Text → Text → List Stats → Result (Unit {0})
unfolding check_binary_version
version_check expected stderr l =
    if not (is_empty l) || is_in (codes "unknown --write-out variable: 'json'") stderr
    then check_binary_version expected l
    else ok tt

-- The end of `parse_out`: `loaded` is what `_parse_stats` gives, `none` where it raises
-- `JSONDecodeError`.
unfoldable pub parse_stats : Text → Text → Option (List Stats) → CurlClient → Result CurlClient
unfolding take_stats version_check
parse_stats expected stderr none c = ok c
parse_stats expected stderr (some l) c = do
  let kept = record c { stats = l }
  d ← (if c.dump_headers then ok kept else take_stats l kept)
  version_check expected stderr l >> ok d

-- `parse_out`, with what the file of dumped headers gives and the file of the output, if it is there.
unfoldable pub parse_out :
    (Text → List Header)
    → (Text → Option (List Stats))
    → Text
    → Result Text
    → Option Text
    → Text
    → Text
    → CurlClient
    → Result CurlClient
unfolding take_dumps parse_stats
parse_out message_items load expected headers_dump output stdout stderr c = do
  let raw = if c.disable_output then [] else (elim output [ none ↦ [] | some s ↦ s ])
  d ←
      (if c.dump_headers
        then (headers_dump >>= λ dump. take_dumps message_items raw stderr (dumps_of dump) c)
        else ok c)
  (if not d.disable_output && not (is_empty stdout)
      then parse_stats expected stderr (load stdout) d
      else ok d)
