-- ===== src/External/Wrk.antt =====
-- `Wrk` of framework/services/wrk_client.py: its command, and what it reads of the program's output.
use tempesta_test.Base.{
  ℕ, zero, suc, leb, ◌||◌, ◌+◌, ◌≤◌, Bool, true, false, not, ◌&&◌, List, [], ◌∷◌, ◌++◌, Option,
  none, some, if◌then◌else◌, ◌==◌, ltb, is_empty, length, drop, Result, ok, raise, check, ◌>>◌,
  assertion_error, attribute_error, length-append, arith,
}
use tempesta_test.Text.{Text, same, codes, starts_with, to_base, is_space}
use tempesta_test.External.{BaseClient, form_command, Rate, printed}
use tempesta_test.Text.{span, digits, is_digit, number_of}

-- `threads` is `none` for -1.
pub record Wrk : Type 0 where
  pub client : BaseClient
  pub threads : Option ℕ
  pub timeout : ℕ
  pub script : Text

-- The threads that are kept: those asked for, or all of the node's, but no more than connections.
unfoldable pub bound_threads : ℕ → Wrk → ℕ
bound_threads max_threads w =
    let asked : ℕ = elim w.threads [ none ↦ max_threads | some n ↦ n ] in
    if ltb w.client.connections asked then w.client.connections else asked

abbrev with_option : Text → List Text → List Text
with_option option options = options ++ option ∷ []

-- `append_script_option`
abbrev pub script_options : Wrk → List Text
script_options w =
    if is_empty w.script
    then []
    else (codes "-s " ++ w.client.workdir ++ codes "/" ++ w.script) ∷ []

-- The options that each call of `form_command` appends.
unfoldable pub wrk_options : ℕ → Wrk → List Text
wrk_options threads w =
    (codes "-d " ++ to_base 10 w.client.duration)
    ∷ (codes "-t " ++ to_base 10 (if ltb 1 w.client.connections then threads else 1))
    ∷ (codes "-c " ++ to_base 10 w.client.connections)
    ∷ (codes "--timeout " ++ to_base 10 w.timeout)
    ∷ script_options w

-- `form_command`: the options stay in the client.
unfoldable pub form_wrk_command : ℕ → Wrk → Wrk × Text
unfolding bound_threads wrk_options form_command
form_wrk_command max_threads w =
    let threads = bound_threads max_threads w in
    let client = record (w.client) { options = w.client.options ++ wrk_options threads w } in
    (record w { client = client; threads = some threads }, form_command client)

-- Each call makes the options grow, so a client that is started again passes each option twice.
form_wrk_command-options :
    (max_threads : ℕ) (w : Wrk)
    → length w.client.options + 4 ≤ length (form_wrk_command max_threads w).0.client.options
unfolding form_wrk_command wrk_options
form_wrk_command-options max_threads w =
    omega (arith, length-append w.client.options (wrk_options _ w))

-- `re.search(literal + r"(\d+)", text)`: the number behind the first such place.
unfoldable pub number_after : Text → Text → Option ℕ
number_after literal [] = none
number_after literal (c ∷ s) =
    let found = (digits (drop (length literal) (c ∷ s))).0 in
    let rest = number_after literal s in
    if starts_with (c ∷ s) literal && not (is_empty found) then some (number_of found) else rest

-- `re.search(r"(\d+)" + literal, text)`, for a literal that starts with no digit.
unfoldable pub number_before : Text → Text → Option ℕ
number_before literal [] = none
number_before literal (c ∷ s) =
    let (found, after) = digits (c ∷ s) in
    let rest = number_before literal s in
    if not (is_empty found) && starts_with after literal then some (number_of found) else rest

-- `re.search(r"Requests\/sec:\s+(\d+)", text)`
unfoldable pub rate_in : Text → Option ℕ
rate_in [] = none
rate_in (c ∷ s) =
    let literal = codes "Requests/sec:" in
    let (spaces, after) = span is_space (drop (length literal) (c ∷ s)) in
    let found = (digits after).0 in
    let rest = rate_in s in
    if starts_with (c ∷ s) literal && (not (is_empty spaces) && not (is_empty found))
    then some (number_of found)
    else rest

-- A key of `statuses`.
pub data Key : Type 0 where
  status : ℕ → Key
  errors_of : Text → Key

abbrev same_key : Key → Key → Bool
same_key (status m) (status n) = m == n
same_key (errors_of s) (errors_of t) = same s t
same_key _ _ = false

unfoldable pub set_key : Key → ℕ → List (Key × ℕ) → List (Key × ℕ)
set_key k n [] = (k, n) ∷ []
set_key k n ((j, m) ∷ d) =
    let rest = set_key k n d in if same_key j k then (j, n) ∷ d else (j, m) ∷ rest

-- `re.findall(r"Status (\d{3}) : (\d+) times", text)`, each pair put into the statuses.
unfoldable pub statuses_in : Text → List (Key × ℕ) → List (Key × ℕ)
unfolding set_key
statuses_in [] d = d
statuses_in (c ∷ s) d =
    let (code, after_code) = digits (drop 7 (c ∷ s)) in
    let (amount, after_amount) = digits (drop 3 after_code) in
    let here =
      starts_with (c ∷ s) (codes "Status ")
      && ((length code == 3)
          && (starts_with after_code (codes " : ")
              && (not (is_empty amount) && starts_with after_amount (codes " times")))) in
    statuses_in s (if here then set_key (status (number_of code)) (number_of amount) d else d)

abbrev is_word_char : ℕ → Bool
is_word_char c =
    is_digit c || ((leb b'a' c && leb c b'z') || ((leb b'A' c && leb c b'Z') || (c == b'_')))

-- `\w+ (\d+)` at a place: the number, and what follows it.
unfoldable pub word_number : Text → Option (ℕ × Text)
word_number s =
    let (word, after_word) = span is_word_char s in
    let (found, after) = digits (drop 1 after_word) in
    if not (is_empty word) && (starts_with after_word (codes " ") && not (is_empty found))
    then some (number_of found, after)
    else none

-- As many as are counted, with a comma and a space between them.
unfoldable pub word_numbers : ℕ → Text → Option (List ℕ)
unfolding word_number
word_numbers zero s = some []
word_numbers (suc k) s = elim (word_number s) [
  | none ↦ none
  | some (n, after) ↦ elim ((k == 0) || starts_with after (codes ", ")) [
    | false ↦ none
    | true ↦ elim (word_numbers k (drop 2 after)) [ none ↦ none | some l ↦ some (n ∷ l) ]
  ]
]

unfoldable pub search_numbers : ℕ → Text → Option (List ℕ)
unfolding word_numbers
search_numbers k [] = none
search_numbers k (c ∷ s) = elim (word_numbers k (c ∷ s)) [
  | none ↦ search_numbers k s
  | some l ↦ some l
]

-- `re.search(r"(Socket errors:.+)", text)`
unfoldable pub socket_errors : Text → Option Text
socket_errors [] = none
socket_errors (c ∷ s) =
    let line = (span (λ d. not (d == 10)) (c ∷ s)).0 in
    let rest = socket_errors s in
    if starts_with (c ∷ s) (codes "Socket errors:") && ltb 14 (length line) then some line else rest

abbrev or_else {ℓ} : {A : Type ℓ} → Option A → A → A
or_else none a = a
or_else (some b) a = b

abbrev rate_or : Option ℕ → Rate → Rate
rate_or none r = r
rate_or (some n) r = printed n

-- The last part of `parse_out`: the four numbers of the line on socket errors.
unfoldable pub count_socket_errors :
    List ℕ → BaseClient × List (Key × ℕ) → Result (BaseClient × List (Key × ℕ))
unfolding set_key
count_socket_errors (connect ∷ read ∷ write ∷ timeout ∷ []) (c, d) = ok (
  record c { errors = c.errors + (connect + read + write + timeout) },
  set_key (errors_of (codes "timeout_error")) timeout (
      set_key (errors_of (codes "write_error")) write (
        set_key (errors_of (codes "read_error")) read
          (set_key (errors_of (codes "connect_error")) connect d))),
)
count_socket_errors l (c, d) = raise attribute_error

-- `parse_out`, with the class's `FAIL_ON_SOCK_ERR`, which is false.
unfoldable pub parse_wrk_out :
    Bool → Text → BaseClient × List (Key × ℕ) → Result (BaseClient × List (Key × ℕ))
unfolding number_before number_after rate_in statuses_in socket_errors search_numbers
    count_socket_errors
parse_wrk_out fail_on_sock_err stdout (c, d) =
    let read = record c {
      requests = or_else (number_before (codes " requests in ") stdout) c.requests;
      errors = or_else (number_after (codes "Non-2xx or 3xx responses: ") stdout) c.errors;
      rate = rate_or (rate_in stdout) c.rate;
    } in
    let known = statuses_in stdout d in
    elim (socket_errors stdout) [
      | none ↦ ok (read, known)
      | some line ↦
          check (not fail_on_sock_err) assertion_error
          >> count_socket_errors (or_else (search_numbers 4 line) []) (read, known)
    ]
