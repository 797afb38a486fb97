-- ===== src/Tests/Messages.antt =====
-- Tests of framework/deproxy/deproxy_message.py: headers, their comparison, and bodies.
use tempesta_test.Base.{
  ◌<◌, ◌≤◌, ◌≡◌, ◌≢◌, refl, true, false, [], ◌∷◌, ◌++◌, some, Result, ok, raise, no_fuel,
  ℕ_discrete, value_error, assertion_error,
}
use mathlib.Core.Bool.{xor}
use tempesta_test.Base.Int.{ℤ}
use tempesta_test.Text.{Text, Text-discrete, codes}
use tempesta_test.Headers.{
  HeaderCollection, no_headers, get_item, delete_all, from_stream, crlf, from_stream-IsFueled, show,
  equal, set_expected, equal_comm,
}
use tempesta_test.Headers.RoundTrip.{IsPrintable, from_stream-show}
use tempesta_test.Message.Termination.{new_request-IsFueled}
use tempesta_test.Message.Lengths.{new_request-original_length}
use tempesta_test.Message.{
  Request, new_message, new_request, read_chunks, read_chunks-append, read_chunked_body,
  read_chunked_body-IsFueled, read_sized_body, chunk_size_of, read_chunk,
}

abbrev two_headers : HeaderCollection
two_headers = record {
  headers = (codes "Host", codes "a.com") ∷ (codes "Age", codes "12") ∷ [];
  is_expected = false;
  expected_time_delta = 0;
}

host-IsPrintable : IsPrintable (codes "Host", codes "a.com")
host-IsPrintable = record {
  name_no_colon = refl;
  name_no_newline = refl;
  name_stripped = refl;
  name_no_blank = refl;
  value_no_newline = refl;
  value_stripped = refl;
}

age-IsPrintable : IsPrintable (codes "Age", codes "12")
age-IsPrintable = record {
  name_no_colon = refl;
  name_no_newline = refl;
  name_stripped = refl;
  name_no_blank = refl;
  value_no_newline = refl;
  value_stripped = refl;
}

from_stream-show_example :
    from_stream false false (show two_headers ++ (crlf ++ codes "body"))
    ≡ ok (record no_headers { headers = two_headers.headers }, codes "body")
from_stream-show_example =
    from_stream-show false two_headers (codes "body") (host-IsPrintable, (age-IsPrintable, tt))

from_stream-IsFueled_example : from_stream false true (codes ":path: /\r\n\r\n") ≢ raise no_fuel
from_stream-IsFueled_example = from_stream-IsFueled false true (codes ":path: /\r\n\r\n")

abbrev no_dates : Text → Result ℤ
no_dates s = raise value_error

equal_comm_example :
    equal no_dates false two_headers (set_expected two_headers 0)
    ≡ equal no_dates false (set_expected two_headers 0) two_headers
equal_comm_example = equal_comm no_dates false two_headers (set_expected two_headers 0)

abbrev one_chunk : Text
one_chunk = codes "3\r\nabc\r\n0\r\n\r\n"

read_one_chunk : read_chunks 9 [] one_chunk ≡ ok (codes "3\r\nabc\r\n0\r\n", codes "\r\n")
unfolding read_chunks chunk_size_of read_chunk
read_one_chunk = refl

read_chunks-append_example : codes "3\r\nabc\r\n0\r\n" ++ codes "\r\n" ≡ [] ++ one_chunk
read_chunks-append_example =
    read_chunks-append 9 [] one_chunk (codes "3\r\nabc\r\n0\r\n", codes "\r\n") read_one_chunk

read_chunked_body-IsFueled_example : read_chunked_body one_chunk ≢ raise no_fuel
read_chunked_body-IsFueled_example = read_chunked_body-IsFueled one_chunk

new_request-IsFueled_example :
    new_request true false (codes "\r\nGET / HTTP/1.1\r\n\r\n") ≢ raise no_fuel
new_request-IsFueled_example = new_request-IsFueled true false (codes "\r\nGET / HTTP/1.1\r\n\r\n")

-- What follows the request is left.
abbrev get_slash : Request
get_slash = record {
  message = record (new_message (some (codes "GET")) false) {
    original_length = 18;
    version = codes "HTTP/1.1";
  };
  uri = some (codes "/");
}

parse_get_slash : new_request true false (codes "GET / HTTP/1.1\r\n\r\nGET") ≡ ok get_slash
unfolding new_request Text-discrete ℕ_discrete
parse_get_slash = refl

new_request-original_length_example : (0 < 18) × (18 ≤ 21)
new_request-original_length_example =
    new_request-original_length true false (codes "GET / HTTP/1.1\r\n\r\nGET") get_slash refl
      parse_get_slash

abbrev length_two : HeaderCollection
length_two = record {
  headers = (codes "content-length", codes "2") ∷ [];
  is_expected = false;
  expected_time_delta = 0;
}

read_two : read_sized_body length_two (codes "abGET") ≡ ok (codes "ab", no_headers, codes "GET")
unfolding read_sized_body Text-discrete ℕ_discrete
read_two = refl

-- A header is found under another spelling of its name.
get_item_other_case : get_item two_headers (codes "AGE") ≡ some (codes "12")
unfolding get_item Text-discrete ℕ_discrete
get_item_other_case = refl

-- A missing header is a difference.
equal_other_value :
    equal no_dates false (set_expected two_headers 0) (delete_all two_headers (codes "host"))
    ≡ raise assertion_error
unfolding equal set_expected delete_all Text-discrete ℕ_discrete xor
equal_other_value = refl
