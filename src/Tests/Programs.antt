-- ===== src/Tests/Programs.antt =====
-- Tests of the external clients of framework/services, of `fill_template` of framework/helpers/util.py,
-- and of header collections as multimaps.
use tempesta_test.Base.{
  ◌≡◌, ◌↔◌, refl, true, false, List, [], ◌∷◌, Option, none, some, ok, ◌>>=◌, Returns, ℕ_discrete,
}
use tempesta_test.Text.{Text, Text-discrete, codes}
use tempesta_test.Headers.{Header, HeaderCollection, find_all}
use tempesta_test.Headers.Multimap.{multimap, multimap_iff}
use tempesta_test.Template.{
  Properties, Piece, words, place, fill_template, substitute, property, written, meant,
  fill_template-written,
}
use tempesta_test.External.Curl.{CurlClient, Stats, parse_out, match_line, parse_binary_version}
use tempesta_test.External.Curl.Counting.{IsCounted, parse_out-IsCounted}
use tempesta_test.External.Wrk.{number_before, rate_in}

abbrev properties : Properties
properties = (codes "port", codes "8000") ∷ (codes "server_ip", codes "127.0.0.3") ∷ []

abbrev pieces : List Piece
pieces =
    words (codes "cost $1 at ")
    ∷ place (codes "server_ip")
    ∷ words (codes ":")
    ∷ place (codes "port")
    ∷ []

fill_template-written_example :
    fill_template (some (written pieces)) properties
    ≡ (meant properties pieces >>= λ s. ok (some s))
fill_template-written_example = fill_template-written properties pieces (
  (refl, (refl, (refl, (refl, (refl, (refl, (refl, (refl, (refl, tt))))))))),
  ((refl, (refl, (refl, (refl, tt)))), tt),
)

filled_text :
    fill_template (some (codes "a$$b $port${port}")) properties ≡ ok (some (codes "a$b 80008000"))
unfolding fill_template substitute property Text-discrete ℕ_discrete
filled_text = refl

-- The same fields, in another order and spelling.
abbrev mixed : HeaderCollection
mixed = record {
  headers =
      (codes "Via", codes "a") ∷ (codes "Host", codes "localhost") ∷ (codes "via", codes "b") ∷ [];
  expected_time_delta = 0;
  is_expected = false;
}

abbrev ordered : HeaderCollection
ordered = record {
  headers =
      (codes "host", codes "localhost") ∷ (codes "Via", codes "a") ∷ (codes "VIA", codes "b") ∷ [];
  expected_time_delta = 0;
  is_expected = false;
}

multimap_iff_example :
    (multimap mixed ≡ multimap ordered)
    ↔ ((name : Text) → find_all mixed name ≡ find_all ordered name)
multimap_iff_example = multimap_iff mixed ordered

abbrev curl : CurlClient
curl = record {
  dump_headers = true;
  disable_output = false;
  http2 = false;
  responses = [];
  stats = [];
  statuses = [];
}

abbrev items : Text → List Header
items text = (codes "Content-Length", codes "0") ∷ []

abbrev loaded : Text → Option (List Stats)
loaded text = some (
    record {
      response_code = 200;
      http_version = codes "1.1";
      curl_version = codes "libcurl/7.85.0-DEV OpenSSL/1.1.1f";
      errormsg = none;
    }
    ∷ [])

parse_out-IsCounted_example : Returns (IsCounted false) (
    parse_out items loaded
      (codes "7.85.0")
      (ok (codes "HTTP/1.1 200 OK\r\nContent-Length: 0\r\n\r\n"))
      none
      (codes "{}")
      []
      curl)
parse_out-IsCounted_example =
    parse_out-IsCounted items loaded (codes "7.85.0")
      (ok (codes "HTTP/1.1 200 OK\r\nContent-Length: 0\r\n\r\n")) none (codes "{}") [] false curl
      (record { dumping = refl; protocol = refl; counted = refl; expected = tt })

version_of_curl :
    parse_binary_version (codes "libcurl/7.85.0-DEV OpenSSL/1.1.1f") ≡ ok (codes "7.85.0")
unfolding parse_binary_version
version_of_curl = refl

status_line : match_line (codes "HTTP/1.1 404 Not Found") ≡ some (codes "1.1", 404)
unfolding match_line
status_line = refl

number_of_requests :
    number_before (codes " requests in ") (codes "  1234 requests in 10.00s") ≡ some 1234
unfolding number_before
number_of_requests = refl

rate_of_requests : rate_in (codes "Requests/sec:   117.50") ≡ some 117
unfolding rate_in
rate_of_requests = refl
