-- ===== src/Tests/Proxy.antt =====
-- Tests of framework/deproxy/deproxy_auto_parser.py.
use tempesta_test.Base.{◌≡◌, refl, true, false, [], ◌∷◌, some, raise, All, ℕ_discrete, value_error}
use tempesta_test.Text.{Text-discrete, codes}
use tempesta_test.Headers.{find_all, no_headers}
use tempesta_test.Message.{HttpMessage, new_message}
use tempesta_test.AutoParser.{
  Surroundings, adapt_response, hop_by_hop, prepare_hop_by_hop_headers, prepare_body_for_head,
  add_content_length, encode_response, uncache, strip_response,
}
use tempesta_test.AutoParser.Proxying.{adapt_response-hop_by_hop}

abbrev surroundings : Surroundings
surroundings = record {
  fw_version = codes "0.8";
  client_ip = codes "10.0.0.1";
  config = codes "cache 0;";
  auto_parser = true;
  now = codes "Thu, 01 Jan 2026 00:00:00 GMT";
  parse_date = λ s. raise value_error;
  decode = λ s. s;
}

-- A message with a header that a proxy drops and one that it keeps.
abbrev kept_alive : HttpMessage
kept_alive = record (new_message (some (codes "GET")) false) {
  headers = record no_headers {
    headers = (codes "Keep-Alive", codes "timeout=5") ∷ (codes "Server", codes "x") ∷ [];
  };
  body = codes "abc";
}

adapt_response-hop_by_hop_example :
    All
      (λ j.
        find_all (adapt_response false false false (some (codes "200")) kept_alive).headers j ≡ [])
      (codes "trailer" ∷ hop_by_hop)
adapt_response-hop_by_hop_example =
    adapt_response-hop_by_hop false false false (some (codes "200")) kept_alive

-- The content of a response that lost its length gets one.
adapt_response_adds_length :
    find_all
      (adapt_response false false false (some (codes "200")) kept_alive).headers
      (codes "content-length")
    ≡ codes "3" ∷ []
unfolding adapt_response Text-discrete ℕ_discrete find_all prepare_body_for_head add_content_length
    encode_response uncache strip_response prepare_hop_by_hop_headers
adapt_response_adds_length = refl
