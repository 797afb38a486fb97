-- ===== src/External/Curl/Counting.antt =====
-- What curl's output does to the counters of the client: each response is counted under its status.
use tempesta_test.Base.{
  All, All-append, ℕ, suc, ◌+◌, ◌≡◌, refl, sym, ap, ◌∙◌, Bool, true, false, List, [], ◌∷◌, ◌++◌,
  Option, none, some, length, Result, ok, ◌>>=◌, Returns, >>=-Returns, >>=-Returns_of, check,
  plain_exception, if-Returns, if-Returns-true, if◌then◌else◌, Bool-cases, inl, inr, length-append,
  arith,
}
use tempesta_test.Text.{Text}
use tempesta_test.Headers.{Header}
use tempesta_test.External.Curl.{
  CurlClient, CurlResponse, Stats, same_status, count_status, take_dump, take_dumps, take_stats,
  parse_stats, parse_out, new_curl_response, is_expected, dumps_of, version_check,
}

abbrev pub total : List (Option ℕ × ℕ) → ℕ
total [] = 0
total ((s, n) ∷ d) = n + total d

total-count_status :
    (s : Option ℕ) (d : List (Option ℕ × ℕ)) → total (count_status s d) ≡ suc (total d)
unfolding count_status
total-count_status s [] = omega arith
total-count_status s ((t, n) ∷ d) = elim (Bool-cases (same_status t s)) [
  | inl found ↦ rw (found) (omega arith)
  | inr other ↦ rw (other) (omega (arith, total-count_status s d))
]

-- Each response is counted under one status, and has the version that was asked for.
pub record IsCounted (http2 : Bool) (c : CurlClient) : Type 0 where
  pub dumping : c.dump_headers ≡ true
  pub protocol : c.http2 ≡ http2
  pub counted : total c.statuses ≡ length c.responses
  pub expected : All (λ r. is_expected http2 r.proto ≡ true) c.responses

module _ (message_items : Text → List Header) (output stderr : Text) (http2 : Bool) where
  take_dump-IsCounted :
      (dump : Text) (c : CurlClient)
      → IsCounted http2 c
      → Returns (IsCounted http2) (take_dump message_items output stderr dump c)
  unfolding take_dump
  take_dump-IsCounted dump c v =
      >>=-Returns (IsCounted http2) (new_curl_response message_items dump output stderr) _
        (λ r. checked r (is_expected c.http2 r.proto) refl)
    where
      checked :
          (r : CurlResponse) (b : Bool)
          → is_expected c.http2 r.proto ≡ b
          → Returns (IsCounted http2) (
              check b plain_exception >>= λ u. ok (record c {
                responses = c.responses ++ r ∷ [];
                statuses = count_status r.status c.statuses;
              }))
      checked r true h = record {
        dumping = v.dumping;
        protocol = v.protocol;
        counted = omega (
          arith,
          v.counted,
          total-count_status r.status c.statuses,
          length-append c.responses (r ∷ []),
        );
        expected =
            All-append _ c.responses r v.expected
              (ap (λ b. is_expected b r.proto) (sym v.protocol) ∙ h);
      }
      checked r false h = tt

  take_dumps-IsCounted :
      (l : List Text) (c : CurlClient)
      → IsCounted http2 c
      → Returns (IsCounted http2) (take_dumps message_items output stderr l c)
  unfolding take_dumps
  take_dumps-IsCounted [] c v = v
  take_dumps-IsCounted (dump ∷ l) c v =
      >>=-Returns_of (IsCounted http2) (IsCounted http2)
        (take_dump message_items output stderr dump c) _ (take_dump-IsCounted dump c v)
        (λ d w. take_dumps-IsCounted l d w)

  parse_stats-IsCounted :
      (version : Text) (loaded : Option (List Stats)) (c : CurlClient)
      → IsCounted http2 c
      → Returns (IsCounted http2) (parse_stats version stderr loaded c)
  unfolding parse_stats
  parse_stats-IsCounted version none c v = v
  parse_stats-IsCounted version (some l) c v =
      >>=-Returns_of (IsCounted http2) (IsCounted http2)
        (if c.dump_headers
          then ok (record c { stats = l })
          else take_stats l (record c { stats = l }))
        _ (if-Returns-true (IsCounted http2) c.dump_headers _ _ v.dumping (with_stats v))
        (λ d w. >>=-Returns (IsCounted http2) (version_check version stderr l) (λ u. ok d) (λ u. w))
    where
      with_stats : IsCounted http2 c → IsCounted http2 (record c { stats = l })
      with_stats w = record {
        dumping = w.dumping;
        protocol = w.protocol;
        counted = w.counted;
        expected = w.expected;
      }

-- If a curl client dumps headers, has the counts of its statuses add up to the number of its
-- responses, and each response with a version has one that was asked for, then all this holds
-- again if `parse_out` returns, whatever the dump, the output and the statistics are.
pub parse_out-IsCounted :
    (message_items : Text → List Header) (load : Text → Option (List Stats)) (version : Text)
    (headers_dump : Result Text) (output : Option Text) (stdout stderr : Text) (http2 : Bool)
    (c : CurlClient)
    → IsCounted http2 c
    → Returns
        (IsCounted http2)
        (parse_out message_items load version headers_dump output stdout stderr c)
unfolding parse_out
parse_out-IsCounted message_items load version headers_dump output stdout stderr http2 c v =
    >>=-Returns_of (IsCounted http2) (IsCounted http2) (if c.dump_headers then _ else ok c) _
      (if-Returns-true (IsCounted http2) c.dump_headers _ _ v.dumping (
        >>=-Returns (IsCounted http2) headers_dump _
          (λ dump. take_dumps-IsCounted message_items _ stderr http2 (dumps_of dump) c v)))
      (λ d w.
        if-Returns (IsCounted http2) _ _ (ok d)
          (parse_stats-IsCounted message_items [] stderr http2 version (load stdout) d w) w)
