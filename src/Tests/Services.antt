-- ===== src/Tests/Services.antt =====
-- Tests of framework/services and framework/helpers.
use tempesta_test.Base.{
  ℕ, zero, suc, ◌+◌, ◌≡◌, refl, Bool, true, false, ◌&&◌, List, [], ◌∷◌, ◌++◌, none, some, ok,
  value_error, arith, any_of, ℕ_discrete,
}
use tempesta_test.Base.Int.{pos}
use tempesta_test.Text.{Text, Text-discrete, codes}
use tempesta_test.Stateful.{State, Service, Procedure, force_stop}
use tempesta_test.Stateful.Laws.{force_stop-append}
use tempesta_test.Wait.{World, wait_until, wait_until_event}
use tempesta_test.Wait.Laws.{Ends, IsOver, IsExpired, wait_until-Ends, wait_until_event-Ends}
use tempesta_test.Chunked.{encode_chunked, decode_chunked}
use tempesta_test.Chunked.RoundTrip.{decode_chunked-encode_chunked}
use tempesta_test.Helpers.Analyzer.{
  Packet, Analyzer, has_fin, has_rst, portcmp, check_results, check_results-Seen,
}
use tempesta_test.Helpers.Memory.{MemoryStats, Sample}
use tempesta_test.Helpers.AccessLog.{AccessLogLine, Filters, records_filter}
use tempesta_test.Config.Groups.{
  ServerGroup, DistinctNames, server_line, add_server, add_sg, find_sg,
}

-- A procedure that counts its calls and raises, and one that counts only.
abbrev failing : Procedure ℕ
failing n = (n + 1, some value_error)

abbrev counting : Procedure ℕ
counting n = (n + 1, none)

abbrev service : Service ℕ
service = record { state = State.started; exceptions = []; world = 0 }

force_stop-append_example :
    (force_stop ((failing ∷ []) ++ counting ∷ []) service).state ≡ State.stopped
force_stop-append_example = force_stop-append (failing ∷ []) counting service refl

-- The condition holds for two rounds, and a round takes a tick.
abbrev two_rounds : World
two_rounds k = record {
  waiting = waits k;
  now = 10 + k;
  aborted = false;
  still_waiting = waits k;
  fired = true;
}
  where
    waits : ℕ → Bool
    waits zero = true
    waits (suc zero) = true
    waits (suc (suc k)) = false

wait_until-Ends_example :
    Ends (IsOver two_rounds 10 5) two_rounds 0 (wait_until 7 two_rounds 10 5 0)
wait_until-Ends_example =
    wait_until-Ends two_rounds 10 5 (λ j. omega arith) 7 0 (omega arith) (omega arith)

wait_until_event-Ends_example :
    Ends (IsExpired two_rounds 10 5) two_rounds 0 (wait_until_event 6 two_rounds 10 5 0)
wait_until_event-Ends_example =
    wait_until_event-Ends two_rounds 10 5 (λ j. omega arith) 6 0 (omega arith) (omega arith)

decode_chunked-encode_chunked_example :
    (t : Text) × (encode_chunked (some (codes "abcde")) 2 ≡ ok t)
    × (decode_chunked (some t) ≡ ok (some (codes "abcde")))
decode_chunked-encode_chunked_example =
    decode_chunked-encode_chunked (codes "abcde") 2 (omega arith) refl

-- FIN from port 80, its ACK, FIN from the other side, and its ACK.
abbrev packet : ℕ → ℕ → ℕ → ℕ → ℕ → Packet
packet flags sport dport seq ack = record {
  flags = flags;
  sport = sport;
  dport = dport;
  seq = seq;
  ack = ack;
  ip_len = 40;
  ihl = 5;
  dataofs = 5;
}

abbrev four_way : List Packet
four_way =
    packet 1 80 99 100 0 ∷ packet 16 99 80 0 101 ∷ packet 1 99 80 200 0 ∷ packet 16 80 99 0 201 ∷ []

abbrev analyzer : Analyzer
analyzer = record { port = 80; node_side_close = true }

check_four_way : check_results analyzer four_way ≡ true
unfolding check_results
check_four_way = refl

check_results-Seen_example :
    (any_of has_rst four_way ≡ false)
    × (any_of (λ p. has_fin p && portcmp analyzer false p) four_way ≡ true)
    × (any_of (λ p. has_fin p && portcmp analyzer true p) four_way ≡ true)
check_results-Seen_example = check_results-Seen analyzer four_way check_four_way

-- No python process is measured, and the memory stays 50 KB above the first measurement.
abbrev sample : ℕ → Sample
sample k = (pos 150, none)

abbrev stats : MemoryStats
stats = record {
  system_memory_first = pos 100;
  python_memory_first = none;
  system_memory_second = none;
  python_memory_second = none;
  delta_python = pos 0;
  memory_leak_threshold = pos 20;
  memory_consumption = pos 0;
}

abbrev log_line : ℕ → AccessLogLine
log_line status = record {
  address = codes "10.0.0.1";
  vhost = codes "default";
  method = codes "GET";
  uri = codes "/";
  version = codes "2.0";
  status = status;
  response_content_length = 0;
  referer = codes "-";
  user_agent = codes "-";
  tft = codes "0";
  tfh = codes "0";
  timestamp = none;
  dropped_events = none;
  response_time = some 3;
}

abbrev only_404 : Filters
only_404 = record {
  address = none;
  vhost = none;
  method = some (codes "GET");
  uri = none;
  version = none;
  status = some 404;
  content_length = none;
  referer = none;
  user_agent = none;
  tft = none;
  tfh = none;
  timestamp = none;
  dropped_events = none;
  response_time = none;
}

keep_404 : records_filter only_404 (log_line 200 ∷ log_line 404 ∷ []) ≡ log_line 404 ∷ []
unfolding records_filter tempesta_test.Helpers.AccessLog.rejects Text-discrete ℕ_discrete
    tempesta_test.Helpers.AccessLog.rejects_number tempesta_test.Helpers.AccessLog.rejects_optional
keep_404 = refl

abbrev group : Text → ServerGroup
group name = record {
  name = name;
  hm = some (codes "h");
  implicit = false;
  sched = codes "ratio";
  servers = [];
  options = [];
}

abbrev one_server : ServerGroup
one_server = record (group (codes "a")) { servers = server_line (codes "10.0.0.3") 8000 32 ∷ [] }

add_one : add_server (codes "10.0.0.3") 8000 32 (group (codes "a")) ≡ ok one_server
unfolding add_server
add_one = refl

abbrev two_groups : List ServerGroup
two_groups = group (codes "a") ∷ group (codes "b") ∷ []

one-DistinctNames : DistinctNames (group (codes "a") ∷ [])
unfolding find_sg
one-DistinctNames = (refl, tt)

add_b : add_sg (group (codes "b")) (group (codes "a") ∷ []) ≡ ok two_groups
unfolding add_sg Text-discrete ℕ_discrete
add_b = refl
