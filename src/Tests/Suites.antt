-- ===== src/Tests/Suites.antt =====
-- Tests of framework/test_suite/tester.py and of the statistics and the configuration of
-- framework/services/tempesta.py.
use tempesta_test.Base.{
  ◌⊎◌, ◌≡◌, refl, true, false, ◌&&◌, [], ◌∷◌, ◌++◌, map, none, some, All, is_empty, ok, ℕ_discrete,
}
use tempesta_test.Base.Int.{pos, negsuc}
use tempesta_test.Text.{Text-discrete, codes, is_in, one_of, to_base}
use tempesta_test.Stateful.{Service, State, stop}
use tempesta_test.AutoParser.{AutoParser, check_exceptions}
use tempesta_test.Suite.{
  Suite, Runner, Outside, do_cleanups, added_cleanups, stop_runner, get_all_services, errors_of,
  bad_words, cleanup_tasks, cleanup_services, cleanup_deproxy, cleanup_interfaces,
  cleanup_stop_tcpdump, cleanup_check_dmesg, cleanup_check_exceptions, cleanup_deproxy_auto_parser,
  cleanup_check_memory_leaks, gather_exceptions, put_exceptions, get_clients, get_servers,
}
use tempesta_test.Suite.Laws.{do_cleanups-stops, do_cleanups-finds, left_aliases, AreCleared}
use tempesta_test.Config.Stats.{parse_option, search_option, match_here, server_health}
use tempesta_test.Config.Parse.{entries, entry, splitlines, lines_from, get_last}

abbrev service : Service (Unit {0})
service = record { state = State.stopped; exceptions = []; world = tt }

abbrev runner : Runner (Unit {0})
runner = record {
  name = codes "Tempesta(host)";
  clear_stats = λ u. (u, none);
  stop_procedures = [];
  service = service;
}

abbrev suite : Suite (Unit {0})
suite = record {
  tempesta = some runner;
  clients = (codes "deproxy", runner) ∷ [];
  servers = [];
  deproxy_manager = some runner;
  exceptions = [];
  tasks = record { is_started = true; stop_event = false } ∷ [];
  joined = [];
  sockets = codes "server" ∷ [];
  ips = codes "10.0.0.3" ∷ [];
  aliases = codes "10.0.0.1" ∷ codes "10.0.0.3" ∷ [];
  tcpdump = true;
  oops_ignore = codes "WARNING" ∷ [];
  dmesg = some [];
  auto_parser = some (record {
    expected_response = none;
    expected_request = none;
    client_request = none;
    parsing = true;
    exceptions = [];
  });
}

-- A clean-up in which removing the alias fails.
abbrev troubled : Outside
troubled = record {
  networker = none;
  removes = λ ip. false;
  save_tcpdump = true;
  log = codes "BUG: x";
  memory_check = none;
}

suite-AreCleared : AreCleared suite
unfolding get_all_services get_clients get_servers stop_runner
suite-AreCleared = (refl, (refl, (refl, tt)))

do_cleanups-stops_example :
    let d = (do_cleanups (added_cleanups troubled) suite).0 in
    (d.tempesta ≡ none)
    × (d.clients ≡ [])
    × (d.servers ≡ [])
    × (d.deproxy_manager ≡ none)
    × (d.sockets ≡ [])
    × (d.tasks ≡ [])
    × (d.auto_parser ≡ none)
    × ((troubled.save_tcpdump && d.tcpdump) ≡ false)
    × (d.ips ≡ [])
    × (d.aliases ≡ left_aliases troubled suite.ips suite.aliases)
do_cleanups-stops_example = do_cleanups-stops troubled suite runner refl suite-AreCleared

abbrev quiet : Outside
quiet = record {
  networker = none;
  removes = λ ip. true;
  save_tcpdump = true;
  log = codes "WARNING: x";
  memory_check = none;
}

quiet_cleanup : (do_cleanups (added_cleanups quiet) suite).1 ≡ []
unfolding do_cleanups added_cleanups cleanup_tasks cleanup_services cleanup_deproxy
    cleanup_interfaces cleanup_stop_tcpdump cleanup_check_dmesg cleanup_check_exceptions
    cleanup_deproxy_auto_parser cleanup_check_memory_leaks gather_exceptions put_exceptions
    get_all_services get_clients get_servers stop_runner errors_of is_in Text-discrete ℕ_discrete
    stop check_exceptions
quiet_cleanup = refl

do_cleanups-finds_example :
    All
      (λ (r : Runner (Unit {0})). is_empty r.service.exceptions ≡ true)
      (map stop_runner (get_all_services suite))
    × All (λ e. (one_of e suite.oops_ignore ≡ true) ⊎ (is_in e quiet.log ≡ false)) bad_words
    × ((p : AutoParser) × (suite.auto_parser ≡ some p) × (p.exceptions ≡ []))
    × (quiet.networker ≡ none)
    × (quiet.memory_check ≡ none)
do_cleanups-finds_example = do_cleanups-finds quiet suite quiet_cleanup

-- A test whose name starts another's.
shorter_name : is_in (codes "t.a") (codes "t.ab" ++ b' ' ∷ to_base 10 2) ≡ true
unfolding is_in to_base
shorter_name = refl

health_of_server : server_health (codes "Total: 1\nHTTP availability\t: 75\n") ≡ ok (pos 75)
unfolding server_health parse_option search_option match_here
health_of_server = refl

missing_option : parse_option (codes "Cache hits: 3\n") (codes "Cache misses") ≡ negsuc 0
unfolding parse_option search_option match_here
missing_option = refl

last_listen :
    get_last
      (codes "listen")
      (entries (splitlines (codes "listen 443 proto=https;\r\nlisten 80;\n")))
    ≡ some (codes "80")
unfolding entries entry lines_from get_last Text-discrete ℕ_discrete
last_listen = refl
