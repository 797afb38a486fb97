-- ===== src/Tests/Setups.antt =====
-- Tests of how a server of framework/deproxy/deproxy_server.py holds its connections, how a test of
-- framework/test_suite/tester.py makes its clients, and of framework/helpers/port_checks.py.
use tempesta_test.Base.{
  keep, ltb, no_fuel, ◌≡◌, ◌≢◌, arith, value_error, refl, true, false, [], ◌∷◌, none, some, ok,
  raise, plain_exception, ℕ_discrete,
}
use tempesta_test.Text.{Text, Text-discrete, codes, to_base}
use tempesta_test.AutoParser.{Surroundings}
use tempesta_test.Server.{Server, Connection, close, serve_buffer}
use tempesta_test.Server.Listening.{
  Listening, accept_connection, close_connection, finish_close, new_connection,
}
use tempesta_test.Server.Endless.{serve_buffer-endless}
use tempesta_test.Template.{Properties, property, fill_template, substitute}
use tempesta_test.TfCfg.{
  Config, Interpolation, section_of, options_of, find, put, get, get_option, populate_properties,
}
use tempesta_test.Network.{Command, NetWorker, create_interface, create_route}
use tempesta_test.Network.Address.{ip_number_to_str}
use tempesta_test.Suite.Creation.{
  Description, Making, Created, curl, create_clients, create_client, created_by_type, add_created,
  bind, create_client_curl, filled,
}
use tempesta_test.Suite.Aliases.{create_clients-distinct}
use tempesta_test.Config.Parse.{lines_from}
use tempesta_test.Helpers.Ports.{
  check_ports_status, check_each_port, check_lines, number_of_tcp_connections, count_from,
}

abbrev server : Server
server = record {
  response = codes "HTTP/1.1 200 OK\r\n\r\n";
  requests = [];
  hang_on_req_num = 0;
  pipelined = 0;
  keep_alive = 0;
  segment_size = 0;
  drop_conn_when_request_received = false;
  auto_parser = record {
    expected_response = none;
    expected_request = none;
    client_request = none;
    parsing = false;
    exceptions = [];
  };
}

abbrev listening : Listening
listening = record {
  server = server;
  default_response = server.response;
  send_after_conn_established = true;
  connections = [];
  gone = [];
  request_event = false;
  connection_event = false;
}

abbrev surroundings : Surroundings
surroundings = record {
  fw_version = codes "0.8";
  client_ip = codes "10.0.0.1";
  config = [];
  auto_parser = false;
  now = [];
  parse_date = λ s. raise value_error;
  decode = λ s. s;
}

-- Two clients connect, the first connection is closed and then removed, and the server stops.
abbrev first : Connection
first = new_connection true server

abbrev two_clients : Listening
two_clients = accept_connection 2 (accept_connection 1 listening)

abbrev one_closed : Listening
one_closed = finish_close 1 (close first) (close_connection 1 first two_clients)

-- A byte that is no start of a character, and a decoder that leaves out what is no ASCII.
abbrev ascii_only : Surroundings
ascii_only = record surroundings { decode = keep (λ b. ltb b 128) }

serve_buffer-endless_example :
    serve_buffer 1000 ascii_only server (record first { req_buffer = 255 ∷ [] }) ≡ raise no_fuel
serve_buffer-endless_example =
    serve_buffer-endless ascii_only server (record first { req_buffer = 255 ∷ [] })
      (record { checks_none = refl; hangs_on_none = refl; drops_none = refl }) refl refl 1000

abbrev config : Config
config = (codes "Client", (codes "ip", codes "127.0.0.1") ∷ []) ∷ []

abbrev properties : Properties
properties = (codes "tempesta_ip", codes "127.0.0.2") ∷ []

abbrev networker : NetWorker
networker = record {
  interface_name = codes "enp1s0";
  base_number = 3232267010;
  gateway_ip = codes "127.0.0.1";
  non_removing_ips = [];
}

abbrev node : Command (Unit {0})
node c w = (tt, none)

-- A curl client that wants an interface of its own.
abbrev described : Text → Description
described cid = record {
  texts = (codes "id", cid) ∷ (codes "type", codes "curl") ∷ [];
  flags = (codes "interface", true) ∷ [];
  numbers = [];
  headers = [];
}

abbrev made_curl : Text → Text → Text × Created
made_curl cid ip = (
  cid,
  curl cid (record {
    addr = codes "127.0.0.2";
    uri = codes "/";
    cmd_args = [];
    data_ = [];
    headers = [];
    dump_headers = true;
    disable_output = false;
    save_cookies = false;
    load_cookies = false;
    ssl = false;
    http2 = false;
    curl_iface = some ip;
    insecure = true;
    parallel = none;
    method = [];
  }),
)

abbrev made : Making (Unit {0})
made = record {
  ips = codes "192.168.123.2" ∷ codes "192.168.123.3" ∷ [];
  clients =
      made_curl (codes "a") (codes "192.168.123.2")
      ∷ made_curl (codes "b") (codes "192.168.123.3")
      ∷ [];
  managed = [];
  world = tt;
}

-- An interpolation for which a value stands as it is written.
abbrev interpolation : Interpolation
interpolation = record { before_get = λ options v. ok v; before_set = λ v. true }

two_curls :
    create_clients node node networker properties interpolation config
      (described (codes "a") ∷ described (codes "b") ∷ [])
      (record { ips = []; clients = []; managed = []; world = tt })
    ≡ ok made
unfolding create_clients create_client created_by_type add_created bind create_client_curl filled
    fill_template substitute property find put get get_option section_of options_of
    populate_properties create_interface create_route ip_number_to_str to_base Text-discrete
    ℕ_discrete
two_curls = refl

create_clients-distinct_example : codes "192.168.123.2" ≢ codes "192.168.123.3"
create_clients-distinct_example =
    create_clients-distinct node node networker properties interpolation config
      (described (codes "a") ∷ described (codes "b") ∷ []) made tt two_curls 0 1
      (codes "192.168.123.2") (codes "192.168.123.3") (ground arith) refl refl

used_port :
    check_ports_status
      (codes "a\nb\ntcp 0 0 0.0.0.0:8000 0.0.0.0:* LISTEN\n")
      ((codes "127.0.0.3", 8000) ∷ [])
    ≡ raise plain_exception
unfolding check_ports_status check_each_port check_lines lines_from to_base Text-discrete ℕ_discrete
used_port = refl

-- A port is counted wherever its digits stand.
other_port : number_of_tcp_connections (codes "127.0.0.3:8080\n") (codes "80") ≡ 2
unfolding number_of_tcp_connections count_from
other_port = refl
