-- ===== src/Suite/Creation.antt =====
-- How a test of framework/test_suite/tester.py makes its clients from their descriptions. A description
-- is a dict: its entries are kept by the kind of their values, and templates have places for texts.
use tempesta_test.Base.{
  String, ℕ, Bool, true, false, not, ◌&&◌, ◌||◌, List, [], ◌∷◌, ◌++◌, Option, none, some,
  if◌then◌else◌, length, Result, ok, raise, ◌>>=◌, check, value_error, type_error,
}
use tempesta_test.Base.Int.{ℤ, pos, negsuc}
use tempesta_test.Text.{Text, codes, same, one_of, int_of}
use tempesta_test.Headers.{Header}
use tempesta_test.Template.{Properties, property, fill_template}
use tempesta_test.TfCfg.{Config, Interpolation, find, put, get, populate_properties}
use tempesta_test.Network.{Command, NetWorker, create_interface, create_route}
use tempesta_test.External.Curl.Command.{CurlArguments}

pub record Description : Type 0 where
  pub texts : Properties
  pub flags : List (Text × Bool)
  pub numbers : List (Text × ℤ)
  pub headers : List Header

-- The arguments of a deproxy client.
pub record DeproxyArguments : Type 0 where
  pub id : Text
  pub http2 : Bool
  pub port : ℤ
  pub bind_addr : Text
  pub segment_size : ℤ
  pub segment_gap : ℤ
  pub is_ipv6 : Bool
  pub conn_addr : Text
  pub is_ssl : Bool
  pub server_hostname : Option Text
  pub rcv_buf_size : ℤ
  pub rps : ℤ

pub data Created : Type 0 where
  deproxy : DeproxyArguments → Created
  wrk : (id server_addr : Text) (ssl : Bool) (script : Text) → Created
  curl : (id : Text) → CurlArguments → Created
  external : (id binary : Text) (cmd_args : Option Text) → Created

-- `d.get(key, default)`
abbrev pub get_or {ℓ} : {V : Type ℓ} → V → Text → List (Text × V) → V
get_or v key d = elim (find key d) [ none ↦ v | some w ↦ w ]

abbrev pub flag : String → Description → Bool
flag key d = get_or false (codes key) d.flags

abbrev pub number_or : ℤ → String → Description → ℤ
number_or v key d = get_or v (codes key) d.numbers

-- `fill_template(text, client)`, of a text.
unfoldable pub filled : Text → Description → Result Text
unfolding fill_template
filled text d =
    fill_template (some text) d.texts >>= λ s. elim s [ none ↦ raise type_error | some t ↦ ok t ]

unfoldable pub filled_entry : String → Description → Result Text
unfolding filled property
filled_entry key d = property (codes key) d.texts >>= λ text. filled text d

abbrev number_in : Text → Result ℤ
number_in s = elim (int_of 10 s) [ none ↦ raise value_error | some n ↦ ok n ]

-- `__create_client_deproxy`, and `set_rps` after it.
unfoldable pub create_client_deproxy : Text → Text → Bool → Text → Description → Result Created
unfolding filled_entry fill_template
create_client_deproxy cid ctype is_ssl bind_addr d = do
  port ← filled_entry "port" d >>= number_in
  conn_addr ← filled_entry "addr" d
  server_hostname ← fill_template (find (codes "ssl_hostname") d.texts) d.texts
  ok (
      deproxy (record {
        id = cid;
        http2 = same ctype (codes "deproxy_h2");
        port = port;
        bind_addr = bind_addr;
        segment_size = number_or (pos 0) "segment_size" d;
        segment_gap = number_or (pos 0) "segment_gap" d;
        is_ipv6 = flag "is_ipv6" d;
        conn_addr = conn_addr;
        is_ssl = is_ssl;
        server_hostname = server_hostname;
        rcv_buf_size = number_or (negsuc 0) "rcv_buf_size" d;
        rps = number_or (pos 0) "rps" d;
      }))

-- `__create_client_wrk`, with the name that `set_script` gives to the script.
unfoldable pub create_client_wrk : Text → Bool → Description → Result Created
unfolding filled_entry
create_client_wrk cid ssl d = do
  addr ← filled_entry "addr" d
  ok (wrk cid addr ssl (cid ++ (codes "_script" ++ codes ".lua")))

-- `__create_client_external`
unfoldable pub create_client_external : Text → Description → Result Created
unfolding filled_entry property
create_client_external cid d = do
  cmd_args ← filled_entry "cmd_args" d
  binary ← property (codes "binary") d.texts
  ok (external cid binary (some cmd_args))

abbrev natural_of : ℤ → Option ℕ
natural_of (pos n) = some n
natural_of (negsuc n) = none

abbrev parallel_of : Option ℤ → Option ℕ
parallel_of none = none
parallel_of (some n) = natural_of n

abbrev or_some {ℓ} : {A : Type ℓ} → Option A → A → Option A
or_some none a = some a
or_some (some b) a = some b

-- `__create_client_curl`: the entries that `CurlArguments` has, and its defaults.
unfoldable pub create_client_curl : Text → Bool → Text → Description → Result Created
unfolding filled find
create_client_curl cid ssl interface d = do
  addr ← filled (get_or (codes "${tempesta_ip}") (codes "addr") d.texts) d
  cmd_args ← filled (get_or [] (codes "cmd_args") d.texts) d
  ok (
      curl cid (record {
        addr = addr;
        uri = get_or (codes "/") (codes "uri") d.texts;
        cmd_args = cmd_args;
        data_ = get_or [] (codes "data") d.texts;
        headers = d.headers;
        dump_headers = get_or true (codes "dump_headers") d.flags;
        disable_output = flag "disable_output" d;
        save_cookies = flag "save_cookies" d;
        load_cookies = flag "load_cookies" d;
        ssl = ssl;
        http2 = flag "http2" d;
        curl_iface = or_some (find (codes "curl_iface") d.texts) interface;
        insecure = get_or true (codes "insecure") d.flags;
        parallel = parallel_of (find (codes "parallel") d.numbers);
        method = get_or [] (codes "method") d.texts;
      }))

-- What a test has of its clients while it makes them. `managed` are those of the deproxy manager.
pub record Making (W : Type 0) : Type 0 where
  pub ips : List Text
  pub clients : List (Text × Created)
  pub managed : List Text
  pub world : W

abbrev pub is_deproxy : Text → Bool
is_deproxy ctype = one_of ctype (codes "deproxy" ∷ codes "deproxy_h2" ∷ [])

-- What `__create_client` makes. A type of another name makes no client.
unfoldable pub created_by_type : Text → Text → Text → Description → Result (Option Created)
unfolding create_client_deproxy create_client_wrk create_client_curl create_client_external
created_by_type cid ctype bind_addr d =
    let ssl = flag "ssl" d in
    if is_deproxy ctype
    then (create_client_deproxy cid ctype ssl bind_addr d >>= λ c. ok (some c))
    else if same ctype (codes "wrk")
    then (create_client_wrk cid ssl d >>= λ c. ok (some c))
    else if same ctype (codes "curl")
    then (create_client_curl cid ssl bind_addr d >>= λ c. ok (some c))
    else if same ctype (codes "external")
    then (create_client_external cid d >>= λ c. ok (some c))
    else ok none

-- The client is put under its identifier, and given to the deproxy manager.
unfoldable pub add_created : {W : Type 0} → Text → Text → Option Created → Making W → Making W
unfolding put
add_created cid ctype none m = m
add_created cid ctype (some c) m = record m {
  clients = put cid c m.clients;
  managed = if is_deproxy ctype then m.managed ++ cid ∷ [] else m.managed;
}

module _ {W : Type 0} (node dst_node : Command W) (n : NetWorker) where
  -- The address that a client binds: a new alias, or that of all clients.
  unfoldable pub bind : Bool → Text → Making W → Result (Text × Making W)
  unfolding create_interface create_route
  bind interface client_ip m =
      if interface
      then (create_interface node dst_node n (length m.ips) m.world >>= λ made. ok (
        made.0.1,
        record m {
          ips = m.ips ++ made.0.1 ∷ [];
          world = create_route node dst_node n made.0.1 made.1;
        },
      ))
      else ok (client_ip, m)

module _ {W : Type 0} (node dst_node : Command W) (n : NetWorker) (kvs : Properties)
    (p : Interpolation) (cfg : Config) where
  -- `__create_client`
  unfoldable pub create_client : Description → Making W → Result (Making W)
  unfolding populate_properties property get bind created_by_type add_created
  create_client described m = do
    let d = record described { texts = populate_properties kvs described.texts }
    cid ← property (codes "id") d.texts
    ctype ← property (codes "type") d.texts
    let is_ipv6 = flag "is_ipv6" d
    let interface = flag "interface" d
    refused ← check (not (is_ipv6 && interface)) value_error
    client_ip ← get p (codes "Client") (if is_ipv6 then codes "ipv6" else codes "ip") cfg
    bound ←
        bind node dst_node n (interface && (is_deproxy ctype || same ctype (codes "curl")))
          client_ip m
    made ← created_by_type cid ctype bound.0 d
    ok (add_created cid ctype made bound.1)

  -- `__create_clients`
  unfoldable pub create_clients : List Description → Making W → Result (Making W)
  unfolding create_client
  create_clients [] m = ok m
  create_clients (d ∷ l) m = create_client d m >>= create_clients l
