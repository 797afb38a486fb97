-- ===== src/TfCfg/Defaults.antt =====
-- The default configuration of framework/helpers/tf_cfg.py.
use tempesta_test.Base.{
  check, ◌>>◌, ◌>>=◌, value_error, Bool, true, false, if◌then◌else◌, List, [], ◌∷◌, Option, none,
  some, Result, ok, raise,
}
use tempesta_test.Base.{String}
use tempesta_test.Text.{Text, codes}
use tempesta_test.Template.{Properties}
use tempesta_test.TfCfg.{
  Interpolation, or_nil, Section, Config, find, put, update_config_for_remote_setup, fill_kvs,
}

abbrev texts : List (String × String) → Section
texts [] = []
texts ((key, value) ∷ l) = (codes key, codes value) ∷ texts l

abbrev pub general : Section
general = texts (
    ("asyncio_freq", "0.01")
    ∷ ("duration", "10")
    ∷ ("concurrent_connections", "100")
    ∷ ("log_file", "tests_log.log")
    ∷ ("stress_threads", "2")
    ∷ ("stress_large_content_length", "131072")
    ∷ ("stress_requests_count", "100")
    ∷ ("stress_mtu", "1500")
    ∷ ("long_body_size", "500")
    ∷ ("memory_leak_threshold", "131072")
    ∷ ("unavailable_timeout", "300")
    ∷ [])

abbrev pub loggers : Section
loggers = texts (
    ("stream_handler", "CRITICAL")
    ∷ ("file_handler", "INFO")
    ∷ ("test", "INFO")
    ∷ ("tcp", "INFO")
    ∷ ("http", "INFO")
    ∷ ("env", "INFO")
    ∷ ("service", "INFO")
    ∷ ("dap", "INFO")
    ∷ [])

abbrev pub client : Section
client = texts (
    ("ip", "127.0.0.2")
    ∷ ("ipv6", "::1")
    ∷ ("hostname", "localhost")
    ∷ ("ab", "ab")
    ∷ ("wrk", "wrk")
    ∷ ("h2load", "h2load")
    ∷ ("tls-perf", "tls-perf")
    ∷ ("workdir", "/tmp/client")
    ∷ [])

abbrev pub tempesta : Section
tempesta = texts (
    ("ip", "127.0.0.1")
    ∷ ("ipv6", "::1")
    ∷ ("hostname", "localhost")
    ∷ ("user", "root")
    ∷ ("port", "22")
    ∷ ("ssh_key", "")
    ∷ ("srcdir", "/root/tempesta")
    ∷ ("workdir", "/tmp/tempesta")
    ∷ ("config", "tempesta.conf")
    ∷ ("tmp_config", "tempesta_tmp.conf")
    ∷ ("interfaces", "")
    ∷ [])

abbrev pub server : Section
server = texts (
    ("ip", "127.0.0.3")
    ∷ ("ipv6", "::1")
    ∷ ("hostname", "localhost")
    ∷ ("nginx", "nginx")
    ∷ ("workdir", "/tmp/nginx")
    ∷ ("resources", "/var/www/html/")
    ∷ ("aliases_interface", "enp1s0")
    ∷ ("aliases_base_ip", "192.168.123.2")
    ∷ ("max_workers", "16")
    ∷ ("keepalive_timeout", "60")
    ∷ ("keepalive_requests", "100")
    ∷ [])

-- `os.getenv(name, default)`
abbrev getenv : (Text → Option Text) → String → String → Text
getenv env name default = elim (env (codes name)) [ none ↦ codes default | some v ↦ v ]

abbrev pub tfw_logger : (Text → Option Text) → Section
tfw_logger env =
    (codes "ip", getenv env "CLICKHOUSE_IP" "127.0.0.1")
    ∷ (codes "hostname", getenv env "CLICKHOUSE_IP" "localhost")
    ∷ (codes "user", codes "root")
    ∷ (codes "port", codes "22")
    ∷ (codes "ssh_key", [])
    ∷ (codes "workdir", codes "/tmp/tfw_logger")
    ∷ (codes "clickhouse_http_port", getenv env "CLICKHOUSE_HTTP_PORT" "8123")
    ∷ (codes "clickhouse_tcp_port", getenv env "CLICKHOUSE_TCP_PORT" "9000")
    ∷ (codes "clickhouse_username", getenv env "CLICKHOUSE_USERNAME" "default")
    ∷ (codes "clickhouse_password", getenv env "CLICKHOUSE_PASSWORD" "")
    ∷ (codes "clickhouse_database", getenv env "CLICKHOUSE_DATABASE" "default")
    ∷ (codes "clickhouse_table", getenv env "CLICKHOUSE_TABLE" "access_log")
    ∷ (codes "log_path", codes "/tmp/tfw_logger.log")
    ∷ (codes "logger_config", codes "/tmp/tfw_logger.json")
    ∷ []

abbrev pub default_sections : (Text → Option Text) → Config
default_sections env =
    (codes "General", general)
    ∷ (codes "Loggers", loggers)
    ∷ (codes "Client", client)
    ∷ (codes "Tempesta", tempesta)
    ∷ (codes "Server", server)
    ∷ (codes "TFW_Logger", tfw_logger env)
    ∷ []

module _ (p : Interpolation) where
  unfoldable pub put_all : Section → Section → Result Section
  unfolding put
  put_all [] s = ok s
  put_all ((k, v) ∷ l) s = check (p.before_set v) value_error >> put_all l (put k v s)

  -- `read_dict`: the options of each section are put over those that are there.
  unfoldable pub read_dict : Config → Config → Result Config
  unfolding put_all find put
  read_dict [] config = ok config
  read_dict ((name, options) ∷ l) config =
      put_all options (or_nil (find name config)) >>= λ s. read_dict l (put name s config)

  -- `defaults`
  unfoldable pub defaults : (Text → Option Text) → Config → Result Config
  unfolding read_dict
  defaults env = read_dict (default_sections env)

  -- `save_defaults`, up to the file; `setup` is whether it is "remote".
  unfoldable pub save_defaults : (Text → Option Text) → Bool → Config → Result Config
  unfolding defaults update_config_for_remote_setup
  save_defaults env is_remote config = do
    c ← defaults env config
    (if is_remote
        then update_config_for_remote_setup p (env (codes "HOST_IP")) (env (codes "HOST_IPV6"))
            (env (codes "REMOTE_IP")) (env (codes "REMOTE_IPV6")) c
        else ok c)

  -- `__init__`, where `read` is what the file adds to the configuration: the configuration, the
  -- properties, and whether both were read. Only the reading is in its `try`.
  unfoldable pub new_cfg :
      (Text → Option Text) → (Config → Result Config) → Result (Config × Properties × Bool)
  unfolding defaults fill_kvs
  new_cfg env read = defaults env [] >>= λ start. elim (read start) [
    | raise e ↦ ok (start, [], false)
    | ok c ↦ elim (fill_kvs p c []) [ raise e ↦ ok (c, [], false) | ok kvs ↦ ok (c, kvs, true) ]
  ]
