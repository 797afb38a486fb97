-- ===== src/Suite/State.antt =====
-- What a test of framework/test_suite/tester.py holds, and how its parts are found.
use tempesta_test.Base.{
  Bool, false, List, [], ◌∷◌, ◌++◌, map, Option, none, some, if◌then◌else◌, Error, Result, ok,
  raise, framework_error,
}
use tempesta_test.Text.{Text, same}
use tempesta_test.AutoParser.{AutoParser}
use tempesta_test.Stateful.{Service, Procedure}

-- A service, its name `str(service)`, what its `clear_stats` does and raises, and its stop procedures.
pub record Runner (W : Type 0) : Type 0 where
  pub name : Text
  pub clear_stats : W → W × Option Error
  pub stop_procedures : List (Procedure W)
  pub service : Service W

-- A thread and its event: whether it was started, whether it was told to stop.
pub record Task : Type 0 where
  pub is_started : Bool
  pub stop_event : Bool

-- `joined` is what `__cleanup_tasks` waited for. `tcpdump` says that the process runs, `dmesg` is
-- the log of `loggers`, and `sockets` are those of `asyncore.socket_map`, by their names. `aliases`
-- are the addresses that the node of the clients has.
pub record Suite (W : Type 0) : Type 0 where
  pub tempesta : Option (Runner W)
  pub clients : List (Text × Runner W)
  pub servers : List (Text × Runner W)
  pub deproxy_manager : Option (Runner W)
  pub exceptions : List (Text × List Error)
  pub tasks : List Task
  pub joined : List Task
  pub sockets : List Text
  pub ips : List Text
  pub aliases : List Text
  pub tcpdump : Bool
  pub oops_ignore : List Text
  pub dmesg : Option Text
  pub auto_parser : Option AutoParser

-- A dict: its first entry with a key is the one that counts.
abbrev pub find_entry {ℓ} : {A : Type ℓ} → Text → List (Text × A) → Option A
find_entry key [] = none
find_entry key ((k, a) ∷ l) = if same k key then some a else find_entry key l

abbrev pub second {ℓ} : {A : Type ℓ} → Text × A → A
second (k, a) = a

abbrev pub to_list {ℓ} : {A : Type ℓ} → Option A → List A
to_list none = []
to_list (some a) = a ∷ []

module _ {W : Type 0} where
  -- `get_server`, which raises `ServerNotFound`.
  unfoldable pub get_server : Text → Suite W → Result (Runner W)
  get_server sid s = elim (find_entry sid s.servers) [
    | none ↦ raise framework_error
    | some r ↦ ok r
  ]

  -- `get_client`, which raises `ClientNotFound`.
  unfoldable pub get_client : Text → Suite W → Result (Runner W)
  get_client cid s = elim (find_entry cid s.clients) [
    | none ↦ raise framework_error
    | some r ↦ ok r
  ]

  unfoldable pub get_servers : Suite W → List (Runner W)
  get_servers s = map second s.servers

  unfoldable pub get_clients : Suite W → List (Runner W)
  get_clients s = map second s.clients

  unfoldable pub get_all_services : Suite W → List (Runner W)
  get_all_services s =
      to_list s.tempesta ++ (get_clients s ++ (get_servers s ++ to_list s.deproxy_manager))

  -- `create_task`
  unfoldable pub create_task : Suite W → Suite W
  create_task s = record s {
    tasks = s.tasks ++ record { is_started = false; stop_event = false } ∷ [];
  }
