-- ===== src/Suite/Cleanup.antt =====
-- The clean-up of a test in framework/test_suite/tester.py.
use tempesta_test.Base.{
  not, ◌&&◌, Bool, true, false, List, [], ◌∷◌, ◌++◌, map, Option, none, some, if◌then◌else◌, Error,
  is_empty, framework_error, attribute_error, keep, ok, raise,
}
use tempesta_test.Text.{Text, codes, one_of, same, is_in}
use tempesta_test.AutoParser.{AutoParser, check_exceptions}
use tempesta_test.Stateful.{stop}
use tempesta_test.Suite.State.{Runner, Task, Suite, get_all_services, to_list}

-- What the clean-up meets: the exception of making a networker, the addresses whose removal works (they
-- are not kept for ssh, and the command does not fail), whether tcpdump is used, what dmesg holds now,
-- and the exception of the check for memory leaks, if it is made.
pub record Outside : Type 0 where
  pub networker : Option Error
  pub removes : Text → Bool
  pub save_tcpdump : Bool
  pub log : Text
  pub memory_check : Option Error

-- A step of the clean-up: the test after it, and the exception if it raises.
abbrev pub Step : Type 0 → Type 0
Step W = Suite W → Suite W × Option Error

abbrev pub tell_to_stop : Task → Task
tell_to_stop t = record t { stop_event = true }

-- The words of an error that the log has and that are not ignored.
unfoldable pub errors_of : List Text → List Text → Text → Option Error
errors_of [] ignored log = none
errors_of (e ∷ l) ignored log =
    let rest = errors_of l ignored log in
    if one_of e ignored then rest else if is_in e log then some framework_error else rest

-- `self.__exceptions.update({str(service): ...})`
unfoldable pub put_exceptions :
    Text → List Error → List (Text × List Error) → List (Text × List Error)
put_exceptions name e [] = (name, e) ∷ []
put_exceptions name e ((n, f) ∷ l) =
    let rest = put_exceptions name e l in if same n name then (name, e) ∷ l else (n, f) ∷ rest

-- The words that are searched in dmesg.
abbrev pub bad_words : List Text
bad_words = codes "Oops" ∷ codes "WARNING" ∷ codes "ERROR" ∷ codes "BUG" ∷ []

-- What `check_exceptions` raises; the parser may be gone.
abbrev pub parser_error : Option AutoParser → Option Error
parser_error none = some attribute_error
parser_error (some p) = elim (check_exceptions p) [ ok u ↦ none | raise e ↦ some e ]

module _ {W : Type 0} where
  -- `__cleanup_tasks`
  unfoldable pub cleanup_tasks : Step W
  cleanup_tasks s =
      let told = map tell_to_stop s.tasks in
      (record s { joined = s.joined ++ keep (λ (t : Task). t.is_started) told; tasks = [] }, none)

  unfoldable pub stop_runner : Runner W → Runner W
  stop_runner r = record r { service = stop r.stop_procedures r.service }

  abbrev pub stop_entry : Text × Runner W → Text × Runner W
  stop_entry (name, r) = (name, stop_runner r)

  -- The services after `stop` of each.
  unfoldable pub stop_all : Suite W → Suite W
  unfolding stop_runner
  stop_all s = record s {
    tempesta = elim s.tempesta [ none ↦ none | some r ↦ some (stop_runner r) ];
    clients = map stop_entry s.clients;
    servers = map stop_entry s.servers;
    deproxy_manager = elim s.deproxy_manager [ none ↦ none | some r ↦ some (stop_runner r) ];
  }

  -- The loop that gathers the exceptions of the services that are stopped, up to a `clear_stats` that
  -- raises.
  unfoldable pub gather_exceptions :
      List (Runner W) → List (Text × List Error) → List (Text × List Error) × Option Error
  unfolding put_exceptions
  gather_exceptions [] found = (found, none)
  gather_exceptions (r ∷ l) found = elim (r.clear_stats r.service.world).1 [
    | some e ↦ (found, some e)
    | none ↦ gather_exceptions l (
        if is_empty r.service.exceptions
        then found
        else put_exceptions r.name r.service.exceptions found)
  ]

  -- Without a manager `stop` of `None` raises, after the tasks that stop the other services were made:
  -- they run, but nothing awaits them.
  unfoldable pub cleanup_services : Step W
  unfolding gather_exceptions stop_all
  cleanup_services s = elim s.deproxy_manager [
    | none ↦ (stop_all s, some attribute_error)
    | some manager ↦
        let (found, raised) =
          gather_exceptions (map stop_runner (get_all_services s)) s.exceptions in
        let stopped = record (stop_all s) { exceptions = found } in
        elim raised [
          | some e ↦ (stopped, some e)
          | none ↦ (
            record stopped { servers = []; clients = []; tempesta = none },
            if is_empty found then none else some framework_error,
          )
        ]
  ]

  -- `finish_all_deproxy` ignores the exceptions of the sockets that it closes.
  unfoldable pub cleanup_deproxy : Step W
  cleanup_deproxy s = (record s { sockets = []; deproxy_manager = none }, none)

  -- `remove_routes` and `remove_interfaces` raise nothing: an address that is kept for ssh is passed
  -- over, and so is what a command raises.
  unfoldable pub cleanup_interfaces : Outside → Step W
  cleanup_interfaces w s = elim w.networker [
    | none ↦ (
      record s { ips = []; aliases = keep (λ ip. not (one_of ip s.ips && w.removes ip)) s.aliases },
      none,
    )
    | some e ↦ (s, some e)
  ]

  -- `__stop_tcpdump`; without a process there is nothing to send a signal to.
  unfoldable pub cleanup_stop_tcpdump : Outside → Step W
  cleanup_stop_tcpdump w s =
      if w.save_tcpdump
      then (if s.tcpdump then (record s { tcpdump = false }, none) else (s, some attribute_error))
      else (s, none)

  unfoldable pub cleanup_check_dmesg : Outside → Step W
  cleanup_check_dmesg w s = elim s.dmesg [
    | none ↦ (s, some attribute_error)
    | some old ↦ elim (errors_of bad_words s.oops_ignore w.log) [
      | some e ↦ (record s { dmesg = some w.log; oops_ignore = [] }, some e)
      | none ↦ (record s { dmesg = none; oops_ignore = [] }, none)
    ]
  ]

  unfoldable pub cleanup_check_exceptions : Step W
  cleanup_check_exceptions s = (s, parser_error s.auto_parser)

  -- `cleanup` of the parser changes nothing that outlives it.
  unfoldable pub cleanup_deproxy_auto_parser : Step W
  cleanup_deproxy_auto_parser s = elim s.auto_parser [
    | none ↦ (s, some attribute_error)
    | some p ↦ (record s { auto_parser = none }, none)
  ]

  unfoldable pub cleanup_check_memory_leaks : Outside → Step W
  cleanup_check_memory_leaks w s = (s, w.memory_check)

  -- The calls of `addAsyncCleanup` in `asyncSetUp`, in their order.
  unfoldable pub added_cleanups : Outside → List (Step W)
  added_cleanups w =
      cleanup_check_memory_leaks w
      ∷ cleanup_deproxy_auto_parser
      ∷ cleanup_check_exceptions
      ∷ cleanup_check_dmesg w
      ∷ cleanup_stop_tcpdump w
      ∷ cleanup_interfaces w
      ∷ cleanup_deproxy
      ∷ cleanup_services
      ∷ cleanup_tasks
      ∷ []

  -- What unittest does with them: the step that was added last comes first, and an exception does not
  -- keep the others from running.
  unfoldable pub do_cleanups : List (Step W) → Suite W → Suite W × List Error
  do_cleanups [] s = (s, [])
  do_cleanups (step ∷ later) s =
      let after = do_cleanups later s in
      let done = step after.0 in (done.0, after.1 ++ to_list done.1)
