-- ===== src/Manager/Threads.antt =====
-- The thread of the manager in framework/deproxy/deproxy_manager.py, and the thread of the tests,
-- which starts and stops clients and servers, and sets an option of their sockets, under the same lock
-- (framework/deproxy/deproxy_base.py), as steps that interleave in any order, with changes of the world
-- that take no lock in between. The log of events is for the statements only.
use tempesta_test.Base.{◌≡◌, Bool, true, false, List, [], ◌∷◌, ◌++◌, Option, none, some, Error}

-- One call that a thread makes on the shared world; it may raise.
abbrev pub Call : Type 0 → Type 0
Call S = S → S × Option Error

-- The calls that a thread makes while it holds the lock, by the world at their start.
abbrev pub Block : Type 0 → Type 0
Block S = S → List (Call S)

-- Where the manager's thread is in `__run_deproxy_manager`: at the head of the loop, at `acquire`,
-- in `_poll` with the calls that are left, at `release`, in the `except` branch before and after its
-- `release`, or at its end.
pub data ManagerAt (S : Type 0) : Type 0 where
  checking acquiring releasing ended : ManagerAt S
  polling : List (Call S) → ManagerAt S
  failing failed : Error → ManagerAt S

-- Where the tests' thread is: outside; at `__acquire` of `run_start` or `__stop`, in the body, or in the
-- `finally` with what the body raised; or at `__acquire` of `set_rst_tcp_to_closing_connection`, at its
-- `setsockopt`, or at its `__release`, which is in no `finally`.
pub data TestsAt (S : Type 0) : Type 0 where
  outside : TestsAt S
  waiting : Block S → TestsAt S
  inside : List (Call S) → TestsAt S
  leaving : Option Error → TestsAt S
  asking setting : Call S → TestsAt S
  set_option_done : TestsAt S

pub data Owner : Type 0 where
  manager_thread tests_thread : Owner

-- What happens to the lock and to the world.
pub data Event (S : Type 0) : Type 0 where
  takes gives : Owner → Event S
  does : Owner → Call S → Event S
  changes : Call S → Event S

-- `log` keeps the events, and `lost` says that `setsockopt` raised under the lock.
pub record System (S : Type 0) : Type 0 where
  pub world : S
  pub held : Bool
  pub exit_event : Bool
  pub manager : ManagerAt S
  pub tests : TestsAt S
  pub exceptions : List Error
  pub lost : Bool
  pub log : List (Event S)

abbrev pub start_of : {S : Type 0} → S → System S
start_of w = record {
  world = w;
  held = false;
  exit_event = false;
  manager = checking;
  tests = outside;
  exceptions = [];
  lost = false;
  log = [];
}

abbrev pub note : {S : Type 0} → Event S → List (Event S) → List (Event S)
note e l = l ++ e ∷ []

-- A step of one of the two threads, or of code that changes the world without the lock, such as
-- `make_request` of a client. `poll` is the block of a round of polling.
pub data Step {S : Type 0} (poll : Block S) (s : System S) : System S → Type 0 where
  goes_on :
      s.manager ≡ checking → s.exit_event ≡ false → Step poll s (record s { manager = acquiring })
  exits : s.manager ≡ checking → s.exit_event ≡ true → Step poll s (record s { manager = ended })
  acquires :
      s.manager ≡ acquiring
      → s.held ≡ false
      → Step poll s (record s {
        held = true;
        manager = polling (poll s.world);
        log = note (takes manager_thread) s.log;
      })
  polls :
      (call : Call S) (rest : List (Call S))
      → s.manager ≡ polling (call ∷ rest)
      → (call s.world).1 ≡ none
      → Step poll s (record s {
        world = (call s.world).0;
        manager = polling rest;
        log = note (does manager_thread call) s.log;
      })
  poll_raises :
      (call : Call S) (rest : List (Call S)) (e : Error)
      → s.manager ≡ polling (call ∷ rest)
      → (call s.world).1 ≡ some e
      → Step poll s (record s {
        world = (call s.world).0;
        manager = failing e;
        log = note (does manager_thread call) s.log;
      })
  polled : s.manager ≡ polling [] → Step poll s (record s { manager = releasing })
  releases :
      s.manager ≡ releasing
      → Step poll s
          (record s { held = false; manager = checking; log = note (gives manager_thread) s.log })
  fails :
      (e : Error)
      → s.manager ≡ failing e
      → Step poll s
          (record s { held = false; manager = failed e; log = note (gives manager_thread) s.log })
  records :
      (e : Error)
      → s.manager ≡ failed e
      → Step poll s (record s { manager = ended; exceptions = s.exceptions ++ e ∷ [] })
  test_calls : (b : Block S) → s.tests ≡ outside → Step poll s (record s { tests = waiting b })
  test_acquires :
      (b : Block S)
      → s.tests ≡ waiting b
      → s.held ≡ false
      → Step poll s (record s {
        held = true;
        tests = inside (b s.world);
        log = note (takes tests_thread) s.log;
      })
  test_runs :
      (call : Call S) (rest : List (Call S))
      → s.tests ≡ inside (call ∷ rest)
      → (call s.world).1 ≡ none
      → Step poll s (record s {
        world = (call s.world).0;
        tests = inside rest;
        log = note (does tests_thread call) s.log;
      })
  test_raises :
      (call : Call S) (rest : List (Call S)) (e : Error)
      → s.tests ≡ inside (call ∷ rest)
      → (call s.world).1 ≡ some e
      → Step poll s (record s {
        world = (call s.world).0;
        tests = leaving (some e);
        log = note (does tests_thread call) s.log;
      })
  test_ran : s.tests ≡ inside [] → Step poll s (record s { tests = leaving none })
  test_releases :
      (raised : Option Error)
      → s.tests ≡ leaving raised
      → Step poll s
          (record s { held = false; tests = outside; log = note (gives tests_thread) s.log })
  rst_calls : (call : Call S) → s.tests ≡ outside → Step poll s (record s { tests = asking call })
  rst_acquires :
      (call : Call S)
      → s.tests ≡ asking call
      → s.held ≡ false
      → Step poll s
          (record s { held = true; tests = setting call; log = note (takes tests_thread) s.log })
  rst_sets :
      (call : Call S)
      → s.tests ≡ setting call
      → (call s.world).1 ≡ none
      → Step poll s (record s {
        world = (call s.world).0;
        tests = set_option_done;
        log = note (does tests_thread call) s.log;
      })
  rst_raises :
      (call : Call S) (e : Error)
      → s.tests ≡ setting call
      → (call s.world).1 ≡ some e
      → Step poll s (record s {
        world = (call s.world).0;
        tests = outside;
        lost = true;
        log = note (does tests_thread call) s.log;
      })
  rst_releases :
      s.tests ≡ set_option_done
      → Step poll s
          (record s { held = false; tests = outside; log = note (gives tests_thread) s.log })
  test_stops : s.tests ≡ outside → Step poll s (record s { exit_event = true })
  unlocked :
      (call : Call S)
      → Step poll s (record s { world = (call s.world).0; log = note (changes call) s.log })

pub data Reach {S : Type 0} (poll : Block S) (s : System S) : System S → Type 0 where
  here : Reach poll s s
  next : {t u : System S} → Reach poll s t → Step poll t u → Reach poll s u
