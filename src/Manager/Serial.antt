-- ===== src/Manager/Serial.antt =====
-- The lock that the two threads of framework/deproxy/deproxy_manager.py share: its history is that of a
-- lock.
use tempesta_test.Base.{
  ◌≡◌, refl, ◌∙◌, ap, Bool, true, false, ◌&&◌, ◌||◌, List, [], ◌∷◌, Option, none, some, inl, inr,
  Option-cases, arith, if◌then◌else◌,
}
use tempesta_test.Manager.Threads.{
  Block, ManagerAt, TestsAt, Owner, Event, System, Step, Reach, start_of, note, checking, acquiring,
  releasing, ended, polling, failing, failed, outside, waiting, inside, leaving, asking, setting,
  set_option_done, manager_thread, tests_thread, takes, gives, does, changes, goes_on, exits,
  acquires, polls, poll_raises, polled, releases, fails, records, test_calls, test_acquires,
  test_runs, test_raises, test_ran, test_releases, rst_calls, rst_acquires, rst_sets, rst_raises,
  rst_releases, test_stops, unlocked, here, next,
}

abbrev pub same_owner : Owner → Owner → Bool
same_owner manager_thread manager_thread = true
same_owner tests_thread tests_thread = true
same_owner _ _ = false

-- The owner, by where the threads are; a lock that is lost is still the tests' thread's.
abbrev pub owner_of : Bool → Bool → Option Owner
owner_of true tests = some manager_thread
owner_of false true = some tests_thread
owner_of false false = none

module _ {S : Type 0} where
  -- A lock by itself: who holds it after an event, and `none` if a lock does not allow the event, as it
  -- is taken when it is free only, and only its owner gives it back or does what it protects.
  unfoldable pub lock_step : Option Owner → Event S → Option (Option Owner)
  lock_step none (takes o) = some (some o)
  lock_step none (gives o) = none
  lock_step none (does o call) = none
  lock_step (some p) (takes o) = none
  lock_step (some p) (gives o) = if same_owner p o then some none else none
  lock_step (some p) (does o call) = if same_owner p o then some (some p) else none
  lock_step held (changes call) = some held

  unfoldable pub lock_after : Option Owner → List (Event S) → Option (Option Owner)
  unfolding lock_step
  lock_after held [] = some held
  lock_after held (e ∷ l) = elim (lock_step held e) [
    | none ↦ none
    | some after ↦ lock_after after l
  ]

  -- What the calls do to a world in their order, under the lock or not.
  unfoldable pub replay : List (Event S) → S → S
  replay [] w = w
  replay (takes o ∷ l) w = replay l w
  replay (gives o ∷ l) w = replay l w
  replay (does o call ∷ l) w = replay l (call w).0
  replay (changes call ∷ l) w = replay l (call w).0

  unfoldable pub one_event : Event S → S → S
  unfolding replay
  one_event e w = replay (e ∷ []) w

  abbrev pub manager_holds : ManagerAt S → Bool
  manager_holds checking = false
  manager_holds acquiring = false
  manager_holds ended = false
  manager_holds releasing = true
  manager_holds (polling l) = true
  manager_holds (failing e) = true
  manager_holds (failed e) = false

  abbrev pub tests_hold : TestsAt S → Bool
  tests_hold outside = false
  tests_hold (waiting b) = false
  tests_hold (inside l) = true
  tests_hold (leaving o) = true
  tests_hold (asking call) = false
  tests_hold (setting call) = true
  tests_hold set_option_done = true

  abbrev pub owner : System S → Option Owner
  owner s = owner_of (manager_holds s.manager) (tests_hold s.tests || s.lost)

  pub record IsLocked (w : S) (s : System S) : Type 0 where
    pub owned : s.held ≡ (manager_holds s.manager || (tests_hold s.tests || s.lost))
    pub exclusive : (manager_holds s.manager && (tests_hold s.tests || s.lost)) ≡ false
    pub once : (tests_hold s.tests && s.lost) ≡ false
    pub history : lock_after none s.log ≡ some (owner s)
    pub world_is : replay s.log w ≡ s.world

  lock_after-note :
      (l : List (Event S)) (e : Event S) (from held : Option Owner)
      → lock_after from l ≡ some held
      → lock_after from (note e l) ≡ lock_step held e
  unfolding lock_after
  lock_after-note [] e from held h = elim (Option-cases (lock_step from e)) [
    | inl refused ↦ ground arith
    | inr (after, taken) ↦ ground arith
  ]
  lock_after-note (d ∷ l) e from held h = elim (Option-cases (lock_step from d)) [
    | inl refused ↦ absurd (ground (arith, rw (lock_after, refused) at h))
    | inr (after, taken) ↦
        rw (lock_after, taken) (lock_after-note l e after held (rw (lock_after, taken) at h))
  ]

  replay-note :
      (l : List (Event S)) (e : Event S) (w : S)
      → replay (note e l) w ≡ replay (e ∷ []) (replay l w)
  unfolding replay
  replay-note [] e w = refl
  replay-note (takes o ∷ l) e w = replay-note l e w
  replay-note (gives o ∷ l) e w = replay-note l e w
  replay-note (does o call ∷ l) e w = replay-note l e (call w).0
  replay-note (changes call ∷ l) e w = replay-note l e (call w).0

  -- The history and the world after an event.
  after_event :
      (w : S) (s : System S) (e : Event S)
      → IsLocked w s
      → (lock_after none (note e s.log) ≡ lock_step (owner s) e)
        × (replay (note e s.log) w ≡ one_event e s.world)
  unfolding one_event
  after_event w s e v = (
    lock_after-note s.log e none (owner s) v.history,
    replay-note s.log e w ∙ ap (replay (e ∷ [])) v.world_is,
  )

  pub Step-IsLocked :
      (poll : Block S) (w : S) {s t : System S} → Step poll s t → IsLocked w s → IsLocked w t
  unfolding lock_step replay one_event
  Step-IsLocked poll w {s} (goes_on at on) v = ground arith
  Step-IsLocked poll w {s} (exits at over) v = ground arith
  Step-IsLocked poll w {s} (acquires at free) v =
      let (legal, world) = after_event w s (takes manager_thread) v in ground arith
  Step-IsLocked poll w {s} (polls call rest at fine) v =
      let (legal, world) = after_event w s (does manager_thread call) v in ground arith
  Step-IsLocked poll w {s} (poll_raises call rest e at bad) v =
      let (legal, world) = after_event w s (does manager_thread call) v in ground arith
  Step-IsLocked poll w {s} (polled at) v = ground arith
  Step-IsLocked poll w {s} (releases at) v =
      let (legal, world) = after_event w s (gives manager_thread) v in ground arith
  Step-IsLocked poll w {s} (fails e at) v =
      let (legal, world) = after_event w s (gives manager_thread) v in ground arith
  Step-IsLocked poll w {s} (records e at) v = ground arith
  Step-IsLocked poll w {s} (test_calls b at) v = ground arith
  Step-IsLocked poll w {s} (test_acquires b at free) v =
      let (legal, world) = after_event w s (takes tests_thread) v in ground arith
  Step-IsLocked poll w {s} (test_runs call rest at fine) v =
      let (legal, world) = after_event w s (does tests_thread call) v in ground arith
  Step-IsLocked poll w {s} (test_raises call rest e at bad) v =
      let (legal, world) = after_event w s (does tests_thread call) v in ground arith
  Step-IsLocked poll w {s} (test_ran at) v = ground arith
  Step-IsLocked poll w {s} (test_releases raised at) v =
      let (legal, world) = after_event w s (gives tests_thread) v in ground arith
  Step-IsLocked poll w {s} (rst_calls call at) v = ground arith
  Step-IsLocked poll w {s} (rst_acquires call at free) v =
      let (legal, world) = after_event w s (takes tests_thread) v in ground arith
  Step-IsLocked poll w {s} (rst_sets call at fine) v =
      let (legal, world) = after_event w s (does tests_thread call) v in ground arith
  Step-IsLocked poll w {s} (rst_raises call e at bad) v =
      let (legal, world) = after_event w s (does tests_thread call) v in ground arith
  Step-IsLocked poll w {s} (rst_releases at) v =
      let (legal, world) = after_event w s (gives tests_thread) v in ground arith
  Step-IsLocked poll w {s} (test_stops at) v = ground arith
  Step-IsLocked poll w {s} (unlocked call) v =
      let (legal, world) = after_event w s (changes call) v in ground arith

  pub start-IsLocked : (w : S) → IsLocked w (start_of w)
  unfolding lock_after replay
  start-IsLocked w = record {
    owned = refl;
    exclusive = refl;
    once = refl;
    history = refl;
    world_is = refl;
  }

  pub Reach-IsLocked :
      (poll : Block S) (w : S) {s t : System S} → IsLocked w s → Reach poll s t → IsLocked w t
  Reach-IsLocked poll w v here = v
  Reach-IsLocked poll w v (next r step) = Step-IsLocked poll w step (Reach-IsLocked poll w v r)

  -- In every state that the thread of the deproxy manager and the thread of the tests can reach
  -- from the start, with their steps in any order, any call raising, and changes that take no
  -- lock at any time, the history is one that a lock allows (it is taken when it is free only,
  -- and only its owner gives it back or does what it protects), and the lock's owner after it is
  -- the thread that is in its block, or the tests' thread if `setsockopt` of
  -- `set_rst_tcp_to_closing_connection` has raised; the lock is held exactly if there is such a
  -- thread, the two are never in their blocks at once, and the world is what the calls of the
  -- history make of the first one.
  pub Reach-lock_after :
      (poll : Block S) (w : S) (s : System S)
      → Reach poll (start_of w) s
      → (lock_after none s.log ≡ some (owner s))
        × (s.held ≡ (manager_holds s.manager || (tests_hold s.tests || s.lost)))
        × ((manager_holds s.manager && tests_hold s.tests) ≡ false)
        × (replay s.log w ≡ s.world)
  Reach-lock_after poll w s r =
      let v = Reach-IsLocked poll w (start-IsLocked w) r in
      (v.history, v.owned, apart v, v.world_is)
    where
      apart : IsLocked w s → (manager_holds s.manager && tests_hold s.tests) ≡ false
      apart v = ground (arith, v.exclusive)
