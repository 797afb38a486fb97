-- ===== src/Manager/Settling.antt =====
-- When the lock of the deproxy's two threads is free again: after every block, but not after a
-- `setsockopt` under it that raises.
use tempesta_test.Base.{
  ◌≡◌, refl, ◌∙◌, ◌⊎◌, true, false, List, [], ◌∷◌, none, some, inl, inr, Option-cases, Bool-cases,
  arith,
}
use tempesta_test.Manager.Threads.{
  Call, Block, ManagerAt, TestsAt, System, Step, Reach, start_of, checking, acquiring, releasing,
  ended, polling, failing, failed, outside, waiting, inside, leaving, asking, setting,
  set_option_done, goes_on, exits, acquires, polls, poll_raises, polled, releases, fails, records,
  test_calls, test_acquires, test_runs, test_raises, test_ran, test_releases, rst_calls,
  rst_acquires, rst_sets, rst_raises, rst_releases, test_stops, unlocked, here, next,
}
use tempesta_test.Manager.Serial.{
  manager_holds, tests_hold, IsLocked, Step-IsLocked, start-IsLocked, Reach-IsLocked,
}

module _ {S : Type 0} where
  -- The lock is taken in every state that can follow.
  abbrev pub StaysHeld : Block S → System S → Type 0
  StaysHeld poll s = (t : System S) → Reach poll s t → t.held ≡ true

  -- After some further steps the lock is free, or will never be.
  abbrev pub Settles : Block S → System S → Type 0
  Settles poll s =
      (t : System S) × Reach poll s t × ((t.held ≡ false) ⊎ ((t.lost ≡ true) × StaysHeld poll t))

  Step-lost : (poll : Block S) {s t : System S} → Step poll s t → s.lost ≡ true → t.lost ≡ true
  Step-lost poll (rst_raises call e at bad) h = refl
  Step-lost poll (goes_on at on) h = h
  Step-lost poll (exits at over) h = h
  Step-lost poll (acquires at free) h = h
  Step-lost poll (polls call rest at fine) h = h
  Step-lost poll (poll_raises call rest e at bad) h = h
  Step-lost poll (polled at) h = h
  Step-lost poll (releases at) h = h
  Step-lost poll (fails e at) h = h
  Step-lost poll (records e at) h = h
  Step-lost poll (test_calls b at) h = h
  Step-lost poll (test_acquires b at free) h = h
  Step-lost poll (test_runs call rest at fine) h = h
  Step-lost poll (test_raises call rest e at bad) h = h
  Step-lost poll (test_ran at) h = h
  Step-lost poll (test_releases raised at) h = h
  Step-lost poll (rst_calls call at) h = h
  Step-lost poll (rst_acquires call at free) h = h
  Step-lost poll (rst_sets call at fine) h = h
  Step-lost poll (rst_releases at) h = h
  Step-lost poll (test_stops at) h = h
  Step-lost poll (unlocked call) h = h

  Reach-lost : (poll : Block S) {s t : System S} → s.lost ≡ true → Reach poll s t → t.lost ≡ true
  Reach-lost poll h here = h
  Reach-lost poll h (next r step) = Step-lost poll step (Reach-lost poll h r)

  lost-StaysHeld :
      (poll : Block S) (w : S) (s : System S) → IsLocked w s → s.lost ≡ true → StaysHeld poll s
  lost-StaysHeld poll w s v h t r = held (Reach-IsLocked poll w v r) (Reach-lost poll h r)
    where
      held : IsLocked w t → t.lost ≡ true → t.held ≡ true
      held u lost = ground (arith, u.owned)

  Reach-trans :
      (poll : Block S) {s t u : System S} → Reach poll s t → Reach poll t u → Reach poll s u
  Reach-trans poll r here = r
  Reach-trans poll r (next q step) = next (Reach-trans poll r q) step

  after : (poll : Block S) (s t : System S) → Step poll s t → Settles poll t → Settles poll s
  after poll s t step (u, r, ends) = (u, Reach-trans poll (next here step) r, ends)

  polling-Settles :
      (poll : Block S) (l : List (Call S)) (s : System S) → s.manager ≡ polling l → Settles poll s
  polling-Settles poll [] s at = after poll s _ (polled at) (_, next here (releases refl), inl refl)
  polling-Settles poll (call ∷ rest) s at = elim (Option-cases (call s.world).1) [
    | inl fine ↦ after poll s _ (polls call rest at fine) (polling-Settles poll rest _ refl)
    | inr (e, bad) ↦
        after poll s _ (poll_raises call rest e at bad) (_, next here (fails e refl), inl refl)
  ]

  inside-Settles :
      (poll : Block S) (l : List (Call S)) (s : System S) → s.tests ≡ inside l → Settles poll s
  inside-Settles poll [] s at =
      after poll s _ (test_ran at) (_, next here (test_releases none refl), inl refl)
  inside-Settles poll (call ∷ rest) s at = elim (Option-cases (call s.world).1) [
    | inl fine ↦ after poll s _ (test_runs call rest at fine) (inside-Settles poll rest _ refl)
    | inr (e, bad) ↦
        after poll s _ (test_raises call rest e at bad)
          (_, next here (test_releases (some e) refl), inl refl)
  ]

  setting-Settles :
      (poll : Block S) (w : S) (call : Call S) (s : System S)
      → IsLocked w s
      → s.tests ≡ setting call
      → Settles poll s
  setting-Settles poll w call s v at = elim (Option-cases (call s.world).1) [
    | inl fine ↦ after poll s _ (rst_sets call at fine) (_, next here (rst_releases refl), inl refl)
    | inr (e, bad) ↦ (
      _,
      next here (rst_raises call e at bad),
      inr (refl, lost-StaysHeld poll w _ (Step-IsLocked poll w (rst_raises call e at bad) v) refl),
    )
  ]

  manager-Settles :
      (poll : Block S) (s : System S) (m : ManagerAt S)
      → s.manager ≡ m
      → manager_holds m ≡ true
      → Settles poll s
  manager-Settles poll s checking at h = absurd (ground arith)
  manager-Settles poll s acquiring at h = absurd (ground arith)
  manager-Settles poll s ended at h = absurd (ground arith)
  manager-Settles poll s releasing at h = (_, next here (releases at), inl refl)
  manager-Settles poll s (polling l) at h = polling-Settles poll l s at
  manager-Settles poll s (failing e) at h = (_, next here (fails e at), inl refl)
  manager-Settles poll s (failed e) at h = absurd (ground arith)

  tests-Settles :
      (poll : Block S) (w : S) (s : System S) (t : TestsAt S)
      → IsLocked w s
      → s.tests ≡ t
      → tests_hold t ≡ true
      → Settles poll s
  tests-Settles poll w s outside v at h = absurd (ground arith)
  tests-Settles poll w s (waiting b) v at h = absurd (ground arith)
  tests-Settles poll w s (inside l) v at h = inside-Settles poll l s at
  tests-Settles poll w s (leaving o) v at h = (_, next here (test_releases o at), inl refl)
  tests-Settles poll w s (asking call) v at h = absurd (ground arith)
  tests-Settles poll w s (setting call) v at h = setting-Settles poll w call s v at
  tests-Settles poll w s set_option_done v at h = (_, next here (rst_releases at), inl refl)

  -- From every state that the two threads can reach, also one in which a call under the lock has
  -- raised, there are further steps after which the lock is free, or `setsockopt` of
  -- `set_rst_tcp_to_closing_connection` has raised under the lock, and then the lock is held in
  -- every state that follows.
  pub Reach-Settles :
      (poll : Block S) (w : S) (s : System S) → Reach poll (start_of w) s → Settles poll s
  Reach-Settles poll w s r =
      let v = Reach-IsLocked poll w (start-IsLocked w) r in
      elim (Bool-cases (manager_holds s.manager)) [
        | inl managed ↦ manager-Settles poll s s.manager refl managed
        | inr unmanaged ↦ elim (Bool-cases (tests_hold s.tests)) [
          | inl tested ↦ tests-Settles poll w s s.tests v refl tested
          | inr free ↦ elim (Bool-cases s.lost) [
            | inl lost ↦ (s, here, inr (lost, lost-StaysHeld poll w s v lost))
            | inr kept ↦ (s, here, inl (v.owned ∙ (rw (unmanaged, free, kept))))
          ]
        ]
      ]
