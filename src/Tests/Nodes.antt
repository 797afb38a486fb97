-- ===== src/Tests/Nodes.antt =====
-- Tests of framework/deproxy/deproxy_manager.py and framework/helpers/networker.py.
use tempesta_test.Base.{
  ◌||◌, ℕ, ◌+◌, ◌≡◌, refl, true, false, ◌&&◌, List, [], ◌∷◌, ◌++◌, map, none, some, value_error,
  runtime_error, ok, if◌then◌else◌, ◌==◌, length, get_elem?, arith,
}
use tempesta_test.Text.{Text, codes, to_base}
use tempesta_test.Manager.{flags_of}
use tempesta_test.Manager.Threads.{
  Call, Block, System, start_of, Reach, here, next, goes_on, test_calls, test_acquires, test_runs,
  test_raises, test_releases, unlocked, rst_calls, rst_acquires,
}
use tempesta_test.Manager.Serial.{
  manager_holds, tests_hold, owner, lock_after, replay, Reach-lock_after,
}
use tempesta_test.Manager.Settling.{Settles, Reach-Settles}
use tempesta_test.Network.{Command, NetWorker, create_interfaces}
use tempesta_test.Network.Address.{ip_number_to_str}
use tempesta_test.Network.Interfaces.{create_interfaces-AreFrom}
use tempesta_test.Network.Restore.{
  Knob, mtu, same_knob, Outcome, Kernel, IsLawful, new_networker, change_mtu, for_each,
  restore_interface_settings, change_mtu_and_restore,
}
use tempesta_test.Network.Restored.{change_mtu_and_restore-IsRestored}

-- A socket that accepts is polled for reading only, although it says that it is writable.
accepting_flags : flags_of (record { readable = true; writable = true; accepting = true }) ≡ 3
unfolding flags_of
accepting_flags = refl

-- A world that counts the calls; a round of polling has one, and the tests' block raises at its second.
abbrev count : Call ℕ
count n = (n + 1, none)

abbrev trouble : Call ℕ
trouble n = (n + 10, some value_error)

abbrev polling : Block ℕ
polling n = count ∷ []

abbrev starting : Block ℕ
starting n = count ∷ trouble ∷ count ∷ []

-- The tests' thread takes the lock before the manager's, and releases it after its body has raised. A
-- client is changed without the lock in between.
abbrev released : (s : System ℕ) × Reach polling (start_of 0) s
released = (
  _,
  next
      (next
        (next
          (next
            (next (next (next here (test_calls starting refl)) (goes_on refl refl))
              (test_acquires starting refl refl))
            (test_runs count _ refl refl))
          (unlocked count))
        (test_raises trouble _ value_error refl refl))
      (test_releases (some value_error) refl),
)

-- A connection is to be closed with RST, and `setsockopt` is about to raise.
abbrev setting_rst : (s : System ℕ) × Reach polling (start_of 0) s
setting_rst = (_, next (next released.1 (rst_calls trouble refl)) (rst_acquires trouble refl refl))

Reach-lock_after_example :
    (lock_after none released.0.log ≡ some (owner released.0))
    × (released.0.held
        ≡ (manager_holds released.0.manager || (tests_hold released.0.tests || released.0.lost)))
    × ((manager_holds released.0.manager && tests_hold released.0.tests) ≡ false)
    × (replay released.0.log 0 ≡ released.0.world)
Reach-lock_after_example = Reach-lock_after polling 0 released.0 released.1

Reach-Settles_example : Settles polling setting_rst.0
Reach-Settles_example = Reach-Settles polling 0 setting_rst.0 setting_rst.1

world_released : released.0.world ≡ 12
world_released = refl

-- The default aliases, on a node that keeps the commands and fails at each.
abbrev failing_node : Command (List Text)
failing_node c w = (w ++ c ∷ [], some runtime_error)

abbrev networker : NetWorker
networker = record {
  interface_name = codes "enp1s0";
  base_number = 3232267010;
  gateway_ip = codes "127.0.0.3";
  non_removing_ips = codes "127.0.0.3" ∷ [];
}

create_interfaces-AreFrom_example :
    (ips : List Text) × (w : List Text) × (create_interfaces failing_node failing_node networker 2
        []
      ≡ ok (ips, w))
    × (length ips ≡ 2)
    × ((j k : ℕ) (ip : Text) → get_elem? ips j ≡ some ip → get_elem? ips k ≡ some ip → j ≡ k)
create_interfaces-AreFrom_example =
    create_interfaces-AreFrom failing_node failing_node networker 2 [] (omega arith)

base_ip : ip_number_to_str 3232267010 ≡ ok (codes "192.168.123.2")
unfolding ip_number_to_str to_base
base_ip = refl

-- Settings by node and knob, and commands that do not fail.
abbrev Settings : Type 0
Settings = ℕ → Knob → ℕ

abbrev kernel : Kernel Settings
kernel = record {
  get = λ n j w. w n j;
  put = λ n i v w. ((λ m j. if (n == m) && same_knob i j then v else w m j), none);
  ipv6 = λ n w. [];
  add_ipv6 = λ n a w. (w, none);
}

kernel-IsLawful : IsLawful kernel
kernel-IsLawful = record { get-put = λ n m v i j w h. refl; get-add_ipv6 = λ n m a j w. refl }

abbrev usual : Settings
usual n j = 1500

-- A body that sets the MTU of a node again, and raises.
abbrev breaking : Settings → Outcome Settings
breaking w = ((λ m j. 9000), some value_error)

change_mtu_and_restore-IsRestored_example :
    ((change_mtu_and_restore kernel
        (map (λ n. new_networker kernel n usual) (1 ∷ 2 ∷ []))
        100
        true
        breaking
        usual).1
      ≡ some value_error)
    × (kernel.get 2 mtu
          (change_mtu_and_restore kernel
            (map (λ n. new_networker kernel n usual) (1 ∷ 2 ∷ []))
            100
            true
            breaking
            usual).0
        ≡ 1500)
unfolding for_each restore_interface_settings new_networker change_mtu
change_mtu_and_restore-IsRestored_example =
    change_mtu_and_restore-IsRestored kernel kernel-IsLawful usual (1 ∷ 2 ∷ []) 100 true breaking
      usual 2 mtu refl refl
