-- ===== src/Network/Restore.antt =====
-- The settings of interfaces that framework/helpers/networker.py changes for a test and puts back. What
-- a command sets and what the kernel then says are parameters, with the law that a setting which was
-- put without an exception is there, and no other is changed.
use tempesta_test.Base.{
  ℕ, ◌≡◌, Bool, true, false, ◌&&◌, List, [], ◌∷◌, Option, none, some, if◌then◌else◌, ◌==◌, Error,
}
use tempesta_test.Text.{Text, one_of}

pub data Knob : Type 0 where
  mtu mtu_expires ip_no_pmtu_disc tso gro gso : Knob

abbrev pub same_knob : Knob → Knob → Bool
same_knob mtu mtu = true
same_knob mtu_expires mtu_expires = true
same_knob ip_no_pmtu_disc ip_no_pmtu_disc = true
same_knob tso tso = true
same_knob gro gro = true
same_knob gso gso = true
same_knob _ _ = false

-- A world after a call, and what the call raised.
abbrev pub Outcome : Type 0 → Type 0
Outcome W = W × Option Error

-- The node of a networker, and the settings that it found at its start.
pub record Saved : Type 0 where
  pub node : ℕ
  pub prev : Knob → ℕ
  pub prev_ipv6 : List Text

pub record Kernel (W : Type 0) : Type 0 where
  pub get : ℕ → Knob → W → ℕ
  pub put : ℕ → Knob → ℕ → W → Outcome W
  pub ipv6 : ℕ → W → List Text
  pub add_ipv6 : ℕ → Text → W → Outcome W

-- The documented effect of `ip link set`, `sysctl -w`, `ethtool -K` and `ip addr add`.
pub record IsLawful {W : Type 0} (k : Kernel W) : Type 0 where
  pub get-put :
      (n m v : ℕ) (i j : Knob) (w : W)
      → (k.put n i v w).1 ≡ none
      → k.get m j (k.put n i v w).0 ≡ (if (n == m) && same_knob i j then v else k.get m j w)
  pub get-add_ipv6 :
      (n m : ℕ) (a : Text) (j : Knob) (w : W) → k.get m j (k.add_ipv6 n a w).0 ≡ k.get m j w

-- One call after another, up to one that raises.
abbrev pub and_then : {W : Type 0} → Outcome W → (W → Outcome W) → Outcome W
and_then (w, none) next = next w
and_then (w, some e) next = (w, some e)

module _ {W : Type 0} (k : Kernel W) where
  unfoldable pub new_networker : ℕ → W → Saved
  new_networker n w = record { node = n; prev = λ j. k.get n j w; prev_ipv6 = k.ipv6 n w }

  unfoldable pub put_all : ℕ → List (Knob × ℕ) → W → Outcome W
  put_all n [] w = (w, none)
  put_all n ((j, v) ∷ l) w = and_then (k.put n j v w) (put_all n l)

  -- `_restore_ipv6_addresses`
  unfoldable pub add_missing : ℕ → List Text → List Text → W → Outcome W
  add_missing n current [] w = (w, none)
  add_missing n current (a ∷ l) w =
      if one_of a current
      then add_missing n current l w
      else and_then (k.add_ipv6 n a w) (add_missing n current l)

  unfoldable pub change_mtu : ℕ → Bool → Saved → W → Outcome W
  unfolding put_all
  change_mtu size disable_pmtu s =
      put_all s.node
        ((mtu, size) ∷ (mtu_expires, 0) ∷ (if disable_pmtu then (ip_no_pmtu_disc, 1) ∷ [] else []))

  unfoldable pub restore_interface_settings : Saved → W → Outcome W
  unfolding put_all add_missing
  restore_interface_settings s w =
      and_then
        (put_all s.node
          ((mtu, s.prev mtu)
            ∷ (mtu_expires, s.prev mtu_expires)
            ∷ (ip_no_pmtu_disc, s.prev ip_no_pmtu_disc)
            ∷ [])
          w)
        (λ w'. add_missing s.node (k.ipv6 s.node w') s.prev_ipv6 w')

  unfoldable pub change_tso_gro_gso : Bool → Saved → W → Outcome W
  unfolding put_all
  change_tso_gro_gso on s =
      let v = if on then 1 else 0 in put_all s.node ((tso, v) ∷ (gro, v) ∷ (gso, v) ∷ [])

  unfoldable pub restore_tso_gro_gso : Saved → W → Outcome W
  unfolding put_all
  restore_tso_gro_gso s =
      put_all s.node ((tso, s.prev tso) ∷ (gro, s.prev gro) ∷ (gso, s.prev gso) ∷ [])

-- `for networker in networkers`
unfoldable pub for_each : {W : Type 0} → (Saved → W → Outcome W) → List Saved → W → Outcome W
for_each f [] w = (w, none)
for_each f (s ∷ l) w = and_then (f s w) (for_each f l)

-- `try` with a `finally`: what the end raises takes the place of what the body raised.
unfoldable pub finally : {W : Type 0} → (W → Outcome W) → (W → Outcome W) → W → Outcome W
finally body end w =
    let out = body w in
    let ended = end out.0 in elim ended.1 [ none ↦ (ended.0, out.1) | some e ↦ (ended.0, some e) ]

-- `change_mtu_and_restore_interfaces` for the networkers, around a body.
unfoldable pub change_mtu_and_restore :
    {W : Type 0} → Kernel W → List Saved → ℕ → Bool → (W → Outcome W) → W → Outcome W
unfolding finally for_each change_mtu restore_interface_settings
change_mtu_and_restore k networkers size disable_pmtu body =
    finally (λ w. and_then (for_each (change_mtu k size disable_pmtu) networkers w) body)
      (for_each (restore_interface_settings k) networkers)

-- `change_and_restore_tso_gro_gso`
unfoldable pub change_and_restore_tso_gro_gso :
    {W : Type 0} → Kernel W → List Saved → Bool → ℕ → (W → Outcome W) → W → Outcome W
unfolding change_mtu_and_restore finally for_each change_tso_gro_gso restore_tso_gro_gso
change_and_restore_tso_gro_gso k networkers on size body =
    change_mtu_and_restore k networkers size false (
      finally (λ w. and_then (for_each (change_tso_gro_gso k on) networkers w) body)
        (for_each (restore_tso_gro_gso k) networkers))
