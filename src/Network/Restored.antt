-- ===== src/Network/Restored.antt =====
-- After a test the settings of each node's interface are those from before it.
use tempesta_test.Base.{
  ℕ, ◌≡◌, refl, ◌∙◌, Bool, true, false, ◌||◌, List, [], ◌∷◌, none, some, if◌then◌else◌, ◌==◌,
  Bool-cases, Option-cases, inl, inr, arith, map, ==_iff,
}
use tempesta_test.Text.{Text, one_of}
use tempesta_test.Network.Restore.{
  Knob, mtu, mtu_expires, ip_no_pmtu_disc, tso, gro, gso, same_knob, Outcome, Saved, Kernel,
  IsLawful, and_then, put_all, add_missing, new_networker, change_mtu, restore_interface_settings,
  for_each, finally, change_mtu_and_restore,
}

abbrev pub is_restored : Knob → Bool
is_restored j = same_knob mtu j || (same_knob mtu_expires j || same_knob ip_no_pmtu_disc j)

abbrev pub is_among : ℕ → List ℕ → Bool
is_among n [] = false
is_among n (m ∷ l) = (m == n) || is_among n l

-- The value of a setting after a list of them was put.
abbrev after : List (Knob × ℕ) → Knob → ℕ → ℕ
after [] j old = old
after ((i, v) ∷ l) j old = after l j (if same_knob i j then v else old)

and_then-none :
    {W : Type 0} (o : Outcome W) (next : W → Outcome W)
    → (and_then o next).1 ≡ none
    → (o.1 ≡ none) × (and_then o next ≡ next o.0)
and_then-none (w, none) next h = (refl, refl)
and_then-none (w, some e) next h = absurd (ground arith)

after-prev :
    (prev : Knob → ℕ) (j : Knob) (old : ℕ)
    → is_restored j ≡ true
    → after
        ((mtu, prev mtu)
          ∷ (mtu_expires, prev mtu_expires)
          ∷ (ip_no_pmtu_disc, prev ip_no_pmtu_disc)
          ∷ [])
        j
        old
      ≡ prev j
after-prev prev mtu old r = refl
after-prev prev mtu_expires old r = refl
after-prev prev ip_no_pmtu_disc old r = refl
after-prev prev tso old r = absurd (ground arith)
after-prev prev gro old r = absurd (ground arith)
after-prev prev gso old r = absurd (ground arith)

if_idem : (b : Bool) (v : ℕ) → (if b then v else v) ≡ v
if_idem true v = refl
if_idem false v = refl

finally-none :
    {W : Type 0} (body end : W → Outcome W) (w : W)
    → (end (body w).0).1 ≡ none
    → finally body end w ≡ ((end (body w).0).0, (body w).1)
unfolding finally
finally-none body end w h = rw (finally, h) refl

module _ {W : Type 0} (k : Kernel W) (law : IsLawful k) where
  get-add_missing :
      (n m : ℕ) (j : Knob) (current l : List Text) (w : W)
      → k.get m j (add_missing k n current l w).0 ≡ k.get m j w
  unfolding add_missing
  get-add_missing n m j current [] w = refl
  get-add_missing n m j current (a ∷ l) w = elim (Bool-cases (one_of a current)) [
    | inl there ↦ rw (there) (get-add_missing n m j current l w)
    | inr missing ↦ elim (Option-cases (k.add_ipv6 n a w).1) [
      | inl fine ↦
          ground (
            arith,
            get-add_missing n m j current l (k.add_ipv6 n a w).0,
            law.get-add_ipv6 n m a j w,
          )
      | inr (e, raised) ↦ ground (arith, law.get-add_ipv6 n m a j w)
    ]
  ]

  get-put_all :
      (n m : ℕ) (j : Knob) (l : List (Knob × ℕ)) (w : W)
      → (put_all k n l w).1 ≡ none
      → k.get m j (put_all k n l w).0 ≡ (if n == m then after l j (k.get m j w) else k.get m j w)
  unfolding put_all
  get-put_all n m j [] w h = ground arith
  get-put_all n m j ((i, v) ∷ l) w h =
      let (fine, e) = and_then-none (k.put n i v w) (put_all k n l) h in
      let rest = get-put_all n m j l (k.put n i v w).0 (rw e at h) in
      let first = law.get-put n m v i j w fine in
      rw (e, rest, first)
        (elim (Bool-cases (n == m)) [ inl same ↦ rw (same) refl | inr other ↦ rw (other) refl ])

  -- What restoring one node without an exception leaves.
  get-restore_interface_settings :
      (s : Saved) (m : ℕ) (j : Knob) (w : W)
      → (restore_interface_settings k s w).1 ≡ none
      → is_restored j ≡ true
      → k.get m j (restore_interface_settings k s w).0
        ≡ (if s.node == m then s.prev j else k.get m j w)
  unfolding restore_interface_settings
  get-restore_interface_settings s m j w h r =
      let l =
        (mtu, s.prev mtu)
        ∷ (mtu_expires, s.prev mtu_expires)
        ∷ (ip_no_pmtu_disc, s.prev ip_no_pmtu_disc)
        ∷ [] in
      let (fine, e) = and_then-none (put_all k s.node l w) _ h in
      rw (e) (
        get-add_missing s.node m j _ s.prev_ipv6 (put_all k s.node l w).0
        ∙ get-put_all s.node m j l w fine
        ∙ (rw (after-prev s.prev j (k.get m j w) r) refl))

  -- The nodes' settings are those of the world in which the networkers were made.
  get-restore_all :
      (start : W) (nodes : List ℕ) (m : ℕ) (j : Knob) (w : W)
      → (for_each (restore_interface_settings k) (map (λ n. new_networker k n start) nodes) w).1
        ≡ none
      → is_restored j ≡ true
      → k.get m j
          (for_each (restore_interface_settings k) (map (λ n. new_networker k n start) nodes) w).0
        ≡ (if is_among m nodes then k.get m j start else k.get m j w)
  unfolding for_each new_networker
  get-restore_all start [] m j w h r = refl
  get-restore_all start (n ∷ nodes) m j w h r =
      let s = new_networker k n start in
      let (fine, e) = and_then-none (restore_interface_settings k s w) _ h in
      let rest =
        get-restore_all start nodes m j (restore_interface_settings k s w).0 (rw e at h) r in
      let first = get-restore_interface_settings s m j w fine r in
      rw (e, rest, first)
        (elim (Bool-cases (n == m)) [
          | inl same ↦ rw (same, (==_iff n m).0 same) (if_idem (is_among m nodes) _)
          | inr other ↦ rw (other) refl
        ])

  -- If a setting that was put without an exception is there and no other is changed, the
  -- networkers were made in one world, and restoring raises nothing, then after
  -- `change_mtu_and_restore_interfaces` around any body, whatever it changes or raises, the MTU,
  -- its expiry and the path MTU discovery of each of their nodes are those of that world and of
  -- other nodes those that the body left, and the exception is the one of changing the settings
  -- or of the body, if there is one.
  pub change_mtu_and_restore-IsRestored :
      (start : W) (nodes : List ℕ) (size : ℕ) (disable_pmtu : Bool) (body : W → Outcome W) (w : W)
      (m : ℕ) (j : Knob)
      → let networkers = map (λ n. new_networker k n start) nodes in
        let inside = and_then (for_each (change_mtu k size disable_pmtu) networkers w) body in
        (for_each (restore_interface_settings k) networkers inside.0).1 ≡ none
        → is_restored j ≡ true
        → ((change_mtu_and_restore k networkers size disable_pmtu body w).1 ≡ inside.1)
          × (k.get m j (change_mtu_and_restore k networkers size disable_pmtu body w).0
              ≡ (if is_among m nodes then k.get m j start else k.get m j inside.0))
  unfolding change_mtu_and_restore
  change_mtu_and_restore-IsRestored start nodes size disable_pmtu body w m j fine r =
      let networkers = map (λ n. new_networker k n start) nodes in
      let e =
        finally-none (λ v. and_then (for_each (change_mtu k size disable_pmtu) networkers v) body)
          (for_each (restore_interface_settings k) networkers) w fine in
      (rw (e) refl, rw (e) (get-restore_all start nodes m j _ fine r))
