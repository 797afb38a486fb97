-- ===== src/Network/Interfaces.antt =====
-- The addresses of the interface aliases that framework/helpers/networker.py creates.
use mathlib.Core.Option.{some_inj}
use native.Mathlib.Nat.{add-zero, add_assoc}
use tempesta_test.Base.{
  inl, inr, length-append, ◌++◌, ◌⊎◌, ℕ, zero, suc, ◌+◌, ◌≤◌, ◌≡◌, refl, ap, ◌∙◌, List, [], ◌∷◌,
  some, length, get_elem?, ok, arith,
}
use tempesta_test.Text.{Text}
use tempesta_test.Network.{
  add_command, Command, NetWorker, create_interface, create_from, create_interfaces,
}
use tempesta_test.Network.Address.{ip_number_to_str, ip_number_to_str_ok, ip_number_to_str_inj}

-- One address for each number from a first one on.
pub record AreFrom (first number : ℕ) (ips : List Text) : Type 0 where
  pub number_is : length ips ≡ number
  pub address_is :
      (k : ℕ) (ip : Text) → get_elem? ips k ≡ some ip → ip_number_to_str (first + k) ≡ ok ip

AreFrom-cons :
    (first number : ℕ) (ip : Text) (ips : List Text)
    → ip_number_to_str first ≡ ok ip
    → AreFrom (first + 1) number ips
    → AreFrom first (suc number) (ip ∷ ips)
AreFrom-cons first number ip ips h v = record {
  number_is = omega (arith, v.number_is);
  address_is = address;
}
  where
    address :
        (k : ℕ) (s : Text) → get_elem? (ip ∷ ips) k ≡ some s → ip_number_to_str (first + k) ≡ ok s
    address zero s e = ap ip_number_to_str (add-zero first) ∙ h ∙ ap ok (some_inj.0 e)
    address (suc k) s e = ap ip_number_to_str (omega arith) ∙ v.address_is k s e

get_elem?-snoc :
    (l : List Text) (x : Text) (k : ℕ) (s : Text)
    → get_elem? (l ++ x ∷ []) k ≡ some s
    → (get_elem? l k ≡ some s) ⊎ ((k ≡ length l) × (x ≡ s))
get_elem?-snoc [] x zero s h = inr (refl, some_inj.0 h)
get_elem?-snoc [] x (suc k) s h = absurd (ground arith)
get_elem?-snoc (y ∷ l) x zero s h = inl h
get_elem?-snoc (y ∷ l) x (suc k) s h = elim (get_elem?-snoc l x k s h) [
  | inl before ↦ inl before
  | inr (at_end, e) ↦ inr (omega arith, e)
]

-- One address more, of the next number.
pub AreFrom-snoc :
    (first number : ℕ) (ips : List Text) (ip : Text)
    → AreFrom first number ips
    → ip_number_to_str (first + number) ≡ ok ip
    → AreFrom first (number + 1) (ips ++ ip ∷ [])
AreFrom-snoc first number ips ip v h = record {
  number_is = omega (arith, v.number_is, length-append ips (ip ∷ []));
  address_is = address;
}
  where
    address :
        (k : ℕ) (s : Text)
        → get_elem? (ips ++ ip ∷ []) k ≡ some s
        → ip_number_to_str (first + k) ≡ ok s
    address k s e = elim (get_elem?-snoc ips ip k s e) [
      | inl before ↦ v.address_is k s before
      | inr (at_end, same_ip) ↦
          ap (λ j. ip_number_to_str (first + j)) (at_end ∙ v.number_is) ∙ h ∙ ap ok same_ip
    ]

-- The addresses differ from each other.
pub AreFrom-distinct :
    (first number : ℕ) (ips : List Text)
    → AreFrom first number ips
    → (j k : ℕ) (ip : Text) → get_elem? ips j ≡ some ip
    → get_elem? ips k ≡ some ip
    → j ≡ k
AreFrom-distinct first number ips v j k ip at_j at_k =
    omega (arith, ip_number_to_str_inj _ _ ip (v.address_is j ip at_j) (v.address_is k ip at_k))

module _ {W : Type 0} (node dst_node : Command W) (n : NetWorker) where
  create_from-suc :
      (i number : ℕ) (w : W) (ip : Text) (ips : List Text) (w' : W)
      → ip_number_to_str (n.base_number + i) ≡ ok ip
      → create_from node dst_node n (i + 1) number (node (add_command n i ip) w).0 ≡ ok (ips, w')
      → create_from node dst_node n i (suc number) w ≡ ok (ip ∷ ips, w')
  unfolding create_from create_interface
  create_from-suc i number w ip ips w' is_ip created = ground arith

  create_from-AreFrom :
      (i number : ℕ) (w : W)
      → n.base_number + i + number ≤ 4294967296
      → (ips : List Text) × (w' : W) × (create_from node dst_node n i number w ≡ ok (ips, w'))
        × AreFrom (n.base_number + i) number ips
  unfolding create_from create_interface
  create_from-AreFrom i zero w h =
      ([], w, refl, record { number_is = refl; address_is = λ k ip e. cc })
  create_from-AreFrom i (suc number) w h =
      let (ip, is_ip) = ip_number_to_str_ok (n.base_number + i) (omega arith) in
      let (ips, w', created, v) =
        create_from-AreFrom (i + 1) number (node (add_command n i ip) w).0 (omega arith) in
      (
        ip ∷ ips,
        w',
        create_from-suc i number w ip ips w' is_ip created,
        AreFrom-cons (n.base_number + i) number ip ips is_ip (rw (add_assoc n.base_number i 1) v),
      )

  -- If the base address and the number of aliases add up to at most 2^32, then
  -- `create_interfaces` returns as many addresses, which differ from each other, whatever the
  -- commands on the node raise.
  pub create_interfaces-AreFrom :
      (number : ℕ) (w : W)
      → n.base_number + number ≤ 4294967296
      → (ips : List Text) × (w' : W) × (create_interfaces node dst_node n number w ≡ ok (ips, w'))
        × (length ips ≡ number)
        × ((j k : ℕ) (ip : Text) → get_elem? ips j ≡ some ip → get_elem? ips k ≡ some ip → j ≡ k)
  unfolding create_interfaces
  create_interfaces-AreFrom number w h =
      let (ips, w', created, v) = create_from-AreFrom 0 number w (omega arith) in
      (ips, w', created, v.number_is, AreFrom-distinct _ number ips v)
