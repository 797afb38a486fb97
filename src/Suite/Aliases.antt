-- ===== src/Suite/Aliases.antt =====
-- The clients of a test that want an interface of their own get addresses of their own.
use tempesta_test.Base.{
  Option, length-append, not, check, value_error, ℕ, ◌+◌, ◌≡◌, ◌≢◌, ◌∙◌, ap, refl, Bool, true,
  false, ◌&&◌, ◌||◌, List, [], ◌∷◌, ◌++◌, some, none, if◌then◌else◌, length, get_elem?, ok, Returns,
  >>=-Returns, >>=-Returns_of, Returns-ok, Result-cases, inl, inr, arith,
}
use tempesta_test.Text.{Text, codes, same}
use tempesta_test.Template.{Properties, property}
use tempesta_test.TfCfg.{Config, Interpolation, get, populate_properties}
use tempesta_test.Network.{Command, NetWorker, create_interface}
use tempesta_test.Network.Address.{ip_number_to_str}
use tempesta_test.Network.Interfaces.{AreFrom, AreFrom-snoc, AreFrom-distinct}
use tempesta_test.Suite.Creation.{
  Description, Making, Created, bind, add_created, created_by_type, is_deproxy, flag, create_client,
  create_clients,
}

module _ {W : Type 0} (node dst_node : Command W) (n : NetWorker) (kvs : Properties)
    (p : Interpolation) (cfg : Config) where
  create_interface-address :
      (k : ℕ) (w : W)
      → Returns
          (λ made. ip_number_to_str (n.base_number + k) ≡ ok made.0.1)
          (create_interface node dst_node n k w)
  unfolding create_interface
  create_interface-address k w = elim (Result-cases (ip_number_to_str (n.base_number + k))) [
    | inl (ip, is_ip) ↦ rw (Returns, create_interface, is_ip) is_ip
    | inr (e, raised) ↦ rw (Returns, create_interface, raised) tt
  ]

  -- The aliases of a test are numbered from the base address on.
  abbrev IsNumbered : Making W → Type 0
  IsNumbered m = AreFrom n.base_number (length m.ips) m.ips

  bind-IsNumbered :
      (interface : Bool) (client_ip : Text) (m : Making W)
      → IsNumbered m
      → Returns (λ bound. IsNumbered bound.1) (bind node dst_node n interface client_ip m)
  unfolding bind
  bind-IsNumbered false client_ip m v = v
  bind-IsNumbered true client_ip m v =
      >>=-Returns_of (λ made. ip_number_to_str (n.base_number + length m.ips) ≡ ok made.0.1)
        (λ bound. IsNumbered bound.1) (create_interface node dst_node n (length m.ips) m.world) _
        (create_interface-address (length m.ips) m.world) (λ made is_ip. more made.0.1 is_ip)
    where
      more :
          (ip : Text)
          → ip_number_to_str (n.base_number + length m.ips) ≡ ok ip
          → AreFrom n.base_number (length (m.ips ++ ip ∷ [])) (m.ips ++ ip ∷ [])
      more ip is_ip =
          rw (length-append m.ips (ip ∷ []))
            (AreFrom-snoc n.base_number (length m.ips) m.ips ip v is_ip)

  add_created-IsNumbered :
      (cid ctype : Text) (c : Option Created) (m : Making W)
      → IsNumbered m
      → IsNumbered (add_created cid ctype c m)
  unfolding add_created
  add_created-IsNumbered cid ctype none m v = v
  add_created-IsNumbered cid ctype (some c) m v = v

  create_client-IsNumbered :
      (d : Description) (m : Making W)
      → IsNumbered m
      → Returns IsNumbered (create_client node dst_node n kvs p cfg d m)
  unfolding create_client
  create_client-IsNumbered described m v =
      let texts = populate_properties kvs described.texts in
      let d = record described { texts = texts } in
      let is_ipv6 = flag "is_ipv6" d in
      let interface = flag "interface" d in
      >>=-Returns IsNumbered (property (codes "id") texts) _ (λ cid.
        >>=-Returns IsNumbered (property (codes "type") texts) _ (λ ctype.
          >>=-Returns IsNumbered (check (not (is_ipv6 && interface)) value_error) _ (λ refused.
            >>=-Returns IsNumbered
              (get p (codes "Client") (if is_ipv6 then codes "ipv6" else codes "ip") cfg) _
              (λ client_ip.
                let own = interface && (is_deproxy ctype || same ctype (codes "curl")) in
                >>=-Returns_of (λ (bound : Text × Making W). IsNumbered bound.1) IsNumbered
                  (bind node dst_node n own client_ip m) _ (bind-IsNumbered own client_ip m v)
                  (λ bound w.
                    >>=-Returns IsNumbered (created_by_type cid ctype bound.0 d) _
                      (λ made. add_created-IsNumbered cid ctype made bound.1 w))))))

  create_clients-IsNumbered :
      (l : List Description) (m : Making W)
      → IsNumbered m
      → Returns IsNumbered (create_clients node dst_node n kvs p cfg l m)
  unfolding create_clients
  create_clients-IsNumbered [] m v = v
  create_clients-IsNumbered (d ∷ l) m v =
      >>=-Returns_of IsNumbered IsNumbered (create_client node dst_node n kvs p cfg d m) _
        (create_client-IsNumbered d m v) (create_clients-IsNumbered l)

  -- If making the clients of a test from their descriptions returns, on any node and
  -- configuration, then no two of the addresses that were made for clients with an interface of
  -- their own are the same.
  pub create_clients-distinct :
      (l : List Description) (m : Making W) (w : W)
      → create_clients node dst_node n kvs p cfg l
          (record { ips = []; clients = []; managed = []; world = w })
        ≡ ok m
      → (j k : ℕ) (ip ip' : Text) → j ≢ k
      → get_elem? m.ips j ≡ some ip
      → get_elem? m.ips k ≡ some ip'
      → ip ≢ ip'
  create_clients-distinct l m w h j k ip ip' differ at_j at_k same_ip = differ (
      AreFrom-distinct n.base_number (length m.ips) m.ips
        (Returns-ok IsNumbered _
          (create_clients-IsNumbered l _
            (record { number_is = refl; address_is = λ i s e. absurd (ground arith) }))
          h)
        j k ip' (at_j ∙ ap some same_ip) at_k)
