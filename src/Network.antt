-- ===== src/Network.antt =====
-- `NetWorker` of framework/helpers/networker.py: interface aliases and routes by the commands that
-- they run on a node. Commands act on a world of any type and may raise.
pub mod Address
pub mod Interfaces
pub mod Restore
pub mod Restored
use tempesta_test.Base.{
  ℕ, zero, suc, ◌+◌, Bool, true, false, not, List, [], ◌∷◌, ◌++◌, Option, none, some, if◌then◌else◌,
  Error, Result, ok, raise,
}
use tempesta_test.Text.{Text, codes, one_of, to_base}
use tempesta_test.Network.Address.{ip_number_to_str}

-- Running a command: the world after it, and whether it raised.
abbrev pub Command : Type 0 → Type 0
Command W = Text → W → W × Option Error

-- What a networker knows: its interface's name, the number of `aliases_base_ip` as `inet_aton` has it,
-- its gateway, and the addresses that must stay.
pub record NetWorker : Type 0 where
  pub interface_name : Text
  pub base_number : ℕ
  pub gateway_ip : Text
  pub non_removing_ips : List Text

-- `_check_ssh_ip_addr`
unfoldable pub check_ssh_ip_addr : NetWorker → Text → Bool
check_ssh_ip_addr n ip = not (one_of ip n.non_removing_ips)

abbrev pub iface_of : NetWorker → ℕ → Text
iface_of n iface_id = n.interface_name ++ (codes ":" ++ to_base 10 iface_id)

abbrev pub add_command : NetWorker → ℕ → Text → Text
add_command n iface_id ip =
    codes "LANG=C ip address add "
    ++ (ip ++ (codes "/24 dev " ++ (n.interface_name ++ (codes " label " ++ iface_of n iface_id))))

module _ {W : Type 0} (node dst_node : Command W) (n : NetWorker) where
  -- `create_interface`: what the command raises is passed over.
  unfoldable pub create_interface : ℕ → W → Result ((Text × Text) × W)
  create_interface iface_id w = elim (ip_number_to_str (n.base_number + iface_id)) [
    | raise e ↦ raise e
    | ok iface_ip ↦
        ok ((iface_of n iface_id, iface_ip), (node (add_command n iface_id iface_ip) w).0)
  ]

  -- The loop of `create_interfaces`, from the identifier `i` on.
  unfoldable pub create_from : ℕ → ℕ → W → Result (List Text × W)
  create_from i zero w = ok ([], w)
  create_from i (suc number) w = elim (create_interface i w) [
    | raise e ↦ raise e
    | ok ((iface, ip), w') ↦ elim (create_from (i + 1) number w') [
      | raise e ↦ raise e
      | ok (ips, w'') ↦ ok (ip ∷ ips, w'')
    ]
  ]

  unfoldable pub create_interfaces : ℕ → W → Result (List Text × W)
  unfolding create_from create_interface
  create_interfaces = create_from 0

  unfoldable pub remove_interface : Text → W → W
  unfolding check_ssh_ip_addr
  remove_interface ip w =
      if check_ssh_ip_addr n ip
      then (node (codes "LANG=C ip address del " ++ (ip ++ (codes "/24 dev " ++ n.interface_name)))
          w).0
      else w

  unfoldable pub remove_interfaces : List Text → W → W
  unfolding remove_interface
  remove_interfaces [] w = w
  remove_interfaces (ip ∷ l) w = remove_interfaces l (remove_interface ip w)

  unfoldable pub create_route : Text → W → W
  create_route ip w =
      (dst_node
        (codes "LANG=C ip route add "
          ++ (ip ++ (codes " via " ++ (n.gateway_ip ++ (codes " dev " ++ n.interface_name)))))
        w).0

  unfoldable pub create_routes : List Text → W → W
  unfolding create_route
  create_routes [] w = w
  create_routes (ip ∷ l) w = create_routes l (create_route ip w)

  unfoldable pub remove_route : Text → W → W
  unfolding check_ssh_ip_addr
  remove_route ip w =
      if check_ssh_ip_addr n ip
      then (dst_node (codes "LANG=C ip route del " ++ (ip ++ (codes " dev " ++ n.interface_name)))
          w).0
      else w

  unfoldable pub remove_routes : List Text → W → W
  unfolding remove_route
  remove_routes [] w = w
  remove_routes (ip ∷ l) w = remove_routes l (remove_route ip w)

  -- `create_and_cleanup_interfaces` around a body, which gets the addresses. If creating them raises,
  -- none is removed.
  unfoldable pub create_and_cleanup_interfaces :
      ℕ → (List Text → W → W × Option Error) → W → Result (W × Option Error)
  unfolding create_interfaces create_routes remove_routes remove_interfaces
  create_and_cleanup_interfaces number body w = elim (create_interfaces number w) [
    | raise e ↦ raise e
    | ok (ips, created) ↦
        let done = body ips (create_routes ips created) in
        ok (remove_interfaces ips (remove_routes ips done.0), done.1)
  ]
