-- ===== src/Config/Manager.antt =====
-- `ConfigurationManager` of configuration_manager/configuration_manager.py: the actions.
use cyclarity_in_vehicle_sdk.Prelude.{
  ℕ, zero, suc, Bool, true, false, not, ◌||◌, Option, none, some, List, [], ◌∷◌, map, if◌then◌else◌,
}
use cyclarity_in_vehicle_sdk.Python.{
  Exec, Result, ok, raised, pure, raise, lift, try_except, ◌>>=◌, ◌>>◌, index_error,
}
use cyclarity_in_vehicle_sdk.Python.Text.{codes}
use cyclarity_in_vehicle_sdk.Config.Netlink.{Netlink, CtrlMode}
use cyclarity_in_vehicle_sdk.Config.{
  Text, is_text, is_in, Flag, sum_flags, mask_flags, InterfaceState, up, down, unknown, lower,
  IpRoute, given_gateway, IpConfigurationParams, CanInterfaceConfigurationInfo, EthInterfaceParams,
  WifiConnect, CreateVlan, ConfigurationAction, ip_add_action, ip_remove_action,
  can_configuration_action, eth_interface_configuration_action, wifi_connect_action,
  create_vlan_action,
}

-- `link_lookup(...)[0]`
abbrev pub first_index : List ℕ → Result ℕ
first_index [] = raised index_error
first_index (index ∷ rest) = ok index

-- `self._can_ctrlmode_options.update(...)`: an option goes on, never off.
unfoldable pub update_options : CanInterfaceConfigurationInfo → CtrlMode → CtrlMode
update_options can_config options = record {
  cc_len8_dlc = can_config.cc_len8_dlc || options.cc_len8_dlc;
  fd = elim can_config.fd [ none ↦ options.fd | some dbitrate ↦ true ];
}

module _ (net : Netlink) where
  open net use {
    Outside, Route, is_netlink_error, is_activate_failed, flag_value, cidr_notation,
    dump_interfaces, enter_interface, leave_interface, addresses, add_ip, del_ip, index_of,
    create_route_by_gateway, create_route_by_interface, find_route, remove_route, write_flags,
    write_mtu, write_state, link_lookup, link_state, set_link_state, set_can, add_vlan,
    wifi_connect,
  }

  -- `with interfaces[name] as interface: body`
  unfoldable pub in_interface : {A : Type 0} → Text → Exec Outside A → Exec Outside A
  unfolding ◌>>=◌
  in_interface name body =
      enter_interface name >> (λ o. let (r, o') = body o in (leave_interface name >> lift r) o')

  unfoldable pub list_interfaces : Exec Outside (List Text)
  unfolding ◌>>=◌
  list_interfaces = dump_interfaces >>= λ dump. pure (map (λ interface. interface.ifname) dump)

  unfoldable pub is_interface_exists : Text → Exec Outside Bool
  unfolding list_interfaces is_in ◌>>=◌
  is_interface_exists ifname = list_interfaces >>= λ interfaces. pure (is_in ifname interfaces)

  -- What is done only for an interface that exists; otherwise that is logged.
  unfoldable pub when_exists : {A : Type 0} → Text → A → Exec Outside A → Exec Outside A
  unfolding is_interface_exists ◌>>=◌
  when_exists name otherwise m =
      is_interface_exists name >>= λ exists. if not exists then pure otherwise else m

  unfoldable pub list_ips : Text → Exec Outside (List Text)
  unfolding when_exists in_interface
  list_ips if_name =
      when_exists if_name []
        (in_interface if_name (addresses if_name >>= λ ips. pure (map (λ ip. ip.0.text) ips)))

  -- The route of an address that is added.
  unfoldable pub create_route : IpConfigurationParams → Option IpRoute → Exec Outside (Unit {0})
  unfolding ◌>>=◌
  create_route ip_config none = pure tt
  create_route ip_config (some route) = elim route.gateway [
    | some (c ∷ cs) ↦ create_route_by_gateway (cidr_notation ip_config.ip ip_config.suffix) (c ∷ cs)
    | _ ↦
        index_of ip_config.interface
        >>= create_route_by_interface (cidr_notation ip_config.ip ip_config.suffix)
  ]

  unfoldable pub configure_ip : IpConfigurationParams → Exec Outside (Unit {0})
  unfolding when_exists list_ips in_interface create_route is_in ◌>>=◌
  configure_ip ip_config = when_exists ip_config.interface tt (
      list_ips ip_config.interface >>= λ ips.
      if is_in ip_config.ip.text ips
      then pure tt
      else in_interface ip_config.interface (
          add_ip ip_config.interface ip_config.ip.text ip_config.suffix
          >> create_route ip_config ip_config.route))

  abbrev pub remove_found : Option Route → Exec Outside (Unit {0})
  remove_found none = pure tt
  remove_found (some route) = remove_route route

  unfoldable pub delete_route : IpConfigurationParams → Option IpRoute → Exec Outside (Unit {0})
  unfolding ◌>>=◌
  delete_route ip_config none = pure tt
  delete_route ip_config (some route) =
      find_route (cidr_notation ip_config.ip ip_config.suffix)
        (if given_gateway route then route.gateway else none)
      >>= remove_found

  unfoldable pub remove_ip : IpConfigurationParams → Exec Outside (Unit {0})
  unfolding when_exists list_ips in_interface delete_route is_in ◌>>=◌
  remove_ip ip_config = when_exists ip_config.interface tt (
      list_ips ip_config.interface >>= λ ips.
      if not (is_in ip_config.ip.text ips)
      then pure tt
      else (delete_route ip_config ip_config.route
          >> in_interface ip_config.interface
              (del_ip ip_config.interface ip_config.ip.text ip_config.suffix)))

  -- A field that is missing or 0 is left as it is.
  abbrev pub write_given_mtu : Text → Option ℕ → Exec Outside (Unit {0})
  write_given_mtu name none = pure tt
  write_given_mtu name (some zero) = pure tt
  write_given_mtu name (some (suc n)) = write_mtu name (suc n)

  abbrev pub write_given_state : Text → Option InterfaceState → Exec Outside (Unit {0})
  write_given_state name none = pure tt
  write_given_state name (some state) = write_state name (lower state)

  unfoldable pub write_given_flags : Text → List Flag → Exec Outside (Unit {0})
  unfolding sum_flags mask_flags ◌>>=◌
  write_given_flags name [] = pure tt
  write_given_flags name (flag ∷ flags) =
      lift (mask_flags (sum_flags flag_value 0 (flag ∷ flags))) >>= write_flags name

  unfoldable pub configure_eth_interface : EthInterfaceParams → Exec Outside (Unit {0})
  unfolding when_exists in_interface write_given_flags ◌>>=◌
  configure_eth_interface eth_config = when_exists eth_config.interface tt (
      in_interface eth_config.interface (
        write_given_flags eth_config.interface eth_config.flags
        >> (write_given_mtu eth_config.interface eth_config.mtu
            >> write_given_state eth_config.interface eth_config.state)))

  unfoldable pub connect_wifi_device : WifiConnect → Exec Outside (Unit {0})
  unfolding try_except
  connect_wifi_device params =
      try_except (wifi_connect params.ssid params.password)
        (λ e. if is_activate_failed e then pure tt else raise e)

  unfoldable pub create_vlan_interface : CreateVlan → Exec Outside (Unit {0})
  unfolding is_interface_exists ◌>>=◌
  create_vlan_interface params = is_interface_exists params.if_name >>= λ exists.
      if exists then pure tt else do
        link ← link_lookup params.if_link
        link_index ← lift (first_index link)
        add_vlan params.if_name link_index params.vlan_id
        created ← link_lookup params.if_name
        index ← lift (first_index created)
        set_link_state index (codes "up")

  abbrev pub is_up : Option Text → Bool
  is_up none = false
  is_up (some state) = is_text state (codes "up")

  abbrev pub wants_up : InterfaceState → Bool
  wants_up up = true
  wants_up down = false
  wants_up unknown = false

  pub record ConfigurationManager : Type 0 where
    pub can_ctrlmode_options : CtrlMode
    pub outside : Outside

  abbrev pub Manager : Type 0 → Type 0
  Manager A = Exec ConfigurationManager A

  unfoldable pub on_net : {A : Type 0} → Exec Outside A → Manager A
  on_net m s = let (r, o) = m s.outside in (r, record s { outside = o })

  -- The link goes down where it is up.
  unfoldable pub take_down : Text → Exec Outside ℕ
  unfolding is_text ◌>>=◌
  take_down channel = do
    found ← link_lookup channel
    idx ← lift (first_index found)
    link ← link_state idx
    if is_up link then set_link_state idx (codes "down") else pure tt
    pure idx

  unfoldable pub set_can_options : CanInterfaceConfigurationInfo → Manager (Unit {0})
  unfolding update_options
  set_can_options can_config s =
      (ok tt, record s { can_ctrlmode_options = update_options can_config s.can_ctrlmode_options })

  -- An error of netlink is logged.
  unfoldable pub apply_can : ℕ → CanInterfaceConfigurationInfo → CtrlMode → Exec Outside (Unit {0})
  unfolding try_except
  apply_can idx can_config options =
      try_except (set_can idx can_config.bitrate can_config.sample_point options can_config.fd)
        (λ e. if is_netlink_error e then pure tt else raise e)

  unfoldable pub bring_up : ℕ → InterfaceState → Exec Outside (Unit {0})
  unfolding ◌>>=◌
  bring_up idx state = if wants_up state then set_link_state idx (codes "up") else pure tt

  unfoldable pub configure_can : CanInterfaceConfigurationInfo → Manager (Unit {0})
  unfolding on_net is_interface_exists take_down set_can_options apply_can bring_up ◌>>=◌
  configure_can can_config = on_net (is_interface_exists can_config.channel) >>= λ exists.
      if not exists
      then pure tt
      else (on_net (take_down can_config.channel) >>= λ idx.
          set_can_options can_config >>= λ done s.
          (on_net (apply_can idx can_config s.can_ctrlmode_options)
              >> on_net (bring_up idx can_config.state))
            s)

  unfoldable pub configure_action : ConfigurationAction → Manager (Unit {0})
  unfolding on_net configure_ip remove_ip configure_can configure_eth_interface connect_wifi_device
      create_vlan_interface
  configure_action (ip_add_action action) = on_net (configure_ip action)
  configure_action (ip_remove_action action) = on_net (remove_ip action)
  configure_action (can_configuration_action action) = configure_can action
  configure_action (eth_interface_configuration_action action) =
      on_net (configure_eth_interface action)
  configure_action (wifi_connect_action action) = on_net (connect_wifi_device action)
  configure_action (create_vlan_action action) = on_net (create_vlan_interface action)

  unfoldable pub configure_actions : List ConfigurationAction → Manager (Unit {0})
  unfolding configure_action ◌>>=◌
  configure_actions [] = pure tt
  configure_actions (action ∷ actions) = configure_action action >> configure_actions actions
