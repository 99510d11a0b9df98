-- ===== src/Config/Report.antt =====
-- `get_device_configuration` of `ConfigurationManager`.
use cyclarity_in_vehicle_sdk.Prelude.{
  ℕ, Bool, true, false, not, Option, none, some, List, [], ◌∷◌, ◌++◌, ◌==◌, map, if◌then◌else◌,
}
use cyclarity_in_vehicle_sdk.Python.{Exec, pure, lift, try_except, ◌>>=◌}
use cyclarity_in_vehicle_sdk.Config.{
  Text, is_text, member, get_flags_from_int, state_from_string, DeviceAddress,
  IpConfigurationParams, validate_ip_subnet, WifiAccessPoint, ConfigurationInfo, can_info,
  ethernet_info, wifi_info,
}
use cyclarity_in_vehicle_sdk.Config.Netlink.{Netlink, Interface, CanAttributes}
use cyclarity_in_vehicle_sdk.Config.Manager.{in_interface}

-- `isinstance(info, WifiAccessPointConfigurationInfo) and info.ssid == ssid`
unfoldable pub is_access_point : Text → ConfigurationInfo → Bool
unfolding is_text
is_access_point ssid (can_info can) = false
is_access_point ssid (ethernet_info params ips) = false
is_access_point ssid (wifi_info wifi) = is_text wifi.ssid ssid

unfoldable pub connect_info : Bool → ConfigurationInfo → ConfigurationInfo
connect_info in_use (can_info can) = can_info can
connect_info in_use (ethernet_info params ips) = ethernet_info params ips
connect_info in_use (wifi_info wifi) =
    wifi_info (record wifi { connected = if in_use then true else wifi.connected })

-- The first entry of the network is marked; without one, a new entry goes to the end.
unfoldable pub merge_wifi : WifiAccessPoint → List ConfigurationInfo → List ConfigurationInfo
unfolding is_access_point connect_info
merge_wifi wifi [] = wifi_info wifi ∷ []
merge_wifi wifi (info ∷ infos) =
    let later = merge_wifi wifi infos in
    if is_access_point wifi.ssid info
    then connect_info wifi.connected info ∷ infos
    else info ∷ later

-- A network without a name is left out.
unfoldable pub add_wifi : List WifiAccessPoint → List ConfigurationInfo → List ConfigurationInfo
unfolding merge_wifi
add_wifi [] infos = infos
add_wifi (wifi ∷ wifi_list) infos =
    add_wifi wifi_list (if is_text wifi.ssid [] then infos else merge_wifi wifi infos)

module _ (net : Netlink) where
  open net use {
    Outside, flag_value, dump_interfaces, dump_can_interfaces, addresses, read_can, wifi,
  }

  unfoldable pub get_wifi_devices_info :
      List ConfigurationInfo → Exec Outside (List ConfigurationInfo)
  unfolding add_wifi try_except ◌>>=◌
  get_wifi_devices_info infos =
      try_except (wifi >>= λ wifi_list. pure (add_wifi wifi_list infos)) (λ e. pure infos)

  unfoldable pub ip_params_of :
      Text → List (DeviceAddress × ℕ) → Exec Outside (List IpConfigurationParams)
  unfolding validate_ip_subnet ◌>>=◌
  ip_params_of ifname [] = pure []
  ip_params_of ifname ((ip, suffix) ∷ rest) = do
    params ←
        lift (
          validate_ip_subnet
            (record { interface = ifname; ip = ip; suffix = suffix; route = none }))
    later ← ip_params_of ifname rest
    pure (params ∷ later)

  unfoldable pub eth_info : Interface → Exec Outside ConfigurationInfo
  unfolding state_from_string get_flags_from_int in_interface ip_params_of ◌>>=◌
  eth_info iface =
      in_interface net iface.ifname (addresses iface.ifname >>= ip_params_of iface.ifname)
      >>= λ ip_params. pure (
          ethernet_info
            (record {
              interface = iface.ifname;
              mtu = some iface.mtu;
              state = some (state_from_string iface.state);
              flags = map member (get_flags_from_int flag_value iface.flags);
            })
            ip_params)

  unfoldable pub eth_infos :
      List Interface → List ConfigurationInfo → Exec Outside (List ConfigurationInfo)
  unfolding eth_info ◌>>=◌
  eth_infos [] infos = pure infos
  eth_infos (iface ∷ ifaces) infos =
      (if not (iface.ifi_type == 1)
        then pure infos
        else (eth_info iface >>= λ info. pure (infos ++ (info ∷ []))))
      >>= eth_infos ifaces

  unfoldable pub get_eth_configuration :
      List ConfigurationInfo → Exec Outside (List ConfigurationInfo)
  unfolding eth_infos ◌>>=◌
  get_eth_configuration infos = dump_interfaces >>= λ interfaces. eth_infos interfaces infos

  -- CAN-FD is reported where it is on and has a timing.
  unfoldable pub fd_options : CanAttributes → Option ℕ
  fd_options attrs = if not attrs.fd then none else elim attrs.data_bittiming [
    | none ↦ none
    | some none ↦ some 0
    | some (some bitrate) ↦ some bitrate
  ]

  unfoldable pub can_info_of : Interface → CanAttributes → ConfigurationInfo
  unfolding fd_options state_from_string
  can_info_of iface attrs = can_info (record {
    channel = iface.ifname;
    state = state_from_string iface.state;
    bitrate = attrs.bitrate;
    sample_point = attrs.sample_point;
    cc_len8_dlc = attrs.cc_len8_dlc;
    fd = fd_options attrs;
  })

  unfoldable pub can_infos :
      List Interface → List ConfigurationInfo → Exec Outside (List ConfigurationInfo)
  unfolding can_info_of ◌>>=◌
  can_infos [] infos = pure infos
  can_infos (iface ∷ ifaces) infos =
      read_can iface.index >>= λ attrs. can_infos ifaces (infos ++ (can_info_of iface attrs ∷ []))

  unfoldable pub get_can_configuration :
      List ConfigurationInfo → Exec Outside (List ConfigurationInfo)
  unfolding can_infos ◌>>=◌
  get_can_configuration infos = dump_can_interfaces >>= λ interfaces. can_infos interfaces infos

  unfoldable pub get_device_configuration : Exec Outside (List ConfigurationInfo)
  unfolding get_eth_configuration get_can_configuration get_wifi_devices_info ◌>>=◌
  get_device_configuration =
      get_eth_configuration [] >>= get_can_configuration >>= get_wifi_devices_info
