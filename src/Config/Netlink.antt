-- ===== src/Config/Netlink.antt =====
-- What the configuration manager uses of pyroute2 and nmcli.
use cyclarity_in_vehicle_sdk.Prelude.{ℕ, Bool, Option, List}
use cyclarity_in_vehicle_sdk.Python.{Exn, Exec}
use cyclarity_in_vehicle_sdk.Config.{Text, EthIfFlags, DeviceAddress, WifiAccessPoint}

-- An interface in a dump; the type 1 is Ethernet.
pub record Interface : Type 0 where
  pub ifname : Text
  pub ifi_type : ℕ
  pub mtu : ℕ
  pub state : Text
  pub flags : ℕ
  pub index : ℕ

-- The attributes of a CAN link, with the defaults for those that are missing; `data_bittiming` is
-- `none` where it is missing or empty.
pub record CanAttributes : Type 0 where
  pub fd : Bool
  pub cc_len8_dlc : Bool
  pub bitrate : ℕ
  pub sample_point : ℕ
  pub data_bittiming : Option (Option ℕ)

-- `_can_ctrlmode_options`: which options are 'on'.
pub record CtrlMode : Type 0 where
  pub cc_len8_dlc : Bool
  pub fd : Bool

-- The calls on pyroute2 and nmcli. A block `with interfaces[name]` begins with `enter_interface` and
-- ends, also where it raises, with `leave_interface`, which commits.
pub record Netlink : Type 1 where
  pub Outside : Type 0
  pub Route : Type 0
  pub is_netlink_error : Exn → Bool
  pub is_activate_failed : Exn → Bool
  pub flag_value : EthIfFlags → ℕ
  pub cidr_notation : DeviceAddress → ℕ → Text
  pub dump_interfaces : Exec Outside (List Interface)
  -- those of kind 'can'
  pub dump_can_interfaces : Exec Outside (List Interface)
  pub enter_interface : Text → Exec Outside (Unit {0})
  pub leave_interface : Text → Exec Outside (Unit {0})
  pub addresses : Text → Exec Outside (List (DeviceAddress × ℕ))
  pub add_ip : Text → Text → ℕ → Exec Outside (Unit {0})
  pub del_ip : Text → Text → ℕ → Exec Outside (Unit {0})
  pub index_of : Text → Exec Outside ℕ
  pub create_route_by_gateway : Text → Text → Exec Outside (Unit {0})
  pub create_route_by_interface : Text → ℕ → Exec Outside (Unit {0})
  pub find_route : Text → Option Text → Exec Outside (Option Route)
  pub remove_route : Route → Exec Outside (Unit {0})
  pub write_flags : Text → ℕ → Exec Outside (Unit {0})
  pub write_mtu : Text → ℕ → Exec Outside (Unit {0})
  pub write_state : Text → Text → Exec Outside (Unit {0})
  pub link_lookup : Text → Exec Outside (List ℕ)
  pub link_state : ℕ → Exec Outside (Option Text)
  pub set_link_state : ℕ → Text → Exec Outside (Unit {0})
  pub set_can : ℕ → ℕ → ℕ → CtrlMode → Option ℕ → Exec Outside (Unit {0})
  pub add_vlan : Text → ℕ → ℕ → Exec Outside (Unit {0})
  pub wifi_connect : Text → Text → Exec Outside (Unit {0})
  pub read_can : ℕ → Exec Outside CanAttributes
  pub wifi : Exec Outside (List WifiAccessPoint)
