-- ===== src/Config.antt =====
-- configuration_manager/models.py and configuration_manager/actions.py: what the configuration manager
-- is given and what it reports. Names and addresses are texts; pyroute2 and nmcli are parameters.
pub mod Netlink
pub mod Manager
pub mod Report
pub mod Store
pub mod Steps
pub mod Addresses
pub mod Flags
pub mod Defaults
pub mod Sticky
pub mod Networks
use Prim.Native.Nat.{bit_and}
use cyclarity_in_vehicle_sdk.Prelude.{
  ℕ, zero, suc, ◌+◌, ◌%◌, ◌^◌, Bool, true, false, not, ◌&&◌, ◌||◌, Option, none, some, List, [],
  ◌∷◌, ◌++◌, leb, ◌==◌, if◌then◌else◌,
}
use cyclarity_in_vehicle_sdk.Python.{Result, ok, raised, stuck, type_error, value_error}
use cyclarity_in_vehicle_sdk.Python.Text.{codes}

abbrev pub Text : Type 0
Text = List ℕ

-- `text == other`
unfoldable pub is_text : Text → Text → Bool
is_text [] [] = true
is_text [] (c ∷ cs) = false
is_text (c ∷ cs) [] = false
is_text (c ∷ cs) (d ∷ ds) = (c == d) && is_text cs ds

-- `text in texts`
unfoldable pub is_in : Text → List Text → Bool
unfolding is_text
is_in text [] = false
is_in text (other ∷ texts) = is_text text other || is_in text texts

-- The flags of an interface, by their names.
pub data EthIfFlags : Type 0 where
  iff_up iff_broadcast iff_debug iff_loopback iff_pointopoint iff_notrailers : EthIfFlags
  iff_running iff_noarp iff_promisc iff_allmulti iff_master iff_slave iff_multicast : EthIfFlags
  iff_portsel iff_automedia iff_dynamic iff_lower_up iff_dormant iff_echo : EthIfFlags

-- The members in the order of the class.
abbrev pub all_flags : List EthIfFlags
all_flags =
    iff_up ∷ iff_broadcast ∷ iff_debug ∷ iff_loopback ∷ iff_pointopoint ∷ iff_notrailers
    ∷ iff_running ∷ iff_noarp ∷ iff_promisc ∷ iff_allmulti ∷ iff_master ∷ iff_slave ∷ iff_multicast
    ∷ iff_portsel ∷ iff_automedia ∷ iff_dynamic ∷ iff_lower_up ∷ iff_dormant ∷ iff_echo ∷ []

-- `get_flags_from_int`, over the values that pyroute2 gives the flags.
unfoldable pub flags_in : (EthIfFlags → ℕ) → ℕ → List EthIfFlags → List EthIfFlags
flags_in value flags [] = []
flags_in value flags (flag ∷ rest) =
    let later = flags_in value flags rest in
    if not (bit_and flags (value flag) == 0) then flag ∷ later else later

unfoldable pub get_flags_from_int : (EthIfFlags → ℕ) → ℕ → List EthIfFlags
unfolding flags_in
get_flags_from_int value flags = flags_in value flags all_flags

-- A flag of an action: a member, or a text where the default of the field was left as it is.
pub data Flag : Type 0 where
  member : EthIfFlags → Flag
  named : Text → Flag

-- DEFAULT_ETH_IF_FLAGS, names that nothing turns into members.
abbrev pub default_eth_if_flags : List Flag
default_eth_if_flags =
    named (codes "IFF_BROADCAST")
    ∷ named (codes "IFF_MULTICAST")
    ∷ named (codes "IFF_UP")
    ∷ named (codes "IFF_LOWER_UP")
    ∷ named (codes "IFF_RUNNING")
    ∷ []

-- `sum(flags, total)`; a text cannot be added.
unfoldable pub sum_flags : (EthIfFlags → ℕ) → ℕ → List Flag → Result ℕ
sum_flags value total [] = ok total
sum_flags value total (member flag ∷ flags) = sum_flags value (total + value flag) flags
sum_flags value total (named name ∷ flags) = raised type_error

-- `0xffffffff & sum(flags, EthIfFlags(0))`
unfoldable pub mask_flags : Result ℕ → Result ℕ
mask_flags (ok n) = ok (n % 2 ^ 32)
mask_flags (raised e) = raised e
mask_flags stuck = stuck

pub data InterfaceState : Type 0 where
  up down unknown : InterfaceState

-- `casefold` of ASCII
unfoldable pub casefold : Text → Text
casefold [] = []
casefold (c ∷ cs) = (if leb b'A' c && leb c b'Z' then c + 32 else c) ∷ casefold cs

unfoldable pub state_from_string : Text → InterfaceState
unfolding casefold is_text
state_from_string str_state =
    if is_text (casefold str_state) (codes "up")
    then up
    else if is_text (casefold str_state) (codes "down")
    then down
    else unknown

-- `state.lower()`
abbrev pub lower : InterfaceState → Text
lower up = codes "up"
lower down = codes "down"
lower unknown = codes "unknown"

-- Whether an address is one of IPv6, and its text.
pub record DeviceAddress : Type 0 where
  pub is_v6 : Bool
  pub text : Text

pub record IpRoute : Type 0 where
  pub gateway : Option Text

-- `if route.gateway`
abbrev pub given_gateway : IpRoute → Bool
given_gateway route = elim route.gateway [ none ↦ false | some [] ↦ false | some (c ∷ cs) ↦ true ]

pub record IpConfigurationParams : Type 0 where
  pub interface : Text
  pub ip : DeviceAddress
  pub suffix : ℕ
  pub route : Option IpRoute

-- `validate_ip_subnet`: the length of the prefix has to fit the address.
unfoldable pub validate_ip_subnet : IpConfigurationParams → Result IpConfigurationParams
validate_ip_subnet params =
    if leb params.suffix (if params.ip.is_v6 then 128 else 32)
    then ok params
    else raised value_error

pub record CanInterfaceConfigurationInfo : Type 0 where
  pub channel : Text
  pub state : InterfaceState
  pub bitrate : ℕ
  -- in thousandths
  pub sample_point : ℕ
  pub cc_len8_dlc : Bool
  -- the data bitrate of CAN-FD
  pub fd : Option ℕ

pub record EthInterfaceParams : Type 0 where
  pub interface : Text
  pub mtu : Option ℕ
  pub flags : List Flag
  pub state : Option InterfaceState

pub record WifiAccessPoint : Type 0 where
  pub ssid : Text
  pub security : Text
  pub connected : Bool

pub record WifiConnect : Type 0 where
  pub ssid : Text
  pub password : Text

pub record CreateVlan : Type 0 where
  pub if_name : Text
  pub if_link : Text
  pub vlan_id : ℕ

pub data ConfigurationAction : Type 0 where
  ip_add_action ip_remove_action : IpConfigurationParams → ConfigurationAction
  can_configuration_action : CanInterfaceConfigurationInfo → ConfigurationAction
  eth_interface_configuration_action : EthInterfaceParams → ConfigurationAction
  wifi_connect_action : WifiConnect → ConfigurationAction
  create_vlan_action : CreateVlan → ConfigurationAction

-- An entry of the report on the device.
pub data ConfigurationInfo : Type 0 where
  can_info : CanInterfaceConfigurationInfo → ConfigurationInfo
  ethernet_info : EthInterfaceParams → List IpConfigurationParams → ConfigurationInfo
  wifi_info : WifiAccessPoint → ConfigurationInfo
