-- ===== src/Examples/Config.antt =====
-- Devices with one interface, and runs of the configuration manager on it.
use cyclarity_in_vehicle_sdk.Prelude.{
  not, ◌&&◌, ◌||◌, if◌then◌else◌, sym, ◌∙◌, Bool-cases, inl, inr, false≢true, ℕ, ◌≡◌, refl, ap,
  Bool, true, false, none, some, List, [], ◌∷◌, map, arith,
}
use cyclarity_in_vehicle_sdk.Python.{Result, Exec, ok, raised, type_error}
use cyclarity_in_vehicle_sdk.Python.Text.{codes}
use cyclarity_in_vehicle_sdk.Config.{
  Text, is_text, is_in, EthIfFlags, iff_up, iff_broadcast, iff_debug, iff_loopback, iff_pointopoint,
  iff_notrailers, iff_running, iff_noarp, iff_promisc, iff_allmulti, iff_master, iff_slave,
  iff_multicast, iff_portsel, iff_automedia, iff_dynamic, iff_lower_up, iff_dormant, iff_echo,
  member, named, CanInterfaceConfigurationInfo, WifiAccessPoint, can_info, can_configuration_action,
  default_eth_if_flags, get_flags_from_int, sum_flags, up, DeviceAddress, IpConfigurationParams,
  EthInterfaceParams, state_from_string, casefold,
}
use cyclarity_in_vehicle_sdk.Config.Netlink.{Netlink, Interface}
use cyclarity_in_vehicle_sdk.Config.Manager.{
  configure_eth_interface, ConfigurationManager, configure_actions,
}
use cyclarity_in_vehicle_sdk.Config.Store.{IsStore}
use cyclarity_in_vehicle_sdk.Config.Steps.{same_texts}
use cyclarity_in_vehicle_sdk.Config.Flags.{get_flags_from_int-sum}
use cyclarity_in_vehicle_sdk.Config.Defaults.{configure_eth_interface-named}
use cyclarity_in_vehicle_sdk.Config.Report.{add_wifi, is_access_point}
use cyclarity_in_vehicle_sdk.Config.Networks.{
  times, is_connected, is_heard, is_used, at_least_once, add_wifi-reported,
}
use cyclarity_in_vehicle_sdk.Config.Sticky.{IsKept, configure_actions-IsKept}

abbrev flag_value : EthIfFlags → ℕ
flag_value iff_up = 0x1
flag_value iff_broadcast = 0x2
flag_value iff_debug = 0x4
flag_value iff_loopback = 0x8
flag_value iff_pointopoint = 0x10
flag_value iff_notrailers = 0x20
flag_value iff_running = 0x40
flag_value iff_noarp = 0x80
flag_value iff_promisc = 0x100
flag_value iff_allmulti = 0x200
flag_value iff_master = 0x400
flag_value iff_slave = 0x800
flag_value iff_multicast = 0x1000
flag_value iff_portsel = 0x2000
flag_value iff_automedia = 0x4000
flag_value iff_dynamic = 0x8000
flag_value iff_lower_up = 0x10000
flag_value iff_dormant = 0x20000
flag_value iff_echo = 0x40000

abbrev v4_address : Text → DeviceAddress
v4_address text = record { is_v6 = false; text = text }

abbrev eth0 : Interface
eth0 = record {
  ifname = codes "eth0";
  ifi_type = 1;
  mtu = 1500;
  state = codes "up";
  flags = 0x1003;
  index = 2;
}

-- The addresses, each with its interface.
abbrev Held : Type 0
Held = List (Text × Text)

abbrev ips_of : Text → Held → List (DeviceAddress × ℕ)
ips_of n [] = []
ips_of n ((m, a) ∷ o) =
    let rest = ips_of n o in if is_text n m then (v4_address a, 24) ∷ rest else rest

abbrev drop_ip : Text → Text → Held → Held
drop_ip n a [] = []
drop_ip n a ((m, b) ∷ o) =
    let rest = drop_ip n a o in if is_text m n && is_text b a then rest else (m, b) ∷ rest

abbrev holds : Held → Text → Text → Bool
holds [] n a = false
holds ((m, b) ∷ o) n a = is_text n m && is_text a b || holds o n a

abbrev done : Exec Held (Unit {0})
done o = (ok tt, o)

abbrev kernel : Netlink
kernel = record {
  Outside = Held;
  Route = ℕ;
  is_netlink_error = λ e. false;
  is_activate_failed = λ e. false;
  flag_value = flag_value;
  cidr_notation = λ ip suffix. ip.text;
  dump_interfaces = λ o. (ok (eth0 ∷ []), o);
  dump_can_interfaces = λ o. (ok [], o);
  enter_interface = λ n. done;
  leave_interface = λ n. done;
  addresses = λ n o. (ok (ips_of n o), o);
  add_ip = λ n a suffix o. (ok tt, (n, a) ∷ o);
  del_ip = λ n a suffix o. (ok tt, drop_ip n a o);
  index_of = λ n o. (ok 2, o);
  create_route_by_gateway = λ dst gateway. done;
  create_route_by_interface = λ dst index. done;
  find_route = λ dst gateway o. (ok (some 0), o);
  remove_route = λ r. done;
  write_flags = λ n v. done;
  write_mtu = λ n v. done;
  write_state = λ n v. done;
  link_lookup = λ n o. (ok (2 ∷ []), o);
  link_state = λ i o. (ok none, o);
  set_link_state = λ i s. done;
  set_can = λ i b s m d. done;
  add_vlan = λ n i v. done;
  wifi_connect = λ s p. done;
  read_can = λ i o. (
    ok (record {
      fd = false;
      cc_len8_dlc = false;
      bitrate = 0;
      sample_point = 0;
      data_bittiming = none;
    }),
    o,
  );
  wifi = λ o. (ok [], o);
}

holds-ips :
    (n : Text) (o : Held) (a : Text)
    → is_in a (map (λ (ip : DeviceAddress × ℕ). ip.0.text) (ips_of n o)) ≡ holds o n a
unfolding is_in
holds-ips n [] a = refl
holds-ips n ((m, b) ∷ o) a = elim (Bool-cases (is_text n m)) [
  | inl same ↦ rw (same, holds-ips n o a) refl
  | inr other ↦ rw (other, holds-ips n o a) refl
]

holds-drop :
    (n a : Text) (o : Held) (m b : Text)
    → holds (drop_ip n a o) m b ≡ (not (is_text m n && is_text b a) && holds o m b)
holds-drop n a [] m b = none_left (is_text m n && is_text b a)
  where
    none_left : (s : Bool) → false ≡ (not s && false)
    none_left true = refl
    none_left false = refl
holds-drop n a ((m', b') ∷ o) m b = elim (Bool-cases (is_text m' n && is_text b' a)) [
  | inl same ↦
      rw
        (
          same,
          holds-drop n a o m b,
          ap (λ (p : Text × Text). is_text m p.0 && is_text b p.1) (same_texts m' n b' a same),
        )
        (dropped (is_text m n && is_text b a) (holds o m b))
  | inr other ↦
      rw (other, holds-drop n a o m b)
        (kept (is_text m m' && is_text b b') (is_text m n && is_text b a) (holds o m b)
          (λ x s. clash other x s))
]
  where
    dropped : (s h : Bool) → (not s && h) ≡ (not s && (s || h))
    dropped true h = refl
    dropped false h = refl

    kept : (x s h : Bool) → (x ≡ true → s ≡ true → ⊥) → (x || (not s && h)) ≡ (not s && (x || h))
    kept true true h never = absurd (never refl refl)
    kept true false h never = refl
    kept false s h never = refl

    clash :
        (is_text m' n && is_text b' a) ≡ false
        → (is_text m m' && is_text b b') ≡ true
        → (is_text m n && is_text b a) ≡ true
        → ⊥
    clash other x s =
        let p = ap (λ (p : Text × Text). is_text p.0 n && is_text p.1 a) (same_texts m m' b b' x) in
        false≢true (sym other ∙ sym p ∙ s)

injective : {A : Type 0} {a b : A} → ok a ≡ ok b → a ≡ b
injective e = cc

-- The call has left these addresses.
moved :
    {A : Type 0} {r r' : Result A} {o o' : Held}
    → ◌≡◌ {A = Result A × Held} (r, o) (r', o')
    → (n a : Text) → holds o' n a ≡ holds o n a
moved {A = A} e n a = sym (ap {A = Result A × Held} (λ p. holds p.1 n a) e)

kernel-IsStore : IsStore kernel
kernel-IsStore = record {
  names = λ o. codes "eth0" ∷ [];
  has = holds;
  dumps = λ o o' dump e. (
    ap (map (λ interface. interface.ifname))
        (sym (injective (ap {A = Result (List Interface) × Held} (λ p. p.0) e))),
    refl,
    moved e,
  );
  lists = λ n o o' found e. (
    λ a.
        ap (λ f. is_in a (map (λ (ip : DeviceAddress × ℕ). ip.0.text) f))
          (sym (injective (ap {A = Result (List (DeviceAddress × ℕ)) × Held} (λ p. p.0) e)))
        ∙ holds-ips n o a,
    refl,
    moved e,
  );
  adds = λ n a suffix o o' e. (refl, moved e);
  deletes = λ n a suffix o o' e. (refl, λ m b. moved e m b ∙ holds-drop n a o m b);
  enters = λ n o o' r e. (refl, moved e);
  commits = λ n o o' r e. (refl, moved e);
  indexes = λ n o o' r e. (refl, moved e);
  routes_by_gateway = λ dst gateway o o' r e. (refl, moved e);
  routes_by_interface = λ dst index o o' r e. (refl, moved e);
  finds = λ dst gateway o o' r e. (refl, moved e);
  removes = λ route o o' r e. (refl, moved e);
}

abbrev new_ip : IpConfigurationParams
new_ip = record {
  interface = codes "eth0";
  ip = v4_address (codes "10.0.0.7");
  suffix = 24;
  route = some (record { gateway = none });
}

abbrev old_ips : Held
old_ips = (codes "eth0", codes "10.0.0.1") ∷ (codes "eth0", codes "10.0.0.2") ∷ []

get_flags_from_int-sum_example :
    sum_flags flag_value 0 (map member (get_flags_from_int flag_value 0x81003)) ≡ ok 0x1003
get_flags_from_int-sum_example = get_flags_from_int-sum flag_value 0x81003 (omega arith)

-- A new MTU with the flags left to their default.
abbrev jumbo : EthInterfaceParams
jumbo = record {
  interface = codes "eth0";
  mtu = some 9000;
  flags = default_eth_if_flags;
  state = some up;
}

configure_eth_interface-named_example :
    configure_eth_interface kernel jumbo old_ips ≡ (raised type_error, old_ips)
unfolding is_in is_text
configure_eth_interface-named_example =
    configure_eth_interface-named kernel jumbo [] (codes "IFF_BROADCAST")
      (named (codes "IFF_MULTICAST")
        ∷ named (codes "IFF_UP")
        ∷ named (codes "IFF_LOWER_UP")
        ∷ named (codes "IFF_RUNNING")
        ∷ [])
      (eth0 ∷ []) old_ips old_ips old_ips old_ips refl refl refl refl refl

states : state_from_string (codes "Up") ≡ up
unfolding state_from_string casefold is_text
states = refl

-- A device with a CAN interface, whose manager has set up CAN FD before.
abbrev can_kernel : Netlink
can_kernel = record kernel {
  dump_interfaces = λ o. (ok (record eth0 { ifname = codes "can0" } ∷ []), o);
}

abbrev fd_manager : ConfigurationManager can_kernel
fd_manager = record {
  can_ctrlmode_options = record { cc_len8_dlc = false; fd = true };
  outside = [];
}

abbrev classic_can : CanInterfaceConfigurationInfo
classic_can = record {
  channel = codes "can0";
  state = up;
  bitrate = 500000;
  sample_point = 750;
  cc_len8_dlc = false;
  fd = none;
}

configure_actions-IsKept_example :
    IsKept
      (record { cc_len8_dlc = false; fd = true })
      (configure_actions can_kernel
        (can_configuration_action classic_can ∷ [])
        fd_manager).1.can_ctrlmode_options
configure_actions-IsKept_example =
    configure_actions-IsKept can_kernel (can_configuration_action classic_can ∷ []) fd_manager

abbrev access_point : Text → Bool → WifiAccessPoint
access_point ssid connected = record { ssid = ssid; security = codes "WPA2"; connected = connected }

-- Two access points of one network, the second in use, and one without a name.
add_wifi-reported_example :
    (times (codes "lab") (
        add_wifi
          (access_point (codes "lab") false
            ∷ access_point [] false
            ∷ access_point (codes "lab") true
            ∷ [])
          (can_info classic_can ∷ []))
      ≡ 1)
    × (is_connected (codes "lab") (
          add_wifi
            (access_point (codes "lab") false
              ∷ access_point [] false
              ∷ access_point (codes "lab") true
              ∷ [])
            (can_info classic_can ∷ []))
        ≡ true)
unfolding is_text times is_connected is_heard is_used at_least_once is_access_point
add_wifi-reported_example =
    add_wifi-reported 108 (97 ∷ 98 ∷ [])
      (access_point (codes "lab") false
        ∷ access_point [] false
        ∷ access_point (codes "lab") true
        ∷ [])
      (can_info classic_can ∷ [])
