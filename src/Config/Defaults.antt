-- ===== src/Config/Defaults.antt =====
-- The action on an Ethernet interface whose flags are left to their default.
use cyclarity_in_vehicle_sdk.Prelude.{◌+◌, ◌≡◌, refl, true, List, [], ◌∷◌, ◌++◌, map, ℕ}
use cyclarity_in_vehicle_sdk.Python.{ok, raised, ◌>>=◌, type_error}
use cyclarity_in_vehicle_sdk.Config.{
  Text, is_in, EthIfFlags, Flag, member, named, sum_flags, mask_flags, EthInterfaceParams,
}
use cyclarity_in_vehicle_sdk.Config.Netlink.{Netlink, Interface}
use cyclarity_in_vehicle_sdk.Config.Manager.{
  in_interface, list_interfaces, is_interface_exists, when_exists, write_given_flags,
  configure_eth_interface,
}

sum_flags-named :
    (value : EthIfFlags → ℕ) (total : ℕ) (members : List EthIfFlags) (name : Text)
    (flags : List Flag)
    → sum_flags value total (map member members ++ (named name ∷ flags)) ≡ raised type_error
unfolding sum_flags
sum_flags-named value total [] name flags = refl
sum_flags-named value total (flag ∷ members) name flags =
    sum_flags-named value (total + value flag) members name flags

write-named :
    (net : Netlink) (interface : Text) (members : List EthIfFlags) (name : Text) (flags : List Flag)
    (o : net.Outside)
    → write_given_flags net interface (map member members ++ (named name ∷ flags)) o
      ≡ (raised type_error, o)
unfolding write_given_flags mask_flags sum_flags ◌>>=◌
write-named net interface [] name flags o = refl
write-named net interface (flag ∷ members) name flags o =
    rw (sum_flags-named net.flag_value (0 + net.flag_value flag) members name flags) refl

-- An action whose flags hold a name raises TypeError for an interface that exists, whatever else it
-- asks for: between the beginning and the end of the work on the interface nothing is written, so
-- neither its flags nor its MTU nor its state change. The default of the flags consists of names.
pub configure_eth_interface-named :
    (net : Netlink) (eth_config : EthInterfaceParams) (members : List EthIfFlags) (name : Text)
    (flags : List Flag) (dump : List Interface) (o o₁ o₂ o₃ : net.Outside)
    → eth_config.flags ≡ map member members ++ (named name ∷ flags)
    → net.dump_interfaces o ≡ (ok dump, o₁)
    → is_in eth_config.interface (map (λ interface. interface.ifname) dump) ≡ true
    → net.enter_interface eth_config.interface o₁ ≡ (ok tt, o₂)
    → net.leave_interface eth_config.interface o₂ ≡ (ok tt, o₃)
    → configure_eth_interface net eth_config o ≡ (raised type_error, o₃)
unfolding configure_eth_interface when_exists is_interface_exists list_interfaces in_interface ◌>>=◌
configure_eth_interface-named net eth_config members name flags dump o o₁ o₂ o₃ f d known e l =
    rw (d, known, e, f, write-named net eth_config.interface members name flags o₂, l) refl
