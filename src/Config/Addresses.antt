-- ===== src/Config/Addresses.antt =====
-- What the actions on addresses do to the addresses of the interfaces.
use cyclarity_in_vehicle_sdk.Prelude.{Bool, not, ◌&&◌, ◌||◌}
use cyclarity_in_vehicle_sdk.Config.{Text, is_text}
use cyclarity_in_vehicle_sdk.Config.Store.{IsStore}
use cyclarity_in_vehicle_sdk.Config.Netlink.{Netlink}

module _ (net : Netlink) (store : IsStore net) where
  open net use {Outside}

  -- The addresses with one more, and with one less.
  abbrev pub with_ip : (Text → Text → Bool) → Text → Text → Text → Text → Bool
  with_ip has n a m b = is_text m n && is_text b a || has m b

  abbrev pub without_ip : (Text → Text → Bool) → Text → Text → Text → Text → Bool
  without_ip has n a m b = not (is_text m n && is_text b a) && has m b
