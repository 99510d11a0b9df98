-- ===== src/Config/Store.antt =====
-- What the documentation of pyroute2 says of the calls on interfaces and their addresses.
use cyclarity_in_vehicle_sdk.Prelude.{
  ℕ, not, ◌&&◌, ◌||◌, Bool, ◌≡◌, refl, true, Option, List, [], ◌∷◌, ==_refl, map, arith,
}
use cyclarity_in_vehicle_sdk.Python.{ok}
use cyclarity_in_vehicle_sdk.Config.{Text, is_text, is_in, DeviceAddress}
use cyclarity_in_vehicle_sdk.Config.Netlink.{Netlink, Interface}

pub is_text_refl : (text : Text) → is_text text text ≡ true
unfolding is_text
is_text_refl [] = refl
is_text_refl (c ∷ cs) = ground (arith, is_text_refl cs, ==_refl c)

-- What pyroute2 documents of the calls, where they return; each may raise NetlinkError instead. An
-- address that was added is there, and one that was deleted is not; which order they stand in is not
-- said. Reading, and the calls on routes, leave the interfaces and their addresses as they were.
pub record IsStore (net : Netlink) : Type 0 where
  pub names : net.Outside → List Text
  pub has : net.Outside → Text → Text → Bool
  pub dumps :
      (o o' : net.Outside) (dump : List Interface)
      → net.dump_interfaces o ≡ (ok dump, o')
      → (map (λ interface. interface.ifname) dump ≡ names o)
        × (names o' ≡ names o)
        × ((n a : Text) → has o' n a ≡ has o n a)
  pub lists :
      (n : Text) (o o' : net.Outside) (found : List (DeviceAddress × ℕ))
      → net.addresses n o ≡ (ok found, o')
      → ((a : Text) → is_in a (map (λ (ip : DeviceAddress × ℕ). ip.0.text) found) ≡ has o n a)
        × (names o' ≡ names o)
        × ((n a : Text) → has o' n a ≡ has o n a)
  pub adds :
      (n a : Text) (suffix : ℕ) (o o' : net.Outside)
      → net.add_ip n a suffix o ≡ (ok tt, o')
      → (names o' ≡ names o)
        × ((m b : Text) → has o' m b ≡ (is_text m n && is_text b a || has o m b))
  pub deletes :
      (n a : Text) (suffix : ℕ) (o o' : net.Outside)
      → net.del_ip n a suffix o ≡ (ok tt, o')
      → (names o' ≡ names o)
        × ((m b : Text) → has o' m b ≡ (not (is_text m n && is_text b a) && has o m b))
  pub enters :
      (n : Text) (o o' : net.Outside) (r : Unit {0})
      → net.enter_interface n o ≡ (ok r, o')
      → (names o' ≡ names o) × ((n a : Text) → has o' n a ≡ has o n a)
  pub commits :
      (n : Text) (o o' : net.Outside) (r : Unit {0})
      → net.leave_interface n o ≡ (ok r, o')
      → (names o' ≡ names o) × ((n a : Text) → has o' n a ≡ has o n a)
  pub indexes :
      (n : Text) (o o' : net.Outside) (r : ℕ)
      → net.index_of n o ≡ (ok r, o')
      → (names o' ≡ names o) × ((n a : Text) → has o' n a ≡ has o n a)
  pub routes_by_gateway :
      (dst gateway : Text) (o o' : net.Outside) (r : Unit {0})
      → net.create_route_by_gateway dst gateway o ≡ (ok r, o')
      → (names o' ≡ names o) × ((n a : Text) → has o' n a ≡ has o n a)
  pub routes_by_interface :
      (dst : Text) (index : ℕ) (o o' : net.Outside) (r : Unit {0})
      → net.create_route_by_interface dst index o ≡ (ok r, o')
      → (names o' ≡ names o) × ((n a : Text) → has o' n a ≡ has o n a)
  pub finds :
      (dst : Text) (gateway : Option Text) (o o' : net.Outside) (r : Option net.Route)
      → net.find_route dst gateway o ≡ (ok r, o')
      → (names o' ≡ names o) × ((n a : Text) → has o' n a ≡ has o n a)
  pub removes :
      (route : net.Route) (o o' : net.Outside) (r : Unit {0})
      → net.remove_route route o ≡ (ok r, o')
      → (names o' ≡ names o) × ((n a : Text) → has o' n a ≡ has o n a)
