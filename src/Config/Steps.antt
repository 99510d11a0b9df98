-- ===== src/Config/Steps.antt =====
-- What the steps of the actions on addresses leave of the interfaces and their addresses.
use cyclarity_in_vehicle_sdk.Prelude.{
  ℕ, ◌≡◌, refl, ap, ◌∙◌, Bool, true, false, not, ◌&&◌, Option, none, some, List, [], ◌∷◌, map,
  if◌then◌else◌, subst, arith,
}
use cyclarity_in_vehicle_sdk.Python.{Exec, Result, ok, raised, stuck, pure, lift, ◌>>=◌, ◌>>◌}
use cyclarity_in_vehicle_sdk.Python.Triples.{
  Leaves, Triple, Triple-pure, Triple-bind, Triple-call, Triple-lift,
}
use cyclarity_in_vehicle_sdk.Config.{
  DeviceAddress, Text, is_text, is_in, IpRoute, IpConfigurationParams, given_gateway,
}
use cyclarity_in_vehicle_sdk.Config.Store.{IsStore}
use cyclarity_in_vehicle_sdk.Config.Netlink.{Netlink}
use cyclarity_in_vehicle_sdk.Config.Manager.{
  in_interface, list_interfaces, is_interface_exists, when_exists, list_ips, create_route,
  delete_route, remove_found,
}

is_text-eq : (a b : Text) → is_text a b ≡ true → a ≡ b
unfolding is_text
is_text-eq [] [] h = refl
is_text-eq [] (y ∷ b) h = cc
is_text-eq (x ∷ a) [] h = cc
is_text-eq (x ∷ a) (y ∷ b) h = λ i. head i ∷ is_text-eq a b tail i
  where
    head : x ≡ y
    head = ground (arith, h)

    tail : is_text a b ≡ true
    tail = ground (arith, h)

both_true : (a b : Bool) → (a && b) ≡ true → (a ≡ true) × (b ≡ true)
both_true true true h = (refl, refl)
both_true true false h = cc
both_true false b h = cc

pub same_texts :
    (n m a b : Text) → (is_text n m && is_text a b) ≡ true → ◌≡◌ {A = Text × Text} (n, a) (m, b)
same_texts n m a b h =
    let same = both_true (is_text n m) (is_text a b) h in
    λ i. (is_text-eq n m same.0 i, is_text-eq a b same.1 i)

module _ (net : Netlink) (store : IsStore net) where
  open net use {Outside}

  -- These are the interfaces, and these the addresses of each.
  abbrev pub At : List Text → (Text → Text → Bool) → Outside → Type 0
  At names has o = (store.names o ≡ names) × ((n a : Text) → store.has o n a ≡ has n a)

  module _ (names : List Text) (has : Text → Text → Bool) where
    -- A call that changes neither.
    same-At :
        {A : Type 0} (m : Exec Outside A)
        → ((o o' : Outside) (r : A)
            → m o ≡ (ok r, o')
            → (store.names o' ≡ store.names o)
              × ((n a : Text) → store.has o' n a ≡ store.has o n a))
        → Triple (At names has) (λ r. At names has) m
    same-At m h =
        Triple-call m
          λ o r o' k e. let same = h o o' r e in (same.0 ∙ k.0, λ n a. same.1 n a ∙ k.1 n a)

    exists-At :
        (name : Text)
        → Triple
            (At names has)
            (λ b o. (b ≡ is_in name names) × At names has o)
            (is_interface_exists net name)
    unfolding is_interface_exists list_interfaces
    exists-At name =
        Triple-bind (λ found o. (found ≡ names) × At names has o) _ _
          (Triple-bind
            (λ dump o. (map (λ interface. interface.ifname) dump ≡ names) × At names has o) _ _
            (Triple-call net.dump_interfaces λ o dump o' k e.
              let same = store.dumps o o' dump e in
              (same.0 ∙ k.0, (same.1 ∙ k.0, λ n a. same.2 n a ∙ k.1 n a)))
            λ dump. Triple-pure _ λ o k. k)
          λ found. Triple-pure _ λ o k. (ap (is_in name) k.0, k.1)

  pub fact-Triple :
      {A F : Type 0} {P : Outside → Type 0} {Q : A → Outside → Type 0} (m : Exec Outside A)
      → (F → Triple P Q m)
      → Triple (λ o. F × P o) Q m
  fact-Triple m h = record { at = λ o k. (h k.0).at o k.1 }

  module _ {A : Type 0} (F : A → Type 0) (names : List Text) (has : Text → Text → Bool) where
    abbrev Gives : A → Outside → Type 0
    Gives a o = F a × At names has o

    left-Triple :
        (name : Text) (r : Result A) (o : Outside)
        → Leaves Gives (r, o)
        → Leaves Gives ((net.leave_interface name >> lift r) o)
    left-Triple name (ok a) o h =
        (Triple-bind {P = Gives a} (λ u. Gives a) (net.leave_interface name) (λ u. lift (ok a))
            (Triple-call _ λ o u o' k e.
              let same = store.commits name o o' u e in
              (k.0, (same.0 ∙ k.1.0, λ n b. same.1 n b ∙ k.1.1 n b)))
            (λ u. Triple-lift (ok a) λ b o e k. subst (λ b. Gives b o) (injective a b e) k)).at
          o h
      where
        injective : (a b : A) → ok a ≡ ok b → a ≡ b
        injective a b e = cc
    left-Triple name (raised x) o h =
        (Triple-bind {P = λ o. Unit} (λ u o. Unit) (net.leave_interface name) (λ u. lift (raised x))
            (Triple-call _ λ o u o' k e. tt)
            (λ u. Triple-lift (raised x) λ b o e k. absurd (clash b e))).at
          o tt
      where
        clash : (b : A) → raised x ≡ ok b → ⊥
        clash b e = cc
    left-Triple name stuck o h =
        (Triple-bind {P = λ o. Unit} (λ u o. Unit) (net.leave_interface name) (λ u. lift stuck)
            (Triple-call _ λ o u o' k e. tt)
            (λ u. Triple-lift stuck λ b o e k. absurd (clash b e))).at
          o tt
      where
        clash : (b : A) → ◌≡◌ {A = Result A} stuck (ok b) → ⊥
        clash b e = cc

    pub in_interface-Triple :
        (names' : List Text) (has' : Text → Text → Bool) (name : Text) (body : Exec Outside A)
        → Triple (At names' has') Gives body
        → Triple (At names' has') Gives (in_interface net name body)
    unfolding in_interface
    in_interface-Triple names' has' name body h =
        Triple-bind (λ u. At names' has') _ _
          (same-At names' has' (net.enter_interface name) (store.enters name))
          λ u. record { at = λ o k. left-Triple name (body o).0 (body o).1 (h.at o k) }

    pub when_exists-Triple :
        (names' : List Text) (has' : Text → Text → Bool) (name : Text) (otherwise : A)
        (m : Exec Outside A)
        → is_in name names' ≡ true
        → Triple (At names' has') Gives m
        → Triple (At names' has') Gives (when_exists net name otherwise m)
    unfolding when_exists
    when_exists-Triple names' has' name otherwise m known h =
        Triple-bind (λ b o. (b ≡ is_in name names') × At names' has' o) _ _
          (exists-At names' has' name) λ b. fact-Triple _ λ e. there b (e ∙ known)
      where
        there :
            (b : Bool)
            → b ≡ true
            → Triple (At names' has') Gives (if not b then pure otherwise else m)
        there true e = h
        there false e = cc

  module _ (names : List Text) (has : Text → Text → Bool) where
    pub list_ips-Triple :
        (name : Text)
        → is_in name names ≡ true
        → Triple
            (At names has)
            (λ ips o. ((a : Text) → is_in a ips ≡ has name a) × At names has o)
            (list_ips net name)
    unfolding list_ips
    list_ips-Triple name known =
        when_exists-Triple (λ ips. (a : Text) → is_in a ips ≡ has name a) names has names has name
          [] _ known
          (in_interface-Triple (λ ips. (a : Text) → is_in a ips ≡ has name a) names has names has
            name _
            (Triple-bind
              (λ found o.
                ((a : Text)
                  → is_in a (map (λ (ip : DeviceAddress × ℕ). ip.0.text) found) ≡ has name a)
                × At names has o)
              _ _
              (Triple-call (net.addresses name) λ o found o' k e.
                let listed = store.lists name o o' found e in
                (λ a. listed.0 a ∙ k.1 name a, (listed.1 ∙ k.0, λ n a. listed.2 n a ∙ k.1 n a)))
              λ found. Triple-pure _ λ o k. k))

    pub create_route-Triple :
        (p : IpConfigurationParams) (route : Option IpRoute)
        → Triple (At names has) (λ u. At names has) (create_route net p route)
    unfolding create_route
    create_route-Triple p none = Triple-pure tt λ o k. k
    create_route-Triple p (some route) = by_gateway route.gateway
      where
        dst : Text
        dst = net.cidr_notation p.ip p.suffix

        on_interface :
            Triple
              (At names has)
              (λ u. At names has)
              (net.index_of p.interface >>= net.create_route_by_interface dst)
        on_interface =
            Triple-bind (λ i. At names has) _ _
              (same-At names has (net.index_of p.interface) (store.indexes p.interface))
              λ i.
                same-At names has (net.create_route_by_interface dst i)
                  (store.routes_by_interface dst i)

        by_gateway :
            (gateway : Option Text)
            → Triple
                (At names has)
                (λ u. At names has)
                (elim gateway [
                  | some (c ∷ cs) ↦ net.create_route_by_gateway dst (c ∷ cs)
                  | _ ↦ net.index_of p.interface >>= net.create_route_by_interface dst
                ])
        by_gateway none = on_interface
        by_gateway (some []) = on_interface
        by_gateway (some (c ∷ cs)) =
            same-At names has (net.create_route_by_gateway dst (c ∷ cs))
              (store.routes_by_gateway dst (c ∷ cs))

    pub delete_route-Triple :
        (p : IpConfigurationParams) (route : Option IpRoute)
        → Triple (At names has) (λ u. At names has) (delete_route net p route)
    unfolding delete_route
    delete_route-Triple p none = Triple-pure tt λ o k. k
    delete_route-Triple p (some route) =
        Triple-bind (λ found. At names has) _ _
          (same-At names has _ (
            store.finds (net.cidr_notation p.ip p.suffix)
              (if given_gateway route then route.gateway else none)))
          removed
      where
        removed :
            (found : Option net.Route)
            → Triple (At names has) (λ u. At names has) (remove_found net found)
        removed none = Triple-pure tt λ o k. k
        removed (some r) = same-At names has (net.remove_route r) (store.removes r)
