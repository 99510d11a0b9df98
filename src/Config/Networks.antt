-- ===== src/Config/Networks.antt =====
-- The wireless networks in the report of `ConfigurationManager`.
use cyclarity_in_vehicle_sdk.Prelude.{
  ℕ, zero, suc, Bool, true, false, ◌||◌, ◌&&◌, ◌≡◌, refl, List, [], ◌∷◌, if◌then◌else◌, arith,
  Bool-cases, ◌∙◌, sym, false≢true, inl, inr, ap,
}
use cyclarity_in_vehicle_sdk.Config.{
  Text, is_text, WifiAccessPoint, ConfigurationInfo, can_info, ethernet_info, wifi_info,
}
use cyclarity_in_vehicle_sdk.Config.Store.{is_text_refl}
use cyclarity_in_vehicle_sdk.Config.Report.{is_access_point, connect_info, merge_wifi, add_wifi}

-- The number of entries of a network.
unfoldable pub times : Text → List ConfigurationInfo → ℕ
unfolding is_access_point
times ssid [] = 0
times ssid (info ∷ infos) =
    let later = times ssid infos in if is_access_point ssid info then suc later else later

unfoldable pub is_connected : Text → List ConfigurationInfo → Bool
unfolding is_text
is_connected ssid [] = false
is_connected ssid (can_info can ∷ infos) = is_connected ssid infos
is_connected ssid (ethernet_info params ips ∷ infos) = is_connected ssid infos
is_connected ssid (wifi_info wifi ∷ infos) =
    is_text wifi.ssid ssid && wifi.connected || is_connected ssid infos

-- Whether an access point of the network was found, and whether one of them is in use.
unfoldable pub is_heard : Text → List WifiAccessPoint → Bool
unfolding is_text
is_heard ssid [] = false
is_heard ssid (wifi ∷ wifi_list) = is_text wifi.ssid ssid || is_heard ssid wifi_list

unfoldable pub is_used : Text → List WifiAccessPoint → Bool
unfolding is_text
is_used ssid [] = false
is_used ssid (wifi ∷ wifi_list) = is_text wifi.ssid ssid && wifi.connected || is_used ssid wifi_list

unfoldable pub at_least_once : Bool → ℕ → ℕ
at_least_once false n = n
at_least_once true zero = 1
at_least_once true (suc n) = suc n

is_text-right : (a b c : Text) → is_text a b ≡ true → is_text a c ≡ is_text b c
unfolding is_text
is_text-right [] [] c h = refl
is_text-right [] (y ∷ b) c h = ground arith
is_text-right (x ∷ a) [] c h = ground arith
is_text-right (x ∷ a) (y ∷ b) [] h = refl
is_text-right (x ∷ a) (y ∷ b) (z ∷ c) h = ground (arith, is_text-right a b c tail)
  where
    tail : is_text a b ≡ true
    tail = ground arith

connect-access :
    (ssid : Text) (b : Bool) (info : ConfigurationInfo)
    → is_access_point ssid (connect_info b info) ≡ is_access_point ssid info
unfolding is_access_point connect_info
connect-access ssid b (can_info can) = refl
connect-access ssid b (ethernet_info params ips) = refl
connect-access ssid b (wifi_info wifi) = refl

access-same :
    (ssid ssid' : Text) (info : ConfigurationInfo)
    → is_access_point ssid info ≡ true
    → is_access_point ssid' info ≡ is_text ssid ssid'
unfolding is_access_point
access-same ssid ssid' (can_info can) h = ground arith
access-same ssid ssid' (ethernet_info params ips) h = ground arith
access-same ssid ssid' (wifi_info wifi) h = is_text-right wifi.ssid ssid ssid' h

-- Two texts that are the same have the same entries.
access-clash :
    (ssid ssid' : Text) (info : ConfigurationInfo)
    → is_text ssid' ssid ≡ true
    → is_access_point ssid info ≡ true
    → is_access_point ssid' info ≡ true
access-clash ssid ssid' info h e =
    access-same ssid ssid' info e ∙ sym (is_text-right ssid' ssid ssid' h) ∙ is_text_refl ssid'

times-merge :
    (ssid : Text) (wifi : WifiAccessPoint) (infos : List ConfigurationInfo)
    → times ssid (merge_wifi wifi infos) ≡ at_least_once (is_text wifi.ssid ssid) (times ssid infos)
unfolding times merge_wifi is_access_point at_least_once
times-merge ssid wifi [] = one (is_text wifi.ssid ssid)
  where
    one : (b : Bool) → (if b then 1 else 0) ≡ at_least_once b 0
    one true = refl
    one false = refl
times-merge ssid wifi (info ∷ infos) = elim (Bool-cases (is_access_point wifi.ssid info)) [
  | inl e ↦
      rw (e, connect-access ssid wifi.connected info, access-same wifi.ssid ssid info e)
        (found (is_text wifi.ssid ssid) (times ssid infos))
  | inr e ↦
      rw (e, times-merge ssid wifi infos)
        (other (is_text wifi.ssid ssid) (is_access_point ssid info) (times ssid infos)
          (λ same mine. false≢true (sym e ∙ access-clash ssid wifi.ssid info same mine)))
]
  where
    found : (b : Bool) (n : ℕ) → (if b then suc n else n) ≡ at_least_once b (if b then suc n else n)
    found true n = refl
    found false n = refl

    other :
        (b mine : Bool) (n : ℕ)
        → (b ≡ true → mine ≡ true → ⊥)
        → (if mine then suc (at_least_once b n) else at_least_once b n)
          ≡ at_least_once b (if mine then suc n else n)
    other true true n h = absurd (h refl refl)
    other true false n h = refl
    other false mine n h = refl

connected-merge :
    (ssid : Text) (wifi : WifiAccessPoint) (infos : List ConfigurationInfo)
    → is_connected ssid (merge_wifi wifi infos)
      ≡ is_text wifi.ssid ssid && wifi.connected || is_connected ssid infos
unfolding is_connected merge_wifi is_access_point connect_info
connected-merge ssid wifi [] = refl
connected-merge ssid wifi (can_info can ∷ infos) = connected-merge ssid wifi infos
connected-merge ssid wifi (ethernet_info params ips ∷ infos) = connected-merge ssid wifi infos
connected-merge ssid wifi (wifi_info v ∷ infos) = elim (Bool-cases (is_text v.ssid wifi.ssid)) [
  | inl e ↦
      rw (e, is_text-right v.ssid wifi.ssid ssid e)
        (found (is_text wifi.ssid ssid) wifi.connected v.connected (is_connected ssid infos))
  | inr e ↦
      rw (e, connected-merge ssid wifi infos)
        (swapped (is_text v.ssid ssid && v.connected) (is_text wifi.ssid ssid && wifi.connected)
          (is_connected ssid infos))
]
  where
    found :
        (same used before later : Bool)
        → same && (if used then true else before) || later
          ≡ same && used || (same && before || later)
    found true true before later = refl
    found true false before later = refl
    found false used before later = refl

    swapped : (a b later : Bool) → a || (b || later) ≡ b || (a || later)
    swapped true true later = refl
    swapped true false later = refl
    swapped false b later = refl

at_least_once-twice :
    (a b : Bool) (n : ℕ) → at_least_once a (at_least_once b n) ≡ at_least_once (b || a) n
unfolding at_least_once
at_least_once-twice true true zero = refl
at_least_once-twice true true (suc n) = refl
at_least_once-twice true false n = refl
at_least_once-twice false true n = refl
at_least_once-twice false false n = refl

or_moved : (a b c : Bool) → a || (b || c) ≡ b || a || c
or_moved true true c = refl
or_moved true false c = refl
or_moved false true c = refl
or_moved false false c = refl

unnamed : (ssid : Text) (c : ℕ) (cs : Text) → is_text ssid [] ≡ true → is_text ssid (c ∷ cs) ≡ false
unfolding is_text
unnamed ssid c cs e = is_text-right ssid [] (c ∷ cs) e

-- The report on a network with a name, after the access points that were found are added: the
-- number of its entries is what it was, but 1 where there was none and an access point of it was
-- found; and an entry of it says connected exactly if one did before or one of the access points
-- of the network is in use.
pub add_wifi-reported :
    (c : ℕ) (cs : Text) (wifi_list : List WifiAccessPoint) (infos : List ConfigurationInfo)
    → (times (c ∷ cs) (add_wifi wifi_list infos)
        ≡ at_least_once (is_heard (c ∷ cs) wifi_list) (times (c ∷ cs) infos))
      × (is_connected (c ∷ cs) (add_wifi wifi_list infos)
          ≡ is_used (c ∷ cs) wifi_list || is_connected (c ∷ cs) infos)
unfolding add_wifi is_heard is_used at_least_once
add_wifi-reported c cs [] infos = (refl, refl)
add_wifi-reported c cs (wifi ∷ wifi_list) infos = elim (Bool-cases (is_text wifi.ssid [])) [
  | inl e ↦ rw (e, unnamed wifi.ssid c cs e) (add_wifi-reported c cs wifi_list infos)
  | inr e ↦ rw e (
      let later = add_wifi-reported c cs wifi_list (merge_wifi wifi infos) in
      (
        later.0
            ∙ ap (at_least_once (is_heard (c ∷ cs) wifi_list)) (times-merge (c ∷ cs) wifi infos)
            ∙ at_least_once-twice (is_heard (c ∷ cs) wifi_list) (is_text wifi.ssid (c ∷ cs))
                (times (c ∷ cs) infos),
        later.1
            ∙ ap (λ b. is_used (c ∷ cs) wifi_list || b) (connected-merge (c ∷ cs) wifi infos)
            ∙ or_moved (is_used (c ∷ cs) wifi_list) (is_text wifi.ssid (c ∷ cs) && wifi.connected)
                (is_connected (c ∷ cs) infos),
      ))
]
