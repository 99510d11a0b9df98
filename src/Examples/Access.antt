-- ===== src/Examples/Access.antt =====
-- Security access, keys and routes at concrete ECUs.
use cyclarity_in_vehicle_sdk.Prelude.{ℕ, ◌≡◌, refl, ◌↔◌, true, none, some, List, [], ◌∷◌}
use cyclarity_in_vehicle_sdk.Prelude.Int.{pos, negsuc}
use cyclarity_in_vehicle_sdk.Python.{ok, raised, ◌>>=◌, struct_error}
use cyclarity_in_vehicle_sdk.Python.Bytes.{from_bytes}
use cyclarity_in_vehicle_sdk.Uds.Client.{send_and_read_response, judge}
use cyclarity_in_vehicle_sdk.Uds.Security.{xor_val, pin, SecurityAlgorithm, SessionAccess, key_of}
use cyclarity_in_vehicle_sdk.Uds.Security.Keys.{IsPinKey, key_of-pin}
use cyclarity_in_vehicle_sdk.Uds.Services.{session, exchange}
use cyclarity_in_vehicle_sdk.Uds.Sessions.{
  security_access, request_seed, send_key, elevate, transit_to_session,
}
use cyclarity_in_vehicle_sdk.Uds.Sessions.Unlocking.{Unlocked, security_access-Unlocked}
use cyclarity_in_vehicle_sdk.Uds.Sessions.Routes.{
  Taken, arrived, next, undescribed, transit_iff-Taken,
}
use cyclarity_in_vehicle_sdk.Uds.Client.Script.{Script}
use cyclarity_in_vehicle_sdk.Examples.Ecu.{utils, script}

key_of-pin_example : IsPinKey (negsuc 4) 261 (key_of (pin (negsuc 4)) (1 ∷ 5 ∷ []))
unfolding from_bytes
key_of-pin_example = key_of-pin (negsuc 4) (1 ∷ 5 ∷ [])

xor_key : key_of (xor_val (pos 0xff)) (0x0f ∷ []) ≡ ok (0 ∷ 0 ∷ 0 ∷ 0xf0 ∷ [])
unfolding key_of
xor_key = refl

long_seed : key_of (pin (pos 0)) (1 ∷ 0 ∷ 0 ∷ 0 ∷ 0 ∷ []) ≡ raised struct_error
unfolding key_of
long_seed = refl

abbrev algorithm : SecurityAlgorithm
algorithm = record { seed_subfunction = some 1; key_subfunction = some 2; kind = pin (pos 1) }

abbrev seeds : Script
seeds = script ((0x67 ∷ 1 ∷ 0 ∷ 5 ∷ []) ∷ (0x67 ∷ 2 ∷ []) ∷ [])

security_access-Unlocked_example :
    Unlocked utils algorithm seeds (security_access utils algorithm 2000 seeds).1
unfolding security_access request_seed send_key exchange send_and_read_response judge ◌>>=◌ key_of
security_access-Unlocked_example = security_access-Unlocked utils algorithm 2000 seeds refl

abbrev route : List SessionAccess
route = record { id = 3; elevation_info = none } ∷ []

abbrev one_session : List (List ℕ)
one_session = (0x50 ∷ 3 ∷ []) ∷ []

abbrev after_route : Script
after_route = record { inbox = []; sent = (0x10 ∷ 3 ∷ []) ∷ [] }

route-Taken : Taken utils 2000 2020 route (script one_session) after_route
unfolding session elevate exchange send_and_read_response judge ◌>>=◌
route-Taken = next {echo = 3} refl undescribed arrived

transit_iff-Taken_example :
    (transit_to_session utils route 2000 2020 (script one_session) ≡ (ok true, after_route))
    ↔ Taken utils 2000 2020 route (script one_session) after_route
transit_iff-Taken_example = transit_iff-Taken utils 2000 2020 route (script one_session) after_route

-- Both sides hold.
transit_succeeds :
    transit_to_session utils route 2000 2020 (script one_session) ≡ (ok true, after_route)
transit_succeeds =
    (transit_iff-Taken utils 2000 2020 route (script one_session) after_route).1 route-Taken
