-- ===== src/Examples/Someip.antt =====
-- Offers of services, and runs of the SOME/IP models.
use cyclarity_in_vehicle_sdk.Prelude.{ℕ, ◌≡◌, refl, true, false, none, some, List, [], ◌∷◌}
use cyclarity_in_vehicle_sdk.Python.{ok, ◌>>=◌}
use cyclarity_in_vehicle_sdk.Someip.{
  SdOption, ipv4_endpoint, SdEntry, SdLayer, ServiceInfo, service_info, endpoint_of,
  parse_options_for_offer_service, parse_layer,
}
use cyclarity_in_vehicle_sdk.Someip.Client.{Socket, Pcapplusplus, find_service}
use cyclarity_in_vehicle_sdk.Someip.Options.{fails, parse_options_for_offer_service-fails}
use cyclarity_in_vehicle_sdk.Someip.Offers.{Queried, Collected, find_service-IsOffered}

abbrev endpoint : SdOption
endpoint = record {
  option_type = ipv4_endpoint;
  addr = 10 ∷ 0 ∷ 0 ∷ 1 ∷ [];
  port = 30509;
  is_sd_tcp = false;
}

-- An offer of the service 0x1234 with the options from `index` on.
abbrev offer : ℕ → ℕ → SdEntry
offer index n = record {
  is_offer_service = true;
  service_id = 0x1234;
  instance_id = 1;
  major_version = 1;
  minor_version = 0;
  ttl = 3;
  event_group_id = 5;
  index_1 = index;
  n_opt_1 = n;
  index_2 = 0;
  n_opt_2 = 0;
}

abbrev layer : SdLayer
layer = record {
  is_error = false;
  return_code = 0;
  entries = offer 0 1 ∷ [];
  options = endpoint ∷ [];
}

abbrev pcpp : Pcapplusplus
pcpp = record {
  find_service_query = λ service_id. service_id ∷ [];
  sd_layer = λ bytes. some layer;
  subscription_bytes = λ s. s.event_group_id ∷ [];
  method_request = λ service_id method_id version. method_id ∷ [];
  someip_layer = λ bytes. none;
}

-- The messages to come.
abbrev socket : Socket (List (List ℕ))
socket = record {
  is_udp = true;
  source_port = 30490;
  source_ip = 1;
  transmit = λ bytes s. (ok tt, s);
  receive_bytes = λ t s. elim s [ [] ↦ (ok none, []) | m ∷ ms ↦ (ok (some m), ms) ];
}

abbrev found : ServiceInfo
found = service_info (offer 0 1) (endpoint_of endpoint ∷ [])

find_service_run :
    (find_service (List (List ℕ)) pcpp socket 0x1234 2 10 ((1 ∷ []) ∷ [])).0 ≡ ok (found ∷ [])
unfolding find_service parse_layer ◌>>=◌
find_service_run = refl

find_service-IsOffered_example :
    (s₁ : List (List ℕ)) × Queried (List (List ℕ)) pcpp socket 0x1234 ((1 ∷ []) ∷ []) s₁
    × Collected (List (List ℕ)) pcpp socket 2 10 s₁ (found ∷ []) []
unfolding find_service parse_layer ◌>>=◌
find_service-IsOffered_example =
    find_service-IsOffered (List (List ℕ)) pcpp socket 0x1234 2 10 ((1 ∷ []) ∷ [])

-- One option, and a reference to the next one.
parse_options_for_offer_service-fails_example :
    fails (parse_options_for_offer_service (offer 0 2) (endpoint ∷ [])) ≡ true
parse_options_for_offer_service-fails_example =
    parse_options_for_offer_service-fails (offer 0 2) (endpoint ∷ [])
