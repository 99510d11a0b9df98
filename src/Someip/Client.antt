-- ===== src/Someip/Client.antt =====
-- Finding services, subscribing and invoking, of `SomeipUtils`.
use cyclarity_in_vehicle_sdk.Prelude.{
  ℕ, zero, suc, Bool, true, false, not, ◌&&◌, Option, none, some, List, [], ◌∷◌, ◌++◌, ◌==◌, ltb,
  if◌then◌else◌,
}
use cyclarity_in_vehicle_sdk.Python.{Exec, Result, ok, raised, value_error, pure, lift, ◌>>=◌, ◌>>◌}
use cyclarity_in_vehicle_sdk.Someip.{
  Layer4ProtocolType, udp, tcp, SdLayer, ServiceInfo, EvtgroupInfo, MethodInfo, e_unknown_method,
  parse_layer,
}

-- A `UdpCommunicator`, `MulticastCommunicator` or `TcpCommunicator`: all are views of one world.
pub record Socket (World : Type 0) : Type 0 where
  pub is_udp : Bool
  pub source_port : ℕ
  pub source_ip : ℕ
  pub transmit : List ℕ → Exec World (Unit {0})
  pub receive_bytes : ℕ → Exec World (Option (List ℕ))

-- What is read of a `SomeIpLayer`.
pub record SomeIpLayer : Type 0 where
  pub method_id : ℕ
  pub return_code : ℕ
  pub payload : List ℕ

-- The fields of a subscription that `_build_evtgrp_layer` sets.
pub record Subscription : Type 0 where
  pub service_id : ℕ
  pub instance_id : ℕ
  pub major_version : ℕ
  pub ttl : ℕ
  pub event_group_id : ℕ
  pub is_sd_udp : Bool
  pub source_port : ℕ
  pub source_ip : ℕ

unfoldable pub build_evtgrp_layer : ServiceInfo → ℕ → Layer4ProtocolType → ℕ → ℕ → Subscription
build_evtgrp_layer info evtgrpid transport_protocol source_port source_ip = record {
  service_id = info.service_id;
  instance_id = info.instance_id;
  major_version = info.major_ver;
  ttl = info.ttl;
  event_group_id = evtgrpid;
  is_sd_udp = elim transport_protocol [ udp ↦ true | tcp ↦ false ];
  source_port = source_port;
  source_ip = source_ip;
}

-- The packing and the parsing of py_pcapplusplus.
pub record Pcapplusplus : Type 0 where
  pub find_service_query : ℕ → List ℕ
  pub sd_layer : List ℕ → Option SdLayer
  pub subscription_bytes : Subscription → List ℕ
  pub method_request : ℕ → ℕ → ℕ → List ℕ
  pub someip_layer : List ℕ → Option SomeIpLayer

-- `if recv_data:`
abbrev pub given_bytes : Option (List ℕ) → Option (List ℕ)
given_bytes none = none
given_bytes (some []) = none
given_bytes (some (b ∷ bs)) = some (b ∷ bs)

module _ (World : Type 0) (pcpp : Pcapplusplus) where
  -- `_parse_find_service_response`, of what was received.
  unfoldable pub parse_find_service_response : Option (List ℕ) → Result (List ServiceInfo)
  unfolding parse_layer
  parse_find_service_response none = ok []
  parse_find_service_response (some recv_data) = parse_layer (pcpp.sd_layer recv_data)

  -- `for _ in range(recv_retry)`
  unfoldable pub collect_services : ℕ → Socket World → ℕ → Exec World (List ServiceInfo)
  unfolding parse_find_service_response
  collect_services zero socket recv_timeout = pure []
  collect_services (suc n) socket recv_timeout = do
    recv_data ← socket.receive_bytes recv_timeout
    infos ← lift (parse_find_service_response recv_data)
    more ← collect_services n socket recv_timeout
    pure (infos ++ more)

  unfoldable pub find_service : Socket World → ℕ → ℕ → ℕ → Exec World (List ServiceInfo)
  unfolding collect_services
  find_service socket service_id recv_retry recv_timeout = do
    if socket.is_udp then socket.transmit (pcpp.find_service_query service_id) else pure tt
    collect_services recv_retry socket recv_timeout

  -- The first entry of an answer names the event group and the service.
  unfoldable pub confirms : ServiceInfo → ℕ → Option SdLayer → Bool
  confirms info evtgrpid none = false
  confirms info evtgrpid (some layer) = elim layer.entries [
    | [] ↦ false
    | e ∷ es ↦ (e.event_group_id == evtgrpid) && (e.service_id == info.service_id)
  ]

  abbrev pub answer_confirms : ServiceInfo → ℕ → Option (List ℕ) → Bool
  answer_confirms info evtgrpid none = false
  answer_confirms info evtgrpid (some bytes) = confirms info evtgrpid (pcpp.sd_layer bytes)

  unfoldable pub subscribe_evtgrp :
      Socket World
      → Socket World
      → ServiceInfo
      → ℕ
      → Layer4ProtocolType
      → ℕ
      → Exec World (Option EvtgroupInfo)
  unfolding build_evtgrp_layer confirms
  subscribe_evtgrp sd_socket ep_socket info evtgrpid transport_protocol recv_timeout = do
    sd_socket.transmit (
        pcpp.subscription_bytes (
          build_evtgrp_layer info evtgrpid transport_protocol ep_socket.source_port
            ep_socket.source_ip))
    recv_data ← sd_socket.receive_bytes recv_timeout
    if not (answer_confirms info evtgrpid (given_bytes recv_data)) then pure none else do
      initial_data ← ep_socket.receive_bytes recv_timeout
      pure (some (record { eventgroup_id = evtgrpid; initial_data = initial_data }))

  -- A return code that is no `SomeIpReturnCode` is refused by the model of the result.
  unfoldable pub method_info : Option SomeIpLayer → Result (Option MethodInfo)
  method_info none = ok none
  method_info (some layer) =
      if layer.return_code == e_unknown_method
      then ok none
      else if ltb 0x0a layer.return_code
      then raised value_error
      else ok (
          some (record {
            method_id = layer.method_id;
            return_code = layer.return_code;
            payload = layer.payload;
          }))

  abbrev pub method_answer : Option (List ℕ) → Result (Option MethodInfo)
  method_answer none = ok none
  method_answer (some bytes) = method_info (pcpp.someip_layer bytes)

  unfoldable pub method_invoke : Socket World → ServiceInfo → ℕ → ℕ → Exec World (Option MethodInfo)
  unfolding method_info
  method_invoke socket info method_id recv_timeout = do
    socket.transmit (pcpp.method_request info.service_id method_id info.major_ver)
    recv_data ← socket.receive_bytes recv_timeout
    lift (method_answer recv_data)
