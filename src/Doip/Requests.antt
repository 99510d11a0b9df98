-- ===== src/Doip/Requests.antt =====
-- The requests of `DoipUtils` over a raw socket, its test for an answer, and its cache of TCP
-- communicators. The raw socket, the packets of py_pcapplusplus and the sockets are parameters.
pub mod Cache
pub mod Sniffed
use cyclarity_in_vehicle_sdk.Prelude.{
  ℕ, Bool, true, false, not, ◌&&◌, Option, none, some, List, [], ◌∷◌, ◌==◌, if◌then◌else◌,
}
use cyclarity_in_vehicle_sdk.Python.{
  Exec, Result, ok, raised, stuck, pure, raise, lift, ◌>>=◌, ◌>>◌, runtime_error, type_error,
}
use cyclarity_in_vehicle_sdk.Doip.{
  MessageType, DoipMessage, Doipclient, vehicle_identification_response, entity_status_response,
  is_type, is_response,
}

-- What is read of a packet: its ports of layer 4, and its payload.
pub record Packet : Type 0 where
  pub tcp_dst_port : Option ℕ
  pub udp_dst_port : Option ℕ
  pub payload : Option (List ℕ)

pub data LayerType : Type 0 where
  tcp_layer udp_layer other_layer : LayerType

-- `received_dst_port`, for the two supported types of layer 4.
unfoldable pub received_dst_port : Packet → LayerType → Result (Option ℕ)
received_dst_port packet tcp_layer = ok packet.tcp_dst_port
received_dst_port packet udp_layer = ok packet.udp_dst_port
received_dst_port packet other_layer = raised runtime_error

-- A port that is given, is not 0 and is the expected one.
unfoldable pub is_port : Option ℕ → ℕ → Bool
is_port none expected_source_port = false
is_port (some port) expected_source_port = not (port == 0) && (port == expected_source_port)

module _ (doip : Doipclient) where
  -- The first message that a new parser finds.
  abbrev pub parse_once : List ℕ → Result (Option DoipMessage)
  parse_once bytes = (doip.read_message bytes doip.new_parser).0

  abbrev pub typed : MessageType → Result (Option DoipMessage) → Result Bool
  typed t (ok o) = ok (is_response t o)
  typed t (raised e) = raised e
  typed t stuck = stuck

  unfoldable pub match_payload : Bool → Option (List ℕ) → MessageType → Result Bool
  match_payload false payload t = ok false
  match_payload true none t = ok false
  match_payload true (some bytes) t = typed t (parse_once bytes)

  unfoldable pub is_answer : Packet → ℕ → LayerType → MessageType → Result Bool
  unfolding received_dst_port is_port match_payload
  is_answer other expected_source_port l4_type expected_resp_type =
      elim (received_dst_port other l4_type) [
        | ok port ↦
            match_payload (is_port port expected_source_port) other.payload expected_resp_type
        | raised e ↦ raised e
        | stuck ↦ stuck
      ]

  -- A datagram of UDP to the port of DoIP, in a packet of IPv4 or IPv6.
  pub record Datagram : Type 0 where
    pub source_address : ℕ
    pub target_address : ℕ
    pub source_port : ℕ
    pub doip_layer_data : List ℕ

  -- `send_receive_packet` of the raw socket: a packet for which the test holds, if one came in time.
  pub record RawSocket : Type 1 where
    pub Outside : Type 0
    pub open_socket : Exec Outside Bool
    pub send_receive_packet : Datagram → (Packet → Result Bool) → Exec Outside (Option Packet)

  abbrev pub is_given_text : Option (List ℕ) → Bool
  is_given_text none = false
  is_given_text (some []) = false
  is_given_text (some (b ∷ bs)) = true

  abbrev pub text_of : Option (List ℕ) → List ℕ
  text_of none = []
  text_of (some bs) = bs

  -- An identifier of the entity goes before one of the vehicle.
  unfoldable pub identification_message : Option (List ℕ) → Option (List ℕ) → List ℕ
  identification_message eid vin =
      if is_given_text eid
      then doip.eid_request (text_of eid)
      else if is_given_text vin
      then doip.vin_request (text_of vin)
      else doip.identification_request

  -- What both requests make of the packet; one without a payload has no bytes to parse.
  unfoldable pub answer_of : MessageType → Option Packet → Result (Option DoipMessage)
  answer_of t none = ok none
  answer_of t (some packet) = elim packet.payload [
    | none ↦ raised type_error
    | some bytes ↦ elim (parse_once bytes) [
      | ok o ↦ ok (if is_response t o then o else none)
      | raised e ↦ raised e
      | stuck ↦ stuck
    ]
  ]

  module _ (raw_socket : RawSocket) where
    unfoldable pub request_over_udp :
        Datagram → MessageType → Exec raw_socket.Outside (Option DoipMessage)
    unfolding is_answer answer_of
    request_over_udp datagram t =
        raw_socket.send_receive_packet datagram
          (λ other. is_answer other datagram.source_port udp_layer t)
        >>= λ resp_packet. lift (answer_of t resp_packet)

    unfoldable pub initiate_vehicle_identity_req :
        ℕ → ℕ → ℕ → Option (List ℕ) → Option (List ℕ) → Exec raw_socket.Outside (Option DoipMessage)
    unfolding request_over_udp identification_message
    initiate_vehicle_identity_req source_address source_port target_address eid vin =
        request_over_udp
          (record {
            source_address = source_address;
            target_address = target_address;
            source_port = source_port;
            doip_layer_data = identification_message eid vin;
          })
          vehicle_identification_response

    unfoldable pub req_entity_status : ℕ → ℕ → ℕ → Exec raw_socket.Outside (Option DoipMessage)
    unfolding request_over_udp
    req_entity_status source_address source_port target_address =
        request_over_udp
          (record {
            source_address = source_address;
            target_address = target_address;
            source_port = source_port;
            doip_layer_data = doip.entity_status_request;
          })
          entity_status_response

    -- `setup`: whether the raw socket was opened.
    pub setup_doip : Exec raw_socket.Outside Bool
    setup_doip = raw_socket.open_socket
