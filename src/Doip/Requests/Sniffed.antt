-- ===== src/Doip/Requests/Sniffed.antt =====
-- The requests of `DoipUtils` over the Layer 3 raw socket of communication/ip/raw/raw_socket.py.
use cyclarity_in_vehicle_sdk.Prelude.{
  ℕ, ◌≡◌, refl, ap, sym, ◌∙◌, Bool, true, false, Option, none, some, List, [], ◌∷◌, ◌++◌, All,
  if◌then◌else◌,
}
use cyclarity_in_vehicle_sdk.Python.{Result, ok, raised, stuck, pure, ◌>>=◌}
use cyclarity_in_vehicle_sdk.Raw.{Wire, one_packet, first_found, send_by}
use cyclarity_in_vehicle_sdk.Raw.Layer3.{
  IpVersion, Layer3RawSocket, collect, dst_ip, open_raw, send_receive_packet, send_receive_packets,
  send_raw, send_packet, transmit_packet, send_to_dst, use_out, use_in, on_wire, is_open_raw,
}
use cyclarity_in_vehicle_sdk.Doip.{
  Doipclient, DoipMessage, MessageType, entity_status_response, is_response,
}
use cyclarity_in_vehicle_sdk.Doip.Requests.{
  Packet, udp_layer, Datagram, RawSocket, is_answer, match_payload, is_port, received_dst_port,
  parse_once, typed, answer_of, request_over_udp, req_entity_status,
}
use mathlib.Core.Option
use mathlib.Core.List.{append_assoc, append-nil}

-- The packets of the requests: how one is built of its layers, and what is read of one.
pub record Layers (doip : Doipclient) (wire : Wire) : Type 0 where
  pub build : Datagram doip → wire.Packet
  pub view : wire.Packet → Packet

module _ {P : Type 0} (is_answer : P → Result Bool) where
  collect-found :
      (found ps : List P)
      → ((p : P) → (b : Bool) × (is_answer p ≡ ok b))
      → (later : List P) × (collect is_answer found ps ≡ ok (found ++ later))
  unfolding collect
  collect-found found [] answers = ([], ap ok (sym (append-nil found)))
  collect-found found (p ∷ ps) answers =
      let (b, e) = answers p in rw (e, collect) (decided b (λ f. collect-found f ps answers))
    where
      decided :
          (b : Bool)
          → ((f : List P) → (later : List P) × (collect is_answer f ps ≡ ok (f ++ later)))
          → (later : List P) × (collect is_answer (if b then found ++ (p ∷ []) else found) ps
              ≡ ok (found ++ later))
      decided true go =
          let (later, e) = go (found ++ (p ∷ [])) in
          (p ∷ later, e ∙ ap ok (append_assoc found (p ∷ []) later))
      decided false go = go found

  -- The first packet for which the test holds is the first that is found.
  collect-first :
      (earlier : List P) (p : P) (later : List P)
      → ((p : P) → (b : Bool) × (is_answer p ≡ ok b))
      → All (λ q. is_answer q ≡ ok false) earlier
      → is_answer p ≡ ok true
      → (found : List P) × (collect is_answer [] (earlier ++ (p ∷ later)) ≡ ok (p ∷ found))
  unfolding collect
  collect-first [] p later answers h a = rw (a, collect) (collect-found (p ∷ []) later answers)
  collect-first (q ∷ earlier) p later answers h a =
      rw (h.0, collect) (collect-first earlier p later answers h.1 a)

module _ (doip : Doipclient) (wire : Wire) (version : IpVersion) (layers : Layers doip wire)
    (timeout : ℕ) where
  -- The raw socket of `DoipUtils`, with the time that an answer may take.
  abbrev pub layer3_socket : RawSocket doip
  layer3_socket = record {
    Outside = Layer3RawSocket wire version;
    open_socket = open_raw wire version;
    send_receive_packet = λ datagram is_answer.
        send_receive_packet wire version (some (one_packet (layers.build datagram)))
          (λ packet. is_answer (layers.view packet)) timeout
        >>= λ found. pure (Option.map layers.view found);
  }

  -- A raw socket that is open, sends, and hears the packets `ps`.
  pub record IsHearing (datagram : Datagram doip) (ps : List wire.Packet) (o : wire.Outside)
      : Type 0 where
    pub dst : wire.Address
    pub sent_bytes : ℕ
    pub sent : wire.Outside
    pub sniffed : wire.Outside
    pub has_layer : dst_ip wire version version (layers.build datagram) ≡ some dst
    pub sending :
        wire.sendto (wire.packet_bytes (layers.build datagram)) dst o ≡ (ok sent_bytes, sent)
    pub hearing : wire.sniff_packets timeout sent ≡ (ok ps, sniffed)

  abbrev is_answer_to : Datagram doip → MessageType → wire.Packet → Result Bool
  is_answer_to datagram t p = is_answer doip (layers.view p) datagram.source_port udp_layer t

  abbrev opened : wire.Outside → Layer3RawSocket wire version
  opened o = record { in_socket = true; out_socket = true; outside = o }

  -- A packet that passes the test gives a message of the type.
  typed-message :
      (t : MessageType) (parsed : Result (Option DoipMessage))
      → typed doip t parsed ≡ ok true
      → (m : DoipMessage) × (parsed ≡ ok (some m)) × (is_response t (some m) ≡ true)
  typed-message t (ok none) e = cc
  typed-message t (ok (some m)) e = (m, refl, cc)
  typed-message t (raised x) e = cc
  typed-message t stuck e = cc

  matched-message :
      (t : MessageType) (b : Bool) (packet : Packet) (payload : Option (List ℕ))
      → packet.payload ≡ payload
      → match_payload doip b payload t ≡ ok true
      → (m : DoipMessage) × (answer_of doip t (some packet) ≡ ok (some m))
        × (bytes : List ℕ) × (packet.payload ≡ some bytes)
        × (parse_once doip bytes ≡ ok (some m))
        × (is_response t (some m) ≡ true)
  unfolding match_payload answer_of
  matched-message t false packet payload p e = cc
  matched-message t true packet none p e = cc
  matched-message t true packet (some bytes) p e =
      let (m, parsed, typed_m) = typed-message t (parse_once doip bytes) e in
      (m, rw (p, parsed, typed_m) refl, bytes, p, parsed, typed_m)

  request-heard :
      (datagram : Datagram doip) (t : MessageType) (earlier : List wire.Packet) (p : wire.Packet)
      (later : List wire.Packet) (o : wire.Outside)
      → IsHearing datagram (earlier ++ (p ∷ later)) o
      → ((q : wire.Packet) → (b : Bool) × (is_answer_to datagram t q ≡ ok b))
      → All (λ q. is_answer_to datagram t q ≡ ok false) earlier
      → is_answer_to datagram t p ≡ ok true
      → (request_over_udp doip layer3_socket datagram t (opened o)).0
        ≡ answer_of doip t (some (layers.view p))
  unfolding request_over_udp send_receive_packet send_receive_packets send_raw send_by send_packet
      transmit_packet send_to_dst use_out use_in on_wire is_open_raw first_found ◌>>=◌
  request-heard datagram t earlier p later o heard answers before a =
      let (found, e) = collect-first (is_answer_to datagram t) earlier p later answers before a in
      rw (heard.has_layer, heard.sending, heard.hearing, e) refl

  abbrev status_datagram : ℕ → ℕ → ℕ → Datagram doip
  status_datagram source_address source_port target_address = record {
    source_address = source_address;
    target_address = target_address;
    source_port = source_port;
    doip_layer_data = doip.entity_status_request;
  }

  abbrev is_status_answer : ℕ → wire.Packet → Result Bool
  is_status_answer source_port q =
      is_answer doip (layers.view q) source_port udp_layer entity_status_response

  -- Where the raw socket is open, sends the request and then hears packets, the request for the
  -- status of an entity returns the message in the payload of the first packet that passes the test
  -- for an answer, and that is a response with the status of an entity. The packets before it fail
  -- the test, and the test returns for every packet.
  pub req_entity_status-heard :
      (source_address source_port target_address : ℕ) (earlier : List wire.Packet) (p : wire.Packet)
      (later : List wire.Packet) (o : wire.Outside)
      → IsHearing
          (status_datagram source_address source_port target_address)
          (earlier ++ (p ∷ later))
          o
      → ((q : wire.Packet) → (b : Bool) × (is_status_answer source_port q ≡ ok b))
      → All (λ q. is_status_answer source_port q ≡ ok false) earlier
      → is_status_answer source_port p ≡ ok true
      → (m : DoipMessage) × ((req_entity_status doip layer3_socket source_address source_port
            target_address
            (opened o)).0
          ≡ ok (some m))
        × (bytes : List ℕ) × ((layers.view p).payload ≡ some bytes)
        × (parse_once doip bytes ≡ ok (some m))
        × (is_response entity_status_response (some m) ≡ true)
  unfolding req_entity_status is_answer received_dst_port
  req_entity_status-heard source_address source_port target_address earlier p later o heard answers
        before a =
      let (m, answer, bytes, payload, parsed, type) =
        matched-message entity_status_response (is_port (layers.view p).udp_dst_port source_port)
          (layers.view p) (layers.view p).payload refl a in
      (
        m,
        request-heard (status_datagram source_address source_port target_address)
              entity_status_response earlier p later o heard answers before a
            ∙ answer,
        bytes,
        payload,
        parsed,
        type,
      )
