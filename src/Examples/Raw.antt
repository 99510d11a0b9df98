-- ===== src/Examples/Raw.antt =====
-- A wire with a script of packets, and runs of the raw sockets over it.
use cyclarity_in_vehicle_sdk.Prelude.{
  ℕ, suc, ◌+◌, ◌≡◌, refl, Bool, true, false, Option, none, some, List, [], ◌∷◌, ◌<◌, length, ◌==◌,
  arith,
}
use cyclarity_in_vehicle_sdk.Python.{Exec, Result, ok, raised, attribute_error, ◌>>=◌}
use cyclarity_in_vehicle_sdk.Raw.{Wire, one_packet}
use cyclarity_in_vehicle_sdk.Raw.Layer2.{
  send_receive_packet, send_receive_packets, send_receive, judge_packet, on_received, find_packet,
  run_find_packet, is_enough, on_wire, send_if_given,
}
use cyclarity_in_vehicle_sdk.Raw.Layer3.{v6, receive_answer, receive_answers}
use cyclarity_in_vehicle_sdk.Raw.Ending.{IsTimed, IsSending, IsFound, send_receive-Finds}
use cyclarity_in_vehicle_sdk.Raw.FirstAnswer.{send_receive_packet-Agree}
use cyclarity_in_vehicle_sdk.Raw.Skipped.{receive_answer_raises}
use cyclarity_in_vehicle_sdk.Doip.{Doipclient, DoipMessage, entity_status_response, is_response}
use cyclarity_in_vehicle_sdk.Doip.Requests.{
  udp_layer, is_answer, match_payload, is_port, received_dst_port, parse_once, req_entity_status,
}
use cyclarity_in_vehicle_sdk.Doip.Requests.Sniffed.{Layers, layer3_socket, req_entity_status-heard}
use cyclarity_in_vehicle_sdk.Examples.Doip.{small, message_of}

-- The packets that are still to come, and the clock.
abbrev pub Line : Type 0
Line = List ℕ × ℕ

abbrev next_packet : Line → Result (Option ℕ) × Line
next_packet ([], now) = (ok none, ([], suc now))
next_packet (p ∷ ps, now) = (ok (some p), (ps, suc now))

abbrev done : Exec Line (Unit {0})
done o = (ok tt, o)

-- Packets are numbers, and every packet has a layer of IP.
abbrev pub line_wire : Wire
line_wire = record {
  Outside = Line;
  Packet = ℕ;
  Address = ℕ;
  is_true = λ p. true;
  ipv4_dst_ip = λ p. some p;
  ipv6_dst_ip = λ p. some p;
  packet_bytes = λ p. p ∷ [];
  time = λ o. o.1;
  create_socket = done;
  send_one = λ p o. (ok true, o);
  send_all = λ ps o. (ok true, o);
  receive_one = λ blocking timeout o. next_packet o;
  sniff_packets = λ timeout o. (ok o.0, ([], o.1 + timeout));
  create_out_ipv4 = done;
  create_out_ipv6 = done;
  set_header_included = done;
  bind_to_device = done;
  close_out = done;
  sendto = λ bytes dst o. (ok (length bytes), o);
}

next-later : (o : Line) → (p : Option ℕ) × (o' : Line) × (next_packet o ≡ (ok p, o')) × (o.1 < o'.1)
next-later ([], now) = (none, ([], suc now), refl, omega arith)
next-later (p ∷ ps, now) = (some p, (ps, suc now), refl, omega arith)

line-IsTimed : IsTimed line_wire
line-IsTimed = record { receives = λ b t o. next-later o }

line-IsSending : IsSending line_wire
line-IsSending = record { one_sent = λ p o. (true, o, refl); all_sent = λ ps o. (true, o, refl) }

abbrev is_seven : ℕ → Result Bool
is_seven p = ok (p == 7)

abbrev busy : Line
busy = (3 ∷ 7 ∷ 7 ∷ 8 ∷ 7 ∷ [], 100)

send_receive-Finds_example :
    (found : List ℕ) × (o' : Line) × (send_receive line_wire 6
        (some (one_packet 5))
        is_seven
        5
        2
        (record { raw_socket = true; outside = busy })
      ≡ (ok found, record { raw_socket = true; outside = o' }))
    × IsFound line_wire is_seven 2 found
send_receive-Finds_example =
    send_receive-Finds line_wire (some (one_packet 5)) is_seven 6 5 2 busy line-IsTimed
      line-IsSending (λ p. (p == 7, refl)) (omega arith)

send_receive_packet-Agree_example :
    (send_receive_packet line_wire 6 none is_seven 5
      (record { raw_socket = true; outside = busy })).0
    ≡ ok (some 7)
unfolding send_receive_packets send_receive run_find_packet find_packet on_received judge_packet
    is_enough on_wire send_if_given ◌>>=◌
send_receive_packet-Agree_example =
    send_receive_packet-Agree line_wire is_seven 6 none 5
      (record { raw_socket = true; outside = busy }) (7 ∷ 7 ∷ 7 ∷ []) refl

receive_answer_raises_example :
    (receive_answer line_wire v6 is_seven 5
        (record { in_socket = true; out_socket = true; outside = busy })
      ≡ (raised attribute_error, record { in_socket = true; out_socket = true; outside = busy }))
    × (receive_answers line_wire v6 is_seven 5
          (record { in_socket = true; out_socket = true; outside = busy })
        ≡ (raised attribute_error, record { in_socket = true; out_socket = true; outside = busy }))
receive_answer_raises_example =
    receive_answer_raises line_wire v6 is_seven 5
      (record { in_socket = true; out_socket = true; outside = busy })

-- Every text is a response with the status of an entity.
abbrev status_client : Doipclient
status_client = record small {
  read_message = λ bytes p. (ok (some (message_of entity_status_response 0 bytes)), p);
}

-- A packet goes to the port of its number and carries its number.
abbrev numbered : Layers status_client line_wire
numbered = record {
  build = λ datagram. datagram.target_address;
  view = λ p. record { tcp_dst_port = none; udp_dst_port = some p; payload = some (p ∷ []) };
}

abbrev for_seven : ℕ → Result Bool
for_seven q = is_answer status_client (numbered.view q) 7 udp_layer entity_status_response

match_payload-answers :
    (q : ℕ) (b : Bool)
    → (answer : Bool) × (match_payload status_client b (some (q ∷ [])) entity_status_response
        ≡ ok answer)
unfolding match_payload
match_payload-answers q true = (true, refl)
match_payload-answers q false = (false, refl)

for_seven-answers : (q : ℕ) → (b : Bool) × (for_seven q ≡ ok b)
unfolding is_answer received_dst_port
for_seven-answers q = match_payload-answers q (is_port (some q) 7)

req_entity_status-heard_example :
    (m : DoipMessage) × ((req_entity_status status_client
        (layer3_socket status_client line_wire v6 numbered 5)
        1
        7
        2
        (record { in_socket = true; out_socket = true; outside = busy })).0
      ≡ ok (some m))
    × (bytes : List ℕ) × ((numbered.view 7).payload ≡ some bytes)
    × (parse_once status_client bytes ≡ ok (some m))
    × (is_response entity_status_response (some m) ≡ true)
unfolding is_answer received_dst_port match_payload is_port
req_entity_status-heard_example =
    req_entity_status-heard status_client line_wire v6 numbered 5 1 7 2 (3 ∷ []) 7 (7 ∷ 8 ∷ 7 ∷ [])
      busy
      (record {
        dst = 2;
        sent_bytes = 1;
        sent = busy;
        sniffed = ([], 105);
        has_layer = refl;
        sending = refl;
        hearing = refl;
      })
      for_seven-answers (refl, tt) refl
