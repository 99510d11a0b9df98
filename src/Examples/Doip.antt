-- ===== src/Examples/Doip.antt =====
-- A small DoIP parser, connections, and runs of the DoIP models.
use cyclarity_in_vehicle_sdk.Prelude.{
  ℕ, suc, ◌≡◌, refl, true, false, Option, none, some, List, [], ◌∷◌, ◌==◌, if◌then◌else◌, arith,
}
use cyclarity_in_vehicle_sdk.Python.{ok, ◌>>=◌}
use cyclarity_in_vehicle_sdk.Uds.Client.Script.{Script, scripted}
use cyclarity_in_vehicle_sdk.Doip.{
  MessageType, base, generic_negative_acknowledge, routing_activation_response, diagnostic_message,
  DoipMessage, Doipclient, decide, read_doip, request_routing_activation,
}
use cyclarity_in_vehicle_sdk.Doip.Link.{TcpConnection, DoipCommunicator, is_activated, open_doip}
use cyclarity_in_vehicle_sdk.Doip.Reading.{awaited, read_doip-awaited}
use cyclarity_in_vehicle_sdk.Doip.Activation.{Connected, Activated, open_doip-Activated}
use cyclarity_in_vehicle_sdk.Doip.Requests.Cache.{
  TcpFactory, DoipUtils, lookup, insert, get_tcp_communicator,
}
use cyclarity_in_vehicle_sdk.Doip.Requests.Cache.Kept.{Kept, get_tcp_communicator-Kept}
use cyclarity_in_vehicle_sdk.Examples.Ecu.{script}

abbrev pub message_of : MessageType → ℕ → List ℕ → DoipMessage
message_of t code bytes = record { type = t; response_code = code; user_data = bytes }

-- 5 announces a routing activation, 8 a diagnostic message, 0 a negative acknowledgement, and one
-- byte is not enough.
abbrev small_parse : List ℕ → Option DoipMessage
small_parse [] = none
small_parse (t ∷ []) = none
small_parse (t ∷ c ∷ rest) =
    if t == 5
    then some (message_of routing_activation_response c [])
    else if t == 8
    then some (message_of diagnostic_message 0 (c ∷ rest))
    else if t == 0
    then some (message_of generic_negative_acknowledge c [])
    else some (message_of base 0 [])

abbrev pub small : Doipclient
small = record {
  Parser = Unit {0};
  new_parser = tt;
  read_message = λ bytes p. (ok (small_parse bytes), p);
  eid_request = λ eid. eid;
  vin_request = λ vin. vin;
  identification_request = [];
  entity_status_request = [];
  routing_activation_request = λ client. client ∷ [];
  diagnostic_request = λ client target bytes. client ∷ target ∷ bytes;
}

read_doip-awaited_example :
    read_doip small scripted 5 1000
      (script ((8 ∷ []) ∷ (9 ∷ 9 ∷ []) ∷ (8 ∷ 1 ∷ 2 ∷ []) ∷ (5 ∷ 0 ∷ []) ∷ []))
    ≡ (ok (some (message_of diagnostic_message 0 (1 ∷ 2 ∷ []))), script ((5 ∷ 0 ∷ []) ∷ []))
unfolding awaited decide
read_doip-awaited_example =
    read_doip-awaited small 1000 5
      (script ((8 ∷ []) ∷ (9 ∷ 9 ∷ []) ∷ (8 ∷ 1 ∷ 2 ∷ []) ∷ (5 ∷ 0 ∷ []) ∷ [])) (omega arith)

abbrev connection : TcpConnection
connection = record { channel = scripted; is_open = λ s. (ok true, s); connect = λ s. (ok true, s) }

abbrev pub tester : DoipCommunicator
tester = record {
  client_logical_address = 0xe80;
  target_logical_address = 0x10;
  routing_activation_needed = true;
  fuel = 5;
}

abbrev activation_answer : Script
activation_answer = script ((5 ∷ 0x10 ∷ []) ∷ [])

open_doip-Activated_example :
    (s₁ : Script) × Connected small connection tester activation_answer s₁
    × Activated small connection tester s₁ (open_doip small connection tester activation_answer).1
unfolding open_doip decide is_activated ◌>>=◌ request_routing_activation
open_doip-Activated_example = open_doip-Activated small connection tester activation_answer refl

-- Sockets of which none stays open, with the number that is next.
abbrev sockets : TcpFactory
sockets = record {
  Outside = ℕ;
  create = λ key n. (ok n, suc n);
  is_open = λ tcp n. (ok false, n);
  open_tcp = λ tcp n. (ok true, n);
  connect = λ tcp n. (ok true, n);
  close_tcp = λ tcp n. (ok true, n);
}

abbrev cached : DoipUtils sockets
cached = record { tcp_communicators_cache = ((1, 2), 40) ∷ ((1, 3), 41) ∷ []; outside = 42 }

-- The closed communicator is replaced.
get_tcp_communicator-Kept_example :
    Kept sockets
      (1, 3)
      cached.tcp_communicators_cache
      (
        ok (false, 42),
        record { tcp_communicators_cache = ((1, 2), 40) ∷ ((1, 3), 42) ∷ []; outside = 43 },
      )
unfolding get_tcp_communicator lookup insert ◌>>=◌
get_tcp_communicator-Kept_example = get_tcp_communicator-Kept sockets (1, 3) cached
