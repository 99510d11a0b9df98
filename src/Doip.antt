-- ===== src/Doip.antt =====
-- protocol/doip/impl/doip_utils.py: reading DoIP messages over a connection, and the requests of
-- `DoipUtils`. The package doipclient, which packs and parses, is a parameter.
pub mod Link
pub mod Requests
pub mod Reading
pub mod Heard
pub mod Activation
use cyclarity_in_vehicle_sdk.Prelude.{
  ℕ, zero, suc, ◌-◌, Bool, true, false, not, ◌&&◌, Option, none, some, List, [], ◌∷◌, ◌==◌, leb,
  if◌then◌else◌,
}
use cyclarity_in_vehicle_sdk.Python.{
  Exec, Result, ok, raised, stuck, pure, raise, lift, diverge, continue, ◌>>=◌,
}
use cyclarity_in_vehicle_sdk.Communicator.{Communicator}

-- The types of messages that the sources name; `base` is `messages.DoIPMessage` itself.
pub data MessageType : Type 0 where
  base generic_negative_acknowledge vehicle_identification_response : MessageType
  routing_activation_response entity_status_response : MessageType
  diagnostic_message diagnostic_message_positive_acknowledgement : MessageType
  another : MessageType

-- `type(message) is t`
abbrev pub is_type : MessageType → MessageType → Bool
is_type base base = true
is_type generic_negative_acknowledge generic_negative_acknowledge = true
is_type vehicle_identification_response vehicle_identification_response = true
is_type routing_activation_response routing_activation_response = true
is_type entity_status_response entity_status_response = true
is_type diagnostic_message diagnostic_message = true
is_type diagnostic_message_positive_acknowledgement diagnostic_message_positive_acknowledgement =
    true
is_type another another = true
is_type _ _ = false

pub record DoipMessage : Type 0 where
  pub type : MessageType
  pub response_code : ℕ
  pub user_data : List ℕ

-- `Parser` and the packing of requests in doipclient.
pub record Doipclient : Type 1 where
  pub Parser : Type 0
  pub new_parser : Parser
  pub read_message : List ℕ → Parser → Result (Option DoipMessage) × Parser
  pub eid_request : List ℕ → List ℕ
  pub vin_request : List ℕ → List ℕ
  pub identification_request : List ℕ
  pub entity_status_request : List ℕ
  pub routing_activation_request : ℕ → List ℕ
  pub diagnostic_request : ℕ → ℕ → List ℕ → List ℕ

-- What the loop of `_read_doip` makes of the last response.
pub data Next : Type 0 where
  give_up read_on : Next
  hand_out : DoipMessage → Next

unfoldable pub decide : Option DoipMessage → Next
decide none = read_on
decide (some m) =
    if is_type m.type generic_negative_acknowledge
    then give_up
    else if not (is_type m.type base)
    then hand_out m
    else read_on

-- `type(response) is t`, of a response that may be None.
abbrev pub is_response : MessageType → Option DoipMessage → Bool
is_response t none = false
is_response t (some m) = is_type m.type t

module _ (doip : Doipclient) (link : Communicator) where
  open doip use {Parser, new_parser, read_message}
  open link use {State, send, recv, time}

  unfoldable pub now : Exec State ℕ
  now s = let (t, s') = time s in (ok t, s')

  -- `if data: response = parser.read_message(data)`
  abbrev pub feed : List ℕ → Option DoipMessage → Parser → Result (Option DoipMessage) × Parser
  feed [] response parser = (ok response, parser)
  feed (b ∷ bs) response parser = read_message (b ∷ bs) parser

  -- The rest of a round; `rest` is the loop from its next round on.
  unfoldable pub proceed :
      (List ℕ → Exec State (Option DoipMessage)) → ℕ → Next → Exec State (Option DoipMessage)
  proceed rest timeout give_up = pure none
  proceed rest timeout (hand_out m) = pure (some m)
  proceed rest timeout read_on = do
    bytes ← recv timeout
    elim bytes [ [] ↦ pure none | b ∷ bs ↦ rest (b ∷ bs) ]

  -- `while (time.time() - start_time) <= timeout`, one round for each unit of fuel.
  unfoldable pub read_doip_loop :
      ℕ → ℕ → ℕ → Parser → Option DoipMessage → List ℕ → Exec State (Option DoipMessage)
  unfolding now proceed
  read_doip_loop zero timeout start parser response bytes = diverge
  read_doip_loop (suc fuel) timeout start parser response bytes = do
    t ← now
    if not (leb (t - start) timeout) then pure none else do
      response' ← lift (feed bytes response parser).0
      proceed (read_doip_loop fuel timeout start (feed bytes response parser).1 response') timeout
          (decide response')

  unfoldable pub read_doip : ℕ → ℕ → Exec State (Option DoipMessage)
  unfolding read_doip_loop
  read_doip fuel timeout = do start ← now; read_doip_loop fuel timeout start new_parser none []

  -- `initiate_routing_activation_req_bound`
  unfoldable pub request_routing_activation : ℕ → ℕ → ℕ → Exec State (Option DoipMessage)
  unfolding read_doip
  request_routing_activation fuel client_logical_address timeout = do
    bytes_sent ← send (doip.routing_activation_request client_logical_address) timeout
    if bytes_sent == 0 then (link.close_channel >>= λ closed. pure none) else do
      response ← read_doip fuel timeout
      pure (if is_response routing_activation_response response then response else none)

  -- The acknowledgement is read, and a missing one is only logged.
  unfoldable pub send_uds_request : ℕ → List ℕ → ℕ → ℕ → ℕ → Exec State ℕ
  unfolding read_doip
  send_uds_request fuel payload client_logical_address target_logical_address timeout = do
    sent_bytes ←
        send (doip.diagnostic_request client_logical_address target_logical_address payload) timeout
    response ← read_doip fuel timeout
    pure sent_bytes

  unfoldable pub read_uds_response : ℕ → ℕ → Exec State (Option (List ℕ))
  unfolding read_doip
  read_uds_response fuel timeout = do
    response ← read_doip fuel timeout
    pure (elim response [
      | none ↦ none
      | some m ↦ if is_type m.type diagnostic_message then some m.user_data else none
    ])
