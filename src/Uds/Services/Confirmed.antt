-- ===== src/Uds/Services/Confirmed.antt =====
-- What an ECU must have answered for a service to report success.
use cyclarity_in_vehicle_sdk.Prelude.{ℕ, ◌≡◌, refl, ap, ◌∙◌, true, List, ◌==◌, ==_iff}
use cyclarity_in_vehicle_sdk.Python.{Result, ok}
use cyclarity_in_vehicle_sdk.Python.Triples.{
  Leaves, Triple, Triple-pure, Triple-raise, Triple-if, Triple-bind, Triple-lifted, Triple-with,
}
use cyclarity_in_vehicle_sdk.Uds.Model.{Request, Response}
use cyclarity_in_vehicle_sdk.Uds.Client.Answers.{Matches, send_and_read_response-Matches}
use cyclarity_in_vehicle_sdk.Uds.Client.Delivery.{Delivered, send_and_read_response-Delivered}
use cyclarity_in_vehicle_sdk.Uds.Udsoncan.{UdsUtils}
use cyclarity_in_vehicle_sdk.Uds.Services.{exchange, transfer_data, ecu_reset}

-- A valid and positive response to `request`.
abbrev pub Accepts : Request → Response → Type 0
Accepts request r = Matches request r × (r.positive ≡ true)

module _ (u : UdsUtils) where
  open u.data_link_layer use {State}

  -- Between the two states the request was sent whole, and after that the link delivered the bytes
  -- of this response, which accepts it.
  abbrev pub Exchanged : Request → State → Response → State → Type 0
  Exchanged request s r s' =
      Accepts request r × Delivered u.data_link_layer u.udsoncan.from_payload request s r s'

  -- The request that was made got such a response, from which `echo` read `expected`.
  abbrev pub Confirms : Result Request → (Response → Result ℕ) → ℕ → State → State → Type 0
  Confirms made echo expected s s' =
      (request : Request) × (made ≡ ok request)
      × (r : Response) × Exchanged request s r s'
      × (echo r ≡ ok expected)

  pub exchange-Exchanged :
      (request : Request) (timeout : ℕ) (s₀ : State)
      → Triple (λ s. s ≡ s₀) (Exchanged request s₀) (exchange u request timeout)
  unfolding exchange
  exchange-Exchanged request timeout s₀ =
      Triple-with (Accepts request) _
        (send_and_read_response-Matches u.data_link_layer u.udsoncan.from_payload u.fuel u.attempts
          request timeout)
        (send_and_read_response-Delivered u.data_link_layer u.udsoncan.from_payload request s₀
          u.fuel u.attempts timeout)

  -- Where `transfer_data` returns, the request with the block and its sequence number was sent,
  -- whole, and after that the link delivered a valid and positive response of the service, which
  -- echoes the sequence number.
  pub transfer_data-Confirms :
      (seq : ℕ) (bytes : List ℕ) (timeout : ℕ) (s : State)
      → Leaves
          (λ done.
            Confirms (u.udsoncan.transfer_request seq bytes) u.udsoncan.sequence_number_echo seq s)
          (transfer_data u seq bytes timeout s)
  unfolding transfer_data
  transfer_data-Confirms seq bytes timeout s₀ = transferred.at s₀ refl
    where
      transferred :
          Triple
            (λ s. s ≡ s₀)
            (λ done.
              Confirms
                (u.udsoncan.transfer_request seq bytes)
                u.udsoncan.sequence_number_echo
                seq
                s₀)
            (transfer_data u seq bytes timeout)
      transferred = Triple-lifted _ _ λ request made.
          Triple-bind (Exchanged request s₀) _ _ (exchange-Exchanged request timeout s₀) λ r.
            Triple-lifted _ _ λ echo read.
              Triple-if (echo == seq) _ _
                (λ same.
                  Triple-pure tt
                    λ s h. (request, made, r, h, read ∙ ap ok ((==_iff echo seq).0 same)))
                (λ differs. Triple-raise _)

  -- Where `ecu_reset` returns True, the request for the reset was sent, whole, and after that the
  -- link delivered a valid and positive response of the service, which echoes the type of the reset.
  pub ecu_reset-Confirms :
      (reset_type timeout : ℕ) (s : State)
      → Leaves
          (λ b s'.
            b ≡ true
            → Confirms
                (u.udsoncan.reset_request reset_type)
                u.udsoncan.reset_type_echo
                reset_type
                s
                s')
          (ecu_reset u reset_type timeout s)
  unfolding ecu_reset
  ecu_reset-Confirms reset_type timeout s₀ = reset.at s₀ refl
    where
      reset :
          Triple
            (λ s. s ≡ s₀)
            (λ b s'.
              b ≡ true
              → Confirms
                  (u.udsoncan.reset_request reset_type)
                  u.udsoncan.reset_type_echo
                  reset_type
                  s₀
                  s')
            (ecu_reset u reset_type timeout)
      reset = Triple-lifted _ _ λ request made.
          Triple-bind (Exchanged request s₀) _ _ (exchange-Exchanged request timeout s₀) λ r.
            Triple-lifted _ _ λ echo read.
              Triple-pure _
                λ s h same. (request, made, r, h, read ∙ ap ok ((==_iff echo reset_type).0 same))
