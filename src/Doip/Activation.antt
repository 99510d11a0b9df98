-- ===== src/Doip/Activation.antt =====
-- When the DoIP communicator takes its routing for active.
use cyclarity_in_vehicle_sdk.Prelude.{
  ℕ, ◌≡◌, refl, subst, ◌⊎◌, inl, inr, Bool, true, false, not, Option, none, some, ◌==◌, ==_iff,
  if◌then◌else◌, arith,
}
use cyclarity_in_vehicle_sdk.Python.{ok}
use cyclarity_in_vehicle_sdk.Python.Triples.{
  Leaves, Triple, Triple-pure, Triple-if, Triple-bind, Triple-call, Triple-weaken, Triple-anchored,
}
use cyclarity_in_vehicle_sdk.Communicator.{Communicator}
use cyclarity_in_vehicle_sdk.Doip.{
  MessageType, base, generic_negative_acknowledge, vehicle_identification_response,
  routing_activation_response, entity_status_response, diagnostic_message,
  diagnostic_message_positive_acknowledgement, another, DoipMessage, Doipclient, is_type,
  is_response, request_routing_activation,
}
use cyclarity_in_vehicle_sdk.Doip.Link.{
  TcpConnection, DoipCommunicator, success, is_activated, activate_routing_if_needed, open_doip,
}
use cyclarity_in_vehicle_sdk.Doip.Heard.{Heard, AllHeard, read_doip-Triple}

is_type-reply :
    (t : MessageType)
    → is_type t routing_activation_response ≡ true
    → t ≡ routing_activation_response
is_type-reply routing_activation_response h = refl
is_type-reply base h = cc
is_type-reply generic_negative_acknowledge h = cc
is_type-reply vehicle_identification_response h = cc
is_type-reply entity_status_response h = cc
is_type-reply diagnostic_message h = cc
is_type-reply diagnostic_message_positive_acknowledgement h = cc
is_type-reply another h = cc

module _ (doip : Doipclient) (link : Communicator) where
  open link use {State, send}

  -- The request was sent, and answered with a response of the right type that reports success.
  abbrev pub Answered : ℕ → ℕ → State → State → Type 0
  Answered client timeout s s' =
      (n : ℕ) × (s₁ : State) × (send (doip.routing_activation_request client) timeout s
        ≡ (ok n, s₁))
      × ((n == 0) ≡ false)
      × (m : DoipMessage) × Heard doip link s₁ m s'
      × (m.type ≡ routing_activation_response)
      × (m.response_code ≡ success)

  abbrev Replied : ℕ → ℕ → State → Option DoipMessage → State → Type 0
  Replied client timeout s none s' = Unit
  Replied client timeout s (some m) s' =
      (n : ℕ) × (s₁ : State) × (send (doip.routing_activation_request client) timeout s
        ≡ (ok n, s₁))
      × ((n == 0) ≡ false)
      × Heard doip link s₁ m s'
      × (m.type ≡ routing_activation_response)

  filtered-Replied :
      (client timeout n : ℕ) (s s₁ s' : State) (o : Option DoipMessage)
      → send (doip.routing_activation_request client) timeout s ≡ (ok n, s₁)
      → (n == 0) ≡ false
      → AllHeard doip link s₁ o s'
      → Replied client timeout s (if is_response routing_activation_response o then o else none) s'
  filtered-Replied client timeout n s s₁ s' none e h a = tt
  filtered-Replied client timeout n s s₁ s' (some m) e h a =
      by_test (is_type m.type routing_activation_response) refl
    where
      by_test :
          (b : Bool)
          → is_type m.type routing_activation_response ≡ b
          → Replied client timeout s (if b then some m else none) s'
      by_test true t = (n, s₁, e, h, a, is_type-reply m.type t)
      by_test false t = tt

  request-Replied :
      (fuel client timeout : ℕ) (s₀ : State)
      → Triple
          (λ s. s ≡ s₀)
          (Replied client timeout s₀)
          (request_routing_activation doip link fuel client timeout)
  unfolding request_routing_activation
  request-Replied fuel client timeout s₀ =
      Triple-bind (λ n s. send (doip.routing_activation_request client) timeout s₀ ≡ (ok n, s)) _ _
        (Triple-call _ λ s n s' p e.
          subst (λ t. send (doip.routing_activation_request client) timeout t ≡ (ok n, s')) p e)
        λ n.
          Triple-if (n == 0) _ _
            (λ failed.
              Triple-bind (λ closed s. Unit) _ _ (Triple-call _ (λ s b s' p e. tt))
                λ closed. Triple-pure none (λ s k. tt))
            λ whole. Triple-anchored _ λ s₁ sent.
              Triple-bind (AllHeard doip link s₁) _ _ (read_doip-Triple doip link s₁ fuel timeout)
                λ response.
                  Triple-pure _
                    λ s k. filtered-Replied client timeout n s₀ s₁ s response sent whole k

module _ (doip : Doipclient) (tcp : TcpConnection) (c : DoipCommunicator) where
  open tcp use {channel, connect}

  -- Between the two states no activation was needed, or one was asked for and reported.
  abbrev pub Activated : channel.State → channel.State → Type 0
  Activated s s' =
      ((c.routing_activation_needed ≡ false) × (s' ≡ s))
      ⊎ Answered doip channel c.client_logical_address 2000 s s'

  -- The channel was opened and connected before.
  abbrev pub Connected : channel.State → channel.State → Type 0
  Connected s s₂ =
      (b : Bool) × (s₁ : channel.State) × (channel.open_channel s ≡ (ok b, s₁))
      × (b' : Bool) × (connect s₁ ≡ (ok b', s₂))

  reply-Activated :
      (o : Option DoipMessage) (s s' : channel.State)
      → Replied doip channel c.client_logical_address 2000 s o s'
      → is_activated o ≡ true
      → Activated s s'
  unfolding is_activated
  reply-Activated none s s' r e = cc
  reply-Activated (some m) s s' (n, s₁, p, q, h, t) e =
      inr (n, s₁, p, q, m, h, t, (==_iff m.response_code success).0 e)

  activate-Activated :
      (s₀ : channel.State)
      → Triple
          (λ s. s ≡ s₀)
          (λ b s'. b ≡ true → Activated s₀ s')
          (activate_routing_if_needed doip tcp c 2000)
  unfolding activate_routing_if_needed
  activate-Activated s₀ =
      Triple-if (not c.routing_activation_needed) _ _
        (λ unneeded. Triple-pure true λ s p _. inl (ground arith, p))
        λ needed.
          Triple-bind (Replied doip channel c.client_logical_address 2000 s₀) _ _
            (request-Replied doip channel c.fuel c.client_logical_address 2000 s₀)
            λ o. Triple-pure _ λ s h e. reply-Activated o s₀ s h e

  -- Where `open` returns True, the connection was opened and connected, and then either no routing
  -- activation is needed and nothing else was done, or the request for one was sent, and after that
  -- the parser read, off bytes that the connection delivered, a routing activation response with the
  -- code for success.
  pub open_doip-Activated :
      (s : channel.State)
      → Leaves
          (λ b s'. b ≡ true → (s₁ : channel.State) × Connected s s₁ × Activated s₁ s')
          (open_doip doip tcp c s)
  unfolding open_doip
  open_doip-Activated s₀ = opened.at s₀ refl
    where
      opened :
          Triple
            (λ s. s ≡ s₀)
            (λ b s'. b ≡ true → (s₁ : channel.State) × Connected s₀ s₁ × Activated s₁ s')
            (open_doip doip tcp c)
      opened =
          Triple-bind (λ b' s. Connected s₀ s) _ _
            (Triple-bind (λ b s. channel.open_channel s₀ ≡ (ok b, s)) _ _
              (Triple-call _ λ s b s' p e. subst (λ t. channel.open_channel t ≡ (ok b, s')) p e)
              λ b. Triple-call _ λ s b' s' p e. (b, s, p, b', e))
            λ b'.
              Triple-anchored _
                λ s₁ k. Triple-weaken _ (λ s e. e) (λ b s h e. (s₁, k, h e)) (activate-Activated s₁)
