-- ===== src/Uds/Sessions/Unlocking.antt =====
-- What lies behind a security access that reports success.
use cyclarity_in_vehicle_sdk.Prelude.{
  ℕ, ◌≡◌, refl, ◌⊎◌, inl, inr, true, Option, none, some, List, ◌==◌, all, arith,
}
use cyclarity_in_vehicle_sdk.Python.{ok}
use cyclarity_in_vehicle_sdk.Python.Triples.{
  Leaves, Triple, Triple-pure, Triple-if, Triple-bind, Triple-lift, Triple-lifted, Triple-anchored,
  Triple-weaken,
}
use cyclarity_in_vehicle_sdk.Uds.Model.{Request, Response}
use cyclarity_in_vehicle_sdk.Uds.Udsoncan.{UdsUtils}
use cyclarity_in_vehicle_sdk.Uds.Security.{SecurityAlgorithm, key_of}
use cyclarity_in_vehicle_sdk.Uds.Services.Confirmed.{Exchanged, Confirms, exchange-Exchanged}
use cyclarity_in_vehicle_sdk.Uds.Sessions.{equals, request_seed, send_key, security_access}

equals-some : (n : ℕ) (o : Option ℕ) → equals n o ≡ true → o ≡ some n
equals-some n none h = cc
equals-some n (some m) h = ground arith

module _ (u : UdsUtils) (algorithm : SecurityAlgorithm) where
  open u.data_link_layer use {State}

  -- Between the two states the ECU answered the request for a seed with this one.
  abbrev pub Seeded : List ℕ → State → State → Type 0
  Seeded seed s s' =
      (request : Request) × (u.udsoncan.seed_request algorithm.seed_subfunction ≡ ok request)
      × (r : Response) × Exchanged u request s r s'
      × (u.udsoncan.seed r ≡ ok seed)

  -- It accepted the algorithm's key for the seed, and echoed the level of the key.
  abbrev pub KeyAccepted : List ℕ → State → State → Type 0
  KeyAccepted seed s s' =
      (key : List ℕ) × (level : ℕ) × (key_of algorithm.kind seed ≡ ok key)
      × (algorithm.key_subfunction ≡ some level)
      × Confirms u (u.udsoncan.key_request algorithm.key_subfunction key)
          u.udsoncan.security_level_echo level s s'

  request_seed-Seeded :
      (timeout : ℕ) (s₀ : State)
      → Triple (λ s. s ≡ s₀) (λ seed. Seeded seed s₀) (request_seed u algorithm timeout)
  unfolding request_seed
  request_seed-Seeded timeout s₀ = Triple-lifted _ _ λ request made.
      Triple-bind (Exchanged u request s₀) _ _ (exchange-Exchanged u request timeout s₀)
        λ r. Triple-lift _ λ seed s read h. (request, made, r, h, read)

  send_key-KeyAccepted :
      (seed : List ℕ) (timeout : ℕ) (s₀ : State)
      → Triple
          (λ s. s ≡ s₀)
          (λ b s'. b ≡ true → KeyAccepted seed s₀ s')
          (send_key u algorithm seed timeout)
  unfolding send_key
  send_key-KeyAccepted seed timeout s₀ = Triple-lifted _ _ λ key computed.
      Triple-lifted _ _ λ request made.
        Triple-bind (Exchanged u request s₀) _ _ (exchange-Exchanged u request timeout s₀) λ r.
          Triple-lifted _ _ λ echo read.
            Triple-pure _ λ s h same.
              (key, echo, computed, equals-some echo _ same, (request, made, r, h, read))

  -- Between the two states the ECU gave a seed, and then the seed was all zero or the key for it
  -- was accepted.
  abbrev pub Unlocked : State → State → Type 0
  Unlocked s s' =
      (seed : List ℕ) × (s₁ : State) × Seeded seed s s₁
      × (((all (λ b. b == 0) seed ≡ true) × (s' ≡ s₁)) ⊎ KeyAccepted seed s₁ s')

  -- Where `security_access` returns True, the request for a seed was sent and answered with a seed,
  -- and then either this seed is all zero and nothing else was done, or a request with the key that
  -- the algorithm computes from that very seed was sent, whole, and after that the link delivered a
  -- valid and positive response to it, which echoes the level of the key.
  pub security_access-Unlocked :
      (timeout : ℕ) (s : State)
      → Leaves (λ b s'. b ≡ true → Unlocked s s') (security_access u algorithm timeout s)
  unfolding security_access
  security_access-Unlocked timeout s₀ = unlocked.at s₀ refl
    where
      unlocked :
          Triple
            (λ s. s ≡ s₀)
            (λ b s'. b ≡ true → Unlocked s₀ s')
            (security_access u algorithm timeout)
      unlocked =
          Triple-bind (λ seed. Seeded seed s₀) _ _ (request_seed-Seeded timeout s₀)
            λ seed.
              Triple-if (all (λ b. b == 0) seed) _ _
                (λ zeros. Triple-pure true (λ s h _. (seed, s, h, inl (zeros, refl))))
                λ nonzero. Triple-anchored _ λ s₁ h.
                  Triple-weaken _ (λ s e. e)
                    (λ b s accepted same. (seed, s₁, h, inr (accepted same)))
                    (send_key-KeyAccepted seed timeout s₁)
