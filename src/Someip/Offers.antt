-- ===== src/Someip/Offers.antt =====
-- Where the services that `find_service` reports come from.
use cyclarity_in_vehicle_sdk.Prelude.{
  ℕ, zero, suc, ◌≡◌, ◌≢◌, refl, subst, ap, ◌⊎◌, inl, inr, Bool, true, false, not, ◌&&◌, Option,
  none, some, List, [], ◌∷◌, All, if◌then◌else◌, length, arith, ◌==◌,
}
use cyclarity_in_vehicle_sdk.Python.{Result, ok, raised, stuck}
use cyclarity_in_vehicle_sdk.Python.Ensures.{Post, Anything}
use cyclarity_in_vehicle_sdk.Python.Triples.{
  Leaves, Triple, Triple-pure, Triple-if, Triple-bind, Triple-lifted, Triple-call, Triple-anchored,
  Triple-weaken,
}
use cyclarity_in_vehicle_sdk.Someip.{SdLayer, ServiceInfo, parse_entries, parse_layer}
use cyclarity_in_vehicle_sdk.Someip.Client.{
  Socket, Pcapplusplus, parse_find_service_response, collect_services, find_service,
}
use cyclarity_in_vehicle_sdk.Someip.Entries.{Offers, All-map, All-append, parse_entries-Offers}

module _ (World : Type 0) (pcpp : Pcapplusplus) where
  -- What was received is a message that reports no error and not that the service is unknown, and
  -- it offers the service.
  abbrev pub OfferedBy : Option (List ℕ) → ServiceInfo → Type 0
  OfferedBy o info =
      (bytes : List ℕ) × (layer : SdLayer) × (o ≡ some bytes)
      × (pcpp.sd_layer bytes ≡ some layer)
      × (layer.is_error ≡ false)
      × (layer.return_code ≢ 2)
      × Offers layer.options layer.entries info

  entries-OfferedBy :
      (bytes : List ℕ) (layer : SdLayer) (r : Result (List ServiceInfo)) (b : Bool)
      → pcpp.sd_layer bytes ≡ some layer
      → (b ≡ true → (layer.is_error ≡ false) × (layer.return_code ≢ 2))
      → Post (All (Offers layer.options layer.entries)) Anything r
      → Post (All (OfferedBy (some bytes))) Anything (if b then r else ok [])
  entries-OfferedBy bytes layer (ok infos) true e a h =
      All-map _ _ infos (λ info offers. (bytes, layer, refl, e, (a refl).0, (a refl).1, offers)) h
  entries-OfferedBy bytes layer (raised x) true e a h = tt
  entries-OfferedBy bytes layer stuck true e a h = tt
  entries-OfferedBy bytes layer r false e a h = tt

  layer-OfferedBy :
      (bytes : List ℕ) (o : Option SdLayer)
      → pcpp.sd_layer bytes ≡ o
      → Post (All (OfferedBy (some bytes))) Anything (parse_layer o)
  unfolding parse_layer
  layer-OfferedBy bytes none e = tt
  layer-OfferedBy bytes (some layer) e =
      entries-OfferedBy bytes layer (parse_entries layer.options layer.entries) _ e
        (accepted layer.is_error layer.return_code _)
        (parse_entries-Offers layer.options layer.entries)
    where
      accepted :
          (is_error : Bool) (code : ℕ) (b : Bool)
          → ((not is_error && not (code == 2)) && b) ≡ true
          → (is_error ≡ false) × (code ≢ 2)
      accepted is_error code b h = (ground arith, λ e. ground arith)

  response-OfferedBy :
      (o : Option (List ℕ))
      → Post (All (OfferedBy o)) Anything (parse_find_service_response World pcpp o)
  unfolding parse_find_service_response
  response-OfferedBy none = tt
  response-OfferedBy (some bytes) = layer-OfferedBy bytes (pcpp.sd_layer bytes) refl

  -- So many receptions in a row, with what each of them returned.
  pub data Answers (socket : Socket World) (timeout : ℕ)
      : World → List (Option (List ℕ)) → World → Type 0 where
    last : {s : World} → Answers socket timeout s [] s
    answer :
        {o : Option (List ℕ)} {os : List (Option (List ℕ))} {s s₁ s' : World}
        → socket.receive_bytes timeout s ≡ (ok o, s₁)
        → Answers socket timeout s₁ os s'
        → Answers socket timeout s (o ∷ os) s'

  -- One of the receptions offers the service.
  abbrev pub IsOffered : List (Option (List ℕ)) → ServiceInfo → Type 0
  IsOffered [] info = ⊥
  IsOffered (o ∷ os) info = OfferedBy o info ⊎ IsOffered os info

  abbrev pub Collected : Socket World → ℕ → ℕ → World → List ServiceInfo → World → Type 0
  Collected socket n timeout s infos s' =
      (os : List (Option (List ℕ))) × Answers socket timeout s os s'
      × (length os ≡ n)
      × All (IsOffered os) infos

  collect_services-Collected :
      (n : ℕ) (socket : Socket World) (t : ℕ) (s₀ : World)
      → Triple (λ s. s ≡ s₀) (Collected socket n t s₀) (collect_services World pcpp n socket t)
  unfolding collect_services
  collect_services-Collected zero socket t s₀ =
      Triple-pure [] λ s e. ([], subst (λ s'. Answers socket t s' [] s) e last, refl, tt)
  collect_services-Collected (suc n) socket t s₀ =
      Triple-bind (λ o s. socket.receive_bytes t s₀ ≡ (ok o, s)) _ _
        (Triple-call _ λ s o s' p e. subst (λ s. socket.receive_bytes t s ≡ (ok o, s')) p e)
        λ o. Triple-lifted _ _ λ infos parsed. Triple-anchored _ λ s₁ heard.
          Triple-bind (Collected socket n t s₁) _ _ (collect_services-Collected n socket t s₁)
            λ more. Triple-pure _ λ s (os, answers, counted, offered). (
              o ∷ os,
              answer heard answers,
              ap suc counted,
              All-append _ infos more
                  (All-map _ _ infos (λ info h. inl h)
                    (subst (Post (All (OfferedBy o)) Anything) parsed (response-OfferedBy o)))
                  (All-map _ _ more (λ info h. inr h) offered),
            )

  -- The query was sent, over UDP.
  abbrev pub Queried : Socket World → ℕ → World → World → Type 0
  Queried socket service_id s s₁ =
      ((socket.is_udp ≡ true)
        × (socket.transmit (pcpp.find_service_query service_id) s ≡ (ok tt, s₁)))
      ⊎ ((socket.is_udp ≡ false) × (s₁ ≡ s))

  -- Where `find_service` returns, it made `recv_retry` receptions, after the query over UDP and over
  -- TCP without one; and every service that it reports stands in an entry that offers it, of a
  -- message that one of these receptions returned, and that reports neither an error nor an unknown
  -- service, with the identifiers of this entry and with endpoints of options to which it refers.
  pub find_service-IsOffered :
      (socket : Socket World) (service_id recv_retry recv_timeout : ℕ) (s : World)
      → Leaves
          (λ infos s'.
            (s₁ : World) × Queried socket service_id s s₁
            × Collected socket recv_retry recv_timeout s₁ infos s')
          (find_service World pcpp socket service_id recv_retry recv_timeout s)
  unfolding find_service
  find_service-IsOffered socket service_id recv_retry recv_timeout s₀ = found.at s₀ refl
    where
      found :
          Triple
            (λ s. s ≡ s₀)
            (λ infos s'.
              (s₁ : World) × Queried socket service_id s₀ s₁
              × Collected socket recv_retry recv_timeout s₁ infos s')
            (find_service World pcpp socket service_id recv_retry recv_timeout)
      found =
          Triple-bind (λ done. Queried socket service_id s₀) _ _
            (Triple-if socket.is_udp _ _
              (λ udp. Triple-call _ λ s done s' p e. inl (
                udp,
                subst (λ s. socket.transmit (pcpp.find_service_query service_id) s ≡ (ok tt, s')) p
                    e,
              ))
              (λ tcp. Triple-pure tt λ s p. inr (tcp, p)))
            λ done. Triple-anchored _ λ s₁ queried.
              Triple-weaken _ (λ s e. e) (λ infos s h. (s₁, queried, h))
                (collect_services-Collected recv_retry socket recv_timeout s₁)
