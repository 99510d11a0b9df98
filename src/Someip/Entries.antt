-- ===== src/Someip/Entries.antt =====
-- What the parsing of the entries of a service discovery message gives.
use cyclarity_in_vehicle_sdk.Prelude.{
  ℕ, zero, suc, ◌+◌, ◌≤◌, ◌<◌, ◌≡◌, ◌≢◌, refl, subst, ◌⊎◌, inl, inr, Bool, true, false, not, Option,
  none, some, List, [], ◌∷◌, ◌++◌, All, if◌then◌else◌, ltb, leb, Bool-cases, length, get_elem?,
  arith,
}
use cyclarity_in_vehicle_sdk.Python.{Result, ok, raised, stuck}
use cyclarity_in_vehicle_sdk.Python.Ensures.{Post, Anything}
use cyclarity_in_vehicle_sdk.Someip.{
  SdEntry, SdOption, SdOptionType, other_option, EndpointOption, ServiceInfo, udp, tcp,
  indices_from, insert_index, sort_indices, option_indices, is_endpoint, prepend_endpoint,
  take_option, parse_options, prepend_service, parse_options_for_offer_service, parse_entries,
}

-- The entry refers to the option with this index, in one of its two runs of options.
abbrev pub Refers : SdEntry → ℕ → Type 0
Refers e i =
    ((e.index_1 ≤ i) × (i < e.index_1 + e.n_opt_1))
    ⊎ ((e.index_2 ≤ i) × (i < e.index_2 + e.n_opt_2))

-- The endpoint is that of an endpoint option that the entry refers to.
abbrev pub IsEndpointOf : List SdOption → SdEntry → EndpointOption → Type 0
IsEndpointOf options e endpoint =
    (i : ℕ) × (o : SdOption) × Refers e i
    × (get_elem? options i ≡ some o)
    × (o.option_type ≢ other_option)
    × (endpoint.endpoint_addr ≡ o.addr)
    × (endpoint.port ≡ o.port)
    × (endpoint.port_type ≡ (if o.is_sd_tcp then tcp else udp))

-- The entry offers the service, with its endpoints.
abbrev pub IsOfferOf : List SdOption → ServiceInfo → SdEntry → Type 0
IsOfferOf options info e =
    (e.is_offer_service ≡ true)
    × (info.service_id ≡ e.service_id)
    × (info.instance_id ≡ e.instance_id)
    × (info.major_ver ≡ e.major_version)
    × (info.minor_ver ≡ e.minor_version)
    × (info.ttl ≡ e.ttl)
    × All (IsEndpointOf options e) info.endpoints

module _ {A : Type 0} where
  pub All-map : (P Q : A → Type 0) (xs : List A) → ((x : A) → P x → Q x) → All P xs → All Q xs
  All-map P Q [] f h = tt
  All-map P Q (x ∷ xs) f h = (f x h.0, All-map P Q xs f h.1)

  pub All-append : (P : A → Type 0) (xs ys : List A) → All P xs → All P ys → All P (xs ++ ys)
  All-append P [] ys h k = k
  All-append P (x ∷ xs) ys h k = (h.0, All-append P xs ys h.1 k)

All-indices : (start n : ℕ) → All (λ i. (start ≤ i) × (i < start + n)) (indices_from start n)
All-indices start zero = tt
All-indices start (suc n) = (
  omega arith,
  All-map (λ i. (suc start ≤ i) × (i < suc start + n)) _ (indices_from (suc start) n)
      (λ i h. (omega (arith, h.0), omega (arith, h.1))) (All-indices (suc start) n),
)

All-insert : (P : ℕ → Type 0) (i : ℕ) (js : List ℕ) → P i → All P js → All P (insert_index i js)
unfolding insert_index
All-insert P i [] h k = (h, tt)
All-insert P i (j ∷ js) h k = elim (Bool-cases (leb i j)) [
  | inl before ↦ rw before (h, k)
  | inr behind ↦ rw behind (k.0, All-insert P i js h k.1)
]

All-sort : (P : ℕ → Type 0) (is : List ℕ) → All P is → All P (sort_indices is)
unfolding sort_indices
All-sort P [] h = tt
All-sort P (i ∷ is) h = All-insert P i (sort_indices is) h.0 (All-sort P is h.1)

option_indices-Refers : (e : SdEntry) → All (Refers e) (option_indices e)
unfolding option_indices
option_indices-Refers e = All-sort (Refers e) _ (
    All-append (Refers e) (indices_from e.index_1 e.n_opt_1) (indices_from e.index_2 e.n_opt_2)
      (All-map _ (Refers e) _ (λ i h. inl h) (All-indices e.index_1 e.n_opt_1))
      (All-map _ (Refers e) _ (λ i h. inr h) (All-indices e.index_2 e.n_opt_2)))

is_endpoint-other : (t : SdOptionType) → is_endpoint t ≡ true → t ≢ other_option
is_endpoint-other t h e = clash (subst (λ t. is_endpoint t ≡ true) e h)
  where
    clash : false ≡ true → ⊥
    clash e = cc

module _ (options : List SdOption) (e : SdEntry) where
  prepended-Endpoint :
      (i : ℕ) (o : SdOption) (rest : Result (List EndpointOption))
      → Refers e i
      → get_elem? options i ≡ some o
      → Post (All (IsEndpointOf options e)) Anything rest
      → Post (All (IsEndpointOf options e)) Anything (prepend_endpoint o rest)
  prepended-Endpoint i o (ok endpoints) r g h = elim (Bool-cases (is_endpoint o.option_type)) [
    | inl kept ↦ rw kept ((i, o, r, g, is_endpoint-other o.option_type kept, refl, refl, refl), h)
    | inr other ↦ rw other h
  ]
  prepended-Endpoint i o (raised x) r g h = tt
  prepended-Endpoint i o stuck r g h = tt

  taken-Endpoint :
      (i : ℕ) (o : Option SdOption) (rest : Result (List EndpointOption))
      → Refers e i
      → get_elem? options i ≡ o
      → Post (All (IsEndpointOf options e)) Anything rest
      → Post (All (IsEndpointOf options e)) Anything (take_option o rest)
  taken-Endpoint i none rest r g h = tt
  taken-Endpoint i (some o) rest r g h = prepended-Endpoint i o rest r g h

  parse_options-Endpoints :
      (is : List ℕ)
      → All (Refers e) is
      → Post (All (IsEndpointOf options e)) Anything (parse_options options is)
  unfolding parse_options
  parse_options-Endpoints [] h = tt
  parse_options-Endpoints (i ∷ is) h = elim (Bool-cases (ltb (length options) i)) [
    | inl past ↦ rw past tt
    | inr there ↦ rw there (
        taken-Endpoint i (get_elem? options i) (parse_options options is) h.0 refl
          (parse_options-Endpoints is h.1))
  ]

  endpoints_of_offer :
      (endpoints : List EndpointOption)
      → parse_options_for_offer_service e options ≡ ok endpoints
      → All (IsEndpointOf options e) endpoints
  unfolding parse_options_for_offer_service
  endpoints_of_offer endpoints h =
      subst (Post (All (IsEndpointOf options e)) Anything) h
        (parse_options-Endpoints (option_indices e) (option_indices-Refers e))

abbrev pub Offers : List SdOption → List SdEntry → ServiceInfo → Type 0
Offers options [] info = ⊥
Offers options (e ∷ es) info = IsOfferOf options info e ⊎ Offers options es info

All-Offers :
    (options : List SdOption) (e : SdEntry) (es : List SdEntry) (infos : List ServiceInfo)
    → All (Offers options es) infos
    → All (Offers options (e ∷ es)) infos
All-Offers options e es [] h = tt
All-Offers options e es (i ∷ is) h = (inr h.0, All-Offers options e es is h.1)

prepended-Offers :
    (options : List SdOption) (e : SdEntry) (es : List SdEntry) (r : Result (List EndpointOption))
    (rest : Result (List ServiceInfo))
    → e.is_offer_service ≡ true
    → parse_options_for_offer_service e options ≡ r
    → Post (All (Offers options es)) Anything rest
    → Post (All (Offers options (e ∷ es))) Anything (prepend_service e r rest)
prepended-Offers options e es (ok endpoints) (ok infos) offer h hs = (
  inl (offer, refl, refl, refl, refl, refl, endpoints_of_offer options e endpoints h),
  All-Offers options e es infos hs,
)
prepended-Offers options e es (ok endpoints) (raised x) offer h hs = tt
prepended-Offers options e es (ok endpoints) stuck offer h hs = tt
prepended-Offers options e es (raised x) rest offer h hs = tt
prepended-Offers options e es stuck rest offer h hs = tt

skipped-Offers :
    (options : List SdOption) (e : SdEntry) (es : List SdEntry) (rest : Result (List ServiceInfo))
    → Post (All (Offers options es)) Anything rest
    → Post (All (Offers options (e ∷ es))) Anything rest
skipped-Offers options e es (ok infos) h = All-Offers options e es infos h
skipped-Offers options e es (raised x) h = tt
skipped-Offers options e es stuck h = tt

-- The services that are read of the entries are offered by them.
pub parse_entries-Offers :
    (options : List SdOption) (es : List SdEntry)
    → Post (All (Offers options es)) Anything (parse_entries options es)
unfolding parse_entries
parse_entries-Offers options [] = tt
parse_entries-Offers options (e ∷ es) =
    by_offer e.is_offer_service refl (parse_entries-Offers options es)
  where
    by_offer :
        (b : Bool)
        → e.is_offer_service ≡ b
        → Post (All (Offers options es)) Anything (parse_entries options es)
        → Post (All (Offers options (e ∷ es))) Anything (
            if not b
            then parse_entries options es
            else prepend_service e
                (parse_options_for_offer_service e options)
                (parse_entries options es))
    by_offer true offer rest =
        prepended-Offers options e es (parse_options_for_offer_service e options)
          (parse_entries options es) offer refl rest
    by_offer false other rest = skipped-Offers options e es (parse_entries options es) rest
