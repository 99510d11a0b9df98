-- ===== src/Someip.antt =====
-- `SomeipUtils` of protocol/someip/impl/someip_utils.py, with the records of
-- protocol/someip/models/someip_models.py. The layers of py_pcapplusplus are a parameter.
pub mod Options
pub mod Client
pub mod Entries
pub mod Offers
use cyclarity_in_vehicle_sdk.Prelude.{
  ℕ, zero, suc, ◌+◌, Bool, true, false, not, ◌&&◌, ◌||◌, Option, none, some, List, [], ◌∷◌, ◌++◌,
  ◌==◌, ltb, leb, if◌then◌else◌, length, get_elem?,
}
use cyclarity_in_vehicle_sdk.Python.{
  Exec, Result, ok, raised, stuck, pure, raise, lift, ◌>>=◌, ◌>>◌, index_error,
}

pub data Layer4ProtocolType : Type 0 where
  udp tcp : Layer4ProtocolType

pub data SdOptionType : Type 0 where
  ipv4_endpoint ipv6_endpoint other_option : SdOptionType

-- What is read of a `SomeIpSdOption`.
pub record SdOption : Type 0 where
  pub option_type : SdOptionType
  pub addr : List ℕ
  pub port : ℕ
  pub is_sd_tcp : Bool

-- What is read of a `SomeIpSdEntry`.
pub record SdEntry : Type 0 where
  pub is_offer_service : Bool
  pub service_id : ℕ
  pub instance_id : ℕ
  pub major_version : ℕ
  pub minor_version : ℕ
  pub ttl : ℕ
  pub event_group_id : ℕ
  pub index_1 : ℕ
  pub n_opt_1 : ℕ
  pub index_2 : ℕ
  pub n_opt_2 : ℕ

pub record SdLayer : Type 0 where
  pub is_error : Bool
  pub return_code : ℕ
  pub entries : List SdEntry
  pub options : List SdOption

-- `SOMEIP_ENDPOINT_OPTION`
pub record EndpointOption : Type 0 where
  pub endpoint_addr : List ℕ
  pub port : ℕ
  pub port_type : Layer4ProtocolType

-- `SOMEIP_SERVICE_INFO`
pub record ServiceInfo : Type 0 where
  pub service_id : ℕ
  pub instance_id : ℕ
  pub major_ver : ℕ
  pub minor_ver : ℕ
  pub ttl : ℕ
  pub endpoints : List EndpointOption

-- `SOMEIP_EVTGROUP_INFO`
pub record EvtgroupInfo : Type 0 where
  pub eventgroup_id : ℕ
  pub initial_data : Option (List ℕ)

-- `SOMEIP_METHOD_INFO`
pub record MethodInfo : Type 0 where
  pub method_id : ℕ
  pub return_code : ℕ
  pub payload : List ℕ

-- `SomeIpReturnCode`
abbrev pub e_unknown_service : ℕ
e_unknown_service = 0x02

abbrev pub e_unknown_method : ℕ
e_unknown_method = 0x03

-- `list(range(start, start + n))`
abbrev pub indices_from : ℕ → ℕ → List ℕ
indices_from start zero = []
indices_from start (suc n) = start ∷ indices_from (suc start) n

unfoldable pub insert_index : ℕ → List ℕ → List ℕ
insert_index i [] = i ∷ []
insert_index i (j ∷ js) = let later = insert_index i js in if leb i j then i ∷ j ∷ js else j ∷ later

unfoldable pub sort_indices : List ℕ → List ℕ
unfolding insert_index
sort_indices [] = []
sort_indices (i ∷ is) = insert_index i (sort_indices is)

-- `combined_sorted_options_idx`
unfoldable pub option_indices : SdEntry → List ℕ
unfolding sort_indices
option_indices e =
    sort_indices (indices_from e.index_1 e.n_opt_1 ++ indices_from e.index_2 e.n_opt_2)

abbrev pub is_endpoint : SdOptionType → Bool
is_endpoint other_option = false
is_endpoint t = true

abbrev pub endpoint_of : SdOption → EndpointOption
endpoint_of o = record {
  endpoint_addr = o.addr;
  port = o.port;
  port_type = if o.is_sd_tcp then tcp else udp;
}

abbrev pub prepend_endpoint : SdOption → Result (List EndpointOption) → Result (List EndpointOption)
prepend_endpoint o (ok es) = ok (if is_endpoint o.option_type then endpoint_of o ∷ es else es)
prepend_endpoint o (raised e) = raised e
prepend_endpoint o stuck = stuck

-- One round of the loop over the indices, for an index that is not above the number of options.
abbrev pub take_option :
    Option SdOption → Result (List EndpointOption) → Result (List EndpointOption)
take_option none rest = raised index_error
take_option (some o) rest = prepend_endpoint o rest

-- The endpoints that the loop appends.
unfoldable pub parse_options : List SdOption → List ℕ → Result (List EndpointOption)
parse_options sd_options [] = ok []
parse_options sd_options (opt_idx ∷ idxs) =
    let rest = parse_options sd_options idxs in
    if ltb (length sd_options) opt_idx
    then ok []
    else take_option (get_elem? sd_options opt_idx) rest

unfoldable pub parse_options_for_offer_service :
    SdEntry → List SdOption → Result (List EndpointOption)
unfolding parse_options option_indices
parse_options_for_offer_service sd_entry sd_options =
    parse_options sd_options (option_indices sd_entry)

abbrev pub service_info : SdEntry → List EndpointOption → ServiceInfo
service_info e endpoints = record {
  service_id = e.service_id;
  instance_id = e.instance_id;
  major_ver = e.major_version;
  minor_ver = e.minor_version;
  ttl = e.ttl;
  endpoints = endpoints;
}

abbrev pub prepend_service :
    SdEntry → Result (List EndpointOption) → Result (List ServiceInfo) → Result (List ServiceInfo)
prepend_service e (ok endpoints) (ok infos) = ok (service_info e endpoints ∷ infos)
prepend_service e (ok endpoints) (raised x) = raised x
prepend_service e (ok endpoints) stuck = stuck
prepend_service e (raised x) rest = raised x
prepend_service e stuck rest = stuck

-- The loop over the entries.
unfoldable pub parse_entries : List SdOption → List SdEntry → Result (List ServiceInfo)
unfolding parse_options_for_offer_service
parse_entries options [] = ok []
parse_entries options (entry ∷ entries) =
    let rest = parse_entries options entries in
    if not entry.is_offer_service
    then rest
    else prepend_service entry (parse_options_for_offer_service entry options) rest

abbrev pub is_nonempty {ℓ} : {A : Type ℓ} → List A → Bool
is_nonempty [] = false
is_nonempty (x ∷ xs) = true

-- An answer that is no error, and not for an unknown service.
abbrev pub is_accepted : SdLayer → Bool
is_accepted layer = not layer.is_error && not (layer.return_code == e_unknown_service)

unfoldable pub parse_layer : Option SdLayer → Result (List ServiceInfo)
unfolding parse_entries
parse_layer none = ok []
parse_layer (some layer) =
    if is_accepted layer && (is_nonempty layer.entries && is_nonempty layer.options)
    then parse_entries layer.options layer.entries
    else ok []
