-- ===== src/Uds/Services.antt =====
-- The services of `UdsUtils` in protocol/uds/impl/uds_utils.py that are one request and its answer.
pub mod Confirmed
use cyclarity_in_vehicle_sdk.Prelude.{
  ℕ, ◌*◌, Bool, true, false, Option, none, some, List, [], ◌∷◌, ◌==◌, if◌then◌else◌,
}
use cyclarity_in_vehicle_sdk.Python.{
  Exec, Result, ok, raised, stuck, pure, raise, lift, ◌>>=◌, ◌>>◌, invalid_response, value_error,
}
use cyclarity_in_vehicle_sdk.Communicator.{Communicator}
use cyclarity_in_vehicle_sdk.Uds.Model.{Request, Response}
use cyclarity_in_vehicle_sdk.Uds.Client.{send_and_read_response, send_and_read_raw_response}
use cyclarity_in_vehicle_sdk.Uds.Dids.{RdidDataTuple, split_dids}
use cyclarity_in_vehicle_sdk.Uds.Udsoncan.{UdsUtils, Udsoncan, DtcQuery}

-- `sub_function is not None`
abbrev pub is_given : Option ℕ → Bool
is_given none = false
is_given (some n) = true

module _ (u : UdsUtils) where
  open u use {data_link_layer, udsoncan}

  abbrev pub Method : Type 0 → Type 0
  Method A = Exec data_link_layer.State A

  unfoldable pub exchange : Request → ℕ → Method Response
  exchange request timeout =
      send_and_read_response data_link_layer udsoncan.from_payload u.fuel u.attempts request timeout

  pub setup : Method Bool
  setup = data_link_layer.open_channel

  pub teardown : Method Bool
  teardown = data_link_layer.close_channel

  unfoldable pub session : ℕ → ℕ → ℕ → Method ℕ
  session id timeout standard_version = do
    request ← lift (udsoncan.session_request id)
    response ← exchange request timeout
    lift (udsoncan.session_echo standard_version response)

  unfoldable pub ecu_reset : ℕ → ℕ → Method Bool
  ecu_reset reset_type timeout = do
    request ← lift (udsoncan.reset_request reset_type)
    response ← exchange request timeout
    echo ← lift (udsoncan.reset_type_echo response)
    pure (echo == reset_type)

  unfoldable pub read_did : List ℕ → ℕ → Method (List RdidDataTuple)
  read_did didlist timeout = do
    request ← lift (udsoncan.read_dids_request didlist)
    response ← exchange request timeout
    lift (split_dids didlist response.payload)

  unfoldable pub routine_control : ℕ → ℕ → ℕ → Option (List ℕ) → Method (List ℕ)
  routine_control routine_id control_type timeout bytes = do
    request ← lift (udsoncan.routine_request routine_id control_type bytes)
    response ← exchange request timeout
    lift (udsoncan.routine_data response)

  unfoldable pub tester_present : ℕ → Method Bool
  tester_present timeout = do
    request ← lift udsoncan.tester_present_request
    response ← exchange request timeout
    echo ← lift (udsoncan.subfunction_echo response)
    pure (echo == 0)

  unfoldable pub request_download : ℕ → ℕ → ℕ → ℕ → ℕ → ℕ → Method ℕ
  request_download address memorysize enc_comp address_format memorysize_format timeout = do
    request ← lift (
        udsoncan.download_request address memorysize (8 * address_format) (8 * memorysize_format)
          enc_comp)
    response ← exchange request timeout
    lift (udsoncan.max_length response)

  unfoldable pub transfer_data : ℕ → List ℕ → ℕ → Method (Unit {0})
  transfer_data seq bytes timeout = do
    request ← lift (udsoncan.transfer_request seq bytes)
    response ← exchange request timeout
    echo ← lift (udsoncan.sequence_number_echo response)
    if echo == seq then pure tt else raise invalid_response

  unfoldable pub transfer_exit : Option (List ℕ) → ℕ → Method (List ℕ)
  transfer_exit bytes timeout = do
    request ← lift (udsoncan.exit_request bytes)
    response ← exchange request timeout
    lift (udsoncan.parameter_records response)

  unfoldable pub read_dtc_information : DtcQuery → ℕ → Method (List ℕ)
  read_dtc_information query timeout = do
    request ← lift (udsoncan.dtc_request query)
    response ← exchange request timeout
    lift (udsoncan.dtc_data query.subfunction query.standard_version response)

  unfoldable pub clear_diagnostic_information : ℕ → Option ℕ → ℕ → ℕ → Method Bool
  clear_diagnostic_information group memory_selection timeout standard_version = do
    request ← lift (udsoncan.clear_request group memory_selection standard_version)
    response ← exchange request timeout
    lift (udsoncan.clear_response response)
    pure true

  -- The service class is the one with a subfunction exactly where a subfunction is given.
  unfoldable pub raw_uds_service : ℕ → ℕ → Option ℕ → Option (List ℕ) → Method Response
  raw_uds_service sid timeout sub_function bytes = do
    request ← lift (udsoncan.raw_request sid (is_given sub_function) sub_function bytes)
    send_and_read_raw_response data_link_layer udsoncan.from_payload u.fuel u.attempts request
        timeout
