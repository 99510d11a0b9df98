-- ===== src/Uds/Udsoncan.antt =====
-- What protocol/uds/impl/uds_utils.py uses of `udsoncan` and of the signature library: functions that
-- make a request or read a response, each of which may raise.
use cyclarity_in_vehicle_sdk.Prelude.{ℕ, Bool, Option, List}
use cyclarity_in_vehicle_sdk.Python.{Result}
use cyclarity_in_vehicle_sdk.Communicator.{Communicator}
use cyclarity_in_vehicle_sdk.Uds.Model.{Request, Response}

-- The arguments of `ReadDTCInformation.make_request`.
pub record DtcQuery : Type 0 where
  pub subfunction : ℕ
  pub status_mask : Option ℕ
  pub severity_mask : Option ℕ
  pub dtc : Option ℕ
  pub snapshot_record_number : Option ℕ
  pub extended_data_record_number : Option ℕ
  pub memory_selection : Option ℕ
  pub standard_version : ℕ

-- What is read of the answer to an authentication request.
pub record AuthenticationData : Type 0 where
  pub return_value : ℕ
  pub challenge_server : List ℕ
  pub ephemeral_public_key_server : List ℕ

-- The requests of the authentication tasks that the sources use.
pub data AuthenticationTask : Type 0 where
  transmit_certificate : ℕ → List ℕ → AuthenticationTask
  de_authenticate authentication_configuration : AuthenticationTask
  verify_certificate_unidirectional : ℕ → List ℕ → AuthenticationTask
  proof_of_ownership : List ℕ → AuthenticationTask

pub record Udsoncan : Type 0 where
  pub from_payload : List ℕ → Response
  pub session_request : ℕ → Result Request
  pub session_echo : ℕ → Response → Result ℕ
  pub reset_request : ℕ → Result Request
  pub reset_type_echo : Response → Result ℕ
  pub read_dids_request : List ℕ → Result Request
  pub routine_request : ℕ → ℕ → Option (List ℕ) → Result Request
  pub routine_data : Response → Result (List ℕ)
  pub tester_present_request : Result Request
  pub subfunction_echo : Response → Result ℕ
  pub write_did_request : ℕ → Result (List ℕ) → Result Request
  pub did_echo : Response → Result ℕ
  pub seed_request : Option ℕ → Result Request
  pub seed : Response → Result (List ℕ)
  pub key_request : Option ℕ → List ℕ → Result Request
  pub security_level_echo : Response → Result ℕ
  pub download_request : ℕ → ℕ → ℕ → ℕ → ℕ → Result Request
  pub max_length : Response → Result ℕ
  pub transfer_request : ℕ → List ℕ → Result Request
  pub sequence_number_echo : Response → Result ℕ
  pub exit_request : Option (List ℕ) → Result Request
  pub parameter_records : Response → Result (List ℕ)
  pub dtc_request : DtcQuery → Result Request
  pub dtc_data : ℕ → ℕ → Response → Result (List ℕ)
  pub clear_request : ℕ → Option ℕ → ℕ → Result Request
  pub clear_response : Response → Result (Unit {0})
  pub raw_request : ℕ → Bool → Option ℕ → Option (List ℕ) → Result Request
  pub authentication_request : AuthenticationTask → Result Request
  pub authentication_data : Response → Result AuthenticationData

-- `UdsUtils`: its data link layer and number of attempts, the libraries, and the fuel that each of
-- its reading loops is given.
pub record UdsUtils : Type 1 where
  pub data_link_layer : Communicator
  pub attempts : ℕ
  pub udsoncan : Udsoncan
  pub fuel : ℕ
