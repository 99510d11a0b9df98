-- ===== src/Uds/Model.antt =====
-- Requests and responses as protocol/uds reads them of `udsoncan`, and the constants of
-- protocol/uds/base/uds_utils_base.py.
use cyclarity_in_vehicle_sdk.Prelude.{ℕ, Bool, List}

-- `udsoncan.Request`: `get_payload()` and `service.response_id()`.
pub record Request : Type 0 where
  pub payload : List ℕ
  pub response_id : ℕ

-- `udsoncan.Response`, the `RawUdsResponse` of the sources.
pub record Response : Type 0 where
  pub valid : Bool
  pub positive : Bool
  pub response_id : ℕ
  pub code : ℕ
  pub payload : List ℕ

-- DEFAULT_UDS_PENDING_TIMEOUT, in milliseconds.
abbrev pub default_uds_pending_timeout : ℕ
default_uds_pending_timeout = 60000

-- DEFAULT_UDS_OPERATION_TIMEOUT, in milliseconds.
abbrev pub default_uds_operation_timeout : ℕ
default_uds_operation_timeout = 2000

-- `UdsResponseCode.RequestCorrectlyReceived_ResponsePending` of ISO 14229.
abbrev pub response_pending : ℕ
response_pending = 0x78
