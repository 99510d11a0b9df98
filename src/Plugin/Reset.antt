-- ===== src/Plugin/Reset.antt =====
-- plugin/recover_ecu and plugin/reset: `UdsEcuRecoverPlugin`, `UdsBasedEcuResetPlugin` and
-- `RelayResetPlugin`.
use cyclarity_in_vehicle_sdk.Prelude.{ℕ, Bool, false, Option, none, some}
use cyclarity_in_vehicle_sdk.Python.{pure, raise, try_except, ◌>>=◌, ◌>>◌, attribute_error}
use cyclarity_in_vehicle_sdk.Uds.Udsoncan.{UdsUtils}
use cyclarity_in_vehicle_sdk.Uds.Security.{ElevationInfo, SessionInfo, SecurityAlgorithm}
use cyclarity_in_vehicle_sdk.Uds.Services.{Method, ecu_reset}
use cyclarity_in_vehicle_sdk.Uds.Sessions.{security_access, transit_to_session}

module _ (u : UdsUtils) where
  -- `security_access` of an algorithm that may be None, whose attributes it reads first.
  unfoldable pub access_with : Option SecurityAlgorithm → ℕ → Method u Bool
  access_with none timeout = raise attribute_error
  access_with (some algorithm) timeout = security_access u algorithm timeout

  unfoldable pub try_elevation : Option ElevationInfo → ℕ → Method u (Unit {0})
  unfolding access_with
  try_elevation none timeout = pure tt
  try_elevation (some info) timeout =
      try_except (access_with info.security_algorithm timeout >>= λ unlocked. pure tt)
        (λ e. pure tt)

  unfoldable pub recover : SessionInfo → ℕ → ℕ → Method u Bool
  unfolding try_elevation
  recover session_info operation_timeout standard_version = do
    try_elevation session_info.elevation_info operation_timeout
    transit_to_session u session_info.route_to_session operation_timeout standard_version

  unfoldable pub reset_ecu : ℕ → ℕ → Method u Bool
  reset_ecu reset_type operation_timeout =
      try_except (ecu_reset u reset_type operation_timeout) (λ e. pure false)
