-- ===== src/Plugin/Crash.antt =====
-- plugin/crash_detection: `SessionChangeCrashDetector` and `UnrespondedTesterPresentCrashDetector`.
pub mod Verdicts
use cyclarity_in_vehicle_sdk.Prelude.{
  ℕ, Bool, true, false, not, Option, none, some, List, [], ◌∷◌, ◌==◌, if◌then◌else◌,
}
use cyclarity_in_vehicle_sdk.Python.{
  Exn, Exec, Result, ok, raised, pure, raise, try_except, ◌>>=◌, no_response, negative_response,
  value_error,
}
use cyclarity_in_vehicle_sdk.Python.Number.{int}
use cyclarity_in_vehicle_sdk.Uds.Dids.{RdidDataTuple}
use cyclarity_in_vehicle_sdk.Uds.Udsoncan.{UdsUtils}
use cyclarity_in_vehicle_sdk.Uds.Services.{Method, read_did, tester_present}

-- `UdsDid.ActiveDiagnosticSession` of ISO 14229.
abbrev pub active_diagnostic_session : ℕ
active_diagnostic_session = 0xf186

-- The `except` clauses of both detectors: only a missing response means a crash.
unfoldable pub on_exception : Exn → Bool
on_exception no_response = true
on_exception (negative_response code) = false
on_exception e = false

-- What is made of the session that the text names; `int` reads it as a decimal number.
unfoldable pub compare_session : ℕ → Option ℕ → Result Bool
compare_session current_session none = raised value_error
compare_session current_session (some active_session) = ok (not (active_session == current_session))

unfoldable pub session_changed : ℕ → List RdidDataTuple → Result Bool
unfolding int compare_session
session_changed current_session [] = ok false
session_changed current_session (res ∷ rest) = compare_session current_session (int 10 res.hex_data)

module _ (u : UdsUtils) where
  unfoldable pub check_session_change : ℕ → ℕ → Method u Bool
  check_session_change current_session operation_timeout =
      try_except
        (read_did u (active_diagnostic_session ∷ []) operation_timeout >>= λ res.
          λ s. (session_changed current_session res, s))
        (λ e. pure (on_exception e))

  unfoldable pub check_tester_present : ℕ → Method u Bool
  check_tester_present operation_timeout =
      try_except (tester_present u operation_timeout >>= λ res. pure (not res))
        (λ e. pure (on_exception e))
