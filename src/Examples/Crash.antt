-- ===== src/Examples/Crash.antt =====
-- The crash detectors at concrete sessions.
use cyclarity_in_vehicle_sdk.Prelude.{◌≡◌, refl, ◌⊎◌, ◌↔◌, true, false, [], ◌∷◌, arith}
use cyclarity_in_vehicle_sdk.Python.{ok, raised, no_response, value_error}
use cyclarity_in_vehicle_sdk.Python.Bytes.{hex}
use cyclarity_in_vehicle_sdk.Uds.Client.Script.{Script}
use cyclarity_in_vehicle_sdk.Uds.Services.{tester_present}
use cyclarity_in_vehicle_sdk.Plugin.Crash.{session_changed, check_tester_present}
use cyclarity_in_vehicle_sdk.Plugin.Crash.Verdicts.{
  Reported, session_changed_from_ten, check_tester_present_iff,
}
use cyclarity_in_vehicle_sdk.Examples.Ecu.{utils, script}

-- The session 0x10 is read as 10, and 0x0a not at all.
session_changed_from_ten_example : ¬ Reported 0x10 (ok false) 0x10
session_changed_from_ten_example = session_changed_from_ten 0x10 (omega arith) (omega arith)

false_alarm : Reported 0x10 (ok true) 0x10
unfolding session_changed hex
false_alarm = refl

never_seen : Reported 0x0a (raised value_error) 0x0a
unfolding session_changed hex
never_seen = refl

abbrev gone : Script
gone = record { inbox = []; sent = (0x3e ∷ 0 ∷ []) ∷ (0x3e ∷ 0 ∷ []) ∷ [] }

check_tester_present_iff_example :
    (check_tester_present utils 2000 (script []) ≡ (ok true, gone)) ↔ (
      (tester_present utils 2000 (script []) ≡ (raised no_response, gone))
      ⊎ (tester_present utils 2000 (script []) ≡ (ok false, gone)))
check_tester_present_iff_example = check_tester_present_iff utils 2000 (script []) gone
