-- ===== src/Examples/Shell.antt =====
-- A device behind a serial port that answers every other read, and runs of the serial shell.
use cyclarity_in_vehicle_sdk.Prelude.{
  ℕ, ◌≤◌, ◌<◌, ◌≡◌, refl, Bool, true, false, none, List, [], ◌∷◌, length, arith,
}
use cyclarity_in_vehicle_sdk.Python.{Result, ok}
use cyclarity_in_vehicle_sdk.Python.Text.{codes, search_in, char, dots, space, at_end}
use cyclarity_in_vehicle_sdk.SerialShell.{
  Serial, SerialDeviceShell, is_command_prompt, without_last, prompt_pattern,
}
use cyclarity_in_vehicle_sdk.SerialShell.Login.{login}
use cyclarity_in_vehicle_sdk.SerialShell.Command.{exec_command}
use cyclarity_in_vehicle_sdk.SerialShell.Logged.{After, Told, login-Told}
use cyclarity_in_vehicle_sdk.SerialShell.Talking.{IsTalking, login-Ends}
use cyclarity_in_vehicle_sdk.SerialShell.Unfiltered.{exec_command-unfiltered}

prompts :
    (is_command_prompt (codes "root@board:/> ") ≡ true)
    × (is_command_prompt (codes "[me@board /]$") ≡ true)
    × (is_command_prompt (codes "board login: ") ≡ false)
    × (is_command_prompt (codes "done\n") ≡ false)
unfolding is_command_prompt search_in prompt_pattern char dots space at_end
prompts = (refl, refl, refl, refl)

-- Whether the device is silent at the next read.
abbrev answer : Bool → Result (List ℕ) × Bool
answer true = (ok [], false)
answer false = (ok (codes "ready\n"), true)

abbrev device : Serial
device = record {
  Outside = Bool;
  create = λ o. (ok tt, o);
  write = λ text o. (ok tt, o);
  read = λ size o. answer o;
  decode = λ bytes. ok bytes;
}

abbrev silence : Bool → ℕ
silence true = 1
silence false = 0

silence-le : (o : Bool) → silence o ≤ 1
silence-le true = omega arith
silence-le false = omega arith

device-answers :
    (size : ℕ) (o : Bool)
    → (bytes : List ℕ) × (text : List ℕ) × (o' : Bool) × (answer o ≡ (ok bytes, o'))
      × (◌≡◌ {A = Result (List ℕ)} (ok bytes) (ok text))
      × (length (without_last text) ≡ 0 → silence o' < silence o)
unfolding without_last
device-answers size true = ([], [], false, refl, refl, λ e. omega arith)
device-answers size false =
    (codes "ready\n", codes "ready\n", true, refl, refl, λ e. absurd (omega (arith, e)))

device-IsTalking : IsTalking device 1
device-IsTalking = record {
  quiet = silence;
  quiet_le = silence-le;
  writes = λ text o. (o, refl, omega arith);
  reads = device-answers;
}

abbrev shell : Bool → SerialDeviceShell device
shell b = record { logged_in = b; last_read = []; outside = false }

login-Ends_example :
    (b : Bool) × (s' : SerialDeviceShell device) × (login device 12
        (codes "root")
        (codes "toor")
        (shell false)
      ≡ (ok b, s'))
login-Ends_example =
    login-Ends device 1 device-IsTalking 12 (codes "root") (codes "toor") (shell false)
      (omega arith)

login-Told_example :
    After device (Told device) (login device 12 (codes "root") (codes "toor") (shell false))
login-Told_example = login-Told device 12 (codes "root") (codes "toor") (shell false) refl

exec_command-unfiltered_example : exec_command device 3 (codes "ls") none (shell true) ≡ (
  ok (codes "ready" ∷ []),
  record { logged_in = true; last_read = codes "ready"; outside = true },
)
unfolding without_last
exec_command-unfiltered_example =
    exec_command-unfiltered device 2 (codes "ls") [] (codes "ready\n") (codes "ready\n") false false
      true refl refl refl
