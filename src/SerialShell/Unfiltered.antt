-- ===== src/SerialShell/Unfiltered.antt =====
-- What `exec_command` of the serial shell hands out without a filter.
use cyclarity_in_vehicle_sdk.Prelude.{ℕ, suc, ◌≡◌, refl, true, none, List, [], ◌∷◌, ◌++◌}
use cyclarity_in_vehicle_sdk.Python.{ok, ◌>>=◌}
use cyclarity_in_vehicle_sdk.Python.Text.{codes, contains}
use cyclarity_in_vehicle_sdk.Python.Bytes.{starts_with}
use cyclarity_in_vehicle_sdk.SerialShell.{
  Serial, on_serial, set_last_read, write_string, read_string, without_last, read_block_size,
  newline, command_done_string,
}
use cyclarity_in_vehicle_sdk.SerialShell.Command.{command_loop, exec_command}

contains-empty : (text : List ℕ) → contains [] text ≡ true
unfolding contains starts_with
contains-empty [] = refl
contains-empty (c ∷ cs) = refl

-- Without a filter, `exec_command` hands out one text, that of its first read, and reads no more: the
-- output that comes later is left on the port, also where the mark of the end has not come.
pub exec_command-unfiltered :
    (serial : Serial) (fuel : ℕ) (command last bytes text : List ℕ) (o o₁ o₂ : serial.Outside)
    → serial.write (command ++ (codes " ; echo " ++ (command_done_string ++ newline))) o
      ≡ (ok tt, o₁)
    → serial.read read_block_size o₁ ≡ (ok bytes, o₂)
    → serial.decode bytes ≡ ok text
    → exec_command serial
        (suc fuel)
        command
        none
        (record { logged_in = true; last_read = last; outside = o })
      ≡ (
        ok (without_last text ∷ []),
        record { logged_in = true; last_read = without_last text; outside = o₂ },
      )
unfolding exec_command command_loop write_string read_string on_serial set_last_read ◌>>=◌
exec_command-unfiltered serial fuel command last bytes text o o₁ o₂ w r d =
    rw (w, r, d, contains-empty (without_last text)) refl
