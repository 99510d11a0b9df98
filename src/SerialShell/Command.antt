-- ===== src/SerialShell/Command.antt =====
-- `exec_command` of `SerialDeviceShell`.
use cyclarity_in_vehicle_sdk.Prelude.{
  ℕ, zero, suc, not, Option, none, some, List, [], ◌∷◌, ◌++◌, if◌then◌else◌,
}
use cyclarity_in_vehicle_sdk.Python.{pure, diverge, ◌>>=◌, ◌>>◌}
use cyclarity_in_vehicle_sdk.Python.Text.{codes, contains}
use cyclarity_in_vehicle_sdk.SerialShell.{
  Serial, Shell, write_string, read_string, newline, command_done_string,
}

module _ (serial : Serial) where
  open serial use {create}

  -- The texts that `exec_command` hands out. The loop ends at the first text with the filter, or at
  -- the one with the mark of the end.
  unfoldable pub command_loop : ℕ → List ℕ → Shell serial (List (List ℕ))
  unfolding read_string contains
  command_loop zero testcase_filter = diverge
  command_loop (suc fuel) testcase_filter = read_string serial >>= λ size s.
      if contains testcase_filter s.last_read
      then pure (s.last_read ∷ []) s
      else if contains command_done_string s.last_read
      then pure [] s
      else command_loop fuel testcase_filter s

  abbrev pub filter_of : Option (List ℕ) → List ℕ
  filter_of none = []
  filter_of (some testcase_filter) = testcase_filter

  -- `exec_command` without `return_stderr`, which adds an empty text.
  unfoldable pub exec_command : ℕ → List ℕ → Option (List ℕ) → Shell serial (List (List ℕ))
  unfolding write_string command_loop
  exec_command fuel command testcase_filter s =
      if not s.logged_in
      then pure ([] ∷ []) s
      else (write_string serial (command ++ (codes " ; echo " ++ (command_done_string ++ newline)))
            >> command_loop fuel (filter_of testcase_filter))
          s
