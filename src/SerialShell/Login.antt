-- ===== src/SerialShell/Login.antt =====
-- `_login` of `SerialDeviceShell`, and the methods that use it.
use cyclarity_in_vehicle_sdk.Prelude.{
  ℕ, zero, suc, ◌+◌, Bool, true, false, not, ◌&&◌, List, [], ltb, ◌==◌, length, if◌then◌else◌,
}
use cyclarity_in_vehicle_sdk.Python.{pure, raise, diverge, try_except, ◌>>=◌, ◌>>◌, generic_error}
use cyclarity_in_vehicle_sdk.SerialShell.{
  Serial, Shell, on_serial, set_logged_in, set_last_read, write_string, read_string, last_read_is,
  newline, is_command_prompt, is_login_prompt, login_with_password, validate_prompt, logout,
}

module _ (serial : Serial) where
  open serial use {create}

  -- What a round of the loop in `_login` leads to: the end of it, or the counters of the next round.
  pub data Turn : Type 0 where
    returns : Bool → Turn
    again : ℕ → ℕ → Turn

  unfoldable pub enter_shell : Shell serial Turn
  unfolding set_logged_in
  enter_shell = set_logged_in serial true >> pure (returns true)

  -- A text that came with the counters as they are.
  unfoldable pub on_text : List ℕ → List ℕ → ℕ → ℕ → Bool → Bool → Shell serial Turn
  unfolding enter_shell login_with_password last_read_is is_command_prompt
  on_text user password empty_cntr unknown_cntr true login_prompt = enter_shell
  on_text user password empty_cntr unknown_cntr false true =
      login_with_password serial user password 3 >>= λ success.
      last_read_is serial is_command_prompt >>= λ prompt.
      if success && prompt then enter_shell else pure (returns false)
  on_text user password empty_cntr unknown_cntr false false =
      pure (if ltb 5 (unknown_cntr + 1) then returns false else again empty_cntr (unknown_cntr + 1))

  -- After six reads of nothing a line feed is sent.
  unfoldable pub on_silence : ℕ → ℕ → Shell serial Turn
  unfolding write_string
  on_silence empty_cntr unknown_cntr =
      if not (ltb 5 (empty_cntr + 1))
      then pure (again (empty_cntr + 1) unknown_cntr)
      else (write_string serial newline >> pure (again 0 unknown_cntr))

  unfoldable pub login_turn : List ℕ → List ℕ → ℕ → ℕ → Shell serial Turn
  unfolding read_string on_text on_silence last_read_is is_command_prompt is_login_prompt
  login_turn user password empty_cntr unknown_cntr = read_string serial >>= λ line_size.
      last_read_is serial is_command_prompt >>= λ command_prompt.
      last_read_is serial is_login_prompt >>= λ login_prompt.
      if line_size == 0
      then on_silence empty_cntr unknown_cntr
      else on_text user password empty_cntr unknown_cntr command_prompt login_prompt

  -- How the loop goes on after a round; `rest` is the loop.
  unfoldable pub after_turn : (ℕ → ℕ → Shell serial Bool) → Turn → Shell serial Bool
  unfolding ◌>>=◌
  after_turn rest (returns b) = pure b
  after_turn rest (again empty_cntr unknown_cntr) = rest empty_cntr unknown_cntr

  unfoldable pub login_loop : ℕ → List ℕ → List ℕ → ℕ → ℕ → Shell serial Bool
  unfolding login_turn after_turn try_except
  login_loop zero user password empty_cntr unknown_cntr s = diverge s
  login_loop (suc fuel) user password empty_cntr unknown_cntr s =
      if s.logged_in
      then pure false s
      else (try_except (login_turn user password empty_cntr unknown_cntr)
              (λ e. pure (returns false))
            >>= after_turn (login_loop fuel user password))
          s

  -- A prompt that is there already is tested.
  unfoldable pub is_valid_prompt : Bool → Shell serial Bool
  unfolding validate_prompt
  is_valid_prompt false = pure false
  is_valid_prompt true = validate_prompt serial

  unfoldable pub login : ℕ → List ℕ → List ℕ → Shell serial Bool
  unfolding write_string read_string last_read_is is_command_prompt is_valid_prompt set_logged_in
      login_loop
  login fuel user password = write_string serial newline >>= λ written.
      read_string serial >>= λ line_size. last_read_is serial is_command_prompt >>= λ prompt.
      is_valid_prompt prompt >>= λ valid.
      if valid then (set_logged_in serial true >> pure true) else login_loop fuel user password 0 0

  -- `model_post_init`: the port is made, and the shell logged in.
  unfoldable pub init_shell : ℕ → List ℕ → List ℕ → List ℕ → Shell serial (Unit {0})
  unfolding on_serial set_logged_in set_last_read login
  init_shell fuel serial_device_name user password =
      if length serial_device_name == 0 then raise generic_error else do
        on_serial serial create
        set_logged_in serial false
        set_last_read serial []
        connected ← login fuel user password
        if connected then pure tt else raise generic_error

  unfoldable pub teardown_shell : Shell serial (Unit {0})
  unfolding logout
  teardown_shell = logout serial
