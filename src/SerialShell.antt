-- ===== src/SerialShell.antt =====
-- `SerialDeviceShell` of utils/shell_device/impl/serial_device_shell.py, over a serial port of pyserial
-- as a parameter.
pub mod Login
pub mod Command
pub mod Logged
pub mod Talking
pub mod Total
pub mod Unfiltered
use cyclarity_in_vehicle_sdk.Prelude.{
  ℕ, zero, suc, ◌+◌, ◌-◌, Bool, true, false, not, ◌&&◌, ◌||◌, Option, none, some, List, [], ◌∷◌,
  ◌++◌, ltb, ◌==◌, length, if◌then◌else◌,
}
use cyclarity_in_vehicle_sdk.Python.{
  Exec, Result, ok, raised, stuck, pure, raise, lift, diverge, try_except, ◌>>=◌, ◌>>◌,
  generic_error,
}
use cyclarity_in_vehicle_sdk.Python.Text.{codes, contains, char, space, dots, at_end, search_in}

abbrev pub read_block_size : ℕ
read_block_size = 10000

abbrev pub command_done_string : List ℕ
command_done_string = codes "clarity_command_done"

-- `_is_password_prompt`
unfoldable pub is_password_prompt : List ℕ → Bool
unfolding contains
is_password_prompt text = contains (codes "Password:") text

-- `_is_login_prompt`
unfoldable pub is_login_prompt : List ℕ → Bool
unfolding contains
is_login_prompt text = contains (codes "login:") text && not (contains (codes "Last") text)

-- The alternatives of `(\$|>|#|\[.+\@.+\s.+\]\$|>.+|.+@.+:.+\>)$`
unfoldable pub prompt_pattern : List ℕ → Bool
unfolding char space dots at_end
prompt_pattern text =
    char b'$' at_end text
    || (char b'>' at_end text
        || (char b'#' at_end text
            || (char b'[' (dots (char b'@' (dots (space (dots (char b']' (char b'$' at_end)))))))
                  text
                || (char b'>' (dots at_end) text
                    || dots (char b'@' (dots (char b':' (dots (char b'>' at_end))))) text))))

unfoldable pub is_command_prompt : List ℕ → Bool
unfolding search_in prompt_pattern
is_command_prompt text = search_in prompt_pattern text

unfoldable pub is_failure_prompt : List ℕ → Bool
unfolding contains
is_failure_prompt text =
    contains (codes "Login incorrect") text
    || contains (codes "Permission denied, please try again") text

abbrev pub newline : List ℕ
newline = 10 ∷ []

-- `text[:-1]`
unfoldable pub without_last : List ℕ → List ℕ
without_last [] = []
without_last (c ∷ []) = []
without_last (c ∷ d ∷ cs) = c ∷ without_last (d ∷ cs)

-- The calls on the port; `decode` gives the text of bytes in UTF-8, or UnicodeDecodeError. What is
-- written is flushed.
pub record Serial : Type 1 where
  pub Outside : Type 0
  pub create : Exec Outside (Unit {0})
  pub write : List ℕ → Exec Outside (Unit {0})
  pub read : ℕ → Exec Outside (List ℕ)
  pub decode : List ℕ → Result (List ℕ)

module _ (serial : Serial) where
  open serial use {Outside, create, write, read, decode}

  pub record SerialDeviceShell : Type 0 where
    pub logged_in : Bool
    pub last_read : List ℕ
    pub outside : Outside

  abbrev pub Shell : Type 0 → Type 0
  Shell A = Exec SerialDeviceShell A

  unfoldable pub on_serial : {A : Type 0} → Exec Outside A → Shell A
  on_serial m s = let (r, o) = m s.outside in (r, record s { outside = o })

  unfoldable pub set_logged_in : Bool → Shell (Unit {0})
  set_logged_in b s = (ok tt, record s { logged_in = b })

  unfoldable pub set_last_read : List ℕ → Shell (Unit {0})
  set_last_read text s = (ok tt, record s { last_read = text })

  unfoldable pub write_string : List ℕ → Shell (Unit {0})
  unfolding on_serial
  write_string text = on_serial (write text)

  -- What was read is kept but for its last character; an error of the port or of the text is raised.
  unfoldable pub read_string : Shell ℕ
  unfolding on_serial set_last_read
  read_string = do
    ser_bytes ← on_serial (read read_block_size)
    text ← lift (decode ser_bytes)
    set_last_read (without_last text)
    pure (length (without_last text))

  -- A test of `_last_read`
  unfoldable pub last_read_is : (List ℕ → Bool) → Shell Bool
  last_read_is test s = (ok (test s.last_read), s)

  unfoldable pub read_blocked_until_result : ℕ → ℕ → Shell (Unit {0})
  unfolding read_string
  read_blocked_until_result zero ser_bytes = pure tt
  read_blocked_until_result (suc read_cntr) ser_bytes =
      if not (ser_bytes == 0)
      then pure tt
      else (read_string >>= read_blocked_until_result read_cntr)

  -- The answer to the name: where it asks for a password, that is sent, and its answer is read.
  unfoldable pub answer_password : List ℕ → Bool → Shell (Unit {0})
  unfolding write_string read_string
  answer_password password false = pure tt
  answer_password password true = write_string (password ++ newline) >> (read_string >> pure tt)

  unfoldable pub login_with_password : List ℕ → List ℕ → ℕ → Shell Bool
  unfolding write_string read_string last_read_is answer_password is_password_prompt
      is_command_prompt is_failure_prompt
  login_with_password user password zero = pure false
  login_with_password user password (suc tries) = write_string (user ++ newline) >>= λ written.
      read_string >>= λ size. last_read_is is_password_prompt >>= λ asked.
      answer_password password asked >>= λ answered. last_read_is is_command_prompt >>= λ prompt.
      last_read_is is_failure_prompt >>= λ failed.
      if prompt
      then pure true
      else if failed
      then pure false
      else login_with_password user password tries

  unfoldable pub validate_prompt : Shell Bool
  unfolding write_string read_string last_read_is contains
  validate_prompt = do
    write_string (codes "ps -p $$ -o comm=" ++ newline)
    read_string
    last_read_is (contains (codes "bash"))

  unfoldable pub logout : Shell (Unit {0})
  unfolding set_logged_in write_string read_string
  logout = do set_logged_in false; write_string (codes "logout" ++ newline); read_string; pure tt
