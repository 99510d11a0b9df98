-- ===== src/SerialShell/Logged.antt =====
-- What `_logged_in` says once the login of the serial shell has returned.
use cyclarity_in_vehicle_sdk.Prelude.{
  ℕ, zero, suc, ◌+◌, ◌≡◌, refl, Bool, true, false, not, ◌&&◌, List, ltb, ◌==◌, if◌then◌else◌,
}
use cyclarity_in_vehicle_sdk.Python.{
  Exec, Result, ok, raised, stuck, pure, lift, try_except, handle, continue, ◌>>=◌, ◌>>◌,
}
use cyclarity_in_vehicle_sdk.SerialShell.{
  Serial, SerialDeviceShell, Shell, on_serial, set_logged_in, set_last_read, write_string,
  read_string, last_read_is, answer_password, login_with_password, validate_prompt,
}
use cyclarity_in_vehicle_sdk.SerialShell.Login.{
  Turn, returns, again, enter_shell, on_text, on_silence, login_turn, after_turn, login_loop,
  is_valid_prompt, login,
}

module _ (serial : Serial) where
  -- What holds of the value and of `_logged_in` where a method returned; it is off where it raised.
  abbrev pub After :
      {A : Type 0} → (A → Bool → Type 0) → Result A × SerialDeviceShell serial → Type 0
  After Q (ok a, s) = Q a s.logged_in
  After Q (raised e, s) = s.logged_in ≡ false
  After Q (stuck, s) = Unit

  record Leaves {A : Type 0} (Q : A → Bool → Type 0) (m : Shell serial A) : Type 0 where
    at : (s : SerialDeviceShell serial) → s.logged_in ≡ false → After Q (m s)

  abbrev Off : {A : Type 0} → A → Bool → Type 0
  Off a flag = flag ≡ false

  continue-After :
      {A B : Type 0} (Q : B → Bool → Type 0) (r : Result A) (f : A → Shell serial B)
      (s : SerialDeviceShell serial)
      → After Off (r, s)
      → ((a : A) → Leaves Q (f a))
      → After Q (continue r f s)
  continue-After Q (ok a) f s h k = (k a).at s h
  continue-After Q (raised e) f s h k = h
  continue-After Q stuck f s h k = tt

  Leaves-bind :
      {A B : Type 0} {Q : B → Bool → Type 0} (m : Shell serial A) (f : A → Shell serial B)
      → Leaves Off m
      → ((a : A) → Leaves Q (f a))
      → Leaves Q (m >>= f)
  unfolding ◌>>=◌
  Leaves-bind m f h k = record { at = λ s off. continue-After _ (m s).0 f (m s).1 (h.at s off) k }

  Leaves-if :
      {A : Type 0} {Q : A → Bool → Type 0} (b : Bool) (m n : Shell serial A)
      → Leaves Q m
      → Leaves Q n
      → Leaves Q (if b then m else n)
  Leaves-if true m n h k = h
  Leaves-if false m n h k = k

  Leaves-pure : {A : Type 0} (Q : A → Bool → Type 0) (a : A) → Q a false → Leaves Q (pure a)
  unfolding pure
  Leaves-pure Q a h = record { at = λ s off. rw off h }

  Off-After :
      {A : Type 0} (r : Result A) (s : SerialDeviceShell serial)
      → s.logged_in ≡ false
      → After Off (r, s)
  Off-After (ok a) s off = off
  Off-After (raised e) s off = off
  Off-After stuck s off = tt

  on_serial-Off : {A : Type 0} (m : Exec serial.Outside A) → Leaves Off (on_serial serial m)
  unfolding on_serial
  on_serial-Off m = record {
    at = λ s off. Off-After (m s.outside).0 (record s { outside = (m s.outside).1 }) off;
  }

  lift-Off : {A : Type 0} (r : Result A) → Leaves Off (lift r)
  unfolding lift
  lift-Off r = record { at = λ s off. Off-After r s off }

  set_last_read-Off : (text : List ℕ) → Leaves Off (set_last_read serial text)
  unfolding set_last_read
  set_last_read-Off text = record { at = λ s off. off }

  last_read_is-Off : (test : List ℕ → Bool) → Leaves Off (last_read_is serial test)
  unfolding last_read_is
  last_read_is-Off test = record { at = λ s off. off }

  write_string-Off : (text : List ℕ) → Leaves Off (write_string serial text)
  unfolding write_string
  write_string-Off text = on_serial-Off (serial.write text)

  read_string-Off : Leaves Off (read_string serial)
  unfolding read_string
  read_string-Off = Leaves-bind _ _ (on_serial-Off _) λ bytes.
      Leaves-bind _ _ (lift-Off _)
        λ text. Leaves-bind _ _ (set_last_read-Off _) λ done. Leaves-pure Off _ refl

  write-Off :
      {A : Type 0} (text : List ℕ) (f : Unit {0} → Shell serial A)
      → ((a : Unit {0}) → Leaves Off (f a))
      → Leaves Off (write_string serial text >>= f)
  write-Off text f k = Leaves-bind _ _ (write_string-Off text) k

  answer_password-Off :
      (password : List ℕ) (asked : Bool) → Leaves Off (answer_password serial password asked)
  unfolding answer_password
  answer_password-Off password false = Leaves-pure Off tt refl
  answer_password-Off password true =
      write-Off _ _ λ written. Leaves-bind _ _ read_string-Off λ size. Leaves-pure Off tt refl

  login_with_password-Off :
      (user password : List ℕ) (tries : ℕ)
      → Leaves Off (login_with_password serial user password tries)
  unfolding login_with_password
  login_with_password-Off user password zero = Leaves-pure Off false refl
  login_with_password-Off user password (suc tries) = write-Off _ _ λ written.
      Leaves-bind _ _ read_string-Off λ size. Leaves-bind _ _ (last_read_is-Off _) λ asked.
        Leaves-bind _ _ (answer_password-Off password asked) λ answered.
          Leaves-bind _ _ (last_read_is-Off _) λ prompt.
            Leaves-bind _ _ (last_read_is-Off _) λ failed.
              Leaves-if prompt _ _ (Leaves-pure Off true refl) (
                Leaves-if failed _ _ (Leaves-pure Off false refl)
                  (login_with_password-Off user password tries))

  is_valid_prompt-Off : (prompt : Bool) → Leaves Off (is_valid_prompt serial prompt)
  unfolding is_valid_prompt validate_prompt
  is_valid_prompt-Off false = Leaves-pure Off false refl
  is_valid_prompt-Off true =
      write-Off _ _ λ written. Leaves-bind _ _ read_string-Off λ size. last_read_is-Off _

  -- The flag is what is returned.
  abbrev pub Told : Bool → Bool → Type 0
  Told b flag = flag ≡ b

  abbrev ToldTurn : Turn serial → Bool → Type 0
  ToldTurn (returns b) flag = flag ≡ b
  ToldTurn (again e u) flag = flag ≡ false

  enter_shell-Told : Leaves ToldTurn (enter_shell serial)
  unfolding enter_shell set_logged_in ◌>>=◌
  enter_shell-Told = record { at = λ s off. refl }

  on_text-Told :
      (user password : List ℕ) (e u : ℕ) (prompt login_prompt : Bool)
      → Leaves ToldTurn (on_text serial user password e u prompt login_prompt)
  unfolding on_text
  on_text-Told user password e u true login_prompt = enter_shell-Told
  on_text-Told user password e u false true =
      Leaves-bind _ _ (login_with_password-Off user password 3) λ success.
        Leaves-bind _ _ (last_read_is-Off _) λ prompt.
          Leaves-if (success && prompt) _ _ enter_shell-Told
            (Leaves-pure ToldTurn (returns false) refl)
  on_text-Told user password e u false false = unknown (ltb 5 (u + 1))
    where
      unknown : (b : Bool) → Leaves ToldTurn (pure (if b then returns false else again e (u + 1)))
      unknown true = Leaves-pure ToldTurn (returns false) refl
      unknown false = Leaves-pure ToldTurn (again e (u + 1)) refl

  on_silence-Told : (e u : ℕ) → Leaves ToldTurn (on_silence serial e u)
  unfolding on_silence
  on_silence-Told e u =
      Leaves-if (not (ltb 5 (e + 1))) _ _ (Leaves-pure ToldTurn (again (e + 1) u) refl)
        (Leaves-bind _ _ (write_string-Off _) λ written. Leaves-pure ToldTurn (again 0 u) refl)

  login_turn-Told :
      (user password : List ℕ) (e u : ℕ) → Leaves ToldTurn (login_turn serial user password e u)
  unfolding login_turn
  login_turn-Told user password e u = Leaves-bind _ _ read_string-Off λ size.
      Leaves-bind _ _ (last_read_is-Off _) λ prompt.
        Leaves-bind _ _ (last_read_is-Off _) λ login_prompt.
          Leaves-if (size == 0) _ _ (on_silence-Told e u)
            (on_text-Told user password e u prompt login_prompt)

  handle-Told :
      (r : Result (Turn serial)) (s : SerialDeviceShell serial)
      → After ToldTurn (r, s)
      → After ToldTurn (handle r (λ e. pure (returns false)) s)
  unfolding ◌>>=◌
  handle-Told (ok t) s h = h
  handle-Told (raised e) s h = h
  handle-Told stuck s h = tt

  After-Told :
      (r : Result (Turn serial)) (s : SerialDeviceShell serial) (rest : ℕ → ℕ → Shell serial Bool)
      → After ToldTurn (r, s)
      → ((e u : ℕ) → Leaves Told (rest e u))
      → After Told (continue r (after_turn serial rest) s)
  unfolding after_turn ◌>>=◌
  After-Told (ok (returns b)) s rest h k = h
  After-Told (ok (again e u)) s rest h k = (k e u).at s h
  After-Told (raised x) s rest h k = h
  After-Told stuck s rest h k = tt

  else-After :
      (b : Bool) (x y : Result Bool × SerialDeviceShell serial)
      → b ≡ false
      → After Told y
      → After Told (if b then x else y)
  else-After true x y e h = cc
  else-After false x y e h = h

  login_loop-Told :
      (fuel : ℕ) (user password : List ℕ) (e u : ℕ)
      → Leaves Told (login_loop serial fuel user password e u)
  unfolding login_loop try_except ◌>>=◌
  login_loop-Told zero user password e u = record { at = λ s off. tt }
  login_loop-Told (suc fuel) user password e u = record {
    at = λ s off. else-After s.logged_in _ _ off (
        After-Told _ _ (login_loop serial fuel user password)
          (handle-Told _ _ ((login_turn-Told user password e u).at s off))
          (login_loop-Told fuel user password));
  }

  set_true-Told : Leaves Told (set_logged_in serial true >> pure true)
  unfolding set_logged_in ◌>>=◌
  set_true-Told = record { at = λ s off. refl }

  login-Leaves : (fuel : ℕ) (user password : List ℕ) → Leaves Told (login serial fuel user password)
  unfolding login
  login-Leaves fuel user password = Leaves-bind _ _ (write_string-Off _) λ written.
      Leaves-bind _ _ read_string-Off λ size. Leaves-bind _ _ (last_read_is-Off _) λ prompt.
        Leaves-bind _ _ (is_valid_prompt-Off prompt)
          λ valid. Leaves-if valid _ _ set_true-Told (login_loop-Told fuel user password 0 0)

  -- Where the shell was not logged in and `_login` returns, `_logged_in` is what it returns; where it
  -- raises, the shell is not logged in.
  pub login-Told :
      (fuel : ℕ) (user password : List ℕ) (s : SerialDeviceShell serial)
      → s.logged_in ≡ false
      → After Told (login serial fuel user password s)
  login-Told fuel user password s off = (login-Leaves fuel user password).at s off
