-- ===== src/SerialShell/Talking.antt =====
-- That the login of the serial shell ends on a device that does not stay silent.
use cyclarity_in_vehicle_sdk.Prelude.{
  ℕ, zero, suc, ◌+◌, ◌-◌, ◌*◌, ◌≤◌, ◌<◌, ◌≡◌, refl, Bool, true, false, ◌&&◌, List, ltb, ◌==◌,
  length, Bool-cases, inl, inr, if◌then◌else◌, arith,
}
use cyclarity_in_vehicle_sdk.Python.{ok, pure, try_except, ◌>>=◌, ◌>>◌}
use cyclarity_in_vehicle_sdk.SerialShell.{
  Serial, SerialDeviceShell, Shell, on_serial, set_logged_in, set_last_read, write_string,
  read_string, without_last, newline, read_block_size, last_read_is, answer_password,
  login_with_password, validate_prompt, is_command_prompt, is_login_prompt,
}
use cyclarity_in_vehicle_sdk.SerialShell.Total.{
  Ends, Total, Total-bind, Total-if, Total-pure, last_read_is-Total, set_logged_in-Total,
}
use cyclarity_in_vehicle_sdk.SerialShell.Login.{
  Turn, returns, again, enter_shell, on_text, on_silence, login_turn, after_turn, login_loop,
  is_valid_prompt, login,
}

-- The port reads and writes without an error, what it reads is text, and no more than `most` reads in
-- a row give none: `quiet` bounds how many are still to come.
pub record IsTalking (serial : Serial) (most : ℕ) : Type 0 where
  pub quiet : serial.Outside → ℕ
  pub quiet_le : (o : serial.Outside) → quiet o ≤ most
  pub writes :
      (text : List ℕ) (o : serial.Outside)
      → (o' : serial.Outside) × (serial.write text o ≡ (ok tt, o')) × (quiet o' ≤ quiet o)
  pub reads :
      (size : ℕ) (o : serial.Outside)
      → (bytes : List ℕ) × (text : List ℕ) × (o' : serial.Outside) × (serial.read size o
          ≡ (ok bytes, o'))
        × (serial.decode bytes ≡ ok text)
        × (length (without_last text) ≡ 0 → quiet o' < quiet o)

module _ (serial : Serial) (most : ℕ) (talking : IsTalking serial most) where
  abbrev State : Type 0
  State = SerialDeviceShell serial

  write_string-Ends :
      (text : List ℕ) (s : State)
      → (s' : State) × (write_string serial text s ≡ (ok tt, s'))
        × (talking.quiet s'.outside ≤ talking.quiet s.outside)
        × (s'.logged_in ≡ s.logged_in)
  unfolding write_string on_serial
  write_string-Ends text s =
      let (o', e, le) = talking.writes text s.outside in
      rw e (record s { outside = o' }, refl, le, refl)

  read_string-Ends :
      (s : State)
      → (size : ℕ) × (s' : State) × (read_string serial s ≡ (ok size, s'))
        × (size ≡ 0 → talking.quiet s'.outside < talking.quiet s.outside)
        × (s'.logged_in ≡ s.logged_in)
  unfolding read_string on_serial set_last_read ◌>>=◌
  read_string-Ends s =
      let (bytes, text, o', r, d, lt) = talking.reads read_block_size s.outside in
      rw (r, d)
        (
          length (without_last text),
          record s { outside = o'; last_read = without_last text },
          refl,
          lt,
          refl,
        )

  write_string-Total : (text : List ℕ) → Total (write_string serial text)
  write_string-Total text = record {
    at = λ s. let (s', e, le, flag) = write_string-Ends text s in (tt, s', e);
  }

  read_string-Total : Total (read_string serial)
  read_string-Total = record {
    at = λ s. let (size, s', e, lt, flag) = read_string-Ends s in (size, s', e);
  }

  answer_password-Total :
      (password : List ℕ) (asked : Bool) → Total (answer_password serial password asked)
  unfolding answer_password
  answer_password-Total password false = Total-pure tt
  answer_password-Total password true =
      Total-bind _ _ (write_string-Total _)
        λ written. Total-bind _ _ read_string-Total λ size. Total-pure tt

  login_with_password-Total :
      (user password : List ℕ) (tries : ℕ) → Total (login_with_password serial user password tries)
  unfolding login_with_password
  login_with_password-Total user password zero = Total-pure false
  login_with_password-Total user password (suc tries) =
      Total-bind _ _ (write_string-Total _) λ written. Total-bind _ _ read_string-Total λ size.
        Total-bind _ _ (last_read_is-Total _) λ asked.
          Total-bind _ _ (answer_password-Total password asked) λ answered.
            Total-bind _ _ (last_read_is-Total _) λ prompt.
              Total-bind _ _ (last_read_is-Total _) λ failed.
                Total-if prompt _ _ (Total-pure true) (
                  Total-if failed _ _ (Total-pure false)
                    (login_with_password-Total user password tries))

  is_valid_prompt-Total : (prompt : Bool) → Total (is_valid_prompt serial prompt)
  unfolding is_valid_prompt validate_prompt
  is_valid_prompt-Total false = Total-pure false
  is_valid_prompt-Total true =
      Total-bind _ _ (write_string-Total _)
        λ written. Total-bind _ _ read_string-Total λ size. last_read_is-Total _

  -- The rounds that are left of a loop with these counters.
  abbrev room : ℕ → State → ℕ
  room u s = (5 - u) * suc most + talking.quiet s.outside

  room-next :
      (u q q' : ℕ)
      → ltb 5 (u + 1) ≡ false
      → q' ≤ most
      → (5 - (u + 1)) * suc most + q' < (5 - u) * suc most + q
  room-next zero q q' h le = omega arith
  room-next (suc zero) q q' h le = omega arith
  room-next (suc (suc zero)) q q' h le = omega arith
  room-next (suc (suc (suc zero))) q q' h le = omega arith
  room-next (suc (suc (suc (suc zero)))) q q' h le = omega arith
  room-next (suc (suc (suc (suc (suc u))))) q q' h le = absurd (ground arith)

  -- A round returns, and where the loop goes on, fewer rounds are left than in `s`.
  abbrev Progress : ℕ → State → Turn serial → State → Type 0
  Progress u s (returns b) s' = Unit
  Progress u s (again e' u') s' = room u' s' < room u s

  abbrev Proceeds : ℕ → State → Shell serial (Turn serial) → State → Type 0
  Proceeds u s m s₁ = (t : Turn serial) × (s' : State) × (m s₁ ≡ (ok t, s')) × Progress u s t s'

  written-Proceeds :
      (u : ℕ) (s s₁ : State)
      → talking.quiet s₁.outside < talking.quiet s.outside
      → Proceeds u s (write_string serial newline >> pure (again 0 u)) s₁
  unfolding ◌>>=◌
  written-Proceeds u s s₁ lt =
      let (s', w, le, flag) = write_string-Ends newline s₁ in
      rw w (again 0 u, s', refl, omega (arith, lt, le))

  on_silence-Proceeds :
      (e u : ℕ) (s s₁ : State)
      → talking.quiet s₁.outside < talking.quiet s.outside
      → Proceeds u s (on_silence serial e u) s₁
  unfolding on_silence ◌>>=◌
  on_silence-Proceeds e u s s₁ lt = elim (Bool-cases (ltb 5 (e + 1))) [
    | inl long ↦ rw long (written-Proceeds u s s₁ lt)
    | inr short ↦ rw short (again (e + 1) u, s₁, refl, omega (arith, lt))
  ]

  enter_shell-Proceeds : (u : ℕ) (s s₁ : State) → Proceeds u s (enter_shell serial) s₁
  unfolding enter_shell set_logged_in ◌>>=◌
  enter_shell-Proceeds u s s₁ = (returns true, record s₁ { logged_in = true }, refl, tt)

  on_login-Proceeds :
      (u : ℕ) (b : Bool) (s s₁ : State)
      → Proceeds u s (if b then enter_shell serial else pure (returns false)) s₁
  unfolding ◌>>=◌
  on_login-Proceeds u true s s₁ = enter_shell-Proceeds u s s₁
  on_login-Proceeds u false s s₁ = (returns false, s₁, refl, tt)

  on_text-Proceeds :
      (user password : List ℕ) (e u : ℕ) (prompt login_prompt : Bool) (s s₁ : State)
      → Proceeds u s (on_text serial user password e u prompt login_prompt) s₁
  unfolding on_text last_read_is ◌>>=◌
  on_text-Proceeds user password e u true login_prompt s s₁ = enter_shell-Proceeds u s s₁
  on_text-Proceeds user password e u false true s s₁ =
      let (success, s₂, r) = (login_with_password-Total user password 3).at s₁ in
      rw r (on_login-Proceeds u (success && is_command_prompt s₂.last_read) s s₂)
  on_text-Proceeds user password e u false false s s₁ = elim (Bool-cases (ltb 5 (u + 1))) [
    | inl full ↦ rw full (returns false, s₁, refl, tt)
    | inr open_yet ↦ rw open_yet (
      again e (u + 1),
      s₁,
      refl,
      room-next u (talking.quiet s.outside) (talking.quiet s₁.outside) open_yet
          (talking.quiet_le s₁.outside),
    )
  ]

  zero-size : (size : ℕ) → (size == 0) ≡ true → size ≡ 0
  zero-size size e = ground arith

  login_turn-Proceeds :
      (user password : List ℕ) (e u : ℕ) (s : State)
      → Proceeds u s (login_turn serial user password e u) s
  unfolding login_turn last_read_is ◌>>=◌
  login_turn-Proceeds user password e u s =
      let (size, s₁, r, lt, flag) = read_string-Ends s in
      elim (Bool-cases (size == 0)) [
        | inl none_read ↦
            rw (r, none_read) (on_silence-Proceeds e u s s₁ (lt (zero-size size none_read)))
        | inr some_read ↦
            rw (r, some_read)
              (on_text-Proceeds user password e u (is_command_prompt s₁.last_read)
                (is_login_prompt s₁.last_read) s s₁)
      ]

  after-Ends :
      (fuel u : ℕ) (rest : ℕ → ℕ → Shell serial Bool) (s : State) (t : Turn serial) (s' : State)
      → room u s < suc fuel
      → Progress u s t s'
      → ((e' u' : ℕ) → room u' s' < fuel → Ends (rest e' u') s')
      → Ends (after_turn serial rest t) s'
  unfolding after_turn ◌>>=◌
  after-Ends fuel u rest s (returns b) s' enough progress go = (b, s', refl)
  after-Ends fuel u rest s (again e' u') s' enough progress go =
      go e' u' (omega (arith, enough, progress))

  login_loop-Ends :
      (fuel : ℕ) (user password : List ℕ) (e u : ℕ) (s : State)
      → room u s < fuel
      → Ends (login_loop serial fuel user password e u) s
  unfolding login_loop try_except ◌>>=◌
  login_loop-Ends zero user password e u s enough = absurd (omega (arith, enough))
  login_loop-Ends (suc fuel) user password e u s enough =
      let (t, s', r, progress) = login_turn-Proceeds user password e u s in
      flagged s.logged_in t s' r (
        after-Ends fuel u (login_loop serial fuel user password) s t s' enough progress
          λ e' u' room'. login_loop-Ends fuel user password e' u' s' room')
    where
      whole : Shell serial Bool
      whole =
          try_except (login_turn serial user password e u) (λ e. pure (returns false))
          >>= after_turn serial (login_loop serial fuel user password)

      flagged :
          (b : Bool) (t : Turn serial) (s' : State)
          → login_turn serial user password e u s ≡ (ok t, s')
          → Ends (after_turn serial (login_loop serial fuel user password) t) s'
          → Ends (λ s. if b then pure false s else whole s) s
      flagged true t s' r h = (false, s, refl)
      flagged false t s' r h = rw r h

  -- The login ends: on a port of which no more than `most` reads in a row give no text, `_login`
  -- returns within `6 * (most + 1)` rounds of its loop, whatever the texts are.
  pub login-Ends :
      (fuel : ℕ) (user password : List ℕ) (s : SerialDeviceShell serial)
      → 6 * (most + 1) ≤ fuel
      → (b : Bool) × (s' : SerialDeviceShell serial) × (login serial fuel user password s
          ≡ (ok b, s'))
  unfolding login
  login-Ends fuel user password s enough =
      let loop : Total (login_loop serial fuel user password 0 0) = record {
        at = λ s'.
            login_loop-Ends fuel user password 0 0 s'
              (omega (arith, enough, talking.quiet_le s'.outside));
      } in
      (Total-bind _ _ (write_string-Total _) λ written. Total-bind _ _ read_string-Total λ size.
          Total-bind _ _ (last_read_is-Total _) λ prompt.
            Total-bind _ _ (is_valid_prompt-Total prompt) λ valid.
              Total-if valid _ _ (Total-bind _ _ (set_logged_in-Total true) λ done. Total-pure true)
                loop).at
        s
