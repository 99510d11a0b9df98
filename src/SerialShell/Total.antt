-- ===== src/SerialShell/Total.antt =====
-- Methods of the serial shell that return a value in every state.
use cyclarity_in_vehicle_sdk.Prelude.{ℕ, ◌≡◌, refl, Bool, true, false, List, if◌then◌else◌}
use cyclarity_in_vehicle_sdk.Python.{ok, pure, ◌>>=◌}
use cyclarity_in_vehicle_sdk.SerialShell.{
  Serial, SerialDeviceShell, Shell, last_read_is, set_logged_in,
}

module _ {serial : Serial} where
  abbrev pub Ends : {A : Type 0} → Shell serial A → SerialDeviceShell serial → Type 0
  Ends {A} m s = (a : A) × (s' : SerialDeviceShell serial) × (m s ≡ (ok a, s'))

  pub record Total {A : Type 0} (m : Shell serial A) : Type 0 where
    pub at : (s : SerialDeviceShell serial) → Ends m s

  pub Total-bind :
      {A B : Type 0} (m : Shell serial A) (f : A → Shell serial B)
      → Total m
      → ((a : A) → Total (f a))
      → Total (m >>= f)
  unfolding ◌>>=◌
  Total-bind m f h k = record {
    at = λ s. let (a, s', e) = h.at s in let (b, s'', e') = (k a).at s' in rw e (b, s'', e');
  }

  pub Total-if :
      {A : Type 0} (b : Bool) (m n : Shell serial A)
      → Total m
      → Total n
      → Total (if b then m else n)
  Total-if true m n h k = h
  Total-if false m n h k = k

  pub Total-pure : {A : Type 0} (a : A) → Total (pure a)
  unfolding pure
  Total-pure a = record { at = λ s. (a, s, refl) }

  pub last_read_is-Total : (test : List ℕ → Bool) → Total (last_read_is serial test)
  unfolding last_read_is
  last_read_is-Total test = record { at = λ s. (test s.last_read, s, refl) }

  pub set_logged_in-Total : (b : Bool) → Total (set_logged_in serial b)
  unfolding set_logged_in
  set_logged_in-Total b = record { at = λ s. (tt, record s { logged_in = b }, refl) }
