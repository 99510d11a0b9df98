-- ===== src/Wlan/Restored.antt =====
-- That closing a monitor socket restores the interface that opening it has changed.
use Prim.Native.Nat.{bit_and}
use cyclarity_in_vehicle_sdk.Prelude.{
  ℕ, ◌<◌, ◌≡◌, refl, ap, ◌∙◌, Bool, true, false, some, lt→ltb, ◌==◌, Bool-cases, inl, inr,
}
use cyclarity_in_vehicle_sdk.Python.{Exec, ok, try_except, ◌>>=◌}
use cyclarity_in_vehicle_sdk.Wlan.Monitor.{
  WlanDriver, WifiMonitorSocket, iff_up_bit, get_if_flags, set_if_flags, set_mode, get_mode,
  set_dev_state, set_up_monitor, on_driver, set_monitor_socket, keep_flags, keep_mode, with_mode,
  with_flags, open_monitor, restore_flags, restore, close_monitor,
}

-- An interface that holds 16 flags and a mode. What is written is kept; the link goes up and down
-- without a change of the mode, and up without a change of flags that say so already.
pub record IsRadio (driver : WlanDriver) : Type 0 where
  pub flags : driver.Outside → ℕ
  pub mode : driver.Outside → ℕ
  pub flags_lt : (o : driver.Outside) → flags o < 0x10000
  pub makes :
      (o : driver.Outside)
      → (o' : driver.Outside) × (driver.make_socket o ≡ (ok tt, o'))
        × (flags o' ≡ flags o)
        × (mode o' ≡ mode o)
  pub flags_read : (o : driver.Outside) → driver.read_flags o ≡ (ok (flags o), o)
  pub mode_read : (o : driver.Outside) → driver.read_mode o ≡ (ok (mode o), o)
  pub flags_written :
      (f : ℕ) (o : driver.Outside)
      → f < 0x10000
      → (o' : driver.Outside) × (driver.write_if_flags f o ≡ (ok tt, o'))
        × (flags o' ≡ f)
        × (mode o' ≡ mode o)
  pub mode_written :
      (m : ℕ) (o : driver.Outside)
      → (o' : driver.Outside) × (driver.write_mode m o ≡ (ok tt, o'))
        × (flags o' ≡ flags o)
        × (mode o' ≡ m)
  pub links :
      (up : Bool) (o : driver.Outside)
      → (o' : driver.Outside) × (driver.set_link up o ≡ (ok tt, o'))
        × (mode o' ≡ mode o)
        × (up ≡ true → (bit_and (flags o) iff_up_bit == 0) ≡ false → flags o' ≡ flags o)
  pub closes :
      (o : driver.Outside)
      → (o' : driver.Outside) × (driver.close_raw_socket o ≡ (ok tt, o'))
        × (flags o' ≡ flags o)
        × (mode o' ≡ mode o)

module _ (driver : WlanDriver) (radio : IsRadio driver) where
  abbrev kept : ℕ → ℕ → driver.Outside → WifiMonitorSocket driver
  kept f m o = record {
    raw_socket = true;
    original_flags = some f;
    original_mode = some m;
    outside = o;
  }

  open_monitor-kept :
      (fuel : ℕ) (s : WifiMonitorSocket driver)
      → (o : driver.Outside) × ((open_monitor driver fuel s).1
          ≡ kept (radio.flags s.outside) (radio.mode s.outside) o)
  unfolding open_monitor with_flags with_mode on_driver set_monitor_socket keep_flags keep_mode
      get_if_flags get_mode set_dev_state try_except ◌>>=◌
  open_monitor-kept fuel s =
      let (o₁, e₁, f₁, m₁) = radio.makes s.outside in
      let (o₂, e₂, m₂, up₂) = radio.links false o₁ in
      rw (e₁, radio.flags_read o₁, e₂, radio.mode_read o₂)
        (
          (set_up_monitor driver fuel (radio.flags o₁) o₂).1,
          λ i. kept (f₁ i) ((m₂ ∙ m₁) i) (set_up_monitor driver fuel (radio.flags o₁) o₂).1,
        )

  Restores : ℕ → ℕ → Exec driver.Outside (Unit {0}) → driver.Outside → Type 0
  Restores f m run o =
      (o' : driver.Outside) × (run o ≡ (ok tt, o')) × (radio.flags o' ≡ f) × (radio.mode o' ≡ m)

  restore_flags-Restores :
      (f m : ℕ) (o : driver.Outside)
      → f < 0x10000
      → radio.mode o ≡ m
      → Restores f m (restore_flags driver (some f)) o
  unfolding Restores restore_flags set_if_flags set_dev_state try_except ◌>>=◌
  restore_flags-Restores f m o small e =
      let (o₁, w₁, f₁, m₁) = radio.flags_written f o small in
      elim (Bool-cases (bit_and f iff_up_bit == 0)) [
        | inl off ↦ rw (lt→ltb f 0x10000 small, w₁, off) (o₁, refl, f₁, m₁ ∙ e)
        | inr on ↦
            let (o₂, w₂, m₂, up₂) = radio.links true o₁ in
            rw (lt→ltb f 0x10000 small, w₁, on, w₂)
              (o₂, refl, up₂ refl (ap (λ x. bit_and x iff_up_bit == 0) f₁ ∙ on) ∙ f₁, m₂ ∙ m₁ ∙ e)
      ]

  restore-Restores :
      (f m : ℕ) (o : driver.Outside)
      → f < 0x10000
      → Restores f m (restore driver (some m) (some f)) o
  unfolding Restores restore set_mode set_dev_state try_except ◌>>=◌
  restore-Restores f m o small =
      let (o₁, w₁, m₁, up₁) = radio.links false o in
      let (o₂, w₂, f₂, m₂) = radio.mode_written m o₁ in
      let (o₃, w₃, f₃, m₃) = restore_flags-Restores f m o₂ small m₂ in
      rw (w₁, w₂, w₃) (o₃, refl, f₃, m₃)

  -- Over an interface that keeps what is written to it, closing a monitor socket after `open` returns
  -- True, leaves no socket, and restores the flags and the mode that the interface had before, also
  -- where `open` has returned False or raised.
  pub close_monitor-restores :
      (fuel : ℕ) (s : WifiMonitorSocket driver)
      → (s' : WifiMonitorSocket driver) × (close_monitor driver (open_monitor driver fuel s).1
          ≡ (ok true, s'))
        × (radio.flags s'.outside ≡ radio.flags s.outside)
        × (radio.mode s'.outside ≡ radio.mode s.outside)
        × (s'.raw_socket ≡ false)
  unfolding close_monitor on_driver set_monitor_socket Restores ◌>>=◌
  close_monitor-restores fuel s =
      let f : ℕ = radio.flags s.outside in
      let m : ℕ = radio.mode s.outside in
      let (o, e) = open_monitor-kept fuel s in
      let (o₁, w₁, f₁, m₁) = restore-Restores f m o (radio.flags_lt s.outside) in
      let (o₂, w₂, f₂, m₂) = radio.closes o₁ in
      rw (e, w₁, w₂) (record (kept f m o₂) { raw_socket = false }, refl, f₂ ∙ f₁, m₂ ∙ m₁, refl)
