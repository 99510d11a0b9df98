-- ===== src/Wlan/Monitor.antt =====
-- `WiFiRawMonitorSocket` of communication/wlan/wlan_communicator.py, with the methods that it
-- inherits for the flags and the mode of its interface.
use Prim.Native.Nat.{bit_and, bit_or}
use cyclarity_in_vehicle_sdk.Prelude.{
  ℕ, zero, suc, ◌+◌, ◌-◌, ◌%◌, Bool, true, false, not, Option, none, some, List, ltb, ◌==◌,
  if◌then◌else◌,
}
use cyclarity_in_vehicle_sdk.Python.{
  Exn, Exec, ok, pure, raise, diverge, try_except, ◌>>=◌, ◌>>◌, os_error, timeout_error,
  blocking_io_error, connection_reset_error, type_error, struct_error,
}

abbrev pub iw_mode_monitor : ℕ
iw_mode_monitor = 6

abbrev pub iff_up_bit : ℕ
iff_up_bit = 0x1

abbrev pub iff_broadcast_bit : ℕ
iff_broadcast_bit = 0x2

abbrev pub iff_promisc_bit : ℕ
iff_promisc_bit = 0x100

abbrev pub iff_allmulti_bit : ℕ
iff_allmulti_bit = 0x200

-- The calls on the socket, its `ioctl`, and the tool `ip`.
pub record WlanDriver : Type 1 where
  pub Outside : Type 0
  pub is_called_process_error : Exn → Bool
  pub make_socket : Exec Outside (Unit {0})
  pub read_flags : Exec Outside ℕ
  pub write_if_flags : ℕ → Exec Outside (Unit {0})
  pub read_mode : Exec Outside ℕ
  pub write_mode : ℕ → Exec Outside (Unit {0})
  pub set_link : Bool → Exec Outside (Unit {0})
  pub bind_interface : Exec Outside (Unit {0})
  pub set_blocking : Bool → Exec Outside (Unit {0})
  pub select_soon : Exec Outside Bool
  pub discard : Exec Outside (List ℕ)
  pub close_raw_socket : Exec Outside (Unit {0})

-- OSError and its subclasses
abbrev pub is_os_error : Exn → Bool
is_os_error os_error = true
is_os_error timeout_error = true
is_os_error blocking_io_error = true
is_os_error connection_reset_error = true
is_os_error e = false

module _ (driver : WlanDriver) where
  open driver use {
    Outside, is_called_process_error, make_socket, read_flags, write_if_flags, read_mode,
    write_mode, set_link, bind_interface, set_blocking, select_soon, discard, close_raw_socket,
  }

  -- `otherwise` where the exception is one that the method expects.
  abbrev pub expecting : {A : Type 0} → (Exn → Bool) → A → Exec Outside A → Exec Outside A
  expecting expected otherwise m =
      try_except m (λ e. if expected e then pure otherwise else raise e)

  unfoldable pub get_if_flags : Exec Outside (Option ℕ)
  unfolding try_except
  get_if_flags = expecting is_os_error none (read_flags >>= λ flags. pure (some flags))

  -- The flags are packed as 16 bits.
  unfoldable pub set_if_flags : ℕ → Exec Outside Bool
  unfolding try_except
  set_if_flags flags =
      if not (ltb flags 0x10000)
      then raise struct_error
      else expecting is_os_error false (write_if_flags flags >> pure true)

  -- The flags to set are computed and then overwritten.
  unfoldable pub updated_flags : ℕ → ℕ → ℕ → ℕ
  updated_flags original_flags set_flags clear_flags =
      let new_flags : ℕ = bit_or original_flags set_flags % 0x10000 in
      let new_flags : ℕ = (original_flags - bit_and original_flags clear_flags) % 0x10000 in
      new_flags

  unfoldable pub update_if_flags : ℕ → ℕ → ℕ → Exec Outside Bool
  unfolding set_if_flags updated_flags
  update_if_flags original_flags set_flags clear_flags =
      set_if_flags (updated_flags original_flags set_flags clear_flags)

  unfoldable pub set_mode : ℕ → Exec Outside Bool
  unfolding try_except
  set_mode mode = expecting is_os_error false (write_mode mode >> pure true)

  unfoldable pub get_mode : Exec Outside (Option ℕ)
  unfolding try_except
  get_mode = expecting is_os_error none (read_mode >>= λ mode. pure (some mode))

  unfoldable pub set_dev_state : Bool → Exec Outside Bool
  unfolding try_except
  set_dev_state state = expecting is_called_process_error false (set_link state >> pure true)

  abbrev pub is_monitor : Option ℕ → Bool
  is_monitor none = false
  is_monitor (some mode) = mode == iw_mode_monitor

  -- One flag of those that are wanted is enough; flags that could not be read are None.
  unfoldable pub verify_interface : ℕ → Exec Outside Bool
  unfolding get_if_flags get_mode ◌>>=◌
  verify_interface verify_flags = get_if_flags >>= λ read. elim read [
    | none ↦ raise type_error
    | some flags ↦
        if bit_and flags verify_flags == 0
        then pure false
        else (get_mode >>= λ mode. pure (is_monitor mode))
  ]

  unfoldable pub flush_loop : ℕ → Exec Outside (Unit {0})
  flush_loop zero = diverge
  flush_loop (suc fuel) =
      select_soon >>= λ ready. if not ready then pure tt else (discard >> flush_loop fuel)

  unfoldable pub flush_recv_buffer : ℕ → Exec Outside (Unit {0})
  unfolding flush_loop ◌>>=◌
  flush_recv_buffer fuel = do set_blocking false; flush_loop fuel; set_blocking true

  -- `if not m: return False`, and the statements behind it.
  abbrev pub and_then : Exec Outside Bool → Exec Outside Bool → Exec Outside Bool
  and_then m rest = m >>= λ done. if not done then pure false else rest

  -- What `open` does once it has kept the flags and the mode.
  unfoldable pub set_up_monitor : ℕ → ℕ → Exec Outside Bool
  unfolding set_mode update_if_flags set_dev_state verify_interface flush_recv_buffer ◌>>=◌
  set_up_monitor fuel flags = and_then (set_mode iw_mode_monitor) (
      and_then (update_if_flags flags (iff_broadcast_bit + iff_promisc_bit + iff_allmulti_bit) 0) (
        and_then (set_dev_state true) (
          and_then
            (verify_interface (iff_up_bit + iff_broadcast_bit + iff_promisc_bit + iff_allmulti_bit))
            (bind_interface >> (flush_recv_buffer fuel >> pure true)))))

  -- Whether `_raw_socket` is set, and the attributes that `open` adds.
  pub record WifiMonitorSocket : Type 0 where
    pub raw_socket : Bool
    pub original_flags : Option ℕ
    pub original_mode : Option ℕ
    pub outside : Outside

  abbrev pub Monitor : Type 0 → Type 0
  Monitor A = Exec WifiMonitorSocket A

  unfoldable pub on_driver : {A : Type 0} → Exec Outside A → Monitor A
  on_driver m s = let (r, o) = m s.outside in (r, record s { outside = o })

  unfoldable pub set_monitor_socket : Bool → Monitor (Unit {0})
  set_monitor_socket b s = (ok tt, record s { raw_socket = b })

  unfoldable pub keep_flags : ℕ → Monitor (Unit {0})
  keep_flags flags s = (ok tt, record s { original_flags = some flags })

  unfoldable pub keep_mode : Option ℕ → Monitor (Unit {0})
  keep_mode mode s = (ok tt, record s { original_mode = mode })

  unfoldable pub with_mode : ℕ → ℕ → Option ℕ → Monitor Bool
  unfolding on_driver set_up_monitor ◌>>=◌
  with_mode fuel flags none = pure false
  with_mode fuel flags (some mode) = on_driver (set_up_monitor fuel flags)

  unfoldable pub with_flags : ℕ → Option ℕ → Monitor Bool
  unfolding on_driver keep_flags set_dev_state get_mode keep_mode with_mode ◌>>=◌
  with_flags fuel none = pure false
  with_flags fuel (some flags) =
      keep_flags flags
      >> (on_driver (set_dev_state false) >>= λ down.
          if not down
          then pure false
          else (on_driver get_mode >>= λ mode. keep_mode mode >> with_mode fuel flags mode))

  unfoldable pub open_monitor : ℕ → Monitor Bool
  unfolding on_driver set_monitor_socket get_if_flags with_flags
  open_monitor fuel = do
    on_driver make_socket
    set_monitor_socket true
    flags ← on_driver get_if_flags
    with_flags fuel flags

  abbrev pub restore_mode : Option ℕ → Exec Outside (Unit {0})
  restore_mode none = pure tt
  restore_mode (some mode) = set_mode mode >> pure tt

  unfoldable pub restore_flags : Option ℕ → Exec Outside (Unit {0})
  unfolding set_if_flags set_dev_state ◌>>=◌
  restore_flags none = pure tt
  restore_flags (some flags) = set_if_flags flags >>= λ written.
      if bit_and flags iff_up_bit == 0 then pure tt else (set_dev_state true >> pure tt)

  -- Nothing is restored where nothing was kept.
  unfoldable pub restore : Option ℕ → Option ℕ → Exec Outside (Unit {0})
  unfolding set_dev_state set_mode restore_flags ◌>>=◌
  restore none none = pure tt
  restore none (some flags) = set_dev_state false >> restore_flags (some flags)
  restore (some mode) flags =
      set_dev_state false >> (restore_mode (some mode) >> restore_flags flags)

  unfoldable pub close_monitor : Monitor Bool
  unfolding on_driver restore set_monitor_socket ◌>>=◌
  close_monitor s =
      if not s.raw_socket
      then pure true s
      else (on_driver (restore s.original_mode s.original_flags)
            >> (on_driver close_raw_socket >> (set_monitor_socket false >> pure true)))
          s
