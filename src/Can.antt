-- ===== src/Can.antt =====
-- `CanCommunicatorSocketCan` of communication/can/impl/can_communicator_socketcan.py. The bus of the
-- package python-can, and the clock, are a parameter; times are natural numbers of milliseconds.
pub mod Accepted
pub mod Deadline
use cyclarity_in_vehicle_sdk.Prelude.{
  ℕ, zero, suc, ◌-◌, Bool, true, false, not, ◌&&◌, Option, none, some, List, [], ◌∷◌, ◌++◌, ◌==◌,
  ltb, if◌then◌else◌, any,
}
use cyclarity_in_vehicle_sdk.Python.{
  Exec, Result, ok, raised, stuck, pure, raise, lift, diverge, ◌>>=◌, ◌>>◌, runtime_error,
}

pub record CanMessage : Type 0 where
  pub arbitration_id : ℕ
  pub payload : List ℕ

-- `SocketcanBus`, and `time.time()`, over whatever stands outside the program.
pub record SocketcanBus : Type 1 where
  pub Outside : Type 0
  pub connect : Exec Outside (Unit {0})
  pub shutdown : Exec Outside (Unit {0})
  pub transmit : CanMessage → Option ℕ → Exec Outside (Unit {0})
  pub transmit_periodic : List CanMessage → ℕ → Option ℕ → Exec Outside (Unit {0})
  pub recv : Option ℕ → Exec Outside (Option CanMessage)
  pub clock : Outside → ℕ

-- `ret_msg.arbitration_id in self.blacklist_ids`
unfoldable pub is_blacklisted : List ℕ → CanMessage → Bool
is_blacklisted blacklist_ids m = any (λ canid. canid == m.arbitration_id) blacklist_ids

-- The message that passes the filter, if one came.
unfoldable pub accepted : List ℕ → Option CanMessage → Option CanMessage
accepted blacklist_ids none = none
accepted blacklist_ids (some m) = if is_blacklisted blacklist_ids m then none else some m

abbrev pub append_message : Option CanMessage → List CanMessage → List CanMessage
append_message none ms = ms
append_message (some m) ms = m ∷ ms

-- `not timeout`
abbrev pub is_unset : Option ℕ → Bool
is_unset none = true
is_unset (some t) = t == 0

abbrev pub seconds : Option ℕ → ℕ
seconds none = 0
seconds (some t) = t

module _ (bus : SocketcanBus) where
  open bus use {Outside, connect, shutdown, transmit, transmit_periodic, recv, clock}

  unfoldable pub time_since : ℕ → Exec Outside ℕ
  time_since start_time s = (ok (clock s - start_time), s)

  -- Return the message that was found, or go on.
  abbrev pub or_else :
      Option CanMessage → Exec Outside (Option CanMessage) → Exec Outside (Option CanMessage)
  or_else (some m) rest = pure (some m)
  or_else none rest = rest

  -- `while time_past < timeout` of `receive`, one round for each unit of fuel.
  unfoldable pub receive_loop : ℕ → List ℕ → ℕ → ℕ → ℕ → Exec Outside (Option CanMessage)
  unfolding time_since
  receive_loop zero blacklist_ids timeout start_time time_past = diverge
  receive_loop (suc fuel) blacklist_ids timeout start_time time_past =
      if not (ltb time_past timeout) then pure none else do
        ret_msg ← recv (some timeout)
        or_else (accepted blacklist_ids ret_msg)
            (time_since start_time >>= receive_loop fuel blacklist_ids timeout start_time)

  -- `receive` of an open communicator; with no timeout, or with 0, it waits for one message.
  unfoldable pub receive_open : ℕ → List ℕ → Option ℕ → Exec Outside (Option CanMessage)
  unfolding receive_loop
  receive_open fuel blacklist_ids timeout =
      if is_unset timeout
      then (recv none >>= λ ret_msg. pure (accepted blacklist_ids ret_msg))
      else λ s. receive_loop fuel blacklist_ids (seconds timeout) (clock s) 0 s

  -- `while time_passed < sniff_time` of `sniff`.
  unfoldable pub sniff_loop : ℕ → List ℕ → ℕ → ℕ → ℕ → Exec Outside (List CanMessage)
  unfolding receive_open time_since
  sniff_loop zero blacklist_ids sniff_time start_time time_passed = diverge
  sniff_loop (suc fuel) blacklist_ids sniff_time start_time time_passed =
      if not (ltb time_passed sniff_time) then pure [] else do
        m ← receive_open fuel blacklist_ids (some (sniff_time - time_passed))
        time_passed' ← time_since start_time
        ms ← sniff_loop fuel blacklist_ids sniff_time start_time time_passed'
        pure (append_message m ms)

  -- The communicator: whether `_bus` is set, and the blacklist, with what stands outside.
  pub record CanCommunicatorSocketCan : Type 0 where
    pub is_set : Bool
    pub blacklist_ids : List ℕ
    pub outside : Outside

  abbrev pub Can : Type 0 → Type 0
  Can A = Exec CanCommunicatorSocketCan A

  -- What a call of the bus does to the communicator.
  unfoldable pub on_bus : {A : Type 0} → Exec Outside A → Can A
  on_bus m s = let (r, o) = m s.outside in (r, record s { outside = o })

  -- `if not self._bus: raise RuntimeError(...)`
  unfoldable pub when_open : {A : Type 0} → (List ℕ → Exec Outside A) → Can A
  unfolding on_bus raise
  when_open m s = if s.is_set then on_bus (m s.blacklist_ids) s else raise runtime_error s

  unfoldable pub set_bus : Bool → Can (Unit {0})
  set_bus b s = (ok tt, record s { is_set = b })

  unfoldable pub open_can : Can (Unit {0})
  unfolding on_bus set_bus raise
  open_can s = if s.is_set then raise runtime_error s else (on_bus connect >> set_bus true) s

  unfoldable pub close_can : Can (Unit {0})
  unfolding on_bus set_bus pure
  close_can s = if s.is_set then (on_bus shutdown >> set_bus false) s else pure tt s

  unfoldable pub send_can : CanMessage → Option ℕ → Can (Unit {0})
  unfolding when_open
  send_can can_msg timeout = when_open (λ blacklist_ids. transmit can_msg timeout)

  unfoldable pub send_periodically : List CanMessage → ℕ → Option ℕ → Can (Unit {0})
  unfolding when_open
  send_periodically msgs period duration =
      when_open (λ blacklist_ids. transmit_periodic msgs period duration)

  unfoldable pub receive : ℕ → Option ℕ → Can (Option CanMessage)
  unfolding when_open receive_open
  receive fuel timeout = when_open (λ blacklist_ids. receive_open fuel blacklist_ids timeout)

  unfoldable pub sniff : ℕ → ℕ → Can (List CanMessage)
  unfolding when_open sniff_loop
  sniff fuel sniff_time =
      when_open (λ blacklist_ids s. sniff_loop fuel blacklist_ids sniff_time (clock s) 0 s)

  -- The order of a set is not visible, so the new identifiers are put in front.
  unfoldable pub add_to_blacklist : List ℕ → Can (Unit {0})
  add_to_blacklist canids s = (ok tt, record s { blacklist_ids = canids ++ s.blacklist_ids })
