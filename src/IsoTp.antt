-- ===== src/IsoTp.antt =====
-- `IsoTpCommunicator` of communication/isotp/impl/isotp_communicator.py, over the CAN communicator.
-- The package isotp is a parameter: what a call of its stack does outside.
pub mod Lifecycle
pub mod Reached
pub mod Failure
use cyclarity_in_vehicle_sdk.Prelude.{
  ℕ, Bool, true, false, ◌||◌, Option, none, some, List, [], ◌==◌, ltb, if◌then◌else◌, length,
}
use cyclarity_in_vehicle_sdk.Python.{
  Exn, Exec, Result, ok, raised, stuck, pure, raise, try_except, ◌>>=◌, ◌>>◌, runtime_error,
  blocking_send_timeout,
}
use cyclarity_in_vehicle_sdk.Can.{
  SocketcanBus, CanCommunicatorSocketCan, is_unset, open_can, close_can,
}

pub data AddressingMode : Type 0 where
  normal_11bits normal_29bits : AddressingMode

pub record Address : Type 0 where
  pub rxid : ℕ
  pub txid : ℕ
  pub addressing_mode : AddressingMode

-- The entries of `_params`; `none` and `false` stand for a missing key.
pub record Params : Type 0 where
  pub tx_padding : Option ℕ
  pub bitrate_switch : Bool
  pub can_fd : Bool

-- `isotp.CanStack`, with the bus that it was made with.
pub record CanStack (bus : SocketcanBus) : Type 0 where
  pub create : Address → Params → Exec bus.Outside (Unit {0})
  pub start : Exec bus.Outside (Unit {0})
  pub stop : Exec bus.Outside (Unit {0})
  pub reset : Exec bus.Outside (Unit {0})
  pub change_address : Address → Exec bus.Outside (Unit {0})
  pub transmit : List ℕ → ℕ → Exec bus.Outside (Unit {0})
  pub take_frame : ℕ → Exec bus.Outside (Option (List ℕ))

-- CAN_ID_MAX_NORMAL_11_BITS
abbrev pub can_id_max_normal_11_bits : ℕ
can_id_max_normal_11_bits = 0x7ff

unfoldable pub addressing_mode_of : ℕ → ℕ → AddressingMode
addressing_mode_of rxid txid =
    if ltb can_id_max_normal_11_bits rxid || ltb can_id_max_normal_11_bits txid
    then normal_29bits
    else normal_11bits

-- What `model_post_init` makes of the identifiers and of the options.
unfoldable pub initial_address : ℕ → ℕ → Address
unfolding addressing_mode_of
initial_address rxid txid = record {
  rxid = rxid;
  txid = txid;
  addressing_mode = addressing_mode_of rxid txid;
}

unfoldable pub initial_params : Option ℕ → Bool → Bool → Params
initial_params padding_byte bitrate_switch can_fd = record {
  tx_padding = if is_unset padding_byte then none else padding_byte;
  bitrate_switch = bitrate_switch;
  can_fd = can_fd;
}

-- `bytes(received_data) if received_data else bytes()`
abbrev pub or_empty : Option (List ℕ) → List ℕ
or_empty none = []
or_empty (some bs) = bs

abbrev pub is_send_timeout : Exn → Bool
is_send_timeout blocking_send_timeout = true
is_send_timeout e = false

module _ (bus : SocketcanBus) (stack : CanStack bus) where
  open bus use {Outside}

  pub record IsoTpCommunicator : Type 0 where
    pub can_communicator : CanCommunicatorSocketCan bus
    pub is_open : Bool
    pub address : Option Address
    pub params : Params

  abbrev pub IsoTp : Type 0 → Type 0
  IsoTp A = Exec IsoTpCommunicator A

  unfoldable pub on_can : {A : Type 0} → Exec (CanCommunicatorSocketCan bus) A → IsoTp A
  on_can m s = let (r, c) = m s.can_communicator in (r, record s { can_communicator = c })

  -- A call of the stack, which is one of the world outside.
  unfoldable pub on_stack : {A : Type 0} → Exec Outside A → IsoTp A
  on_stack m s =
      let (r, o) = m s.can_communicator.outside in
      (r, record s { can_communicator = record s.can_communicator { outside = o } })

  unfoldable pub set_open : Bool → IsoTp (Unit {0})
  set_open b s = (ok tt, record s { is_open = b })

  unfoldable pub set_address : Address → IsoTp (Unit {0})
  unfolding on_stack pure
  set_address address s =
      let s' = record s { address = some address } in
      if s.is_open then on_stack (stack.change_address address) s' else pure tt s'

  -- `except isotp.BlockingSendTimeout`
  unfoldable pub on_send_timeout : Exn → IsoTp ℕ
  on_send_timeout e = if is_send_timeout e then pure 0 else raise e

  unfoldable pub send_isotp : List ℕ → ℕ → IsoTp ℕ
  unfolding on_stack on_send_timeout raise
  send_isotp bytes timeout s =
      if s.is_open
      then try_except (on_stack (stack.transmit bytes timeout) >>= λ sent. pure (length bytes))
          on_send_timeout s
      else raise runtime_error s

  unfoldable pub recv_isotp : ℕ → IsoTp (List ℕ)
  unfolding on_stack raise
  recv_isotp recv_timeout s =
      if s.is_open
      then (on_stack (stack.take_frame recv_timeout) >>= λ received_data.
            pure (or_empty received_data))
          s
      else raise runtime_error s

  -- `open` with an address.
  unfoldable pub open_with : Address → Params → IsoTp Bool
  unfolding on_can on_stack set_open
  open_with address params = do
    on_can (open_can bus)
    on_stack (stack.create address params)
    on_stack stack.start
    set_open true
    pure true

  unfoldable pub open_isotp : IsoTp Bool
  unfolding open_with
  open_isotp s = elim s.address [
    | none ↦ (ok false, s)
    | some address ↦ open_with address s.params s
  ]

  unfoldable pub close_isotp : IsoTp Bool
  unfolding on_can on_stack set_open pure
  close_isotp s =
      if s.is_open
      then (on_stack stack.stop
            >> on_stack stack.reset
            >> on_can (close_can bus)
            >> set_open false
            >> pure true)
          s
      else pure true s
