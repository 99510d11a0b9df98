-- ===== src/IsoTp/Reached.antt =====
-- The states that a program can bring an ISO-TP communicator to, in whatever order it calls it.
use cyclarity_in_vehicle_sdk.Prelude.{ℕ, Bool, false, Option, some, List, []}
use cyclarity_in_vehicle_sdk.Can.{SocketcanBus}
use cyclarity_in_vehicle_sdk.IsoTp.{
  Address, CanStack, IsoTpCommunicator, initial_address, initial_params, set_address, send_isotp,
  recv_isotp, open_isotp, close_isotp,
}
use cyclarity_in_vehicle_sdk.IsoTp.Lifecycle.{
  IsGrounded, keeps_ground, set_address-Grounded, send_isotp-Grounded, recv_isotp-Grounded,
  open_isotp-Grounded, close_isotp-Grounded,
}

module _ (bus : SocketcanBus) (stack : CanStack bus) where
  open bus use {Outside}

  -- As `model_post_init` leaves it, over a CAN communicator that has not been opened.
  abbrev pub new : ℕ → ℕ → Option ℕ → Bool → Bool → Outside → IsoTpCommunicator bus stack
  new rxid txid padding_byte bitrate_switch can_fd outside = record {
    can_communicator = record { is_set = false; blacklist_ids = []; outside = outside };
    is_open = false;
    address = some (initial_address rxid txid);
    params = initial_params padding_byte bitrate_switch can_fd;
  }

  -- By calls, each of which may have raised.
  pub data Reached : IsoTpCommunicator bus stack → Type 0 where
    created :
        (rxid txid : ℕ) (padding_byte : Option ℕ) (bitrate_switch can_fd : Bool) (o : Outside)
        → Reached (new rxid txid padding_byte bitrate_switch can_fd o)
    after_set_address :
        (a : Address) (s : IsoTpCommunicator bus stack)
        → Reached s
        → Reached (set_address bus stack a s).1
    after_open : (s : IsoTpCommunicator bus stack) → Reached s → Reached (open_isotp bus stack s).1
    after_send :
        (bytes : List ℕ) (timeout : ℕ) (s : IsoTpCommunicator bus stack)
        → Reached s
        → Reached (send_isotp bus stack bytes timeout s).1
    after_recv :
        (timeout : ℕ) (s : IsoTpCommunicator bus stack)
        → Reached s
        → Reached (recv_isotp bus stack timeout s).1
    after_close :
        (s : IsoTpCommunicator bus stack) → Reached s → Reached (close_isotp bus stack s).1

  -- In every state that calls lead to, those that raised included, a communicator that holds itself
  -- for open stands on a CAN communicator whose bus is set.
  pub Reached-IsGrounded : (s : IsoTpCommunicator bus stack) → Reached s → IsGrounded bus stack s
  Reached-IsGrounded _ (created rxid txid padding_byte bitrate_switch can_fd o) = λ e. cc
  Reached-IsGrounded _ (after_set_address a s h) =
      keeps_ground bus stack (set_address-Grounded bus stack a) s (Reached-IsGrounded s h)
  Reached-IsGrounded _ (after_open s h) =
      keeps_ground bus stack (open_isotp-Grounded bus stack) s (Reached-IsGrounded s h)
  Reached-IsGrounded _ (after_send bytes timeout s h) =
      keeps_ground bus stack (send_isotp-Grounded bus stack bytes timeout) s
        (Reached-IsGrounded s h)
  Reached-IsGrounded _ (after_recv timeout s h) =
      keeps_ground bus stack (recv_isotp-Grounded bus stack timeout) s (Reached-IsGrounded s h)
  Reached-IsGrounded _ (after_close s h) =
      keeps_ground bus stack (close_isotp-Grounded bus stack) s (Reached-IsGrounded s h)
