-- ===== src/IsoTp/Failure.antt =====
-- What a failed `open` of the ISO-TP communicator leaves behind, and the padding that is not set.
use cyclarity_in_vehicle_sdk.Prelude.{
  ℕ, zero, suc, ◌≡◌, ◌≢◌, ◌↔◌, refl, Bool, false, some, List, arith,
}
use cyclarity_in_vehicle_sdk.Python.{Exn, ok, raised, ◌>>=◌, ◌>>◌, runtime_error}
use cyclarity_in_vehicle_sdk.Can.{SocketcanBus, open_can, close_can, on_bus, set_bus}
use cyclarity_in_vehicle_sdk.IsoTp.{
  Address, Params, CanStack, IsoTpCommunicator, initial_params, on_can, on_stack, open_with,
  open_isotp, close_isotp,
}

-- The padding byte of the options is set exactly when it is not 0, although 0 is in its range.
initial_params-padding_iff :
    (b : ℕ) (bitrate_switch can_fd : Bool)
    → ((initial_params (some b) bitrate_switch can_fd).tx_padding ≡ some b) ↔ (b ≢ 0)
unfolding initial_params
initial_params-padding_iff zero bitrate_switch can_fd = (λ e. cc, λ h. absurd (h refl))
initial_params-padding_iff (suc b) bitrate_switch can_fd = (λ e. λ z. cc, λ h. ground arith)

module _ (bus : SocketcanBus) (stack : CanStack bus) where
  open bus use {Outside, connect}

  -- Closed, with an address.
  abbrev pub ready : List ℕ → Outside → Address → Params → IsoTpCommunicator bus stack
  ready blacklist_ids outside address params = record {
    can_communicator = record { is_set = false; blacklist_ids = blacklist_ids; outside = outside };
    is_open = false;
    address = some address;
    params = params;
  }

  -- Of a closed communicator with an address, over a CAN communicator that is closed too: if the bus
  -- opens but the making of the stack raises, `open` raises and the communicator cannot be opened
  -- again, since `close` does nothing and the next `open` raises RuntimeError.
  pub open_isotp-failed :
      (bl : List ℕ) (o : Outside) (a : Address) (p : Params) (e : Exn)
      → (connect o).0 ≡ ok tt
      → (stack.create a p (connect o).1).0 ≡ raised e
      → let (r, s) = open_isotp bus stack (ready bl o a p) in
        (r ≡ raised e)
        × (((close_isotp bus stack >> open_isotp bus stack) s).0 ≡ raised runtime_error)
  unfolding open_isotp open_with close_isotp on_can on_stack open_can close_can on_bus set_bus ◌>>=◌
  open_isotp-failed bl o a p e h k = rw (h, k) (refl, refl)
