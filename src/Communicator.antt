-- ===== src/Communicator.antt =====
-- communication/base/communicator_base.py: what a protocol utility uses of a communicator, with the
-- clock that the utilities read. Times are natural numbers of milliseconds.
use cyclarity_in_vehicle_sdk.Prelude.{ℕ, Bool, List}
use cyclarity_in_vehicle_sdk.Python.{Exec}

pub record Communicator : Type 1 where
  pub State : Type 0
  pub open_channel : Exec State Bool
  pub close_channel : Exec State Bool
  pub send : List ℕ → ℕ → Exec State ℕ
  pub recv : ℕ → Exec State (List ℕ)
  pub time : State → ℕ × State
