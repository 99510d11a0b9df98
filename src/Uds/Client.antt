-- ===== src/Uds/Client.antt =====
-- `UdsUtils._send_and_read_raw_response` and `_send_and_read_response` of
-- protocol/uds/impl/uds_utils.py, over any communicator. `from_payload` is udsoncan's parser.
pub mod Answers
pub mod Script
pub mod Termination
pub mod Delivery
use cyclarity_in_vehicle_sdk.Prelude.{
  ℕ, zero, suc, ◌-◌, Bool, true, false, not, ◌&&◌, Option, none, some, List, [], ◌∷◌, ltb, ◌==◌,
  if◌then◌else◌, length,
}
use cyclarity_in_vehicle_sdk.Python.{
  Exec, Result, ok, raised, stuck, pure, raise, diverge, ◌>>=◌, runtime_error, generic_error,
  no_response, invalid_response, negative_response,
}
use cyclarity_in_vehicle_sdk.Communicator.{Communicator}
use cyclarity_in_vehicle_sdk.Uds.Model.{
  Request, Response, default_uds_pending_timeout, response_pending,
}

-- What the loop body makes of a response that arrived.
pub data Verdict : Type 0 where
  malformed foreign pending answer : Verdict

unfoldable pub judge : Request → Response → Verdict
judge request r =
    if not r.valid
    then malformed
    else if not (r.response_id == request.response_id)
    then foreign
    else if not r.positive && (r.code == response_pending)
    then pending
    else answer

-- The local variables that live across rounds and attempts; `response` is unbound at first.
pub record Locals : Type 0 where
  pub raw_response : Option (List ℕ)
  pub response : Option Response
  pub timeout : ℕ

-- How an attempt ends: by `return response`, or by `break`.
pub data Attempt : Type 0 where
  answered : Response → Attempt
  gave_up : Locals → Attempt

-- `not raw_response`
abbrev pub is_falsy : Option (List ℕ) → Bool
is_falsy none = true
is_falsy (some []) = true
is_falsy (some (b ∷ bs)) = false

module _ (link : Communicator) (from_payload : List ℕ → Response) where
  open link use {State, send, recv, time}

  unfoldable pub read_clock : Exec State ℕ
  read_clock s = let (t, s') = time s in (ok t, s')

  -- What a round does with a response; `rest` is the loop from its next round on.
  unfoldable pub after_response :
      (ℕ → Locals → Exec State Attempt)
      → ℕ
      → Locals
      → List ℕ
      → Response
      → Verdict
      → Exec State Attempt
  after_response rest start l raw r malformed = raise invalid_response
  after_response rest start l raw r foreign =
      rest start (record l { raw_response = none; response = some r })
  after_response rest start l raw r pending = do
    start' ← read_clock
    rest start' (record {
      raw_response = some raw;
      response = some r;
      timeout = default_uds_pending_timeout;
    })
  after_response rest start l raw r answer = pure (answered r)

  -- One round of `while True`.
  unfoldable pub round :
      (ℕ → Locals → Exec State Attempt) → Request → ℕ → Locals → Exec State Attempt
  unfolding read_clock after_response
  round rest request start l = do
    now ← read_clock
    if ltb l.timeout (now - start) then pure (gave_up l) else do
      raw ← recv l.timeout
      if is_falsy (some raw)
          then pure (gave_up (record l { raw_response = some raw }))
          else let r = from_payload raw in after_response rest start l raw r (judge request r)

  -- `while True`, one round for each unit of fuel.
  unfoldable pub read_loop : ℕ → Request → ℕ → Locals → Exec State Attempt
  unfolding round
  read_loop zero request start l = diverge
  read_loop (suc fuel) request start l = round (read_loop fuel request) request start l

  -- What stands behind the loop over the attempts.
  unfoldable pub conclude : Locals → Exec State Response
  conclude l =
      if is_falsy l.raw_response
      then raise no_response
      else elim l.response [ none ↦ raise generic_error | some r ↦ pure r ]

  -- One attempt; `rest` is the loop from the next attempt on.
  unfoldable pub attempt :
      (Locals → Exec State Response) → ℕ → Request → Locals → Exec State Response
  unfolding read_clock read_loop
  attempt rest fuel request l = do
    sent ← send request.payload l.timeout
    if ltb sent (length request.payload) then raise runtime_error else do
      start ← read_clock
      outcome ← read_loop fuel request start l
      elim outcome [ answered r ↦ pure r | gave_up l' ↦ rest l' ]

  -- `for i in range(self.attempts)`, with the attempts that are left.
  unfoldable pub attempts_loop : ℕ → ℕ → Request → Locals → Exec State Response
  unfolding conclude attempt
  attempts_loop fuel zero request l = conclude l
  attempts_loop fuel (suc n) request l = attempt (attempts_loop fuel n request) fuel request l

  unfoldable pub send_and_read_raw_response : ℕ → ℕ → Request → ℕ → Exec State Response
  unfolding attempts_loop
  send_and_read_raw_response fuel attempts request timeout =
      attempts_loop fuel attempts request
        (record { raw_response = none; response = none; timeout = timeout })

  unfoldable pub send_and_read_response : ℕ → ℕ → Request → ℕ → Exec State Response
  unfolding send_and_read_raw_response
  send_and_read_response fuel attempts request timeout = do
    response ← send_and_read_raw_response fuel attempts request timeout
    if not response.positive then raise (negative_response response.code) else pure response
