-- ===== src/Uds/Sessions.antt =====
-- Sessions, security access and writing in `UdsUtils` of protocol/uds/impl/uds_utils.py.
pub mod Routes
pub mod Unlocking
use cyclarity_in_vehicle_sdk.Prelude.{
  ℕ, suc, ◌+◌, ◌*◌, ◌-◌, Bool, true, false, ◌&&◌, Option, none, some, List, [], ◌∷◌, ◌==◌, ltb, all,
  if◌then◌else◌,
}
use cyclarity_in_vehicle_sdk.Python.{
  Exn, Exec, Result, ok, raised, stuck, pure, raise, lift, try_except, ◌>>=◌, ◌>>◌, value_error,
}
use cyclarity_in_vehicle_sdk.Python.Number.{digit_value, is_space}
use cyclarity_in_vehicle_sdk.Uds.Model.{Request, Response}
use cyclarity_in_vehicle_sdk.Uds.Udsoncan.{UdsUtils, Udsoncan}
use cyclarity_in_vehicle_sdk.Uds.Security.{SecurityAlgorithm, ElevationInfo, SessionAccess, key_of}
use cyclarity_in_vehicle_sdk.Uds.Services.{Method, exchange, session}

abbrev prepend_byte : ℕ → Result (List ℕ) → Result (List ℕ)
prepend_byte b (ok bs) = ok (b ∷ bs)
prepend_byte b (raised e) = raised e
prepend_byte b stuck = stuck

-- `bytes.fromhex(text)`: pairs of digits, with spaces between the pairs.
unfoldable pub from_hex : List ℕ → Result (List ℕ)
unfolding digit_value is_space
from_hex [] = ok []
from_hex (c ∷ []) = if is_space c then ok [] else raised value_error
from_hex (c ∷ d ∷ cs) =
    let skipped = from_hex (d ∷ cs) in
    let rest = from_hex cs in
    if is_space c
    then skipped
    else if ltb (digit_value c) 16 && ltb (digit_value d) 16
    then prepend_byte (digit_value c * 16 + digit_value d) rest
    else raised value_error

-- `value: str | bytes` of `write_did`.
pub data DidValue : Type 0 where
  text bytes : List ℕ → DidValue

-- `encode` of `HexStringCodec` and of `RawBytesCodec`.
unfoldable pub encode_value : DidValue → Result (List ℕ)
unfolding from_hex
encode_value (text t) = from_hex t
encode_value (bytes b) = ok b

-- `security_level_echo == key_subfunction`
abbrev pub equals : ℕ → Option ℕ → Bool
equals n none = false
equals n (some m) = n == m

module _ (u : UdsUtils) where
  open u use {udsoncan}

  unfoldable pub write_did : ℕ → DidValue → ℕ → Method u Bool
  write_did did value timeout = do
    request ← lift (udsoncan.write_did_request did (encode_value value))
    response ← exchange u request timeout
    echo ← lift (udsoncan.did_echo response)
    pure (echo == did)

  -- What follows once the seed is not all zero.
  unfoldable pub send_key : SecurityAlgorithm → List ℕ → ℕ → Method u Bool
  send_key algorithm seed timeout = do
    session_key ← lift (key_of algorithm.kind seed)
    request ← lift (udsoncan.key_request algorithm.key_subfunction session_key)
    response ← exchange u request timeout
    echo ← lift (udsoncan.security_level_echo response)
    pure (equals echo algorithm.key_subfunction)

  unfoldable pub request_seed : SecurityAlgorithm → ℕ → Method u (List ℕ)
  request_seed algorithm timeout = do
    request ← lift (udsoncan.seed_request algorithm.seed_subfunction)
    response ← exchange u request timeout
    lift (udsoncan.seed response)

  unfoldable pub security_access : SecurityAlgorithm → ℕ → Method u Bool
  security_access algorithm timeout = do
    seed ← request_seed algorithm timeout
    if all (λ b. b == 0) seed then pure true else send_key algorithm seed timeout

  -- `except Exception`: the attempt to elevate is given up.
  unfoldable pub elevate : Option ElevationInfo → ℕ → Method u (Unit {0})
  elevate none timeout = pure tt
  elevate (some info) timeout = elim info.security_algorithm [
    | none ↦ pure tt
    | some algorithm ↦
        try_except (security_access algorithm timeout >>= λ unlocked. pure tt) (λ e. pure tt)
  ]

  -- One round of `transit_to_session`; an echo of another identifier is only logged.
  unfoldable pub enter : SessionAccess → ℕ → ℕ → Method u (Unit {0})
  enter target timeout standard_version = do
    echo ← session u target.id timeout standard_version
    elevate target.elevation_info timeout

  unfoldable pub transit_to_session : List SessionAccess → ℕ → ℕ → Method u Bool
  transit_to_session [] timeout standard_version = pure true
  transit_to_session (target ∷ rest) timeout standard_version = do
    entered ←
        try_except (enter target timeout standard_version >>= λ done. pure true) (λ e. pure false)
    if entered then transit_to_session rest timeout standard_version else pure false
