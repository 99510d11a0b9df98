-- ===== src/Uds/Authentication.antt =====
-- `UdsUtils.authentication` and its parts in protocol/uds/impl/uds_utils.py, with the parameters of
-- protocol/uds/models/uds_models.py. `sign` is the signature library under the caller's key.
use cyclarity_in_vehicle_sdk.Prelude.{
  ℕ, Bool, true, false, not, List, [], ◌∷◌, ◌==◌, any, if◌then◌else◌,
}
use cyclarity_in_vehicle_sdk.Python.{
  Result, ok, raised, raise, lift, ◌>>=◌, invalid_response, value_error, not_implemented_error,
}
use cyclarity_in_vehicle_sdk.Uds.Udsoncan.{
  UdsUtils, AuthenticationData, AuthenticationTask, transmit_certificate, de_authenticate,
  authentication_configuration, verify_certificate_unidirectional, proof_of_ownership,
}
use cyclarity_in_vehicle_sdk.Uds.Services.{Method, exchange}

-- The subclasses of `AuthenticationParamsBase`, and the two actions that no subclass has.
pub data AuthenticationParams : Type 0 where
  unidirectional : ℕ → List ℕ → AuthenticationParams
  bidirectional challenge_response configuration de_authentication : AuthenticationParams
  transmit : ℕ → List ℕ → AuthenticationParams

-- `AuthenticationReturnParameter(value)`, which refuses a value that is no member.
unfoldable pub return_parameter : ℕ → Result ℕ
return_parameter value =
    if any (λ code. code == value)
      (0x00 ∷ 0x01 ∷ 0x02 ∷ 0x03 ∷ 0x04 ∷ 0x10 ∷ 0x11 ∷ 0x12 ∷ 0x13 ∷ [])
    then ok value
    else raised value_error

abbrev is_empty : List ℕ → Bool
is_empty [] = true
is_empty (b ∷ bs) = false

module _ (u : UdsUtils) (sign : List ℕ → Result (List ℕ)) where
  open u use {udsoncan}

  unfoldable pub perform : AuthenticationTask → ℕ → Method u AuthenticationData
  perform task timeout = do
    request ← lift (udsoncan.authentication_request task)
    response ← exchange u request timeout
    lift (udsoncan.authentication_data response)

  unfoldable pub perform_and_return : AuthenticationTask → ℕ → Method u ℕ
  unfolding perform return_parameter
  perform_and_return task timeout = do
    answer ← perform task timeout
    lift (return_parameter answer.return_value)

  -- `_authentication_uni_certificate_exchange`
  unfoldable pub exchange_certificate : ℕ → List ℕ → ℕ → Method u ℕ
  unfolding perform perform_and_return
  exchange_certificate communication_configuration certificate_client timeout = do
    answer ←
        perform (verify_certificate_unidirectional communication_configuration certificate_client)
          timeout
    if is_empty answer.challenge_server
        then raise invalid_response
        else if not (is_empty answer.ephemeral_public_key_server)
        then raise not_implemented_error
        else do
          signature ← lift (sign answer.challenge_server)
          perform_and_return (proof_of_ownership signature) timeout

  unfoldable pub authentication : AuthenticationParams → ℕ → Method u ℕ
  unfolding exchange_certificate perform_and_return
  authentication configuration timeout = perform_and_return authentication_configuration timeout
  authentication (unidirectional config certificate) timeout =
      exchange_certificate config certificate timeout
  authentication bidirectional timeout = raise not_implemented_error
  authentication challenge_response timeout = raise not_implemented_error
  authentication de_authentication timeout = perform_and_return de_authenticate timeout
  authentication (transmit evaluation_id certificate) timeout =
      perform_and_return (transmit_certificate evaluation_id certificate) timeout
