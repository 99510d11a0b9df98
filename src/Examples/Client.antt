-- ===== src/Examples/Client.antt =====
-- The client's reading loops at concrete scripts.
use cyclarity_in_vehicle_sdk.Prelude.{
  ℕ, ◌≤◌, ◌<◌, ◌≡◌, ◌≢◌, refl, true, List, [], ◌∷◌, length, arith,
}
use cyclarity_in_vehicle_sdk.Python.{ok, raised, stuck, ◌>>=◌, no_response}
use cyclarity_in_vehicle_sdk.Uds.Model.{Request}
use cyclarity_in_vehicle_sdk.Uds.Client.{send_and_read_response, send_and_read_raw_response, judge}
use cyclarity_in_vehicle_sdk.Uds.Client.Answers.{Matches, send_and_read_response-Matches}
use cyclarity_in_vehicle_sdk.Uds.Client.Script.{
  Script, scripted, next, scan, scan_response, expected, send_and_read_raw_response-expected,
}
use cyclarity_in_vehicle_sdk.Uds.Client.Termination.{IsFinite, send_and_read_response_ends}
use cyclarity_in_vehicle_sdk.Uds.Services.{exchange, transfer_data, ecu_reset}
use cyclarity_in_vehicle_sdk.Uds.Services.Confirmed.{
  Confirms, transfer_data-Confirms, ecu_reset-Confirms,
}
use cyclarity_in_vehicle_sdk.Examples.Ecu.{parse, request_of, codec, utils, script}

-- A silent wait, a foreign response, a pending one, and the answer.
abbrev busy : List (List ℕ)
busy = [] ∷ (0x62 ∷ 1 ∷ []) ∷ (0x7f ∷ 0x3e ∷ 0x78 ∷ []) ∷ (0x7e ∷ 0 ∷ []) ∷ (0x7e ∷ 1 ∷ []) ∷ []

abbrev present : Request
present = request_of 0x3e (0 ∷ [])

send_and_read_response-Matches_example : Matches present (parse (0x7e ∷ 0 ∷ [])) × (true ≡ true)
unfolding send_and_read_response judge ◌>>=◌
send_and_read_response-Matches_example =
    (send_and_read_response-Matches scripted parse 10 2 present 2000).at (script busy)

send_and_read_raw_response-expected_example :
    send_and_read_raw_response scripted parse 10 2 present 2000 (script busy) ≡ (
      ok (parse (0x7e ∷ 0 ∷ [])),
      record { inbox = (0x7e ∷ 1 ∷ []) ∷ []; sent = (0x3e ∷ 0 ∷ []) ∷ (0x3e ∷ 0 ∷ []) ∷ [] },
    )
unfolding expected scan scan_response judge
send_and_read_raw_response-expected_example =
    send_and_read_raw_response-expected parse present 10 2 2000 (script busy) (omega arith)

-- The scripted link delivers no more than its script.
next_le : (inbox sent : List (List ℕ)) → length (next inbox sent).1.inbox ≤ length inbox
next_le [] sent = omega arith
next_le (x ∷ xs) sent = omega arith

next_ends : (inbox sent : List (List ℕ)) → (next inbox sent).0 ≢ stuck
next_ends [] sent = λ e. cc
next_ends (x ∷ xs) sent = λ e. cc

next_lt :
    (inbox sent : List (List ℕ)) (b : ℕ) (bs : List ℕ)
    → (next inbox sent).0 ≡ ok (b ∷ bs)
    → length (next inbox sent).1.inbox < length inbox
next_lt [] sent b bs h = cc
next_lt (x ∷ xs) sent b bs h = omega arith

scripted-IsFinite : IsFinite scripted
scripted-IsFinite = record {
  backlog = λ s. length s.inbox;
  send_ends = λ p t s e. cc;
  send_le = λ p t s. omega arith;
  recv_ends = λ t s. next_ends s.inbox s.sent;
  recv_le = λ t s. next_le s.inbox s.sent;
  recv_lt = λ t s. next_lt s.inbox s.sent;
  time_le = λ s. omega arith;
}

send_and_read_response_ends_example :
    let (r, s') = send_and_read_response scripted parse 10 2 present 2000 (script busy) in
    (r ≢ stuck) × (length s'.inbox ≤ 5)
unfolding scripted-IsFinite
send_and_read_response_ends_example =
    send_and_read_response_ends scripted parse scripted-IsFinite 10 2 present 2000 (script busy)
      (omega arith)

silent :
    (send_and_read_raw_response scripted parse 10 2 present 2000 (script ([] ∷ []))).0
    ≡ raised no_response
unfolding send_and_read_raw_response judge ◌>>=◌
silent = refl

abbrev block : List (List ℕ)
block = (0x76 ∷ 7 ∷ []) ∷ []

transfer_data-Confirms_example :
    Confirms utils
      (codec.transfer_request 7 (1 ∷ 2 ∷ []))
      codec.sequence_number_echo
      7
      (script block)
      (transfer_data utils 7 (1 ∷ 2 ∷ []) 2000 (script block)).1
unfolding transfer_data exchange send_and_read_response judge ◌>>=◌
transfer_data-Confirms_example = transfer_data-Confirms utils 7 (1 ∷ 2 ∷ []) 2000 (script block)

abbrev reset_answer : Script
reset_answer = script ((0x51 ∷ 1 ∷ []) ∷ [])

ecu_reset-Confirms_example :
    Confirms utils
      (codec.reset_request 1)
      codec.reset_type_echo
      1
      reset_answer
      (ecu_reset utils 1 2000 reset_answer).1
unfolding ecu_reset exchange send_and_read_response judge ◌>>=◌
ecu_reset-Confirms_example = ecu_reset-Confirms utils 1 2000 reset_answer refl
