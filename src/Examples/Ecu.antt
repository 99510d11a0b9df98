-- ===== src/Examples/Ecu.antt =====
-- A small UDS codec and the scripts of an ECU, for the examples.
use cyclarity_in_vehicle_sdk.Prelude.{
  ℕ, ◌+◌, true, false, Option, none, some, List, [], ◌∷◌, ◌==◌, if◌then◌else◌,
}
use cyclarity_in_vehicle_sdk.Python.{Result, ok, raised, value_error, invalid_response}
use cyclarity_in_vehicle_sdk.Uds.Model.{Request, Response}
use cyclarity_in_vehicle_sdk.Uds.Client.Script.{Script, scripted}
use cyclarity_in_vehicle_sdk.Uds.Udsoncan.{Udsoncan, UdsUtils}

abbrev positive_response : ℕ → List ℕ → Response
positive_response id bytes = record {
  valid = true;
  positive = true;
  response_id = id;
  code = 0;
  payload = bytes;
}

abbrev negative_response_of : ℕ → ℕ → Response
negative_response_of id code = record {
  valid = true;
  positive = false;
  response_id = id;
  code = code;
  payload = [];
}

abbrev malformed_response : Response
malformed_response = record {
  valid = false;
  positive = false;
  response_id = 0;
  code = 0;
  payload = [];
}

-- 0x7f, the service and a code, or the service's response identifier and its data.
abbrev pub parse : List ℕ → Response
parse [] = malformed_response
parse (id ∷ []) = positive_response id []
parse (id ∷ a ∷ []) = positive_response id (a ∷ [])
parse (id ∷ a ∷ b ∷ rest) =
    if id == 0x7f then negative_response_of (a + 0x40) b else positive_response id (a ∷ b ∷ rest)

abbrev pub request_of : ℕ → List ℕ → Request
request_of sid bytes = record { payload = sid ∷ bytes; response_id = sid + 0x40 }

abbrev pub first_byte : Response → Result ℕ
first_byte r = elim r.payload [ [] ↦ raised invalid_response | b ∷ bs ↦ ok b ]

abbrev past_first : Response → Result (List ℕ)
past_first r = elim r.payload [ [] ↦ raised invalid_response | b ∷ bs ↦ ok bs ]

abbrev level_of : Option ℕ → ℕ
level_of none = 0
level_of (some n) = n

abbrev pub codec : Udsoncan
codec = record {
  from_payload = parse;
  session_request = λ id. ok (request_of 0x10 (id ∷ []));
  session_echo = λ v r. first_byte r;
  reset_request = λ t. ok (request_of 0x11 (t ∷ []));
  reset_type_echo = first_byte;
  read_dids_request = λ dids. ok (request_of 0x22 dids);
  routine_request = λ i t d. ok (request_of 0x31 (t ∷ i ∷ []));
  routine_data = λ r. ok r.payload;
  tester_present_request = ok (request_of 0x3e (0 ∷ []));
  subfunction_echo = first_byte;
  write_did_request = λ did v. v_request v;
  did_echo = first_byte;
  seed_request = λ level. ok (request_of 0x27 (level_of level ∷ []));
  seed = past_first;
  key_request = λ level key. ok (request_of 0x27 (level_of level ∷ key));
  security_level_echo = first_byte;
  download_request = λ a m f g e. ok (request_of 0x34 []);
  max_length = first_byte;
  transfer_request = λ seq d. ok (request_of 0x36 (seq ∷ d));
  sequence_number_echo = first_byte;
  exit_request = λ d. ok (request_of 0x37 []);
  parameter_records = λ r. ok r.payload;
  dtc_request = λ q. ok (request_of 0x19 []);
  dtc_data = λ s v r. ok r.payload;
  clear_request = λ g m v. ok (request_of 0x14 []);
  clear_response = λ r. ok tt;
  raw_request = λ sid sub f d. ok (request_of sid []);
  authentication_request = λ t. ok (request_of 0x29 []);
  authentication_data = λ r. raised value_error;
}
  where
    v_request : Result (List ℕ) → Result Request
    v_request v = ok (request_of 0x2e [])

-- `UdsUtils` with two attempts over a scripted link.
abbrev pub utils : UdsUtils
utils = record { data_link_layer = scripted; attempts = 2; udsoncan = codec; fuel = 10 }

abbrev pub script : List (List ℕ) → Script
script inbox = record { inbox = inbox; sent = [] }
