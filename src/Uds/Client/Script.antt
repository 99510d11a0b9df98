-- ===== src/Uds/Client/Script.antt =====
-- The client over a link that plays a script, and what it must then return: a description that
-- knows nothing of the client's loops.
use cyclarity_in_vehicle_sdk.Prelude.{
  ℕ, zero, suc, Bool, not, ◌&&◌, ◌||◌, ◌==◌, if◌then◌else◌, ◌<◌, ◌≤◌, ◌≡◌, refl, true, false, List,
  [], ◌∷◌, ltb, arith, length,
}
use cyclarity_in_vehicle_sdk.Python.{
  Exec, Result, ok, raised, pure, continue, ◌>>=◌, no_response, invalid_response,
}
use cyclarity_in_vehicle_sdk.Communicator.{Communicator}
use cyclarity_in_vehicle_sdk.Uds.Model.{Request, Response}
use cyclarity_in_vehicle_sdk.Uds.Client.{
  Verdict, malformed, foreign, pending, answer, judge, Locals, Attempt, answered, gave_up, is_falsy,
  read_clock, after_response, read_loop, attempts_loop, send_and_read_raw_response,
}

-- The receptions to come, an empty one for each time that a wait runs out, and what was sent.
pub record Script : Type 0 where
  pub inbox : List (List ℕ)
  pub sent : List (List ℕ)

abbrev pub next : List (List ℕ) → List (List ℕ) → Result (List ℕ) × Script
next [] sent = (ok [], record { inbox = []; sent = sent })
next (raw ∷ rest) sent = (ok raw, record { inbox = rest; sent = sent })

-- Every request is sent whole, and no time passes.
abbrev pub scripted : Communicator
scripted = record {
  State = Script;
  open_channel = λ s. (ok true, s);
  close_channel = λ s. (ok true, s);
  send = λ p t s. (ok (length p), record s { sent = p ∷ s.sent });
  recv = λ t s. next s.inbox s.sent;
  time = λ s. (0, s);
}

module _ (from_payload : List ℕ → Response) (request : Request) where
  -- How one attempt ends, with the receptions that it leaves.
  pub data Scan : Type 0 where
    hit : Response → List (List ℕ) → Scan
    broken silent : List (List ℕ) → Scan

  abbrev pub scan_verdict : Verdict → Response → List (List ℕ) → Scan → Scan
  scan_verdict malformed r rest later = broken rest
  scan_verdict foreign r rest later = later
  scan_verdict pending r rest later = later
  scan_verdict answer r rest later = hit r rest

  -- The response ends the attempt where it is malformed, and is returned where it is of the service
  -- that was asked and does not ask for patience; any other is passed over.
  unfoldable pub scan_response : Response → List (List ℕ) → Scan → Scan
  scan_response r rest later =
      if not r.valid
      then broken rest
      else if (r.response_id == request.response_id) && (r.positive || not (r.code == 0x78))
      then hit r rest
      else later

  scan_response-verdict :
      (r : Response) (rest : List (List ℕ)) (later : Scan)
      → scan_response r rest later ≡ scan_verdict (judge request r) r rest later
  unfolding scan_response judge
  scan_response-verdict r rest later =
      cases r.valid (r.response_id == request.response_id) r.positive (r.code == 0x78)
    where
      cases :
          (valid same positive code : Bool)
          → (if not valid
              then broken rest
              else if same && (positive || not code)
              then hit r rest
              else later)
            ≡ scan_verdict
                (if not valid
                  then malformed
                  else if not same
                  then foreign
                  else if not positive && code
                  then pending
                  else answer)
                r
                rest
                later
      cases false same positive code = refl
      cases true false positive code = refl
      cases true true true code = refl
      cases true true false true = refl
      cases true true false false = refl

  -- Up to the first reception that is an answer, is malformed, or is empty.
  unfoldable pub scan : List (List ℕ) → Scan
  scan [] = silent []
  scan ([] ∷ rest) = silent rest
  scan ((b ∷ bs) ∷ rest) = scan_response (from_payload (b ∷ bs)) rest (scan rest)

  abbrev Meets : List (List ℕ) → Scan → Result Attempt × Script → Type 0
  Meets sent (hit r rest) p = p ≡ (ok (answered r), record { inbox = rest; sent = sent })
  Meets sent (broken rest) p = p ≡ (raised invalid_response, record { inbox = rest; sent = sent })
  Meets sent (silent rest) p =
      (l : Locals) × (is_falsy l.raw_response ≡ true)
      × (p ≡ (ok (gave_up l), record { inbox = rest; sent = sent }))

  after_response-Meets :
      (rest : ℕ → Locals → Exec Script Attempt) (l : Locals) (raw : List ℕ) (r : Response)
      (v : Verdict) (inbox sent : List (List ℕ)) (later : Scan)
      → ((l' : Locals) → Meets sent later (rest 0 l' (record { inbox = inbox; sent = sent })))
      → Meets sent (scan_verdict v r inbox later) (
          after_response scripted from_payload rest 0 l raw r v
            (record { inbox = inbox; sent = sent }))
  unfolding after_response ◌>>=◌ read_clock
  after_response-Meets rest l raw r malformed inbox sent later h = refl
  after_response-Meets rest l raw r foreign inbox sent later h = h _
  after_response-Meets rest l raw r pending inbox sent later h = h _
  after_response-Meets rest l raw r answer inbox sent later h = refl

  ltb-zero : (t : ℕ) → ltb t 0 ≡ false
  ltb-zero t = ground arith

  read_loop-Meets :
      (fuel : ℕ) (l : Locals) (inbox sent : List (List ℕ))
      → length inbox < fuel
      → Meets sent
          (scan inbox)
          (read_loop scripted from_payload fuel request 0 l (record { inbox = inbox; sent = sent }))
  unfolding read_loop scan ◌>>=◌ read_clock
  read_loop-Meets zero l inbox sent h = absurd (omega arith)
  read_loop-Meets (suc fuel) l [] sent h = rw (ltb-zero l.timeout) (_, refl, refl)
  read_loop-Meets (suc fuel) l ([] ∷ rest) sent h = rw (ltb-zero l.timeout) (_, refl, refl)
  read_loop-Meets (suc fuel) l ((b ∷ bs) ∷ rest) sent h =
      rw (ltb-zero l.timeout, scan_response-verdict (from_payload (b ∷ bs)) rest (scan rest))
        (after_response-Meets (read_loop scripted from_payload fuel request) l (b ∷ bs) _ _ rest
          sent (scan rest) λ l'. read_loop-Meets fuel l' rest sent (omega arith))

  abbrev left : Scan → List (List ℕ)
  left (hit r rest) = rest
  left (broken rest) = rest
  left (silent rest) = rest

  left_verdict :
      (v : Verdict) (r : Response) (rest : List (List ℕ)) (later : Scan)
      → length (left later) ≤ length rest
      → length (left (scan_verdict v r rest later)) ≤ length rest
  left_verdict malformed r rest later h = omega arith
  left_verdict foreign r rest later h = h
  left_verdict pending r rest later h = h
  left_verdict answer r rest later h = omega arith

  left-scan : (inbox : List (List ℕ)) → length (left (scan inbox)) ≤ length inbox
  unfolding scan
  left-scan [] = omega arith
  left-scan ([] ∷ rest) = omega arith
  left-scan ((b ∷ bs) ∷ rest) =
      rw (scan_response-verdict (from_payload (b ∷ bs)) rest (scan rest))
        (omega (arith, left_verdict (judge request _) _ rest (scan rest) (left-scan rest)))

  -- The requests that go out, one for each attempt, until one is answered or met by a malformed
  -- response.
  unfoldable pub expected : ℕ → List (List ℕ) → List (List ℕ) → Result Response × Script
  expected zero inbox sent = (raised no_response, record { inbox = inbox; sent = sent })
  expected (suc n) inbox sent = elim (scan inbox) [
    | hit r rest ↦ (ok r, record { inbox = rest; sent = request.payload ∷ sent })
    | broken rest ↦
        (raised invalid_response, record { inbox = rest; sent = request.payload ∷ sent })
    | silent rest ↦ expected n rest (request.payload ∷ sent)
  ]

  abbrev run : ℕ → ℕ → Locals → List (List ℕ) → List (List ℕ) → Result Response × Script
  run fuel n l inbox sent =
      attempts_loop scripted from_payload fuel n request l (record { inbox = inbox; sent = sent })

  abbrev settle : ℕ → ℕ → Attempt → Exec Script Response
  settle fuel n outcome = elim outcome [
    | answered r ↦ pure r
    | gave_up l' ↦ attempts_loop scripted from_payload fuel n request l'
  ]

  settle-expected :
      (fuel n : ℕ) (v : Scan) (sent : List (List ℕ)) (p : Result Attempt × Script)
      → Meets sent v p
      → ((l : Locals)
          → is_falsy l.raw_response ≡ true
          → run fuel n l (left v) sent ≡ expected n (left v) sent)
      → continue p.0 (settle fuel n) p.1 ≡ elim v [
        | hit r rest ↦ (ok r, record { inbox = rest; sent = sent })
        | broken rest ↦ (raised invalid_response, record { inbox = rest; sent = sent })
        | silent rest ↦ expected n rest sent
      ]
  unfolding pure
  settle-expected fuel n (hit r rest) sent p m h = rw m
  settle-expected fuel n (broken rest) sent p m h = rw m
  settle-expected fuel n (silent rest) sent p (l, falsy, m) h = rw m (h l falsy)

  ltb_irrefl : (t : ℕ) → ltb t t ≡ false
  ltb_irrefl t = ground arith

  attempts_loop-expected :
      (fuel n : ℕ) (l : Locals) (inbox sent : List (List ℕ))
      → length inbox < fuel
      → is_falsy l.raw_response ≡ true
      → run fuel n l inbox sent ≡ expected n inbox sent
  unfolding attempts_loop expected ◌>>=◌
  attempts_loop-expected fuel zero l inbox sent h falsy = rw falsy
  attempts_loop-expected fuel (suc n) l inbox sent h falsy =
      rw (ltb_irrefl (length request.payload)) (
        settle-expected fuel n (scan inbox) (request.payload ∷ sent) _
          (read_loop-Meets fuel l inbox (request.payload ∷ sent) h)
          λ l' falsy'. attempts_loop-expected fuel n l' _ _ (omega (arith, left-scan inbox)) falsy')

  -- Over a link that sends every request whole, plays a script of receptions and on which no time
  -- passes, and with fuel beyond the script, `_send_and_read_raw_response` returns, raises, sends and
  -- reads exactly as `expected` says: responses of another service and pending ones are skipped, the
  -- first other valid response is returned, a malformed one raises, and each silent wait costs one
  -- attempt. What a timeout does that runs out between two receptions is not said.
  pub send_and_read_raw_response-expected :
      (fuel attempts timeout : ℕ) (s : Script)
      → length s.inbox < fuel
      → send_and_read_raw_response scripted from_payload fuel attempts request timeout s
        ≡ expected attempts s.inbox s.sent
  unfolding send_and_read_raw_response
  send_and_read_raw_response-expected fuel attempts timeout s h =
      attempts_loop-expected fuel attempts _ s.inbox s.sent h refl
