-- ===== src/Uds/Client/Answers.antt =====
-- Which responses the client hands to its caller, whatever the link does.
use cyclarity_in_vehicle_sdk.Prelude.{
  ℕ, zero, suc, ◌-◌, ◌≡◌, refl, true, false, not, some, List, ltb, arith, length,
}
use cyclarity_in_vehicle_sdk.Python.{Exec}
use cyclarity_in_vehicle_sdk.Python.Ensures.{
  Ensures, Ensures-pure, Ensures-raise, Ensures-diverge, Ensures-if, Ensures-bind, Anything,
  Ensures-Anything,
}
use cyclarity_in_vehicle_sdk.Communicator.{Communicator}
use cyclarity_in_vehicle_sdk.Uds.Model.{Request, Response}
use cyclarity_in_vehicle_sdk.Uds.Client.{
  Verdict, malformed, foreign, pending, answer, judge, Locals, Attempt, answered, gave_up, is_falsy,
  read_clock, after_response, read_loop, conclude, attempts_loop, send_and_read_response,
}

-- A valid response of the service that was asked.
abbrev pub Matches : Request → Response → Type 0
Matches request r = (r.valid ≡ true) × (r.response_id ≡ request.response_id)

judge-answer : (request : Request) (r : Response) → judge request r ≡ answer → Matches request r
unfolding judge
judge-answer request r h = ground arith

judge-pending : (request : Request) (r : Response) → judge request r ≡ pending → Matches request r
unfolding judge
judge-pending request r h = ground arith

-- Where `conclude` would return a response, that response matches.
abbrev Sound : Request → Locals → Type 0
Sound request l =
    is_falsy l.raw_response ≡ false → (r : Response) × (l.response ≡ some r) × Matches request r

abbrev SoundAttempt : Request → Attempt → Type 0
SoundAttempt request (answered r) = Matches request r
SoundAttempt request (gave_up l) = Sound request l

module _ (link : Communicator) (from_payload : List ℕ → Response) where
  open link use {State}

  abbrev loop : ℕ → Request → ℕ → Locals → Exec State Attempt
  loop = read_loop link from_payload

  after_response-Sound :
      (rest : ℕ → Locals → Exec State Attempt) (request : Request) (start : ℕ) (l : Locals)
      (raw : List ℕ) (v : Verdict)
      → judge request (from_payload raw) ≡ v
      → ((start' : ℕ) (l' : Locals)
          → Sound request l'
          → Ensures (SoundAttempt request) Anything (rest start' l'))
      → Ensures
          (SoundAttempt request)
          Anything
          (after_response link from_payload rest start l raw (from_payload raw) v)
  unfolding after_response
  after_response-Sound rest request start l raw malformed e h = Ensures-raise _ tt
  after_response-Sound rest request start l raw foreign e h = h start _ (λ p. cc)
  after_response-Sound rest request start l raw pending e h =
      Ensures-bind Anything (read_clock link from_payload) _ (Ensures-Anything _)
        λ start' _. h start' _ (λ p. (_, refl, judge-pending request _ e))
  after_response-Sound rest request start l raw answer e h =
      Ensures-pure _ (judge-answer request _ e)

  read_loop-Sound :
      (fuel : ℕ) (request : Request) (start : ℕ) (l : Locals)
      → Sound request l
      → Ensures (SoundAttempt request) Anything (loop fuel request start l)
  unfolding read_loop
  read_loop-Sound zero request start l h = Ensures-diverge
  read_loop-Sound (suc fuel) request start l h =
      Ensures-bind Anything _ _ (Ensures-Anything _) λ now _.
        Ensures-if (ltb l.timeout (now - start)) _ _ (λ late. Ensures-pure _ h)
          λ in_time. Ensures-bind Anything _ _ (Ensures-Anything _) λ raw _.
            Ensures-if (is_falsy (some raw)) _ _ (λ empty. Ensures-pure _ (λ p. cc empty))
              λ arrived.
                after_response-Sound (loop fuel request) request start l raw _ refl
                  (read_loop-Sound fuel request)

  conclude-Sound :
      (request : Request) (l : Locals)
      → Sound request l
      → Ensures (Matches request) Anything (conclude link from_payload l)
  unfolding conclude
  conclude-Sound request l h =
      Ensures-if (is_falsy l.raw_response) _ _ (λ falsy. Ensures-raise _ tt)
        λ truthy. let (r, e, m) = h truthy in rw e (Ensures-pure r m)

  attempts_loop-Sound :
      (fuel n : ℕ) (request : Request) (l : Locals)
      → Sound request l
      → Ensures (Matches request) Anything (attempts_loop link from_payload fuel n request l)
  unfolding attempts_loop
  attempts_loop-Sound fuel zero request l h = conclude-Sound request l h
  attempts_loop-Sound fuel (suc n) request l h =
      Ensures-bind Anything _ _ (Ensures-Anything _) λ sent _.
        Ensures-if (ltb sent (length request.payload)) _ _ (λ short. Ensures-raise _ tt)
          λ whole. Ensures-bind Anything _ _ (Ensures-Anything _) λ start _.
            Ensures-bind (SoundAttempt request) _ _ (read_loop-Sound fuel request start l h) (elim [
              | answered r ↦ λ m. Ensures-pure r m
              | gave_up l' ↦ λ h'. attempts_loop-Sound fuel n request l' h'
            ])

  -- Whatever the link and the clock do, a response that `_send_and_read_response` returns is valid,
  -- positive, and of the service that was asked.
  pub send_and_read_response-Matches :
      (fuel attempts : ℕ) (request : Request) (timeout : ℕ)
      → Ensures
          (λ r. Matches request r × (r.positive ≡ true))
          Anything
          (send_and_read_response link from_payload fuel attempts request timeout)
  unfolding send_and_read_response
  send_and_read_response-Matches fuel attempts request timeout =
      Ensures-bind (Matches request) _ _ (attempts_loop-Sound fuel attempts request _ (λ p. cc))
        λ r m.
          Ensures-if (not r.positive) _ _ (λ negative. Ensures-raise _ tt)
            λ positive. Ensures-pure r (m, ground arith)
