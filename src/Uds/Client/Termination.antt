-- ===== src/Uds/Client/Termination.antt =====
-- The client ends: over a link that delivers finitely many messages, fuel beyond their number is
-- never used up.
use cyclarity_in_vehicle_sdk.Prelude.{
  ℕ, zero, suc, ◌-◌, ◌≤◌, ◌<◌, ◌≡◌, ◌≢◌, refl, Bool, true, false, not, Option, none, some, List, [],
  ◌∷◌, ltb, if◌then◌else◌, arith, length,
}
use cyclarity_in_vehicle_sdk.Python.{
  Exn, Exec, Result, ok, raised, stuck, pure, raise, continue, ◌>>=◌, generic_error,
}
use cyclarity_in_vehicle_sdk.Communicator.{Communicator}
use cyclarity_in_vehicle_sdk.Uds.Model.{Request, Response}
use cyclarity_in_vehicle_sdk.Uds.Client.{
  Verdict, malformed, foreign, pending, answer, Locals, Attempt, answered, gave_up, is_falsy,
  read_clock, after_response, read_loop, conclude, attempts_loop, send_and_read_response,
}

-- What is assumed of a link: its calls end, and each message that it delivers is one that was
-- still to come.
pub record IsFinite (link : Communicator) : Type 0 where
  pub backlog : link.State → ℕ
  pub send_ends : (p : List ℕ) (t : ℕ) (s : link.State) → (link.send p t s).0 ≢ stuck
  pub send_le : (p : List ℕ) (t : ℕ) (s : link.State) → backlog (link.send p t s).1 ≤ backlog s
  pub recv_ends : (t : ℕ) (s : link.State) → (link.recv t s).0 ≢ stuck
  pub recv_le : (t : ℕ) (s : link.State) → backlog (link.recv t s).1 ≤ backlog s
  pub recv_lt :
      (t : ℕ) (s : link.State) (b : ℕ) (bs : List ℕ)
      → (link.recv t s).0 ≡ ok (b ∷ bs)
      → backlog (link.recv t s).1 < backlog s
  pub time_le : (s : link.State) → backlog (link.time s).1 ≤ backlog s

module _ (link : Communicator) (from_payload : List ℕ → Response) (finite : IsFinite link) where
  open link use {State, send, recv, time}
  open finite use {backlog}

  -- From at most `n` messages to come, `m` ends, and does not add any.
  record Ends {A : Type 0} (n : ℕ) (m : Exec State A) : Type 0 where
    at : (s : State) → backlog s ≤ n → ((m s).0 ≢ stuck) × (backlog (m s).1 ≤ n)

  Ends-pure : {A : Type 0} (n : ℕ) (a : A) → Ends n (pure a)
  unfolding pure
  Ends-pure n a = record { at = λ s h. (λ e. cc, h) }

  Ends-raise : {A : Type 0} (n : ℕ) (e : Exn) → Ends {A = A} n (raise e)
  unfolding raise
  Ends-raise n e = record { at = λ s h. (λ e. cc, h) }

  Ends-if :
      {A : Type 0} (n : ℕ) (b : Bool) (m k : Exec State A)
      → Ends n m
      → Ends n k
      → Ends n (if b then m else k)
  Ends-if n true m k hm hk = hm
  Ends-if n false m k hm hk = hk

  continue-Ends :
      {A B : Type 0} (n : ℕ) (r : Result A) (f : A → Exec State B) (s : State)
      → r ≢ stuck
      → backlog s ≤ n
      → ((a : A) → Ends n (f a))
      → ((continue r f s).0 ≢ stuck) × (backlog (continue r f s).1 ≤ n)
  continue-Ends n (ok a) f s h le hf = (hf a).at s le
  continue-Ends n (raised e) f s h le hf = (λ e. cc, le)
  continue-Ends n stuck f s h le hf = absurd (h refl)

  Ends-bind :
      {A B : Type 0} (n : ℕ) (m : Exec State A) (f : A → Exec State B)
      → Ends n m
      → ((a : A) → Ends n (f a))
      → Ends n (m >>= f)
  unfolding ◌>>=◌
  Ends-bind n m f hm hf = record {
    at = λ s h. continue-Ends n (m s).0 f (m s).1 (hm.at s h).0 (hm.at s h).1 hf;
  }

  Ends-send : (n : ℕ) (p : List ℕ) (t : ℕ) → Ends n (send p t)
  Ends-send n p t = record {
    at = λ s h. (finite.send_ends p t s, omega (arith, finite.send_le p t s));
  }

  Ends-read_clock : (n : ℕ) → Ends n (read_clock link from_payload)
  unfolding read_clock
  Ends-read_clock n = record { at = λ s h. (λ e. cc, omega (arith, finite.time_le s)) }

  -- After a message that arrived, one less is to come.
  received :
      {B : Type 0} (n : ℕ) (r : Result (List ℕ)) (f : List ℕ → Exec State B) (s : State)
      → r ≢ stuck
      → backlog s ≤ n
      → ((b : ℕ) (bs : List ℕ) → r ≡ ok (b ∷ bs) → backlog s < n)
      → Ends n (f [])
      → ((k : ℕ) → suc k ≤ n → (b : ℕ) (bs : List ℕ) → Ends k (f (b ∷ bs)))
      → ((continue r f s).0 ≢ stuck) × (backlog (continue r f s).1 ≤ n)
  received n (ok []) f s h le lt he hf = he.at s le
  received n (ok (b ∷ bs)) f s h le lt he hf =
      let below : backlog s < n = lt b bs refl in
      let rest = (hf (backlog s) below b bs).at s (omega arith) in (rest.0, omega arith)
  received n (raised e) f s h le lt he hf = (λ e. cc, le)
  received n stuck f s h le lt he hf = absurd (h refl)

  Ends-recv :
      {B : Type 0} (n t : ℕ) (f : List ℕ → Exec State B)
      → Ends n (f [])
      → ((k : ℕ) → suc k ≤ n → (b : ℕ) (bs : List ℕ) → Ends k (f (b ∷ bs)))
      → Ends n (recv t >>= f)
  unfolding ◌>>=◌
  Ends-recv n t f he hf = record {
    at = λ s h.
        received n (recv t s).0 f (recv t s).1 (finite.recv_ends t s)
          (omega (arith, finite.recv_le t s)) (λ b bs e. omega (arith, finite.recv_lt t s b bs e))
          he hf;
  }

  after_response-Ends :
      (n : ℕ) (rest : ℕ → Locals → Exec State Attempt) (start : ℕ) (l : Locals) (raw : List ℕ)
      (r : Response) (v : Verdict)
      → ((start' : ℕ) (l' : Locals) → Ends n (rest start' l'))
      → Ends n (after_response link from_payload rest start l raw r v)
  unfolding after_response
  after_response-Ends n rest start l raw r malformed h = Ends-raise n _
  after_response-Ends n rest start l raw r foreign h = h start _
  after_response-Ends n rest start l raw r pending h =
      Ends-bind n _ _ (Ends-read_clock n) λ start'. h start' _
  after_response-Ends n rest start l raw r answer h = Ends-pure n _

  read_loop-Ends :
      (fuel n : ℕ) (request : Request) (start : ℕ) (l : Locals)
      → n < fuel
      → Ends n (read_loop link from_payload fuel request start l)
  unfolding read_loop
  read_loop-Ends zero n request start l h = absurd (omega arith)
  read_loop-Ends (suc fuel) n request start l h = Ends-bind n _ _ (Ends-read_clock n) λ now.
      Ends-if n (ltb l.timeout (now - start)) _ _ (Ends-pure n _) (
        Ends-recv n l.timeout _ (Ends-pure n _) λ k less b bs.
          after_response-Ends k _ start l (b ∷ bs) _ _
            λ start' l'. read_loop-Ends fuel k request start' l' (omega arith))

  conclude-Ends : (n : ℕ) (l : Locals) → Ends n (conclude link from_payload l)
  unfolding conclude
  conclude-Ends n l = Ends-if n (is_falsy l.raw_response) _ _ (Ends-raise n _) (bound l.response)
    where
      bound :
          (o : Option Response)
          → Ends {A = Response} n (elim o [ none ↦ raise generic_error | some r ↦ pure r ])
      bound none = Ends-raise n _
      bound (some r) = Ends-pure n r

  attempts_loop-Ends :
      (fuel n attempts : ℕ) (request : Request) (l : Locals)
      → n < fuel
      → Ends n (attempts_loop link from_payload fuel attempts request l)
  unfolding attempts_loop
  attempts_loop-Ends fuel n zero request l h = conclude-Ends n l
  attempts_loop-Ends fuel n (suc attempts) request l h = Ends-bind n _ _ (Ends-send n _ _) λ sent.
      Ends-if n (ltb sent (length request.payload)) _ _ (Ends-raise n _) (
        Ends-bind n _ _ (Ends-read_clock n) λ start.
          Ends-bind n _ _ (read_loop-Ends fuel n request start l h) (elim [
            | answered r ↦ Ends-pure n r
            | gave_up l' ↦ attempts_loop-Ends fuel n attempts request l' h
          ]))

  -- With fuel beyond the messages that are still to come, `_send_and_read_response` returns or
  -- raises, whatever the number of attempts and the clock, and adds no message.
  pub send_and_read_response_ends :
      (fuel attempts : ℕ) (request : Request) (timeout : ℕ) (s : State)
      → backlog s < fuel
      → let (r, s') = send_and_read_response link from_payload fuel attempts request timeout s in
        (r ≢ stuck) × (backlog s' ≤ backlog s)
  unfolding send_and_read_response
  send_and_read_response_ends fuel attempts request timeout s h =
      (Ends-bind (backlog s) _ _ (attempts_loop-Ends fuel (backlog s) attempts request _ h)
          λ r. Ends-if (backlog s) (not r.positive) _ _ (Ends-raise _ _) (Ends-pure _ r)).at
        s (omega arith)
