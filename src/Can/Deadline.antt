-- ===== src/Can/Deadline.antt =====
-- How long `receive` of the CAN communicator takes, over a bus that keeps its timeout.
use cyclarity_in_vehicle_sdk.Prelude.{
  ℕ, zero, suc, ◌+◌, ◌-◌, ◌*◌, ◌≤◌, ◌<◌, ◌≡◌, ◌≢◌, refl, ap, false, Option, none, some, List, ltb,
  ltb→lt, Bool-cases, arith, inl, inr, subst,
}
use cyclarity_in_vehicle_sdk.Python.{Exec, Result, ok, raised, stuck, pure, continue, ◌>>=◌}
use cyclarity_in_vehicle_sdk.Can.{
  CanMessage, SocketcanBus, accepted, is_unset, or_else, time_since, receive_loop, receive_open,
}

-- What python-can documents of `recv` with a timeout: it returns a message or, once the timeout has
-- run out, None, and does not wait longer; here only so many messages are still to come. A message
-- may arrive without any time passing.
pub record IsPrompt (bus : SocketcanBus) : Type 0 where
  pub coming : bus.Outside → ℕ
  pub recv_ends : (t : ℕ) (s : bus.Outside) → (bus.recv (some t) s).0 ≢ stuck
  pub recv_le : (t : ℕ) (s : bus.Outside) → bus.clock (bus.recv (some t) s).1 ≤ bus.clock s + t
  pub recv_message :
      (t : ℕ) (s s' : bus.Outside) (m : CanMessage)
      → bus.recv (some t) s ≡ (ok (some m), s')
      → (bus.clock s ≤ bus.clock s') × (coming s' < coming s)
  pub recv_none :
      (t : ℕ) (s s' : bus.Outside)
      → bus.recv (some t) s ≡ (ok none, s')
      → bus.clock s + t ≤ bus.clock s'

is_unset-some : (t : ℕ) → 0 < t → is_unset (some t) ≡ false
is_unset-some t h = ground arith

none_past : (n : ℕ) → n - n ≡ 0
none_past n = omega arith

module _ (bus : SocketcanBus) (prompt : IsPrompt bus) where
  open bus use {Outside, recv, clock}

  -- It ends, by the given time.
  abbrev pub EndsBy : {A : Type 0} → ℕ → Result A × Outside → Type 0
  EndsBy limit p = (p.0 ≢ stuck) × (clock p.1 ≤ limit)

  found-EndsBy :
      (limit : ℕ) (o : Option CanMessage) (rest : Exec Outside (Option CanMessage)) (s : Outside)
      → clock s ≤ limit
      → EndsBy limit (rest s)
      → EndsBy limit (or_else bus o rest s)
  unfolding pure
  found-EndsBy limit none rest s le h = h
  found-EndsBy limit (some m) rest s le h = (λ e. cc, le)

  waited :
      (s s' : Outside) (timeout : ℕ) {r : Result (Option CanMessage)}
      → recv (some timeout) s ≡ (r, s')
      → clock s' ≤ clock s + timeout
  waited s s' timeout {r = r} e =
      subst {A = Result (Option CanMessage) × Outside} (λ p. clock p.1 ≤ clock s + timeout) e
        (prompt.recv_le timeout s)

  -- Fuel for the messages that may still come, if there is time for them.
  abbrev Fuelled : ℕ → ℕ → ℕ → Outside → Type 0
  Fuelled fuel timeout start s =
      (0 < fuel) × (clock s < start + timeout → prompt.coming s + 1 < fuel)

  after_recv-EndsBy :
      (fuel : ℕ) (bl : List ℕ) (timeout start : ℕ) (rest : Exec Outside (Option CanMessage))
      (s : Outside) (p : Result (Option CanMessage) × Outside)
      → start ≤ clock s
      → clock s < start + timeout
      → Fuelled (suc fuel) timeout start s
      → recv (some timeout) s ≡ p
      → ((s' : Outside)
          → start ≤ clock s'
          → clock s' ≤ start + 2 * timeout
          → Fuelled fuel timeout start s'
          → EndsBy (start + 2 * timeout) (rest s'))
      → EndsBy (start + 2 * timeout) (continue p.0 (λ o. or_else bus (accepted bl o) rest) p.1)
  unfolding accepted
  after_recv-EndsBy fuel bl timeout start rest s (ok none, s') from early h e loop =
      let past = prompt.recv_none timeout s s' e in
      let within = waited s s' timeout e in
      loop s' (omega (arith, past)) (omega (arith, within, early))
        (omega (arith, h.1 early), λ soon. absurd (omega (arith, soon, past)))
  after_recv-EndsBy fuel bl timeout start rest s (ok (some m), s') from early h e loop =
      let arrived = prompt.recv_message timeout s s' m e in
      let within = waited s s' timeout e in
      found-EndsBy (start + 2 * timeout) (accepted bl (some m)) rest s'
        (omega (arith, within, early))
        (loop s' (omega (arith, arrived.0)) (omega (arith, within, early))
          (omega (arith, h.1 early), λ soon. omega (arith, h.1 early, arrived.1)))
  after_recv-EndsBy fuel bl timeout start rest s (raised x, s') from early h e loop =
      (λ q. cc, omega (arith, waited s s' timeout e, early))
  after_recv-EndsBy fuel bl timeout start rest s (stuck, s') from early h e loop =
      absurd
        (prompt.recv_ends timeout s (ap {A = Result (Option CanMessage) × Outside} (λ p. p.0) e))

  receive_loop-EndsBy :
      (fuel : ℕ) (bl : List ℕ) (timeout start : ℕ) (s : Outside)
      → start ≤ clock s
      → clock s ≤ start + 2 * timeout
      → Fuelled fuel timeout start s
      → EndsBy (start + 2 * timeout) (receive_loop bus fuel bl timeout start (clock s - start) s)
  unfolding receive_loop time_since ◌>>=◌
  receive_loop-EndsBy zero bl timeout start s from le h = absurd (omega (arith, h.0))
  receive_loop-EndsBy (suc fuel) bl timeout start s from le h =
      elim (Bool-cases (ltb (clock s - start) timeout)) [
        | inl in_time ↦
            let early = ltb→lt (clock s - start) timeout in_time in
            rw in_time (
              after_recv-EndsBy fuel bl timeout start
                (time_since bus start >>= receive_loop bus fuel bl timeout start) s
                (recv (some timeout) s) from (omega (arith, early)) h refl
                (λ s'. receive_loop-EndsBy fuel bl timeout start s'))
        | inr late ↦ rw late (λ e. cc, le)
      ]

  -- Over a bus whose `recv` waits no longer than its timeout, returns None only once the timeout has
  -- run out, and has only so many messages still to deliver, which may arrive at once: for a timeout
  -- that is not 0, and with fuel for these messages and two rounds more, `receive` ends, and takes no
  -- longer than twice its timeout, however many of the messages are on the blacklist.
  pub receive_open_within :
      (fuel : ℕ) (blacklist_ids : List ℕ) (timeout : ℕ) (s : Outside)
      → 0 < timeout
      → prompt.coming s + 1 < fuel
      → EndsBy (clock s + 2 * timeout) (receive_open bus fuel blacklist_ids (some timeout) s)
  unfolding receive_open
  receive_open_within fuel blacklist_ids timeout s positive enough =
      rw (is_unset-some timeout positive) (
        subst
          (λ past.
            EndsBy (clock s + 2 * timeout)
              (receive_loop bus fuel blacklist_ids timeout (clock s) past s))
          (none_past (clock s))
          (receive_loop-EndsBy fuel blacklist_ids timeout (clock s) s (omega arith) (omega arith)
            (omega (arith, enough), λ soon. enough)))
