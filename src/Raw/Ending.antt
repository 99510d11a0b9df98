-- ===== src/Raw/Ending.antt =====
-- That the searches of the Layer 2 socket end, and what they find.
use cyclarity_in_vehicle_sdk.Prelude.{
  ℕ, zero, suc, ◌+◌, ◌-◌, ◌≤◌, ◌<◌, ◌≡◌, refl, Bool, true, false, Option, none, some, List, [], ◌∷◌,
  ◌++◌, ltb, Bool-cases, inl, inr, length, length-append, All, arith,
}
use cyclarity_in_vehicle_sdk.Python.{Exec, Result, ok, ◌>>=◌}
use cyclarity_in_vehicle_sdk.Raw.{Wire, Sending, one_packet, packets, send_by}
use cyclarity_in_vehicle_sdk.Raw.Layer2.{
  Layer2RawSocket, judge_packet, on_received, find_packet, run_find_packet, is_enough, send_receive,
  send_if_given, send_raw, is_open_raw, send_packet, send_packets, on_wire,
}

ltb-room :
    (fuel spent timeout : ℕ) → ltb spent timeout ≡ true → timeout < suc fuel + spent → 0 < fuel
ltb-room fuel spent timeout e h = ground arith

-- A receive returns, and takes time, whatever it returns.
pub record IsTimed (wire : Wire) : Type 0 where
  pub receives :
      (b : Option Bool) (t : Option ℕ) (o : wire.Outside)
      → (p : Option wire.Packet) × (o' : wire.Outside) × (wire.receive_one b t o ≡ (ok p, o'))
        × (wire.time o < wire.time o')

-- The callback returns.
abbrev pub Answers : {P : Type 0} → (P → Result Bool) → Type 0
Answers {P} is_answer = (p : P) → (b : Bool) × (is_answer p ≡ ok b)

module _ (wire : Wire) (is_answer : wire.Packet → Result Bool) (max_answers : ℕ) where
  open wire use {Outside, Packet, time}

  -- Answers only, and no more than were asked for.
  abbrev pub IsFound : List Packet → Type 0
  IsFound found =
      All (λ p. is_answer p ≡ ok true) found × (0 < max_answers → length found ≤ max_answers)

  abbrev Below : List Packet → Type 0
  Below found =
      All (λ p. is_answer p ≡ ok true) found × (0 < max_answers → length found < max_answers)

  abbrev pub Finds : Exec Outside (List Packet) → Outside → Type 0
  Finds m o = (found : List Packet) × (o' : Outside) × (m o ≡ (ok found, o')) × IsFound found

  Below-IsFound : (found : List Packet) → Below found → IsFound found
  Below-IsFound found b = (b.0, λ h. omega (arith, b.1 h))

  not-enough :
      (found : List Packet)
      → is_enough wire max_answers found ≡ false
      → 0 < max_answers
      → length found < max_answers
  unfolding is_enough
  not-enough found e h = ground arith

  answers-append :
      (found : List Packet) (p : Packet)
      → is_answer p ≡ ok true
      → All (λ p. is_answer p ≡ ok true) found
      → All (λ p. is_answer p ≡ ok true) (found ++ (p ∷ []))
  answers-append [] p a h = (a, tt)
  answers-append (q ∷ found) p a h = (h.0, answers-append found p a h.1)

  judge_packet-Finds :
      (found : List Packet) (rest : List Packet → Exec Outside (List Packet)) (p : Packet)
      (b : Bool) (o : Outside)
      → is_answer p ≡ ok b
      → Below found
      → ((found' : List Packet) → Below found' → Finds (rest found') o)
      → Finds (judge_packet wire is_answer max_answers found rest p b) o
  unfolding judge_packet
  judge_packet-Finds found rest p false o a below go = go found below
  judge_packet-Finds found rest p true o a below go =
      elim (Bool-cases (is_enough wire max_answers (found ++ (p ∷ [])))) [
        | inl e ↦ rw e (
          found ++ (p ∷ []),
          o,
          refl,
          (
            answers-append found p a below.0,
            λ h. omega (arith, below.1 h, length-append found (p ∷ [])),
          ),
        )
        | inr e ↦ rw e (
            go (found ++ (p ∷ []))
              (answers-append found p a below.0, not-enough (found ++ (p ∷ [])) e))
      ]

  received-Finds :
      (found : List Packet) (rest : List Packet → Exec Outside (List Packet)) (p : Option Packet)
      (o : Outside)
      → Answers is_answer
      → Below found
      → ((found' : List Packet) → Below found' → Finds (rest found') o)
      → Finds (on_received wire is_answer max_answers found rest p) o
  unfolding on_received ◌>>=◌
  received-Finds found rest none o answers below go = (found, o, refl, Below-IsFound found below)
  received-Finds found rest (some p) o answers below go = elim (Bool-cases (wire.is_true p)) [
    | inl t ↦ let (b, a) = answers p in rw (t, a) (judge_packet-Finds found rest p b o a below go)
    | inr t ↦ rw t (found, o, refl, Below-IsFound found below)
  ]

  find_packet-Finds :
      (fuel timeout start spent : ℕ) (found : List Packet) (o : Outside)
      → IsTimed wire
      → Answers is_answer
      → start + spent ≡ time o
      → 0 < fuel
      → timeout < fuel + spent
      → Below found
      → Finds (find_packet wire is_answer max_answers fuel timeout start spent found) o
  unfolding find_packet ◌>>=◌
  find_packet-Finds zero timeout start spent found o timed answers now pos enough below =
      absurd (omega arith)
  find_packet-Finds (suc fuel) timeout start spent found o timed answers now pos enough below =
      elim (Bool-cases (ltb spent timeout)) [
        | inl e ↦
            let (p, o', r, later) = timed.receives none (some (timeout - spent)) o in
            rw (e, r)
              (received-Finds found
                (λ found' t.
                  find_packet wire is_answer max_answers fuel timeout start (time t - start) found'
                    t)
                p o' answers below
                λ found' below'.
                  find_packet-Finds fuel timeout start (time o' - start) found' o' timed answers
                    (omega arith) (ltb-room fuel spent timeout e enough) (omega arith) below')
        | inr e ↦ rw e (found, o, refl, Below-IsFound found below)
      ]

-- The sends return, whatever they report.
pub record IsSending (wire : Wire) : Type 0 where
  pub one_sent :
      (p : wire.Packet) (o : wire.Outside)
      → (b : Bool) × (o' : wire.Outside) × (wire.send_one p o ≡ (ok b, o'))
  pub all_sent :
      (ps : List wire.Packet) (o : wire.Outside)
      → (b : Bool) × (o' : wire.Outside) × (wire.send_all ps o ≡ (ok b, o'))

module _ (wire : Wire) where
  abbrev at_socket : wire.Outside → Layer2RawSocket wire
  at_socket o = record { raw_socket = true; outside = o }

  send_if_given-returns :
      (packet : Option (Sending wire.Packet)) (o : wire.Outside)
      → IsSending wire
      → (o' : wire.Outside) × (send_if_given wire packet (at_socket o) ≡ (ok tt, at_socket o'))
  unfolding send_if_given send_raw send_by is_open_raw send_packet send_packets on_wire ◌>>=◌
  send_if_given-returns none o sending = (o, refl)
  send_if_given-returns (some (packets [])) o sending = (o, refl)
  send_if_given-returns (some (packets (p ∷ ps))) o sending =
      let (b, o', e) = sending.all_sent (p ∷ ps) o in rw e (o', refl)
  send_if_given-returns (some (one_packet p)) o sending = elim (Bool-cases (wire.is_true p)) [
    | inl t ↦ let (b, o', e) = sending.one_sent p o in rw (t, e) (o', refl)
    | inr t ↦ rw t (o, refl)
  ]

  -- A search over an open Layer 2 socket returns: what it gives are packets for which the callback
  -- holds, and at most as many as were asked for. The calls on the socket and the callback return, a
  -- receive takes at least a tick of the clock, and the loop may run one round more than `timeout`.
  pub send_receive-Finds :
      (packet : Option (Sending wire.Packet)) (is_answer : wire.Packet → Result Bool)
      (fuel timeout max_answers : ℕ) (o : wire.Outside)
      → IsTimed wire
      → IsSending wire
      → Answers is_answer
      → timeout < fuel
      → (found : List wire.Packet) × (o' : wire.Outside) × (send_receive wire fuel packet is_answer
            timeout max_answers
            (at_socket o)
          ≡ (ok found, at_socket o'))
        × IsFound wire is_answer max_answers found
  unfolding send_receive run_find_packet on_wire ◌>>=◌
  send_receive-Finds packet is_answer fuel timeout max_answers o timed sending answers enough =
      let (o', sent) = send_if_given-returns packet o sending in
      let (found, o'', r, h) =
        find_packet-Finds wire is_answer max_answers fuel timeout (wire.time o') 0 [] o' timed
          answers (omega arith) (omega arith) (omega arith) (tt, λ p. p) in
      rw (sent, r) (found, o'', refl, h)
