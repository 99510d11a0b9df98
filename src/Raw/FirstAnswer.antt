-- ===== src/Raw/FirstAnswer.antt =====
-- The search of the Layer 2 socket that stops at the first answer, and the search for them all.
use cyclarity_in_vehicle_sdk.Prelude.{
  ℕ, zero, suc, ◌-◌, ◌≡◌, refl, sym, ap, ◌∙◌, Bool, true, false, not, Option, none, some, List, [],
  ◌∷◌, ◌++◌, ltb, if◌then◌else◌,
}
use cyclarity_in_vehicle_sdk.Python.{
  Exec, Result, ok, raised, stuck, pure, raise, lift, ◌>>=◌, continue, generic_error,
}
use cyclarity_in_vehicle_sdk.Raw.{Wire, Sending, first_of, first_found}
use cyclarity_in_vehicle_sdk.Raw.Layer2.{
  Layer2RawSocket, judge_packet, on_received, find_packet, run_find_packet, is_enough, send_receive,
  send_receive_packet, send_receive_packets, send_if_given, on_wire,
}

ok-inj : {A : Type 0} {a b : A} → ◌≡◌ {A = Result A} (ok a) (ok b) → a ≡ b
ok-inj e = cc

module _ (wire : Wire) (is_answer : wire.Packet → Result Bool) where
  open wire use {Outside, Packet, is_true, time, receive_one}

  abbrev Search : Type 0
  Search = Exec Outside (List Packet)

  -- What `all` returns begins with the packet that was found first.
  abbrev Begins : Packet → Search → Outside → Type 0
  Begins p all o = (ps : List Packet) → (all o).0 ≡ ok ps → first_of ps ≡ some p

  module _ (p : Packet) (found : List Packet) (rest : List Packet → Search) (o : Outside)
      (go : (found' : List Packet) → Begins p (rest (p ∷ found')) o) where
    answered-Begins :
        (q : Packet) (r : Result Bool)
        → Begins p (lift r >>= judge_packet wire is_answer 0 (p ∷ found) rest q) o
    unfolding judge_packet is_enough ◌>>=◌
    answered-Begins q (ok true) ps e = go (found ++ (q ∷ [])) ps e
    answered-Begins q (ok false) ps e = go found ps e
    answered-Begins q (raised x) ps e = cc
    answered-Begins q stuck ps e = cc

    true-Begins :
        (q : Packet) (t : Bool)
        → Begins p
            (if not t
              then pure (p ∷ found)
              else (lift (is_answer q) >>= judge_packet wire is_answer 0 (p ∷ found) rest q))
            o
    unfolding ◌>>=◌
    true-Begins q true ps e = answered-Begins q (is_answer q) ps e
    true-Begins q false ps e = ap first_of (sym (ok-inj e))

    received-Begins :
        (received : Option Packet)
        → Begins p (on_received wire is_answer 0 (p ∷ found) rest received) o
    unfolding on_received ◌>>=◌
    received-Begins none ps e = ap first_of (sym (ok-inj e))
    received-Begins (some q) ps e = true-Begins q (is_true q) ps e

    continue-Begins :
        (r : Result (Option Packet))
        → Begins p (continue r (on_received wire is_answer 0 (p ∷ found) rest)) o
    continue-Begins (ok received) ps e = received-Begins received ps e
    continue-Begins (raised x) ps e = cc
    continue-Begins stuck ps e = cc

  find_packet-Begins :
      (p : Packet) (fuel timeout start spent : ℕ) (found : List Packet) (o : Outside)
      → Begins p (find_packet wire is_answer 0 fuel timeout start spent (p ∷ found)) o
  unfolding find_packet ◌>>=◌
  find_packet-Begins p zero timeout start spent found o ps e = cc
  find_packet-Begins p (suc fuel) timeout start spent found o ps e =
      tested (ltb spent timeout)
        (λ o' found'. find_packet-Begins p fuel timeout start (time o' - start) found' o') e
    where
      rest : List Packet → Search
      rest found' o' = find_packet wire is_answer 0 fuel timeout start (time o' - start) found' o'

      tested :
          (b : Bool)
          → ((o' : Outside) (found' : List Packet) → Begins p (rest (p ∷ found')) o')
          → ((if not b
                then pure (p ∷ found)
                else (receive_one none (some (timeout - spent))
                    >>= on_received wire is_answer 0 (p ∷ found) rest))
              o).0
            ≡ ok ps
          → first_of ps ≡ some p
      tested true go e = continue-Begins p found rest _ (go _) _ ps e
      tested false go e = ap first_of (sym (ok-inj e))

  -- `one` gives the first of the packets that `all` gives.
  abbrev Agree : Search → Search → Outside → Type 0
  Agree all one o =
      (ps : List Packet) → (all o).0 ≡ ok ps → (first_found one o).0 ≡ ok (first_of ps)

  pure-Agree : (o : Outside) → Agree (pure []) (pure []) o
  unfolding first_found ◌>>=◌
  pure-Agree o ps e = ap (λ l. ok (first_of l)) (ok-inj e)

  module _ (rest rest' : List Packet → Search) (o : Outside) (go : Agree (rest []) (rest' []) o)
      (begins : (q : Packet) → Begins q (rest (q ∷ [])) o) where
    answered-Agree :
        (q : Packet) (r : Result Bool)
        → Agree
            (lift r >>= judge_packet wire is_answer 0 [] rest q)
            (lift r >>= judge_packet wire is_answer 1 [] rest' q)
            o
    unfolding judge_packet is_enough first_found ◌>>=◌
    answered-Agree q (ok true) ps e = ap ok (sym (begins q ps e))
    answered-Agree q (ok false) ps e = go ps e
    answered-Agree q (raised x) ps e = cc
    answered-Agree q stuck ps e = cc

    true-Agree :
        (q : Packet) (t : Bool)
        → Agree
            (if not t
              then pure []
              else (lift (is_answer q) >>= judge_packet wire is_answer 0 [] rest q))
            (if not t
              then pure []
              else (lift (is_answer q) >>= judge_packet wire is_answer 1 [] rest' q))
            o
    unfolding ◌>>=◌
    true-Agree q true ps e = answered-Agree q (is_answer q) ps e
    true-Agree q false ps e = pure-Agree o ps e

    received-Agree :
        (received : Option Packet)
        → Agree
            (on_received wire is_answer 0 [] rest received)
            (on_received wire is_answer 1 [] rest' received)
            o
    unfolding on_received ◌>>=◌
    received-Agree none ps e = pure-Agree o ps e
    received-Agree (some q) ps e = true-Agree q (is_true q) ps e

    continue-Agree :
        (r : Result (Option Packet))
        → Agree
            (continue r (on_received wire is_answer 0 [] rest))
            (continue r (on_received wire is_answer 1 [] rest'))
            o
    unfolding first_found ◌>>=◌
    continue-Agree (ok received) ps e = received-Agree received ps e
    continue-Agree (raised x) ps e = cc
    continue-Agree stuck ps e = cc

  find_packet-Agree :
      (fuel timeout start spent : ℕ) (o : Outside)
      → Agree
          (find_packet wire is_answer 0 fuel timeout start spent [])
          (find_packet wire is_answer 1 fuel timeout start spent [])
          o
  unfolding find_packet first_found ◌>>=◌
  find_packet-Agree zero timeout start spent o ps e = cc
  find_packet-Agree (suc fuel) timeout start spent o ps e =
      tested (ltb spent timeout) (λ o'. find_packet-Agree fuel timeout start (time o' - start) o') e
    where
      rest : ℕ → List Packet → Search
      rest max found' o' =
          find_packet wire is_answer max fuel timeout start (time o' - start) found' o'

      whole : ℕ → Bool → Search
      whole max b =
          if not b
          then pure []
          else (receive_one none (some (timeout - spent))
              >>= on_received wire is_answer max [] (rest max))

      tested :
          (b : Bool)
          → ((o' : Outside) → Agree (rest 0 []) (rest 1 []) o')
          → (whole 0 b o).0 ≡ ok ps
          → (first_found (whole 1 b) o).0 ≡ ok (first_of ps)
      tested true go e =
          continue-Agree (rest 0) (rest 1) _ (go _)
            (λ q. find_packet-Begins q fuel timeout start _ [] _) _ ps e
      tested false go e = pure-Agree o ps e

  first_continued :
      {S T : Type 0} (r : Result (List Packet)) (s : S) (t : T)
      → (continue r (λ found. pure (first_of found)) s).0
        ≡ (continue r (λ found. pure (first_of found)) t).0
  unfolding ◌>>=◌
  first_continued (ok a) s t = refl
  first_continued (raised x) s t = refl
  first_continued stuck s t = refl

  -- What is returned does not depend on the state that is left.
  first_found-result :
      {T : Type 0} (search : Search) (o : Outside) (t : T)
      → (first_found (λ t. ((search o).0, t)) t).0 ≡ (first_found search o).0
  unfolding first_found ◌>>=◌
  first_found-result search o t = first_continued (search o).0 t (search o).1

  module _ (fuel timeout : ℕ) (ps : List Packet) where
    abbrev run : ℕ → Search
    run max = run_find_packet wire is_answer max fuel timeout

    sent-Agree :
        (r : Result (Unit {0})) (s : Layer2RawSocket wire)
        → (continue r (λ sent. on_wire wire (run 0)) s).0 ≡ ok ps
        → (first_found (continue r (λ sent. on_wire wire (run 1))) s).0 ≡ ok (first_of ps)
    unfolding first_found run_find_packet on_wire ◌>>=◌
    sent-Agree (ok sent) s e =
        first_found-result (run 1) s.outside (record s { outside = (run 1 s.outside).1 })
        ∙ find_packet-Agree fuel timeout (time s.outside) 0 s.outside ps e
    sent-Agree (raised x) s e = cc
    sent-Agree stuck s e = cc

    abbrev search_at :
        Option (Sending Packet) → ℕ → Bool → Exec (Layer2RawSocket wire) (List Packet)
    search_at packet max b s =
        if not b
        then raise generic_error s
        else (send_if_given wire packet >>= λ sent. on_wire wire (run max)) s

    search-Agree :
        (packet : Option (Sending Packet)) (b : Bool) (s : Layer2RawSocket wire)
        → (search_at packet 0 b s).0 ≡ ok ps
        → (first_found (search_at packet 1 b) s).0 ≡ ok (first_of ps)
    unfolding first_found ◌>>=◌
    search-Agree packet true s e =
        sent-Agree (send_if_given wire packet s).0 (send_if_given wire packet s).1 e
    search-Agree packet false s e = cc

  -- `send_receive_packet`, which stops at the first answer, returns the first of the packets that
  -- `send_receive_packets` finds in the same situation; where that finds none, it returns None.
  -- So it agrees with the method of the base class that it replaces.
  pub send_receive_packet-Agree :
      (fuel : ℕ) (packet : Option (Sending Packet)) (timeout : ℕ) (s : Layer2RawSocket wire)
      (ps : List Packet)
      → (send_receive_packets wire fuel packet is_answer timeout s).0 ≡ ok ps
      → (send_receive_packet wire fuel packet is_answer timeout s).0 ≡ ok (first_of ps)
  unfolding send_receive_packet send_receive_packets send_receive run_find_packet on_wire
      first_found ◌>>=◌
  send_receive_packet-Agree fuel packet timeout s ps e =
      search-Agree fuel timeout ps packet s.raw_socket s e
