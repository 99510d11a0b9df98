-- ===== src/Doip/Reading.antt =====
-- Reading a DoIP message over a link that plays a script, against a description of what is read.
use cyclarity_in_vehicle_sdk.Prelude.{
  ℕ, zero, suc, ◌-◌, ◌<◌, ◌≡◌, refl, true, Option, none, some, List, [], ◌∷◌, leb, length, arith,
  ap,
}
use cyclarity_in_vehicle_sdk.Python.{Exec, Result, ok, raised, stuck, pure, lift, continue, ◌>>=◌}
use cyclarity_in_vehicle_sdk.Uds.Client.Script.{Script, scripted}
use cyclarity_in_vehicle_sdk.Doip.{
  DoipMessage, Doipclient, MessageType, base, generic_negative_acknowledge,
  vehicle_identification_response, routing_activation_response, entity_status_response,
  diagnostic_message, diagnostic_message_positive_acknowledgement, another, read_on, decide, now,
  proceed, read_doip_loop, read_doip,
}

leb-zero : (n : ℕ) → leb (0 - 0) n ≡ true
leb-zero n = ground arith

module _ (doip : Doipclient) where
  open doip use {Parser, new_parser, read_message}

  abbrev pub Outcome : Type 0
  Outcome = Result (Option DoipMessage) × List (List ℕ)

  -- A negative acknowledgement ends the reading, a message that is no more than that is passed over,
  -- and any other message is the answer.
  abbrev pub by_type : MessageType → DoipMessage → List (List ℕ) → Outcome → Outcome
  by_type generic_negative_acknowledge m rest later = (ok none, rest)
  by_type base m rest later = later
  by_type t m rest later = (ok (some m), rest)

  abbrev pub by_message : Option DoipMessage → List (List ℕ) → Outcome → Outcome
  by_message none rest later = later
  by_message (some m) rest later = by_type m.type m rest later

  abbrev pub by_parse : Result (Option DoipMessage) → List (List ℕ) → Outcome → Outcome
  by_parse (ok o) rest later = by_message o rest later
  by_parse (raised e) rest later = (raised e, rest)
  by_parse stuck rest later = (stuck, rest)

  -- Each chunk is parsed in turn, up to the first message that is handed out, or a negative
  -- acknowledgement, or silence; with the receptions that are left.
  unfoldable pub awaited : Parser → List (List ℕ) → Outcome
  awaited parser [] = (ok none, [])
  awaited parser ([] ∷ rest) = (ok none, rest)
  awaited parser ((b ∷ bs) ∷ rest) =
      let (r, parser') = read_message (b ∷ bs) parser in by_parse r rest (awaited parser' rest)

  abbrev pub played : List (List ℕ) → Outcome → Result (Option DoipMessage) × Script
  played sent (r, rest) = (r, record { inbox = rest; sent = sent })

  module _ (timeout : ℕ) where
    abbrev loop : ℕ → Parser → Option DoipMessage → List ℕ → Exec Script (Option DoipMessage)
    loop fuel = read_doip_loop doip scripted fuel timeout 0

    -- What follows a reception, given what the loop does with a chunk.
    receives :
        (rest : List ℕ → Exec Script (Option DoipMessage)) (parser : Parser)
        (inbox sent : List (List ℕ))
        → ((b : ℕ) (bs : List ℕ) (inbox' : List (List ℕ))
            → inbox ≡ (b ∷ bs) ∷ inbox'
            → rest (b ∷ bs) (record { inbox = inbox'; sent = sent })
              ≡ played sent (awaited parser ((b ∷ bs) ∷ inbox')))
        → proceed doip scripted rest timeout read_on (record { inbox = inbox; sent = sent })
          ≡ played sent (awaited parser inbox)
    unfolding proceed awaited pure ◌>>=◌
    receives rest parser [] sent h = refl
    receives rest parser ([] ∷ inbox) sent h = refl
    receives rest parser ((b ∷ bs) ∷ inbox) sent h = h b bs inbox refl

    proceeds :
        (rest : List ℕ → Exec Script (Option DoipMessage)) (parser : Parser)
        (inbox sent : List (List ℕ)) (m : DoipMessage) (t : MessageType)
        → m.type ≡ t
        → proceed doip scripted rest timeout read_on (record { inbox = inbox; sent = sent })
          ≡ played sent (awaited parser inbox)
        → proceed doip scripted rest timeout
            (decide (some m))
            (record { inbox = inbox; sent = sent })
          ≡ played sent (by_type t m inbox (awaited parser inbox))
    unfolding decide proceed pure
    proceeds rest parser inbox sent m base e h = rw e h
    proceeds rest parser inbox sent m generic_negative_acknowledge e h = rw e refl
    proceeds rest parser inbox sent m vehicle_identification_response e h = rw e refl
    proceeds rest parser inbox sent m routing_activation_response e h = rw e refl
    proceeds rest parser inbox sent m entity_status_response e h = rw e refl
    proceeds rest parser inbox sent m diagnostic_message e h = rw e refl
    proceeds rest parser inbox sent m diagnostic_message_positive_acknowledgement e h = rw e refl
    proceeds rest parser inbox sent m another e h = rw e refl

    proceeds_from :
        (rest : List ℕ → Exec Script (Option DoipMessage)) (parser : Parser)
        (inbox sent : List (List ℕ)) (o : Option DoipMessage)
        → proceed doip scripted rest timeout read_on (record { inbox = inbox; sent = sent })
          ≡ played sent (awaited parser inbox)
        → proceed doip scripted rest timeout (decide o) (record { inbox = inbox; sent = sent })
          ≡ played sent (by_message o inbox (awaited parser inbox))
    proceeds_from rest parser inbox sent none h = unfold decide in h
    proceeds_from rest parser inbox sent (some m) h =
        proceeds rest parser inbox sent m m.type refl h

    parses :
        (rest : Option DoipMessage → List ℕ → Exec Script (Option DoipMessage)) (parser : Parser)
        (inbox sent : List (List ℕ)) (r : Result (Option DoipMessage))
        → ((o : Option DoipMessage)
            → proceed doip scripted (rest o) timeout read_on (record { inbox = inbox; sent = sent })
              ≡ played sent (awaited parser inbox))
        → continue r
            (λ o. proceed doip scripted (rest o) timeout (decide o))
            (record { inbox = inbox; sent = sent })
          ≡ played sent (by_parse r inbox (awaited parser inbox))
    parses rest parser inbox sent (ok o) h = proceeds_from (rest o) parser inbox sent o (h o)
    parses rest parser inbox sent (raised e) h = refl
    parses rest parser inbox sent stuck h = refl

    loop-awaited :
        (fuel : ℕ) (parser : Parser) (response : Option DoipMessage) (b : ℕ) (bs : List ℕ)
        (inbox sent : List (List ℕ))
        → length inbox < fuel
        → loop fuel parser response (b ∷ bs) (record { inbox = inbox; sent = sent })
          ≡ played sent (awaited parser ((b ∷ bs) ∷ inbox))
    unfolding read_doip_loop now lift awaited ◌>>=◌
    loop-awaited zero parser response b bs inbox sent h = absurd (omega arith)
    loop-awaited (suc fuel) parser response b bs inbox sent h = rw (leb-zero timeout) (
        parses (λ o bytes. loop fuel (read_message (b ∷ bs) parser).1 o bytes)
          (read_message (b ∷ bs) parser).1 inbox sent (read_message (b ∷ bs) parser).0
          λ o.
            receives (loop fuel (read_message (b ∷ bs) parser).1 o) (read_message (b ∷ bs) parser).1
              inbox sent
              λ b' bs' inbox' e.
                loop-awaited fuel _ o b' bs' inbox' sent
                  (omega (arith, ap {A = List (List ℕ)} length e)))

    -- Over a link that plays a script, and with fuel beyond it, `_read_doip` returns, raises and reads
    -- exactly as `awaited` says: reception after reception is parsed, the first message that is
    -- neither a negative acknowledgement nor a bare DoIPMessage is returned, and a negative
    -- acknowledgement or a silence gives None.
    pub read_doip-awaited :
        (fuel : ℕ) (s : Script)
        → length s.inbox < fuel
        → read_doip doip scripted fuel timeout s ≡ played s.sent (awaited new_parser s.inbox)
    unfolding read_doip read_doip_loop now lift ◌>>=◌ decide
    read_doip-awaited zero s h = absurd (omega arith)
    read_doip-awaited (suc fuel) s h = rw (leb-zero timeout) (
        receives (loop fuel new_parser none) new_parser s.inbox s.sent λ b bs inbox' e.
          loop-awaited fuel new_parser none b bs inbox' s.sent
            (omega (arith, ap {A = List (List ℕ)} length e)))
