-- ===== src/Doip/Heard.antt =====
-- Where the messages that `_read_doip` hands out come from.
use cyclarity_in_vehicle_sdk.Prelude.{
  ℕ, zero, suc, ◌-◌, ◌≡◌, refl, sym, subst, not, Option, none, some, List, [], ◌∷◌, leb, arith,
}
use cyclarity_in_vehicle_sdk.Python.{Exec, ok}
use cyclarity_in_vehicle_sdk.Python.Triples.{
  Triple, Triple-pure, Triple-diverge, Triple-if, Triple-bind, Triple-lifted, Triple-call,
  Triple-weaken,
}
use cyclarity_in_vehicle_sdk.Communicator.{Communicator}
use cyclarity_in_vehicle_sdk.Doip.{
  DoipMessage, Doipclient, Next, give_up, read_on, hand_out, decide, now, feed, proceed,
  read_doip_loop, read_doip,
}

module _ (doip : Doipclient) (link : Communicator) where
  open doip use {Parser, new_parser, read_message}
  open link use {State, send, recv, time}

  -- The second state comes of the first by receptions and looks at the clock.
  pub data Reads : State → State → Type 0 where
    began : {s : State} → Reads s s
    looked : {s s' : State} → Reads s s' → Reads s (time s').1
    received :
        {s s' s'' : State} (bytes : List ℕ) (timeout : ℕ)
        → Reads s s'
        → recv timeout s' ≡ (ok bytes, s'')
        → Reads s s''

  -- Between the two states the link delivered the bytes.
  pub record Received (s₀ : State) (bytes : List ℕ) (s : State) : Type 0 where
    pub before : State
    pub after : State
    pub timeout : ℕ
    pub up_to_it : Reads s₀ before
    pub recv_it : recv timeout before ≡ (ok bytes, after)
    pub from_it : Reads after s

  -- A parser that began as a new one.
  pub data IsFed : Parser → Type 0 where
    fresh : IsFed new_parser
    fed : {parser : Parser} (bytes : List ℕ) → IsFed parser → IsFed (read_message bytes parser).1

  -- The parser read the message off bytes that the link delivered between the two states.
  abbrev pub Heard : State → DoipMessage → State → Type 0
  Heard s₀ m s =
      (bytes : List ℕ) × (parser : Parser) × Received s₀ bytes s
      × IsFed parser
      × ((read_message bytes parser).0 ≡ ok (some m))

  module _ (s₀ : State) where
    abbrev pub AllHeard : Option DoipMessage → State → Type 0
    AllHeard none s = Unit
    AllHeard (some m) s = Heard s₀ m s

    -- The bytes that the next round feeds to the parser, if any.
    abbrev Fresh : List ℕ → State → Type 0
    Fresh [] s = Unit
    Fresh (b ∷ bs) s = Received s₀ (b ∷ bs) s

    Received-on :
        (bytes : List ℕ) (s s' : State)
        → ((t : State) → Reads t s → Reads t s')
        → Received s₀ bytes s
        → Received s₀ bytes s'
    Received-on bytes s s' on h = record {
      before = h.before;
      after = h.after;
      timeout = h.timeout;
      up_to_it = h.up_to_it;
      recv_it = h.recv_it;
      from_it = on h.after h.from_it;
    }

    AllHeard-on :
        (o : Option DoipMessage) (s s' : State)
        → ((t : State) → Reads t s → Reads t s')
        → AllHeard o s
        → AllHeard o s'
    AllHeard-on none s s' on h = tt
    AllHeard-on (some m) s s' on (bytes, parser, r, f, e) =
        (bytes, parser, Received-on bytes s s' on r, f, e)

    Fresh-on :
        (bytes : List ℕ) (s s' : State)
        → ((t : State) → Reads t s → Reads t s')
        → Fresh bytes s
        → Fresh bytes s'
    Fresh-on [] s s' on h = tt
    Fresh-on (b ∷ bs) s s' on h = Received-on (b ∷ bs) s s' on h

    abbrev Round : Option DoipMessage → List ℕ → State → Type 0
    Round response bytes s = Reads s₀ s × (AllHeard response s × Fresh bytes s)

    now-Triple :
        (response : Option DoipMessage) (bytes : List ℕ)
        → Triple (Round response bytes) (λ t. Round response bytes) (now doip link)
    unfolding now
    now-Triple response bytes = record {
      at = λ s h. (
        looked h.0,
        (
          AllHeard-on response s _ (λ t c. looked c) h.1.0,
          Fresh-on bytes s _ (λ t c. looked c) h.1.1,
        ),
      );
    }

    feed-Heard :
        (bytes : List ℕ) (response response' : Option DoipMessage) (parser : Parser) (s : State)
        → IsFed parser
        → (feed doip link bytes response parser).0 ≡ ok response'
        → Round response bytes s
        → Round response' [] s
    feed-Heard [] response response' parser s f e h =
        (h.0, (subst (λ o. AllHeard o s) (same e) h.1.0, tt))
      where
        same : ok response ≡ ok response' → response ≡ response'
        same e = cc
    feed-Heard (b ∷ bs) response none parser s f e h = (h.0, (tt, tt))
    feed-Heard (b ∷ bs) response (some m) parser s f e h =
        (h.0, ((b ∷ bs, parser, h.1.1, f, e), tt))

    feed-IsFed :
        (bytes : List ℕ) (response : Option DoipMessage) (parser : Parser)
        → IsFed parser
        → IsFed (feed doip link bytes response parser).1
    feed-IsFed [] response parser f = f
    feed-IsFed (b ∷ bs) response parser f = fed (b ∷ bs) f

    decide-hand_out :
        (o : Option DoipMessage) (m : DoipMessage) → decide o ≡ hand_out m → o ≡ some m
    unfolding decide
    decide-hand_out none m e = cc
    decide-hand_out (some m') m e = ground arith

    proceed-Triple :
        (rest : List ℕ → Exec State (Option DoipMessage)) (timeout : ℕ)
        (response : Option DoipMessage) (v : Next)
        → decide response ≡ v
        → ((bytes : List ℕ) → Triple (Round response bytes) AllHeard (rest bytes))
        → Triple (Round response []) AllHeard (proceed doip link rest timeout v)
    unfolding proceed
    proceed-Triple rest timeout response give_up e h = Triple-pure none (λ s k. tt)
    proceed-Triple rest timeout response (hand_out m) e h =
        Triple-pure (some m) (λ s k. subst (λ o. AllHeard o s) (decide-hand_out response m e) k.1.0)
    proceed-Triple rest timeout response read_on e h =
        Triple-bind (λ bytes. Round response bytes) _ _
          (Triple-call (recv timeout) λ s bytes s' k q. (
            received bytes timeout k.0 q,
            (
              AllHeard-on response s s' (λ t c. received bytes timeout c q) k.1.0,
              delivered bytes s s' k.0 q,
            ),
          ))
          (elim [ [] ↦ Triple-pure none (λ s k. tt) | b ∷ bs ↦ h (b ∷ bs) ])
      where
        delivered :
            (bytes : List ℕ) (s s' : State)
            → Reads s₀ s
            → recv timeout s ≡ (ok bytes, s')
            → Fresh bytes s'
        delivered [] s s' c q = tt
        delivered (b ∷ bs) s s' c q = record {
          before = s;
          after = s';
          timeout = timeout;
          up_to_it = c;
          recv_it = q;
          from_it = began;
        }

    read_doip_loop-Triple :
        (fuel timeout start : ℕ) (parser : Parser) (response : Option DoipMessage) (bytes : List ℕ)
        → IsFed parser
        → Triple
            (Round response bytes)
            AllHeard
            (read_doip_loop doip link fuel timeout start parser response bytes)
    unfolding read_doip_loop
    read_doip_loop-Triple zero timeout start parser response bytes f = Triple-diverge
    read_doip_loop-Triple (suc fuel) timeout start parser response bytes f =
        Triple-bind (λ t. Round response bytes) _ _ (now-Triple response bytes)
          λ t.
            Triple-if (not (leb (t - start) timeout)) _ _ (λ late. Triple-pure none (λ s k. tt))
              λ in_time. Triple-lifted _ _ λ response' e.
                Triple-weaken _ (λ s k. feed-Heard bytes response response' parser s f e k)
                  (λ o s k. k)
                  (proceed-Triple _ timeout response' _ refl λ bytes'.
                    read_doip_loop-Triple fuel timeout start _ response' bytes'
                      (feed-IsFed bytes response parser f))

    -- A message that `_read_doip` hands out was read off what the link delivered.
    pub read_doip-Triple :
        (fuel timeout : ℕ) → Triple (λ s. s ≡ s₀) AllHeard (read_doip doip link fuel timeout)
    unfolding read_doip
    read_doip-Triple fuel timeout =
        Triple-bind (λ t. Round none []) _ _
          (Triple-weaken _ (λ s e. (subst (Reads s₀) (sym e) began, (tt, tt))) (λ t s k. k)
            (now-Triple none []))
          λ start. read_doip_loop-Triple fuel timeout start new_parser none [] fresh
