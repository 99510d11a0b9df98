-- ===== src/Uds/Client/Delivery.antt =====
-- Where the responses of the client come from: the calls on the link that lie before them.
use cyclarity_in_vehicle_sdk.Prelude.{
  ℕ, zero, suc, ◌-◌, ◌≡◌, refl, false, not, Option, none, some, List, subst, sym, ltb, length,
}
use cyclarity_in_vehicle_sdk.Python.{Exec, ok, pure, raise, generic_error}
use cyclarity_in_vehicle_sdk.Python.Triples.{
  Triple, Triple-pure, Triple-raise, Triple-diverge, Triple-if, Triple-bind, Triple-call,
  Triple-weaken,
}
use cyclarity_in_vehicle_sdk.Communicator.{Communicator}
use cyclarity_in_vehicle_sdk.Uds.Model.{Request, Response}
use cyclarity_in_vehicle_sdk.Uds.Client.{
  Verdict, malformed, foreign, pending, answer, Locals, Attempt, answered, gave_up, is_falsy,
  read_clock, after_response, read_loop, conclude, attempts_loop, send_and_read_response,
}

some_injective : {A : Type 0} (a b : A) → some b ≡ some a → a ≡ b
some_injective a b e = cc

module _ (link : Communicator) (from_payload : List ℕ → Response) where
  open link use {State, send, recv, time}

  -- The second state comes of the first by calls on the link: looks at the clock, receptions, and
  -- transmissions of the request.
  pub data Calls (request : Request) : State → State → Type 0 where
    idle : {s : State} → Calls request s s
    looked : {s s' : State} → Calls request s s' → Calls request s (time s').1
    received :
        {s s' s'' : State} (raw : List ℕ) (timeout : ℕ)
        → Calls request s s'
        → recv timeout s' ≡ (ok raw, s'')
        → Calls request s s''
    transmitted :
        {s s' s'' : State} (n timeout : ℕ)
        → Calls request s s'
        → send request.payload timeout s' ≡ (ok n, s'')
        → Calls request s s''

  -- From `s₀` on the request was sent, whole.
  pub record Sent (request : Request) (s₀ s : State) : Type 0 where
    pub before : State
    pub after : State
    pub count : ℕ
    pub timeout : ℕ
    pub up_to_it : Calls request s₀ before
    pub send_it : send request.payload timeout before ≡ (ok count, after)
    pub whole : ltb count (length request.payload) ≡ false
    pub from_it : Calls request after s

  -- After that the link delivered the bytes of the response.
  pub record Delivered (request : Request) (s₀ : State) (r : Response) (s : State) : Type 0 where
    pub before : State
    pub after : State
    pub raw : List ℕ
    pub timeout : ℕ
    pub sent : Sent request s₀ before
    pub recv_it : recv timeout before ≡ (ok raw, after)
    pub parsed : r ≡ from_payload raw
    pub from_it : Calls request after s

  module _ (request : Request) (s₀ : State) where
    -- What stays true over the calls of the client.
    record Stays (P : State → Type 0) : Type 0 where
      over_look : (s : State) → P s → P (time s).1
      over_recv : (s s' : State) (raw : List ℕ) (t : ℕ) → P s → recv t s ≡ (ok raw, s') → P s'
      over_send : (s s' : State) (n t : ℕ) → P s → send request.payload t s ≡ (ok n, s') → P s'

    Calls-Stays : Stays (Calls request s₀)
    Calls-Stays = record {
      over_look = λ s c. looked c;
      over_recv = λ s s' raw t c e. received raw t c e;
      over_send = λ s s' n t c e. transmitted n t c e;
    }

    Sent-on :
        (s s' : State)
        → ((t : State) → Calls request t s → Calls request t s')
        → Sent request s₀ s
        → Sent request s₀ s'
    Sent-on s s' on h = record {
      before = h.before;
      after = h.after;
      count = h.count;
      timeout = h.timeout;
      up_to_it = h.up_to_it;
      send_it = h.send_it;
      whole = h.whole;
      from_it = on h.after h.from_it;
    }

    Delivered-on :
        (r : Response) (s s' : State)
        → ((t : State) → Calls request t s → Calls request t s')
        → Delivered request s₀ r s
        → Delivered request s₀ r s'
    Delivered-on r s s' on h = record {
      before = h.before;
      after = h.after;
      raw = h.raw;
      timeout = h.timeout;
      sent = h.sent;
      recv_it = h.recv_it;
      parsed = h.parsed;
      from_it = on h.after h.from_it;
    }

    Sent-Stays : Stays (Sent request s₀)
    Sent-Stays = record {
      over_look = λ s. Sent-on s _ (λ t c. looked c);
      over_recv = λ s s' raw t h e. Sent-on s s' (λ u c. received raw t c e) h;
      over_send = λ s s' n t h e. Sent-on s s' (λ u c. transmitted n t c e) h;
    }

    Delivered-Stays : (r : Response) → Stays (Delivered request s₀ r)
    Delivered-Stays r = record {
      over_look = λ s. Delivered-on r s _ (λ t c. looked c);
      over_recv = λ s s' raw t h e. Delivered-on r s s' (λ u c. received raw t c e) h;
      over_send = λ s s' n t h e. Delivered-on r s s' (λ u c. transmitted n t c e) h;
    }

    -- A response that `conclude` would return was delivered.
    abbrev Held : Locals → State → Type 0
    Held l s =
        is_falsy l.raw_response ≡ false
        → (r : Response) × (l.response ≡ some r) × Delivered request s₀ r s

    Held-Stays : (l : Locals) → Stays (Held l)
    Held-Stays l = record {
      over_look = λ s h p. let (r, e, d) = h p in (r, e, (Delivered-Stays r).over_look s d);
      over_recv = λ s s' raw t h q p.
          let (r, e, d) = h p in (r, e, (Delivered-Stays r).over_recv s s' raw t d q);
      over_send = λ s s' n t h q p.
          let (r, e, d) = h p in (r, e, (Delivered-Stays r).over_send s s' n t d q);
    }

    both : (P Q : State → Type 0) → Stays P → Stays Q → Stays (λ s. P s × Q s)
    both P Q p q = record {
      over_look = λ s h. (p.over_look s h.0, q.over_look s h.1);
      over_recv = λ s s' raw t h e. (p.over_recv s s' raw t h.0 e, q.over_recv s s' raw t h.1 e);
      over_send = λ s s' n t h e. (p.over_send s s' n t h.0 e, q.over_send s s' n t h.1 e);
    }

    abbrev Ready : Locals → State → Type 0
    Ready l s = Calls request s₀ s × Held l s

    abbrev Reading : Locals → State → Type 0
    Reading l s = Sent request s₀ s × Ready l s

    Ready-Stays : (l : Locals) → Stays (Ready l)
    Ready-Stays l = both (Calls request s₀) (Held l) Calls-Stays (Held-Stays l)

    Reading-Stays : (l : Locals) → Stays (Reading l)
    Reading-Stays l = both (Sent request s₀) (Ready l) Sent-Stays (Ready-Stays l)

    abbrev Ended : Attempt → State → Type 0
    Ended (answered r) s = Delivered request s₀ r s
    Ended (gave_up l) s = Ready l s

    clock-Triple :
        (P : State → Type 0) → Stays P → Triple P (λ now. P) (read_clock link from_payload)
    unfolding read_clock
    clock-Triple P h = record { at = h.over_look }

    -- After a reception.
    abbrev Fresh : Locals → Response → State → Type 0
    Fresh l r s = Reading l s × Delivered request s₀ r s

    recv-Triple :
        (l : Locals) (t : ℕ) → Triple (Reading l) (λ raw. Fresh l (from_payload raw)) (recv t)
    recv-Triple l t = Triple-call (recv t) λ s raw s' h e. (
      (Reading-Stays l).over_recv s s' raw t h e,
      record {
        before = s;
        after = s';
        raw = raw;
        timeout = t;
        sent = h.0;
        recv_it = e;
        parsed = refl;
        from_it = idle;
      },
    )

    send-Triple :
        (l : Locals) (t : ℕ)
        → Triple
            (Ready l)
            (λ n s. Ready l s × (ltb n (length request.payload) ≡ false → Sent request s₀ s))
            (send request.payload t)
    send-Triple l t = Triple-call (send request.payload t) λ s n s' h e. (
      (Ready-Stays l).over_send s s' n t h e,
      λ whole. record {
        before = s;
        after = s';
        count = n;
        timeout = t;
        up_to_it = h.0;
        send_it = e;
        whole = whole;
        from_it = idle;
      },
    )

    after_response-Triple :
        (rest : ℕ → Locals → Exec State Attempt) (start : ℕ) (l : Locals) (raw : List ℕ)
        (r : Response) (v : Verdict)
        → ((start' : ℕ) (l' : Locals) → Triple (Reading l') Ended (rest start' l'))
        → Triple (Fresh l r) Ended (after_response link from_payload rest start l raw r v)
    unfolding after_response
    after_response-Triple rest start l raw r malformed h = Triple-raise _
    after_response-Triple rest start l raw r foreign h =
        Triple-weaken _ (λ s k. (k.0.0, (k.0.1.0, λ p. cc))) (λ a s e. e) (h start _)
    after_response-Triple rest start l raw r pending h =
        Triple-bind (λ now. Fresh l r) _ _
          (clock-Triple (Fresh l r)
            (both (Reading l) (Delivered request s₀ r) (Reading-Stays l) (Delivered-Stays r)))
          λ start'.
            Triple-weaken _ (λ s k. (k.0.0, (k.0.1.0, λ p. (r, refl, k.1)))) (λ a s e. e)
              (h start' _)
    after_response-Triple rest start l raw r answer h = Triple-pure _ (λ s k. k.1)

    read_loop-Triple :
        (fuel start : ℕ) (l : Locals)
        → Triple (Reading l) Ended (read_loop link from_payload fuel request start l)
    unfolding read_loop
    read_loop-Triple zero start l = Triple-diverge
    read_loop-Triple (suc fuel) start l =
        Triple-bind (λ now. Reading l) _ _ (clock-Triple (Reading l) (Reading-Stays l))
          λ now.
            Triple-if (ltb l.timeout (now - start)) _ _ (λ late. Triple-pure _ (λ s h. h.1))
              λ in_time.
                Triple-bind (λ raw. Fresh l (from_payload raw)) _ _ (recv-Triple l l.timeout)
                  λ raw.
                    Triple-if (is_falsy (some raw)) _ _
                      (λ empty. Triple-pure _ (λ s h. (h.0.1.0, λ p. cc empty)))
                      λ arrived.
                        after_response-Triple (read_loop link from_payload fuel request) start l raw
                          _ _ (read_loop-Triple fuel)

    conclude-Triple :
        (l : Locals) → Triple (Ready l) (Delivered request s₀) (conclude link from_payload l)
    unfolding conclude
    conclude-Triple l =
        Triple-if (is_falsy l.raw_response) _ _ (λ falsy. Triple-raise _)
          λ truthy. held_response l.response truthy
      where
        held_response :
            (o : Option Response)
            → is_falsy l.raw_response ≡ false
            → Triple
                (λ s.
                  Calls request s₀ s
                  × (is_falsy l.raw_response ≡ false
                      → (r : Response) × (o ≡ some r) × Delivered request s₀ r s))
                (Delivered request s₀)
                (elim o [ none ↦ raise generic_error | some r ↦ pure r ])
        held_response none truthy = Triple-raise _
        held_response (some r) truthy = Triple-pure r λ s h.
            let (r', e, d) = h.1 truthy in
            subst (λ x. Delivered request s₀ x s) (some_injective r' r e) d

    attempts_loop-Triple :
        (fuel n : ℕ) (l : Locals)
        → Triple (Ready l) (Delivered request s₀) (attempts_loop link from_payload fuel n request l)
    unfolding attempts_loop
    attempts_loop-Triple fuel zero l = conclude-Triple l
    attempts_loop-Triple fuel (suc n) l = Triple-bind _ _ _ (send-Triple l l.timeout) λ sent.
        Triple-if (ltb sent (length request.payload)) _ _ (λ short. Triple-raise _)
          λ whole.
            Triple-bind (λ start. Reading l) _ _
              (Triple-weaken _ (λ s h. (h.1 whole, h.0)) (λ a s h. h)
                (clock-Triple (Reading l) (Reading-Stays l)))
              λ start. Triple-bind Ended _ _ (read_loop-Triple fuel start l) (elim [
                | answered r ↦ Triple-pure r (λ s d. d)
                | gave_up l' ↦ attempts_loop-Triple fuel n l'
              ])

    pub send_and_read_response-Delivered :
        (fuel attempts timeout : ℕ)
        → Triple
            (λ s. s ≡ s₀)
            (Delivered request s₀)
            (send_and_read_response link from_payload fuel attempts request timeout)
    unfolding send_and_read_response
    send_and_read_response-Delivered fuel attempts timeout =
        Triple-bind (Delivered request s₀) _ _
          (Triple-weaken _ (λ s e. (subst (Calls request s₀) (sym e) idle, λ p. cc)) (λ a s d. d)
            (attempts_loop-Triple fuel attempts _))
          λ r.
            Triple-if (not r.positive) _ _ (λ negative. Triple-raise _)
              λ positive. Triple-pure r (λ s d. d)
