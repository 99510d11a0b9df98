-- ===== src/Examples/Bus.antt =====
-- A scripted CAN bus and an ISO-TP stack over it, with runs of both communicators.
use cyclarity_in_vehicle_sdk.Prelude.{
  length, ap, ℕ, ◌+◌, ◌≤◌, ◌<◌, ◌≡◌, ◌≢◌, refl, true, false, Option, none, some, List, [], ◌∷◌,
  arith,
}
use cyclarity_in_vehicle_sdk.Python.{
  Result, ok, raised, stuck, ◌>>=◌, ◌>>◌, os_error, runtime_error,
}
use cyclarity_in_vehicle_sdk.Can.{
  CanMessage, SocketcanBus, CanCommunicatorSocketCan, is_blacklisted, accepted, receive_open, sniff,
  add_to_blacklist,
}
use cyclarity_in_vehicle_sdk.Can.Accepted.{IsAllowed, sniff-IsAllowed}
use cyclarity_in_vehicle_sdk.Can.Deadline.{IsPrompt, EndsBy, receive_open_within}
use cyclarity_in_vehicle_sdk.IsoTp.{
  CanStack, initial_params, initial_address, open_isotp, send_isotp, close_isotp,
}
use cyclarity_in_vehicle_sdk.IsoTp.Lifecycle.{IsGrounded}
use cyclarity_in_vehicle_sdk.IsoTp.Reached.{
  new, created, after_open, after_send, Reached-IsGrounded,
}
use cyclarity_in_vehicle_sdk.IsoTp.Failure.{ready, open_isotp-failed}

-- The messages to come, and the time. They arrive at once; a wait for none takes its time.
record Wire : Type 0 where
  inbox : List CanMessage
  now : ℕ

abbrev tick : Option ℕ → ℕ
tick none = 1
tick (some t) = t

abbrev take_message : Option ℕ → Wire → Result (Option CanMessage) × Wire
take_message t w = elim w.inbox [
  | [] ↦ (ok none, record w { now = w.now + tick t })
  | m ∷ ms ↦ (ok (some m), record { inbox = ms; now = w.now })
]

abbrev wire : SocketcanBus
wire = record {
  Outside = Wire;
  connect = λ w. (ok tt, w);
  shutdown = λ w. (ok tt, w);
  transmit = λ m t w. (ok tt, w);
  transmit_periodic = λ ms p d w. (ok tt, w);
  recv = take_message;
  clock = λ w. w.now;
}

abbrev message : ℕ → CanMessage
message id = record { arbitration_id = id; payload = [] }

abbrev traffic : Wire
traffic = record { inbox = message 7 ∷ message 8 ∷ message 7 ∷ message 9 ∷ []; now = 100 }

abbrev opened : CanCommunicatorSocketCan wire
opened = record { is_set = true; blacklist_ids = []; outside = traffic }

-- The messages of 7 are left out.
sniffed :
    ((add_to_blacklist wire (7 ∷ []) >> sniff wire 10 4) opened).0 ≡ ok (message 8 ∷ message 9 ∷ [])
unfolding add_to_blacklist sniff ◌>>=◌ accepted is_blacklisted
sniffed = refl

sniff-IsAllowed_example :
    IsAllowed (7 ∷ []) (message 8) × (IsAllowed (7 ∷ []) (message 9) × Unit {0})
unfolding add_to_blacklist sniff ◌>>=◌ accepted is_blacklisted
sniff-IsAllowed_example = sniff-IsAllowed wire (7 ∷ []) 10 4 opened

take_message_ends :
    (t : ℕ) (w : Wire) (ms : List CanMessage) → w.inbox ≡ ms → (take_message (some t) w).0 ≢ stuck
take_message_ends t w [] e = rw e (λ p. cc)
take_message_ends t w (m ∷ ms) e = rw e (λ p. cc)

take_message_le :
    (t : ℕ) (w : Wire) (ms : List CanMessage)
    → w.inbox ≡ ms
    → (take_message (some t) w).1.now ≤ w.now + t
take_message_le t w [] e = rw e (omega arith)
take_message_le t w (m ∷ ms) e = rw e (omega arith)

abbrev Taken : Type 0
Taken = Result (Option CanMessage) × Wire

took_message :
    (t now : ℕ) (ms : List CanMessage) (w' : Wire) (m : CanMessage)
    → take_message (some t) (record { inbox = ms; now = now }) ≡ (ok (some m), w')
    → (now ≤ w'.now) × (length w'.inbox < length ms)
took_message t now [] w' m p = absurd (clash (ap {A = Taken} (λ p. p.0) p))
  where
    clash : ok none ≡ ok (some m) → ⊥
    clash e = cc
took_message t now (m' ∷ ms) w' m p =
    let time = ap {A = Taken} (λ p. p.1.now) p in
    let left = ap {A = Taken} (λ p. length p.1.inbox) p in
    (omega (arith, time), omega (arith, left))

took_none :
    (t now : ℕ) (ms : List CanMessage) (w' : Wire)
    → take_message (some t) (record { inbox = ms; now = now }) ≡ (ok none, w')
    → now + t ≤ w'.now
took_none t now [] w' p = let time = ap {A = Taken} (λ p. p.1.now) p in omega (arith, time)
took_none t now (m ∷ ms) w' p = absurd (clash (ap {A = Taken} (λ p. p.0) p))
  where
    clash : ok (some m) ≡ ok none → ⊥
    clash e = cc

wire-IsPrompt : IsPrompt wire
wire-IsPrompt = record {
  coming = λ w. length w.inbox;
  recv_ends = λ t w. take_message_ends t w w.inbox refl;
  recv_le = λ t w. take_message_le t w w.inbox refl;
  recv_message = λ t w w' m. took_message t w.now w.inbox w' m;
  recv_none = λ t w w'. took_none t w.now w.inbox w';
}

receive_open_within_example :
    EndsBy wire wire-IsPrompt 106 (receive_open wire 6 (7 ∷ []) (some 3) traffic)
unfolding wire-IsPrompt
receive_open_within_example =
    receive_open_within wire wire-IsPrompt 6 (7 ∷ []) 3 traffic (omega arith) (omega arith)

-- A stack that does nothing, and one that cannot be made.
abbrev stack_making : Result (Unit {0}) → CanStack wire
stack_making r = record {
  create = λ a p w. (r, w);
  start = λ w. (ok tt, w);
  stop = λ w. (ok tt, w);
  reset = λ w. (ok tt, w);
  change_address = λ a w. (ok tt, w);
  transmit = λ bs t w. (ok tt, w);
  take_frame = λ t w. (ok none, w);
}

Reached-IsGrounded_example :
    IsGrounded wire
      (stack_making (ok tt))
      (send_isotp wire
        (stack_making (ok tt))
        (1 ∷ [])
        5
        (open_isotp wire
          (stack_making (ok tt))
          (new wire (stack_making (ok tt)) 0x7e8 0x7e0 none false false traffic)).1).1
Reached-IsGrounded_example =
    Reached-IsGrounded wire (stack_making (ok tt)) _
      (after_send (1 ∷ []) 5 _ (after_open _ (created 0x7e8 0x7e0 none false false traffic)))

open_isotp-failed_example :
    let stack = stack_making (raised os_error) in
    let (r, s) = open_isotp wire stack (
      ready wire stack [] traffic
        (initial_address 0x7e8 0x7e0)
        (initial_params none false false)) in
    (r ≡ raised os_error)
    × (((close_isotp wire stack >> open_isotp wire stack) s).0 ≡ raised runtime_error)
open_isotp-failed_example =
    open_isotp-failed wire (stack_making (raised os_error)) [] traffic (initial_address 0x7e8 0x7e0)
      (initial_params none false false) os_error refl refl
