-- ===== src/IsoTp/Lifecycle.antt =====
-- The life of an ISO-TP communicator: whatever is called on it, and whatever raises, an open
-- communicator stands on an open CAN bus; and what a failed `open` leaves behind.
use cyclarity_in_vehicle_sdk.Prelude.{
  ℕ, ◌≡◌, refl, sym, ◌∙◌, Bool, true, false, Option, none, some, List, if◌then◌else◌,
}
use cyclarity_in_vehicle_sdk.Python.{
  Exn, Exec, Result, ok, raised, stuck, pure, raise, continue, handle, try_except, ◌>>=◌, ◌>>◌,
  runtime_error,
}
use cyclarity_in_vehicle_sdk.Can.{
  SocketcanBus, CanCommunicatorSocketCan, open_can, close_can, on_bus, set_bus,
}
use cyclarity_in_vehicle_sdk.IsoTp.{
  Address, Params, CanStack, IsoTpCommunicator, on_can, on_stack, set_open, set_address,
  is_send_timeout, on_send_timeout, send_isotp, recv_isotp, open_with, open_isotp, close_isotp,
}

module _ (bus : SocketcanBus) (stack : CanStack bus) where
  open bus use {Outside}

  abbrev pub State : Type 0
  State = IsoTpCommunicator bus stack

  -- An open communicator stands on an open bus.
  abbrev pub IsGrounded : State → Type 0
  IsGrounded s = s.is_open ≡ true → s.can_communicator.is_set ≡ true

  abbrev HasBus : State → Type 0
  HasBus s = s.can_communicator.is_set ≡ true

  abbrev pub After : {A : Type 0} (Q : State → Type 0) → Result A × State → Type 0
  After Q (ok a, s) = Q s
  After Q (raised e, s) = IsGrounded s
  After Q (stuck, s) = IsGrounded s

  -- From a state with `P`, `m` ends in one with `Q`; where it raises, in one that is grounded.
  pub record Leads {A : Type 0} (P Q : State → Type 0) (m : Exec State A) : Type 0 where
    pub at : (s : State) → P s → After Q (m s)

  module _ {A : Type 0} where
    Leads-pure : (P : State → Type 0) (a : A) → Leads P P (pure a)
    unfolding pure
    Leads-pure P a = record { at = λ s h. h }

    Leads-raise : (e : Exn) → Leads {A = A} IsGrounded IsGrounded (raise e)
    unfolding raise
    Leads-raise e = record { at = λ s h. h }

  module _ {A B : Type 0} where
    continue-After :
        (R Q : State → Type 0) (r : Result A) (f : A → Exec State B) (s : State)
        → After R (r, s)
        → ((a : A) → Leads R Q (f a))
        → After Q (continue r f s)
    continue-After R Q (ok a) f s h hf = (hf a).at s h
    continue-After R Q (raised e) f s h hf = h
    continue-After R Q stuck f s h hf = h

    Leads-bind :
        {P : State → Type 0} (R : State → Type 0) {Q : State → Type 0} (m : Exec State A)
        (f : A → Exec State B)
        → Leads P R m
        → ((a : A) → Leads R Q (f a))
        → Leads P Q (m >>= f)
    unfolding ◌>>=◌
    Leads-bind R m f hm hf = record {
      at = λ s h. continue-After R _ (m s).0 f (m s).1 (hm.at s h) hf;
    }

  -- A call of the stack leaves both flags as they are.
  stack-After :
      {A : Type 0} (P : State → Type 0) (r : Result A) (s : State)
      → IsGrounded s
      → P s
      → After P (r, s)
  stack-After P (ok a) s g h = h
  stack-After P (raised e) s g h = g
  stack-After P stuck s g h = g

  stack-Grounded :
      {A : Type 0} (m : Exec Outside A) → Leads IsGrounded IsGrounded (on_stack bus stack m)
  unfolding on_stack
  stack-Grounded m = record { at = λ s h. stack-After IsGrounded _ _ h h }

  stack-Bus : {A : Type 0} (m : Exec Outside A) → Leads HasBus HasBus (on_stack bus stack m)
  unfolding on_stack
  stack-Bus m = record { at = λ s h. stack-After HasBus _ _ (λ e. h) h }

  -- What opening the bus leaves: it is open, or nothing has changed.
  opened-After :
      (s : State) (r : Result (Unit {0})) (c : CanCommunicatorSocketCan bus)
      → IsGrounded (record s { can_communicator = c })
      → After HasBus (
          let (r', c') = continue r (λ _. set_bus bus true) c in
          (r', record s { can_communicator = c' }))
  unfolding set_bus
  opened-After s (ok tt) o h = refl
  opened-After s (raised e) o h = h
  opened-After s stuck o h = h

  open_can-After :
      (s : State) (b : Bool)
      → s.can_communicator.is_set ≡ b
      → IsGrounded s
      → After HasBus (on_can bus stack (open_can bus) s)
  unfolding on_can open_can on_bus ◌>>=◌
  open_can-After s true e h = rw e (λ p. refl)
  open_can-After s false e h = rw e (
      opened-After s (bus.connect s.can_communicator.outside).0
        (record {
          is_set = false;
          blacklist_ids = s.can_communicator.blacklist_ids;
          outside = (bus.connect s.can_communicator.outside).1;
        })
        (λ p. sym e ∙ h p))

  open_can-Bus : Leads IsGrounded HasBus (on_can bus stack (open_can bus))
  open_can-Bus = record { at = λ s h. open_can-After s _ refl h }

  -- What closing the bus leaves, where it does not raise, is told by no flag.
  closed-After :
      (s : State) (r : Result (Unit {0})) (c : CanCommunicatorSocketCan bus)
      → IsGrounded (record s { can_communicator = c })
      → After
          (λ s'. Unit)
          (let (r', c') = continue r (λ _. set_bus bus false) c in
            (r', record s { can_communicator = c' }))
  unfolding set_bus
  closed-After s (ok tt) o h = tt
  closed-After s (raised e) o h = h
  closed-After s stuck o h = h

  close_can-After :
      (s : State) (b : Bool)
      → s.can_communicator.is_set ≡ b
      → IsGrounded s
      → After (λ s'. Unit) (on_can bus stack (close_can bus) s)
  unfolding on_can close_can on_bus ◌>>=◌
  close_can-After s true e h = rw e (
      closed-After s (bus.shutdown s.can_communicator.outside).0
        (record {
          is_set = true;
          blacklist_ids = s.can_communicator.blacklist_ids;
          outside = (bus.shutdown s.can_communicator.outside).1;
        })
        (λ p. refl))
  close_can-After s false e h = rw e tt

  close_can-Any : Leads IsGrounded (λ s. Unit) (on_can bus stack (close_can bus))
  close_can-Any = record { at = λ s h. close_can-After s _ refl h }

  set_open-true : Leads HasBus IsGrounded (set_open bus stack true)
  unfolding set_open
  set_open-true = record { at = λ s h e. h }

  set_open-false : Leads (λ s. Unit) IsGrounded (set_open bus stack false)
  unfolding set_open
  set_open-false = record { at = λ s h e. cc }

  open_with-Grounded :
      (a : Address) (p : Params) → Leads IsGrounded IsGrounded (open_with bus stack a p)
  unfolding open_with
  open_with-Grounded a p = Leads-bind HasBus _ _ open_can-Bus λ _.
      Leads-bind HasBus _ _ (stack-Bus _) λ _.
        Leads-bind HasBus _ _ (stack-Bus _)
          λ _. Leads-bind IsGrounded _ _ set_open-true λ _. Leads-pure _ true

  close_steps-Grounded : Leads IsGrounded IsGrounded (
      on_stack bus stack stack.stop
      >> on_stack bus stack stack.reset
      >> on_can bus stack (close_can bus)
      >> set_open bus stack false
      >> pure true)
  close_steps-Grounded =
      Leads-bind IsGrounded _ _
        (Leads-bind (λ s. Unit) _ _
          (Leads-bind IsGrounded _ _
            (Leads-bind IsGrounded _ _ (stack-Grounded _) λ _. stack-Grounded _) λ _. close_can-Any)
          λ _. set_open-false)
        λ _. Leads-pure _ true

  Leads-if :
      {A : Type 0} (b : Bool) (m n : Exec State A) (s : State)
      → IsGrounded s
      → Leads IsGrounded IsGrounded m
      → Leads IsGrounded IsGrounded n
      → After IsGrounded ((if b then m s else n s))
  Leads-if true m n s h hm hn = hm.at s h
  Leads-if false m n s h hm hn = hn.at s h

  handled-After :
      (r : Result ℕ) (s : State)
      → After IsGrounded (r, s)
      → After IsGrounded (handle r (on_send_timeout bus stack) s)
  unfolding on_send_timeout pure raise
  handled-After (ok a) s h = h
  handled-After (raised e) s h = by_test (is_send_timeout e) h
    where
      by_test :
          (b : Bool) → IsGrounded s → After {A = ℕ} IsGrounded ((if b then pure 0 else raise e) s)
      by_test true g = g
      by_test false g = g
  handled-After stuck s h = h

  Leads-try :
      (m : Exec State ℕ)
      → Leads IsGrounded IsGrounded m
      → Leads IsGrounded IsGrounded (try_except m (on_send_timeout bus stack))
  unfolding try_except
  Leads-try m h = record { at = λ s g. handled-After (m s).0 (m s).1 (h.at s g) }

  pub send_isotp-Grounded :
      (bytes : List ℕ) (timeout : ℕ)
      → Leads IsGrounded IsGrounded (send_isotp bus stack bytes timeout)
  unfolding send_isotp
  send_isotp-Grounded bytes timeout = record {
    at = λ s h.
        Leads-if s.is_open _ _ s h
          (Leads-try _ (Leads-bind IsGrounded _ _ (stack-Grounded _) λ _. Leads-pure _ _))
          (Leads-raise runtime_error);
  }

  pub recv_isotp-Grounded : (t : ℕ) → Leads IsGrounded IsGrounded (recv_isotp bus stack t)
  unfolding recv_isotp
  recv_isotp-Grounded t = record {
    at = λ s h.
        Leads-if s.is_open _ _ s h
          (Leads-bind IsGrounded _ _ (stack-Grounded _) λ _. Leads-pure _ _)
          (Leads-raise runtime_error);
  }

  pub close_isotp-Grounded : Leads IsGrounded IsGrounded (close_isotp bus stack)
  unfolding close_isotp
  close_isotp-Grounded = record {
    at = λ s h. Leads-if s.is_open _ _ s h close_steps-Grounded (Leads-pure _ true);
  }

  pub open_isotp-Grounded : Leads IsGrounded IsGrounded (open_isotp bus stack)
  unfolding open_isotp
  open_isotp-Grounded = record { at = λ s h. by_address s s.address h }
    where
      by_address :
          (s : State) (o : Option Address)
          → IsGrounded s
          → After IsGrounded (elim o as (λ _. Result Bool × State) [
            | none ↦ (ok false, s)
            | some address ↦ open_with bus stack address s.params s
          ])
      by_address s none h = h
      by_address s (some a) h = (open_with-Grounded a s.params).at s h

  pub set_address-Grounded : (a : Address) → Leads IsGrounded IsGrounded (set_address bus stack a)
  unfolding set_address
  set_address-Grounded a = record {
    at = λ s h.
        Leads-if s.is_open _ _ (record s { address = some a }) h
          (stack-Grounded (stack.change_address a)) (Leads-pure _ tt);
  }

  -- `After` forgets how a call ended.
  ended-Grounded : {A : Type 0} (r : Result A) (s : State) → After IsGrounded (r, s) → IsGrounded s
  ended-Grounded (ok a) s h = h
  ended-Grounded (raised e) s h = h
  ended-Grounded stuck s h = h

  pub keeps_ground :
      {A : Type 0} {m : Exec State A}
      → Leads IsGrounded IsGrounded m
      → (s : State) → IsGrounded s
      → IsGrounded (m s).1
  keeps_ground h s g = ended-Grounded _ _ (h.at s g)
