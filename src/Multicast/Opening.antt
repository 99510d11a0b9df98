-- ===== src/Multicast/Opening.antt =====
-- What `open` of the multicast communicator leaves behind, and what a timeout raises.
use cyclarity_in_vehicle_sdk.Prelude.{ℕ, ◌≡◌, refl, ◌&&◌, Bool, true, false, if◌then◌else◌}
use cyclarity_in_vehicle_sdk.Python.{
  Exec, Result, ok, raised, stuck, pure, raise, continue, handle, try_except, ◌>>=◌, ◌>>◌,
  runtime_error,
}
use cyclarity_in_vehicle_sdk.Multicast.{
  Sockets, MulticastCommunicator, on_socket, set_in, set_out, set_opened, setup_receive_socket,
  setup_send_socket, close_quietly, cleanup_in, cleanup_out, cleanup_sockets, open_sockets,
  open_multicast, is_ready_multicast,
}

module _ (sockets : Sockets) (is_ipv6 : Bool) (destination_ip : ℕ) where
  open sockets use {Outside}

  abbrev State : Type 0
  State = MulticastCommunicator sockets is_ipv6 destination_ip

  abbrev call : {A : Type 0} → Exec Outside A → Exec State A
  call = on_socket sockets is_ipv6 destination_ip

  -- What holds of the state of a call that returned; `E` says whether it may raise.
  abbrev Returned : {A : Type 0} → Type 0 → (State → Type 0) → Result A × State → Type 0
  Returned E Q (ok a, s) = Q s
  Returned E Q (raised e, s) = E
  Returned E Q (stuck, s) = Unit

  record Leaves {A : Type 0} (E : Type 0) (P Q : State → Type 0) (m : Exec State A) : Type 0 where
    at : (s : State) → P s → Returned E Q (m s)

  continue-Returned :
      {A B : Type 0} (E : Type 0) (R Q : State → Type 0) (r : Result A) (f : A → Exec State B)
      (s : State)
      → Returned E R (r, s)
      → ((a : A) → Leaves E R Q (f a))
      → Returned E Q (continue r f s)
  continue-Returned E R Q (ok a) f s h k = (k a).at s h
  continue-Returned E R Q (raised e) f s h k = h
  continue-Returned E R Q stuck f s h k = tt

  Leaves-bind :
      {A B : Type 0} {E : Type 0} {P : State → Type 0} (R : State → Type 0) {Q : State → Type 0}
      (m : Exec State A) (f : A → Exec State B)
      → Leaves E P R m
      → ((a : A) → Leaves E R Q (f a))
      → Leaves E P Q (m >>= f)
  unfolding ◌>>=◌
  Leaves-bind R m f h k = record {
    at = λ s p. continue-Returned _ R _ (m s).0 f (m s).1 (h.at s p) k;
  }

  Leaves-pure : {A : Type 0} {E : Type 0} (P : State → Type 0) (a : A) → Leaves E P P (pure a)
  unfolding pure
  Leaves-pure P a = record { at = λ s p. p }

  -- A set of the flags that a call on a socket leaves as they are.
  flags-Returned :
      {A : Type 0} (Q : State → Type 0) (r : Result A) (s : State) → Q s → Returned Unit Q (r, s)
  flags-Returned Q (ok a) s q = q
  flags-Returned Q (raised e) s q = tt
  flags-Returned Q stuck s q = tt

  abbrev Any : State → Type 0
  Any s = Unit

  abbrev HasIn : State → Type 0
  HasIn s = s.in_socket ≡ true

  abbrev HasBoth : State → Type 0
  HasBoth s = HasIn s × (s.out_socket ≡ true)

  call-Any : {A : Type 0} (m : Exec Outside A) → Leaves Unit Any Any (call m)
  unfolding on_socket
  call-Any m = record { at = λ s p. flags-Returned Any _ _ tt }

  call-HasIn : {A : Type 0} (m : Exec Outside A) → Leaves Unit HasIn HasIn (call m)
  unfolding on_socket
  call-HasIn m = record { at = λ s p. flags-Returned HasIn _ _ p }

  call-HasBoth : {A : Type 0} (m : Exec Outside A) → Leaves Unit HasBoth HasBoth (call m)
  unfolding on_socket
  call-HasBoth m = record { at = λ s p. flags-Returned HasBoth _ _ p }

  receive-HasIn : Leaves Unit Any HasIn (setup_receive_socket sockets is_ipv6 destination_ip)
  unfolding setup_receive_socket set_in
  receive-HasIn =
      Leaves-bind Any _ _ (call-Any _)
        λ _. Leaves-bind HasIn _ _ (record { at = λ s p. refl }) λ _. call-HasIn _

  send-HasBoth : Leaves Unit HasIn HasBoth (setup_send_socket sockets is_ipv6 destination_ip)
  unfolding setup_send_socket set_out
  send-HasBoth =
      Leaves-bind HasIn _ _ (call-HasIn _)
        λ _. Leaves-bind HasBoth _ _ (record { at = λ s p. (p, refl) }) λ _. call-HasBoth _

  abbrev IsReady : State → Type 0
  IsReady s = is_ready_multicast sockets is_ipv6 destination_ip s ≡ true

  ready_flags : (a b c : Bool) → a ≡ true → b ≡ true → c ≡ true → (a && (b && c)) ≡ true
  ready_flags a b c p q r = rw (p, q, r) refl

  opened-IsReady : Leaves Unit HasBoth IsReady (set_opened sockets is_ipv6 destination_ip true)
  unfolding set_opened is_ready_multicast
  opened-IsReady = record { at = λ s p. ready_flags true _ _ refl p.0 p.1 }

  found-Any : (b : Bool) → Leaves Unit Any Any (if b then call sockets.find_interface else pure tt)
  found-Any true = call-Any sockets.find_interface
  found-Any false = Leaves-pure Any tt

  open_sockets-IsReady : Leaves Unit Any IsReady (open_sockets sockets is_ipv6 destination_ip)
  unfolding open_sockets
  open_sockets-IsReady = Leaves-bind Any _ _ (found-Any is_ipv6) λ _.
      Leaves-bind HasIn _ _ receive-HasIn λ _.
        Leaves-bind HasBoth _ _ send-HasBoth
          λ _. Leaves-bind IsReady _ _ opened-IsReady λ _. Leaves-pure IsReady true

  -- Neither socket is set, and the communicator does not hold itself for open.
  abbrev pub Cleared : State → Type 0
  Cleared s = (s.in_socket ≡ false) × (s.out_socket ≡ false) × (s.opened ≡ false)

  handled-Quiet :
      (Q : State → Type 0) (r : Result (Unit {0})) (s : State)
      → Q s
      → Returned ⊥ Q (handle r (λ e. pure tt) s)
  unfolding pure
  handled-Quiet Q (ok a) s q = q
  handled-Quiet Q (raised e) s q = q
  handled-Quiet Q stuck s q = tt

  abbrev InClosed : State → Type 0
  InClosed s = s.in_socket ≡ false

  abbrev BothClosed : State → Type 0
  BothClosed s = InClosed s × (s.out_socket ≡ false)

  quiet-Any :
      (m : Exec Outside (Unit {0}))
      → Leaves ⊥ Any Any (close_quietly sockets is_ipv6 destination_ip m)
  unfolding close_quietly on_socket try_except
  quiet-Any m = record { at = λ s p. handled-Quiet Any _ _ tt }

  quiet-InClosed :
      (m : Exec Outside (Unit {0}))
      → Leaves ⊥ InClosed InClosed (close_quietly sockets is_ipv6 destination_ip m)
  unfolding close_quietly on_socket try_except
  quiet-InClosed m = record { at = λ s p. handled-Quiet InClosed _ _ p }

  if-Returned :
      {P Q : State → Type 0} (b : Bool) (m n : Exec State (Unit {0})) (s : State)
      → P s
      → Leaves ⊥ P Q m
      → (b ≡ false → Returned ⊥ Q (n s))
      → Returned ⊥ Q (if b then m s else n s)
  if-Returned true m n s p h k = h.at s p
  if-Returned false m n s p h k = k refl

  cleanup_in-InClosed : Leaves ⊥ Any InClosed (cleanup_in sockets is_ipv6 destination_ip)
  unfolding cleanup_in set_in pure
  cleanup_in-InClosed = record { at = λ s p. by_flag s s.in_socket refl }
    where
      by_flag :
          (s : State) (b : Bool)
          → s.in_socket ≡ b
          → Returned ⊥ InClosed (
              if b
              then (close_quietly sockets is_ipv6 destination_ip sockets.close_in
                    >> set_in sockets is_ipv6 destination_ip false)
                  s
              else pure tt s)
      by_flag s true e =
          (Leaves-bind Any _ _ (quiet-Any sockets.close_in) (λ _. record { at = λ s' p. refl })).at
            s tt
      by_flag s false e = e

  cleanup_out-BothClosed : Leaves ⊥ InClosed BothClosed (cleanup_out sockets is_ipv6 destination_ip)
  unfolding cleanup_out set_out pure
  cleanup_out-BothClosed = record { at = λ s p. by_flag s p s.out_socket refl }
    where
      by_flag :
          (s : State)
          → InClosed s
          → (b : Bool) → s.out_socket ≡ b
          → Returned ⊥ BothClosed (
              if b
              then (close_quietly sockets is_ipv6 destination_ip sockets.close_out
                    >> set_out sockets is_ipv6 destination_ip false)
                  s
              else pure tt s)
      by_flag s p true e =
          (Leaves-bind InClosed _ _ (quiet-InClosed sockets.close_out)
              (λ _. record { at = λ s' q. (q, refl) })).at
            s p
      by_flag s p false e = (p, e)

  cleanup-Cleared : Leaves ⊥ Any Cleared (cleanup_sockets sockets is_ipv6 destination_ip)
  unfolding cleanup_sockets set_opened
  cleanup-Cleared = Leaves-bind InClosed _ _ cleanup_in-InClosed λ _.
      Leaves-bind BothClosed _ _ cleanup_out-BothClosed λ _. record { at = λ s p. (p.0, p.1, refl) }

  abbrev pub Opened : Result Bool × State → Type 0
  Opened (ok b, s) = IsReady s
  Opened (raised e, s) = (e ≡ runtime_error) × Cleared s
  Opened (stuck, s) = Unit

  raised-Opened :
      (r : Result (Unit {0})) (s : State)
      → Returned ⊥ Cleared (r, s)
      → Opened (continue r (λ _. raise runtime_error) s)
  unfolding raise
  raised-Opened (ok a) s h = (refl, h)
  raised-Opened (raised e) s h = absurd h
  raised-Opened stuck s h = tt

  handled-Opened :
      (r : Result Bool) (s : State)
      → Returned Unit IsReady (r, s)
      → Opened
          (handle r (λ e. cleanup_sockets sockets is_ipv6 destination_ip >> raise runtime_error) s)
  unfolding ◌>>=◌
  handled-Opened (ok b) s h = h
  handled-Opened (raised e) s h = raised-Opened _ _ (cleanup-Cleared.at s tt)
  handled-Opened stuck s h = tt

  -- `open` leaves the communicator ready, or it raises RuntimeError with both sockets given up,
  -- whichever call on the sockets raised and in whatever state it was.
  pub open_multicast-Opened : (s : State) → Opened (open_multicast sockets is_ipv6 destination_ip s)
  unfolding open_multicast try_except
  open_multicast-Opened s = handled-Opened _ _ (open_sockets-IsReady.at s tt)
