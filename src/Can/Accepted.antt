-- ===== src/Can/Accepted.antt =====
-- Which messages `receive` and `sniff` of the CAN communicator let through, whatever the bus does.
use cyclarity_in_vehicle_sdk.Prelude.{
  ℕ, zero, suc, ◌-◌, ◌≡◌, refl, Bool, true, false, not, Option, none, some, List, [], ◌∷◌, ◌++◌,
  ltb, All, if◌then◌else◌, arith,
}
use cyclarity_in_vehicle_sdk.Python.{Exec, Result, ok, raised, stuck, raise, ◌>>◌, ◌>>=◌}
use cyclarity_in_vehicle_sdk.Python.Ensures.{
  Post, Ensures, Ensures-pure, Ensures-diverge, Ensures-if, Ensures-bind, Anything,
  Ensures-Anything,
}
use cyclarity_in_vehicle_sdk.Can.{
  CanMessage, SocketcanBus, CanCommunicatorSocketCan, is_blacklisted, accepted, append_message,
  is_unset, seconds, or_else, receive_loop, receive_open, sniff_loop, on_bus, when_open, receive,
  sniff, add_to_blacklist,
}

-- Not from a sender on the blacklist.
abbrev pub IsAllowed : List ℕ → CanMessage → Type 0
IsAllowed blacklist_ids m = is_blacklisted blacklist_ids m ≡ false

abbrev pub IsAllowedOption : List ℕ → Option CanMessage → Type 0
IsAllowedOption blacklist_ids none = Unit
IsAllowedOption blacklist_ids (some m) = IsAllowed blacklist_ids m

if-Allowed :
    (bl : List ℕ) (m : CanMessage) (b : Bool)
    → is_blacklisted bl m ≡ b
    → IsAllowedOption bl (if b then none else some m)
if-Allowed bl m true h = tt
if-Allowed bl m false h = h

accepted-Allowed : (bl : List ℕ) (o : Option CanMessage) → IsAllowedOption bl (accepted bl o)
unfolding accepted
accepted-Allowed bl none = tt
accepted-Allowed bl (some m) = if-Allowed bl m _ refl

append_message-All :
    (bl : List ℕ) (o : Option CanMessage) (ms : List CanMessage)
    → IsAllowedOption bl o
    → All (IsAllowed bl) ms
    → All (IsAllowed bl) (append_message o ms)
append_message-All bl none ms h hs = hs
append_message-All bl (some m) ms h hs = (h, hs)

module _ (bus : SocketcanBus) where
  open bus use {Outside}

  -- What follows a reception in the loop of `receive`.
  round-Allowed :
      (bl : List ℕ) (o : Option CanMessage) (rest : Exec Outside (Option CanMessage))
      → IsAllowedOption bl o
      → Ensures (IsAllowedOption bl) Anything rest
      → Ensures (IsAllowedOption bl) Anything (or_else bus o rest)
  round-Allowed bl none rest h hr = hr
  round-Allowed bl (some m) rest h hr = Ensures-pure _ h

  receive_loop-Allowed :
      (fuel : ℕ) (bl : List ℕ) (timeout start past : ℕ)
      → Ensures (IsAllowedOption bl) Anything (receive_loop bus fuel bl timeout start past)
  unfolding receive_loop
  receive_loop-Allowed zero bl timeout start past = Ensures-diverge
  receive_loop-Allowed (suc fuel) bl timeout start past =
      Ensures-if (not (ltb past timeout)) _ _ (λ late. Ensures-pure _ tt)
        λ in_time. Ensures-bind Anything _ _ (Ensures-Anything _) λ o _.
          round-Allowed bl (accepted bl o) _ (accepted-Allowed bl o) (
            Ensures-bind Anything _ _ (Ensures-Anything _)
              λ past' _. receive_loop-Allowed fuel bl timeout start past')

  pub receive_open-Allowed :
      (fuel : ℕ) (bl : List ℕ) (timeout : Option ℕ)
      → Ensures (IsAllowedOption bl) Anything (receive_open bus fuel bl timeout)
  unfolding receive_open
  receive_open-Allowed fuel bl timeout =
      Ensures-if (is_unset timeout) _ _
        (λ forever.
          Ensures-bind Anything _ _ (Ensures-Anything _)
            λ o _. Ensures-pure _ (accepted-Allowed bl o))
        λ timed. record { at = λ s. (receive_loop-Allowed fuel bl (seconds timeout) _ 0).at s }

  sniff_loop-Allowed :
      (fuel : ℕ) (bl : List ℕ) (sniff_time start past : ℕ)
      → Ensures (All (IsAllowed bl)) Anything (sniff_loop bus fuel bl sniff_time start past)
  unfolding sniff_loop
  sniff_loop-Allowed zero bl sniff_time start past = Ensures-diverge
  sniff_loop-Allowed (suc fuel) bl sniff_time start past =
      Ensures-if (not (ltb past sniff_time)) _ _ (λ late. Ensures-pure _ tt)
        λ in_time.
          Ensures-bind (IsAllowedOption bl) _ _
            (receive_open-Allowed fuel bl (some (sniff_time - past)))
            λ o h. Ensures-bind Anything _ _ (Ensures-Anything _) λ past' _.
              Ensures-bind (All (IsAllowed bl)) _ _
                (sniff_loop-Allowed fuel bl sniff_time start past')
                λ ms hs. Ensures-pure _ (append_message-All bl o ms h hs)

  sniff-Allowed :
      (fuel sniff_time : ℕ) (b : Bool) (s : CanCommunicatorSocketCan bus)
      → s.is_set ≡ b
      → Post (All (IsAllowed s.blacklist_ids)) Anything (sniff bus fuel sniff_time s).0
  unfolding sniff when_open on_bus raise
  sniff-Allowed fuel sniff_time true s e =
      rw e ((sniff_loop-Allowed fuel s.blacklist_ids sniff_time _ 0).at s.outside)
  sniff-Allowed fuel sniff_time false s e = rw e tt

  pub receive-Allowed :
      (fuel : ℕ) (timeout : Option ℕ) (b : Bool) (s : CanCommunicatorSocketCan bus)
      → s.is_set ≡ b
      → Post (IsAllowedOption s.blacklist_ids) Anything (receive bus fuel timeout s).0
  unfolding receive when_open on_bus raise
  receive-Allowed fuel timeout true s e =
      rw e ((receive_open-Allowed fuel s.blacklist_ids timeout).at s.outside)
  receive-Allowed fuel timeout false s e = rw e tt

-- A message that a longer blacklist lets through passes its first part.
any-append :
    (m : CanMessage) (xs ys : List ℕ) → is_blacklisted (xs ++ ys) m ≡ false → IsAllowed xs m
unfolding is_blacklisted
any-append m [] ys h = refl
any-append m (x ∷ xs) ys h = ground (arith, any-append m xs ys)

All-append :
    (xs ys : List ℕ) (ms : List CanMessage) → All (IsAllowed (xs ++ ys)) ms → All (IsAllowed xs) ms
All-append xs ys [] h = tt
All-append xs ys (m ∷ ms) h = (any-append m xs ys h.0, All-append xs ys ms h.1)

Post-All :
    (xs ys : List ℕ) (r : Result (List CanMessage))
    → Post (All (IsAllowed (xs ++ ys))) Anything r
    → Post (All (IsAllowed xs)) Anything r
Post-All xs ys (ok ms) h = All-append xs ys ms h
Post-All xs ys (raised e) h = tt
Post-All xs ys stuck h = tt

-- Once identifiers were added to the blacklist, `sniff` returns no message of theirs, for every bus
-- and clock.
pub sniff-IsAllowed :
    (bus : SocketcanBus) (canids : List ℕ) (fuel sniff_time : ℕ) (s : CanCommunicatorSocketCan bus)
    → Post
        (All (IsAllowed canids))
        Anything
        ((add_to_blacklist bus canids >> sniff bus fuel sniff_time) s).0
unfolding add_to_blacklist ◌>>=◌
sniff-IsAllowed bus canids fuel sniff_time s =
    Post-All canids s.blacklist_ids _ (sniff-Allowed bus fuel sniff_time s.is_set _ refl)
