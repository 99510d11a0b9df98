-- ===== src/Plugin/Crash/Verdicts.antt =====
-- When the crash detectors report a crash.
use cyclarity_in_vehicle_sdk.Prelude.{
  ℕ, ◌+◌, ◌*◌, ◌/◌, ◌%◌, ◌<◌, ◌≤◌, ◌≡◌, ◌≢◌, refl, ap, ◌⊎◌, inl, inr, ◌↔◌, Bool, true, false, not,
  ◌&&◌, Option, none, some, [], ◌∷◌, ◌==◌, ==_iff, ltb, if◌then◌else◌, arith,
}
use cyclarity_in_vehicle_sdk.Prelude.Tables.{holds_below, holds_below-at}
use cyclarity_in_vehicle_sdk.Python.{
  Result, ok, raised, stuck, pure, continue, handle, try_except, ◌>>=◌, no_response,
}
use cyclarity_in_vehicle_sdk.Python.Bytes.{hex}
use cyclarity_in_vehicle_sdk.Python.Number.{int}
use cyclarity_in_vehicle_sdk.Uds.Dids.{entry}
use cyclarity_in_vehicle_sdk.Uds.Udsoncan.{UdsUtils}
use cyclarity_in_vehicle_sdk.Uds.Services.{tester_present}
use cyclarity_in_vehicle_sdk.Plugin.Crash.{
  on_exception, compare_session, session_changed, check_tester_present, active_diagnostic_session,
}

-- How `int` reads the two hexadecimal digits of a byte as a decimal number.
abbrev decimal_reading : ℕ → Option ℕ
decimal_reading a = if ltb (a / 16) 10 && ltb (a % 16) 10 then some (a / 16 * 10 + a % 16) else none

abbrev same_reading : Option ℕ → Option ℕ → Bool
same_reading none none = true
same_reading (some a) (some b) = a == b
same_reading _ _ = false

same_reading→eq : (p q : Option ℕ) → same_reading p q ≡ true → p ≡ q
same_reading→eq none none h = refl
same_reading→eq (some a) (some b) h = ap some ((==_iff a b).0 h)
same_reading→eq none (some b) h = cc
same_reading→eq (some a) none h = cc

reading_table :
    holds_below (λ a. same_reading (int 10 (hex (a ∷ []))) (decimal_reading a)) 256 ≡ true
unfolding holds_below int hex
reading_table = refl

int-hex : (a : ℕ) → a < 256 → int 10 (hex (a ∷ [])) ≡ decimal_reading a
int-hex a h = same_reading→eq _ _ (
    holds_below-at (λ a. same_reading (int 10 (hex (a ∷ []))) (decimal_reading a)) 256 a h
      reading_table)

low_reading : (a : ℕ) → a < 10 → decimal_reading a ≡ some a
low_reading a h = ground arith

high_reading : (a : ℕ) → 10 ≤ a → compare_session a (decimal_reading a) ≢ ok false
unfolding compare_session
high_reading a h = ground arith

-- A report of one byte, as `read_did` hands it to the detector.
abbrev pub Reported : ℕ → Result Bool → ℕ → Type 0
Reported current_session r a =
    session_changed current_session (entry active_diagnostic_session (a ∷ []) ∷ []) ≡ r

-- Where the ECU reports, in one byte, a session below 10, the comparison is right: a change is seen
-- exactly where there is one.
session_changed_below_ten :
    (current_session a : ℕ) → a < 10 → Reported current_session (ok (not (a == current_session))) a
unfolding session_changed
session_changed_below_ten current_session a h = rw (int-hex a (omega arith), low_reading a h)

-- From session 10 on the comparison is wrong: an ECU that is still in the session, and reports it in
-- one byte, is never found unchanged.
pub session_changed_from_ten : (a : ℕ) → 10 ≤ a → a < 256 → ¬ Reported a (ok false) a
unfolding session_changed
session_changed_from_ten a h k e = high_reading a h (rw (int-hex a k) at e)

module _ (u : UdsUtils) (operation_timeout : ℕ) where
  abbrev World : Type 0
  World = u.data_link_layer.State

  abbrev Outcome : Type 0
  Outcome = Result Bool × World

  concluded : Result Bool → World → Outcome
  concluded r t =
      let (r', t') = continue r (λ res. pure (not res)) t in
      handle r' (λ e. pure (on_exception e)) t'

  concluded-crash :
      (r : Result Bool) (t s' : World)
      → concluded r t ≡ (ok true, s')
      → (◌≡◌ {A = Outcome} (r, t) (raised no_response, s'))
        ⊎ (◌≡◌ {A = Outcome} (r, t) (ok false, s'))
  unfolding concluded on_exception pure
  concluded-crash (ok true) t s' h = absurd (cc h)
  concluded-crash (ok false) t s' h = inr (ap {A = Outcome} {B = Outcome} (λ p. (ok false, p.1)) h)
  concluded-crash (raised no_response) t s' h =
      inl (ap {A = Outcome} {B = Outcome} (λ p. (raised no_response, p.1)) h)
  concluded-crash (raised e) t s' h = absurd (cc h)
  concluded-crash stuck t s' h = absurd (cc h)

  -- `check_crash` of the tester present detector reports a crash exactly when no response came, or
  -- one that does not echo the subfunction.
  pub check_tester_present_iff :
      (s s' : World)
      → (check_tester_present u operation_timeout s ≡ (ok true, s')) ↔ (
          (tester_present u operation_timeout s ≡ (raised no_response, s'))
          ⊎ (tester_present u operation_timeout s ≡ (ok false, s')))
  unfolding check_tester_present concluded on_exception try_except ◌>>=◌
  check_tester_present_iff s s' = (
    concluded-crash (tester_present u operation_timeout s).0
        (tester_present u operation_timeout s).1 s',
    elim [ inl silent ↦ rw silent | inr refused ↦ rw refused ],
  )
