-- ===== src/Uds/Sessions/Routes.antt =====
-- When `transit_to_session` succeeds.
use cyclarity_in_vehicle_sdk.Prelude.{
  ℕ, ◌≡◌, ◌≢◌, refl, Option, none, some, ap, subst, ◌∙◌, Bool, true, false, ◌↔◌, List, [], ◌∷◌,
  if◌then◌else◌,
}
use cyclarity_in_vehicle_sdk.Python.{
  Result, ok, raised, stuck, handle, continue, pure, try_except, ◌>>=◌,
}
use cyclarity_in_vehicle_sdk.Python.Inversion.{>>=-eq-ok, try_except-eq-ok}
use cyclarity_in_vehicle_sdk.Uds.Udsoncan.{UdsUtils}
use cyclarity_in_vehicle_sdk.Uds.Security.{SecurityAlgorithm, ElevationInfo, SessionAccess}
use cyclarity_in_vehicle_sdk.Uds.Services.{Method, session}
use cyclarity_in_vehicle_sdk.Uds.Sessions.{security_access, elevate, enter, transit_to_session}

module _ (u : UdsUtils) (timeout standard_version : ℕ) where
  abbrev World : Type 0
  World = u.data_link_layer.State

  -- What becomes of an elevation: nothing where none is described or it has no algorithm; otherwise
  -- a security access came to an end, by returning True or False, or by an exception.
  pub data Elevated : Option ElevationInfo → World → World → Type 0 where
    undescribed : {s : World} → Elevated none s s
    without_algorithm :
        {info : ElevationInfo} {s : World}
        → info.security_algorithm ≡ none
        → Elevated (some info) s s
    tried :
        {info : ElevationInfo} {algorithm : SecurityAlgorithm} {s s' : World}
        (outcome : Result Bool)
        → info.security_algorithm ≡ some algorithm
        → security_access u algorithm timeout s ≡ (outcome, s')
        → outcome ≢ stuck
        → Elevated (some info) s s'

  -- The whole route was taken: each session in turn answered its request, and the elevation that
  -- follows it ended, whatever came of it.
  pub data Taken : List SessionAccess → World → World → Type 0 where
    arrived : {s : World} → Taken [] s s
    next :
        {target : SessionAccess} {rest : List SessionAccess} {s s₁ s₂ s₃ : World} {echo : ℕ}
        → session u target.id timeout standard_version s ≡ (ok echo, s₁)
        → Elevated target.elevation_info s₁ s₂
        → Taken rest s₂ s₃
        → Taken (target ∷ rest) s s₃

  tried-elevate :
      (algorithm : SecurityAlgorithm) (outcome : Result Bool) (s s' : World)
      → security_access u algorithm timeout s ≡ (outcome, s')
      → outcome ≢ stuck
      → try_except (security_access u algorithm timeout >>= λ unlocked. pure tt) (λ e. pure tt) s
        ≡ (ok tt, s')
  unfolding try_except ◌>>=◌ pure
  tried-elevate algorithm (ok b) s s' p h = rw p refl
  tried-elevate algorithm (raised e) s s' p h = rw p refl
  tried-elevate algorithm stuck s s' p h = absurd (h refl)

  Elevated-elevate :
      {info : Option ElevationInfo} {s s' : World}
      → Elevated info s s'
      → elevate u info timeout s ≡ (ok tt, s')
  unfolding elevate pure
  Elevated-elevate undescribed = refl
  Elevated-elevate (without_algorithm none_there) = rw none_there refl
  Elevated-elevate (tried outcome there p h) = rw there (tried-elevate _ outcome _ _ p h)

  same_world :
      {A : Type 0} {r r' : Result A} {s s' : World}
      → ◌≡◌ {A = Result A × World} (r, s) (r', s')
      → s ≡ s'
  same_world {A = A} e = ap {A = Result A × World} (λ t. t.1) e

  elevate-tried :
      (info : ElevationInfo) (algorithm : SecurityAlgorithm) (s s' : World)
      (p : Result Bool × World)
      → info.security_algorithm ≡ some algorithm
      → security_access u algorithm timeout s ≡ p
      → handle
          (continue p.0 (λ unlocked. pure tt) p.1).0
          (λ e. pure tt)
          (continue p.0 (λ unlocked. pure tt) p.1).1
        ≡ (ok tt, s')
      → Elevated (some info) s s'
  unfolding pure
  elevate-tried info algorithm s s' (ok b, s₁) there p h =
      tried (ok b) there (p ∙ ap {A = World} (λ t. (ok b, t)) (same_world h)) (λ e. cc)
  elevate-tried info algorithm s s' (raised e, s₁) there p h =
      tried (raised e) there (p ∙ ap {A = World} (λ t. (raised e, t)) (same_world h)) (λ e. cc)
  elevate-tried info algorithm s s' (stuck, s₁) there p h = cc

  elevate-Elevated :
      (info : Option ElevationInfo) (s s' : World)
      → elevate u info timeout s ≡ (ok tt, s')
      → Elevated info s s'
  unfolding elevate try_except ◌>>=◌ pure
  elevate-Elevated none s s' h = subst (Elevated none s) (same_world h) undescribed
  elevate-Elevated (some info) s s' h = by_algorithm info.security_algorithm refl h
    where
      by_algorithm :
          (o : Option SecurityAlgorithm)
          → info.security_algorithm ≡ o
          → elim o as (λ x. Method u (Unit {0})) [
            | none ↦ pure tt
            | some algorithm ↦
                try_except
                  (security_access u algorithm timeout >>= λ unlocked. pure tt)
                  (λ e. pure tt)
          ]
              s
            ≡ (ok tt, s')
          → Elevated (some info) s s'
      by_algorithm none e h = subst (Elevated (some info) s) (same_world h) (without_algorithm e)
      by_algorithm (some algorithm) e h = elevate-tried info algorithm s s' _ e refl h

  pub Taken-transit :
      {route : List SessionAccess} {s s' : World}
      → Taken route s s'
      → transit_to_session u route timeout standard_version s ≡ (ok true, s')
  unfolding transit_to_session enter ◌>>=◌ try_except
  Taken-transit arrived = refl
  Taken-transit (next p q r) = rw (p, Elevated-elevate q) (Taken-transit r)

  -- One round: `enter` returned, and the rest of the route is taken from there.
  entered :
      (target : SessionAccess) (rest : List SessionAccess) (s s₁ s' : World)
      → enter u target timeout standard_version s ≡ (ok tt, s₁)
      → Taken rest s₁ s'
      → Taken (target ∷ rest) s s'
  unfolding enter
  entered target rest s s₁ s' p r =
      let (echo, s₀, q, e) = >>=-eq-ok (session u target.id timeout standard_version) _ s p in
      next q (elevate-Elevated target.elevation_info s₀ s₁ e) r

  try_enter : SessionAccess → Method u Bool
  try_enter target =
      try_except (enter u target timeout standard_version >>= λ done. pure true) (λ e. pure false)

  try_enter-ok :
      (target : SessionAccess) (s s₁ : World)
      → try_enter target s ≡ (ok true, s₁)
      → enter u target timeout standard_version s ≡ (ok tt, s₁)
  unfolding try_enter pure
  try_enter-ok target s s₁ p =
      let body =
        try_except-eq-ok (enter u target timeout standard_version >>= λ done. pure true)
          (λ e. pure false) s (λ e t b q r. cc) p in
      let (done, s₀, q, e) = >>=-eq-ok (enter u target timeout standard_version) _ s body in
      q ∙ ap {A = World} (λ t. (ok tt, t)) (ap {A = Result Bool × World} (λ t. t.1) e)

  stayed : (s s' : World) → pure true s ≡ (ok true, s') → Taken [] s s'
  unfolding pure
  stayed s s' h = subst (Taken [] s) (ap {A = Result Bool × World} (λ t. t.1) h) arrived

  not_entered : {A : Type 0} (s s' : World) → pure false s ≡ (ok true, s') → A
  unfolding pure
  not_entered s s' h = absurd (cc h)

  abbrev onward : List SessionAccess → Bool → Method u Bool
  onward rest b = if b then transit_to_session u rest timeout standard_version else pure false

  transit-Taken :
      (route : List SessionAccess) (s s' : World)
      → transit_to_session u route timeout standard_version s ≡ (ok true, s')
      → Taken route s s'
  unfolding transit_to_session try_enter
  transit-Taken [] s s' h = stayed s s' h
  transit-Taken (target ∷ rest) s s' h =
      let (b, s₁, p, q) = >>=-eq-ok (try_enter target) _ s h in
      round b s₁ p q (λ t. transit-Taken rest t s')
    where
      round :
          (b : Bool) (s₁ : World)
          → try_enter target s ≡ (ok b, s₁)
          → onward rest b s₁ ≡ (ok true, s')
          → ((t : World) → onward rest true t ≡ (ok true, s') → Taken rest t s')
          → Taken (target ∷ rest) s s'
      round true s₁ p q taken =
          entered target rest s s₁ s' (try_enter-ok target s s₁ p) (taken s₁ q)
      round false s₁ p q taken = not_entered s₁ s' q

  -- `transit_to_session` returns True, leaving the state `s'`, exactly when the whole route was taken
  -- from `s` to `s'`: every session change was answered, and the security access that follows it
  -- came to an end, a refused key or an exception of it included.
  pub transit_iff-Taken :
      (route : List SessionAccess) (s s' : World)
      → (transit_to_session u route timeout standard_version s ≡ (ok true, s')) ↔ Taken route s s'
  transit_iff-Taken route s s' = (transit-Taken route s s', Taken-transit)
