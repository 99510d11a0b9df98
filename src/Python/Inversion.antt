-- ===== src/Python/Inversion.antt =====
-- What is known of the parts of a method that returned.
use cyclarity_in_vehicle_sdk.Prelude.{◌≡◌, refl, ap}
use cyclarity_in_vehicle_sdk.Python.{
  Exn, Exec, Result, ok, raised, stuck, continue, handle, try_except, ◌>>=◌,
}

module _ {ℓ} {S A B : Type ℓ} where
  continue-eq-ok :
      (r : Result A) (f : A → Exec S B) (s : S) {b : B} {s' : S}
      → continue r f s ≡ (ok b, s')
      → (a : A) × (r ≡ ok a) × (f a s ≡ (ok b, s'))
  continue-eq-ok (ok a) f s h = (a, refl, h)
  continue-eq-ok (raised e) f s h = cc
  continue-eq-ok stuck f s h = cc

  pub >>=-eq-ok :
      (m : Exec S A) (f : A → Exec S B) (s : S) {b : B} {s' : S}
      → (m >>= f) s ≡ (ok b, s')
      → (a : A) × (s₁ : S) × (m s ≡ (ok a, s₁)) × (f a s₁ ≡ (ok b, s'))
  unfolding ◌>>=◌
  >>=-eq-ok m f s h =
      let (a, p, q) = continue-eq-ok (m s).0 f (m s).1 h in (a, (m s).1, λ i. (p i, (m s).1), q)

module _ {ℓ} {S A : Type ℓ} where
  handle-eq-ok :
      (r : Result A) (h : Exn → Exec S A) (s : S) {a : A} {s' : S}
      → ((e : Exn) (b : A) → (h e s).0 ≡ ok b → b ≡ a → ⊥)
      → handle r h s ≡ (ok a, s')
      → ◌≡◌ {A = Result A × S} (r, s) (ok a, s')
  handle-eq-ok (ok a) h s never p = p
  handle-eq-ok (raised e) h s never p = absurd (never e _ (ap (λ t. t.0) p) refl)
  handle-eq-ok stuck h s never p = p

  -- A result that the handler never gives comes from the method itself.
  pub try_except-eq-ok :
      (m : Exec S A) (h : Exn → Exec S A) (s : S) {a : A} {s' : S}
      → ((e : Exn) (t : S) (b : A) → (h e t).0 ≡ ok b → b ≡ a → ⊥)
      → try_except m h s ≡ (ok a, s')
      → m s ≡ (ok a, s')
  unfolding try_except
  try_except-eq-ok m h s never p = handle-eq-ok (m s).0 h (m s).1 (λ e. never e (m s).1) p
