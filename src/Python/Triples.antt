-- ===== src/Python/Triples.antt =====
-- Methods between a condition on the state before them and one on what they return and leave.
use cyclarity_in_vehicle_sdk.Prelude.{◌≡◌, refl, Bool, true, false, if◌then◌else◌}
use cyclarity_in_vehicle_sdk.Python.{
  Exn, Result, ok, raised, stuck, Exec, pure, raise, lift, diverge, ◌>>=◌, continue,
}
use cyclarity_in_vehicle_sdk.Python.Ensures.{Post, Ensures, Anything}

abbrev pub Leaves : {S A : Type 0} → (A → S → Type 0) → Result A × S → Type 0
Leaves Q (ok a, s) = Q a s
Leaves Q (raised e, s) = Unit
Leaves Q (stuck, s) = Unit

-- From a state with `P`, where `m` returns, its value and the state it leaves are in `Q`.
pub record Triple {S A : Type 0} (P : S → Type 0) (Q : A → S → Type 0) (m : Exec S A) : Type 0 where
  pub at : (s : S) → P s → Leaves Q (m s)

module _ {S A : Type 0} (Q : A → S → Type 0) where
  lift-Leaves : (r : Result A) (s : S) → ((a : A) → r ≡ ok a → Q a s) → Leaves Q (r, s)
  lift-Leaves (ok a) s h = h a refl
  lift-Leaves (raised e) s h = tt
  lift-Leaves stuck s h = tt

  call-Leaves : (p : Result A × S) → ((a : A) (s' : S) → p ≡ (ok a, s') → Q a s') → Leaves Q p
  call-Leaves (ok a, s) h = h a s refl
  call-Leaves (raised e, s) h = tt
  call-Leaves (stuck, s) h = tt

  weaken-Leaves :
      (Q' : A → S → Type 0) (p : Result A × S)
      → ((a : A) (s : S) → Q a s → Q' a s)
      → Leaves Q p
      → Leaves Q' p
  weaken-Leaves Q' (ok a, s) h l = h a s l
  weaken-Leaves Q' (raised e, s) h l = tt
  weaken-Leaves Q' (stuck, s) h l = tt

  with-Leaves :
      (R : A → Type 0) (r : Result A) (s : S)
      → Post R Anything r
      → Leaves Q (r, s)
      → Leaves (λ a s. R a × Q a s) (r, s)
  with-Leaves R (ok a) s h l = (h, l)
  with-Leaves R (raised e) s h l = tt
  with-Leaves R stuck s h l = tt

module _ {S A : Type 0} {P : S → Type 0} {Q : A → S → Type 0} where
  pub Triple-pure : (a : A) → ((s : S) → P s → Q a s) → Triple P Q (pure a)
  unfolding pure
  Triple-pure a h = record { at = h }

  pub Triple-raise : (e : Exn) → Triple P Q (raise e)
  unfolding raise
  Triple-raise e = record { at = λ s h. tt }

  pub Triple-diverge : Triple P Q diverge
  unfolding diverge
  Triple-diverge = record { at = λ s h. tt }

  pub Triple-if :
      (b : Bool) (m n : Exec S A)
      → (b ≡ true → Triple P Q m)
      → (b ≡ false → Triple P Q n)
      → Triple P Q (if b then m else n)
  Triple-if true m n hm hn = hm refl
  Triple-if false m n hm hn = hn refl

  pub Triple-lift :
      (r : Result A) → ((a : A) (s : S) → r ≡ ok a → P s → Q a s) → Triple P Q (lift r)
  unfolding lift
  Triple-lift r h = record { at = λ s p. lift-Leaves Q r s (λ a e. h a s e p) }

  -- The state before the method has a name.
  pub Triple-anchored : (m : Exec S A) → ((s₁ : S) → P s₁ → Triple (λ s. s ≡ s₁) Q m) → Triple P Q m
  Triple-anchored m h = record { at = λ s p. (h s p).at s refl }

  -- A call of which nothing is known but that it was made.
  pub Triple-call :
      (m : Exec S A) → ((s : S) (a : A) (s' : S) → P s → m s ≡ (ok a, s') → Q a s') → Triple P Q m
  Triple-call m h = record { at = λ s p. call-Leaves Q (m s) (λ a s' e. h s a s' p e) }

module _ {S A : Type 0} {P P' : S → Type 0} {Q Q' : A → S → Type 0} where
  pub Triple-weaken :
      (m : Exec S A)
      → ((s : S) → P' s → P s)
      → ((a : A) (s : S) → Q a s → Q' a s)
      → Triple P Q m
      → Triple P' Q' m
  Triple-weaken m before after h = record {
    at = λ s p. weaken-Leaves Q Q' (m s) after (h.at s (before s p));
  }

module _ {S A : Type 0} {P : S → Type 0} {Q : A → S → Type 0} where
  pub Triple-with :
      (R : A → Type 0) (m : Exec S A)
      → Ensures R Anything m
      → Triple P Q m
      → Triple P (λ a s. R a × Q a s) m
  Triple-with R m e h = record { at = λ s p. with-Leaves Q R (m s).0 (m s).1 (e.at s) (h.at s p) }

module _ {S A B : Type 0} (Q : B → S → Type 0) where
  continue-Leaves :
      (R : A → S → Type 0) (r : Result A) (f : A → Exec S B) (s : S)
      → Leaves R (r, s)
      → ((a : A) → Triple (R a) Q (f a))
      → Leaves Q (continue r f s)
  continue-Leaves R (ok a) f s h hf = (hf a).at s h
  continue-Leaves R (raised e) f s h hf = tt
  continue-Leaves R stuck f s h hf = tt

  lifted-Leaves :
      (r : Result A) (f : A → Exec S B) (s : S)
      → ((a : A) → r ≡ ok a → Leaves Q (f a s))
      → Leaves Q (continue r f s)
  lifted-Leaves (ok a) f s h = h a refl
  lifted-Leaves (raised e) f s h = tt
  lifted-Leaves stuck f s h = tt

module _ {S A B : Type 0} {P : S → Type 0} {Q : B → S → Type 0} where
  pub Triple-bind :
      (R : A → S → Type 0) (m : Exec S A) (f : A → Exec S B)
      → Triple P R m
      → ((a : A) → Triple (R a) Q (f a))
      → Triple P Q (m >>= f)
  unfolding ◌>>=◌
  Triple-bind R m f hm hf = record {
    at = λ s p. continue-Leaves Q R (m s).0 f (m s).1 (hm.at s p) hf;
  }

  -- The value of a function that changes nothing is known afterwards.
  pub Triple-lifted :
      (r : Result A) (f : A → Exec S B)
      → ((a : A) → r ≡ ok a → Triple P Q (f a))
      → Triple P Q (lift r >>= f)
  unfolding lift ◌>>=◌
  Triple-lifted r f h = record { at = λ s p. lifted-Leaves Q r f s (λ a e. (h a e).at s p) }
