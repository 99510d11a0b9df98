-- ===== src/Python/Ensures.antt =====
-- Postconditions of methods: what holds of a returned value, and of a raised exception.
use cyclarity_in_vehicle_sdk.Prelude.{◌≡◌, refl, sym, Bool, true, false, if◌then◌else◌}
use cyclarity_in_vehicle_sdk.Python.{
  Exn, Result, ok, raised, stuck, Exec, pure, raise, lift, diverge, ◌>>=◌, continue,
}

abbrev pub Post {ℓ} : {A : Type ℓ} → (A → Type 0) → (Exn → Type 0) → Result A → Type 0
Post P E (ok a) = P a
Post P E (raised e) = E e
Post P E stuck = Unit

-- Whatever the state, `m` returns a value with `P`, or raises an exception with `E`.
pub record Ensures {ℓ} {S A : Type ℓ} (P : A → Type 0) (E : Exn → Type 0) (m : Exec S A)
    : Type ℓ where
  pub at : (s : S) → Post P E (m s).0

module _ {ℓ} {S A : Type ℓ} {P : A → Type 0} {E : Exn → Type 0} where
  pub Ensures-pure : (a : A) → P a → Ensures {S = S} P E (pure a)
  unfolding pure
  Ensures-pure a h = record { at = λ s. h }

  pub Ensures-raise : (e : Exn) → E e → Ensures {S = S} P E (raise e)
  unfolding raise
  Ensures-raise e h = record { at = λ s. h }

  pub Ensures-diverge : Ensures {S = S} P E diverge
  unfolding diverge
  Ensures-diverge = record { at = λ s. tt }

  pub Ensures-if :
      (b : Bool) (m n : Exec S A)
      → (b ≡ true → Ensures P E m)
      → (b ≡ false → Ensures P E n)
      → Ensures P E (if b then m else n)
  Ensures-if true m n hm hn = hm refl
  Ensures-if false m n hm hn = hn refl

module _ {ℓ} {S A B : Type ℓ} {P : B → Type 0} {E : Exn → Type 0} where
  Post-continue :
      (Q : A → Type 0) (r : Result A) (f : A → Exec S B) (s : S)
      → Post Q E r
      → ((a : A) → Q a → Ensures P E (f a))
      → Post P E (continue r f s).0
  Post-continue Q (ok a) f s h hf = (hf a h).at s
  Post-continue Q (raised e) f s h hf = h
  Post-continue Q stuck f s h hf = tt

  pub Ensures-bind :
      (Q : A → Type 0) (m : Exec S A) (f : A → Exec S B)
      → Ensures Q E m
      → ((a : A) → Q a → Ensures P E (f a))
      → Ensures P E (m >>= f)
  unfolding ◌>>=◌
  Ensures-bind Q m f hm hf = record { at = λ s. Post-continue Q (m s).0 f (m s).1 (hm.at s) hf }

-- Nothing is claimed.
abbrev pub Anything {ℓ} : {A : Type ℓ} → A → Type 0
Anything a = Unit

Post-Anything {ℓ} : {A : Type ℓ} (r : Result A) → Post Anything Anything r
Post-Anything (ok a) = tt
Post-Anything (raised e) = tt
Post-Anything stuck = tt

module _ {ℓ} {S A : Type ℓ} where
  pub Ensures-Anything : (m : Exec S A) → Ensures Anything Anything m
  Ensures-Anything m = record { at = λ s. Post-Anything (m s).0 }

Post-self : {A : Type 0} (r r' : Result A) → r' ≡ r → Post (λ a. r ≡ ok a) Anything r'
Post-self r (ok a) e = sym e
Post-self r (raised e') e = tt
Post-self r stuck e = tt

pub Ensures-lift : {S A : Type 0} (r : Result A) → Ensures {S = S} (λ a. r ≡ ok a) Anything (lift r)
unfolding lift
Ensures-lift r = record { at = λ s. Post-self r r refl }

Post-weaken {ℓ} :
    {A : Type ℓ} (P Q : A → Type 0) (E : Exn → Type 0) (r : Result A)
    → ((a : A) → P a → Q a)
    → Post P E r
    → Post Q E r
Post-weaken P Q E (ok a) f h = f a h
Post-weaken P Q E (raised e) f h = h
Post-weaken P Q E stuck f h = tt

module _ {ℓ} {A : Type ℓ} {P Q : A → Type 0} {E : Exn → Type 0} where
  pub Ensures-weaken :
      {S : Type ℓ} (m : Exec S A) → ((a : A) → P a → Q a) → Ensures P E m → Ensures Q E m
  Ensures-weaken m f h = record { at = λ s. Post-weaken P Q E (m s).0 f (h.at s) }
