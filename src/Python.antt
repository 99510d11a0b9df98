-- ===== src/Python.antt =====
-- What the sources use of Python itself: exceptions, and methods that change an object and may raise.
pub mod Ensures
pub mod Triples
pub mod Inversion
pub mod Bytes
pub mod Text
pub mod Number
use cyclarity_in_vehicle_sdk.Prelude.{ℕ}

-- The exceptions that the sources raise or handle. The texts of messages are left out, except
-- where the program reads them.
pub data Exn : Type 0 where
  runtime_error value_error type_error attribute_error index_error key_error : Exn
  timeout_error blocking_io_error connection_reset_error os_error : Exn
  not_implemented_error overflow_error struct_error generic_error : Exn
  blocking_send_timeout no_response invalid_response : Exn
  negative_response : ℕ → Exn

-- `stuck` is no exception: a loop of the model has used up its fuel, and no handler sees it.
pub data Result {ℓ} (A : Type ℓ) : Type ℓ where
  ok : A → Result A
  raised : Exn → Result A
  stuck : Result A

-- A method: what it wrote before it raised stays written.
abbrev pub Exec {ℓ} : Type ℓ → Type ℓ → Type ℓ
Exec S A = S → Result A × S

module _ {ℓ} {S A : Type ℓ} where
  unfoldable pub pure : A → Exec S A
  pure a s = (ok a, s)

  unfoldable pub raise : Exn → Exec S A
  raise e s = (raised e, s)

  -- A function that may raise and changes nothing.
  unfoldable pub lift : Result A → Exec S A
  lift r s = (r, s)

  -- The loop has run out of fuel.
  unfoldable pub diverge : Exec S A
  diverge s = (stuck, s)

module _ {ℓ} {S A B : Type ℓ} where
  abbrev pub continue : Result A → (A → Exec S B) → Exec S B
  continue (ok a) f s = f a s
  continue (raised e) f s = (raised e, s)
  continue stuck f s = (stuck, s)

  -- One statement after another. To open this opens `pure`, `raise`, `lift` and `diverge` too.
  infixl 10 ◌>>=◌
  unfoldable pub ◌>>=◌ : Exec S A → (A → Exec S B) → Exec S B
  unfolding pure raise lift diverge
  ◌>>=◌ first next s = let (outcome, s') = first s in continue outcome next s'

  infixl 10 ◌>>◌
  abbrev pub ◌>>◌ : Exec S A → Exec S B → Exec S B
  first >> second = first >>= λ _. second

module _ {ℓ} {S A : Type ℓ} where
  abbrev pub handle : Result A → (Exn → Exec S A) → Exec S A
  handle (ok a) h s = (ok a, s)
  handle (raised e) h s = h e s
  handle stuck h s = (stuck, s)

  -- `try: m except ...: h`; a handler raises again what it does not name.
  unfoldable pub try_except : Exec S A → (Exn → Exec S A) → Exec S A
  unfolding pure raise lift diverge
  try_except m h s = let (r, s') = m s in handle r h s'
