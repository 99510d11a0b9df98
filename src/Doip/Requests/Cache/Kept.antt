-- ===== src/Doip/Requests/Cache/Kept.antt =====
-- What the cache of TCP communicators holds after a communicator was asked for.
use cyclarity_in_vehicle_sdk.Prelude.{
  ℕ, ◌≡◌, refl, Bool, true, false, Option, none, some, List, [], ◌∷◌, Bool-cases, inl, inr,
  if◌then◌else◌, arith,
}
use cyclarity_in_vehicle_sdk.Python.{Exec, Result, ok, raised, stuck, pure, continue, ◌>>=◌, ◌>>◌}
use cyclarity_in_vehicle_sdk.Doip.Requests.Cache.{
  Key, is_key, TcpFactory, lookup, insert, DoipUtils, on_tcp, store, make_tcp_communicator, renew,
  get_tcp_communicator,
}

is_key_refl : (key : Key) → is_key key key ≡ true
is_key_refl (a, b) = ground arith

is_key-false :
    (other key key' : Key)
    → is_key other key ≡ false
    → is_key key key' ≡ true
    → is_key other key' ≡ false
is_key-false (a, b) (c, d) (e, f) h k = ground arith

lookup-insert :
    (key : Key) (tcp : ℕ) (cache : List (Key × ℕ)) → lookup key (insert key tcp cache) ≡ some tcp
unfolding lookup insert
lookup-insert key tcp [] = rw (is_key_refl key) refl
lookup-insert key tcp ((key', tcp') ∷ cache) = elim (Bool-cases (is_key key key')) [
  | inl same ↦ rw (same, same) refl
  | inr differs ↦ rw (differs, differs) (lookup-insert key tcp cache)
]

lookup-insert_other :
    (other key : Key) (tcp : ℕ) (cache : List (Key × ℕ))
    → is_key other key ≡ false
    → lookup other (insert key tcp cache) ≡ lookup other cache
unfolding lookup insert
lookup-insert_other other key tcp [] h = rw h refl
lookup-insert_other other key tcp ((key', tcp') ∷ cache) h = elim (Bool-cases (is_key key key')) [
  | inl same ↦ rw (same, is_key-false other key key' h same) refl
  | inr differs ↦ rw (differs, lookup-insert_other other key tcp cache h) refl
]

module _ (factory : TcpFactory) where
  open factory use {Outside, create, is_open, open_tcp, connect, close_tcp}

  abbrev State : Type 0
  State = DoipUtils factory

  -- The communicator that was returned is the one in the cache, and no other key has changed; where
  -- a call raised, the cache is as it was.
  abbrev pub Kept : Key → List (Key × ℕ) → Result (Bool × ℕ) × State → Type 0
  Kept key cache (ok (cached, tcp), s) =
      (lookup key s.tcp_communicators_cache ≡ some tcp)
      × ((other : Key)
          → is_key other key ≡ false
          → lookup other s.tcp_communicators_cache ≡ lookup other cache)
  Kept key cache (raised e, s) = s.tcp_communicators_cache ≡ cache
  Kept key cache (stuck, s) = s.tcp_communicators_cache ≡ cache

  after :
      {A : Type 0} (key : Key) (cache : List (Key × ℕ)) (r : Result A)
      (f : A → Exec State (Bool × ℕ)) (s : State)
      → s.tcp_communicators_cache ≡ cache
      → ((a : A) → Kept key cache (f a s))
      → Kept key cache (continue r f s)
  after key cache (ok a) f s h k = k a
  after key cache (raised e) f s h k = h
  after key cache stuck f s h k = h

  -- One call on a socket, and what follows it.
  after_tcp :
      {A : Type 0} (key : Key) (cache : List (Key × ℕ)) (m : Exec Outside A)
      (f : A → Exec State (Bool × ℕ)) (s : State)
      → s.tcp_communicators_cache ≡ cache
      → ((a : A) (t : State) → t.tcp_communicators_cache ≡ cache → Kept key cache (f a t))
      → Kept key cache ((on_tcp factory m >>= f) s)
  unfolding on_tcp ◌>>=◌
  after_tcp key cache m f s h k = after key cache (m s.outside).0 f _ h λ a. k a _ h

  stored-Kept :
      (key : Key) (cache : List (Key × ℕ)) (tcp : ℕ) (s : State)
      → s.tcp_communicators_cache ≡ cache
      → Kept key cache ((store factory key tcp >> pure (false, tcp)) s)
  unfolding store pure ◌>>=◌
  stored-Kept key cache tcp s h = rw h (
    lookup-insert key tcp cache,
    λ other differs. lookup-insert_other other key tcp cache differs,
  )

  make-Kept :
      (key : Key) (cache : List (Key × ℕ)) (s : State)
      → s.tcp_communicators_cache ≡ cache
      → Kept key cache (make_tcp_communicator factory key s)
  unfolding make_tcp_communicator
  make-Kept key cache s h = after_tcp key cache (create key) _ s h λ tcp s₁ h₁.
      after_tcp key cache (open_tcp tcp) _ s₁ h₁ λ opened s₂ h₂.
        after_tcp key cache (connect tcp) _ s₂ h₂ λ connected s₃ h₃. stored-Kept key cache tcp s₃ h₃

  renew-Kept :
      (key : Key) (cache : List (Key × ℕ)) (tcp : ℕ) (opened : Bool) (s : State)
      → lookup key cache ≡ some tcp
      → s.tcp_communicators_cache ≡ cache
      → Kept key cache (renew factory key tcp opened s)
  unfolding renew pure
  renew-Kept key cache tcp true s found h = rw h (found, λ other differs. refl)
  renew-Kept key cache tcp false s found h = after_tcp key cache (is_open tcp) _ s h λ opened s₁ h₁.
      after_tcp key cache (if opened then pure true else close_tcp tcp) _ s₁ h₁
        λ closed s₂ h₂. make-Kept key cache s₂ h₂

  -- Whatever the sockets do: a communicator that is returned is in the cache under its key, the other
  -- keys keep theirs, and where a call raised, the cache is as it was.
  pub get_tcp_communicator-Kept :
      (key : Key) (s : State)
      → Kept key s.tcp_communicators_cache (get_tcp_communicator factory key s)
  unfolding get_tcp_communicator
  get_tcp_communicator-Kept key s = by_lookup (lookup key s.tcp_communicators_cache) refl
    where
      by_lookup :
          (o : Option ℕ)
          → lookup key s.tcp_communicators_cache ≡ o
          → Kept key s.tcp_communicators_cache (elim o as (λ _. Result (Bool × ℕ) × State) [
            | none ↦ make_tcp_communicator factory key s
            | some tcp ↦ (on_tcp factory (is_open tcp) >>= renew factory key tcp) s
          ])
      by_lookup none e = make-Kept key s.tcp_communicators_cache s refl
      by_lookup (some tcp) e =
          after_tcp key s.tcp_communicators_cache (is_open tcp) _ s refl
            λ opened s₁ h₁. renew-Kept key s.tcp_communicators_cache tcp opened s₁ e h₁
