-- ===== src/Doip/Requests/Cache.antt =====
-- `_get_tcp_communicator` of `DoipUtils`: a communicator for each pair of addresses, made anew when
-- the one in the cache is no longer open.
pub mod Kept
use cyclarity_in_vehicle_sdk.Prelude.{
  ℕ, ◌≡◌, refl, Bool, true, false, Option, none, some, List, [], ◌∷◌, ◌&&◌, ◌==◌, ==_refl,
  if◌then◌else◌, arith,
}
use cyclarity_in_vehicle_sdk.Python.{Exec, Result, ok, raised, stuck, pure, continue, ◌>>=◌, ◌>>◌}

-- The key of two addresses; the text that joins them with '_' determines both.
abbrev pub Key : Type 0
Key = ℕ × ℕ

abbrev pub is_key : Key → Key → Bool
is_key (source, target) (source', target') = (source == source') && (target == target')

-- `TcpCommunicator`s by the names that stand for the objects.
pub record TcpFactory : Type 1 where
  pub Outside : Type 0
  pub create : Key → Exec Outside ℕ
  pub is_open : ℕ → Exec Outside Bool
  pub open_tcp : ℕ → Exec Outside Bool
  pub connect : ℕ → Exec Outside Bool
  pub close_tcp : ℕ → Exec Outside Bool

-- `_tcp_communicators_cache.get(key, None)`
unfoldable pub lookup : Key → List (Key × ℕ) → Option ℕ
lookup key [] = none
lookup key ((key', tcp) ∷ cache) =
    let later = lookup key cache in if is_key key key' then some tcp else later

-- `_tcp_communicators_cache[key] = tcp`
unfoldable pub insert : Key → ℕ → List (Key × ℕ) → List (Key × ℕ)
insert key tcp [] = (key, tcp) ∷ []
insert key tcp ((key', tcp') ∷ cache) =
    let later = insert key tcp cache in
    if is_key key key' then (key', tcp) ∷ cache else (key', tcp') ∷ later

module _ (factory : TcpFactory) where
  open factory use {Outside, create, is_open, open_tcp, connect, close_tcp}

  pub record DoipUtils : Type 0 where
    pub tcp_communicators_cache : List (Key × ℕ)
    pub outside : Outside

  abbrev pub Utils : Type 0 → Type 0
  Utils A = Exec DoipUtils A

  unfoldable pub on_tcp : {A : Type 0} → Exec Outside A → Utils A
  on_tcp m s = let (r, o) = m s.outside in (r, record s { outside = o })

  unfoldable pub store : Key → ℕ → Utils (Unit {0})
  unfolding insert
  store key tcp s =
      (ok tt, record s { tcp_communicators_cache = insert key tcp s.tcp_communicators_cache })

  unfoldable pub make_tcp_communicator : Key → Utils (Bool × ℕ)
  unfolding on_tcp store
  make_tcp_communicator key = do
    tcp ← on_tcp (create key)
    on_tcp (open_tcp tcp)
    on_tcp (connect tcp)
    store key tcp
    pure (false, tcp)

  -- Only a communicator that a second `is_open` finds closed is closed.
  unfoldable pub renew : Key → ℕ → Bool → Utils (Bool × ℕ)
  unfolding on_tcp make_tcp_communicator
  renew key tcp true = pure (true, tcp)
  renew key tcp false = do
    opened ← on_tcp (is_open tcp)
    on_tcp (if opened then pure true else close_tcp tcp)
    make_tcp_communicator key

  unfoldable pub get_tcp_communicator : Key → Utils (Bool × ℕ)
  unfolding on_tcp renew make_tcp_communicator
  get_tcp_communicator key s = elim (lookup key s.tcp_communicators_cache) [
    | none ↦ make_tcp_communicator key s
    | some tcp ↦ (on_tcp (is_open tcp) >>= renew key tcp) s
  ]

  -- `teardown`, after the raw socket was closed.
  unfoldable pub close_cached : List (Key × ℕ) → Utils Bool
  unfolding on_tcp
  close_cached [] = pure true
  close_cached ((key, tcp) ∷ cache) = on_tcp (close_tcp tcp) >> close_cached cache
