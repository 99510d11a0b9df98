-- ===== src/Uds/Security/Keys.antt =====
-- Which keys the algorithms make of a seed.
use cyclarity_in_vehicle_sdk.Prelude.{
  ℕ, ◌+◌, ◌^◌, ◌<◌, ◌≤◌, ◌≡◌, refl, ◌⊎◌, inl, inr, List, All, ltb, length, arith, Bool-cases,
  ltb→lt,
}
use cyclarity_in_vehicle_sdk.Prelude.Int.{ℤ, pos, negsuc, pos_part, neg_part}
use cyclarity_in_vehicle_sdk.Python.{Result, ok, raised, struct_error}
use cyclarity_in_vehicle_sdk.Python.Bytes.{from_bytes, big_endian}
use cyclarity_in_vehicle_sdk.Uds.Security.{pin, pack_long, key_of}

from_bytes-big_endian : (n : ℕ) → n < 4294967296 → from_bytes (big_endian 4 n) ≡ n
unfolding from_bytes big_endian
from_bytes-big_endian n h = omega arith

abbrev IsKeyFor : ℕ → Result (List ℕ) → Type 0
IsKeyFor n r =
    ((key : List ℕ) × (r ≡ ok key)
      × (length key ≡ 4)
      × All (λ b. b < 256) key
      × (from_bytes key ≡ n)
      × (n < 2 ^ 32))
    ⊎ ((r ≡ raised struct_error) × (2 ^ 32 ≤ n))

pack_long-IsKeyFor : (n : ℕ) → IsKeyFor n (pack_long n)
unfolding pack_long
pack_long-IsKeyFor n = elim (Bool-cases (ltb n (2 ^ 32))) [
  | inl small ↦ inl (
    big_endian 4 n,
    rw small,
    unfold big_endian in refl,
    unfold big_endian in (omega arith, (omega arith, (omega arith, (omega arith, tt)))),
    from_bytes-big_endian n (ltb→lt n _ small),
    ltb→lt n _ small,
  )
  | inr big ↦ inr (rw big, ground arith)
]

-- The key of a PIN: four bytes that hold the sum of seed and pin, or `struct.error` exactly where
-- that sum is negative or does not fit them.
abbrev pub IsPinKey : ℤ → ℕ → Result (List ℕ) → Type 0
IsPinKey v seed r =
    ((key : List ℕ) × (r ≡ ok key)
      × (length key ≡ 4)
      × All (λ b. b < 256) key
      × (seed + pos_part v < 2 ^ 32 + neg_part v)
      × (from_bytes key + neg_part v ≡ seed + pos_part v))
    ⊎ ((r ≡ raised struct_error)
        × ((seed + pos_part v < neg_part v) ⊎ (2 ^ 32 + neg_part v ≤ seed + pos_part v)))

packed : (v : ℤ) (seed n : ℕ) → n + neg_part v ≡ seed + pos_part v → IsPinKey v seed (pack_long n)
packed v seed n e = elim (pack_long-IsKeyFor n) [
  | inl (key, p, l, byte, q, small) ↦ inl (key, p, l, byte, omega arith, omega arith)
  | inr (p, q) ↦ inr (p, inr (omega arith))
]

-- `SECURITY_ALGORITHM_PIN` answers a seed with the sum of the seed and its pin, as four bytes, and
-- raises exactly where the sum is negative or needs more.
pub key_of-pin : (v : ℤ) (seed : List ℕ) → IsPinKey v (from_bytes seed) (key_of (pin v) seed)
unfolding key_of
key_of-pin (pos v) seed = packed (pos v) _ _ (omega arith)
key_of-pin (negsuc n) seed = elim (Bool-cases (ltb n (from_bytes seed))) [
  | inl more ↦ rw more (packed (negsuc n) _ _ (omega (arith, ltb→lt n _ more)))
  | inr less ↦ rw less (inr (refl, inl (ground arith)))
]
