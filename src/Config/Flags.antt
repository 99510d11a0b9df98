-- ===== src/Config/Flags.antt =====
-- The flags that are read of an interface, and their sum.
use Prim.Native.Nat.{bit_and, bit_and-bitwise, digits, min}
use native.Mathlib.Nat.{pow-suc}
use cyclarity_in_vehicle_sdk.Prelude.{
  ℕ, zero, suc, ◌+◌, ◌*◌, ◌/◌, ◌%◌, ◌^◌, ◌≡◌, ◌≤◌, ◌⊎◌, refl, sym, ap, ◌∙◌, true, false, not, List,
  [], ◌∷◌, ◌==◌, map, length, arith, Bool-cases, ==_iff, inl, inr, if◌then◌else◌,
}
use cyclarity_in_vehicle_sdk.Python.{ok}
use cyclarity_in_vehicle_sdk.Config.{
  EthIfFlags, all_flags, member, flags_in, get_flags_from_int, sum_flags,
}

-- The flags have the values of one bit each, from the bit `k` on, in their order.
abbrev pub IsBits : (EthIfFlags → ℕ) → ℕ → List EthIfFlags → Type 0
IsBits value k [] = Unit
IsBits value k (flag ∷ flags) = (value flag ≡ 2 ^ k) × IsBits value (suc k) flags

-- The bit `k` of `n`, at its place.
abbrev bit : ℕ → ℕ → ℕ
bit zero n = n % 2
bit (suc k) n = bit k (n / 2) * 2

bit-zero : (k : ℕ) → bit k 0 ≡ 0
bit-zero zero = refl
bit-zero (suc k) = omega (arith, bit-zero k)

abbrev common : ℕ → ℕ → ℕ → ℕ
common fuel a b = digits (λ b. 0) min fuel a b

common-zero : (fuel a : ℕ) → common fuel a 0 ≡ 0
common-zero zero a = refl
common-zero (suc fuel) zero = refl
common-zero (suc fuel) (suc a) = omega (arith, common-zero fuel (suc a / 2))

-- Of a power of two, only its bit is common.
common-pow : (fuel k a : ℕ) → a ≤ fuel → common fuel a (2 ^ k) ≡ bit k a
common-pow zero k zero h = sym (bit-zero k)
common-pow zero k (suc a) h = absurd (omega (arith, h))
common-pow (suc fuel) k zero h = sym (bit-zero k)
common-pow (suc fuel) zero (suc a) h = omega (arith, common-zero fuel (suc a / 2))
common-pow (suc fuel) (suc k) (suc a) h =
    let half : 2 ^ suc k / 2 ≡ 2 ^ k = omega (arith, pow-suc 2 k) in
    let even : 2 ^ suc k % 2 ≡ 0 = omega (arith, pow-suc 2 k) in
    rw (half, even) (omega (arith, common-pow fuel k (suc a / 2) (omega (arith, h))))

bit_and-pow : (k n : ℕ) → bit_and n (2 ^ k) ≡ bit k n
bit_and-pow k n = bit_and-bitwise n (2 ^ k) ∙ common-pow n k n (omega arith)

-- A bit is 0 or the power of two.
bit-cases : (k n : ℕ) → (bit k n ≡ 0) ⊎ (bit k n ≡ 2 ^ k)
bit-cases zero n = elim (Bool-cases (n % 2 == 0)) [
  | inl e ↦ inl (ground arith)
  | inr e ↦ inr (ground arith)
]
bit-cases (suc k) n = elim (bit-cases k (n / 2)) [
  | inl e ↦ inl (omega (arith, e))
  | inr e ↦ inr (omega (arith, e, pow-suc 2 k))
]

-- The `m` bits from `k` on.
abbrev bits : ℕ → ℕ → ℕ → ℕ
bits k zero n = 0
bits k (suc m) n = bit k n + bits (suc k) m n

low : (n : ℕ) → bits 0 19 n ≡ n % 524288
low n = omega arith

sum_flags-in :
    (value : EthIfFlags → ℕ) (k total n : ℕ) (flags : List EthIfFlags)
    → IsBits value k flags
    → sum_flags value total (map member (flags_in value n flags))
      ≡ ok (total + bits k (length flags) n)
unfolding sum_flags flags_in
sum_flags-in value k total n [] h = ap ok (omega arith)
sum_flags-in value k total n (flag ∷ flags) h =
    let bit_k : bit_and n (value flag) ≡ bit k n = ap (bit_and n) h.0 ∙ bit_and-pow k n in
    by_bit (Bool-cases (bit_and n (value flag) == 0)) bit_k
      (λ t. sum_flags-in value (suc k) t n flags h.1)
  where
    later : List EthIfFlags
    later = flags_in value n flags

    by_bit :
        ((bit_and n (value flag) == 0) ≡ true) ⊎ ((bit_and n (value flag) == 0) ≡ false)
        → bit_and n (value flag) ≡ bit k n
        → ((t : ℕ) → sum_flags value t (map member later) ≡ ok (t + bits (suc k) (length flags) n))
        → sum_flags value total
            (map member (if not (bit_and n (value flag) == 0) then flag ∷ later else later))
          ≡ ok (total + (bit k n + bits (suc k) (length flags) n))
    by_bit (inl e) bit_k rest =
        rw e (rest total ∙ ap ok (omega (arith, bit_k, (==_iff (bit_and n (value flag)) 0).0 e)))
    by_bit (inr e) bit_k rest =
        rw e (rest (total + value flag) ∙ ap ok (set_bit e bit_k (bit-cases k n)))
      where
        set_bit :
            (bit_and n (value flag) == 0) ≡ false
            → bit_and n (value flag) ≡ bit k n
            → (bit k n ≡ 0) ⊎ (bit k n ≡ 2 ^ k)
            → total + value flag + bits (suc k) (length flags) n
              ≡ total + (bit k n + bits (suc k) (length flags) n)
        set_bit e b (inl z) = absurd (ground (arith, e, b, z))
        set_bit e b (inr p) = omega (arith, p, h.0)

-- What `get_flags_from_int` reads of the flags of an interface sums up to these flags again, those
-- that the class names: the lowest 19 bits. The values of the flags are those of one bit each, in
-- the order of the class.
pub get_flags_from_int-sum :
    (value : EthIfFlags → ℕ) (n : ℕ)
    → IsBits value 0 all_flags
    → sum_flags value 0 (map member (get_flags_from_int value n)) ≡ ok (n % 2 ^ 19)
unfolding get_flags_from_int
get_flags_from_int-sum value n h =
    sum_flags-in value 0 0 n all_flags h ∙ ap ok (omega (arith, low n))
