-- ===== src/Python/Bytes.antt =====
-- Python's `bytes` as lists of numbers below 256, and what the sources use of them.
use cyclarity_in_vehicle_sdk.Prelude.{
  ℕ, zero, suc, ◌+◌, ◌-◌, ◌*◌, ◌/◌, ◌%◌, ◌^◌, ◌≡◌, refl, Bool, true, false, ◌&&◌, Option, none,
  some, List, [], ◌∷◌, ◌++◌, ◌==◌, ltb, if◌then◌else◌, length, take, drop, arith,
}
use mathlib.Core.Option

-- `data.startswith(sub)`
unfoldable pub starts_with : List ℕ → List ℕ → Bool
starts_with [] ys = true
starts_with (x ∷ xs) [] = false
starts_with (x ∷ xs) (y ∷ ys) = x == y && starts_with xs ys

-- `data.find(sub)` for a `sub` that is not empty; `none` stands for -1.
unfoldable pub find : List ℕ → List ℕ → Option ℕ
unfolding starts_with
find sub [] = none
find sub (y ∷ ys) =
    let later = Option.map suc (find sub ys) in if starts_with sub (y ∷ ys) then some 0 else later

-- `data.find(sub, start)`
unfoldable pub find_from : List ℕ → List ℕ → ℕ → Option ℕ
unfolding find
find_from sub ys start = Option.map (λ i. start + i) (find sub (drop start ys))

-- `data[i:j]`
abbrev pub slice : ℕ → ℕ → List ℕ → List ℕ
slice i j ys = take (j - i) (drop i ys)

-- `int.from_bytes(data, byteorder='big')`
unfoldable pub from_bytes_acc : ℕ → List ℕ → ℕ
from_bytes_acc n [] = n
from_bytes_acc n (b ∷ bs) = from_bytes_acc (n * 256 + b) bs

unfoldable pub from_bytes : List ℕ → ℕ
unfolding from_bytes_acc
from_bytes bs = from_bytes_acc 0 bs

-- The `k` lowest bytes of `n`, the highest first.
unfoldable pub big_endian : ℕ → ℕ → List ℕ
big_endian zero n = []
big_endian (suc k) n = (n / 256 ^ k % 256) ∷ big_endian k n

-- A hexadecimal digit of `bytes.hex()`.
unfoldable pub hex_digit : ℕ → ℕ
hex_digit n = if ltb n 10 then n + b'0' else (n - 10) + b'a'

-- `data.hex()`
unfoldable pub hex : List ℕ → List ℕ
unfolding hex_digit
hex [] = []
hex (b ∷ bs) = hex_digit (b / 16) ∷ hex_digit (b % 16) ∷ hex bs

pub starts_with-append : (xs ys : List ℕ) → starts_with xs (xs ++ ys) ≡ true
unfolding starts_with
starts_with-append [] ys = refl
starts_with-append (x ∷ xs) ys = ground (arith, starts_with-append xs ys)

-- No occurrence of `sub` begins in the part `xs` of `xs ++ ys`.
abbrev pub NoneBefore : List ℕ → List ℕ → List ℕ → Type 0
NoneBefore sub [] ys = Unit
NoneBefore sub (x ∷ xs) ys = (starts_with sub (x ∷ xs ++ ys) ≡ false) × NoneBefore sub xs ys

-- `find` gives the first occurrence.
pub find-first :
    (s : ℕ) (sub xs ys : List ℕ)
    → NoneBefore (s ∷ sub) xs ((s ∷ sub) ++ ys)
    → find (s ∷ sub) (xs ++ ((s ∷ sub) ++ ys)) ≡ some (length xs)
unfolding find
find-first s sub [] ys h = rw (starts_with-append (s ∷ sub) ys)
find-first s sub (x ∷ xs) ys h = rw (h.0, find-first s sub xs ys h.1)
