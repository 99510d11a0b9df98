-- ===== src/Address/Network.antt =====
-- Where the addresses that `build_ip` builds lie, and where it fails to build one.
use native.Mathlib.Nat.{one-le-pow, mod-add-div, mul-add-div, div-eq_of_lt}
use cyclarity_in_vehicle_sdk.Prelude.{
  ℕ, ◌+◌, ◌-◌, ◌*◌, ◌/◌, ◌^◌, ◌<◌, ◌≡◌, refl, ap, ◌∙◌, Bool, true, false, Option, none, some, ltb,
  leb, leb→le, if◌then◌else◌, arith,
}
use cyclarity_in_vehicle_sdk.Prelude.Int.{ℤ, pos, negsuc}
use cyclarity_in_vehicle_sdk.Python.{Result, ok, raised, stuck, value_error}
use cyclarity_in_vehicle_sdk.Address.{
  IpAddress, ipv4, ipv6, randint, network_address, with_host, with_drawn, choose_host, build_in,
  build_ip,
}

pow_pos : (k : ℕ) → 0 < 2 ^ k
pow_pos k = omega (arith, one-le-pow k 2 (omega arith))

network_address_multiple : (base k : ℕ) → network_address base k ≡ 2 ^ k * (base / 2 ^ k)
unfolding network_address
network_address_multiple base k = omega (arith, mod-add-div base (2 ^ k))

-- The host part does not leave the network.
network_address-div :
    (base k h : ℕ) → h < 2 ^ k → (network_address base k + h) / 2 ^ k ≡ base / 2 ^ k
network_address-div base k h lt =
    ap (λ n. (n + h) / 2 ^ k) (network_address_multiple base k)
    ∙ mul-add-div (pow_pos k) (base / 2 ^ k) h
    ∙ ap (λ n. base / 2 ^ k + n) (div-eq_of_lt lt)
    ∙ omega arith

-- An address of the same family, with the same leading bits but for the last `k`.
abbrev Near : (ℕ → IpAddress) → ℕ → ℕ → IpAddress → Type 0
Near address base k a = (n : ℕ) × (a ≡ address n) × (n / 2 ^ k ≡ base / 2 ^ k)

with_host-Near :
    (address : ℕ → IpAddress) (base k : ℕ) (host : ℤ) (a : IpAddress)
    → with_host address base k host ≡ ok (some a)
    → Near address base k a
unfolding with_host
with_host-Near address base k (negsuc n) a h = cc
with_host-Near address base k (pos h) a e = by_test (leb h (2 ^ k - 1)) refl e
  where
    by_test :
        (b : Bool)
        → leb h (2 ^ k - 1) ≡ b
        → ◌≡◌ {A = Result (Option IpAddress)}
            (if b then ok (some (address (network_address base k + h))) else ok none)
            (ok (some a))
        → Near address base k a
    by_test true fits p = (
      network_address base k + h,
      cc,
      network_address-div base k h (omega (arith, leb→le h (2 ^ k - 1) fits, pow_pos k)),
    )
    by_test false fits p = cc

module _ (draw : ℕ → ℕ → ℕ) where
  drawn-Near :
      (address : ℕ → IpAddress) (base k : ℕ) (r : Result ℕ) (a : IpAddress)
      → with_drawn draw address base k r ≡ ok (some a)
      → Near address base k a
  drawn-Near address base k (ok n) a h = with_host-Near address base k (pos n) a h
  drawn-Near address base k (raised e) a h = cc
  drawn-Near address base k stuck a h = cc

  choose_host-Near :
      (address : ℕ → IpAddress) (base k : ℕ) (host : Option ℤ) (a : IpAddress)
      → choose_host draw address base k host ≡ ok (some a)
      → Near address base k a
  unfolding choose_host
  choose_host-Near address base k (some host) a h = with_host-Near address base k host a h
  choose_host-Near address base k none a h = drawn-Near address base k _ a h

  abbrev NearIn : (ℕ → IpAddress) → ℕ → ℕ → ℤ → IpAddress → Type 0
  NearIn address len base (negsuc n) a = ⊥
  NearIn address len base (pos p) a = Near address base (len - p) a

  build_in-Near :
      (address : ℕ → IpAddress) (len base : ℕ) (prefix : ℤ) (host : Option ℤ) (a : IpAddress)
      → build_in draw address len base prefix host ≡ ok (some a)
      → NearIn address len base prefix a
  unfolding build_in
  build_in-Near address len base (negsuc n) host a h = absurd (cc h)
  build_in-Near address len base (pos p) host a h = by_test (ltb p len) h
    where
      by_test :
          (b : Bool)
          → ◌≡◌ {A = Result (Option IpAddress)}
              (if b then choose_host draw address base (len - p) host else ok none)
              (ok (some a))
          → Near address base (len - p) a
      by_test true e = choose_host-Near address base (len - p) host a e
      by_test false e = cc

  -- The family of the base, and its leading bits up to the prefix.
  abbrev pub InNetwork : IpAddress → ℤ → IpAddress → Type 0
  InNetwork (ipv4 base) prefix a = NearIn ipv4 32 base prefix a
  InNetwork (ipv6 base) prefix a = NearIn ipv6 128 base prefix a

  -- An address that `build_ip` returns lies in the network of the base, for every prefix, host part
  -- and draw.
  pub build_ip-InNetwork :
      (base : IpAddress) (prefix : ℤ) (host : Option ℤ) (a : IpAddress)
      → build_ip draw base prefix host ≡ ok (some a)
      → InNetwork base prefix a
  unfolding build_ip
  build_ip-InNetwork (ipv4 base) prefix host a h = build_in-Near ipv4 32 base prefix host a h
  build_ip-InNetwork (ipv6 base) prefix host a h = build_in-Near ipv6 128 base prefix host a h

  -- With one host bit and no host part, no address can be drawn: `randint` raises ValueError, for
  -- both families, where the documentation promises None.
  build_ip-no_room :
      (base : ℕ)
      → (build_ip draw (ipv4 base) (pos 31) none ≡ raised value_error)
        × (build_ip draw (ipv6 base) (pos 127) none ≡ raised value_error)
  unfolding build_ip build_in choose_host randint
  build_ip-no_room base = (refl, refl)
