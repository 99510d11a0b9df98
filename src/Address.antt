-- ===== src/Address.antt =====
-- `build_ip` of utils/ip/ip_utils.py, for addresses as numbers. The draw of `random.randint` is a
-- parameter.
pub mod Network
use cyclarity_in_vehicle_sdk.Prelude.{
  ℕ, zero, suc, ◌+◌, ◌-◌, ◌%◌, ◌^◌, Bool, true, false, ◌&&◌, Option, none, some, ltb, leb,
  if◌then◌else◌,
}
use cyclarity_in_vehicle_sdk.Prelude.Int.{ℤ, pos, negsuc}
use cyclarity_in_vehicle_sdk.Python.{Result, ok, raised, stuck, value_error}

-- `IPv4Address` and `IPv6Address`, by their numbers.
pub data IpAddress : Type 0 where
  ipv4 ipv6 : ℕ → IpAddress

abbrev pub ipv4_len_bits : ℕ
ipv4_len_bits = 32

abbrev pub ipv6_len_bits : ℕ
ipv6_len_bits = 128

-- `random.randint(low, high)`, which refuses an empty range.
unfoldable pub randint : (ℕ → ℕ → ℕ) → ℕ → ℕ → Result ℕ
randint draw low high = if leb low high then ok (draw low high) else raised value_error

-- `int(network.network_address)`, of the network that the address is in.
unfoldable pub network_address : ℕ → ℕ → ℕ
network_address base num_host_bits = base - base % 2 ^ num_host_bits

-- The address, if the host part is in its range.
unfoldable pub with_host : (ℕ → IpAddress) → ℕ → ℕ → ℤ → Result (Option IpAddress)
unfolding network_address
with_host address base num_host_bits (negsuc n) = ok none
with_host address base num_host_bits (pos host_part) =
    if leb host_part (2 ^ num_host_bits - 1)
    then ok (some (address (network_address base num_host_bits + host_part)))
    else ok none

module _ (draw : ℕ → ℕ → ℕ) where
  abbrev pub with_drawn : (ℕ → IpAddress) → ℕ → ℕ → Result ℕ → Result (Option IpAddress)
  with_drawn address base num_host_bits (ok host_part) =
      with_host address base num_host_bits (pos host_part)
  with_drawn address base num_host_bits (raised e) = raised e
  with_drawn address base num_host_bits stuck = stuck

  -- A host part that is not given is drawn without the first and the last one of the network.
  unfoldable pub choose_host : (ℕ → IpAddress) → ℕ → ℕ → Option ℤ → Result (Option IpAddress)
  unfolding randint with_host
  choose_host address base num_host_bits (some host_part) =
      with_host address base num_host_bits host_part
  choose_host address base num_host_bits none =
      with_drawn address base num_host_bits (randint draw 1 (2 ^ num_host_bits - 1 - 1))

  -- One of the two branches, which differ in the number of bits.
  unfoldable pub build_in : (ℕ → IpAddress) → ℕ → ℕ → ℤ → Option ℤ → Result (Option IpAddress)
  unfolding choose_host
  build_in address len_bits base (negsuc n) host_part = ok none
  build_in address len_bits base (pos network_prefix) host_part =
      if ltb network_prefix len_bits
      then choose_host address base (len_bits - network_prefix) host_part
      else ok none

  unfoldable pub build_ip : IpAddress → ℤ → Option ℤ → Result (Option IpAddress)
  unfolding build_in
  build_ip (ipv4 base) = build_in ipv4 ipv4_len_bits base
  build_ip (ipv6 base) = build_in ipv6 ipv6_len_bits base
