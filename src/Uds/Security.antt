-- ===== src/Uds/Security.antt =====
-- The security algorithms of protocol/uds/models/uds_models.py, and the models that carry them.
pub mod Keys
use Prim.Native.Nat.{bit_xor}
use cyclarity_in_vehicle_sdk.Prelude.{
  ℕ, suc, ◌+◌, ◌-◌, ◌^◌, Bool, Option, List, ltb, leb, if◌then◌else◌,
}
use cyclarity_in_vehicle_sdk.Prelude.Int.{ℤ, pos, negsuc}
use cyclarity_in_vehicle_sdk.Python.{Result, ok, raised, struct_error}
use cyclarity_in_vehicle_sdk.Python.Bytes.{from_bytes, big_endian}

-- `SECURITY_ALGORITHM_XOR` and `SECURITY_ALGORITHM_PIN`, with their `xor_val` and `pin`.
pub data Kind : Type 0 where
  xor_val pin : ℤ → Kind

pub record SecurityAlgorithm : Type 0 where
  pub seed_subfunction : Option ℕ
  pub key_subfunction : Option ℕ
  pub kind : Kind

pub record ElevationInfo : Type 0 where
  pub need_elevation : Option Bool
  pub security_algorithm : Option SecurityAlgorithm

pub record SessionAccess : Type 0 where
  pub id : ℕ
  pub elevation_info : Option ElevationInfo

pub record SessionInfo : Type 0 where
  pub accessible : Bool
  pub elevation_info : Option ElevationInfo
  pub route_to_session : List SessionAccess

-- `struct.pack('>L', n)`
unfoldable pub pack_long : ℕ → Result (List ℕ)
unfolding big_endian
pack_long n = if ltb n (2 ^ 32) then ok (big_endian 4 n) else raised struct_error

-- `__call__` of the two classes; a negative result is refused by `struct.pack`.
unfoldable pub key_of : Kind → List ℕ → Result (List ℕ)
unfolding from_bytes pack_long
key_of (xor_val (pos v)) seed = pack_long (bit_xor (from_bytes seed) v)
key_of (xor_val (negsuc n)) seed = raised struct_error
key_of (pin (pos v)) seed = pack_long (from_bytes seed + v)
key_of (pin (negsuc n)) seed =
    if ltb n (from_bytes seed) then pack_long (from_bytes seed - suc n) else raised struct_error
