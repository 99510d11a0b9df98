-- ===== src/Uds/Dids.antt =====
-- `UdsUtils._split_dids` of protocol/uds/impl/uds_utils.py: cutting the answer to a read of several
-- data identifiers into the data of each.
pub mod Recovery
pub mod Missing
use cyclarity_in_vehicle_sdk.Prelude.{
  ℕ, ◌+◌, Bool, true, false, Option, none, some, List, [], ◌∷◌, ltb, if◌then◌else◌, drop,
}
use cyclarity_in_vehicle_sdk.Python.{Result, ok, raised, stuck, overflow_error}
use cyclarity_in_vehicle_sdk.Python.Bytes.{find, find_from, slice, big_endian, hex}

-- `RdidDataTuple`: the identifier, and its data as hexadecimal text.
pub record RdidDataTuple : Type 0 where
  pub did : ℕ
  pub hex_data : List ℕ

-- `did.to_bytes(length=2, byteorder='big')`
unfoldable pub to_bytes : ℕ → Result (List ℕ)
unfolding big_endian
to_bytes did = if ltb did 65536 then ok (big_endian 2 did) else raised overflow_error

infixl 10 ◌>>=◌
abbrev pub ◌>>=◌ {ℓ κ} : {A : Type ℓ} {B : Type κ} → Result A → (A → Result B) → Result B
ok a >>= f = f a
raised e >>= f = raised e
stuck >>= f = stuck

-- `data_bytes.find(...)` of the next identifier, from `start` on.
unfoldable pub locate : ℕ → List ℕ → ℕ → Result (Option ℕ)
unfolding to_bytes find_from
locate did data_bytes start = do pattern ← to_bytes did; ok (find_from pattern data_bytes start)

unfoldable pub up_to : List ℕ → ℕ → Option ℕ → List ℕ
up_to data_bytes start none = drop start data_bytes
up_to data_bytes start (some next_position) = slice start next_position data_bytes

abbrev pub entry : ℕ → List ℕ → RdidDataTuple
entry did bytes = record { did = did; hex_data = hex bytes }

abbrev pub prepend : RdidDataTuple → List RdidDataTuple → Result (List RdidDataTuple)
prepend e es = ok (e ∷ es)

-- The rounds of the loop after the first; the position is `next_position`, `none` for -1.
unfoldable pub later_dids : Option ℕ → List ℕ → List ℕ → Result (List RdidDataTuple)
unfolding locate up_to
later_dids position [] data_bytes = ok []
later_dids none (did ∷ rest) data_bytes = later_dids none rest data_bytes
later_dids (some position) (did ∷ []) data_bytes =
    ok (entry did (drop (position + 2) data_bytes) ∷ [])
later_dids (some position) (did ∷ next ∷ rest) data_bytes = do
  next_position ← locate next data_bytes (position + 2)
  entries ← later_dids next_position (next ∷ rest) data_bytes
  ok (entry did (up_to data_bytes (position + 2) next_position) ∷ entries)

-- The first round looks its identifier up; if it is absent, `next_position` is still 0.
unfoldable pub split_dids : List ℕ → List ℕ → Result (List RdidDataTuple)
unfolding later_dids
split_dids [] data_bytes = ok []
split_dids (did ∷ rest) data_bytes = do
  found ← locate did data_bytes 0
  elim found [
    | none ↦ later_dids (some 0) rest data_bytes
    | some position ↦ later_dids (some position) (did ∷ rest) data_bytes
  ]
