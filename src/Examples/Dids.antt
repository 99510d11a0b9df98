-- ===== src/Examples/Dids.antt =====
-- `_split_dids` at concrete answers.
use cyclarity_in_vehicle_sdk.Prelude.{ℕ, ◌≡◌, refl, List, [], ◌∷◌, arith}
use cyclarity_in_vehicle_sdk.Python.{ok, raised, overflow_error}
use cyclarity_in_vehicle_sdk.Python.Bytes.{big_endian, starts_with, hex}
use cyclarity_in_vehicle_sdk.Uds.Dids.{entry, locate, split_dids}
use cyclarity_in_vehicle_sdk.Uds.Dids.Recovery.{IsSeparable, split_dids-encode}
use cyclarity_in_vehicle_sdk.Uds.Dids.Missing.{split_dids-second_missing}

-- Two identifiers, as `test_split_dids_overlapping` has them.
abbrev overlapping : List (ℕ × List ℕ)
overlapping = (0x0123, 5 ∷ 0x12 ∷ 9 ∷ []) ∷ (0x1234, 7 ∷ []) ∷ []

overlapping-IsSeparable : IsSeparable overlapping
unfolding starts_with big_endian
overlapping-IsSeparable = (omega arith, (refl, (refl, (refl, tt))), omega arith)

split_dids-encode_example :
    split_dids (0x0123 ∷ 0x1234 ∷ []) (1 ∷ 0x23 ∷ 5 ∷ 0x12 ∷ 9 ∷ 0x12 ∷ 0x34 ∷ 7 ∷ [])
    ≡ ok (entry 0x0123 (5 ∷ 0x12 ∷ 9 ∷ []) ∷ entry 0x1234 (7 ∷ []) ∷ [])
unfolding big_endian
split_dids-encode_example = split_dids-encode overlapping overlapping-IsSeparable

-- The third identifier is in the answer, and is dropped with the second.
split_dids-second_missing_example :
    split_dids (1 ∷ 2 ∷ 3 ∷ []) (0 ∷ 1 ∷ 9 ∷ 0 ∷ 3 ∷ 8 ∷ [])
    ≡ ok (entry 1 (9 ∷ 0 ∷ 3 ∷ 8 ∷ []) ∷ [])
unfolding locate
split_dids-second_missing_example =
    split_dids-second_missing 1 2 0 (3 ∷ []) (0 ∷ 1 ∷ 9 ∷ 0 ∷ 3 ∷ 8 ∷ []) refl refl

too_large : split_dids (65536 ∷ []) (1 ∷ []) ≡ raised overflow_error
unfolding split_dids
too_large = refl

text_of : hex (0x0f ∷ 0xa0 ∷ []) ≡ b'0' ∷ b'f' ∷ b'a' ∷ b'0' ∷ []
unfolding hex
text_of = refl
