-- ===== src/Uds/Dids/Missing.antt =====
-- What `_split_dids` makes of an answer in which an identifier is missing.
use cyclarity_in_vehicle_sdk.Prelude.{ℕ, ◌+◌, ◌≡◌, refl, none, some, List, [], ◌∷◌, drop}
use cyclarity_in_vehicle_sdk.Python.{ok}
use cyclarity_in_vehicle_sdk.Uds.Dids.{locate, entry, later_dids, split_dids}

later_dids-none : (dids data_bytes : List ℕ) → later_dids none dids data_bytes ≡ ok []
unfolding later_dids
later_dids-none [] data_bytes = refl
later_dids-none (did ∷ rest) data_bytes = later_dids-none rest data_bytes

-- Where the identifier after the first is not found, all that follow it are dropped, whether the
-- answer holds them or not, and the first is given the whole rest of the answer.
pub split_dids-second_missing :
    (did next position : ℕ) (rest data_bytes : List ℕ)
    → locate did data_bytes 0 ≡ ok (some position)
    → locate next data_bytes (position + 2) ≡ ok none
    → split_dids (did ∷ next ∷ rest) data_bytes
      ≡ ok (entry did (drop (position + 2) data_bytes) ∷ [])
unfolding split_dids
split_dids-second_missing did next position rest data_bytes p q =
    rw (p, q, later_dids-none (next ∷ rest) data_bytes)

-- Where the first of two identifiers is not found, the second is given the answer from its third
-- byte on, whatever the answer is, whether it holds that identifier or not.
split_dids-first_missing :
    (did next : ℕ) (data_bytes : List ℕ)
    → locate did data_bytes 0 ≡ ok none
    → split_dids (did ∷ next ∷ []) data_bytes ≡ ok (entry next (drop 2 data_bytes) ∷ [])
unfolding split_dids
split_dids-first_missing did next data_bytes p = rw p
