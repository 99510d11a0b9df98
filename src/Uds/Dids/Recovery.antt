-- ===== src/Uds/Dids/Recovery.antt =====
-- What `_split_dids` makes of an answer that holds every identifier with its data.
use mathlib.Core.List.{append_assoc, append-nil}
use mathlib.Core.Option
use cyclarity_in_vehicle_sdk.Prelude.{
  ℕ, suc, ◌+◌, ◌-◌, ◌/◌, ◌%◌, ◌<◌, ◌≡◌, refl, ap, Option, some, List, [], ◌∷◌, ◌++◌, map, arith,
  length, length-append, drop, take-append, ltb, true,
}
use cyclarity_in_vehicle_sdk.Python.{ok}
use cyclarity_in_vehicle_sdk.Python.Bytes.{find_from, big_endian, NoneBefore, find-first}
use cyclarity_in_vehicle_sdk.Uds.Dids.{RdidDataTuple, locate, up_to, entry, later_dids, split_dids}

-- The answer of an ECU: each identifier, followed by its data.
abbrev pub encode : List (ℕ × List ℕ) → List ℕ
encode [] = []
encode ((did, bytes) ∷ rest) = big_endian 2 did ++ (bytes ++ encode rest)

-- Identifiers fit 16 bits, and none is seen, inside the data of the one before it, where the
-- answer has not come to it yet.
abbrev pub IsSeparable : List (ℕ × List ℕ) → Type 0
IsSeparable [] = Unit {0}
IsSeparable ((did, bytes) ∷ []) = did < 65536
IsSeparable ((did, bytes) ∷ (next, bytes') ∷ rest) =
    (did < 65536)
    × NoneBefore (big_endian 2 next) bytes (encode ((next, bytes') ∷ rest))
    × IsSeparable ((next, bytes') ∷ rest)

drop_past : (xs ys : List ℕ) (a b : ℕ) → drop (length xs + 2) (xs ++ (a ∷ b ∷ ys)) ≡ ys
drop_past [] ys a b = refl
drop_past (x ∷ xs) ys a b =
    let e : suc (length xs) + 2 ≡ suc (length xs + 2) = omega arith in rw e (drop_past xs ys a b)

find_from-first :
    (a b s : ℕ) (sub before bytes tail : List ℕ)
    → NoneBefore (s ∷ sub) bytes ((s ∷ sub) ++ tail)
    → find_from (s ∷ sub) (before ++ (a ∷ b ∷ (bytes ++ ((s ∷ sub) ++ tail)))) (length before + 2)
      ≡ some (length before + 2 + length bytes)
unfolding find_from
find_from-first a b s sub before bytes tail n =
    rw (drop_past before _ a b)
      (ap (Option.map (λ i. length before + 2 + i)) (find-first s sub bytes tail n))

lt_16 : (n : ℕ) → n < 65536 → ltb n 65536 ≡ true
lt_16 n h = ground arith

locate-first :
    (did next : ℕ) (before bytes tail : List ℕ)
    → next < 65536
    → NoneBefore (big_endian 2 next) bytes (big_endian 2 next ++ tail)
    → locate next
        (before ++ (big_endian 2 did ++ (bytes ++ (big_endian 2 next ++ tail))))
        (length before + 2)
      ≡ ok (some (length before + 2 + length bytes))
unfolding locate big_endian
locate-first did next before bytes tail h n =
    rw (lt_16 next h) (ap ok (find_from-first _ _ _ (next / 1 % 256 ∷ []) before bytes tail n))

up_to-next :
    (did : ℕ) (before bytes tail : List ℕ)
    → up_to
        (before ++ (big_endian 2 did ++ (bytes ++ tail)))
        (length before + 2)
        (some (length before + 2 + length bytes))
      ≡ bytes
unfolding up_to big_endian
up_to-next did before bytes tail =
    let e : length before + 2 + length bytes - (length before + 2) ≡ length bytes = omega arith in
    rw (e, drop_past before (bytes ++ tail) _ _) (take-append bytes tail)

regroup :
    (did : ℕ) (before bytes tail : List ℕ)
    → before ++ (big_endian 2 did ++ (bytes ++ tail))
      ≡ (before ++ (big_endian 2 did ++ bytes)) ++ tail
regroup did before bytes tail = simp append_assoc

length-before :
    (did : ℕ) (before bytes : List ℕ)
    → length (before ++ (big_endian 2 did ++ bytes)) ≡ length before + 2 + length bytes
unfolding big_endian
length-before did before bytes = omega (arith, length-append before (big_endian 2 did ++ bytes))

abbrev entries : List (ℕ × List ℕ) → List RdidDataTuple
entries = map λ r. entry r.0 r.1

abbrev dids_of : List (ℕ × List ℕ) → List ℕ
dids_of = map λ r. r.0

later_dids-last :
    (did : ℕ) (before bytes : List ℕ)
    → later_dids (some (length before)) (did ∷ []) (before ++ (big_endian 2 did ++ (bytes ++ [])))
      ≡ ok (entry did bytes ∷ [])
unfolding later_dids big_endian
later_dids-last did before bytes = rw (drop_past before (bytes ++ []) _ _, append-nil bytes)

later_dids-step :
    (position did next : ℕ) (rest data_bytes bytes : List ℕ) (found : Option ℕ)
    (es : List RdidDataTuple)
    → locate next data_bytes (position + 2) ≡ ok found
    → later_dids found (next ∷ rest) data_bytes ≡ ok es
    → up_to data_bytes (position + 2) found ≡ bytes
    → later_dids (some position) (did ∷ next ∷ rest) data_bytes ≡ ok (entry did bytes ∷ es)
unfolding later_dids
later_dids-step position did next rest data_bytes bytes found es l e u = rw (l, e, u)

first_fits :
    (did : ℕ) (bytes : List ℕ) (rest : List (ℕ × List ℕ))
    → IsSeparable ((did, bytes) ∷ rest)
    → did < 65536
first_fits did bytes [] h = h
first_fits did bytes (x ∷ rest) h = h.0

later_dids-encode :
    (before : List ℕ) (records : List (ℕ × List ℕ))
    → IsSeparable records
    → later_dids (some (length before)) (dids_of records) (before ++ encode records)
      ≡ ok (entries records)
later_dids-encode before [] h = unfold later_dids in refl
later_dids-encode before ((did, bytes) ∷ []) h = later_dids-last did before bytes
later_dids-encode before ((did, bytes) ∷ (next, bytes') ∷ rest) h =
    later_dids-step _ did next _ _ bytes _ _
      (locate-first did next before bytes _ (first_fits next bytes' rest h.2) h.1)
      (rw (← length-before did before bytes, regroup did before bytes _)
        (later_dids-encode (before ++ (big_endian 2 did ++ bytes)) ((next, bytes') ∷ rest) h.2))
      (up_to-next did before bytes _)

locate_start :
    (did : ℕ) (tail : List ℕ) → did < 65536 → locate did (big_endian 2 did ++ tail) 0 ≡ ok (some 0)
unfolding locate big_endian
locate_start did tail h = rw (lt_16 did h) (
    ap (λ o. ok (Option.map (λ i. 0 + i) o))
      (find-first (did / 256 % 256) (did / 1 % 256 ∷ []) [] tail tt))

-- From an answer that lists the identifiers that were asked, each followed by its data,
-- `_split_dids` recovers every identifier with exactly its data, if the identifiers have 16 bits and
-- none of them is seen already inside the data of the one before it.
pub split_dids-encode :
    (records : List (ℕ × List ℕ))
    → IsSeparable records
    → split_dids (dids_of records) (encode records) ≡ ok (entries records)
unfolding split_dids
split_dids-encode [] h = refl
split_dids-encode ((did, bytes) ∷ rest) h =
    rw (locate_start did _ (first_fits did bytes rest h))
      (later_dids-encode [] ((did, bytes) ∷ rest) h)
