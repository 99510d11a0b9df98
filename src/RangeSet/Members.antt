-- ===== src/RangeSet/Members.antt =====
-- Which numbers a set of ranges holds, however the ranges were ordered.
use cyclarity_in_vehicle_sdk.Prelude.{
  ℕ, zero, suc, ◌+◌, ◌-◌, ◌≤◌, ◌≡◌, refl, sym, ap, ◌∙◌, Bool, true, false, ◌&&◌, ◌||◌, Option, some,
  List, [], ◌∷◌, ◌++◌, ◌==◌, ltb, leb, leb→le, Bool-cases, inl, inr, any, All, length,
  length-append, arith,
}
use cyclarity_in_vehicle_sdk.Python.{ok}
use cyclarity_in_vehicle_sdk.RangeSet.{
  Range, insert_by_stop, sorted_by_stop, count_from, range_length, iterate, set_length, split,
  parse_parts, parse_tokens, read_ranges, parse_nmap_ranges,
}

-- `x in numbers`
abbrev pub elem : ℕ → List ℕ → Bool
elem x ns = any (λ n. n == x) ns

-- `start <= x < stop`
abbrev pub covers : ℕ → Range → Bool
covers x r = leb r.start x && ltb x r.stop

abbrev pub IsSorted : List Range → Type 0
IsSorted [] = Unit
IsSorted (r ∷ rs) = All (λ r'. r.stop ≤ r'.stop) rs × IsSorted rs

elem-count_from : (x start n : ℕ) → elem x (count_from start n) ≡ (leb start x && ltb x (start + n))
elem-count_from x start zero = ground arith
elem-count_from x start (suc n) = rw (elem-count_from x (suc start) n) (ground arith)

elem-range : (x : ℕ) (r : Range) → elem x (count_from r.start (range_length r)) ≡ covers x r
elem-range x r = rw (elem-count_from x r.start (range_length r)) (ground arith)

any-append :
    {A : Type 0} (p : A → Bool) (xs ys : List A) → any p (xs ++ ys) ≡ (any p xs || any p ys)
any-append p [] ys = refl
any-append p (x ∷ xs) ys = rw (any-append p xs ys) (or_assoc (p x) (any p xs) (any p ys))
  where
    or_assoc : (a b c : Bool) → (a || (b || c)) ≡ ((a || b) || c)
    or_assoc true b c = refl
    or_assoc false b c = refl

elem-iterate : (x : ℕ) (rs : List Range) → elem x (iterate rs) ≡ any (covers x) rs
unfolding iterate
elem-iterate x [] = refl
elem-iterate x (r ∷ rs) =
    rw
      (
        any-append (λ n. n == x) (count_from r.start (range_length r)) (iterate rs),
        elem-range x r,
        elem-iterate x rs,
      )
      refl

or_swap : (a b c : Bool) → (a || (b || c)) ≡ (b || (a || c))
or_swap true true c = refl
or_swap true false c = refl
or_swap false b c = refl

any-insert :
    (p : Range → Bool) (r : Range) (rs : List Range)
    → any p (insert_by_stop r rs) ≡ (p r || any p rs)
unfolding insert_by_stop
any-insert p r [] = refl
any-insert p r (r' ∷ rs) = elim (Bool-cases (leb r.stop r'.stop)) [
  | inl before ↦ rw before refl
  | inr behind ↦ rw (behind, any-insert p r rs) (or_swap (p r') (p r) (any p rs))
]

any-sorted : (p : Range → Bool) (rs : List Range) → any p (sorted_by_stop rs) ≡ any p rs
unfolding sorted_by_stop
any-sorted p [] = refl
any-sorted p (r ∷ rs) = rw (any-insert p r (sorted_by_stop rs), any-sorted p rs) refl

length-count_from : (start n : ℕ) → length (count_from start n) ≡ n
length-count_from start zero = refl
length-count_from start (suc n) = ap suc (length-count_from (suc start) n)

length-iterate : (rs : List Range) → length (iterate rs) ≡ set_length rs
unfolding iterate set_length
length-iterate [] = refl
length-iterate (r ∷ rs) =
    rw
      (
        length-append (count_from r.start (range_length r)) (iterate rs),
        length-count_from r.start (range_length r),
        length-iterate rs,
      )
      refl

set_length-insert :
    (r : Range) (rs : List Range)
    → set_length (insert_by_stop r rs) ≡ range_length r + set_length rs
unfolding insert_by_stop set_length
set_length-insert r [] = refl
set_length-insert r (r' ∷ rs) = elim (Bool-cases (leb r.stop r'.stop)) [
  | inl before ↦ rw before refl
  | inr behind ↦ rw (behind, set_length-insert r rs) (omega arith)
]

set_length-sorted : (rs : List Range) → set_length (sorted_by_stop rs) ≡ set_length rs
unfolding sorted_by_stop set_length
set_length-sorted [] = refl
set_length-sorted (r ∷ rs) = rw (set_length-insert r (sorted_by_stop rs), set_length-sorted rs) refl

All-insert :
    (n : ℕ) (r : Range) (rs : List Range)
    → n ≤ r.stop
    → All (λ r'. n ≤ r'.stop) rs
    → All (λ r'. n ≤ r'.stop) (insert_by_stop r rs)
unfolding insert_by_stop
All-insert n r [] h hs = (h, tt)
All-insert n r (r' ∷ rs) h hs = elim (Bool-cases (leb r.stop r'.stop)) [
  | inl before ↦ rw before (h, hs)
  | inr behind ↦ rw behind (hs.0, All-insert n r rs h hs.1)
]

All-le :
    (n m : ℕ) (rs : List Range) → n ≤ m → All (λ r'. m ≤ r'.stop) rs → All (λ r'. n ≤ r'.stop) rs
All-le n m [] le h = tt
All-le n m (r ∷ rs) le h = (omega (arith, le, h.0), All-le n m rs le h.1)

insert_by_stop-IsSorted :
    (r : Range) (rs : List Range) → IsSorted rs → IsSorted (insert_by_stop r rs)
unfolding insert_by_stop
insert_by_stop-IsSorted r [] h = (tt, tt)
insert_by_stop-IsSorted r (r' ∷ rs) h = elim (Bool-cases (leb r.stop r'.stop)) [
  | inl before ↦
      let le = leb→le r.stop r'.stop before in rw before ((le, All-le r.stop r'.stop rs le h.0), h)
  | inr behind ↦
      rw behind (All-insert r'.stop r rs (ground arith) h.0, insert_by_stop-IsSorted r rs h.1)
]

sorted_by_stop-IsSorted : (rs : List Range) → IsSorted (sorted_by_stop rs)
unfolding sorted_by_stop
sorted_by_stop-IsSorted [] = tt
sorted_by_stop-IsSorted (r ∷ rs) =
    insert_by_stop-IsSorted r (sorted_by_stop rs) (sorted_by_stop-IsSorted rs)

-- Two numbers, the last included, and what they cover.
abbrev pub within : ℕ → ℕ × ℕ → Bool
within x b = leb b.0 x && leb x b.1

abbrev pub total : List (ℕ × ℕ) → ℕ
total [] = 0
total (b ∷ bounds) = (b.1 + 1 - b.0) + total bounds

module _ (parse_number : List ℕ → Option ℕ) where
  -- The tokens are numbers, or pairs of numbers with a dash between them.
  pub data Tokens : List (List ℕ) → List (ℕ × ℕ) → Type 0 where
    no_more : Tokens [] []
    number :
        {token part : List ℕ} {tokens : List (List ℕ)} {bounds : List (ℕ × ℕ)} {n : ℕ}
        → split b'-' token ≡ part ∷ []
        → parse_number part ≡ some n
        → Tokens tokens bounds
        → Tokens (token ∷ tokens) ((n, n) ∷ bounds)
    span :
        {token first last : List ℕ} {tokens : List (List ℕ)} {bounds : List (ℕ × ℕ)} {m n : ℕ}
        → split b'-' token ≡ first ∷ last ∷ []
        → parse_number first ≡ some m
        → parse_number last ≡ some n
        → Tokens tokens bounds
        → Tokens (token ∷ tokens) ((m, n) ∷ bounds)

  -- The text writes these bounds, with commas between them; an empty text writes none.
  pub data Writes : List ℕ → List (ℕ × ℕ) → Type 0 where
    nothing : Writes [] []
    written :
        {c : ℕ} {text : List ℕ} {bounds : List (ℕ × ℕ)}
        → Tokens (split b',' (c ∷ text)) bounds
        → Writes (c ∷ text) bounds

  abbrev ranges_of : List (ℕ × ℕ) → List Range
  ranges_of [] = []
  ranges_of (b ∷ bounds) = record { start = b.0; stop = b.1 + 1 } ∷ ranges_of bounds

  parse_tokens-Tokens :
      {tokens : List (List ℕ)} {bounds : List (ℕ × ℕ)}
      → Tokens tokens bounds
      → parse_tokens parse_number tokens ≡ ok (ranges_of bounds)
  unfolding parse_tokens parse_parts
  parse_tokens-Tokens no_more = refl
  parse_tokens-Tokens (number p q rest) = rw (p, q, parse_tokens-Tokens rest) refl
  parse_tokens-Tokens (span p q q' rest) = rw (p, q, q', parse_tokens-Tokens rest) refl

  read_ranges-Writes :
      {text : List ℕ} {bounds : List (ℕ × ℕ)}
      → Writes text bounds
      → read_ranges parse_number text ≡ ok (ranges_of bounds)
  unfolding read_ranges
  read_ranges-Writes nothing = refl
  read_ranges-Writes (written tokens) = parse_tokens-Tokens tokens

  covers-ranges :
      (x : ℕ) (bounds : List (ℕ × ℕ)) → any (covers x) (ranges_of bounds) ≡ any (within x) bounds
  covers-ranges x [] = refl
  covers-ranges x ((m, n) ∷ bounds) = rw (covers-ranges x bounds, below x n) refl
    where
      below : (x n : ℕ) → ltb x (n + 1) ≡ leb x n
      below x n = ground arith

  set_length-ranges : (bounds : List (ℕ × ℕ)) → set_length (ranges_of bounds) ≡ total bounds
  unfolding set_length
  set_length-ranges [] = refl
  set_length-ranges (b ∷ bounds) = rw (set_length-ranges bounds) refl

  -- The set holds what the bounds cover.
  abbrev pub Holds : List Range → List (ℕ × ℕ) → Type 0
  Holds rs bounds =
      IsSorted rs
      × ((x : ℕ) → elem x (iterate rs) ≡ any (within x) bounds)
      × (length (iterate rs) ≡ total bounds)
      × (set_length rs ≡ length (iterate rs))

  -- From a text that writes some bounds a set is made. It holds exactly the numbers between the two
  -- numbers of a bound, both included; its `len` is the number of those that its iteration yields,
  -- each as often as the bounds cover it; and its ranges stand in the order of their ends.
  pub parse_nmap_ranges-Holds :
      (text : List ℕ) (bounds : List (ℕ × ℕ))
      → Writes text bounds
      → (rs : List Range) × (parse_nmap_ranges parse_number text ≡ ok rs) × Holds rs bounds
  unfolding parse_nmap_ranges
  parse_nmap_ranges-Holds text bounds w =
      let read = ranges_of bounds in
      (
        sorted_by_stop read,
        rw (read_ranges-Writes w) refl,
        (
          sorted_by_stop-IsSorted read,
          (λ x.
              elem-iterate x (sorted_by_stop read)
              ∙ any-sorted (covers x) read
              ∙ covers-ranges x bounds),
          length-iterate (sorted_by_stop read) ∙ set_length-sorted read ∙ set_length-ranges bounds,
          sym (length-iterate (sorted_by_stop read)),
        ),
      )
