-- ===== src/Someip/Options.antt =====
-- When the parsing of the options of an offer fails.
use cyclarity_in_vehicle_sdk.Prelude.{
  ℕ, zero, suc, ◌≤◌, ◌<◌, ◌≡◌, refl, Bool, true, false, ◌||◌, none, some, List, [], ◌∷◌, ◌++◌, ◌==◌,
  ltb, leb, leb→le, ltb→lt, sym, ◌∙◌, length, get_elem?, any, All, Bool-cases, inl, inr, arith,
}
use cyclarity_in_vehicle_sdk.Python.{Result, ok, raised, stuck, index_error}
use cyclarity_in_vehicle_sdk.Someip.{
  SdEntry, SdOption, EndpointOption, indices_from, insert_index, sort_indices, option_indices,
  prepend_endpoint, take_option, parse_options, parse_options_for_offer_service,
}

abbrev pub elem_index : ℕ → List ℕ → Bool
elem_index x is = any (λ i. i == x) is

abbrev IsOrdered : List ℕ → Type 0
IsOrdered [] = Unit
IsOrdered (i ∷ is) = All (λ j. i ≤ j) is × IsOrdered is

abbrev pub fails : Result (List EndpointOption) → Bool
fails (raised index_error) = true
fails r = false

All-le_index : (n m : ℕ) (is : List ℕ) → n ≤ m → All (λ j. m ≤ j) is → All (λ j. n ≤ j) is
All-le_index n m [] le h = tt
All-le_index n m (i ∷ is) le h = (omega (arith, le, h.0), All-le_index n m is le h.1)

All-insert_index :
    (n i : ℕ) (js : List ℕ) → n ≤ i → All (λ j. n ≤ j) js → All (λ j. n ≤ j) (insert_index i js)
unfolding insert_index
All-insert_index n i [] le h = (le, tt)
All-insert_index n i (j ∷ js) le h = elim (Bool-cases (leb i j)) [
  | inl before ↦ rw before (le, h)
  | inr behind ↦ rw behind (h.0, All-insert_index n i js le h.1)
]

insert_index-IsOrdered : (i : ℕ) (js : List ℕ) → IsOrdered js → IsOrdered (insert_index i js)
unfolding insert_index
insert_index-IsOrdered i [] h = (tt, tt)
insert_index-IsOrdered i (j ∷ js) h = elim (Bool-cases (leb i j)) [
  | inl before ↦ let le = leb→le i j before in rw before ((le, All-le_index i j js le h.0), h)
  | inr behind ↦
      rw behind (All-insert_index j i js (ground arith) h.0, insert_index-IsOrdered i js h.1)
]

sort_indices-IsOrdered : (is : List ℕ) → IsOrdered (sort_indices is)
unfolding sort_indices
sort_indices-IsOrdered [] = tt
sort_indices-IsOrdered (i ∷ is) =
    insert_index-IsOrdered i (sort_indices is) (sort_indices-IsOrdered is)

or_swap_index : (a b c : Bool) → (a || (b || c)) ≡ (b || (a || c))
or_swap_index true true c = refl
or_swap_index true false c = refl
or_swap_index false b c = refl

elem-insert_index :
    (x i : ℕ) (js : List ℕ) → elem_index x (insert_index i js) ≡ ((i == x) || elem_index x js)
unfolding insert_index
elem-insert_index x i [] = refl
elem-insert_index x i (j ∷ js) = elim (Bool-cases (leb i j)) [
  | inl before ↦ rw before refl
  | inr behind ↦
      rw (behind, elem-insert_index x i js) (or_swap_index (j == x) (i == x) (elem_index x js))
]

elem-sort_indices : (x : ℕ) (is : List ℕ) → elem_index x (sort_indices is) ≡ elem_index x is
unfolding sort_indices
elem-sort_indices x [] = refl
elem-sort_indices x (i ∷ is) =
    rw (elem-insert_index x i (sort_indices is), elem-sort_indices x is) refl

-- An index above another one is not it.
above-not_elem : (n i : ℕ) (is : List ℕ) → n < i → All (λ j. i ≤ j) is → elem_index n is ≡ false
above-not_elem n i [] lt h = refl
above-not_elem n i (j ∷ js) lt h =
    rw (not_it n j (omega (arith, lt, h.0)), above-not_elem n i js lt h.1) refl
  where
    not_it : (n j : ℕ) → n < j → (j == n) ≡ false
    not_it n j lt' = ground arith

get_elem?-some :
    (os : List SdOption) (i : ℕ) → i < length os → (o : SdOption) × (get_elem? os i ≡ some o)
get_elem?-some [] i h = absurd (omega (arith, h))
get_elem?-some (o ∷ os) zero h = (o, refl)
get_elem?-some (o ∷ os) (suc i) h = get_elem?-some os i (omega (arith, h))

get_elem?-none : (os : List SdOption) → get_elem? os (length os) ≡ none
get_elem?-none [] = refl
get_elem?-none (o ∷ os) = get_elem?-none os

fails-prepend :
    (o : SdOption) (r : Result (List EndpointOption)) → fails (prepend_endpoint o r) ≡ fails r
fails-prepend o (ok es) = refl
fails-prepend o (raised e) = refl
fails-prepend o stuck = refl

-- For an index that is not above the number of options.
taken-fails :
    (os : List SdOption) (i : ℕ) (is : List ℕ) (b : Bool)
    → (i == length os) ≡ b
    → ltb (length os) i ≡ false
    → fails (parse_options os is) ≡ elem_index (length os) is
    → fails (take_option (get_elem? os i) (parse_options os is)) ≡ (b || elem_index (length os) is)
taken-fails os i is true same within h = rw (the_length i (length os) same, get_elem?-none os) refl
  where
    the_length : (i n : ℕ) → (i == n) ≡ true → i ≡ n
    the_length i n e = ground arith
taken-fails os i is false differs within h =
    let (o, found) = get_elem?-some os i (below i (length os) differs within) in
    rw found (fails-prepend o (parse_options os is) ∙ h)
  where
    below : (i n : ℕ) → (i == n) ≡ false → ltb n i ≡ false → i < n
    below i n d w = ground arith

parse_options-fails :
    (os : List SdOption) (is : List ℕ)
    → IsOrdered is
    → fails (parse_options os is) ≡ elem_index (length os) is
unfolding parse_options
parse_options-fails os [] h = refl
parse_options-fails os (i ∷ is) h = elim (Bool-cases (ltb (length os) i)) [
  | inl beyond ↦
      rw beyond (
        sym
          (above-not_elem (length os) i (i ∷ is) (ltb→lt (length os) i beyond) (omega arith, h.0)))
  | inr within ↦
      rw within (taken-fails os i is (i == length os) refl within (parse_options-fails os is h.1))
]

-- The parsing of an offer raises IndexError exactly when the entry refers to the index that is one
-- above the last option: the guard that should end the loop there lets this index pass.
pub parse_options_for_offer_service-fails :
    (e : SdEntry) (os : List SdOption)
    → fails (parse_options_for_offer_service e os)
      ≡ elem_index
          (length os)
          (indices_from e.index_1 e.n_opt_1 ++ indices_from e.index_2 e.n_opt_2)
unfolding parse_options_for_offer_service option_indices
parse_options_for_offer_service-fails e os =
    let is = indices_from e.index_1 e.n_opt_1 ++ indices_from e.index_2 e.n_opt_2 in
    parse_options-fails os (sort_indices is) (sort_indices-IsOrdered is)
    ∙ elem-sort_indices (length os) is
