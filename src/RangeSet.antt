-- ===== src/RangeSet.antt =====
-- utils/custom_types/range_set.py: sets of numbers written as ranges, such as "1-3,7".
pub mod Members
use cyclarity_in_vehicle_sdk.Prelude.{
  ℕ, zero, suc, ◌+◌, ◌-◌, Bool, true, false, ◌&&◌, ◌||◌, Option, none, some, List, [], ◌∷◌, ◌++◌,
  ◌==◌, ltb, leb, if◌then◌else◌, any,
}
use cyclarity_in_vehicle_sdk.Python.{Result, ok, raised, stuck, value_error}
use cyclarity_in_vehicle_sdk.Python.Number.{int}

-- `range(start, stop)`
pub record Range : Type 0 where
  pub start : ℕ
  pub stop : ℕ

-- `text.split(separator)`, of a separator of one character.
abbrev pub add_character : ℕ → List (List ℕ) → List (List ℕ)
add_character c [] = (c ∷ []) ∷ []
add_character c (part ∷ parts) = (c ∷ part) ∷ parts

unfoldable pub split : ℕ → List ℕ → List (List ℕ)
split separator [] = [] ∷ []
split separator (c ∷ text) =
    let parts = split separator text in if c == separator then [] ∷ parts else add_character c parts

-- The ranges in the order of their ends, those with the same end in the order of the text.
unfoldable pub insert_by_stop : Range → List Range → List Range
insert_by_stop r [] = r ∷ []
insert_by_stop r (r' ∷ rs) =
    let later = insert_by_stop r rs in if leb r.stop r'.stop then r ∷ r' ∷ rs else r' ∷ later

unfoldable pub sorted_by_stop : List Range → List Range
unfolding insert_by_stop
sorted_by_stop [] = []
sorted_by_stop (r ∷ rs) = insert_by_stop r (sorted_by_stop rs)

-- `list(range(start, start + n))`
abbrev pub count_from : ℕ → ℕ → List ℕ
count_from start zero = []
count_from start (suc n) = start ∷ count_from (suc start) n

abbrev pub range_length : Range → ℕ
range_length r = r.stop - r.start

-- `__iter__`, as the list of what it yields.
unfoldable pub iterate : List Range → List ℕ
iterate [] = []
iterate (r ∷ rs) = count_from r.start (range_length r) ++ iterate rs

-- `__len__`
unfoldable pub set_length : List Range → ℕ
set_length [] = 0
set_length (r ∷ rs) = range_length r + set_length rs

-- `==` of two ranges: the same sequence of numbers.
unfoldable pub equal_range : Range → Range → Bool
equal_range r r' =
    ((range_length r == 0) && (range_length r' == 0))
    || ((r.start == r'.start) && (r.stop == r'.stop))

-- `__eq__`
unfoldable pub equal_ranges : List Range → List Range → Bool
unfolding equal_range
equal_ranges [] [] = true
equal_ranges (r ∷ rs) (r' ∷ rs') = equal_range r r' && equal_ranges rs rs'
equal_ranges _ _ = false

-- `range(start, stop + 1)`, of two numbers that were read.
abbrev pub range_of : Option ℕ → Option ℕ → Result Range
range_of (some start) (some stop) = ok (record { start = start; stop = stop + 1 })
range_of _ _ = raised value_error

abbrev pub sort_result : Result (List Range) → Result (List Range)
sort_result (ok rs) = ok (sorted_by_stop rs)
sort_result (raised e) = raised e
sort_result stuck = stuck

module _ (parse_number : List ℕ → Option ℕ) where
  -- The parts of a token between its dashes: one number, or two.
  unfoldable pub parse_parts : List (List ℕ) → Result Range
  parse_parts (t ∷ []) = range_of (parse_number t) (parse_number t)
  parse_parts (t ∷ t' ∷ []) = range_of (parse_number t) (parse_number t')
  parse_parts _ = raised value_error

  abbrev pub prepend_range : Result Range → Result (List Range) → Result (List Range)
  prepend_range (ok r) (ok rs) = ok (r ∷ rs)
  prepend_range (ok r) (raised e) = raised e
  prepend_range (ok r) stuck = stuck
  prepend_range (raised e) rest = raised e
  prepend_range stuck rest = stuck

  -- The loop over the tokens.
  unfoldable pub parse_tokens : List (List ℕ) → Result (List Range)
  unfolding split parse_parts
  parse_tokens [] = ok []
  parse_tokens (t ∷ tokens) = prepend_range (parse_parts (split b'-' t)) (parse_tokens tokens)

  -- The ranges in the order of the text.
  unfoldable pub read_ranges : List ℕ → Result (List Range)
  unfolding split parse_tokens
  read_ranges [] = ok []
  read_ranges (c ∷ text) = parse_tokens (split b',' (c ∷ text))

  unfoldable pub parse_nmap_ranges : List ℕ → Result (List Range)
  unfolding read_ranges sorted_by_stop
  parse_nmap_ranges nmap_ranges = sort_result (read_ranges nmap_ranges)

-- The subclasses, by the base of their numbers; 0 lets the prefix decide.
unfoldable pub hex_number_range_set : List ℕ → Result (List Range)
unfolding parse_nmap_ranges int
hex_number_range_set = parse_nmap_ranges (int 16)

unfoldable pub oct_number_range_set : List ℕ → Result (List Range)
unfolding parse_nmap_ranges int
oct_number_range_set = parse_nmap_ranges (int 8)

unfoldable pub bin_number_range_set : List ℕ → Result (List Range)
unfolding parse_nmap_ranges int
bin_number_range_set = parse_nmap_ranges (int 2)

unfoldable pub dec_number_range_set : List ℕ → Result (List Range)
unfolding parse_nmap_ranges int
dec_number_range_set = parse_nmap_ranges (int 10)

unfoldable pub auto_number_range_set : List ℕ → Result (List Range)
unfolding parse_nmap_ranges int
auto_number_range_set = parse_nmap_ranges (int 0)
