-- ===== src/Python/Number.antt =====
-- `int(text, base)` of Python, over ASCII text (a list of character codes) with no minus sign: the
-- sources call it on parts of a text that they have split at '-', and on hexadecimal digits.
use cyclarity_in_vehicle_sdk.Prelude.{
  ℕ, zero, suc, ◌+◌, ◌-◌, ◌*◌, Bool, true, false, not, ◌&&◌, ◌||◌, Option, none, some, List, [],
  ◌∷◌, ltb, leb, ◌==◌, if◌then◌else◌,
}

-- The value of a digit; 36 for what is no digit of any base.
unfoldable pub digit_value : ℕ → ℕ
digit_value c =
    if leb b'0' c && leb c b'9'
    then c - b'0'
    else if leb b'a' c && leb c b'z'
    then (c - b'a') + 10
    else if leb b'A' c && leb c b'Z'
    then (c - b'A') + 10
    else 36

-- The flag says that a digit must come: at the start, and behind an underscore.
unfoldable pub digits : ℕ → Bool → ℕ → List ℕ → Option ℕ
unfolding digit_value
digits base due acc [] = if due then none else some acc
digits base due acc (c ∷ cs) =
    let underscore = if due then none else digits base true acc cs in
    let digit =
      if ltb (digit_value c) base
      then digits base false (acc * base + digit_value c) cs
      else none in
    if c == b'_' then underscore else digit

-- The spaces that `int` skips at the ends of an ASCII text.
unfoldable pub is_space : ℕ → Bool
is_space c = (leb 9 c && leb c 13) || (c == b' ')

unfoldable pub skip_spaces : List ℕ → List ℕ
unfolding is_space
skip_spaces [] = []
skip_spaces (c ∷ cs) = let rest = skip_spaces cs in if is_space c then rest else c ∷ cs

-- The text without the spaces at its end.
unfoldable pub drop_end_spaces : List ℕ → List ℕ
unfolding is_space
drop_end_spaces [] = []
drop_end_spaces (c ∷ cs) = elim (drop_end_spaces cs) [
  | [] ↦ if is_space c then [] else c ∷ []
  | d ∷ ds ↦ c ∷ d ∷ ds
]

-- The base that a prefix letter names; 10 for a letter that names none.
unfoldable pub prefix_base : ℕ → ℕ
prefix_base c =
    if (c == b'x') || (c == b'X')
    then 16
    else if (c == b'o') || (c == b'O')
    then 8
    else if (c == b'b') || (c == b'B')
    then 2
    else 10

-- One underscore may stand behind a prefix.
unfoldable pub after_prefix : ℕ → List ℕ → Option ℕ
unfolding digits
after_prefix base [] = none
after_prefix base (c ∷ cs) =
    if c == b'_' then digits base true 0 cs else digits base true 0 (c ∷ cs)

-- A text of base 0 that begins with '0' and no prefix must be zero.
unfoldable pub zero_only : Option ℕ → Option ℕ
zero_only none = none
zero_only (some zero) = some 0
zero_only (some (suc n)) = none

unfoldable pub unsigned : ℕ → List ℕ → Option ℕ
unfolding digits after_prefix prefix_base zero_only
unsigned base [] = none
unsigned base (c ∷ []) = digits (if base == 0 then 10 else base) true 0 (c ∷ [])
unsigned base (c ∷ p ∷ cs) =
    let named = prefix_base p in
    if c == b'0' && not (named == 10) && ((base == 0) || (base == named))
    then after_prefix named cs
    else if c == b'0' && (base == 0)
    then zero_only (digits 10 true 0 (c ∷ p ∷ cs))
    else digits (if base == 0 then 10 else base) true 0 (c ∷ p ∷ cs)

unfoldable pub skip_plus : List ℕ → List ℕ
skip_plus [] = []
skip_plus (c ∷ cs) = if c == b'+' then cs else c ∷ cs

-- `int(text, base)`; `none` for ValueError.
unfoldable pub int : ℕ → List ℕ → Option ℕ
unfolding skip_spaces drop_end_spaces skip_plus unsigned
int base text = unsigned base (skip_plus (drop_end_spaces (skip_spaces text)))
