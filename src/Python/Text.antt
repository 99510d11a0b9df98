-- ===== src/Python/Text.antt =====
-- Python's texts as lists of code points: literals, the test `in`, and what the sources use of `re`.
use Prim.Native.Char.{code}
use Prim.Native.String.{String}
use cyclarity_in_vehicle_sdk.Prelude.{
  ℕ, Bool, true, false, not, ◌&&◌, ◌||◌, List, [], ◌∷◌, ◌==◌, leb,
}
use cyclarity_in_vehicle_sdk.Python.Bytes.{starts_with}

-- The code points of a literal.
abbrev pub codes : String → List ℕ
codes String.[] = []
codes (String.◌∷◌ c s) = code c ∷ codes s

-- `sub in text`
unfoldable pub contains : List ℕ → List ℕ → Bool
unfolding starts_with
contains sub [] = starts_with sub []
contains sub (c ∷ cs) = let later = contains sub cs in starts_with sub (c ∷ cs) || later

-- A part of a regular expression: whether it matches a beginning of the text so that `next` matches
-- the rest.
abbrev pub Pattern : Type 0
Pattern = (List ℕ → Bool) → List ℕ → Bool

-- One character.
unfoldable pub char : ℕ → Pattern
char c next [] = false
char c next (x ∷ xs) = (x == c) && next xs

-- `\s`, of ASCII
unfoldable pub space : Pattern
space next [] = false
space next (x ∷ xs) = ((leb 9 x && leb x 13) || ((leb 28 x && leb x 31) || (x == 32))) && next xs

-- `.+`: characters but no line feed, at least one.
unfoldable pub dots : Pattern
dots next [] = false
dots next (x ∷ xs) = let more = dots next xs in not (x == 10) && (next xs || more)

-- `$`: the end, or a line feed at the end.
unfoldable pub at_end : List ℕ → Bool
at_end [] = true
at_end (x ∷ []) = x == 10
at_end (x ∷ y ∷ xs) = false

-- `search`: the match may begin anywhere.
unfoldable pub search_in : (List ℕ → Bool) → List ℕ → Bool
search_in matches [] = matches []
search_in matches (x ∷ xs) = let later = search_in matches xs in matches (x ∷ xs) || later
