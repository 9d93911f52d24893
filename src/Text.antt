-- ===== src/Text.antt =====
-- Texts as lists of character codes, and the operations of JavaScript on them that the backend uses.
pub mod Laws
use zk_auth.Prelude.{
  ℕ, ◌+◌, ◌-◌, ◌*◌, ◌≤◌, ◌==◌, leb, Bool, true, false, ◌&&◌, List, [], ◌∷◌, ◌++◌, if◌then◌else◌,
}

abbrev pub Text : Type 0
Text = List ℕ

abbrev pub space : ℕ
space = 32

unfoldable pub same_text : Text → Text → Bool
same_text [] [] = true
same_text (a ∷ rest) (b ∷ others) = a == b && same_text rest others
same_text _ _ = false

-- `toLowerCase` of an ASCII letter.
abbrev pub lower_char : ℕ → ℕ
lower_char c = if leb 65 c && leb c 90 then c + 32 else c

unfoldable pub lower : Text → Text
lower [] = []
lower (c ∷ cs) = lower_char c ∷ lower cs

-- `text.split(' ')`, as its first part and the parts after it.
abbrev pub put_char : ℕ → Text × List Text → Text × List Text
put_char c (part, parts) = if c == space then ([], part ∷ parts) else (c ∷ part, parts)

unfoldable pub split : Text → Text × List Text
split [] = ([], [])
split (c ∷ cs) = put_char c (split cs)

-- `parts.join(' ')`
unfoldable pub join : List Text → Text
join [] = []
join (part ∷ []) = part
join (part ∷ next ∷ parts) = part ++ space ∷ join (next ∷ parts)

abbrev pub is_digit : ℕ → Bool
is_digit c = leb 48 c && leb c 57

unfoldable pub all_digits : Text → Bool
all_digits [] = true
all_digits (c ∷ cs) = is_digit c && all_digits cs

-- `BigInt` of a decimal text, read from the left.
unfoldable pub decimal_from : ℕ → Text → ℕ
decimal_from acc [] = acc
decimal_from acc (c ∷ cs) = decimal_from (acc * 10 + (c - 48)) cs

abbrev pub decimal : Text → ℕ
decimal t = decimal_from 0 t
