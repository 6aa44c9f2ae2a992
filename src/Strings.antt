-- ===== src/Strings.antt =====
-- More of package strings, as the control plane calls it: Split and Join at one character,
-- TrimSpace, ToUpper and ToLower of ASCII texts, and what relates them.
pub mod Split
pub mod Query
pub mod Utf8
use shield_core.Prelude.{
  ℕ, ◌+◌, ◌-◌, Bool, true, false, ◌&&◌, ◌||◌, List, [], ◌∷◌, ◌++◌, Text, ltb, leb, ◌==◌,
  if◌then◌else◌,
}

-- A text with its first line, of which `split` gives the pieces: it is never empty.
unfoldable pub onto_first : ℕ → List Text → List Text
onto_first c [] = (c ∷ []) ∷ []
onto_first c (p ∷ ps) = (c ∷ p) ∷ ps

-- `strings.Split` and `strings.Join` with a separator of one character.
unfoldable pub split : ℕ → Text → List Text
unfolding onto_first
split sep [] = [] ∷ []
split sep (c ∷ t) = let rest = split sep t in if c == sep then [] ∷ rest else onto_first c rest

unfoldable pub join : ℕ → List Text → Text
join sep [] = []
join sep (p ∷ []) = p
join sep (p ∷ q ∷ ps) = p ++ sep ∷ join sep (q ∷ ps)

unfoldable pub is_space : ℕ → Bool
is_space c = c == 32 || (leb 9 c && leb c 13)

unfoldable pub trim_left : Text → Text
unfolding is_space
trim_left [] = []
trim_left (c ∷ t) = let rest = trim_left t in if is_space c then rest else c ∷ t

-- A character before a text whose spaces at the end are dropped.
unfoldable pub before_end : ℕ → Text → Text
unfolding is_space
before_end c [] = if is_space c then [] else c ∷ []
before_end c (d ∷ u) = c ∷ d ∷ u

unfoldable pub trim_right : Text → Text
unfolding before_end
trim_right [] = []
trim_right (c ∷ t) = before_end c (trim_right t)

unfoldable pub trim_space : Text → Text
unfolding trim_left trim_right
trim_space t = trim_right (trim_left t)

unfoldable pub to_upper : Text → Text
to_upper [] = []
to_upper (c ∷ t) = (if leb b'a' c && leb c b'z' then c - 32 else c) ∷ to_upper t

unfoldable pub to_lower : Text → Text
to_lower [] = []
to_lower (c ∷ t) = (if leb b'A' c && leb c b'Z' then c + 32 else c) ∷ to_lower t
