-- ===== src/Prelude/Texts.antt =====
-- The functions on strings that the server uses: `split`, `split_once`, and the tests on characters.
use Prim.Native.Nat.{ℕ}
use mathlib.Core.Bool.{Bool, true, false, ◌&&◌, ◌||◌}
use mathlib.Core.Option.{Option, none, some}
use mathlib.Core.List.{List, [], ◌∷◌}
use devsite.Prelude.Tests.{◌==◌, if◌then◌else◌}
use devsite.Prelude.Lists.{Text}

-- A character in front of the first part.
abbrev onto_first : ℕ → List Text → List Text
onto_first c [] = (c ∷ []) ∷ []
onto_first c (part ∷ parts) = (c ∷ part) ∷ parts

-- `str::split` at a character: always at least one part.
unfoldable pub split : ℕ → Text → List Text
split sep [] = [] ∷ []
split sep (c ∷ cs) = let rest = split sep cs in if c == sep then [] ∷ rest else onto_first c rest

abbrev onto_name : ℕ → Option (Text × Text) → Option (Text × Text)
onto_name c none = none
onto_name c (some (name, value)) = some (c ∷ name, value)

-- `str::split_once` at a character.
unfoldable pub split_once : ℕ → Text → Option (Text × Text)
split_once sep [] = none
split_once sep (c ∷ cs) =
    let rest = split_once sep cs in if c == sep then some ([], cs) else onto_name c rest

unfoldable pub starts_with_text : Text → Text → Bool
starts_with_text [] t = true
starts_with_text (p ∷ ps) [] = false
starts_with_text (p ∷ ps) (c ∷ t) = p == c && starts_with_text ps t

-- `str::contains` of a text.
unfoldable pub contains_text : Text → Text → Bool
unfolding starts_with_text
contains_text needle [] = starts_with_text needle []
contains_text needle (c ∷ t) = starts_with_text needle (c ∷ t) || contains_text needle t
