-- ===== src/Text/Pieces.antt =====
-- `strip_prefix`, `strip_suffix`, `contains`, `split`, `split_once` and `join`.
use rust_mcp.Prelude.{
  ℕ, zero, suc, ◌-◌, Bool, true, false, ◌||◌, List, [], ◌∷◌, ◌++◌, reverse, Option, none, some,
  ◌==◌, if◌then◌else◌, length,
}
use rust_mcp.Text.Equality.{Text}

-- What is left of `s` behind the prefix `p`.
unfoldable pub strip_prefix : Text → Text → Option Text
strip_prefix [] s = some s
strip_prefix (c ∷ p) [] = none
strip_prefix (c ∷ p) (d ∷ s) = if c == d then strip_prefix p s else none

abbrev reversed : Option Text → Option Text
reversed none = none
reversed (some s) = some (reverse s)

unfoldable pub strip_suffix : Text → Text → Option Text
unfolding strip_prefix
strip_suffix p s = reversed (strip_prefix (reverse p) (reverse s))

unfoldable pub starts_with : Text → Text → Bool
unfolding strip_prefix
starts_with p s = elim (strip_prefix p s) [ none ↦ false | some _ ↦ true ]

unfoldable pub contains : Text → Text → Bool
unfolding starts_with
contains p [] = starts_with p []
contains p (c ∷ s) = starts_with p (c ∷ s) || contains p s

-- `split` at every occurrence of a nonempty separator, from the left and not overlapping: `skip`
-- characters of a separator are still to be passed, `piece` is the piece so far, reversed.
unfoldable pub split_from : Text → ℕ → Text → Text → List Text
unfolding starts_with
split_from sep skip piece [] = reverse piece ∷ []
split_from sep (suc skip) piece (c ∷ s) = split_from sep skip piece s
split_from sep zero piece (c ∷ s) = elim (starts_with sep (c ∷ s)) [
  | true ↦ reverse piece ∷ split_from sep (length sep - 1) [] s
  | false ↦ split_from sep zero (c ∷ piece) s
]

unfoldable pub split : Text → Text → List Text
unfolding split_from
split sep s = split_from sep 0 [] s

abbrev pushed : ℕ → Option (Text × Text) → Option (Text × Text)
pushed c none = none
pushed c (some (a, b)) = some (c ∷ a, b)

-- `split_once` at the first occurrence of one character.
unfoldable pub split_once : ℕ → Text → Option (Text × Text)
split_once d [] = none
split_once d (c ∷ s) = if c == d then some ([], s) else pushed c (split_once d s)

unfoldable pub join : Text → List Text → Text
join sep [] = []
join sep (s ∷ []) = s
join sep (s ∷ t ∷ ts) = s ++ (sep ++ join sep (t ∷ ts))
