-- ===== src/Text/Lines.antt =====
-- `str::lines`: the pieces that end in a line feed, without it and a carriage return before it, and
-- what is left behind the last.
use rust_mcp.Prelude.{true, false, List, [], ◌∷◌, reverse, ◌==◌, if◌then◌else◌}
use rust_mcp.Text.Equality.{Text}

-- The characters of a line, last first, without a carriage return at its end.
unfoldable pub without_return : Text → Text
without_return [] = []
without_return (c ∷ line) = if c == 13 then line else c ∷ line

unfoldable pub last_line : Text → List Text
last_line [] = []
last_line (c ∷ line) = reverse (c ∷ line) ∷ []

-- `line` holds the characters of the current line so far, last first.
unfoldable pub lines_from : Text → Text → List Text
unfolding without_return last_line
lines_from line [] = last_line line
lines_from line (c ∷ s) = elim (c == 10) [
  | true ↦ reverse (without_return line) ∷ lines_from [] s
  | false ↦ lines_from (c ∷ line) s
]

unfoldable pub lines : Text → List Text
unfolding lines_from
lines s = lines_from [] s
