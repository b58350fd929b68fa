-- ===== src/Text.antt =====
-- Rust strings as lists of Unicode code points, with the operations of `str` and `char` that the
-- program calls: trimming, ASCII case, prefixes and suffixes, splitting and joining.
mod Equality
pub mod Pieces
pub mod Lines
pub use Equality.*
unfoldable pub use Equality.{text_eq}
use Prim.Native.Char.{code}
use rust_mcp.Prelude.{
  ℕ, zero, suc, ◌+◌, ◌-◌, String, ◌≡◌, refl, Bool, true, false, ◌&&◌, ◌||◌, List, [], ◌∷◌, map,
  reverse, arith, leb, ◌==◌, if◌then◌else◌,
}
use Equality.{Text}

-- The code points of a literal.
abbrev pub codes : String → Text
codes String.[] = []
codes (String.◌∷◌ c s) = code c ∷ codes s

-- `char::is_whitespace`, the characters of Unicode's White_Space property.
unfoldable pub is_whitespace : ℕ → Bool
is_whitespace c =
    (leb 9 c && leb c 13)
    || c == 32
    || c == 133
    || c == 160
    || c == 5760
    || (leb 8192 c && leb c 8202)
    || c == 8232
    || c == 8233
    || c == 8239
    || c == 8287
    || c == 12288

unfoldable pub trim_start : Text → Text
trim_start [] = []
trim_start (c ∷ s) = if is_whitespace c then trim_start s else c ∷ s

unfoldable pub trim_end : Text → Text
unfolding trim_start
trim_end s = reverse (trim_start (reverse s))

unfoldable pub trim : Text → Text
unfolding trim_end trim_start is_whitespace
trim s = trim_end (trim_start s)

-- `to_ascii_lowercase` and `to_ascii_uppercase`, one character at a time.
unfoldable pub lower_char : ℕ → ℕ
lower_char c = if leb 65 c && leb c 90 then c + 32 else c

unfoldable pub upper_char : ℕ → ℕ
upper_char c = if leb 97 c && leb c 122 then c - 32 else c

unfoldable pub to_lower : Text → Text
unfolding lower_char
to_lower s = map lower_char s

unfoldable pub to_upper : Text → Text
unfolding upper_char
to_upper s = map upper_char s

-- `eq_ignore_ascii_case`.
unfoldable pub eq_ignore_case : Text → Text → Bool
unfolding to_lower text_eq
eq_ignore_case a b = text_eq (to_lower a) (to_lower b)
