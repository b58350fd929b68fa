-- ===== src/Adapter/Events/RoundTrip.antt =====
-- The events of a stream that carries one value in each event.
use mathlib.Core.List.{reverse-cons, append_assoc, append-nil}
use rust_mcp.Prelude.{
  ℕ, ◌≡◌, refl, sym, ap, ap₂, ◌∙◌, false, List, [], ◌∷◌, ◌++◌, reverse, some, arith, ◌==◌, is_empty,
  All,
}
use rust_mcp.Text.{Text, codes, is_whitespace, trim, trim_start, trim_end}
use rust_mcp.Text.Pieces.{split, split_from, starts_with, strip_prefix, join}
use rust_mcp.Text.Lines.{lines, lines_from, last_line}
use rust_mcp.Json.{Json}
use rust_mcp.Adapter.Events.{
  data_lines, data_line, event_values, values_of_events, parse_sse_json_events, parsed,
}

abbrev pub blank_line : Text
blank_line = 10 ∷ 10 ∷ []

-- No line feed in a text.
abbrev pub IsOneLine : Text → Type 0
IsOneLine text = All (λ c. (c == 10) ≡ false) text

append_cons : (s : Text) (c : ℕ) (t : Text) → (s ++ c ∷ []) ++ t ≡ s ++ c ∷ t
append_cons s c t = append_assoc s (c ∷ []) t

reverse-cons-append : (c : ℕ) (piece s : Text) → reverse (c ∷ piece) ++ s ≡ reverse piece ++ c ∷ s
reverse-cons-append c piece s =
    ap (λ l. l ++ s) (reverse-cons c piece) ∙ append_cons (reverse piece) c s

==_swap : (a b : ℕ) → (b == a) ≡ false → (a == b) ≡ false
==_swap a b h = ground arith

-- A line before a blank line is split off.
split_from-line :
    (piece s rest : Text)
    → IsOneLine s
    → split_from blank_line 0 piece (s ++ (10 ∷ 10 ∷ rest))
      ≡ (reverse piece ++ s) ∷ split_from blank_line 0 [] rest
unfolding split_from starts_with strip_prefix
split_from-line piece [] rest h =
    ap (λ l. l ∷ split_from blank_line 0 [] rest) (sym (append-nil (reverse piece)))
split_from-line piece (c ∷ s) rest h =
    rw (==_swap 10 c h.0, split_from)
      (split_from-line (c ∷ piece) s rest h.1
        ∙ ap (λ l. l ∷ split_from blank_line 0 [] rest) (reverse-cons-append c piece s))

lines_from-line :
    (d : ℕ) (line s : Text) → IsOneLine s → lines_from (d ∷ line) s ≡ (reverse (d ∷ line) ++ s) ∷ []
unfolding lines_from last_line
lines_from-line d line [] h = ap (λ l. l ∷ []) (sym (append-nil (reverse (d ∷ line))))
lines_from-line d line (c ∷ s) h =
    rw (h.0, lines_from)
      (lines_from-line c (d ∷ line) s h.1 ∙ ap (λ l. l ∷ []) (reverse-cons-append c (d ∷ line) s))

trim_start-concat :
    (s : Text) (c : ℕ) → is_whitespace c ≡ false → is_empty (trim_start (s ++ c ∷ [])) ≡ false
unfolding trim_start
trim_start-concat [] c h = rw h
trim_start-concat (d ∷ s) c h = ground (arith, trim_start-concat s c h)

is_empty-concat : (s : Text) (c : ℕ) → is_empty (s ++ c ∷ []) ≡ false
is_empty-concat [] c = refl
is_empty-concat (d ∷ s) c = refl

is_empty-reverse : (s : Text) → is_empty s ≡ false → is_empty (reverse s) ≡ false
is_empty-reverse [] h = cc
is_empty-reverse (c ∷ s) h = rw (reverse-cons c s) (is_empty-concat (reverse s) c)

is_empty-trim : (c : ℕ) (s : Text) → is_whitespace c ≡ false → is_empty (trim (c ∷ s)) ≡ false
unfolding trim trim_start trim_end
is_empty-trim c s h = rw h (
    is_empty-reverse (trim_start (reverse (c ∷ s)))
      (ap (λ l. is_empty (trim_start l)) (reverse-cons c s) ∙ trim_start-concat (reverse s) c h))

module _ {V : Type 0} (json : Json V) where
  -- The text of a value: it is read back, is one line, and starts with no space.
  pub record IsEventText (value : V) : Type 0 where
    pub reads : json.from_str (json.to_string value) ≡ some value
    pub one_line : IsOneLine (json.to_string value)
    pub starts :
        (c : ℕ) × (rest : Text) × (json.to_string value ≡ c ∷ rest) × (is_whitespace c ≡ false)

  -- A stream that carries each value in one event.
  pub event_stream : List V → Text
  event_stream [] = []
  event_stream (value ∷ values) =
      codes "data: " ++ (json.to_string value ++ (10 ∷ 10 ∷ event_stream values))

  event_line : Text → Text
  event_line text = codes "data: " ++ text

  trim_start-text :
      (value : V)
      → IsEventText value
      → trim_start (32 ∷ json.to_string value) ≡ json.to_string value
  unfolding trim_start is_whitespace
  trim_start-text value h = let (c, rest, text, starts) = h.starts in rw text (rw starts)

  data_lines-event :
      (value : V)
      → IsEventText value
      → data_lines (lines (event_line (json.to_string value))) ≡ json.to_string value ∷ []
  unfolding event_line lines data_lines strip_prefix data_line
  data_lines-event value h =
      rw
        (lines_from-line b'd' [] (codes "ata: " ++ json.to_string value)
          (refl, (refl, (refl, (refl, (refl, h.one_line))))))
        (ap (λ l. l ∷ []) (trim_start-text value h))

  event-value :
      (value : V)
      → IsEventText value
      → event_values json (data_lines (lines (event_line (json.to_string value)))) ≡ value ∷ []
  unfolding event_values join parsed
  event-value value h =
      let (c, rest, text, starts) = h.starts in
      let full : is_empty (trim (json.to_string value)) ≡ false =
        ap (λ l. is_empty (trim l)) text ∙ is_empty-trim c rest starts in
      rw (data_lines-event value h) (rw full (rw h.reads))

  values-event_stream :
      (values : List V)
      → All IsEventText values
      → values_of_events json (split blank_line (event_stream values)) ≡ values
  unfolding values_of_events split event_stream event_line
  values-event_stream [] h = refl
  values-event_stream (value ∷ values) h =
      ap (values_of_events json) (
        split_from-line (reverse (codes "data: ")) (json.to_string value) (event_stream values)
          h.0.one_line)
      ∙ ap₂ (λ l m. l ++ m) (event-value value h.0) (values-event_stream values h.1)

-- A stream that carries each of a list of values as one event is read back as that list, where each
-- value's text is read back by the JSON parser, has no line feed and does not start with a space.
pub parse_sse_json_events-event_stream :
    {V : Type 0} (json : Json V) (values : List V)
    → All (IsEventText json) values
    → parse_sse_json_events json (event_stream json values) ≡ values
unfolding parse_sse_json_events
parse_sse_json_events-event_stream json values h = values-event_stream json values h
