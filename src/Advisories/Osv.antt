-- ===== src/Advisories/Osv.antt =====
-- OSV ranges: `OsvEvent`, `OsvRange`, `parse_osv_events`, `osv_range_affects` and
-- `osv_applicability`.
pub mod Intervals
pub mod Ranges
use rust_mcp.Prelude.{
  ℕ, Bool, true, false, not, ◌&&◌, ◌||◌, List, [], ◌∷◌, ◌++◌, Option, none, some, ◌==◌,
  if◌then◌else◌, any, is_empty,
}
use rust_mcp.Prelude.Options.{◌>>=◌, mapped, or_else, is_some}
use rust_mcp.Order.{Ord, option_ord, pair_ord, nat_ord}
use rust_mcp.Order.Sort.{sort_by}
use rust_mcp.Text.{Text, codes, text_eq, trim}
use rust_mcp.Text.Pieces.{split, split_once, strip_prefix, strip_suffix, contains}
use rust_mcp.Semver.{Semver, parse_semver_for_matching, at_least}
use rust_mcp.Advisories.Applicability.{Applicability, affected, unless_unknown}

pub data OsvEvent : Type 0 where
  introduced fixed last_affected : OsvEvent

-- The derived order of the variants.
abbrev pub event_rank : OsvEvent → ℕ
event_rank introduced = 0
event_rank fixed = 1
event_rank last_affected = 2

abbrev pub is_introduced : OsvEvent → Bool
is_introduced introduced = true
is_introduced _ = false

abbrev pub is_fixed : OsvEvent → Bool
is_fixed fixed = true
is_fixed _ = false

abbrev pub is_last_affected : OsvEvent → Bool
is_last_affected last_affected = true
is_last_affected _ = false

event_kind : Text → Option OsvEvent
event_kind kind =
    if text_eq kind (codes "introduced")
    then some introduced
    else if text_eq kind (codes "fixed")
    then some fixed
    else if text_eq kind (codes "last_affected")
    then some last_affected
    else none

module _ (σ : Semver) where
  open σ use {Version, order}

  -- `none` is the start sentinel in an event, and positive infinity in a limit.
  pub record OsvRange : Type 0 where
    pub events : List (Option Version × OsvEvent)
    pub limits : List (Option Version)

  abbrev pub Event : Type 0
  Event = Option Version × OsvEvent

  abbrev pub event_order : Ord (Option Version × ℕ)
  event_order = pair_ord (option_ord order) nat_ord

  abbrev pub event_key : Event → Option Version × ℕ
  event_key e = (e.0, event_rank e.1)

  -- `range.events.sort()`.
  unfoldable pub sort_events : List Event → List Event
  sort_events = sort_by event_order event_key

  parse_limit : Text → OsvRange → Option OsvRange
  parse_limit value range =
      if contains (codes "*") value
      then some (record range { limits = range.limits ++ (none ∷ []) })
      else (do
        bound ← parse_semver_for_matching σ value
        some (record range { limits = range.limits ++ (some bound ∷ []) }))

  parse_bound : OsvEvent → Text → Option (Option Version)
  parse_bound kind value =
      if is_introduced kind && text_eq value (codes "0")
      then some none
      else mapped some (parse_semver_for_matching σ value)

  pub parse_event : Text → OsvRange → Option OsvRange
  unfolding parse_limit parse_bound event_kind
  parse_event event range = do
    (kind, value) ← split_once b'=' (trim event)
    if text_eq kind (codes "limit") then parse_limit value range else do
      kind ← event_kind kind
      bound ← parse_bound kind value
      some (record range { events = range.events ++ ((bound, kind) ∷ []) })

  pub parse_each : List Text → OsvRange → Option OsvRange
  unfolding parse_event
  parse_each [] range = some range
  parse_each (event ∷ rest) range = parse_event event range >>= parse_each rest

  -- A range has an introduction, and not both ways to end an interval.
  pub checked : OsvRange → Option OsvRange
  checked range =
      let has = λ (test : OsvEvent → Bool). any (λ (e : Event). test e.1) range.events in
      if not (has is_introduced) || (has is_fixed && has is_last_affected)
      then none
      else some (record range { events = sort_events range.events })

  unfoldable pub parse_osv_events : Text → Option OsvRange
  unfolding parse_each checked
  parse_osv_events text =
      parse_each (split (codes ",") text) (record { events = []; limits = [] }) >>= checked

  -- `version >= bound`, where the sentinel is below every version.
  abbrev pub at_or_after : Version → Option Version → Bool
  at_or_after version none = true
  at_or_after version (some bound) = at_least σ version bound

  abbrev pub after : Version → Option Version → Bool
  after version none = false
  after version (some bound) = order.lt bound version

  abbrev pub below_limit : Version → Option Version → Bool
  below_limit version none = true
  below_limit version (some bound) = order.lt version bound

  -- One transition of the scan.
  unfoldable pub transition : Version → Event → Bool → Bool
  transition version (bound, introduced) state = if at_or_after version bound then true else state
  transition version (bound, fixed) state = if at_or_after version bound then false else state
  transition version (bound, last_affected) state = if after version bound then false else state

  unfoldable pub scan : Version → List Event → Bool → Bool
  unfolding transition
  scan version [] state = state
  scan version (e ∷ es) state = scan version es (transition version e state)

  unfoldable pub osv_range_affects : OsvRange → Version → Bool
  unfolding scan
  osv_range_affects range version =
      if not (is_empty range.limits) && not (any (below_limit version) range.limits)
      then false
      else scan version range.events false

  -- `TYPE(..)` to what stands in its parentheses, parsed.
  unfoldable pub range_events : Text → Option OsvRange
  unfolding parse_osv_events
  range_events range = do
    rest ← or_else (strip_prefix (codes "SEMVER(") range) (strip_prefix (codes "ECOSYSTEM(") range)
    events ← strip_suffix (codes ")") rest
    parse_osv_events events

  abbrev pub read_and_affects : Option OsvRange → Version → Bool
  read_and_affects none version = false
  read_and_affects (some range) version = osv_range_affects range version

  -- The loop over the ranges; `seen_unknown` is its flag, which a range sets that cannot be read.
  unfoldable pub osv_ranges : Version → List Text → Bool → Applicability
  osv_ranges version [] seen_unknown = unless_unknown seen_unknown
  osv_ranges version (range ∷ rest) seen_unknown =
      let events = range_events range in
      let later = osv_ranges version rest (seen_unknown || not (is_some events)) in
      if read_and_affects events version then affected else later

  unfoldable pub osv_applicability : Text → Version → Applicability
  unfolding osv_ranges
  osv_applicability affected_range version =
      osv_ranges version (split (codes "; ") affected_range) false
