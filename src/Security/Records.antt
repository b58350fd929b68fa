-- ===== src/Security/Records.antt =====
-- What is read of an OSV vulnerability, crates/rust-mcp/src/integration/osv/mod.rs, and how the fields
-- of an advisory's row are made of it, crates/rust-mcp/src/mcp/indexing/security.rs.
use rust_mcp.Prelude.{
  Bool, true, false, List, [], ◌∷◌, ◌++◌, Option, none, some, if◌then◌else◌, any, unwrap_or, ◌==◌,
  length,
}
use rust_mcp.Prelude.Options.{or_else, is_some}
use rust_mcp.Order.{text_ord}
use rust_mcp.Order.Sort.{sort_by, dedup}
use rust_mcp.Text.{Text, codes, text_eq, trim}
use rust_mcp.Text.Pieces.{starts_with, join}
use rust_mcp.Text.Lines.{lines}

pub record OsvPackage : Type 0 where
  pub ecosystem : Text
  pub name : Text

pub record OsvRangeEvent : Type 0 where
  pub introduced : Option Text
  pub fixed : Option Text
  pub last_affected : Option Text
  pub limit : Option Text

pub record OsvRange : Type 0 where
  pub range_type : Text
  pub events : List OsvRangeEvent

pub record OsvAffected : Type 0 where
  pub of_package : Option OsvPackage
  pub versions : List Text
  pub ranges : List OsvRange
  pub functions : Option (List Text)

pub record OsvSeverity : Type 0 where
  pub severity_type : Option Text
  pub score : Option Text

pub record OsvDatabaseSpecific : Type 0 where
  pub severity : Option Text
  pub cwe_ids : List Text

pub record OsvVulnerability : Type 0 where
  pub id : Text
  pub withdrawn : Option Text
  pub summary : Option Text
  pub details : Option Text
  pub aliases : List Text
  pub affected : List OsvAffected
  pub references : List Text
  pub severity : List OsvSeverity
  pub database_specific : Option OsvDatabaseSpecific

abbrev part : Text → Option Text → List Text
part key none = []
part key (some value) = (key ++ value) ∷ []

event_parts : OsvRangeEvent → List Text
event_parts event =
    part (codes "introduced=") event.introduced
    ++ (part (codes "fixed=") event.fixed
        ++ (part (codes "last_affected=") event.last_affected ++ part (codes "limit=") event.limit))

-- The parts of the events up to the first that does not have exactly one of the four keys; the flag
-- tells whether there was one, and then no part is left.
range_parts : List OsvRangeEvent → List Text → Bool × List Text
unfolding event_parts
range_parts [] parts = (false, parts)
range_parts (event ∷ events) parts =
    if length (event_parts event) == 1
    then range_parts events (parts ++ event_parts event)
    else (true, [])

abbrev rendered_range : Text → List Text → Text
rendered_range range_type [] = range_type
rendered_range range_type (part ∷ parts) =
    range_type ++ (codes "(" ++ (join (codes ",") (part ∷ parts) ++ codes ")"))

range_texts : OsvRange → List Text
unfolding range_parts
range_texts range =
    let (invalid, parts) = range_parts range.events [] in
    (if invalid then codes "osv_invalid_event" ∷ [] else [])
    ++ (rendered_range range.range_type parts ∷ [])

abbrev pub flattened : {A B : Type 0} → (A → List B) → List A → List B
flattened f [] = []
flattened f (a ∷ as') = f a ++ flattened f as'

abbrev joined_ranges : List Text → Text
joined_ranges [] = codes "osv_affected_unknown"
joined_ranges (range ∷ ranges) = join (codes "; ") (range ∷ ranges)

unfoldable pub affected_range_text : List OsvAffected → Text
unfolding range_texts join
affected_range_text affected =
    joined_ranges (flattened (λ (item : OsvAffected). flattened range_texts item.ranges) affected)

abbrev optional : Option Text → List Text
optional none = []
optional (some value) = value ∷ []

unfoldable pub fixed_versions : List OsvAffected → List Text
fixed_versions affected = dedup text_ord (
    sort_by text_ord (λ version. version)
      (flattened
        (λ (item : OsvAffected).
          flattened
            (λ (range : OsvRange).
              flattened (λ (event : OsvRangeEvent). optional event.fixed) range.events)
            item.ranges)
        affected))

unfoldable pub first_rustsec_alias : List Text → Option Text
unfolding starts_with
first_rustsec_alias [] = none
first_rustsec_alias (alias ∷ aliases) =
    if starts_with (codes "RUSTSEC-") alias then some alias else first_rustsec_alias aliases

abbrev shared_identity : Text → Option Text → Text × Text
shared_identity id none = (id, codes "osv")
shared_identity id (some rustsec_id) = (rustsec_id, codes "rustsec_osv")

-- The id that an advisory's row has, and its source.
unfoldable pub advisory_identity : OsvVulnerability → Text × Text
unfolding starts_with first_rustsec_alias
advisory_identity vuln =
    if starts_with (codes "RUSTSEC-") vuln.id
    then (vuln.id, codes "rustsec_osv")
    else if is_some vuln.withdrawn
    then (vuln.id, codes "osv")
    else shared_identity vuln.id (first_rustsec_alias vuln.aliases)

-- The functions that the entries name, each once, in order.
add_functions : List Text → List Text → List Text
unfolding text_eq
add_functions [] functions = functions
add_functions (func ∷ rest) functions =
    add_functions rest
      (if any (text_eq func) functions then functions else functions ++ (func ∷ []))

affected_functions_from : List OsvAffected → List Text → List Text
unfolding add_functions
affected_functions_from [] functions = functions
affected_functions_from (item ∷ items) functions =
    affected_functions_from items (add_functions (unwrap_or [] item.functions) functions)

unfoldable pub collect_affected_functions : List OsvAffected → List Text
unfolding affected_functions_from
collect_affected_functions affected =
    sort_by text_ord (λ name. name) (affected_functions_from affected [])

abbrev heading : Text → Option Text
heading [] = none
heading (c ∷ title) = some (c ∷ title)

trim_hashes : Text → Text
trim_hashes [] = []
trim_hashes (c ∷ s) = if c == b'#' then trim_hashes s else c ∷ s

title_of_line : Text → Option Text
unfolding trim_hashes starts_with trim
title_of_line line =
    if starts_with (codes "#") line then heading (trim (trim_hashes line)) else none

first_title : List Text → Option Text
unfolding title_of_line trim
first_title [] = none
first_title (line ∷ rest) = or_else (title_of_line (trim line)) (first_title rest)

unfoldable pub rustsec_title_from_body : Text → Option Text
unfolding first_title lines
rustsec_title_from_body body = first_title (lines body)
