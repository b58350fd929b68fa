-- ===== src/Dependencies/Inputs.antt =====
-- `normalize_inputs`: explicit dependencies, those of a manifest, and additions, one for each crate.
pub mod Winner
use rust_mcp.Prelude.{
  ◌≡◌, ◌≢◌, refl, sym, ap, subst, ◌∙◌, Bool, true, false, not, ◌&&◌, ◌||◌, List, [], ◌∷◌, ◌++◌, map,
  Option, none, some, arith, if◌then◌else◌, is_empty, select, unwrap_or, All, Bool-cases,
  Option-cases, inl, inr,
}
use rust_mcp.Prelude.Options.{◌>>=◌, mapped, or_else, is_some}
use rust_mcp.Order.{text_ord, comparison, less, same, greater}
use rust_mcp.Order.Sort.{sort_by, IsSorted, sort_by-IsSorted}
use rust_mcp.BTree.{
  get, insert, alter, get-alter_self, get-alter_ne, IsAscending, alter-IsAscending, alter-All,
}
use rust_mcp.Text.{Text, trim, to_lower, text_eq, text_eq_iff}

-- A dependency as a caller names it.
pub record InputDependency : Type 0 where
  pub name : Text
  pub version_req : Option Text

pub data Source : Type 0 where
  explicit cargo_toml addition : Source

pub record NormalizedDependency : Type 0 where
  pub name : Text
  pub version_req : Option Text
  pub source : Source

abbrev pub is_addition : Source → Bool
is_addition addition = true
is_addition _ = false

abbrev pub from_source : Source → InputDependency → NormalizedDependency
from_source source entry = record {
  name = entry.name;
  version_req = entry.version_req;
  source = source;
}

-- The three inputs one after the other.
abbrev pub all_inputs :
    Option (List InputDependency)
    → List InputDependency
    → Option (List InputDependency)
    → List NormalizedDependency
all_inputs explicit_dependencies manifest_dependencies additions =
    map (from_source explicit) (unwrap_or [] explicit_dependencies)
    ++ (map (from_source cargo_toml) manifest_dependencies
        ++ map (from_source addition) (unwrap_or [] additions))

abbrev pub nonempty : Text → Option Text
nonempty [] = none
nonempty (c ∷ s) = some (c ∷ s)

-- The entry with its name and requirement trimmed.
unfoldable pub normalized : NormalizedDependency → NormalizedDependency
unfolding trim
normalized entry = record entry {
  name = trim entry.name;
  version_req = entry.version_req >>= λ req. nonempty (trim req);
}

-- The guard of the second arm.
abbrev pub overrides : NormalizedDependency → NormalizedDependency → Bool
overrides new existing =
    is_some new.version_req && (is_addition new.source || not (is_some existing.version_req))

abbrev pub choose : NormalizedDependency → Option NormalizedDependency → NormalizedDependency
choose new none = new
choose new (some existing) = if overrides new existing then new else existing

abbrev pub Merged : Type 0
Merged = List (Text × NormalizedDependency)

abbrev pub key_of : NormalizedDependency → Text
key_of entry = to_lower (trim entry.name)

unfoldable pub merge_entries : List NormalizedDependency → Merged → Merged
unfolding normalized
merge_entries [] merged = merged
merge_entries (entry ∷ rest) merged =
    if is_empty (trim entry.name)
    then merge_entries rest merged
    else merge_entries rest (alter text_ord (key_of entry) (choose (normalized entry)) merged)

unfoldable pub sort_by_name : List NormalizedDependency → List NormalizedDependency
sort_by_name = sort_by text_ord (λ entry. to_lower entry.name)

unfoldable pub normalize_inputs :
    Option (List InputDependency)
    → List InputDependency
    → Option (List InputDependency)
    → List NormalizedDependency
unfolding merge_entries sort_by_name
normalize_inputs explicit_dependencies manifest_dependencies additions = sort_by_name (
    map (λ e. e.1)
      (merge_entries (all_inputs explicit_dependencies manifest_dependencies additions) []))

-- The entries of one crate, trimmed, in their order.
abbrev pub of_crate : Text → List NormalizedDependency → List NormalizedDependency
of_crate key entries =
    map normalized (select (λ e. not (is_empty (trim e.name)) && text_eq (key_of e) key) entries)

-- The last addition that states a requirement.
abbrev pub last_override : List NormalizedDependency → Option NormalizedDependency
last_override [] = none
last_override (e ∷ es) =
    or_else (last_override es)
      (if is_addition e.source && is_some e.version_req then some e else none)

-- The first entry that states a requirement.
abbrev pub first_required : List NormalizedDependency → Option NormalizedDependency
first_required [] = none
first_required (e ∷ es) =
    let rest = first_required es in if is_some e.version_req then some e else rest

abbrev pub head : List NormalizedDependency → Option NormalizedDependency
head [] = none
head (e ∷ es) = some e

abbrev pub fold_choices :
    List NormalizedDependency → Option NormalizedDependency → Option NormalizedDependency
fold_choices [] chosen = chosen
fold_choices (e ∷ es) chosen = fold_choices es (some (choose e chosen))

abbrev pub requiring : Option NormalizedDependency → Option NormalizedDependency
requiring none = none
requiring (some e) = if is_some e.version_req then some e else none

pub fold_choices_lem :
    (es : List NormalizedDependency) (chosen : Option NormalizedDependency)
    → fold_choices es chosen
      ≡ or_else
          (last_override es)
          (or_else (requiring chosen) (or_else (first_required es) (or_else chosen (head es))))
fold_choices_lem [] none = refl
fold_choices_lem [] (some x) = ground arith
fold_choices_lem (e ∷ es) none = rw (fold_choices_lem es (some e)) (ground arith)
fold_choices_lem (e ∷ es) (some x) =
    rw (fold_choices_lem es (some (choose e (some x)))) (ground arith)
