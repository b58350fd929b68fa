-- ===== src/Discovery/Scan.antt =====
-- The walks over the registries' directories, `collect_crate_versions_from_registry` and
-- `collect_local_versions_for_crate` of crates/rust-mcp/src/mcp/indexing/discovery.rs. What the file
-- system answers is given: a listing that cannot be read is `none`, and so is an entry of one. The
-- hash map is a function; the counters of the outcome are those that the walk changes.
pub mod Agree
use rust_mcp.Prelude.{
  ℕ, ◌+◌, Bool, List, [], ◌∷◌, ◌++◌, Option, none, some, unwrap_or, if◌then◌else◌,
}
use rust_mcp.Text.{Text, text_eq}
use rust_mcp.Discovery.{parse_registry_dir_name}

abbrev pub Listing {ℓ} : Type ℓ → Type ℓ
Listing A = Option (List (Option A))

-- An entry of a registry; its name is `none` where it is no Unicode.
pub record CrateEntry : Type 0 where
  pub is_dir : Bool
  pub dir_name : Option Text

pub record RegistryEntry : Type 0 where
  pub is_dir : Bool
  pub crate_dirs : Listing CrateEntry

pub record DiscoveryScan : Type 0 where
  pub discovered : ℕ
  pub unparseable : ℕ
  pub versions : Text → List Text

-- `entry(crate_name).or_default().push(version)`.
unfoldable pub push_version : (Text → List Text) → Text → Text → Text → List Text
unfolding text_eq
push_version versions crate_name version name =
    if text_eq crate_name name then versions name ++ (version ∷ []) else versions name

module _ (parses : Text → Bool) where
  abbrev pub note_parsed : DiscoveryScan → Option (Text × Text) → DiscoveryScan
  note_parsed s none = record s { unparseable = s.unparseable + 1 }
  note_parsed s (some (name, version)) = record s {
    versions = push_version s.versions name version;
  }

  unfoldable pub scan_crate_dirs : DiscoveryScan → List (Option CrateEntry) → DiscoveryScan
  unfolding parse_registry_dir_name
  scan_crate_dirs s [] = s
  scan_crate_dirs s (none ∷ entries) = scan_crate_dirs s entries
  scan_crate_dirs s (some entry ∷ entries) =
      scan_crate_dirs
        (if entry.is_dir
          then note_parsed (record s { discovered = s.discovered + 1 })
              (parse_registry_dir_name parses (unwrap_or [] entry.dir_name))
          else s)
        entries

  abbrev pub scan_listing : DiscoveryScan → Listing CrateEntry → DiscoveryScan
  scan_listing s none = s
  scan_listing s (some entries) = scan_crate_dirs s entries

  unfoldable pub scan_registries : DiscoveryScan → List (Option RegistryEntry) → DiscoveryScan
  unfolding scan_crate_dirs
  scan_registries s [] = s
  scan_registries s (none ∷ registries) = scan_registries s registries
  scan_registries s (some registry ∷ registries) =
      scan_registries (if registry.is_dir then scan_listing s registry.crate_dirs else s) registries

  -- The map starts empty; no source directory is an error.
  unfoldable pub collect_crate_versions_from_registry :
      Listing RegistryEntry → DiscoveryScan → Option DiscoveryScan
  unfolding scan_registries
  collect_crate_versions_from_registry none outcome = none
  collect_crate_versions_from_registry (some registries) outcome =
      some (scan_registries (record outcome { versions = λ name. [] }) registries)

  module _ (crate_name : Text) where
    abbrev pub push_of_crate : List Text → Option (Text × Text) → List Text
    push_of_crate versions none = versions
    push_of_crate versions (some (name, version)) =
        if text_eq name crate_name then versions ++ (version ∷ []) else versions

    abbrev pub push_named : List Text → Option Text → List Text
    unfolding parse_registry_dir_name
    push_named versions none = versions
    push_named versions (some dir_name) =
        push_of_crate versions (parse_registry_dir_name parses dir_name)

    unfoldable pub local_crate_dirs : List Text → List (Option CrateEntry) → List Text
    unfolding push_named
    local_crate_dirs versions [] = versions
    local_crate_dirs versions (none ∷ entries) = local_crate_dirs versions entries
    local_crate_dirs versions (some entry ∷ entries) =
        local_crate_dirs (if entry.is_dir then push_named versions entry.dir_name else versions)
          entries

    abbrev pub local_listing : List Text → Listing CrateEntry → List Text
    local_listing versions none = versions
    local_listing versions (some entries) = local_crate_dirs versions entries

    unfoldable pub local_registries : List Text → List (Option RegistryEntry) → List Text
    unfolding local_crate_dirs
    local_registries versions [] = versions
    local_registries versions (none ∷ registries) = local_registries versions registries
    local_registries versions (some registry ∷ registries) =
        local_registries
          (if registry.is_dir then local_listing versions registry.crate_dirs else versions)
          registries

    unfoldable pub collect_local_versions_for_crate : Listing RegistryEntry → List Text
    unfolding local_registries
    collect_local_versions_for_crate none = []
    collect_local_versions_for_crate (some registries) = local_registries [] registries
