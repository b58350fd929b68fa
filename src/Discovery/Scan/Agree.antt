-- ===== src/Discovery/Scan/Agree.antt =====
-- The two walks over the registries agree on every crate.
use rust_mcp.Prelude.{
  ◌+◌, ◌≡◌, refl, ap, ◌∙◌, Bool, List, [], ◌∷◌, Option, none, some, unwrap_or, Bool-cases, inl, inr,
}
use rust_mcp.Text.{Text}
use rust_mcp.Discovery.{split_below, parse_registry_dir_name}
use rust_mcp.Discovery.Scan.{
  Listing, CrateEntry, RegistryEntry, DiscoveryScan, push_version, note_parsed, scan_crate_dirs,
  scan_listing, scan_registries, collect_crate_versions_from_registry, push_of_crate, push_named,
  local_crate_dirs, local_listing, local_registries, collect_local_versions_for_crate,
}

module _ (parses : Text → Bool) (crate_name : Text) where
  note_parsed-push_of_crate :
      (s : DiscoveryScan) (p : Option (Text × Text))
      → (note_parsed parses s p).versions crate_name
        ≡ push_of_crate parses crate_name (s.versions crate_name) p
  unfolding push_version
  note_parsed-push_of_crate s none = refl
  note_parsed-push_of_crate s (some (name, version)) = refl

  note_parsed-push_named :
      (s : DiscoveryScan) (dir_name : Option Text)
      → (note_parsed parses s (parse_registry_dir_name parses (unwrap_or [] dir_name))).versions
          crate_name
        ≡ push_named parses crate_name (s.versions crate_name) dir_name
  unfolding parse_registry_dir_name split_below push_named
  note_parsed-push_named s none = refl
  note_parsed-push_named s (some dir_name) =
      note_parsed-push_of_crate s (parse_registry_dir_name parses dir_name)

  scan_crate_dirs-local_crate_dirs :
      (s : DiscoveryScan) (entries : List (Option CrateEntry))
      → (scan_crate_dirs parses s entries).versions crate_name
        ≡ local_crate_dirs parses crate_name (s.versions crate_name) entries
  unfolding scan_crate_dirs local_crate_dirs
  scan_crate_dirs-local_crate_dirs s [] = refl
  scan_crate_dirs-local_crate_dirs s (none ∷ entries) = scan_crate_dirs-local_crate_dirs s entries
  scan_crate_dirs-local_crate_dirs s (some entry ∷ entries) = elim (Bool-cases entry.is_dir) [
    | inl e ↦
        let counted = record s { discovered = s.discovered + 1 } in
        rw e (
          scan_crate_dirs-local_crate_dirs
            (note_parsed parses counted
              (parse_registry_dir_name parses (unwrap_or [] entry.dir_name)))
            entries
          ∙ ap (λ l. local_crate_dirs parses crate_name l entries)
              (note_parsed-push_named counted entry.dir_name))
    | inr e ↦ rw e (scan_crate_dirs-local_crate_dirs s entries)
  ]

  scan_listing-local_listing :
      (s : DiscoveryScan) (dirs : Listing CrateEntry)
      → (scan_listing parses s dirs).versions crate_name
        ≡ local_listing parses crate_name (s.versions crate_name) dirs
  scan_listing-local_listing s none = refl
  scan_listing-local_listing s (some entries) = scan_crate_dirs-local_crate_dirs s entries

  scan_registries-local_registries :
      (s : DiscoveryScan) (registries : List (Option RegistryEntry))
      → (scan_registries parses s registries).versions crate_name
        ≡ local_registries parses crate_name (s.versions crate_name) registries
  unfolding scan_registries local_registries
  scan_registries-local_registries s [] = refl
  scan_registries-local_registries s (none ∷ registries) =
      scan_registries-local_registries s registries
  scan_registries-local_registries s (some registry ∷ registries) =
      elim (Bool-cases registry.is_dir) [
        | inl e ↦ rw e (
            scan_registries-local_registries (scan_listing parses s registry.crate_dirs) registries
            ∙ ap (λ l. local_registries parses crate_name l registries)
                (scan_listing-local_listing s registry.crate_dirs))
        | inr e ↦ rw e (scan_registries-local_registries s registries)
      ]

  -- Where the source directory can be read, the scan of all registries succeeds, and the versions
  -- that its map has for a crate are those that the walk for this one crate collects, in the same
  -- order, whatever entries and registries cannot be read or are no directories.
  pub collect_crate_versions_from_registry-versions :
      (registries : List (Option RegistryEntry)) (outcome : DiscoveryScan)
      → (s : DiscoveryScan) × (collect_crate_versions_from_registry parses (some registries) outcome
          ≡ some s)
        × (s.versions crate_name
            ≡ collect_local_versions_for_crate parses crate_name (some registries))
  unfolding collect_crate_versions_from_registry collect_local_versions_for_crate
  collect_crate_versions_from_registry-versions registries outcome =
      let start = record outcome { versions = λ name. [] } in
      (
        scan_registries parses start registries,
        refl,
        scan_registries-local_registries start registries,
      )
