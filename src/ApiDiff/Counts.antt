-- ===== src/ApiDiff/Counts.antt =====
-- The counts of a summary, and the order of its changes.
use rust_mcp.Prelude.{
  ◌+◌, ◌≡◌, refl, sym, ◌∙◌, Bool, true, false, ◌||◌, List, [], ◌∷◌, ◌++◌, Option, none, some, arith,
  if◌then◌else◌, any, select, length, Bool-cases, inl, inr,
}
use rust_mcp.Prelude.Options.{is_some}
use rust_mcp.Order.Sort.{any-sort_by, IsSorted, sort_by-IsSorted, length-select-sort_by}
use rust_mcp.BTree.{get}
use rust_mcp.ApiDiff.{
  ApiDiffSymbolRow, SymbolFingerprint, removed, visibility_changed, signature_changed, added,
  CrateApiDiffChange, Key, key_order, SymbolMap, Tally, removed_change, added_change,
  changed_change, visibility_differs, signature_differs, compare_symbol, from_loop, add_symbol,
  to_loop, tally_of, no_tally, map_symbols, ApiDiffSummary, build_diff_summary, sort_changes,
  change_order, change_key,
}

abbrev pub is_added : CrateApiDiffChange → Bool
is_added c = elim c.change_type [ added ↦ true | _ ↦ false ]

abbrev pub is_removed : CrateApiDiffChange → Bool
is_removed c = elim c.change_type [ removed ↦ true | _ ↦ false ]

abbrev pub is_changed : CrateApiDiffChange → Bool
is_changed c = elim c.change_type [
  | visibility_changed ↦ true
  | signature_changed ↦ true
  | _ ↦ false
]

abbrev pub is_breaking : CrateApiDiffChange → Bool
is_breaking c = c.breaking_change

-- The numbers of a tally are those of its changes.
record IsTallied (t : Tally) : Type 0 where
  additions : t.added_count ≡ length (select is_added t.changes)
  removals : t.removed_count ≡ length (select is_removed t.changes)
  alterations : t.changed_count ≡ length (select is_changed t.changes)
  breaks : t.breaking_changes_detected ≡ any is_breaking t.changes

count_snoc :
    (p : CrateApiDiffChange → Bool) (xs : List CrateApiDiffChange) (x : CrateApiDiffChange)
    → length (select p (xs ++ (x ∷ []))) ≡ (if p x then 1 else 0) + length (select p xs)
count_snoc p [] x = ground arith
count_snoc p (y ∷ xs) x = ground (arith, count_snoc p xs x)

any_snoc :
    (p : CrateApiDiffChange → Bool) (xs : List CrateApiDiffChange) (x : CrateApiDiffChange)
    → any p (xs ++ (x ∷ [])) ≡ (p x || any p xs)
any_snoc p [] x = ground arith
any_snoc p (y ∷ xs) x = ground (arith, any_snoc p xs x)

changed_change_kind :
    (key : Key) (from to : SymbolFingerprint)
    → (is_added (changed_change key from to) ≡ false)
      × (is_removed (changed_change key from to) ≡ false)
      × (is_changed (changed_change key from to) ≡ true)
unfolding changed_change
changed_change_kind key from to = elim (Bool-cases (visibility_differs from to)) [
  | inl e ↦ rw e (refl, refl, refl)
  | inr e ↦ rw e (refl, refl, refl)
]

compare_symbol-IsTallied :
    (key : Key) (from : SymbolFingerprint) (o : Option SymbolFingerprint) (t : Tally)
    → IsTallied t
    → IsTallied (compare_symbol key from o t)
unfolding compare_symbol removed_change changed_change
compare_symbol-IsTallied key from none t h = record {
  additions =
      rw (count_snoc is_added t.changes (removed_change key from)) (omega (arith, h.additions));
  removals =
      rw (count_snoc is_removed t.changes (removed_change key from)) (omega (arith, h.removals));
  alterations =
      rw (count_snoc is_changed t.changes (removed_change key from)) (omega (arith, h.alterations));
  breaks = rw (any_snoc is_breaking t.changes (removed_change key from)) refl;
}
compare_symbol-IsTallied key from (some to) t h =
    let c = changed_change key from to in
    let (not_added, not_removed, counted) = changed_change_kind key from to in
    elim (Bool-cases (visibility_differs from to || signature_differs from to)) [
      | inr e ↦ rw e h
      | inl e ↦ rw e (record {
        additions = rw (count_snoc is_added t.changes c, not_added) (omega (arith, h.additions));
        removals = rw (count_snoc is_removed t.changes c, not_removed) (omega (arith, h.removals));
        alterations =
            rw (count_snoc is_changed t.changes c, counted) (omega (arith, h.alterations));
        breaks = rw (any_snoc is_breaking t.changes c) (ground (arith, h.breaks));
      })
    ]

from_loop-IsTallied :
    (rest to_map : SymbolMap) (t : Tally) → IsTallied t → IsTallied (from_loop rest to_map t)
unfolding from_loop
from_loop-IsTallied [] to_map t h = h
from_loop-IsTallied ((key, from) ∷ rest) to_map t h =
    let o = get key_order key to_map in
    from_loop-IsTallied rest to_map (compare_symbol key from o t)
      (compare_symbol-IsTallied key from o t h)

add_symbol-IsTallied :
    (key : Key) (to : SymbolFingerprint) (b : Bool) (t : Tally)
    → IsTallied t
    → IsTallied (add_symbol key to b t)
unfolding add_symbol added_change
add_symbol-IsTallied key to true t h = h
add_symbol-IsTallied key to false t h = record {
  additions = rw (count_snoc is_added t.changes (added_change key to)) (omega (arith, h.additions));
  removals = rw (count_snoc is_removed t.changes (added_change key to)) (omega (arith, h.removals));
  alterations =
      rw (count_snoc is_changed t.changes (added_change key to)) (omega (arith, h.alterations));
  breaks = rw (any_snoc is_breaking t.changes (added_change key to)) (h.breaks);
}

to_loop-IsTallied :
    (rest from_map : SymbolMap) (t : Tally) → IsTallied t → IsTallied (to_loop rest from_map t)
unfolding to_loop
to_loop-IsTallied [] from_map t h = h
to_loop-IsTallied ((key, to) ∷ rest) from_map t h =
    let b = is_some (get key_order key from_map) in
    to_loop-IsTallied rest from_map (add_symbol key to b t) (add_symbol-IsTallied key to b t h)

tally_of-IsTallied : (from_map to_map : SymbolMap) → IsTallied (tally_of from_map to_map)
unfolding tally_of
tally_of-IsTallied from_map to_map =
    to_loop-IsTallied to_map from_map (from_loop from_map to_map no_tally) (
      from_loop-IsTallied from_map to_map no_tally
        (record { additions = refl; removals = refl; alterations = refl; breaks = refl }))

-- The numbers of a summary are those of the changes that it lists, it detects breaking changes where
-- it lists one, and the changes are sorted: removals first, then changes of visibility, then
-- changes of signature, then additions, each by name and then by kind.
pub record IsConsistent (s : ApiDiffSummary) : Type 0 where
  pub additions : s.added_count ≡ length (select is_added s.changes)
  pub removals : s.removed_count ≡ length (select is_removed s.changes)
  pub alterations : s.changed_count ≡ length (select is_changed s.changes)
  pub breaks : s.breaking_changes_detected ≡ any is_breaking s.changes
  pub sorted : IsSorted change_order change_key s.changes

-- Every summary counts exactly the changes that it lists, by kind; it says that breaking changes
-- were detected exactly when it lists one; and its changes are sorted by kind, name and symbol kind.
pub build_diff_summary-IsConsistent :
    (from_rows to_rows : List ApiDiffSymbolRow)
    → IsConsistent (build_diff_summary from_rows to_rows)
unfolding build_diff_summary sort_changes
build_diff_summary-IsConsistent from_rows to_rows =
    let t = tally_of (map_symbols from_rows) (map_symbols to_rows) in
    let h = tally_of-IsTallied (map_symbols from_rows) (map_symbols to_rows) in
    record {
      additions =
          h.additions ∙ sym (length-select-sort_by change_order change_key is_added t.changes);
      removals =
          h.removals ∙ sym (length-select-sort_by change_order change_key is_removed t.changes);
      alterations =
          h.alterations ∙ sym (length-select-sort_by change_order change_key is_changed t.changes);
      breaks = h.breaks ∙ sym (any-sort_by change_order change_key is_breaking t.changes);
      sorted = sort_by-IsSorted change_order change_key t.changes;
    }
