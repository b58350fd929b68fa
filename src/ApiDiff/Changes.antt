-- ===== src/ApiDiff/Changes.antt =====
-- Which changes `build_diff_summary` reports, told symbol by symbol, and what its counts are.
use rust_mcp.Prelude.{
  ◌≡◌, refl, sym, ap, ◌↔◌, ◌⊎◌, inl, inr, Bool, true, false, ◌||◌, List, [], ◌∷◌, ◌++◌, Option,
  none, some, arith, if◌then◌else◌, In, here, there, Bool-cases,
}
use rust_mcp.Prelude.Options.{is_some}
use rust_mcp.Order.Sort.{In-sort_by, sort_by-In}
use rust_mcp.BTree.{get, IsAscending, alter-IsAscending, In-get, get-In}
use rust_mcp.ApiDiff.{
  ApiDiffSymbolRow, SymbolFingerprint, CrateApiDiffChange, Key, key_order, row_key, SymbolMap,
  Tally, removed_change, added_change, changed_change, visibility_differs, signature_differs,
  compare_symbol, from_loop, add_symbol, to_loop, tally_of, no_tally, map_symbols,
  prioritize_symbol_rows, insert_fingerprints, build_diff_summary, sort_changes, change_order,
  change_key,
}

-- The change of one symbol, told what each version has under its key.
unfoldable pub change_for :
    Key → Option SymbolFingerprint → Option SymbolFingerprint → Option CrateApiDiffChange
change_for key none none = none
change_for key (some from) none = some (removed_change key from)
change_for key none (some to) = some (added_change key to)
change_for key (some from) (some to) =
    if visibility_differs from to || signature_differs from to
    then some (changed_change key from to)
    else none

module _ {c : CrateApiDiffChange} where
  snoc-In :
      (xs : List CrateApiDiffChange) (y : CrateApiDiffChange)
      → In c (xs ++ (y ∷ []))
      → In c xs ⊎ (c ≡ y)
  snoc-In [] y (here e) = inr e
  snoc-In [] y (there m) = elim m [ ]
  snoc-In (x ∷ xs) y (here e) = inl (here e)
  snoc-In (x ∷ xs) y (there m) = elim (snoc-In xs y m) [ inl n ↦ inl (there n) | inr e ↦ inr e ]

  In-snoc :
      (xs : List CrateApiDiffChange) (y : CrateApiDiffChange)
      → In c xs ⊎ (c ≡ y)
      → In c (xs ++ (y ∷ []))
  In-snoc [] y (inl m) = elim m [ ]
  In-snoc [] y (inr e) = here e
  In-snoc (x ∷ xs) y (inl (here e)) = here e
  In-snoc (x ∷ xs) y (inl (there m)) = there (In-snoc xs y (inl m))
  In-snoc (x ∷ xs) y (inr e) = there (In-snoc xs y (inr e))

  compare_symbol-In :
      (key : Key) (from : SymbolFingerprint) (o : Option SymbolFingerprint) (t : Tally)
      → In c (compare_symbol key from o t).changes
      → In c t.changes ⊎ (change_for key (some from) o ≡ some c)
  unfolding compare_symbol change_for
  compare_symbol-In key from none t m = elim (snoc-In t.changes (removed_change key from) m) [
    | inl n ↦ inl n
    | inr e ↦ inr (ap some (sym e))
  ]
  compare_symbol-In key from (some to) t m =
      elim (Bool-cases (visibility_differs from to || signature_differs from to)) [
        | inr e ↦ inl (rw e at m)
        | inl e ↦ elim (snoc-In t.changes (changed_change key from to) (rw e at m)) [
          | inl n ↦ inl n
          | inr p ↦ inr (rw e (ap some (sym p)))
        ]
      ]

  In-compare_symbol :
      (key : Key) (from : SymbolFingerprint) (o : Option SymbolFingerprint) (t : Tally)
      → In c t.changes ⊎ (change_for key (some from) o ≡ some c)
      → In c (compare_symbol key from o t).changes
  unfolding compare_symbol change_for
  In-compare_symbol key from none t (inl m) = In-snoc t.changes _ (inl m)
  In-compare_symbol key from none t (inr e) = In-snoc t.changes _ (inr (ground arith))
  In-compare_symbol key from (some to) t x =
      elim (Bool-cases (visibility_differs from to || signature_differs from to)) [
        | inr e ↦ rw e (elim x [ inl m ↦ m | inr p ↦ cc (rw e at p) ])
        | inl e ↦ rw e (elim x [
          | inl m ↦ In-snoc t.changes _ (inl m)
          | inr p ↦
              In-snoc t.changes _ (
                inr
                  (let q : some (changed_change key from to) ≡ some c = rw e at p in ground arith))
        ])
      ]

  from_loop-In :
      (rest to_map : SymbolMap) (t : Tally)
      → In c (from_loop rest to_map t).changes
      → In c t.changes
        ⊎ ((key : Key) × (from : SymbolFingerprint) × In (key, from) rest
            × (change_for key (some from) (get key_order key to_map) ≡ some c))
  unfolding from_loop
  from_loop-In [] to_map t m = inl m
  from_loop-In ((key, from) ∷ rest) to_map t m =
      elim (from_loop-In rest to_map (compare_symbol key from (get key_order key to_map) t) m) [
        | inr (k, f, n, e) ↦ inr (k, f, there n, e)
        | inl n ↦ elim (compare_symbol-In key from (get key_order key to_map) t n) [
          | inl l ↦ inl l
          | inr e ↦ inr (key, from, here refl, e)
        ]
      ]

  earlier-from_loop :
      (rest to_map : SymbolMap) (t : Tally)
      → In c t.changes
      → In c (from_loop rest to_map t).changes
  unfolding from_loop
  earlier-from_loop [] to_map t m = m
  earlier-from_loop ((key, from) ∷ rest) to_map t m =
      earlier-from_loop rest to_map (compare_symbol key from (get key_order key to_map) t)
        (In-compare_symbol key from (get key_order key to_map) t (inl m))

  In-from_loop :
      (rest to_map : SymbolMap) (t : Tally) (key : Key) (from : SymbolFingerprint)
      → In (key, from) rest
      → change_for key (some from) (get key_order key to_map) ≡ some c
      → In c (from_loop rest to_map t).changes
  unfolding from_loop
  In-from_loop [] to_map t key from m e = elim m [ ]
  In-from_loop ((k, f) ∷ rest) to_map t key from (here p) e =
      let k_is : key ≡ k = ap (λ (x : Key × SymbolFingerprint). x.0) p in
      let f_is : from ≡ f = ap (λ (x : Key × SymbolFingerprint). x.1) p in
      let q : change_for k (some f) (get key_order k to_map) ≡ some c = rw (k_is, f_is) at e in
      earlier-from_loop rest to_map (compare_symbol k f (get key_order k to_map) t)
        (In-compare_symbol k f (get key_order k to_map) t (inr q))
  In-from_loop ((k, f) ∷ rest) to_map t key from (there m) e =
      In-from_loop rest to_map (compare_symbol k f (get key_order k to_map) t) key from m e

  add_symbol-In :
      (key : Key) (to : SymbolFingerprint) (o : Option SymbolFingerprint) (t : Tally)
      → In c (add_symbol key to (is_some o) t).changes
      → In c t.changes ⊎ ((o ≡ none) × (change_for key none (some to) ≡ some c))
  unfolding add_symbol change_for
  add_symbol-In key to (some f) t m = inl m
  add_symbol-In key to none t m = elim (snoc-In t.changes (added_change key to) m) [
    | inl n ↦ inl n
    | inr e ↦ inr (refl, ap some (sym e))
  ]

  earlier-add_symbol :
      (key : Key) (to : SymbolFingerprint) (b : Bool) (t : Tally)
      → In c t.changes
      → In c (add_symbol key to b t).changes
  unfolding add_symbol
  earlier-add_symbol key to true t m = m
  earlier-add_symbol key to false t m = In-snoc t.changes (added_change key to) (inl m)

  to_loop-In :
      (rest from_map : SymbolMap) (t : Tally)
      → In c (to_loop rest from_map t).changes
      → In c t.changes
        ⊎ ((key : Key) × (to : SymbolFingerprint) × In (key, to) rest
            × (get key_order key from_map ≡ none)
            × (change_for key none (some to) ≡ some c))
  unfolding to_loop
  to_loop-In [] from_map t m = inl m
  to_loop-In ((key, to) ∷ rest) from_map t m =
      elim (to_loop-In rest from_map (add_symbol key to (is_some (get key_order key from_map)) t)
        m) [
          | inr (k, f, n, g, e) ↦ inr (k, f, there n, g, e)
          | inl n ↦ elim (add_symbol-In key to (get key_order key from_map) t n) [
            | inl l ↦ inl l
            | inr e ↦ inr (key, to, here refl, e.0, e.1)
          ]
        ]

  earlier-to_loop :
      (rest from_map : SymbolMap) (t : Tally)
      → In c t.changes
      → In c (to_loop rest from_map t).changes
  unfolding to_loop
  earlier-to_loop [] from_map t m = m
  earlier-to_loop ((key, to) ∷ rest) from_map t m =
      earlier-to_loop rest from_map (add_symbol key to (is_some (get key_order key from_map)) t)
        (earlier-add_symbol key to (is_some (get key_order key from_map)) t m)

  In-to_loop :
      (rest from_map : SymbolMap) (t : Tally) (key : Key) (to : SymbolFingerprint)
      → In (key, to) rest
      → get key_order key from_map ≡ none
      → change_for key none (some to) ≡ some c
      → In c (to_loop rest from_map t).changes
  unfolding to_loop change_for
  In-to_loop [] from_map t key to m g e = elim m [ ]
  In-to_loop ((k, f) ∷ rest) from_map t key to (here p) g e =
      let k_is : key ≡ k = ap (λ (x : Key × SymbolFingerprint). x.0) p in
      let f_is : to ≡ f = ap (λ (x : Key × SymbolFingerprint). x.1) p in
      let q : some (added_change k f) ≡ some c = rw (k_is, f_is) at e in
      let n : get key_order k from_map ≡ none = rw k_is at g in
      earlier-to_loop rest from_map (add_symbol k f (is_some (get key_order k from_map)) t)
        (rw n (unfold add_symbol in In-snoc t.changes (added_change k f) (inr (ground arith))))
  In-to_loop ((k, f) ∷ rest) from_map t key to (there m) g e =
      In-to_loop rest from_map (add_symbol k f (is_some (get key_order k from_map)) t) key to m g e

  -- What the two loops find, where both maps are in order.
  tally_of-In :
      (from_map to_map : SymbolMap)
      → IsAscending key_order from_map
      → IsAscending key_order to_map
      → In c (tally_of from_map to_map).changes
      → (key : Key) × (change_for key (get key_order key from_map) (get key_order key to_map)
          ≡ some c)
  unfolding tally_of
  tally_of-In from_map to_map a b m =
      elim (to_loop-In to_map from_map (from_loop from_map to_map no_tally) m) [
        | inr (key, to, n, g, e) ↦ (key, rw (g, get-In key_order to_map b n) e)
        | inl n ↦ elim (from_loop-In from_map to_map no_tally n) [
          | inl l ↦ elim l [ ]
          | inr (key, from, i, e) ↦ (key, rw (get-In key_order from_map a i) e)
        ]
      ]

  In-tally_of :
      (from_map to_map : SymbolMap) (key : Key) (f t : Option SymbolFingerprint)
      → get key_order key from_map ≡ f
      → get key_order key to_map ≡ t
      → change_for key f t ≡ some c
      → In c (tally_of from_map to_map).changes
  unfolding tally_of change_for
  In-tally_of from_map to_map key none none p q e = cc
  In-tally_of from_map to_map key none (some to) p q e =
      In-to_loop to_map from_map (from_loop from_map to_map no_tally) key to
        (In-get key_order to_map q) p e
  In-tally_of from_map to_map key (some from) t p q e =
      earlier-to_loop to_map from_map (from_loop from_map to_map no_tally)
        (In-from_loop from_map to_map no_tally key from (In-get key_order from_map p) (rw q e))

insert_fingerprints-IsAscending :
    (rows : List ApiDiffSymbolRow) (out : SymbolMap)
    → IsAscending key_order out
    → IsAscending key_order (insert_fingerprints rows out)
unfolding insert_fingerprints
insert_fingerprints-IsAscending [] out a = a
insert_fingerprints-IsAscending (row ∷ rows) out a =
    insert_fingerprints-IsAscending rows _ (alter-IsAscending key_order (row_key row) _ out a)

map_symbols-IsAscending : (rows : List ApiDiffSymbolRow) → IsAscending key_order (map_symbols rows)
unfolding map_symbols
map_symbols-IsAscending rows = insert_fingerprints-IsAscending (prioritize_symbol_rows rows) [] tt

-- The symbol that the rows of one version tell under a key.
abbrev pub symbol_at : Key → List ApiDiffSymbolRow → Option SymbolFingerprint
symbol_at key rows = get key_order key (map_symbols rows)

-- The changes of a summary are exactly those of the single symbols: a removal for a key that only
-- the first version has, an addition for a key that only the second has, and a change where both
-- have it with another visibility or another signature.
pub build_diff_summary_changes :
    (from_rows to_rows : List ApiDiffSymbolRow) (c : CrateApiDiffChange)
    → In c (build_diff_summary from_rows to_rows).changes
      ↔ ((key : Key) × (change_for key (symbol_at key from_rows) (symbol_at key to_rows) ≡ some c))
unfolding build_diff_summary sort_changes
build_diff_summary_changes from_rows to_rows c =
    let from_map = map_symbols from_rows in
    let to_map = map_symbols to_rows in
    (
      λ m.
          tally_of-In from_map to_map (map_symbols-IsAscending from_rows)
            (map_symbols-IsAscending to_rows)
            (In-sort_by change_order change_key (tally_of from_map to_map).changes m),
      λ x. sort_by-In change_order change_key (tally_of from_map to_map).changes (
          In-tally_of from_map to_map x.0 (symbol_at x.0 from_rows) (symbol_at x.0 to_rows) refl
            refl x.1),
    )
