-- ===== src/Security/Checked.antt =====
-- Which crates count as checked.
use rust_mcp.Prelude.{
  ℕ, ◌≡◌, ◌↔◌, inl, inr, true, List, [], ◌∷◌, map, Option, Result, ok, err, In, here, there, All,
  select, arith, ◌==◌, In-select, select-In, Bool-cases, ==_iff,
}
use rust_mcp.Text.{Text}
use rust_mcp.Order.{nat_ord}
use rust_mcp.Order.Sort.{In-sort_by, sort_by-In, In-dedup, dedup-In}
use rust_mcp.Security.{
  SecurityCrateRow, SecuritySyncOutcome, merge, contains_id, add_source, add_sources, sources,
  default_outcome, sync_security_crates,
}

-- A source succeeded and checked the crate.
abbrev pub Confirms : ℕ → Result Text SecuritySyncOutcome → Type 0
Confirms id (ok source) = In id source.checked_crate_ids
Confirms id (err error) = ⊥

contains_id-In : (ids : List ℕ) (id : ℕ) → contains_id ids id ≡ true → In id ids
contains_id-In [] id h = cc
contains_id-In (other ∷ ids) id h = elim (Bool-cases (id == other)) [
  | inl same ↦ here ((==_iff id other).0 same)
  | inr differs ↦ there (contains_id-In ids id (rw differs at h))
]

In-contains_id : (ids : List ℕ) (id : ℕ) → In id ids → contains_id ids id ≡ true
In-contains_id [] id i = elim i [ ]
In-contains_id (other ∷ ids) id (here e) = rw ((==_iff id other).1 e)
In-contains_id (other ∷ ids) id (there i) = ground (arith, In-contains_id ids id i)

-- What is left of the checked ids is what each source confirms.
add_sources-checked :
    (results : List (Result Text SecuritySyncOutcome)) (checked : List ℕ)
    (outcome : SecuritySyncOutcome) (id : ℕ)
    → In id (add_sources results (checked, outcome)).0 ↔ (In id checked × All (Confirms id) results)
unfolding add_sources add_source
add_sources-checked [] checked outcome id = (λ i. (i, tt), λ h. h.0)
add_sources-checked (ok source ∷ results) checked outcome id =
    let later =
      add_sources-checked results (select (contains_id source.checked_crate_ids) checked)
        (merge outcome source) id in
    (
      λ i.
          let (kept, all) = later.0 i in
          let (old, confirmed) = In-select (contains_id source.checked_crate_ids) checked kept in
          (old, (contains_id-In source.checked_crate_ids id confirmed, all)),
      λ (old, (confirmed, all)). later.1 (
        select-In (contains_id source.checked_crate_ids) checked old
            (In-contains_id source.checked_crate_ids id confirmed),
        all,
      ),
    )
add_sources-checked (err error ∷ results) checked outcome id =
    let later = add_sources-checked results [] _ id in
    (λ i. elim (later.0 i).0 [ ], λ h. absurd h.1.0)

-- A crate's id is reported as checked exactly where the crate was asked for and every source that was
-- asked, RustSec among them where it is configured, succeeded and checked it.
pub sync_security_crates-checked :
    (crates : List SecurityCrateRow) (osv ghsa : Result Text SecuritySyncOutcome)
    (rustsec : Option (Result Text SecuritySyncOutcome)) (id : ℕ)
    → In id (sync_security_crates crates osv ghsa rustsec).checked_crate_ids
      ↔ (In id (map (λ krate. krate.id) crates) × All (Confirms id) (sources osv ghsa rustsec))
unfolding sync_security_crates
sync_security_crates-checked crates osv ghsa rustsec id =
    let ids = map (λ (krate : SecurityCrateRow). krate.id) crates in
    let each = add_sources-checked (sources osv ghsa rustsec) ids default_outcome id in
    (
      λ i. each.0 (In-sort_by nat_ord (λ id. id) _ (In-dedup nat_ord _ i)),
      λ h. dedup-In nat_ord _ (sort_by-In nat_ord (λ id. id) _ (each.1 h)),
    )
