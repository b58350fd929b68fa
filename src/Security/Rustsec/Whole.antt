-- ===== src/Security/Rustsec/Whole.antt =====
-- A crate of the RustSec sync is stored whole, or not at all.
use rust_mcp.Prelude.{
  ℕ, ◌≡◌, refl, sym, subst, inl, inr, true, false, List, [], ◌∷◌, ◌++◌, Result, ok, err, In, here,
  there, Bool, not, if◌then◌else◌, Result-cases, In-append,
}
use rust_mcp.Text.{Text}
use rust_mcp.Semver.{Semver}
use rust_mcp.Security.{SecurityCrateRow, SecuritySyncOutcome, default_outcome}
use rust_mcp.Security.Severity.{Floats}
use rust_mcp.Security.Transactions.{Synced, AllChecked, Succeeds, unless_failed-Succeeds}
use rust_mcp.Security.Rustsec.{
  AdvisoryFile, RustsecWrite, clear_rustsec_db_advisory_matches, RustsecServices, file_writes,
  with_file, files_writes, stored, store_files, scan_crate, scan_crates, sync_rustsec_db_security,
}

the_id : {a b : ℕ} → In b (a ∷ []) → a ≡ b
the_id (here e) = sym e
the_id (there i) = elim i [ ]

Succeeds-either :
    (P : List (List RustsecWrite) → ℕ → Type 0) (b : Bool) (x y : Synced RustsecWrite)
    → Succeeds P x
    → Succeeds P y
    → Succeeds P (if b then x else y)
Succeeds-either P true x y hx hy = hx
Succeeds-either P false x y hx hy = hy

module _ (σ : Semver) {F : Type 0} (floats : Floats F) (services : RustsecServices σ floats) where
  -- Each file was read, split and parsed, and these are the rows of all of them, in order.
  abbrev pub AllRead :
      SecurityCrateRow → List (Text × ℕ) → List AdvisoryFile → List RustsecWrite → Type 0
  AllRead krate rows [] writes = writes ≡ []
  AllRead krate rows (file ∷ files) writes =
      (now : List RustsecWrite) × (later : List RustsecWrite) × (file_writes σ floats services krate
          rows file file.text
        ≡ ok now)
      × AllRead krate rows files later
      × (writes ≡ now ++ later)

  -- Behind an id: a crate of the run, all whose files were read, with their rows committed in one
  -- transaction behind the deletion of the old ones.
  pub record IsStored (all : List SecurityCrateRow) (log : List (List RustsecWrite)) (id : ℕ)
      : Type 0 where
    pub krate : SecurityCrateRow
    pub rows : List (Text × ℕ)
    pub writes : List RustsecWrite
    pub asked : In krate all
    pub same_id : krate.id ≡ id
    pub versions : services.versions krate ≡ ok rows
    pub all_read : AllRead krate rows (services.advisory_files krate) writes
    pub logged : In (clear_rustsec_db_advisory_matches krate.id ∷ writes) log

  IsStored-later :
      {all : List SecurityCrateRow} {log : List (List RustsecWrite)} {id : ℕ}
      (writes : List RustsecWrite)
      → IsStored all log id
      → IsStored all (writes ∷ log) id
  IsStored-later writes h = record {
    krate = h.krate;
    rows = h.rows;
    writes = h.writes;
    asked = h.asked;
    same_id = h.same_id;
    versions = h.versions;
    all_read = h.all_read;
    logged = there h.logged;
  }

  with_file-read :
      (r : Result Text (List RustsecWrite)) (later : List Text × List RustsecWrite)
      → (with_file σ floats r later).0 ≡ []
      → (now : List RustsecWrite) × (r ≡ ok now)
        × (later.0 ≡ [])
        × ((with_file σ floats r later).1 ≡ now ++ later.1)
  with_file-read (ok now) (errors, writes) h = (now, refl, h, refl)
  with_file-read (err error) (errors, writes) h = absurd (cc)

  -- Where no file gave an error, all were read.
  files_writes-AllRead :
      (krate : SecurityCrateRow) (rows : List (Text × ℕ)) (files : List AdvisoryFile)
      → (files_writes σ floats services krate rows files).0 ≡ []
      → AllRead krate rows files (files_writes σ floats services krate rows files).1
  unfolding files_writes
  files_writes-AllRead krate rows [] h = refl
  files_writes-AllRead krate rows (file ∷ files) h =
      let later = files_writes σ floats services krate rows files in
      let (now, read, clean, whole) =
        with_file-read (file_writes σ floats services krate rows file file.text) later h in
      (now, later.1, read, files_writes-AllRead krate rows files clean, whole)

  module _ (all : List SecurityCrateRow) where
    -- What is needed of the step after a crate.
    abbrev Goes : (List (List RustsecWrite) → SecuritySyncOutcome → Synced RustsecWrite) → Type 0
    Goes next =
        (log : List (List RustsecWrite)) (outcome : SecuritySyncOutcome)
        → AllChecked (IsStored all) log outcome
        → Succeeds (IsStored all) (next log outcome)

    store_files-Succeeds :
        (krate : SecurityCrateRow) (rows : List (Text × ℕ)) (result : List Text × List RustsecWrite)
        (log : List (List RustsecWrite)) (outcome : SecuritySyncOutcome)
        (next : List (List RustsecWrite) → SecuritySyncOutcome → Synced RustsecWrite)
        → In krate all
        → services.versions krate ≡ ok rows
        → (result.0 ≡ [] → AllRead krate rows (services.advisory_files krate) result.1)
        → AllChecked (IsStored all) log outcome
        → Goes next
        → Succeeds (IsStored all) (store_files σ floats services krate result log outcome next)
    unfolding store_files
    store_files-Succeeds krate rows (error ∷ errors, writes) log outcome next asked read whole
          before go =
        go log _ before
    store_files-Succeeds krate rows ([], writes) log outcome next asked read whole before go =
        let now = (clear_rustsec_db_advisory_matches krate.id ∷ writes) ∷ log in
        let all_now : AllChecked (IsStored all) now (stored σ floats krate writes outcome) = λ id i.
          elim (In-append outcome.checked_crate_ids (krate.id ∷ []) i) [
            | inl old ↦
                IsStored-later (clear_rustsec_db_advisory_matches krate.id ∷ writes) (before id old)
            | inr new ↦ record {
              krate = krate;
              rows = rows;
              writes = writes;
              asked = asked;
              same_id = the_id new;
              versions = read;
              all_read = whole refl;
              logged = here refl;
            }
          ] in
        unless_failed-Succeeds (IsStored all) (services.invalidation krate.name) now _
          (go now _ all_now)

    scan_crate-Succeeds :
        (krate : SecurityCrateRow) (log : List (List RustsecWrite)) (outcome : SecuritySyncOutcome)
        (next : List (List RustsecWrite) → SecuritySyncOutcome → Synced RustsecWrite)
        → In krate all
        → AllChecked (IsStored all) log outcome
        → Goes next
        → Succeeds
            (IsStored all)
            (scan_crate σ floats services krate (services.versions krate) log outcome next)
    unfolding scan_crate
    scan_crate-Succeeds krate log outcome next asked before go =
        elim (Result-cases (services.versions krate)) [
          | inl (error, unread) ↦ rw unread tt
          | inr (rows, read) ↦ rw read (
              unless_failed-Succeeds (IsStored all) (services.refused krate) log _ (
                store_files-Succeeds krate rows
                  (files_writes σ floats services krate rows (services.advisory_files krate)) log
                  outcome next asked read
                  (files_writes-AllRead krate rows (services.advisory_files krate)) before go))
        ]

    scan_crates-Succeeds :
        (crates : List SecurityCrateRow) (log : List (List RustsecWrite))
        (outcome : SecuritySyncOutcome)
        → ((krate : SecurityCrateRow) → In krate crates → In krate all)
        → AllChecked (IsStored all) log outcome
        → Succeeds (IsStored all) (scan_crates σ floats services crates log outcome)
    unfolding scan_crates
    scan_crates-Succeeds [] log outcome inside before = before
    scan_crates-Succeeds (krate ∷ crates) log outcome inside before =
        scan_crate-Succeeds krate log outcome _ (inside krate (here refl)) before
          (λ log outcome h. scan_crates-Succeeds crates log outcome (λ k i. inside k (there i)) h)

  sync-Succeeds :
      (crates : List SecurityCrateRow)
      → Succeeds (IsStored crates) (sync_rustsec_db_security σ floats services crates)
  unfolding sync_rustsec_db_security
  sync-Succeeds crates =
      Succeeds-either (IsStored crates) (not services.configured) _ _ (λ id i. elim i [ ])
        (Succeeds-either (IsStored crates) (not services.has_crates) _ _ tt
          (scan_crates-Succeeds crates crates [] default_outcome (λ k i. i) (λ id i. elim i [ ])))

-- Where the sync with the RustSec database succeeds, each id that it reports as checked is that of a
-- crate of the list all whose advisory files were read and parsed, and one committed transaction
-- deletes the crate's old rows and writes the rows of exactly these files.
pub sync_rustsec_db_security-IsStored :
    (σ : Semver) {F : Type 0} (floats : Floats F) (services : RustsecServices σ floats)
    (crates : List SecurityCrateRow) (log : List (List RustsecWrite))
    (outcome : SecuritySyncOutcome) (id : ℕ)
    → sync_rustsec_db_security σ floats services crates ≡ (log, ok outcome)
    → In id outcome.checked_crate_ids
    → IsStored σ floats services crates log id
sync_rustsec_db_security-IsStored σ floats services crates log outcome id run i =
    subst (Succeeds (IsStored σ floats services crates)) run
      (sync-Succeeds σ floats services crates) id i
