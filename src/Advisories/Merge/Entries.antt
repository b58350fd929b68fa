-- ===== src/Advisories/Merge/Entries.antt =====
-- The entries of `advisories_for_version`: each advisory once, in the order of the identifiers, with
-- the verdict of its rows.
use rust_mcp.Prelude.{
  ℕ, ◌≡◌, ◌≢◌, refl, ap, sym, subst, ◌∙◌, Bool, true, false, List, [], ◌∷◌, ◌++◌, Option, none,
  some, if◌then◌else◌, any, select, All, unwrap_or, Bool-cases, inl, inr,
}
use rust_mcp.Prelude.Options.{mapped}
use rust_mcp.Order.{text_ord, text_lt, comparison, less, same, greater}
use rust_mcp.Order.Sort.{sort_by-All}
use rust_mcp.BTree.{
  get, alter, get-alter_self, get-alter_ne, IsAbove, IsAbove-trans, IsAscending, alter-IsAscending,
  alter-All,
}
use rust_mcp.Text.{Text, text_eq, text_eq_iff}
use rust_mcp.Semver.{Semver}
use rust_mcp.Advisories.Applicability.{Applicability, affected, not_affected, unknown}
use rust_mcp.Advisories.Merge.{
  CrateAdvisoryRow, VersionAdvisory, Groups, with_row, group_rows, row_order, row_key, sort_rows,
  withdraws, row_applicability, outranks, consider, pick, merge_group, merge_groups,
  advisories_for_version, pushed,
}
use rust_mcp.Advisories.Merge.Verdict.{verdict, merge_group-verdict}

abbrev pub of_id : Text → List CrateAdvisoryRow → List CrateAdvisoryRow
of_id id rows = select (λ row. text_eq row.advisory_id id) rows

abbrev rows_at : Text → Groups → List CrateAdvisoryRow
rows_at id m = unwrap_or [] (get text_ord id m)

append_nil : (xs : List CrateAdvisoryRow) → xs ++ [] ≡ xs
append_nil [] = refl
append_nil (x ∷ xs) = ap (λ l. x ∷ l) (append_nil xs)

append_assoc : (xs ys zs : List CrateAdvisoryRow) → (xs ++ ys) ++ zs ≡ xs ++ (ys ++ zs)
append_assoc [] ys zs = refl
append_assoc (x ∷ xs) ys zs = ap (λ l. x ∷ l) (append_assoc xs ys zs)

rows_at-alter_self :
    (id : Text) (m : Groups) (row : CrateAdvisoryRow)
    → row.advisory_id ≡ id
    → rows_at id (alter text_ord row.advisory_id (with_row row) m) ≡ rows_at id m ++ (row ∷ [])
rows_at-alter_self id m row e = rw (← e, get-alter_self text_ord row.advisory_id (with_row row) m)

rows_at-alter_ne :
    (id : Text) (m : Groups) (row : CrateAdvisoryRow)
    → row.advisory_id ≢ id
    → rows_at id (alter text_ord row.advisory_id (with_row row) m) ≡ rows_at id m
rows_at-alter_ne id m row n =
    rw (get-alter_ne text_ord id row.advisory_id (with_row row) m (λ e. n (sym e)))

rows_at-group_rows :
    (id : Text) (m : Groups) (rows : List CrateAdvisoryRow)
    → rows_at id (group_rows m rows) ≡ rows_at id m ++ of_id id rows
unfolding group_rows
rows_at-group_rows id m [] = sym (append_nil (rows_at id m))
rows_at-group_rows id m (row ∷ rows) = elim (Bool-cases (text_eq row.advisory_id id)) [
  | inl e ↦
      rw
        (
          rows_at-group_rows id (alter text_ord row.advisory_id (with_row row) m) rows,
          rows_at-alter_self id m row ((text_eq_iff row.advisory_id id).0 e),
          e,
        )
        (append_assoc (rows_at id m) (row ∷ []) (of_id id rows))
  | inr e ↦ rw (
    rows_at-group_rows id (alter text_ord row.advisory_id (with_row row) m) rows,
    rows_at-alter_ne id m row (λ p. cc (e, (text_eq_iff row.advisory_id id).1 p)),
    e,
  )
]

abbrev IsKeyed : Groups → Type 0
IsKeyed m = All (λ e. All (λ (row : CrateAdvisoryRow). row.advisory_id ≡ e.0) e.1) m

All-append :
    (P : CrateAdvisoryRow → Type 0) (xs : List CrateAdvisoryRow) (row : CrateAdvisoryRow)
    → All P xs
    → P row
    → All P (xs ++ (row ∷ []))
All-append P [] row h k = (k, tt)
All-append P (x ∷ xs) row h k = (h.0, All-append P xs row h.1 k)

group_rows-IsAscending :
    (m : Groups) (rows : List CrateAdvisoryRow)
    → IsAscending text_ord m
    → IsAscending text_ord (group_rows m rows)
unfolding group_rows
group_rows-IsAscending m [] h = h
group_rows-IsAscending m (row ∷ rows) h =
    group_rows-IsAscending (alter text_ord row.advisory_id (with_row row) m) rows
      (alter-IsAscending text_ord row.advisory_id (with_row row) m h)

group_rows-IsKeyed :
    (m : Groups) (rows : List CrateAdvisoryRow) → IsKeyed m → IsKeyed (group_rows m rows)
unfolding group_rows
group_rows-IsKeyed m [] h = h
group_rows-IsKeyed m (row ∷ rows) h =
    group_rows-IsKeyed (alter text_ord row.advisory_id (with_row row) m) rows (
      alter-All text_ord (λ e. All (λ (r : CrateAdvisoryRow). r.advisory_id ≡ e.0) e.1)
        row.advisory_id (with_row row) m (refl, tt)
        (λ v k. All-append (λ r. r.advisory_id ≡ row.advisory_id) v row k refl) h)

module _ (σ : Semver) (version_id : ℕ) (version : Text) where
  abbrev HasId : Text → Option VersionAdvisory → Type 0
  HasId id none = Unit
  HasId id (some a) = a.row.advisory_id ≡ id

  HasId-if :
      (id : Text) (b : Bool) (s t : Option VersionAdvisory)
      → HasId id s
      → HasId id t
      → HasId id (if b then s else t)
  HasId-if id true s t h k = h
  HasId-if id false s t h k = k

  consider-HasId :
      (id : Text) (a : Applicability) (row : CrateAdvisoryRow) (s : Option VersionAdvisory)
      → row.advisory_id ≡ id
      → HasId id s
      → HasId id (consider σ version_id version a row s)
  unfolding consider
  consider-HasId id not_affected row s e h = h
  consider-HasId id affected row none e h = e
  consider-HasId id unknown row none e h = e
  consider-HasId id affected row (some x) e h =
      let a : VersionAdvisory = record { applicability = affected; row = row } in
      HasId-if id (outranks σ version_id version a x) (some a) (some x) e h
  consider-HasId id unknown row (some x) e h =
      let a : VersionAdvisory = record { applicability = unknown; row = row } in
      HasId-if id (outranks σ version_id version a x) (some a) (some x) e h

  pick-HasId :
      (id : Text) (rows : List CrateAdvisoryRow) (s : Option VersionAdvisory)
      → All (λ row. row.advisory_id ≡ id) rows
      → HasId id s
      → HasId id (pick σ version_id version rows s)
  unfolding pick
  pick-HasId id [] s k h = h
  pick-HasId id (row ∷ rows) s k h =
      pick-HasId id rows
        (consider σ version_id version (row_applicability σ version_id version row) row s) k.1
        (consider-HasId id (row_applicability σ version_id version row) row s k.0 h)

  merge_group-HasId :
      (id : Text) (rows : List CrateAdvisoryRow)
      → All (λ row. row.advisory_id ≡ id) rows
      → HasId id (merge_group σ version_id version rows)
  unfolding merge_group sort_rows
  merge_group-HasId id rows k =
      HasId-if id (any withdraws (sort_rows rows)) none
        (pick σ version_id version (sort_rows rows) none) tt
        (pick-HasId id (sort_rows rows) none
          (sort_by-All row_order row_key (λ row. row.advisory_id ≡ id) rows k) tt)

  abbrev pub AllAbove : Text → List VersionAdvisory → Type 0
  AllAbove id entries = All (λ a. text_lt id a.row.advisory_id ≡ true) entries

  -- The identifiers ascend strictly: no advisory has two entries.
  abbrev pub InOrder : List VersionAdvisory → Type 0
  InOrder [] = Unit
  InOrder (a ∷ entries) = AllAbove a.row.advisory_id entries × InOrder entries

  pushed-AllAbove :
      (id k : Text) (o : Option VersionAdvisory) (rest : List VersionAdvisory)
      → HasId k o
      → text_lt id k ≡ true
      → AllAbove id rest
      → AllAbove id (pushed σ version_id version o rest)
  pushed-AllAbove id k none rest e l h = h
  pushed-AllAbove id k (some a) rest e l h = (subst (λ x. text_lt id x ≡ true) (sym e) l, h)

  pushed-InOrder :
      (k : Text) (o : Option VersionAdvisory) (rest : List VersionAdvisory)
      → HasId k o
      → AllAbove k rest
      → InOrder rest
      → InOrder (pushed σ version_id version o rest)
  pushed-InOrder k none rest e a h = h
  pushed-InOrder k (some x) rest e a h = (subst (λ y. AllAbove y rest) (sym e) a, h)

  merge_groups-AllAbove :
      (id : Text) (m : Groups)
      → IsKeyed m
      → IsAbove text_ord id m
      → AllAbove id (merge_groups σ version_id version m)
  unfolding merge_groups
  merge_groups-AllAbove id [] k h = tt
  merge_groups-AllAbove id ((j, rows) ∷ m) k h =
      pushed-AllAbove id j (merge_group σ version_id version rows)
        (merge_groups σ version_id version m) (merge_group-HasId j rows k.0) h.0
        (merge_groups-AllAbove id m k.1 h.1)

  merge_groups-InOrder :
      (m : Groups)
      → IsKeyed m
      → IsAscending text_ord m
      → InOrder (merge_groups σ version_id version m)
  unfolding merge_groups
  merge_groups-InOrder [] k h = tt
  merge_groups-InOrder ((j, rows) ∷ m) k h =
      pushed-InOrder j (merge_group σ version_id version rows) (merge_groups σ version_id version m)
        (merge_group-HasId j rows k.0) (merge_groups-AllAbove j m k.1 h.0)
        (merge_groups-InOrder m k.1 h.1)

  -- The answer that the entries hold for one advisory.
  unfoldable pub answer_for : Text → List VersionAdvisory → Option Applicability
  answer_for id [] = none
  answer_for id (a ∷ entries) =
      if text_eq a.row.advisory_id id then some a.applicability else answer_for id entries

  answer_for-AllAbove :
      (id : Text) (entries : List VersionAdvisory)
      → AllAbove id entries
      → answer_for id entries ≡ none
  unfolding answer_for
  answer_for-AllAbove id [] h = refl
  answer_for-AllAbove id (a ∷ entries) h = elim (Bool-cases (text_eq a.row.advisory_id id)) [
    | inl e ↦
        let same_id : a.row.advisory_id ≡ id = (text_eq_iff a.row.advisory_id id).0 e in
        cc (text_ord.irrefl id, subst (λ x. text_lt id x ≡ true) same_id h.0)
    | inr e ↦ rw e (answer_for-AllAbove id entries h.1)
  ]

  answer_for-pushed_self :
      (id : Text) (o : Option VersionAdvisory) (rest : List VersionAdvisory)
      → HasId id o
      → AllAbove id rest
      → answer_for id (pushed σ version_id version o rest) ≡ mapped (λ a. a.applicability) o
  unfolding answer_for
  answer_for-pushed_self id none rest e h = answer_for-AllAbove id rest h
  answer_for-pushed_self id (some a) rest e h = rw ((text_eq_iff a.row.advisory_id id).1 e)

  answer_for-pushed_ne :
      (id k : Text) (o : Option VersionAdvisory) (rest : List VersionAdvisory)
      → HasId k o
      → k ≢ id
      → answer_for id (pushed σ version_id version o rest) ≡ answer_for id rest
  unfolding answer_for
  answer_for-pushed_ne id k none rest e n = refl
  answer_for-pushed_ne id k (some a) rest e n = elim (Bool-cases (text_eq a.row.advisory_id id)) [
    | inl t ↦ absurd (n (sym e ∙ (text_eq_iff a.row.advisory_id id).0 t))
    | inr t ↦ rw t
  ]

  answer_for-merge_groups :
      (id : Text) (m : Groups)
      → IsKeyed m
      → IsAscending text_ord m
      → answer_for id (merge_groups σ version_id version m)
        ≡ verdict σ version_id version (rows_at id m)
  unfolding merge_groups get
  answer_for-merge_groups id [] k h = unfold answer_for verdict in refl
  answer_for-merge_groups id ((j, rows) ∷ m) k h = elim (comparison text_ord id j) [
    | less l g ↦ rw l (
        answer_for-AllAbove id (merge_groups σ version_id version ((j, rows) ∷ m))
          (merge_groups-AllAbove id ((j, rows) ∷ m) k (l, IsAbove-trans text_ord id j m l h.0))
        ∙ unfold verdict in refl)
    | same e l g ↦
        rw (l, g)
          (answer_for-pushed_self id (merge_group σ version_id version rows)
              (merge_groups σ version_id version m)
              (subst (λ x. HasId x (merge_group σ version_id version rows)) (sym e)
                (merge_group-HasId j rows k.0))
              (subst (λ x. AllAbove x (merge_groups σ version_id version m)) (sym e)
                (merge_groups-AllAbove j m k.1 h.0))
            ∙ merge_group-verdict σ version_id version rows)
    | greater l g ↦
        rw (l, g)
          (answer_for-pushed_ne id j (merge_group σ version_id version rows)
              (merge_groups σ version_id version m) (merge_group-HasId j rows k.0)
              (λ e. cc (text_ord.irrefl id, subst (λ x. text_lt x id ≡ true) e g))
            ∙ answer_for-merge_groups id m k.1 h.1)
  ]

  -- For every advisory identifier, the entries hold the verdict of the rows with that identifier,
  -- in whatever order the rows come: none where a row withdraws it or no row concerns the version,
  -- affected where some row affects the version, and otherwise unknown where some row leaves it open.
  pub advisories_for_version-verdict :
      (id : Text) (rows : List CrateAdvisoryRow)
      → answer_for id (advisories_for_version σ version_id version rows)
        ≡ verdict σ version_id version (of_id id rows)
  unfolding advisories_for_version
  advisories_for_version-verdict id rows =
      answer_for-merge_groups id (group_rows [] rows) (group_rows-IsKeyed [] rows tt)
        (group_rows-IsAscending [] rows tt)
      ∙ ap (verdict σ version_id version) (rows_at-group_rows id [] rows ∙ unfold get in refl)

  -- The entries stand in strictly ascending order of their identifiers, so none stands twice.
  pub advisories_for_version-InOrder :
      (rows : List CrateAdvisoryRow) → InOrder (advisories_for_version σ version_id version rows)
  unfolding advisories_for_version
  advisories_for_version-InOrder rows =
      merge_groups-InOrder (group_rows [] rows) (group_rows-IsKeyed [] rows tt)
        (group_rows-IsAscending [] rows tt)
