-- ===== src/Dependencies/Resolve/Selected.antt =====
-- What a choice of versions without conflicts promises.
use rust_mcp.Prelude.{
  append_left-In, ◌≡◌, refl, sym, subst, inl, inr, true, List, [], ◌∷◌, ◌++◌, Option, none, some,
  arith, All, In, here, there, Result, ok, Bool-cases, Option-cases, Result-cases,
}
use rust_mcp.Prelude.Options.{mapped}
use rust_mcp.Text.{Text}
use rust_mcp.Semver.{Semver}
use rust_mcp.Dependencies.Inputs.{NormalizedDependency}
use rust_mcp.Dependencies.Rows.{
  DependencyCrateRow, DependencyVersionRow, SelectedDependency, ResolveError, crate_lookup_failed,
  version_lookup_failed, Index,
}
use rust_mcp.Dependencies.Resolve.{
  failing, Selection, parse_version, if_admitted, admitted, consider, newest, select_version,
  add_selected, select_in, select_each,
}

pub append_empty : {A : Type 0} (xs ys : List A) → xs ++ ys ≡ [] → (xs ≡ []) × (ys ≡ [])
append_empty [] ys h = (refl, h)
append_empty (x ∷ xs) ys h = cc

In-last : {A : Type 0} (xs : List A) (y : A) → In y (xs ++ (y ∷ []))
In-last [] y = here refl
In-last (x ∷ xs) y = there (In-last xs y)

abbrev pub fine : {A : Type 0} → A → Result ResolveError A
fine a = ok a

pub ok_eq : {A : Type 0} {a b : A} → fine a ≡ fine b → a ≡ b
ok_eq h = ground arith

module _ (σ : Semver) where
  open σ use {Version, Requirement, parse_requirement, matches}

  -- A version text that a requirement text admits.
  pub record IsAllowed (requirement_text version_text : Text) : Type 0 where
    pub requirement : Requirement
    pub version : Version
    pub reads_requirement : parse_requirement requirement_text ≡ some requirement
    pub reads_version : parse_version σ version_text ≡ some version
    pub admits : matches requirement version ≡ true

  abbrev IsGood : Requirement → Option (Version × DependencyVersionRow) → Type 0
  IsGood requirement none = Unit
  IsGood requirement (some e) =
      (parse_version σ e.1.version ≡ some e.0) × (matches requirement e.0 ≡ true)

  if_admitted-IsGood :
      (requirement : Requirement) (row : DependencyVersionRow) (o : Option Version)
      → parse_version σ row.version ≡ o
      → IsGood requirement (if_admitted σ requirement row o)
  if_admitted-IsGood requirement row none e = tt
  if_admitted-IsGood requirement row (some v) e = elim (Bool-cases (matches requirement v)) [
    | inl m ↦ rw m (e, m)
    | inr m ↦ rw m tt
  ]

  admitted-IsGood :
      (requirement : Requirement) (row : DependencyVersionRow)
      → IsGood requirement (admitted σ requirement row)
  unfolding admitted
  admitted-IsGood requirement row =
      if_admitted-IsGood requirement row (parse_version σ row.version) refl

  consider-IsGood :
      (requirement : Requirement) (new best : Option (Version × DependencyVersionRow))
      → IsGood requirement new
      → IsGood requirement best
      → IsGood requirement (consider σ new best)
  consider-IsGood requirement none best h k = k
  consider-IsGood requirement (some new) none h k = h
  consider-IsGood requirement (some new) (some old) h k =
      elim (Bool-cases (σ.order.lt new.0 old.0)) [ inl e ↦ rw e k | inr e ↦ rw e h ]

  newest-IsGood :
      (requirement : Requirement) (rows : List DependencyVersionRow)
      (best : Option (Version × DependencyVersionRow))
      → IsGood requirement best
      → IsGood requirement (newest σ requirement rows best)
  unfolding newest
  newest-IsGood requirement [] best h = h
  newest-IsGood requirement (row ∷ rows) best h =
      newest-IsGood requirement rows (consider σ (admitted σ requirement row) best) (
        consider-IsGood requirement (admitted σ requirement row) best
          (admitted-IsGood requirement row) h)

  good_row :
      (text : Text) (requirement : Requirement) (o : Option (Version × DependencyVersionRow))
      (row : DependencyVersionRow)
      → parse_requirement text ≡ some requirement
      → IsGood requirement o
      → mapped (λ e. e.1) o ≡ some row
      → IsAllowed text row.version
  good_row text requirement none row p h e = cc
  good_row text requirement (some (v, x)) row p h e =
      let x_is : x ≡ row = ground arith in
      record {
        requirement = requirement;
        version = v;
        reads_requirement = p;
        reads_version = rw (← x_is) (h.0);
        admits = h.1;
      }

  select_version-IsAllowed :
      (name : Text) (req : Option Text) (versions : List DependencyVersionRow)
      (row : DependencyVersionRow) (text : Text)
      → select_version σ name req versions ≡ ok (some row)
      → req ≡ some text
      → IsAllowed text row.version
  unfolding select_version
  select_version-IsAllowed name none versions row text h e = cc
  select_version-IsAllowed name (some t) versions row text h e =
      let t_is : t ≡ text = ground arith in
      elim (Option-cases (parse_requirement t)) [
        | inl n ↦ cc (rw n at h)
        | inr (requirement, p) ↦
            let g : fine (
                  mapped (λ (x : Version × DependencyVersionRow). x.1)
                    (newest σ requirement versions none))
                ≡ ok (some row) =
              rw p at h in
            good_row text requirement (newest σ requirement versions none) row (rw t_is at p)
              (newest-IsGood requirement versions none tt) (ground arith)
      ]

  -- Some selected version stands for the dependency, and its requirement, if it states one, admits
  -- that version.
  abbrev pub IsMet : List SelectedDependency → NormalizedDependency → Type 0
  IsMet selected d =
      (x : SelectedDependency) × In x selected
      × ((text : Text) → d.version_req ≡ some text → IsAllowed text x.version)

  module _ (index : Index) where
    pub record Selected (ds : List NormalizedDependency) (s s' : Selection) : Type 0 where
      pub clear : s.conflicts ≡ []
      pub met : All (IsMet s'.selected) ds
      pub kept : (x : SelectedDependency) → In x s.selected → In x s'.selected

    record SelectedOne (d : NormalizedDependency) (s s' : Selection) : Type 0 where
      clear : s.conflicts ≡ []
      met : IsMet s'.selected d
      kept : (x : SelectedDependency) → In x s.selected → In x s'.selected

    add_selected_lem :
        (d : NormalizedDependency) (crate_row : DependencyCrateRow)
        (versions : List DependencyVersionRow) (row : Option DependencyVersionRow)
        (s s' : Selection)
        → select_version σ d.name d.version_req versions ≡ ok row
        → add_selected σ index d crate_row row s ≡ s'
        → s'.conflicts ≡ []
        → SelectedOne d s s'
    add_selected_lem d crate_row versions none s s' q e c =
        let grown : s.conflicts ++ (_ ∷ []) ≡ [] =
          subst (λ (x : Selection). x.conflicts ≡ []) (sym e) c in
        cc ((append_empty s.conflicts _ grown).1)
    add_selected_lem d crate_row versions (some row) s s' q e c =
        subst (SelectedOne d s) e (record {
          clear = subst (λ (x : Selection). x.conflicts ≡ []) (sym e) c;
          met = (
            _,
            In-last s.selected _,
            λ text t. select_version-IsAllowed d.name d.version_req versions row text q t,
          );
          kept = λ x m. append_left-In s.selected _ m;
        })

    select_in_lem :
        (d : NormalizedDependency) (o : Option DependencyCrateRow) (s s' : Selection)
        → select_in σ index d o s ≡ ok s'
        → s'.conflicts ≡ []
        → SelectedOne d s s'
    unfolding select_in
    select_in_lem d none s s' h c =
        let grown : s.conflicts ++ (_ ∷ []) ≡ [] =
          subst (λ (x : Selection). x.conflicts ≡ []) (sym (ok_eq h)) c in
        cc ((append_empty s.conflicts _ grown).1)
    select_in_lem d (some crate_row) s s' h c =
        elim (Result-cases
          (failing version_lookup_failed (index.list_dependency_versions_by_crate crate_row.id))) [
            | inl (e, p) ↦ cc (rw p at h)
            | inr (versions, p) ↦
                elim (Result-cases (select_version σ d.name d.version_req versions)) [
                  | inl (e, q) ↦ cc (rw (p, q) at h)
                  | inr (row, q) ↦
                      add_selected_lem d crate_row versions row s s' q (ok_eq (rw (p, q) at h)) c
                ]
          ]

    pub select_each_lem :
        (ds : List NormalizedDependency) (s s' : Selection)
        → select_each σ index ds s ≡ ok s'
        → s'.conflicts ≡ []
        → Selected ds s s'
    unfolding select_each
    select_each_lem [] s s' h c =
        let e : s ≡ s' = ok_eq h in
        record {
          clear = subst (λ (x : Selection). x.conflicts ≡ []) (sym e) c;
          met = tt;
          kept = λ x m. subst (λ (y : Selection). In x y.selected) e m;
        }
    select_each_lem (d ∷ ds) s s' h c =
        elim (Result-cases
          (failing crate_lookup_failed (index.fetch_dependency_crate_by_name d.name))) [
            | inl (e, p) ↦ cc (rw p at h)
            | inr (crate_row, p) ↦ elim (Result-cases (select_in σ index d crate_row s)) [
              | inl (e, q) ↦ cc (rw (p, q) at h)
              | inr (t, q) ↦
                  let later = select_each_lem ds t s' (rw (p, q) at h) c in
                  let one = select_in_lem d crate_row s t q later.clear in
                  record {
                    clear = one.clear;
                    met = ((one.met.0, later.kept one.met.0 one.met.1, one.met.2), later.met);
                    kept = λ x m. later.kept x (one.kept x m);
                  }
            ]
          ]
