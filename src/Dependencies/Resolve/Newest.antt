-- ===== src/Dependencies/Resolve/Newest.antt =====
-- Which version `select_version` chooses.
use rust_mcp.Prelude.{
  ◌≡◌, refl, sym, subst, ◌∙◌, ◌⊎◌, inl, inr, false, List, [], ◌∷◌, Option, none, some, arith, In,
  here, there, Bool-cases, ok,
}
use rust_mcp.Prelude.Options.{mapped}
use rust_mcp.Order.{asym, le_trans}
use rust_mcp.Text.{Text}
use rust_mcp.Semver.{Semver}
use rust_mcp.Dependencies.Rows.{DependencyVersionRow}
use rust_mcp.Dependencies.Resolve.{if_admitted, admitted, consider, newest, select_version}
use rust_mcp.Dependencies.Resolve.Selected.{ok_eq, fine}

module _ (σ : Semver) where
  open σ use {Version, Requirement, parse_requirement, order}

  abbrev Candidate : Type 0
  Candidate = Option (Version × DependencyVersionRow)

  -- No smaller than a version.
  abbrev AtLeast : Version → Candidate → Type 0
  AtLeast v none = ⊥
  AtLeast v (some e) = order.lt e.0 v ≡ false

  -- A choice is at least the one before and what is new.
  old-consider :
      (new old : Candidate) (v : Version) → AtLeast v old → AtLeast v (consider σ new old)
  old-consider none old v h = h
  old-consider (some new) none v h = absurd h
  old-consider (some new) (some old) v h = elim (Bool-cases (order.lt new.0 old.0)) [
    | inl e ↦ rw e h
    | inr e ↦ rw e (le_trans order v old.0 new.0 h e)
  ]

  new-consider :
      (new : Version × DependencyVersionRow) (old : Candidate)
      → AtLeast new.0 (consider σ (some new) old)
  new-consider new none = order.irrefl new.0
  new-consider new (some old) = elim (Bool-cases (order.lt new.0 old.0)) [
    | inl e ↦ rw e (asym order new.0 old.0 e)
    | inr e ↦ rw e (order.irrefl new.0)
  ]

  old-newest :
      (requirement : Requirement) (rows : List DependencyVersionRow) (best : Candidate)
      (v : Version)
      → AtLeast v best
      → AtLeast v (newest σ requirement rows best)
  unfolding newest
  old-newest requirement [] best v h = h
  old-newest requirement (row ∷ rows) best v h =
      old-newest requirement rows (consider σ (admitted σ requirement row) best) v
        (old-consider (admitted σ requirement row) best v h)

  AtLeast-newest :
      (requirement : Requirement) (rows : List DependencyVersionRow) (best : Candidate)
      (other : DependencyVersionRow) (e : Version × DependencyVersionRow)
      → In other rows
      → admitted σ requirement other ≡ some e
      → AtLeast e.0 (newest σ requirement rows best)
  unfolding newest
  AtLeast-newest requirement [] best other e m a = elim m [ ]
  AtLeast-newest requirement (row ∷ rows) best other e (here p) a =
      let is_new : admitted σ requirement row ≡ some e = rw p at a in
      old-newest requirement rows (consider σ (admitted σ requirement row) best) e.0
        (rw is_new (new-consider e best))
  AtLeast-newest requirement (row ∷ rows) best other e (there m) a =
      AtLeast-newest requirement rows (consider σ (admitted σ requirement row) best) other e m a

  -- Where a choice comes from.
  from_consider : (new old : Candidate) → (consider σ new old ≡ new) ⊎ (consider σ new old ≡ old)
  from_consider none old = inr refl
  from_consider (some new) none = inl refl
  from_consider (some new) (some old) = elim (Bool-cases (order.lt new.0 old.0)) [
    | inl e ↦ rw e (inr refl)
    | inr e ↦ rw e (inl refl)
  ]

  newest-In :
      (requirement : Requirement) (rows : List DependencyVersionRow) (best : Candidate)
      (e : Version × DependencyVersionRow)
      → newest σ requirement rows best ≡ some e
      → (best ≡ some e)
        ⊎ ((row : DependencyVersionRow) × In row rows × (admitted σ requirement row ≡ some e))
  unfolding newest
  newest-In requirement [] best e h = inl h
  newest-In requirement (row ∷ rows) best e h =
      elim (newest-In requirement rows (consider σ (admitted σ requirement row) best) e h) [
        | inr (r, m, a) ↦ inr (r, there m, a)
        | inl c ↦ elim (from_consider (admitted σ requirement row) best) [
          | inl n ↦ inr (row, here refl, sym n ∙ c)
          | inr o ↦ inl (sym o ∙ c)
        ]
      ]

  admitted_row :
      (requirement : Requirement) (row : DependencyVersionRow) (o : Option Version)
      (e : Version × DependencyVersionRow)
      → if_admitted σ requirement row o ≡ some e
      → e.1 ≡ row
  admitted_row requirement row none e h = cc
  admitted_row requirement row (some v) e h = ground arith

  -- The row that is chosen for a requirement, with its version.
  pub record IsNewest (requirement : Requirement) (rows : List DependencyVersionRow)
      (row : DependencyVersionRow) : Type 0 where
    pub version : Version
    pub present : In row rows
    pub admits : admitted σ requirement row ≡ some (version, row)
    pub greatest :
        (other : DependencyVersionRow) (e : Version × DependencyVersionRow)
        → In other rows
        → admitted σ requirement other ≡ some e
        → order.lt version e.0 ≡ false

  AtLeast-some :
      (v : Version) (c : Candidate) (e : Version × DependencyVersionRow)
      → c ≡ some e
      → AtLeast v c
      → order.lt e.0 v ≡ false
  AtLeast-some v c e p h = subst (AtLeast v) p h

  newest-IsNewest :
      (requirement : Requirement) (rows : List DependencyVersionRow)
      (e : Version × DependencyVersionRow)
      → newest σ requirement rows none ≡ some e
      → IsNewest requirement rows e.1
  newest-IsNewest requirement rows e h = elim (newest-In requirement rows none e h) [
    | inl n ↦ cc
    | inr (row, m, a) ↦
        let row_is : e.1 ≡ row =
          unfold admitted in admitted_row requirement row _ e (unfold admitted in a) in
        record {
          version = e.0;
          present = rw row_is m;
          admits = subst (λ r. admitted σ requirement r ≡ some e) (sym row_is) a;
          greatest = λ other x i b.
              AtLeast-some x.0 _ e h (AtLeast-newest requirement rows none other x i b);
        }
  ]

  chosen_row :
      (requirement : Requirement) (rows : List DependencyVersionRow) (c : Candidate)
      (row : DependencyVersionRow)
      → newest σ requirement rows none ≡ c
      → mapped (λ e. e.1) c ≡ some row
      → IsNewest requirement rows row
  chosen_row requirement rows none row h e = cc
  chosen_row requirement rows (some x) row h e =
      let row_is : x.1 ≡ row = ground arith in
      subst (IsNewest requirement rows) row_is (newest-IsNewest requirement rows x h)

  -- With a requirement that can be read, the version that is chosen stands among the rows, is
  -- admitted, and no other row that is admitted has a greater version.
  pub select_version-IsNewest :
      (name text : Text) (rows : List DependencyVersionRow) (row : DependencyVersionRow)
      (requirement : Requirement)
      → parse_requirement text ≡ some requirement
      → select_version σ name (some text) rows ≡ ok (some row)
      → IsNewest requirement rows row
  unfolding select_version
  select_version-IsNewest name text rows row requirement p h =
      let g : fine
            (mapped (λ (x : Version × DependencyVersionRow). x.1) (newest σ requirement rows none))
          ≡ ok (some row) =
        rw p at h in
      chosen_row requirement rows (newest σ requirement rows none) row refl (ok_eq g)
