-- ===== src/Jobs/Table/Select.antt =====
-- What the first row in an order is.
use rust_mcp.Prelude.{
  ◌≡◌, refl, subst, Bool, true, false, List, [], ◌∷◌, none, some, arith, select, All-In, In, here,
  there, In-select, select-In, Bool-cases, inl, inr,
}
use rust_mcp.Order.{Ord}
use rust_mcp.Order.Sort.{sort_by, IsSorted, sort_by-IsSorted, In-sort_by, sort_by-In}
use rust_mcp.Jobs.Table.{RefreshJob, first, select_first}

module _ {J K : Type 0} (o : Ord K) (key : RefreshJob J → K) (test : RefreshJob J → Bool) where
  -- A row of the table that passes the test, and before which no row that passes it stands.
  pub record IsFirst (rows : List (RefreshJob J)) (row : RefreshJob J) : Type 0 where
    pub present : In row rows
    pub passes : test row ≡ true
    pub least :
        (other : RefreshJob J)
        → In other rows
        → test other ≡ true
        → o.lt (key other) (key row) ≡ false

  head_least :
      (row other : RefreshJob J) (rows : List (RefreshJob J))
      → IsSorted o key (row ∷ rows)
      → In other (row ∷ rows)
      → o.lt (key other) (key row) ≡ false
  head_least row other rows s (here e) = rw e (o.irrefl (key row))
  head_least row other rows s (there m) = All-In (λ y. o.lt (key y) (key row) ≡ false) rows s.0 m

  first-IsFirst :
      (rows sorted : List (RefreshJob J)) (row : RefreshJob J)
      → sort_by o key (select test rows) ≡ sorted
      → first sorted ≡ some row
      → IsFirst rows row
  first-IsFirst rows [] row e h = cc
  first-IsFirst rows (x ∷ xs) row e h =
      let x_is : x ≡ row = ground arith in
      let found : In x rows × (test x ≡ true) =
        In-select test rows (In-sort_by o key (select test rows) (rw e (here refl))) in
      rw (← x_is) (record {
        present = found.0;
        passes = found.1;
        least = λ other m t.
            head_least x other xs
              (subst (IsSorted o key) e (sort_by-IsSorted o key (select test rows)))
              (subst (In other) e (sort_by-In o key (select test rows) (select-In test rows m t)));
      })

  pub select_first-IsFirst :
      (rows : List (RefreshJob J)) (row : RefreshJob J)
      → select_first o key test rows ≡ some row
      → IsFirst rows row
  unfolding select_first
  select_first-IsFirst rows row h = first-IsFirst rows (sort_by o key (select test rows)) row refl h

  first-none :
      (rows sorted : List (RefreshJob J)) (other : RefreshJob J)
      → first sorted ≡ none
      → In other sorted
      → ⊥
  first-none rows [] other h m = elim m [ ]
  first-none rows (x ∷ xs) other h m = cc

  -- Nothing is found only where no row passes the test.
  pub select_first-none :
      (rows : List (RefreshJob J)) (other : RefreshJob J)
      → select_first o key test rows ≡ none
      → In other rows
      → test other ≡ false
  unfolding select_first
  select_first-none rows other h m = elim (Bool-cases (test other)) [
    | inl t ↦ absurd (
        first-none rows (sort_by o key (select test rows)) other h
          (sort_by-In o key (select test rows) (select-In test rows m t)))
    | inr f ↦ f
  ]
