-- ===== src/Jobs/Table/Update.antt =====
-- What an update of the rows with one id keeps.
use rust_mcp.Prelude.{
  ℕ, ◌+◌, ◌≤◌, ◌≡◌, ◌≢◌, true, Bool, List, [], ◌∷◌, ◌++◌, arith, ◌==◌, if◌then◌else◌, select,
  length, All, Bool-cases, inl, inr, In, here, there, All-In, sym, ap, ◌∙◌,
}
use rust_mcp.Jobs.Table.{RefreshJob, update}

module _ {J : Type 0} where
  -- A property of every row is kept, if the change keeps it on the rows that it is made on.
  pub update-All :
      (P : RefreshJob J → Type 0) (id : ℕ) (change : RefreshJob J → RefreshJob J)
      (rows : List (RefreshJob J))
      → ((row : RefreshJob J) → (row.id == id) ≡ true → P row → P (change row))
      → All P rows
      → All P (update id change rows)
  unfolding update
  update-All P id change [] keep h = tt
  update-All P id change (row ∷ rows) keep h = elim (Bool-cases (row.id == id)) [
    | inl e ↦ rw e (keep row e h.0, update-All P id change rows keep h.1)
    | inr e ↦ rw e (h.0, update-All P id change rows keep h.1)
  ]

  -- The same, where the changed rows are known to have the property.
  pub update-All_where :
      (P : RefreshJob J → Type 0) (id : ℕ) (change : RefreshJob J → RefreshJob J)
      (rows : List (RefreshJob J))
      → All (λ row. (row.id == id) ≡ true → P (change row)) rows
      → All P rows
      → All P (update id change rows)
  unfolding update
  update-All_where P id change [] keep h = tt
  update-All_where P id change (row ∷ rows) keep h = elim (Bool-cases (row.id == id)) [
    | inl e ↦ rw e (keep.0 e, update-All_where P id change rows keep.1 h.1)
    | inr e ↦ rw e (h.0, update-All_where P id change rows keep.1 h.1)
  ]

  -- No more rows pass a test than before, if no changed row passes it that did not pass before.
  pub length-select-update :
      (test : RefreshJob J → Bool) (id : ℕ) (change : RefreshJob J → RefreshJob J)
      (rows : List (RefreshJob J))
      → All (λ row. (row.id == id) ≡ true → test (change row) ≡ true → test row ≡ true) rows
      → length (select test (update id change rows)) ≤ length (select test rows)
  unfolding update
  length-select-update test id change [] keep = omega arith
  length-select-update test id change (row ∷ rows) keep =
      ground (arith, length-select-update test id change rows keep.1, keep.0)

  -- All ids differ.
  abbrev pub AreDistinct : List (RefreshJob J) → Type 0
  AreDistinct [] = Unit
  AreDistinct (row ∷ rows) =
      All (λ (other : RefreshJob J). other.id ≢ row.id) rows × AreDistinct rows

  -- With distinct ids, an id tells the row.
  pub AreDistinct-eq :
      (a b : RefreshJob J) (rows : List (RefreshJob J))
      → AreDistinct rows
      → In a rows
      → In b rows
      → a.id ≡ b.id
      → a ≡ b
  AreDistinct-eq a b [] d m n e = elim m [ ]
  AreDistinct-eq a b (x ∷ rows) d (here p) (here q) e = p ∙ sym q
  AreDistinct-eq a b (x ∷ rows) d (here p) (there n) e = absurd (
      All-In (λ (other : RefreshJob J). other.id ≢ x.id) rows d.0 n
        (sym e ∙ ap (λ (r : RefreshJob J). r.id) p))
  AreDistinct-eq a b (x ∷ rows) d (there m) (here q) e = absurd (
      All-In (λ (other : RefreshJob J). other.id ≢ x.id) rows d.0 m
        (e ∙ ap (λ (r : RefreshJob J). r.id) q))
  AreDistinct-eq a b (x ∷ rows) d (there m) (there n) e = AreDistinct-eq a b rows d.1 m n e

  pub update-AreDistinct :
      (id : ℕ) (change : RefreshJob J → RefreshJob J) (rows : List (RefreshJob J))
      → ((row : RefreshJob J) → (change row).id ≡ row.id)
      → AreDistinct rows
      → AreDistinct (update id change rows)
  unfolding update
  update-AreDistinct id change [] keep h = tt
  update-AreDistinct id change (row ∷ rows) keep h = elim (Bool-cases (row.id == id)) [
    | inl e ↦ rw e (
      rw (keep row) (
          update-All (λ (other : RefreshJob J). other.id ≢ row.id) id change rows
            (λ r p n. rw (keep r) n) h.0),
      update-AreDistinct id change rows keep h.1,
    )
    | inr e ↦ rw e (
      update-All (λ (other : RefreshJob J). other.id ≢ row.id) id change rows
          (λ r p n. rw (keep r) n) h.0,
      update-AreDistinct id change rows keep h.1,
    )
  ]

  pub All-snoc :
      (P : RefreshJob J → Type 0) (rows : List (RefreshJob J)) (row : RefreshJob J)
      → All P rows
      → P row
      → All P (rows ++ (row ∷ []))
  All-snoc P [] row h k = (k, tt)
  All-snoc P (x ∷ rows) row h k = (h.0, All-snoc P rows row h.1 k)

  pub snoc-AreDistinct :
      (rows : List (RefreshJob J)) (row : RefreshJob J)
      → AreDistinct rows
      → All (λ (other : RefreshJob J). row.id ≢ other.id) rows
      → AreDistinct (rows ++ (row ∷ []))
  snoc-AreDistinct [] row h k = (tt, tt)
  snoc-AreDistinct (x ∷ rows) row h k = (
    All-snoc (λ (other : RefreshJob J). other.id ≢ x.id) rows row h.0 k.0,
    snoc-AreDistinct rows row h.1 k.1,
  )

  pub length-select-snoc :
      (test : RefreshJob J → Bool) (rows : List (RefreshJob J)) (row : RefreshJob J)
      → length (select test (rows ++ (row ∷ [])))
        ≡ length (select test rows) + (if test row then 1 else 0)
  length-select-snoc test [] row = ground arith
  length-select-snoc test (x ∷ rows) row = ground (arith, length-select-snoc test rows row)
