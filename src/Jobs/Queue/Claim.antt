-- ===== src/Jobs/Queue/Claim.antt =====
-- What `claim_next_refresh_job` claims.
use rust_mcp.Prelude.{ℕ, ◌≡◌, false, none, some, arith, In, Option-cases, inl, inr}
use rust_mcp.Jobs.Table.{RefreshJob, Jobs, select_first, update}
use rust_mcp.Jobs.Table.Select.{IsFirst, select_first-IsFirst, select_first-none}
use rust_mcp.Jobs.Queue.{claim_order, claim_key, is_runnable, start, claim_next_refresh_job}

module _ {J : Type 0} (now : ℕ) (q : Jobs J) where
  -- The row that is claimed, and the table after it.
  pub record IsClaimOf (job : RefreshJob J) (row : RefreshJob J) : Type 0 where
    pub chosen : IsFirst claim_order claim_key (is_runnable now) q.rows row
    pub returned : job ≡ start now row
    pub written :
        (claim_next_refresh_job now q).0 ≡ record q { rows = update row.id (start now) q.rows }

  pub claim-IsClaimOf :
      (job : RefreshJob J)
      → (claim_next_refresh_job now q).1 ≡ some job
      → (row : RefreshJob J) × IsClaimOf job row
  unfolding claim_next_refresh_job
  claim-IsClaimOf job h =
      elim (Option-cases (select_first claim_order claim_key (is_runnable now) q.rows)) [
        | inl e ↦ ground arith
        | inr (row, e) ↦ (
          row,
          record {
            chosen = select_first-IsFirst claim_order claim_key (is_runnable now) q.rows row e;
            returned = ground arith;
            written = ground arith;
          },
        )
      ]

  pub claim_none :
      (claim_next_refresh_job now q).1 ≡ none
      → ((claim_next_refresh_job now q).0 ≡ q)
        × ((row : RefreshJob J) → In row q.rows → is_runnable now row ≡ false)
  unfolding claim_next_refresh_job
  claim_none h = elim (Option-cases (select_first claim_order claim_key (is_runnable now) q.rows)) [
    | inl e ↦ (
      ground arith,
      λ row m. select_first-none claim_order claim_key (is_runnable now) q.rows row e m,
    )
    | inr (row, e) ↦ ground arith
  ]
