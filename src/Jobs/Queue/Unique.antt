-- ===== src/Jobs/Queue/Unique.antt =====
-- What holds of the queue through every operation: ids are fresh and distinct, no crate and scope
-- has two live jobs, and no job is started more often than the worker's limit.
use rust_mcp.Prelude.{
  ℕ, ◌+◌, ◌≤◌, ◌<◌, ◌≡◌, ◌≢◌, refl, true, false, Bool, List, [], ◌∷◌, ◌++◌, none, arith, ◌==◌, leb,
  select, length, All, In, All-In, In-All, All-mono, length-select_none, ==_iff, sym, Option-cases,
  inl, inr, subst,
}
use rust_mcp.Text.{Text, text_eq_iff}
use rust_mcp.Order.{nat_ord}
use rust_mcp.Jobs.Table.{pending, running, RefreshJob, Jobs, update}
use rust_mcp.Jobs.Table.Select.{select_first-none}
use rust_mcp.Jobs.Table.Update.{
  update-All, length-select-update, AreDistinct, AreDistinct-eq, update-AreDistinct,
  update-All_where, All-snoc, snoc-AreDistinct, length-select-snoc,
}
use rust_mcp.Jobs.Queue.{
  JobRequest, serves, find_active_job, insert_job, enqueue_or_get_refresh_job_id, is_runnable,
  start, claim_next_refresh_job, finish, mark_refresh_job_finished, fail_or_requeue,
  mark_refresh_job_failed_or_requeued,
}
use rust_mcp.Jobs.Retry.{max_attempts}
use rust_mcp.Jobs.Queue.Claim.{claim-IsClaimOf, claim_none}

module _ {J : Type 0} (lower : Text → Text) where
  -- A job that waits has an attempt left, and none has had more than the limit.
  pub record IsTried (row : RefreshJob J) : Type 0 where
    pub capped : row.attempts ≤ max_attempts
    pub left : row.status ≡ pending → row.attempts < max_attempts

  pub record IsWellFormed (q : Jobs J) : Type 0 where
    pub fresh : All (λ (row : RefreshJob J). row.id < q.next_id) q.rows
    pub distinct : AreDistinct q.rows
    pub single :
        (crate_name scope : Text) → length (select (serves lower crate_name scope) q.rows) ≤ 1
    pub tried : All IsTried q.rows

  -- An update keeps the queue well formed, if it keeps each row's id, revives no job and keeps
  -- the bound on attempts.
  update-IsWellFormed :
      (id : ℕ) (change : RefreshJob J → RefreshJob J) (q : Jobs J)
      → ((row : RefreshJob J) → (change row).id ≡ row.id)
      → ((crate_name scope : Text)
          → All
              (λ (row : RefreshJob J).
                (row.id == id) ≡ true
                → serves lower crate_name scope (change row) ≡ true
                → serves lower crate_name scope row ≡ true)
              q.rows)
      → All IsTried (update id change q.rows)
      → IsWellFormed q
      → IsWellFormed (record q { rows = update id change q.rows })
  update-IsWellFormed id change q keep_id revive tried w = record {
    fresh =
        update-All (λ (row : RefreshJob J). row.id < q.next_id) id change q.rows
          (λ row e h. rw (keep_id row) h) w.fresh;
    distinct = update-AreDistinct id change q.rows keep_id w.distinct;
    single = λ c s. omega (
      arith,
      length-select-update (serves lower c s) id change q.rows (revive c s),
      w.single c s,
    );
    tried = tried;
  }

  everywhere :
      (P : RefreshJob J → Type 0) (rows : List (RefreshJob J))
      → ((row : RefreshJob J) → P row)
      → All P rows
  everywhere P [] h = tt
  everywhere P (row ∷ rows) h = (h row, everywhere P rows h)

  pub finished-IsWellFormed :
      (now id : ℕ) (q : Jobs J) → IsWellFormed q → IsWellFormed (mark_refresh_job_finished now id q)
  unfolding mark_refresh_job_finished
  finished-IsWellFormed now id q w =
      update-IsWellFormed id (finish now) q (λ row. refl)
        (λ c s.
          everywhere
            (λ (row : RefreshJob J).
              (row.id == id) ≡ true
              → serves lower c s (finish now row) ≡ true
              → serves lower c s row ≡ true)
            q.rows (λ row e h. ground arith))
        (update-All IsTried id (finish now) q.rows
          (λ row e h. record { capped = h.capped; left = λ p. cc }) w.tried)
        w

  started_before :
      (now : ℕ) (r row : RefreshJob J) (n s : Text)
      → r ≡ row
      → is_runnable now row ≡ true
      → serves lower n s (start now r) ≡ true
      → serves lower n s r ≡ true
  unfolding start
  started_before now r row n s e p k =
      let p' : is_runnable now r ≡ true = subst (λ x. is_runnable now x ≡ true) (sym e) p in
      ground arith

  start-IsTried :
      (now : ℕ) (r row : RefreshJob J)
      → r ≡ row
      → is_runnable now row ≡ true
      → IsTried r
      → IsTried (start now r)
  unfolding start
  start-IsTried now r row e p h =
      let p' : is_runnable now r ≡ true = subst (λ x. is_runnable now x ≡ true) (sym e) p in
      record { capped = ground (arith, h.left); left = λ q. cc }

  pub claimed-IsWellFormed :
      (now : ℕ) (q : Jobs J) → IsWellFormed q → IsWellFormed (claim_next_refresh_job now q).0
  unfolding start
  claimed-IsWellFormed now q w = elim (Option-cases (claim_next_refresh_job now q).1) [
    | inl e ↦ rw ((claim_none now q e).0) w
    | inr (job, e) ↦
        let (row, c) = claim-IsClaimOf now q job e in
        let is_row : (r : RefreshJob J) → In r q.rows → (r.id == row.id) ≡ true → r ≡ row = λ r m t.
          AreDistinct-eq r row q.rows w.distinct m c.chosen.present ((==_iff r.id row.id).0 t) in
        rw c.written (
          update-IsWellFormed row.id (start now) q (λ r. refl)
            (λ n s.
              In-All
                (λ (r : RefreshJob J).
                  (r.id == row.id) ≡ true
                  → serves lower n s (start now r) ≡ true
                  → serves lower n s r ≡ true)
                q.rows (λ r m t k. started_before now r row n s (is_row r m t) c.chosen.passes k))
            (update-All_where IsTried row.id (start now) q.rows
              (In-All (λ (r : RefreshJob J). (r.id == row.id) ≡ true → IsTried (start now r)) q.rows
                (λ r m t.
                  start-IsTried now r row (is_row r m t) c.chosen.passes
                    (All-In IsTried q.rows w.tried m)))
              w.tried)
            w)
  ]

  was_active :
      (now : ℕ) (terminal : Bool) (retry_delay : ℕ) (error : Text) (row : RefreshJob J) (c s : Text)
      → row.status ≡ running
      → serves lower c s (fail_or_requeue now terminal retry_delay error row) ≡ true
      → serves lower c s row ≡ true
  unfolding fail_or_requeue
  was_active now terminal retry_delay error row c s r k = ground arith

  fail_or_requeue-IsTried :
      (now retry_delay : ℕ) (error : Text) (row job : RefreshJob J)
      → row.attempts ≡ job.attempts
      → IsTried row
      → IsTried (fail_or_requeue now (leb max_attempts job.attempts) retry_delay error row)
  unfolding fail_or_requeue
  fail_or_requeue-IsTried now retry_delay error row job e h = record {
    capped = h.capped;
    left = λ p. ground arith;
  }

  pub broken-IsWellFormed :
      (now id retry_delay : ℕ) (error : Text) (job : RefreshJob J) (q : Jobs J)
      → All
          (λ (row : RefreshJob J).
            (row.id == id) ≡ true → (row.status ≡ running) × (row.attempts ≡ job.attempts))
          q.rows
      → IsWellFormed q
      → IsWellFormed (
          mark_refresh_job_failed_or_requeued now id
            (leb max_attempts job.attempts)
            retry_delay
            error
            q)
  unfolding mark_refresh_job_failed_or_requeued
  broken-IsWellFormed now id retry_delay error job q r w =
      update-IsWellFormed id (fail_or_requeue now (leb max_attempts job.attempts) retry_delay error)
        q (λ row. refl)
        (λ c s.
          All-mono
            (λ (row : RefreshJob J).
              (row.id == id) ≡ true → (row.status ≡ running) × (row.attempts ≡ job.attempts))
            (λ (row : RefreshJob J).
              (row.id == id) ≡ true
              → serves lower c s
                  (fail_or_requeue now (leb max_attempts job.attempts) retry_delay error row)
                ≡ true
              → serves lower c s row ≡ true)
            q.rows
            (λ row h t k.
              was_active now (leb max_attempts job.attempts) retry_delay error row c s (h t).0 k)
            r)
        (update-All_where IsTried id
          (fail_or_requeue now (leb max_attempts job.attempts) retry_delay error) q.rows
          (In-All
            (λ (row : RefreshJob J).
              (row.id == id) ≡ true
              → IsTried (fail_or_requeue now (leb max_attempts job.attempts) retry_delay error row))
            q.rows
            (λ row m t.
              fail_or_requeue-IsTried now retry_delay error row job
                (All-In
                  (λ (row : RefreshJob J).
                    (row.id == id) ≡ true → (row.status ≡ running) × (row.attempts ≡ job.attempts))
                  q.rows r m t).1
                (All-In IsTried q.rows w.tried m)))
          w.tried)
        w

  -- A row that serves the same crate and scope as a request is one that the request looks for.
  serves_same :
      (c s : Text) (request : JobRequest J) (row : RefreshJob J)
      → lower request.crate_name ≡ lower c
      → request.scope ≡ s
      → serves lower request.crate_name request.scope row ≡ false
      → serves lower c s row ≡ false
  serves_same c s request row e f h = rw (← e, ← f) h

  snoc_single :
      (test : RefreshJob J → Bool) (rows : List (RefreshJob J)) (row : RefreshJob J)
      → (test row ≡ true → length (select test rows) ≡ 0)
      → length (select test rows) ≤ 1
      → length (select test (rows ++ (row ∷ []))) ≤ 1
  snoc_single test rows row new h = ground (arith, length-select-snoc test rows row)

  inserted-IsWellFormed :
      (now : ℕ) (request : JobRequest J) (q : Jobs J)
      → find_active_job lower request.crate_name request.scope q ≡ none
      → IsWellFormed q
      → IsWellFormed (insert_job now request q).0
  unfolding insert_job find_active_job
  inserted-IsWellFormed now request q e w =
      let unserved : (row : RefreshJob J)
          → In row q.rows
          → serves lower request.crate_name request.scope row ≡ false =
        λ row m.
          select_first-none nat_ord (λ (r : RefreshJob J). r.id)
            (serves lower request.crate_name request.scope) q.rows row e m in
      record {
        fresh =
            All-snoc (λ (row : RefreshJob J). row.id < q.next_id + 1) q.rows _
              (All-mono (λ (row : RefreshJob J). row.id < q.next_id)
                (λ (row : RefreshJob J). row.id < q.next_id + 1) q.rows (λ row h. omega arith)
                w.fresh)
              (omega arith);
        distinct = snoc-AreDistinct q.rows _ w.distinct (
            All-mono (λ (row : RefreshJob J). row.id < q.next_id)
              (λ (row : RefreshJob J). q.next_id ≢ row.id) q.rows (λ row h. omega arith) w.fresh);
        single = λ c s.
            snoc_single (serves lower c s) q.rows _
              (λ t. length-select_none (serves lower c s) q.rows (
                In-All (λ row. serves lower c s row ≡ false) q.rows
                  (λ row m.
                    serves_same c s request row
                      (ground (arith, text_eq_iff (lower request.crate_name) (lower c)))
                      (ground (arith, text_eq_iff request.scope s)) (unserved row m))))
              (w.single c s);
        tried =
            All-snoc IsTried q.rows _ w.tried
              (record { capped = omega arith; left = λ p. omega arith });
      }

  pub enqueued-IsWellFormed :
      (now : ℕ) (request : JobRequest J) (q : Jobs J)
      → IsWellFormed q
      → IsWellFormed (enqueue_or_get_refresh_job_id lower now request q).0
  unfolding enqueue_or_get_refresh_job_id
  enqueued-IsWellFormed now request q w =
      elim (Option-cases (find_active_job lower request.crate_name request.scope q)) [
        | inl e ↦ rw e (inserted-IsWellFormed now request q e w)
        | inr (row, e) ↦ rw e w
      ]
