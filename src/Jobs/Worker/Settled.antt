-- ===== src/Jobs/Worker/Settled.antt =====
-- What the worker's turn makes of its job, and of the others.
use rust_mcp.Prelude.{
  ℕ, ◌≡◌, refl, false, List, [], ◌∷◌, ◌++◌, ◌==◌, ==_iff, leb, In, here, there, Bool-cases,
  Option-cases, inl, inr, Result, ok, err,
}
use rust_mcp.Text.{Text}
use rust_mcp.Jobs.Table.{RefreshJob, Jobs, update}
use rust_mcp.Jobs.Queue.{
  JobRequest, enqueue_or_get_refresh_job_id, find_active_job, insert_job, insert_unless, finish,
  fail_or_requeue,
}
use rust_mcp.Jobs.Retry.{max_attempts, jittered_retry_delay_seconds}
use rust_mcp.Jobs.Worker.{Handlers, Faults, enqueue_enrichment}

module _ {J : Type 0} where
  In-snoc :
      (row : RefreshJob J) (rows : List (RefreshJob J)) (new : RefreshJob J)
      → In row rows
      → In row (rows ++ (new ∷ []))
  In-snoc row [] new m = elim m [ ]
  In-snoc row (x ∷ rows) new (here e) = here e
  In-snoc row (x ∷ rows) new (there m) = there (In-snoc row rows new m)

  pub In-update :
      (row : RefreshJob J) (change : RefreshJob J → RefreshJob J) (rows : List (RefreshJob J))
      → In row rows
      → In (change row) (update row.id change rows)
  unfolding update
  In-update row change [] m = elim m [ ]
  In-update row change (x ∷ rows) (here e) =
      rw (← e) (rw ((==_iff row.id row.id).1 refl) (here refl))
  In-update row change (x ∷ rows) (there m) = there (In-update row change rows m)

  pub In-update_ne :
      (id : ℕ) (row : RefreshJob J) (change : RefreshJob J → RefreshJob J)
      (rows : List (RefreshJob J))
      → (row.id == id) ≡ false
      → In row rows
      → In row (update id change rows)
  unfolding update
  In-update_ne id row change [] n m = elim m [ ]
  In-update_ne id row change (x ∷ rows) n (here e) = rw (← e) (rw n (here refl))
  In-update_ne id row change (x ∷ rows) n (there m) = there (In-update_ne id row change rows n m)

  -- Enqueueing takes no row away.
  pub In-enqueued :
      (lower : Text → Text) (now : ℕ) (request : JobRequest J) (job : RefreshJob J) (q : Jobs J)
      → In job q.rows
      → In job (enqueue_or_get_refresh_job_id lower now request q).0.rows
  unfolding enqueue_or_get_refresh_job_id
  In-enqueued lower now request job q m =
      elim (Option-cases (find_active_job lower request.crate_name request.scope q)) [
        | inl e ↦ rw e (unfold insert_unless insert_job in In-snoc job q.rows _ m)
        | inr (row, e) ↦ rw e (unfold insert_unless in m)
      ]

module _ {J Crate : Type 0} (h : Handlers J Crate) (lower : Text → Text) (faults : Faults)
    (now now_nanos : ℕ) where
  -- The change of the job's row that the turn ends with.
  abbrev pub change : RefreshJob J → Result Text (Unit {0}) → RefreshJob J → RefreshJob J
  change job (ok x) row = finish now row
  change job (err error) row =
      fail_or_requeue now (leb max_attempts job.attempts)
        (jittered_retry_delay_seconds now_nanos job.id job.attempts) error row

  pub In-enrichment :
      (crate_name scope : Text) (job : RefreshJob J) (q : Jobs J)
      → In job q.rows
      → In job (enqueue_enrichment h lower faults now crate_name scope q).rows
  unfolding enqueue_enrichment
  In-enrichment crate_name scope job q m = elim (Bool-cases (faults.enrich scope)) [
    | inl e ↦ rw e m
    | inr e ↦ rw e (In-enqueued lower now _ job q m)
  ]
