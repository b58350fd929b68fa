-- ===== src/Jobs/Queue/Enqueue.antt =====
-- What `enqueue_or_get_refresh_job_id` promises, and what it cannot promise between its two
-- statements.
use rust_mcp.Prelude.{
  ℕ, ◌+◌, ◌≡◌, true, false, Bool, List, [], ◌∷◌, ◌++◌, none, some, arith, select, length, All,
  In-All, Option-cases, inl, inr, length-select_none,
}
use rust_mcp.Text.{Text, text_eq_refl}
use rust_mcp.Order.{nat_ord}
use rust_mcp.Order.Sort.{sort_by}
use rust_mcp.Jobs.Table.{RefreshJob, Jobs, select_first}
use rust_mcp.Jobs.Table.Select.{select_first-none}
use rust_mcp.Jobs.Table.Update.{length-select-snoc}
use rust_mcp.Jobs.Queue.{
  JobRequest, serves, new_row, find_active_job, insert_job, insert_unless,
  enqueue_or_get_refresh_job_id,
}

module _ {J : Type 0} (lower : Text → Text) where
  select_snoc :
      (test : RefreshJob J → Bool) (rows : List (RefreshJob J)) (row : RefreshJob J)
      → All (λ r. test r ≡ false) rows
      → test row ≡ true
      → select test (rows ++ (row ∷ [])) ≡ row ∷ []
  select_snoc test [] row h t = rw t
  select_snoc test (x ∷ rows) row h t = rw h.0 (select_snoc test rows row h.1 t)

  unserved :
      (c s : Text) (q : Jobs J)
      → find_active_job lower c s q ≡ none
      → All (λ row. serves lower c s row ≡ false) q.rows
  unfolding find_active_job
  unserved c s q e =
      In-All (λ row. serves lower c s row ≡ false) q.rows
        (λ row m.
          select_first-none nat_ord (λ (r : RefreshJob J). r.id) (serves lower c s) q.rows row e m)

  serves_itself :
      (now id : ℕ) (request : JobRequest J)
      → serves lower request.crate_name request.scope (new_row now id request) ≡ true
  serves_itself now id request =
      ground (arith, text_eq_refl (lower request.crate_name), text_eq_refl request.scope)

  -- The inserted job is the one that the next look finds.
  find_active_job-insert_job :
      (now : ℕ) (request : JobRequest J) (q : Jobs J)
      → find_active_job lower request.crate_name request.scope q ≡ none
      → find_active_job lower request.crate_name request.scope (insert_job now request q).0
        ≡ some (new_row now q.next_id request)
  find_active_job-insert_job now request q e =
      let nothing = unserved request.crate_name request.scope q e in
      unfold find_active_job insert_job select_first sort_by in
      rw (
        select_snoc (serves lower request.crate_name request.scope) q.rows
          (new_row now q.next_id request) nothing (serves_itself now q.next_id request))

  -- Enqueueing is idempotent: asked again for the same crate and scope, it returns the id of before,
  -- says that it is not new, and leaves the queue alone.
  pub enqueue_twice :
      (now later : ℕ) (request again : JobRequest J) (q : Jobs J)
      → again.crate_name ≡ request.crate_name
      → again.scope ≡ request.scope
      → enqueue_or_get_refresh_job_id lower later again
          (enqueue_or_get_refresh_job_id lower now request q).0
        ≡ (
          (enqueue_or_get_refresh_job_id lower now request q).0,
          record {
            job_id = (enqueue_or_get_refresh_job_id lower now request q).1.job_id;
            is_new = false;
          },
        )
  unfolding enqueue_or_get_refresh_job_id insert_unless
  enqueue_twice now later request again q e f =
      elim (Option-cases (find_active_job lower request.crate_name request.scope q)) [
        | inl n ↦
            rw (e, f, n) (unfold insert_unless in rw (find_active_job-insert_job now request q n))
        | inr (row, s) ↦ rw (e, f, s) (rw s)
      ]

  -- Where the queue has no live job for a crate and scope, two callers that both look before either
  -- inserts leave it with two live jobs for them.
  pub enqueue_race :
      (now : ℕ) (request other : JobRequest J) (q : Jobs J)
      → other.crate_name ≡ request.crate_name
      → other.scope ≡ request.scope
      → find_active_job lower request.crate_name request.scope q ≡ none
      → let seen = find_active_job lower request.crate_name request.scope q in
        let seen_too = find_active_job lower other.crate_name other.scope q in
        let q' = (insert_unless seen now request q).0 in
        let q'' = (insert_unless seen_too now other q').0 in
        length (select (serves lower request.crate_name request.scope) q''.rows) ≡ 2
  unfolding insert_unless
  enqueue_race now request other q e f n =
      let nothing = unserved request.crate_name request.scope q n in
      rw (e, f, n)
        (unfold insert_job in
          let first_one = new_row now q.next_id request in
          let second_one = new_row now (q.next_id + 1) other in
          ground (
            arith,
            length-select-snoc (serves lower request.crate_name request.scope)
                (q.rows ++ (first_one ∷ [])) second_one,
            length-select-snoc (serves lower request.crate_name request.scope) q.rows first_one,
            length-select_none (serves lower request.crate_name request.scope) q.rows nothing,
            serves_itself now q.next_id request,
            serves_itself now (q.next_id + 1) other,
          ))
