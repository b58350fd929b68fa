-- ===== src/Jobs/Worker/Stuck.antt =====
-- A job whose process ended while it ran.
use rust_mcp.Prelude.{
  ℕ, ◌≡◌, refl, sym, ap, subst, ◌∙◌, Bool, true, false, List, none, some, arith, ◌==◌, ==_iff,
  if◌then◌else◌, In, Bool-cases, Option-cases, inl, inr, Result, ok, err,
}
use rust_mcp.Text.{Text, codes}
use rust_mcp.Jobs.Table.{running, RefreshJob, Jobs}
use rust_mcp.Jobs.Table.Update.{AreDistinct, AreDistinct-eq}
use rust_mcp.Jobs.Queue.{
  is_runnable, start, claim_next_refresh_job, mark_refresh_job_finished,
  mark_refresh_job_failed_or_requeued,
}
use rust_mcp.Jobs.Queue.Claim.{claim-IsClaimOf, claim_none}
use rust_mcp.Jobs.Coordinator.{enqueue_on_demand, new_coordinator}
use rust_mcp.Jobs.Worker.{
  Handlers, Faults, WorkerState, is_crate_scope, dispatch, complete, give_up_or_retry, settle,
  process,
}
use rust_mcp.Jobs.Worker.Settled.{In-enqueued, In-update_ne, In-enrichment}
use rust_mcp.Jobs.Worker.Sound.{
  System, Step, requested, asked, took, went_through, restarted, IsSound, Reachable, next,
  Reachable-IsSound,
}

module _ {J : Type 0} (job : RefreshJob J) where
  -- The job stands in the table, running, and is not the one that the worker holds.
  pub record IsStuck (s : System J) : Type 0 where
    pub present : In job s.state.queue.rows
    pub status : job.status ≡ running
    pub unheld : (held : RefreshJob J) → s.held ≡ some held → (job.id == held.id) ≡ false

  not_runnable : (now : ℕ) → job.status ≡ running → is_runnable now job ≡ true → ⊥
  not_runnable now r t = cc (rw r at t)

  other_id :
      (now : ℕ) (row : RefreshJob J) (rows : List (RefreshJob J))
      → AreDistinct rows
      → In job rows
      → In row rows
      → job.status ≡ running
      → is_runnable now row ≡ true
      → (job.id == row.id) ≡ false
  other_id now row rows d m n r t = elim (Bool-cases (job.id == row.id)) [
    | inr f ↦ f
    | inl e ↦
        let same : job ≡ row = AreDistinct-eq job row rows d m n ((==_iff job.id row.id).0 e) in
        absurd (not_runnable now r (subst (λ x. is_runnable now x ≡ true) (sym same) t))
  ]

  module _ {Crate : Type 0} (lower : Text → Text) (h : Handlers J Crate) (faults : Faults)
      (now now_nanos : ℕ) where
    unless-In :
        (b : Bool) (q q' : Jobs J)
        → In job q.rows
        → In job q'.rows
        → In job (if b then q else q').rows
    unless-In true q q' m n = m
    unless-In false q q' m n = n

    settle-In :
        (held : RefreshJob J) (result : Result Text (Unit {0})) (s : WorkerState J)
        → (job.id == held.id) ≡ false
        → In job s.queue.rows
        → In job (settle h lower faults now now_nanos held result s).queue.rows
    unfolding settle
    settle-In held (ok x) s n m =
        unfold complete in
        let marked =
          unless-In faults.finish s.queue (mark_refresh_job_finished now held.id s.queue) m
            (unfold mark_refresh_job_finished in In-update_ne held.id job _ s.queue.rows n m) in
        unless-In (is_crate_scope held.scope) _ _
          (In-enrichment h lower faults now now_nanos held.crate_name (codes "rustdoc_json") job _ (
            In-enrichment h lower faults now now_nanos held.crate_name (codes "local_cache") job _
              marked))
          marked
    settle-In held (err e) s n m =
        unfold give_up_or_retry in
        unless-In faults.fail_or_requeue s.queue _ m (
          unfold mark_refresh_job_failed_or_requeued in In-update_ne held.id job _ s.queue.rows n m)

  claimed-IsStuck :
      (now : ℕ) (q : Jobs J)
      → AreDistinct q.rows
      → In job q.rows
      → job.status ≡ running
      → In job (claim_next_refresh_job now q).0.rows
        × ((held : RefreshJob J)
            → (claim_next_refresh_job now q).1 ≡ some held
            → (job.id == held.id) ≡ false)
  claimed-IsStuck now q d m r = elim (Option-cases (claim_next_refresh_job now q).1) [
    | inl e ↦
        (subst (λ (x : Jobs J). In job x.rows) (sym (claim_none now q e).0) m, λ held p. cc (e, p))
    | inr (claimed, e) ↦
        let (row, c) = claim-IsClaimOf now q claimed e in
        let n = other_id now row q.rows d m c.chosen.present r c.chosen.passes in
        (
          subst (λ (x : Jobs J). In job x.rows) (sym c.written)
              (In-update_ne row.id job (start now) q.rows n m),
          λ held p.
              let held_is : claimed ≡ held = ground arith in
              let id_is : held.id ≡ row.id =
                ap (λ (x : RefreshJob J). x.id) (sym held_is ∙ c.returned)
                ∙ (unfold start in refl) in
              rw id_is n,
        )
  ]

  module _ (Crate : Type 0) (lower : Text → Text) where
    Step-IsStuck :
        {s s' : System J} → Step Crate lower s s' → IsSound lower s → IsStuck s → IsStuck s'
    Step-IsStuck {s} (requested now request e) i k = subst IsStuck e (record {
      present = In-enqueued lower now request job s.state.queue k.present;
      status = k.status;
      unheld = k.unheld;
    })
    Step-IsStuck {s} (asked now crate_name scope payload e) i k = subst IsStuck e (
        unfold enqueue_on_demand in
        record {
          present = In-enqueued lower now _ job s.state.queue k.present;
          status = k.status;
          unheld = k.unheld;
        })
    Step-IsStuck {s} (took now n e) i k =
        let (m, u) = claimed-IsStuck now s.state.queue i.well_formed.distinct k.present k.status in
        subst IsStuck e (record { present = m; status = k.status; unheld = u })
    Step-IsStuck {s} (went_through h faults now now_nanos held p e) i k = subst IsStuck e (record {
      present =
          unfold process in
          settle-In lower h faults now now_nanos held (dispatch h held) s.state (k.unheld held p)
            k.present;
      status = k.status;
      unheld = λ other q. cc;
    })
    Step-IsStuck {s} (restarted e) i k =
        subst IsStuck e (record { present = k.present; status = k.status; unheld = λ held p. cc })

    -- Any number of steps.
    pub data Steps (s : System J) : System J → Type 0 where
      done : Steps s s
      further : {t u : System J} → Steps s t → Step Crate lower t u → Steps s u

    Steps-Reachable :
        {s s' : System J} → Reachable Crate lower s → Steps s s' → Reachable Crate lower s'
    Steps-Reachable r done = r
    Steps-Reachable r (further p st) = next (Steps-Reachable r p) st

    Steps-IsStuck :
        {s s' : System J} → Reachable Crate lower s → Steps s s' → IsStuck s → IsStuck s'
    Steps-IsStuck r done k = k
    Steps-IsStuck r (further p st) k =
        Step-IsStuck st (Reachable-IsSound Crate lower (Steps-Reachable r p)) (Steps-IsStuck r p k)

    -- A job that was running when its process ended stays in the table as it was, running, through
    -- any further steps: no claim, no other job's outcome and no further restart takes it back.
    pub restart_leaves_running :
        {s s' s'' : System J}
        → Reachable Crate lower s
        → In job s.state.queue.rows
        → job.status ≡ running
        → record { state = record s.state { coordinator = new_coordinator }; held = none } ≡ s'
        → Steps s' s''
        → In job s''.state.queue.rows
    restart_leaves_running {s} {s'} {s''} r m q e p =
        let stopped : System J = record {
          state = record s.state { coordinator = new_coordinator };
          held = none;
        } in
        let stuck : IsStuck stopped = record { present = m; status = q; unheld = λ held x. cc } in
        (Steps-IsStuck (next r (restarted e)) p (subst IsStuck e stuck)).present
