-- ===== src/Jobs/Worker.antt =====
-- One turn of `run_refresh_worker`, crates/rust-mcp/src/mcp/indexing/worker.rs: the job that was
-- claimed is dispatched by its scope, and its outcome is written to the queue and told to those who
-- wait. The handlers that fetch data are the parameter `Handlers`, the statements that fail are told
-- by `Faults`, and gauges, counters and logging are left out.
pub mod Settled
pub mod Sound
pub mod Stuck
use rust_mcp.Prelude.{
  ℕ, ◌+◌, ◌-◌, ◌*◌, ◌%◌, ◌^◌, Bool, true, false, not, ◌||◌, List, [], ◌∷◌, ◌++◌, Option, none, some,
  leb, if◌then◌else◌, is_empty, unwrap_or, Result, ok, err, ◌>>=◌, any,
}
use rust_mcp.Limits.{sync_page, sync_per_page}
use rust_mcp.Text.{Text, codes, text_eq}
use rust_mcp.Text.Pieces.{join}
use rust_mcp.Jobs.Table.{RefreshJob, Jobs}
use rust_mcp.Jobs.Queue.{
  JobRequest, enqueue_or_get_refresh_job_id, claim_next_refresh_job, mark_refresh_job_finished,
  mark_refresh_job_failed_or_requeued,
}
use rust_mcp.Jobs.Retry.{max_attempts, optional_job_crate_name, jittered_retry_delay_seconds}
use rust_mcp.Jobs.Coordinator.{
  JobOutcome, completed, failed, IndexingCoordinator, signal_completion,
}

pub record RefreshJobPayload : Type 0 where
  pub crate_name : Option Text
  pub query : Option Text
  pub page : Option ℕ
  pub per_page : Option ℕ
  pub local_versions : Option (List Text)
  pub locally_present_only : Option Bool

abbrev pub default_payload : RefreshJobPayload
default_payload = record {
  crate_name = none;
  query = none;
  page = none;
  per_page = none;
  local_versions = none;
  locally_present_only = none;
}

-- What the worker calls to refresh data, serde's reading of a payload, the versions in the cargo
-- registry, and the payload of an enrichment job. A success carries nothing here.
pub record Handlers (J Crate : Type 0) : Type 0 where
  pub read_payload : J → Option RefreshJobPayload
  pub sync_single_crate : Text → Bool → Result Text (Unit {0})
  pub fetch_security_crates_page : ℕ → ℕ → Result Text (List Crate)
  pub sync_security_crates : List Crate → List Text
  pub sync_docs_pages : Option Text → Option ℕ → Option ℕ → Result Text (Unit {0})
  pub sync_local_source_cache :
      Option Text → Option Text → Option ℕ → Option ℕ → Bool → Result Text (Unit {0})
  pub sync_rustdoc_json_cache : Option Text → Bool → Option ℕ → Option ℕ → Result Text (Unit {0})
  pub collect_local_versions_for_crate : Text → List Text
  pub enrichment : J

-- The statements that the database refuses in this turn.
pub record Faults : Type 0 where
  pub finish : Bool
  pub fail_or_requeue : Bool
  pub crate_error : Bool
  pub enrich : Text → Bool

-- What the worker asks to be written besides the queue.
pub data Effect : Type 0 where
  query_cache_deleted : Text → Effect
  versions_marked_present : Text → List Text → Effect
  crate_refresh_error : Text → Text → Effect

pub record WorkerState (J : Type 0) : Type 0 where
  pub queue : Jobs J
  pub coordinator : IndexingCoordinator
  pub effects : List Effect

abbrev scope_is : Text → List Text → Bool
unfolding text_eq
scope_is scope names = any (text_eq scope) names

-- The scopes whose jobs refresh a crate's metadata.
unfoldable pub is_crate_scope : Text → Bool
unfolding text_eq
is_crate_scope scope =
    scope_is scope (codes "crate" ∷ codes "crate_deep_refresh" ∷ codes "all" ∷ [])

abbrev all_or_errors : List Text → Result Text (Unit {0})
all_or_errors [] = ok tt
all_or_errors (e ∷ es) = err (join (codes "; ") (e ∷ es))

abbrev with_context : {A : Type 0} → Text → Result Text A → Result Text A
with_context context (ok a) = ok a
with_context context (err e) = err (context ++ e)

module _ {J Crate : Type 0} (h : Handlers J Crate) where
  payload_of : RefreshJob J → RefreshJobPayload
  payload_of job = unwrap_or default_payload (h.read_payload job.payload)

  sync_security : RefreshJobPayload → Result Text (Unit {0})
  unfolding sync_page sync_per_page
  sync_security payload =
      let per_page = sync_per_page payload.per_page in
      let offset = (sync_page payload.page - 1) * per_page % 2 ^ 32 in
      with_context (codes "failed to load crates for security refresh: ")
        (h.fetch_security_crates_page per_page offset)
      >>= λ crates. all_or_errors (h.sync_security_crates crates)

  -- The `match` on the job's scope.
  unfoldable pub dispatch : RefreshJob J → Result Text (Unit {0})
  unfolding payload_of sync_security is_crate_scope optional_job_crate_name text_eq
  dispatch job =
      let payload = payload_of job in
      let crate_name = optional_job_crate_name job.crate_name payload.crate_name in
      let locally_present_only = unwrap_or false payload.locally_present_only in
      if is_crate_scope job.scope
      then h.sync_single_crate job.crate_name job.include_dependencies
      else if text_eq job.scope (codes "security")
      then sync_security payload
      else if text_eq job.scope (codes "docs")
      then h.sync_docs_pages crate_name payload.page payload.per_page
      else if text_eq job.scope (codes "local_cache")
      then h.sync_local_source_cache crate_name payload.query payload.page payload.per_page
          locally_present_only
      else if text_eq job.scope (codes "rustdoc_json")
      then h.sync_rustdoc_json_cache crate_name locally_present_only payload.page payload.per_page
      else err (
          codes "unsupported refresh scope '"
          ++ (job.scope ++ (codes "' for crate '" ++ (job.crate_name ++ codes "'"))))

  module _ (lower : Text → Text) (faults : Faults) (now : ℕ) where
    -- One of the two follow-up jobs; `PRIORITY_PROACTIVE_ENRICH` is 75.
    unfoldable pub enqueue_enrichment : Text → Text → Jobs J → Jobs J
    enqueue_enrichment crate_name scope q =
        let q' =
          (enqueue_or_get_refresh_job_id lower now
            (record {
              crate_name = crate_name;
              scope = scope;
              priority = 75;
              include_dependencies = false;
              payload = h.enrichment;
            })
            q).0 in
        if faults.enrich scope then q else q'

    -- The versions that the payload names, or else those of the cargo registry.
    local_versions : RefreshJob J → List Text
    unfolding payload_of
    local_versions job =
        let named = unwrap_or [] (payload_of job).local_versions in
        if is_empty named then h.collect_local_versions_for_crate job.crate_name else named

    invalidate : Option Text → List Effect → List Effect
    invalidate none effects = effects
    invalidate (some name) effects = effects ++ (query_cache_deleted name ∷ [])

    unfoldable pub complete : RefreshJob J → WorkerState J → WorkerState J
    unfolding invalidate local_versions enqueue_enrichment is_crate_scope optional_job_crate_name
    complete job s =
        let finished =
          if faults.finish then s.queue else mark_refresh_job_finished now job.id s.queue in
        let enriched =
          enqueue_enrichment job.crate_name (codes "rustdoc_json")
            (enqueue_enrichment job.crate_name (codes "local_cache") finished) in
        let invalidated = invalidate (optional_job_crate_name job.crate_name none) s.effects in
        let marked =
          invalidated ++ (versions_marked_present job.crate_name (local_versions job) ∷ []) in
        record {
          queue = if is_crate_scope job.scope then enriched else finished;
          coordinator = signal_completion job.id completed s.coordinator;
          effects = if is_crate_scope job.scope then marked else invalidated;
        }

    unfoldable pub give_up_or_retry : ℕ → RefreshJob J → Text → WorkerState J → WorkerState J
    give_up_or_retry now_nanos job error s =
        let terminal = leb max_attempts job.attempts in
        let delay = jittered_retry_delay_seconds now_nanos job.id job.attempts in
        record {
          queue =
              if faults.fail_or_requeue
              then s.queue
              else mark_refresh_job_failed_or_requeued now job.id terminal delay error s.queue;
          coordinator = signal_completion job.id (failed error) s.coordinator;
          effects =
              if faults.crate_error
              then s.effects
              else s.effects ++ (crate_refresh_error job.crate_name error ∷ []);
        }

    settle : ℕ → RefreshJob J → Result Text (Unit {0}) → WorkerState J → WorkerState J
    unfolding complete give_up_or_retry
    settle now_nanos job (ok x) s = complete job s
    settle now_nanos job (err error) s = give_up_or_retry now_nanos job error s

    -- The turn from the dispatch on.
    unfoldable pub process : ℕ → RefreshJob J → WorkerState J → WorkerState J
    unfolding settle dispatch
    process now_nanos job s = settle now_nanos job (dispatch job) s
