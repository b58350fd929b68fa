-- ===== src/Examples/Queue.antt =====
-- The job queue on concrete tables.
use rust_mcp.Prelude.{ℕ, ◌≡◌, refl, false, [], ◌∷◌, length, select}
use rust_mcp.Text.{Text, codes, to_lower}
use rust_mcp.Jobs.Table.{Jobs, select_first}
use rust_mcp.Order.Sort.{sort_by}
use rust_mcp.Jobs.Queue.{
  JobRequest, serves, find_active_job, insert_unless, new_row, enqueue_or_get_refresh_job_id,
}
use rust_mcp.Jobs.Queue.Enqueue.{enqueue_twice, enqueue_race}

abbrev request : Text → ℕ → JobRequest ℕ
request name priority = record {
  crate_name = name;
  scope = codes "crate";
  priority = priority;
  include_dependencies = false;
  payload = 0;
}

abbrev none_yet : Jobs ℕ
none_yet = record { rows = []; next_id = 1 }

abbrev two_jobs : Jobs ℕ
two_jobs = record {
  rows = new_row 10 1 (request (codes "serde") 50) ∷ new_row 20 2 (request (codes "tokio") 1) ∷ [];
  next_id = 3;
}

enqueue_twice_example :
    enqueue_or_get_refresh_job_id to_lower 40
      (request (codes "serde") 1)
      (enqueue_or_get_refresh_job_id to_lower 30 (request (codes "serde") 50) none_yet).0
    ≡ (
      (enqueue_or_get_refresh_job_id to_lower 30 (request (codes "serde") 50) none_yet).0,
      record {
        job_id =
            (enqueue_or_get_refresh_job_id to_lower 30
              (request (codes "serde") 50)
              none_yet).1.job_id;
        is_new = false;
      },
    )
enqueue_twice_example =
    enqueue_twice to_lower 30 40 (request (codes "serde") 50) (request (codes "serde") 1) none_yet
      refl refl

enqueue_race_example :
    let seen = find_active_job to_lower (codes "serde") (codes "crate") none_yet in
    let q' = (insert_unless seen 30 (request (codes "serde") 50) none_yet).0 in
    let q'' = (insert_unless seen 30 (request (codes "serde") 1) q').0 in
    length (select (serves to_lower (codes "serde") (codes "crate")) q''.rows) ≡ 2
enqueue_race_example =
    enqueue_race to_lower 30 (request (codes "serde") 50) (request (codes "serde") 1) none_yet refl
      refl (unfold find_active_job select_first sort_by in refl)
