-- ===== src/Jobs/Persist.antt =====
-- Publishing a job's record (internal/jobs/manager.go, `persistLocked`).
use provisioning_station.Base.{
  Failure, Option, if◌then◌else◌, insert, is_some, ltb, map, none, some, take, text_key, ◌&&◌, ◌+◌,
  ◌/◌,
}
use provisioning_station.Jobs.Model.{Job, bounded_text}
use provisioning_station.Jobs.State.{
  Host, JobError, Manager, external, metadata_reserve, put_job, record_too_large,
}

-- The bounds that `persistLocked` puts on the texts of the job itself.
unfoldable pub bound_job : Job → Job
bound_job job = record job {
  error = bounded_text job.error 2048;
  deployment_error = bounded_text job.deployment_error 2048;
  task_errors = map (λ t. bounded_text t 2048) (take 16 job.task_errors);
}

-- `io` is the first error of the file operations; a published record replaces the last one whole.
unfoldable pub persist_locked :
    Host → Option Failure → Manager → Job → Manager × Job × Option JobError
persist_locked h io m job =
    let bounded = bound_job job in
    let m₁ = put_job m bounded in
    if is_some m.budget && ltb (metadata_reserve / 2) (h.record_length bounded + 1)
    then (m₁, bounded, some record_too_large)
    else elim io [
      | some f ↦ (m₁, bounded, some (external f))
      | none ↦ (record m₁ { records = insert bounded.id bounded m₁.records }, bounded, none)
    ]
