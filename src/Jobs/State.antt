-- ===== src/Jobs/State.antt =====
-- The manager's state (internal/jobs/manager.go, `Manager`; retention.go, `tombstone`), what it knows
-- of the disk, and what it calls.
use provisioning_station.Base.{
  Bool, Failure, List, Map, Option, Option-cases, Text, [], if◌then◌else◌, inl, inr, insert, lookup,
  none, some, text_key, ℕ, ◌*◌, ◌+◌, ◌^◌, ◌≡◌,
}
use provisioning_station.Jobs.Model.{Event, Job, Request, clone_job}
use provisioning_station.Tasks.Registry.{Registry, TaskError}
use provisioning_station.Tasks.Values.{Numbers}

pub record Tombstone : Type 0 where
  pub job_id : Text
  pub fingerprint : Text

-- A channel of `Subscribe`, with room for 256 events, and whether it is closed.
pub record Subscriber : Type 0 where
  pub id : ℕ
  pub buffer : List Event
  pub closed : Bool

-- The reservations of the storage gate that the manager keeps (internal/storagebudget/budget.go).
pub record Gate : Type 0 where
  pub limit : ℕ
  pub pins : Map Text Bool
  pub consumption : Map Text (List Text)
  pub reservations : Map Text ℕ

pub record Manager : Type 0 where
  -- nil where storage retention is not configured
  pub budget : Option Gate
  pub expired : Map Text Tombstone
  pub event_bytes : Map Text ℕ
  pub registry : Registry
  -- `manager.console != nil`
  pub console : Bool
  pub max_console_log_bytes : ℕ
  -- `manager.context.Err() != nil`
  pub stopped : Bool
  pub queue : List Text
  pub admission_error : Option Failure
  pub submissions : Map Text Text
  pub jobs : Map Text Job
  pub events : Map Text (List Event)
  pub subscribers : Map Text (List Subscriber)
  -- the context of each run, and whether it is canceled
  pub cancellers : Map Text Bool
  -- the job directories, and the published `job.json` files
  pub directories : List Text
  pub records : Map Text Job

pub data JobError : Type 0 where
  bad_request_id shutting_down too_large too_many_tasks queue_full no_artifact no_console no_port
        bad_selection bad_baud_rate record_too_large storage_full :
      JobError
  conflict expired_submission not_found : Text → JobError
  invalid_plan : TaskError → JobError
  external : Failure → JobError

-- What the manager computes by code outside the repository: `encoding/json`, SHA-256 and the
-- conversions of numbers. `indented` is the length of `MarshalIndent`, or its error.
pub record Host : Type 0 where
  pub numbers : Numbers
  pub marshal : Request → Text
  pub indented : Request → Option ℕ
  pub sha256_hex : Text → Text
  pub event_length : Event → ℕ
  pub record_length : Job → ℕ

unfoldable pub fingerprint : Host → Request → Text
fingerprint h r = h.sha256_hex (h.marshal r)

abbrev pub event_limit_bytes : ℕ
event_limit_bytes = 2 ^ 20

abbrev pub metadata_reserve : ℕ
metadata_reserve = 4 * 2 ^ 20

abbrev pub queue_capacity : ℕ
queue_capacity = 128

abbrev pub channel_capacity : ℕ
channel_capacity = 256

unfoldable pub output_reservation : Manager → ℕ
output_reservation m =
    event_limit_bytes + metadata_reserve + (if m.console then m.max_console_log_bytes else 0)

-- A Go map's zero value for a missing key.
abbrev pub or_zero : Option ℕ → ℕ
or_zero none = 0
or_zero (some n) = n

abbrev pub or_nil {ℓ} : {A : Type ℓ} → Option (List A) → List A
or_nil none = []
or_nil (some xs) = xs

-- `manager.jobs` holds pointers: what is written to a job is seen under its identifier.
abbrev pub put_job : Manager → Job → Manager
put_job m job = record m { jobs = insert job.id job m.jobs }

abbrev pub find_job : Manager → Text → Option Job
find_job m id = lookup id m.jobs

abbrev pub events_of : Manager → Text → List Event
events_of m id = or_nil (lookup id m.events)

abbrev pub subscribers_of : Manager → Text → List Subscriber
subscribers_of m id = or_nil (lookup id m.subscribers)

-- `inspectJob`: a copy, with the availability of its artifact at this time.
unfoldable pub inspect_job : Bool → Job → Job
inspect_job available job = record (clone_job job) { artifact_available = available }

-- `if job := manager.jobs[id]; job != nil { … }`: an unknown job is left alone.
unfoldable pub with_job : Manager → Text → (Job → Manager) → Manager
with_job m id change = elim (find_job m id) [ none ↦ m | some job ↦ change job ]

pub with_job_rule {ℓ} :
    (P : Manager → Type ℓ) (m : Manager) (id : Text) (change : Job → Manager)
    → P m
    → ((job : Job) → find_job m id ≡ some job → P (change job))
    → P (with_job m id change)
unfolding with_job
with_job_rule P m id change absent present = elim (Option-cases (find_job m id)) [
  | inl e ↦ rw (e, with_job) absent
  | inr (job, e) ↦ rw (e, with_job) (present job e)
]
