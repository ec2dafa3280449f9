-- ===== src/Jobs/Submit.antt =====
-- Admission of a job (internal/jobs/manager.go, `CreateSubmissionContext`, `createContext`, `Submission`).
pub mod Enter
pub mod Again
pub mod Once
pub mod Replay
use provisioning_station.Base.{
  Bool, Failure, List, Map, Option, Text, [], codes, contains, erase, fail_if, false, if◌then◌else◌,
  insert, is_empty, leb, length, lookup, ltb, none, not, some, text_eq, text_key, true, ℕ, ◌&&◌,
  ◌*◌, ◌++◌, ◌>>◌, ◌^◌, ◌||◌, ◌∷◌,
}
use provisioning_station.Base.Int.{is_zero}
use provisioning_station.Console.Ports.{valid_baud_rate}
use provisioning_station.Jobs.Events.{emit_locked}
use provisioning_station.Jobs.Model.{
  Job, Request, SerialConsoleRequest, clone_request, is_request_id, queued,
}
use provisioning_station.Jobs.Persist.{persist_locked}
use provisioning_station.Jobs.State.{
  Host, JobError, Manager, bad_baud_rate, bad_request_id, bad_selection, conflict,
  expired_submission, external, find_job, fingerprint, inspect_job, invalid_plan, no_artifact,
  no_console, no_port, not_found, output_reservation, put_job, queue_capacity, queue_full,
  shutting_down, too_large, too_many_tasks,
}
use provisioning_station.Tasks.Plan.{clone, invocations}
use provisioning_station.Tasks.Registry.{TaskError, validate}
use mathlib.Core.Option

-- What the environment does at one submission: the artifact store, the runner, the file system.
pub record Admission : Type 0 where
  pub now : ℕ
  -- `artifacts.Load`, `artifacts.Verify`, `runner.Validate`
  pub load_error : Option Failure
  pub verify_error : Option Failure
  pub runner_error : Option Failure
  -- `randomID`
  pub random_error : Option Failure
  pub random_id : Text
  pub mkdir_error : Option Failure
  pub publish_error : Option Failure
  -- the artifact can be loaded when the job is inspected
  pub available : Bool
  -- the station stops while the job is handed to the worker, and the queue does not get it
  pub dropped : Bool

-- `panics` where the code reads a job through a nil pointer: its identifier is registered, and no job
-- is there.
pub data Submitted : Type 0 where
  accepted replayed : Job → Submitted
  refused : JobError → Submitted
  panics : Submitted

unfoldable pub check_console : Manager → Option SerialConsoleRequest → Option JobError
check_console m none = none
check_console m (some c) =
    fail_if (not m.console) no_console
    >> fail_if (is_empty c.port_id) no_port
    >> fail_if
        (not (
          is_empty c.selection
          || text_eq c.selection (codes "matched")
          || text_eq c.selection (codes "manual")))
        bad_selection
    >> fail_if (not (is_zero c.baud_rate) && not (valid_baud_rate c.baud_rate)) bad_baud_rate

-- `json.MarshalIndent`, and the limit of 256 KiB on its length.
abbrev pub check_size : Option ℕ → Option JobError
check_size none = some too_large
check_size (some n) = fail_if (ltb (256 * 2 ^ 10) n) too_large

abbrev pub failed_call : Option Failure → Option JobError
failed_call = Option.map external

abbrev pub as_plan_error : Option TaskError → Option JobError
as_plan_error = Option.map invalid_plan

-- The checks of `createContext` on the request, in its order. The queue is checked before the plan.
unfoldable pub check_contents : Host → Admission → Manager → Request → Option JobError
check_contents h a m r =
    check_size (h.indented r)
    >> fail_if (ltb 128 (length (invocations r.deployment_tasks))) too_many_tasks
    >> fail_if (leb queue_capacity (length m.queue)) queue_full
    >> as_plan_error (validate h.numbers m.registry (clone r.deployment_tasks))
    >> fail_if (is_empty r.artifact_id) no_artifact
    >> check_console m r.serial_console
    >> failed_call a.load_error
    >> failed_call a.verify_error
    >> failed_call a.runner_error

-- The new identifier and its directory; `os.Mkdir` fails where the directory is there already.
unfoldable pub check_directory : Admission → Manager → Option JobError
check_directory a m =
    failed_call a.random_error
    >> failed_call a.mkdir_error
    >> fail_if (contains m.directories a.random_id) (conflict a.random_id)

unfoldable pub check_request : Host → Admission → Manager → Request → Option JobError
check_request h a m r = check_contents h a m r >> check_directory a m

abbrev pub new_job : Admission → Request → Job
new_job a r = record {
  artifact_available = false;
  events_truncated = false;
  task_results = [];
  deployment_error = [];
  deployment_outcome = [];
  task_errors = [];
  id = a.random_id;
  request = clone_request r;
  state = queued;
  created = a.now;
  started = none;
  finished = none;
  error = [];
  event_count = 0;
  serial_capture = none;
}

abbrev pub register : Request → Text → Map Text Text → Map Text Text
register r id subs = if is_empty r.request_id then subs else insert r.request_id id subs

-- A job that cannot be published is taken back, and no later submission is admitted.
unfoldable pub settle : Admission → Request → Manager × Job × Option JobError → Manager × Submitted
settle a r (m, job, some e) = (
  record m {
    jobs = erase job.id m.jobs;
    events = erase job.id m.events;
    admission_error = some (record {
      message = codes "job persistence failed; restart and inspect the station before submitting";
      is_canceled = false;
      is_deadline = false;
    });
  },
  refused e,
)
settle a r (m, job, none) = (
  record m {
    submissions = register r job.id m.submissions;
    queue = if a.dropped then m.queue else m.queue ++ job.id ∷ [];
  },
  accepted (inspect_job a.available job),
)

-- From the new directory on: queue, emit, publish, register, hand over.
unfoldable pub enter : Host → Admission → Manager → Request → Manager × Submitted
enter h a m r =
    let job = new_job a r in
    let m₁ =
      put_job
        (record m {
          directories = a.random_id ∷ m.directories;
          events = insert a.random_id [] m.events;
        })
        job in
    let (m₂, job₂) = emit_locked h a.now m₁ job (codes "info") (codes "Job queued") in
    settle a r (persist_locked h a.publish_error m₂ job₂)

unfoldable pub create_context : Host → Admission → Manager → Request → Manager × Submitted
create_context h a m r = elim (check_request h a m r) [
  | some e ↦ (m, refused e)
  | none ↦ enter h a m r
]

-- The answer to a request whose identifier is known: it is never entered again.
unfoldable pub replay : Host → Admission → Manager → Request → Text → Submitted
replay h a m r id = elim (find_job m id) [
  | none ↦ panics
  | some job ↦
      let original = inspect_job a.available job in
      if text_eq (h.marshal original.request) (h.marshal r)
      then replayed original
      else refused (conflict r.request_id)
]

-- The lookup under `mutex` of a nonempty identifier, tombstones first; `none` goes on to admission.
unfoldable pub known_submission : Host → Admission → Manager → Request → Option Submitted
known_submission h a m r =
    if is_empty r.request_id then none else elim (lookup r.request_id m.expired) [
      | some t ↦ some (
          refused (
            if text_eq t.fingerprint (fingerprint h r)
            then expired_submission t.job_id
            else conflict r.request_id))
      | none ↦ Option.map (replay h a m r) (lookup r.request_id m.submissions)
    ]

-- The storage gate makes room (`EnsureLocked`), which may prune finished jobs.
abbrev pub Ensure : Type 0
Ensure = ℕ → Manager → Manager × Option JobError

-- The artifact is pinned while room is made and the job is created.
abbrev pub pin : Text → Manager → Manager
pin id m = elim m.budget [
  | none ↦ m
  | some g ↦ record m { budget = some (record g { pins = insert id true g.pins }) }
]

abbrev pub unpin : Text → Manager → Manager
unpin id m = elim m.budget [
  | none ↦ m
  | some g ↦ record m { budget = some (record g { pins = erase id g.pins }) }
]

-- The three output files of a job, under the manager's root.
abbrev pub output_paths : Text → List Text
output_paths id =
    (id ++ codes "/job.json")
    ∷ (id ++ codes "/events.jsonl")
    ∷ (id ++ codes "/serial-console.bin")
    ∷ []

abbrev pub reserve : Text → Manager → Manager
reserve id m = elim m.budget [
  | none ↦ m
  | some g ↦ record m {
    budget = some (record g {
      reservations = insert id (output_reservation m) g.reservations;
      consumption = insert id (output_paths id) g.consumption;
    });
  }
]

abbrev pub reserve_accepted : Manager × Submitted → Manager × Submitted
reserve_accepted (m, accepted job) = (reserve job.id m, accepted job)
reserve_accepted (m, replayed job) = (m, replayed job)
reserve_accepted (m, refused e) = (m, refused e)
reserve_accepted (m, panics) = (m, panics)

unfoldable pub admit : Host → Ensure → Admission → Manager → Request → Manager × Submitted
admit h ensure a m r = elim m.budget [
  | none ↦ create_context h a m r
  | some g ↦
      let (m₁, full) = ensure (output_reservation m) (pin r.artifact_id m) in
      let entered : Manager × Submitted = elim full [
        | some e ↦ (m₁, refused e)
        | none ↦ reserve_accepted (create_context h a m₁ r)
      ] in
      let (m₂, result) = entered in (unpin r.artifact_id m₂, result)
]

-- `CreateSubmissionContext`: the malformed, the failed station, the known, the stopping, the new.
unfoldable pub create_submission :
    Host → Ensure → Admission → Manager → Request → Manager × Submitted
create_submission h ensure a m request =
    let r = clone_request request in
    if not (is_empty r.request_id) && not (is_request_id r.request_id)
    then (m, refused bad_request_id)
    else elim m.admission_error [
      | some f ↦ (m, refused (external f))
      | none ↦ elim (known_submission h a m r) [
        | some answer ↦ (m, answer)
        | none ↦ if m.stopped then (m, refused shutting_down) else admit h ensure a m r
      ]
    ]

-- `Submission`: the job of an identifier, if it is known and not expired.
unfoldable pub submission : Bool → Manager → Text → Submitted
submission available m id =
    if not (is_request_id id) then refused bad_request_id else elim (lookup id m.expired) [
      | some t ↦ refused (expired_submission t.job_id)
      | none ↦ elim (lookup id m.submissions) [
        | none ↦ refused (not_found id)
        | some jid ↦ elim (find_job m jid) [
          | none ↦ panics
          | some job ↦ replayed (inspect_job available job)
        ]
      ]
    ]
