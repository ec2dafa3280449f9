-- ===== src/Jobs/Run.antt =====
-- The life of an accepted job (internal/jobs/manager.go, `Cancel`, `run`, `runTaskPhase`; one function for each part of `run`
-- that holds the manager's lock, since other calls may come in between).
pub mod System
pub mod Begin
pub mod Change
pub mod Channels
pub mod Finish
pub mod Life
pub mod Absorb
pub mod Keep
pub mod Retire
pub mod Updates
use provisioning_station.Base.{
  Bool, Failure, List, Option, Text, [], codes, erase, false, if◌then◌else◌, insert, lookup, none,
  some, text_eq, text_key, true, ℕ, ◌++◌, ◌||◌, ◌∷◌,
}
use provisioning_station.Jobs.Events.{close_subscribers, emit, emit_locked}
use provisioning_station.Jobs.Model.{
  Job, Request, SerialCapture, SerialConsoleRequest, State, bounded_text, canceled, failed, queued,
  running, succeeded, terminal,
}
use provisioning_station.Jobs.Persist.{persist_locked}
use provisioning_station.Jobs.State.{Host, Manager, find_job, put_job, with_job}
use provisioning_station.Tasks.Plan.{Phase, on_cancel, on_failure, on_success}
use provisioning_station.Tasks.Run.{Outcome}

-- `runContext.Err() != nil`: the run or the whole station is canceled.
unfoldable pub run_canceled : Manager → Text → Bool
run_canceled m id = m.stopped || elim (lookup id m.cancellers) [ none ↦ false | some c ↦ c ]

abbrev pub context_canceled : Failure
context_canceled = record {
  message = codes "context canceled";
  is_canceled = true;
  is_deadline = false;
}

-- Emit and publish, as every part ends; the result of the publication is not looked at.
unfoldable pub announce : Host → ℕ → Option Failure → Manager → Job → Text → Text → Manager
announce h now io m job level message =
    let (m₁, job₁) = emit_locked h now m job level message in (persist_locked h io m₁ job₁).0

-- `Cancel`: a finished job is left alone, a running one is told, a waiting one ends.
unfoldable pub cancel : Host → ℕ → Option Failure → Manager → Text → Manager
cancel h now io m id = elim (find_job m id) [
  | none ↦ m
  | some job ↦ if terminal job.state then m else elim (lookup id m.cancellers) [
    | some c ↦ record m { cancellers = insert id true m.cancellers }
    | none ↦
        let ended = record job { state = canceled; finished = some now } in
        announce h now io (put_job m ended) ended (codes "warning")
          (codes "Job canceled before execution")
  ]
]

abbrev pub is_queued : State → Bool
is_queued queued = true
is_queued _ = false

-- The first part of `run`; `none` where the job is gone or no longer waiting.
unfoldable pub start : Host → ℕ → Option Failure → Manager → Text → Option Manager
start h now io m id = elim (find_job m id) [
  | none ↦ none
  | some job ↦
      let begun = record job { state = running; started = some now } in
      if is_queued job.state
      then some (
          announce h now io (put_job (record m { cancellers = insert id false m.cancellers }) begun)
            begun (codes "info") (codes "Job started"))
      else none
]

-- A part that changes a job's data, and may emit and publish it.
unfoldable pub set_capture : Host → Option Failure → Manager → Text → SerialCapture → Manager
set_capture h io m id capture =
    with_job m id λ job. (persist_locked h io m (record job { serial_capture = some capture })).0

abbrev pub decided : Text → Option Failure → Job → Job
decided outcome none job = record job { deployment_outcome = outcome }
decided outcome (some f) job = record job {
  deployment_outcome = outcome;
  deployment_error = f.message;
}

unfoldable pub set_outcome :
    Host → Option Failure → Manager → Text → Text → Option Failure → Manager
set_outcome h io m id outcome err =
    with_job m id λ job. (persist_locked h io m (decided outcome err job)).0

-- The loop of `runTaskPhase` over the results so far: the same invocation's is replaced.
unfoldable pub put_result : Outcome → List Outcome → List Outcome
put_result o [] = o ∷ []
put_result o (x ∷ xs) = if text_eq x.id o.id then o ∷ xs else x ∷ put_result o xs

unfoldable pub observe : Host → ℕ → Option Failure → Manager → Text → Outcome → Text → Manager
observe h now io m id o message = with_job m id λ job.
    announce h now io m (record job { task_results = put_result o job.task_results }) (codes "info")
      message

unfoldable pub add_task_error : Host → ℕ → Manager → Text → Text → Manager
add_task_error h now m id message = with_job m id λ job.
    (emit_locked h now m (record job { task_errors = job.task_errors ++ message ∷ [] })
      (codes "error") message).0

abbrev pub final_run_error : Manager → Text → Option Failure → Option Failure
final_run_error m id err = if run_canceled m id then some context_canceled else err

-- Exactly one outcome phase is selected by the error of the deployment.
unfoldable pub select_phase : Option Failure → Phase × Text
select_phase none = (on_success, codes "succeeded")
select_phase (some f) =
    if f.is_canceled then (on_cancel, codes "canceled") else (on_failure, codes "failed")

-- The job as the last `switch` of `run` leaves it, with the level and text of its last event.
unfoldable pub finished_job : ℕ → Option Failure → Job → Job × Text × Text
finished_job now none job = (
  record job { finished = some now; state = succeeded },
  codes "info",
  codes "Job completed successfully",
)
finished_job now (some f) job =
    if f.is_canceled
    then (
      record job { finished = some now; state = canceled; error = codes "canceled" },
      codes "warning",
      codes "Job canceled",
    )
    else (
      record job { finished = some now; state = failed; error = bounded_text f.message 8192 },
      codes "error",
      codes "Job failed: " ++ f.message,
    )

-- The last part of `run`: a cancellation accepted before this one is honoured.
unfoldable pub finish : Host → ℕ → Option Failure → Manager → Text → Option Failure → Manager
finish h now io m id err =
    let result = final_run_error m id err in
    let m₁ = record m { cancellers = erase id m.cancellers } in
    elim (find_job m id) [
      | none ↦ m₁
      | some job ↦
          let (ended, level, message) = finished_job now result job in
          close_subscribers (announce h now io (put_job m₁ ended) ended level message) id
    ]

-- `Close`: the station's context and every run's are canceled.
unfoldable pub stop : Manager → Manager
stop m = record m { stopped = true }

-- What the environment does in the deployment of a job: the artifact store, the capture of the serial console
-- and the runner. `capture_started` is the capture's record and the text of its event.
pub record Deployment : Type 0 where
  pub load_error : Option Failure
  pub verify_error : Option Failure
  pub capture_error : Option Failure
  pub capture_started : Option (SerialCapture × Text)
  -- the runner's error, or that of the capture if it failed first
  pub run_error : Option Failure
  pub capture_stopped : SerialCapture
  pub stop_error : Option Failure

abbrev pub is_manual : Option SerialConsoleRequest → Bool
is_manual none = false
is_manual (some c) = text_eq c.selection (codes "manual")

abbrev pub warn_manual : Host → ℕ → Manager → Text → Request → Manager
warn_manual h now m id r =
    if is_manual r.serial_console
    then emit h now m id (codes "warning")
        (codes "Serial console was selected manually; JTAG-to-UART identity was not verified")
    else m

unfoldable pub begin_capture :
    Host → ℕ → Option Failure → Manager → Text → SerialCapture × Text → Manager
begin_capture h now io m id (capture, message) =
    with_job m id λ job.
      announce h now io m (record job { serial_capture = some capture }) (codes "info") message

-- The middle of `run` when nothing comes in between: the manager and `runErr`.
unfoldable pub deploy :
    Host → ℕ → Option Failure → Deployment → Manager → Text → Request → Manager × Option Failure
deploy h now io d m id r = elim d.load_error [
  | some f ↦ (m, some f)
  | none ↦ elim d.verify_error [
    | some f ↦ (m, some f)
    | none ↦
        let warned = warn_manual h now m id r in
        elim d.capture_error [
          | some f ↦ (warned, some f)
          | none ↦ elim d.capture_started [
            | none ↦ (warned, d.run_error)
            | some c ↦ (
              set_capture h io (begin_capture h now io warned id c) id d.capture_stopped,
              elim d.run_error [ some f ↦ some f | none ↦ d.stop_error ],
            )
          ]
        ]
  ]
]
