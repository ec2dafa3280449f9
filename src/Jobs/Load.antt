-- ===== src/Jobs/Load.antt =====
-- Loading the published jobs after a start (internal/jobs/manager.go, `load`).
pub mod Bounded
pub mod States
use provisioning_station.Base.{
  Bool, Failure, List, Map, Option, Text, [], codes, false, if◌then◌else◌, insert, is_empty,
  is_some, lookup, ltb, map, none, not, some, text_eq, text_key, true, ℕ, ◌&&◌, ◌==◌, ◌||◌, ◌∷◌,
}
use provisioning_station.Jobs.Events.{emit_locked}
use provisioning_station.Jobs.Model.{
  CaptureState, Event, Job, SerialCapture, State, capturing, is_request_id, queued,
}
use provisioning_station.Jobs.Persist.{persist_locked}
use provisioning_station.Jobs.State.{Host, JobError, Manager, fingerprint, put_job}
use provisioning_station.Tasks.Run.{Outcome, TaskState, interrupted}
use mathlib.Core.Option

-- What `job.json` of a directory holds.
pub data RecordFile : Type 0 where
  not_published : RecordFile
  unreadable_record : Failure → RecordFile
  invalid_record : RecordFile
  a_record : Job → RecordFile

-- An output file of a job at the start: no longer than its limit, shortened, or not.
pub data OutputFile : Type 0 where
  within_limit shortened : OutputFile
  not_shortened : Failure → OutputFile

-- An entry of the job store, with what `boundHistoricalOutput` and `loadEvents` find for it.
pub record LoadEntry : Type 0 where
  pub id : Text
  pub is_directory : Bool
  pub content : RecordFile
  pub removal_error : Option Failure
  pub events_file : OutputFile
  pub transcript_file : OutputFile
  -- the file operations of `persistLocked` in `boundHistoricalOutput`
  pub republish_error : Option Failure
  pub events : List Event
  pub event_bytes : Option ℕ
  pub transcript_size : Option ℕ
  pub persist_error : Option Failure
  pub now : ℕ

pub data LoadError : Type 0 where
  unreadable_job : Failure → LoadError
  invalid_job wrong_tombstone bad_job_request_id duplicate_request_id : LoadError
  not_persisted : JobError → LoadError

abbrev pub highest : List Event → ℕ
highest [] = 0
highest (e ∷ es) = let rest = highest es in if ltb rest e.sequence then e.sequence else rest

-- A task that ran when the station stopped.
unfoldable pub interrupt_task : ℕ → Outcome → Outcome
interrupt_task now o = elim o.state [
  | TaskState.running ↦ record o {
    state = interrupted;
    finished = some now;
    error = codes "station stopped during task execution";
  }
  | _ ↦ o
]

abbrev pub grown : Option ℕ → SerialCapture → SerialCapture
grown none c = c
grown (some n) c = record c {
  retained_bytes = n;
  received_bytes = if ltb c.received_bytes n then n else c.received_bytes;
}

unfoldable pub interrupt_capture : ℕ → Option ℕ → SerialCapture → SerialCapture
interrupt_capture now size c = elim c.state [
  | capturing ↦ grown size (record c { state = CaptureState.failed; finished = some now })
  | _ ↦ c
]

-- A job that had not ended when the station stopped.
unfoldable pub interrupt_job : ℕ → Option ℕ → Job → Job
interrupt_job now size job = record job {
  state = State.failed;
  finished = some now;
  error = codes "station stopped before the job completed";
  task_results = map (interrupt_task now) job.task_results;
  serial_capture = Option.map (interrupt_capture now size) job.serial_capture;
}

-- The job with what was found of its output.
abbrev pub with_history : LoadEntry → Job → Job
with_history e job = record job { event_count = highest e.events }

-- A part of `boundHistoricalOutput`: the job, whether it changed, and the error.
abbrev pub Shortened : Type 0
Shortened = Job × Bool × Option Failure

unfoldable pub shorten_events : LoadEntry → Job → Shortened
shorten_events e job = elim e.events_file [
  | within_limit ↦ (job, false, none)
  | shortened ↦ (record job { events_truncated = true }, true, none)
  | not_shortened f ↦ (job, false, some f)
]

abbrev pub shorter_capture : ℕ → SerialCapture → SerialCapture
shorter_capture limit c = record c { truncated = true; retained_bytes = limit }

unfoldable pub shorten_transcript : ℕ → LoadEntry → Job → Shortened
shorten_transcript limit e job = elim job.serial_capture [
  | none ↦ (job, false, none)
  | some c ↦ if limit == 0 then (job, false, none) else elim e.transcript_file [
    | within_limit ↦ (job, false, none)
    | shortened ↦ (record job { serial_capture = some (shorter_capture limit c) }, true, none)
    | not_shortened f ↦ (job, false, some f)
  ]
]

-- `persistLocked` of a job that is not yet among the jobs.
unfoldable pub republish : Host → LoadEntry → Manager → Job → Manager × Job × Option LoadError
republish h e m job =
    let (m₁, bounded, problem) = persist_locked h e.republish_error m job in
    (record m { records = m₁.records }, bounded, Option.map not_persisted problem)

unfoldable pub bound_transcript :
    Host → LoadEntry → Manager → Shortened → Manager × Job × Option LoadError
bound_transcript h e m (job, changed, some f) = (m, job, some (unreadable_job f))
bound_transcript h e m (job, changed, none) =
    let (job₁, changed₁, problem) = shorten_transcript m.max_console_log_bytes e job in
    elim problem [
      | some f ↦ (m, job₁, some (unreadable_job f))
      | none ↦ if changed || changed₁ then republish h e m job₁ else (m, job₁, none)
    ]

-- `boundHistoricalOutput`.
unfoldable pub bound_historical_output :
    Host → LoadEntry → Manager → Job → Manager × Job × Option LoadError
bound_historical_output h e m job =
    if is_some m.budget then bound_transcript h e m (shorten_events e job) else (m, job, none)

abbrev pub with_bytes : LoadEntry → Map Text ℕ → Map Text ℕ
with_bytes e sizes = elim e.event_bytes [ none ↦ sizes | some n ↦ insert e.id n sizes ]

unfoldable pub add_loaded : LoadEntry → Job → Manager → Manager
add_loaded e job m = record (put_job m job) {
  events = insert e.id e.events m.events;
  event_bytes = with_bytes e m.event_bytes;
}

abbrev pub persisted : Manager × Job × Option JobError → Manager × Option LoadError
persisted (m, job, problem) = (m, Option.map not_persisted problem)

-- `State == StateQueued || State == StateRunning`.
abbrev pub unfinished : State → Bool
unfinished queued = true
unfinished State.running = true
unfinished _ = false

-- A job that waited or ran is stored as failed.
unfoldable pub store_loaded : Host → LoadEntry → Job → Manager → Manager × Option LoadError
store_loaded h e job m =
    let m₁ = add_loaded e job m in
    let ended = interrupt_job e.now e.transcript_size job in
    let told = emit_locked h e.now m₁ ended (codes "error") ended.error in
    if unfinished job.state
    then persisted (persist_locked h e.persist_error told.0 told.1)
    else (m₁, none)

unfoldable pub load_bounded : Host → LoadEntry → Job → Manager → Manager × Option LoadError
load_bounded h e job m =
    let (m₁, bounded, problem) = bound_historical_output h e m job in
    elim problem [ some p ↦ (m₁, some p) | none ↦ store_loaded h e (with_history e bounded) m₁ ]

-- The submission of a job without a tombstone.
unfoldable pub load_submission : Host → LoadEntry → Job → Manager → Manager × Option LoadError
load_submission h e job m =
    if is_empty job.request.request_id
    then load_bounded h e job m
    else if not (is_request_id job.request.request_id)
    then (m, some bad_job_request_id)
    else if is_some (lookup job.request.request_id m.submissions)
    then (m, some duplicate_request_id)
    else load_bounded h e job
        (record m { submissions = insert job.request.request_id e.id m.submissions })

-- A job whose submission has expired is removed, not loaded.
unfoldable pub load_job : Host → LoadEntry → Job → Manager → Manager × Option LoadError
load_job h e job m = elim (lookup job.request.request_id m.expired) [
  | some t ↦
      if text_eq t.job_id e.id && text_eq t.fingerprint (fingerprint h job.request)
      then (m, Option.map unreadable_job e.removal_error)
      else (m, some wrong_tombstone)
  | none ↦ load_submission h e job m
]

unfoldable pub load_content : Host → LoadEntry → RecordFile → Manager → Manager × Option LoadError
load_content h e not_published m = (m, none)
load_content h e (unreadable_record f) m = (m, some (unreadable_job f))
load_content h e invalid_record m = (m, some invalid_job)
load_content h e (a_record job) m =
    if text_eq job.id e.id then load_job h e job m else (m, some invalid_job)

unfoldable pub load_entry : Host → LoadEntry → Manager → Manager × Option LoadError
load_entry h e m = if e.is_directory then load_content h e e.content m else (m, none)

unfoldable pub then_load :
    (Manager → Manager × Option LoadError) → Manager × Option LoadError → Manager × Option LoadError
then_load after (m, some e) = (m, some e)
then_load after (m, none) = after m

-- `load`.
unfoldable pub load : Host → List LoadEntry → Manager → Manager × Option LoadError
load h [] m = (m, none)
load h (e ∷ es) m = then_load (load h es) (load_entry h e m)
