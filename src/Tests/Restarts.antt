-- ===== src/Tests/Restarts.antt =====
-- A station that stopped while a job ran, and starts again.
use provisioning_station.Base.{
  [], codes, false, insert, lookup, none, refl, some, text_eq, text_key, true, ◌∷◌, ◌≡◌,
}
use provisioning_station.Jobs.Events.{append_event, emit_locked, mark_long}
use provisioning_station.Jobs.Load.{
  LoadEntry, a_record, add_loaded, bound_historical_output, bound_transcript, interrupt_job, load,
  load_bounded, load_content, load_entry, load_job, load_submission, republish, shorten_events,
  shorten_transcript, shortened, store_loaded, then_load, within_limit,
}
use provisioning_station.Jobs.Load.States.{FromRecord, load-FromRecord}
use provisioning_station.Jobs.Model.{Job, bounded_text, failed, is_request_id, running, terminal}
use provisioning_station.Jobs.Persist.{bound_job, persist_locked}
use provisioning_station.Jobs.State.{Manager, fingerprint}
use provisioning_station.Tests.Samples.{empty, host, job_id, request}

abbrev stopped_job : Job
stopped_job = record {
  artifact_available = true;
  events_truncated = false;
  task_results = [];
  deployment_error = [];
  deployment_outcome = [];
  task_errors = [];
  id = job_id;
  request = request;
  state = running;
  created = 1;
  started = some 2;
  finished = none;
  error = [];
  event_count = 3;
  serial_capture = none;
}

abbrev found_entry : LoadEntry
found_entry = record {
  id = job_id;
  is_directory = true;
  content = a_record stopped_job;
  removal_error = none;
  events_file = shortened;
  transcript_file = within_limit;
  republish_error = none;
  events = [];
  event_bytes = none;
  transcript_size = none;
  persist_error = none;
  now = 9;
}

abbrev budgeted : Manager
budgeted = record empty {
  budget = some (record { limit = 10000000; pins = []; consumption = []; reservations = [] });
}

abbrev restarted : Manager
restarted = (load host (found_entry ∷ []) budgeted).0

abbrev restarted_job : Job
restarted_job = record stopped_job {
  events_truncated = true;
  state = failed;
  finished = some 9;
  error = codes "station stopped before the job completed";
  event_count = 1;
}

restarted_found : lookup job_id restarted.jobs ≡ some restarted_job
unfolding load load_entry load_content load_job load_submission load_bounded bound_historical_output
    bound_transcript shorten_events shorten_transcript republish store_loaded add_loaded
    interrupt_job then_load emit_locked append_event mark_long persist_locked bound_job bounded_text
    is_request_id terminal lookup insert text_eq fingerprint
restarted_found = refl

load-FromRecord_example :
    FromRecord (found_entry ∷ []) restarted_job.id restarted_job.state restarted_job.request
    × (lookup restarted_job.request.request_id budgeted.expired ≡ none)
load-FromRecord_example =
    load-FromRecord host (found_entry ∷ []) budgeted job_id restarted_job refl restarted_found
