-- ===== src/Tests/Submissions.antt =====
-- One request, accepted and sent again.
use provisioning_station.Base.{
  [], codes, contains, erase, insert, lookup, none, refl, some, text_eq, text_key, true, ◌∷◌, ◌≡◌,
}
use provisioning_station.Jobs.Events.{append_event, deliver, emit_locked, mark_long}
use provisioning_station.Jobs.Model.{
  Job, bounded_text, clone_job, clone_request, is_request_id, terminal,
}
use provisioning_station.Jobs.Persist.{bound_job, persist_locked}
use provisioning_station.Jobs.State.{Manager, inspect_job, output_reservation}
use provisioning_station.Jobs.Submit.{
  Submitted, accepted, admit, check_console, check_contents, check_directory, check_request,
  create_context, create_submission, enter, known_submission, new_job, replayed, settle,
}
use provisioning_station.Jobs.Submit.Once.{accepted_once}
use provisioning_station.Retention.Cleaning.{
  after_write, cleanup, cleanup_listed, cleanup_with, evict, evict_after, evict_one, evict_sized,
  evict_with, on_answer, prune_jobs, remove_artifact, then_clean,
}
use provisioning_station.Retention.Gate.{
  GateEnv, after_reclaim, ensure_budget, ensure_with, look_again, station_ensure,
}
use provisioning_station.Retention.Guarded.{Linked}
use provisioning_station.Retention.Model.{
  completed_jobs, insert_artifact, jobs_after, sort_artifacts, sort_jobs,
}
use provisioning_station.Storage.{consume, has_room, reserved_paths, scan, status_locked, total}
use provisioning_station.Tasks.Plan.{clone, invocations, phase}
use provisioning_station.Tasks.Registry.{validate}
use provisioning_station.Tests.Cleanups.{quiet}
use provisioning_station.Tests.Samples.{admission, empty, host, job_id, request, request_id}
use provisioning_station.Xsdb.Arguments.{given}

-- A store with room for 10 MB, which a file of 9 MB fills until the cleanup.
abbrev stocked : Manager
stocked = record empty {
  budget = some (record { limit = 10000000; pins = []; consumption = []; reservations = [] });
}

abbrev tight : GateEnv
tight = record {
  first_walk = record {
    files = record { path = codes "old"; size = 9000000; is_regular = true } ∷ [];
    error = none;
  };
  reclaim = quiet;
  second_walk = record { files = []; error = none };
}

abbrev first : Manager × Submitted
first = create_submission host (station_ensure host tight) admission stocked request

stocked-Linked : Linked stocked
unfolding jobs_after
stocked-Linked j there given = elim there [ ]

abbrev answer : Job
answer = record (new_job admission request) { artifact_available = true; event_count = 1 }

first_accepted : first ≡ (first.0, accepted answer)
unfolding station_ensure ensure_budget consume ensure_with after_reclaim look_again has_room
    status_locked scan total reserved_paths cleanup cleanup_listed cleanup_with evict_with
    evict_after prune_jobs on_answer then_clean after_write evict evict_one evict_sized
    remove_artifact completed_jobs sort_jobs jobs_after sort_artifacts insert_artifact
    output_reservation erase create_submission known_submission admit create_context check_request
    check_contents check_directory enter settle emit_locked append_event mark_long bounded_text
    deliver persist_locked bound_job clone_request clone invocations phase validate inspect_job
    clone_job lookup insert text_eq contains is_request_id check_console terminal
first_accepted = refl

queued_once : first.0.queue ≡ job_id ∷ []
unfolding station_ensure ensure_budget consume ensure_with after_reclaim look_again has_room
    status_locked scan total reserved_paths cleanup cleanup_listed cleanup_with evict_with
    evict_after prune_jobs on_answer then_clean after_write evict evict_one evict_sized
    remove_artifact completed_jobs sort_jobs jobs_after sort_artifacts insert_artifact
    output_reservation erase create_submission known_submission admit create_context check_request
    check_contents check_directory enter settle emit_locked append_event mark_long bounded_text
    deliver persist_locked bound_job clone_request clone invocations phase validate inspect_job
    clone_job lookup insert text_eq contains is_request_id check_console terminal
queued_once = refl

valid_id : is_request_id request_id ≡ true
unfolding is_request_id
valid_id = refl

accepted_once_example :
    ((create_submission host (station_ensure host tight) admission first.0 request).0 ≡ first.0)
    × ((again : Job) × ((create_submission host
            (station_ensure host tight)
            admission
            first.0
            request).1
          ≡ replayed again)
        × (again.id ≡ job_id))
accepted_once_example =
    accepted_once host tight tight admission admission stocked request first.0 answer stocked-Linked
      valid_id first_accepted

abbrev first_job : Job
first_job = record (new_job admission request) { event_count = 1 }
