-- ===== src/Tests/Lives.antt =====
-- The lives of a job: created, started, canceled.
use provisioning_station.Base.{
  Option, contains, insert, lookup, none, refl, some, text_eq, text_key, ◌≡◌, ◌⊎◌,
}
use provisioning_station.Jobs.Events.{append_event, deliver, emit_locked, mark_long}
use provisioning_station.Jobs.Model.{
  Job, bounded_text, canceled, clone_job, clone_request, running, terminal,
}
use provisioning_station.Jobs.Persist.{bound_job, persist_locked}
use provisioning_station.Jobs.Run.{announce, cancel, start, stop}
use provisioning_station.Jobs.Run.Absorb.{Ended, PrunedOnTheWay, terminal_absorbs}
use provisioning_station.Jobs.Run.Life.{Reach-Sound, one_runs}
use provisioning_station.Jobs.Run.System.{
  Sound, Step, System, books, cancels, creates, here, next, starts, stops,
}
use provisioning_station.Jobs.State.{Manager, find_job, inspect_job}
use provisioning_station.Jobs.Submit.{
  check_console, check_contents, check_directory, check_request, create_context, enter, new_job,
  settle,
}
use provisioning_station.Tasks.Plan.{clone, invocations, phase}
use provisioning_station.Tasks.Registry.{validate}
use provisioning_station.Tests.Samples.{admission, empty, host, job_id, request}

abbrev idle : System
idle = record { manager = empty; worker = none }

idle-Sound : Sound idle
unfolding lookup
idle-Sound = record {
  named = λ id job e. absurd (cc e);
  placed = λ id job e. absurd (cc e);
  running_works = λ id job e r. absurd (cc e);
  worker_runs = λ id w. absurd (cc w);
  context_works = λ id c e. absurd (cc e);
  worker_context = λ id w e. cc w;
}

abbrev created : System
created = record { manager = (create_context host admission empty request).0; worker = none }

first_move : Step host idle created
first_move = creates admission request

abbrev entered_job : Job
entered_job = record (new_job admission request) { event_count = 1 }

abbrev dropped_job : Job
dropped_job = record entered_job { state = canceled; finished = some 6; event_count = 2 }

abbrev ended : System
ended = record { manager = cancel host 6 none created.manager job_id; worker = none }

second_move : Step host created ended
second_move = cancels 6 none job_id

dropped_found : find_job ended.manager job_id ≡ some dropped_job
unfolding cancel announce create_context check_request check_contents check_directory enter settle
    emit_locked append_event mark_long bounded_text deliver persist_locked bound_job clone_request
    clone invocations phase validate inspect_job clone_job lookup insert text_eq contains
    check_console terminal
dropped_found = refl

ended-Sound : Sound ended
ended-Sound = Reach-Sound host idle ended idle-Sound (next (next here first_move) second_move)

abbrev unbooked : System
unbooked = record ended { manager = record (stop ended.manager) { budget = none } }

terminal_absorbs_example :
    Ended unbooked.manager job_id canceled ⊎ PrunedOnTheWay host ended unbooked job_id canceled
terminal_absorbs_example =
    terminal_absorbs host ended unbooked job_id dropped_job ended-Sound dropped_found
      (unfold terminal in refl) (next (next here stops) (books none))

Reach-Sound_example : Sound ended
Reach-Sound_example =
    Reach-Sound host idle ended idle-Sound (next (next here first_move) second_move)

abbrev begun_job : Job
begun_job = record entered_job { state = running; started = some 6; event_count = 2 }

abbrev started_manager : Option Manager
started_manager = start host 6 none created.manager job_id

abbrev running_manager : Manager
running_manager = elim started_manager [ none ↦ empty | some m ↦ m ]

abbrev busy : System
busy = record { manager = running_manager; worker = some job_id }

started_lem : started_manager ≡ some running_manager
unfolding start announce create_context check_request check_contents check_directory enter settle
    emit_locked append_event mark_long bounded_text deliver persist_locked bound_job clone_request
    clone invocations phase validate inspect_job clone_job lookup insert text_eq contains
    check_console terminal
started_lem = refl

begun_found : find_job running_manager job_id ≡ some begun_job
unfolding start announce create_context check_request check_contents check_directory enter settle
    emit_locked append_event mark_long bounded_text deliver persist_locked bound_job clone_request
    clone invocations phase validate inspect_job clone_job lookup insert text_eq contains
    check_console terminal
begun_found = refl

one_runs_example : job_id ≡ job_id
one_runs_example =
    one_runs host idle busy job_id job_id begun_job begun_job idle-Sound
      (next (next here first_move) (starts 6 none job_id running_manager refl started_lem))
      begun_found begun_found refl refl
