-- ===== src/Tests/Cleanups.antt =====
-- A manager with a job that runs and 31 that have ended, and a disk that does as it is told.
use provisioning_station.Base.{
  All, Bool-cases, Map, Text, [], arith, codes, contains, erase, false, inl, inr, insert, lookup,
  none, refl, some, suc, sym, text_eq, text_eq_iff, text_key, true, zero, ℕ, ◌<◌, ◌∷◌, ◌≡◌, ◌⊎◌,
}
use provisioning_station.Jobs.Events.{close_subscribers}
use provisioning_station.Jobs.Model.{Job, running, succeeded, terminal}
use provisioning_station.Jobs.State.{Gate, Manager}
use provisioning_station.Retention.Cleaning.{
  after_write, bury, cleanup, cleanup_listed, cleanup_with, count_job, evict, evict_after,
  evict_one, evict_sized, evict_with, expire, expire_in_room, expire_submission, forget_job,
  on_answer, prune_job, prune_jobs, prune_sized, remove_job, then_clean, without_directory,
}
use provisioning_station.Retention.Guarded.{
  Journaled, Keyed, Linked, MayRemove, Unknown, cleanup-Journaled, cleanup-MayRemove,
  cleanup-Unknown, named-Keyed,
}
use provisioning_station.Retention.Leads.{Leads, cleanup-Leads}
use provisioning_station.Retention.Members.{all_jobs-lookup}
use provisioning_station.Retention.Model.{
  CleanupEnv, all_jobs, completed_job_limit, completed_jobs, completed_of, got, insert_artifact,
  insert_job, jobs_after, newer, sort_artifacts, sort_jobs, stored,
}
use provisioning_station.Retention.Order.{count_newer}
use provisioning_station.Retention.Pruned.{cleanup-count_newer}
use provisioning_station.Tasks.Values.{same}
use provisioning_station.Tests.Samples.{empty, host, request}
use provisioning_station.Xsdb.Arguments.{given}

abbrev pub quiet : CleanupEnv
quiet = record {
  first_usage = got (record { used = 100; reserved = 0 });
  artifacts = got (record { id = codes "old"; imported = 1 } ∷ []);
  job_size = λ id. got 10;
  tombstone_length = λ t. 5;
  usage_before = λ id. got (record { used = 100; reserved = 0 });
  tombstone_write = λ id. stored;
  job_removal = λ id. stored;
  directory_kept = λ id. false;
  usage_after = got (record { used = 95; reserved = 0 });
  owned_size = λ id. got (50, true);
  artifact_removal = λ id. stored;
  last_problem = none;
}

abbrev ended_job : ℕ → Job
ended_job n = record {
  artifact_available = true;
  events_truncated = false;
  task_results = [];
  deployment_error = [];
  deployment_outcome = [];
  task_errors = [];
  id = n ∷ [];
  request = record request { request_id = n ∷ [] };
  state = succeeded;
  created = n;
  started = none;
  finished = some 9;
  error = [];
  event_count = 0;
  serial_capture = none;
}

abbrev running_job : Job
running_job = record (ended_job 50) { state = running }

-- The jobs created at n, n − 1, …, 1.
abbrev ended_jobs : ℕ → Map Text Job
ended_jobs zero = []
ended_jobs (suc n) = (suc n ∷ [], ended_job (suc n)) ∷ ended_jobs n

abbrev submissions_of : ℕ → Map Text Text
submissions_of zero = []
submissions_of (suc n) = (suc n ∷ [], suc n ∷ []) ∷ submissions_of n

abbrev storage : Gate
storage = record { limit = 10000; pins = []; consumption = []; reservations = [] }

abbrev busy_manager : Manager
busy_manager = record empty {
  budget = some storage;
  jobs = (50 ∷ [], running_job) ∷ ended_jobs 31;
  submissions = (50 ∷ [], 50 ∷ []) ∷ submissions_of 31;
}

oldest_pruned : (cleanup host quiet busy_manager true 0).0.job_ids ≡ (1 ∷ []) ∷ []
unfolding cleanup cleanup_listed cleanup_with evict_with evict_after prune_jobs prune_job
    prune_sized bury expire_in_room expire after_write on_answer then_clean remove_job forget_job
    without_directory close_subscribers evict evict_one evict_sized completed_jobs sort_jobs
    insert_job newer terminal count_job expire_submission sort_artifacts insert_artifact lookup
    erase insert text_eq jobs_after contains
oldest_pruned = refl

cleaned_up : (cleanup host quiet busy_manager true 0).1 ≡ none
unfolding cleanup cleanup_listed cleanup_with evict_with evict_after prune_jobs prune_job
    prune_sized bury expire_in_room expire after_write on_answer then_clean remove_job forget_job
    without_directory close_subscribers evict evict_one evict_sized completed_jobs sort_jobs
    insert_job newer terminal count_job expire_submission sort_artifacts insert_artifact lookup
    erase insert text_eq jobs_after contains
cleaned_up = refl

newest_left :
    lookup (31 ∷ []) (cleanup host quiet busy_manager true 0).0.manager.jobs ≡ some (ended_job 31)
unfolding cleanup cleanup_listed cleanup_with evict_with evict_after prune_jobs prune_job
    prune_sized bury expire_in_room expire after_write on_answer then_clean remove_job forget_job
    without_directory close_subscribers evict evict_one evict_sized completed_jobs sort_jobs
    insert_job newer terminal count_job expire_submission sort_artifacts insert_artifact lookup
    erase insert text_eq jobs_after contains
newest_left = refl

ended_jobs-lookup :
    (n : ℕ) (k : Text) (j : Job)
    → lookup k (ended_jobs n) ≡ some j
    → (i : ℕ) × (i < n) × (k ≡ suc i ∷ []) × (j ≡ ended_job (suc i))
unfolding lookup
ended_jobs-lookup zero k j f = absurd (cc f)
ended_jobs-lookup (suc n) k j f = elim (Bool-cases (text_eq (suc n ∷ []) k)) [
  | inl e ↦ (n, omega arith, sym ((text_eq_iff (suc n ∷ []) k).0 e), cc (rw e at f))
  | inr e ↦
      let (i, below, key, same) = ended_jobs-lookup n k j (rw e at f) in
      (i, omega (arith, below), key, same)
]

submissions_of-found :
    (n k : ℕ) → k < n → lookup (suc k ∷ []) (submissions_of n) ≡ some (suc k ∷ [])
unfolding lookup text_eq
submissions_of-found zero k l = absurd (omega (arith, l))
submissions_of-found (suc n) k l = ground (arith, l, submissions_of-found n k)

busy_manager-lookup :
    (k : Text) (j : Job)
    → lookup k busy_manager.jobs ≡ some j
    → ((k ≡ 50 ∷ []) × (j ≡ running_job))
      ⊎ ((i : ℕ) × (i < 31) × (k ≡ suc i ∷ []) × (j ≡ ended_job (suc i)))
unfolding lookup
busy_manager-lookup k j f = elim (Bool-cases (text_eq (50 ∷ []) k)) [
  | inl e ↦ inl (sym ((text_eq_iff (50 ∷ []) k).0 e), cc (rw e at f))
  | inr e ↦ inr (ended_jobs-lookup 31 k j (rw e at f))
]

busy_manager-Keyed : Keyed busy_manager
busy_manager-Keyed = named-Keyed busy_manager (λ k j f. elim (busy_manager-lookup k j f) [
  | inl (key, same) ↦ rw (key, same) refl
  | inr (i, below, key, same) ↦ rw (key, same) refl
])

busy_manager-Linked : Linked busy_manager
unfolding lookup text_eq
busy_manager-Linked j there given =
    let (k, found) = all_jobs-lookup j busy_manager.jobs there in
    elim (busy_manager-lookup k j found) [
      | inl (key, same) ↦ rw same refl
      | inr (i, below, key, same) ↦ rw same (ground (arith, below, submissions_of-found 31 i below))
    ]

cleanup-Journaled_example : Journaled host (cleanup host quiet busy_manager true 0).0.disk
cleanup-Journaled_example = cleanup-Journaled host quiet busy_manager true 0

cleanup-MayRemove_example :
    All (MayRemove busy_manager) (cleanup host quiet busy_manager true 0).0.disk
    × ((k : Text) (j : Job)
        → lookup k busy_manager.jobs ≡ some j
        → terminal j.state ≡ false
        → lookup k (cleanup host quiet busy_manager true 0).0.manager.jobs ≡ some j)
cleanup-MayRemove_example = cleanup-MayRemove host quiet busy_manager true 0 busy_manager-Keyed

first_known : lookup (1 ∷ []) busy_manager.submissions ≡ some (1 ∷ [])
unfolding lookup text_eq
first_known = refl

first_there : lookup (1 ∷ []) busy_manager.jobs ≡ some (ended_job 1)
unfolding lookup text_eq
first_there = refl

cleanup-Leads_example :
    Leads host (1 ∷ []) (1 ∷ []) (ended_job 1) (cleanup host quiet busy_manager true 0).0.manager
unfolding lookup
cleanup-Leads_example =
    cleanup-Leads host quiet busy_manager true 0 (1 ∷ []) (1 ∷ []) (ended_job 1) busy_manager-Keyed
      busy_manager-Linked first_known first_there refl (λ e. cc e) refl

ninety-Unknown : Unknown (90 ∷ []) busy_manager
unfolding lookup text_eq
ninety-Unknown = (refl, refl)

cleanup-Unknown_example : Unknown (90 ∷ []) (cleanup host quiet busy_manager true 0).0.manager
cleanup-Unknown_example =
    cleanup-Unknown host quiet busy_manager true 0 (90 ∷ []) busy_manager-Linked ninety-Unknown

newest_ended : terminal (ended_job 31).state ≡ true
unfolding terminal
newest_ended = refl

cleanup-count_newer_example :
    count_newer (ended_job 31) (completed_of (all_jobs busy_manager.jobs)) < completed_job_limit
cleanup-count_newer_example =
    cleanup-count_newer host quiet busy_manager 0 (ended_job 31) cleaned_up newest_left newest_ended
