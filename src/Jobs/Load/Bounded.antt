-- ===== src/Jobs/Load/Bounded.antt =====
-- What `boundHistoricalOutput` (internal/jobs/retention.go) leaves as it is.
use provisioning_station.Base.{Option, arith, none, refl, some, ℕ, ◌≡◌}
use provisioning_station.Jobs.Load.{
  LoadEntry, LoadError, Shortened, bound_historical_output, bound_transcript, republish,
  shorten_events, shorten_transcript,
}
use provisioning_station.Jobs.Model.{Job}
use provisioning_station.Jobs.Persist.{bound_job, persist_locked}
use provisioning_station.Jobs.State.{Host, Manager}

-- The jobs and what has expired are the same, and so are the identifier, the state and the request
-- of the job.
abbrev pub SameKeys : Manager → Job → Manager × Job × Option LoadError → Type 0
SameKeys m job r =
    (r.0.jobs ≡ m.jobs)
    × (r.0.expired ≡ m.expired)
    × (r.1.id ≡ job.id)
    × (r.1.state ≡ job.state)
    × (r.1.request ≡ job.request)

abbrev SameJob : Job → Job → Type 0
SameJob j job = (j.id ≡ job.id) × (j.state ≡ job.state) × (j.request ≡ job.request)

shorten_events-SameJob : (e : LoadEntry) (job : Job) → SameJob (shorten_events e job).0 job
unfolding shorten_events
shorten_events-SameJob e job = ground arith

shorten_transcript-SameJob :
    (limit : ℕ) (e : LoadEntry) (job : Job) → SameJob (shorten_transcript limit e job).0 job
unfolding shorten_transcript
shorten_transcript-SameJob limit e job = ground arith

republish-SameKeys :
    (h : Host) (e : LoadEntry) (m : Manager) (job : Job) → SameKeys m job (republish h e m job)
unfolding republish persist_locked bound_job
republish-SameKeys h e m job = ground arith

bound_transcript-SameKeys :
    (h : Host) (e : LoadEntry) (m : Manager) (x : Shortened)
    → SameKeys m x.0 (bound_transcript h e m x)
unfolding bound_transcript
bound_transcript-SameKeys h e m (job, changed, some f) = (refl, refl, refl, refl, refl)
bound_transcript-SameKeys h e m (job, changed, none) =
    let limit = m.max_console_log_bytes in
    ground (
      arith,
      shorten_transcript-SameJob limit e job,
      republish-SameKeys h e m (shorten_transcript limit e job).0,
    )

pub bound_historical_output-SameKeys :
    (h : Host) (e : LoadEntry) (m : Manager) (job : Job)
    → SameKeys m job (bound_historical_output h e m job)
unfolding bound_historical_output
bound_historical_output-SameKeys h e m job =
    ground
      (arith, shorten_events-SameJob e job, bound_transcript-SameKeys h e m (shorten_events e job))
