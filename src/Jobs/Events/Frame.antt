-- ===== src/Jobs/Events/Frame.antt =====
-- What emitting an event and publishing a record leave as it was.
use provisioning_station.Base.{Text, arith, insert, text_key, ℕ, ◌≡◌}
use provisioning_station.Jobs.Events.{append_event, emit_locked}
use provisioning_station.Jobs.Events.Cases.{SameJob, emit_cases}
use provisioning_station.Jobs.Model.{Job}
use provisioning_station.Jobs.State.{Host, Manager}

pub record Emitted (m : Manager) (job : Job) (r : Manager × Job) : Type 0 where
  pub manager : r.0 ≡ record m {
    event_bytes = r.0.event_bytes;
    events = r.0.events;
    subscribers = r.0.subscribers;
    jobs = insert job.id r.1 m.jobs;
  }
  pub job_kept :
      r.1 ≡ record job { events_truncated = r.1.events_truncated; event_count = r.1.event_count }

module _ (h : Host) (now : ℕ) (m : Manager) (job : Job) (level message : Text) where
  append_event-Emitted :
      (j : Job) → SameJob job j → Emitted m job (append_event h now m j level message)
  unfolding append_event
  append_event-Emitted j s = record { manager = ground (arith, s); job_kept = ground (arith, s) }

module _ (h : Host) (now : ℕ) (m : Manager) (job : Job) (level message : Text) where
  -- Of the manager only the histories, their sizes, the channels and this job may change, and of the
  -- job only its event count and its mark.
  pub emit_locked-Emitted : Emitted m job (emit_locked h now m job level message)
  emit_locked-Emitted =
      emit_cases h now m job level message (Emitted m job)
        (λ j text s. append_event-Emitted h now m job level text j s)
        (λ j s. record { manager = ground (arith, s); job_kept = ground (arith, s) })
