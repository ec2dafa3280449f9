-- ===== src/Jobs/Submit/Replay.antt =====
-- A request with an identifier is entered at most once.
use provisioning_station.Base.{
  Option, Option-cases, Text, [], arith, if◌then◌else◌, inl, inr, lookup, none, refl, some, text_eq,
  text_key, ℕ, ◌≡◌, ◌≢◌, ◌⊎◌,
}
use provisioning_station.Jobs.Model.{Job, Request, clone_request}
use provisioning_station.Jobs.State.{
  Gate, Host, JobError, Manager, conflict, find_job, inspect_job, output_reservation,
}
use provisioning_station.Jobs.Submit.{
  Admission, Ensure, accepted, admit, create_context, create_submission, enter, known_submission,
  pin, refused, replay, replayed,
}
use provisioning_station.Retention.Guarded.{Linked}

-- What admission needs of the storage gate: an identifier that is not known stays so where the
-- submissions of the jobs are registered, and the gate does not close or open admission.
pub record IsEnsure (ensure : Ensure) : Type 0 where
  pub unknown_kept :
      (n : ℕ) (m : Manager) (id : Text)
      → Linked m
      → lookup id m.submissions ≡ none
      → lookup id m.expired ≡ none
      → lookup id (ensure n m).0.expired ≡ none
  pub admission_kept : (n : ℕ) (m : Manager) → (ensure n m).0.admission_error ≡ m.admission_error

-- Admission is open, and the manager holds a submission `id`, not expired, of a job with request `r`.
pub record Holds (m : Manager) (id : Text) (jid : Text) (r : Request) : Type 0 where
  pub job : Job
  pub admits : m.admission_error ≡ none
  pub unexpired : lookup id m.expired ≡ none
  pub registered : lookup id m.submissions ≡ some jid
  pub found : find_job m jid ≡ some job
  pub named : job.id ≡ jid
  pub request_kept : job.request ≡ clone_request r

module _ (h : Host) (a : Admission) (m : Manager) (r : Request) where
  pub replay_known :
      (job : Job) (jid : Text)
      → r.request_id ≢ []
      → lookup r.request_id m.expired ≡ none
      → lookup r.request_id m.submissions ≡ some jid
      → find_job m jid ≡ some job
      → known_submission h a m (clone_request r)
        ≡ some (
            if text_eq
              (h.marshal (inspect_job a.available job).request)
              (h.marshal (clone_request r))
            then replayed (inspect_job a.available job)
            else refused (conflict r.request_id))
  unfolding known_submission replay clone_request
  replay_known job jid ne x sub f = ground (arith, x, sub, f)

  pub known-ne-accepted : (job : Job) → known_submission h a m r ≢ some (accepted job)
  unfolding known_submission replay
  known-ne-accepted job e = ground (arith, e)

  pub unknown_parts :
      r.request_id ≢ []
      → known_submission h a m r ≡ none
      → (lookup r.request_id m.expired ≡ none) × (lookup r.request_id m.submissions ≡ none)
  unfolding known_submission
  unknown_parts ne e = ground arith

  pub create_context-accepted :
      (m' : Manager) (job : Job)
      → create_context h a m r ≡ (m', accepted job)
      → enter h a m r ≡ (m', accepted job)
  unfolding create_context
  create_context-accepted m' job e = ground arith

module _ (h : Host) (ensure : Ensure) (a : Admission) (m : Manager) (r : Request) where
  pub create-accepted :
      (m' : Manager) (job : Job)
      → create_submission h ensure a m r ≡ (m', accepted job)
      → (known_submission h a m (clone_request r) ≡ none)
        × (m.admission_error ≡ none)
        × (admit h ensure a m (clone_request r) ≡ (m', accepted job))
  unfolding create_submission
  create-accepted m' job e = ground (arith, known-ne-accepted h a m (clone_request r) job)

  -- Where a job entered, and how the manager differs then: only in its reservations.
  pub record Admitted (m' : Manager) (job : Job) : Type 0 where
    pub before : Manager
    pub after : Manager
    pub room :
        (before ≡ m)
        ⊎ ((n : ℕ) × (b : Option Gate) × (before ≡ (ensure n (record m { budget = b })).0))
    pub entered : create_context h a before r ≡ (after, accepted job)
    pub reserved : m' ≡ record after { budget = m'.budget }

  abbrev roomed : Manager × Option JobError
  roomed = ensure (output_reservation m) (pin r.artifact_id m)

  admit_roomed :
      (g : Gate) (m' : Manager) (job : Job)
      → m.budget ≡ some g
      → admit h ensure a m r ≡ (m', accepted job)
      → (roomed.1 ≡ none)
        × ((create_context h a roomed.0 r).1 ≡ accepted job)
        × (m' ≡ record (create_context h a roomed.0 r).0 { budget = m'.budget })
  unfolding admit
  admit_roomed g m' job b e = ground (arith, b, e)

  pub admit-Admitted :
      (m' : Manager) (job : Job) → admit h ensure a m r ≡ (m', accepted job) → Admitted m' job
  unfolding admit
  admit-Admitted m' job e = elim (Option-cases m.budget) [
    | inl b ↦ record {
      before = m;
      after = m';
      room = inl refl;
      entered = ground (arith, b, e);
      reserved = refl;
    }
    | inr (g, b) ↦
        let (_, x, y) = admit_roomed g m' job b e in
        record {
          before = roomed.0;
          after = (create_context h a roomed.0 r).0;
          room = inr (output_reservation m, (pin r.artifact_id m).budget, ground (arith, b));
          entered = ground (arith, x);
          reserved = y;
        }
  ]
