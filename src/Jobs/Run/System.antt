-- ===== src/Jobs/Run/System.antt =====
-- The manager together with its one worker, and what may happen between two releases of the lock.
use provisioning_station.Base.{
  Bool, Failure, List, Option, Text, ap, arith, contains, inl, inr, lookup, none, some, sym,
  text_key, true, ℕ, ◌∙◌, ◌∷◌, ◌≡◌, ◌≢◌,
}
use provisioning_station.Jobs.Events.{emit, subscribe, unsubscribe}
use provisioning_station.Jobs.Model.{Event, Job, Request, SerialCapture, running}
use provisioning_station.Jobs.Run.{
  add_task_error, begin_capture, cancel, finish, observe, set_capture, set_outcome, start, stop,
}
use provisioning_station.Jobs.Run.Updates.{Updates, Updates-find}
use provisioning_station.Jobs.State.{Gate, Host, Manager, Subscriber, find_job}
use provisioning_station.Jobs.Submit.{Admission, create_context}
use provisioning_station.Retention.Cleaning.{cleanup}
use provisioning_station.Retention.Model.{CleanupEnv}
use provisioning_station.Tasks.Run.{Outcome}

pub record System : Type 0 where
  pub manager : Manager
  -- the job that the worker runs
  pub worker : Option Text

-- One critical section. The worker's own ones name the job that it runs; which waiting job it
-- starts is left open, so that there are more sequences than the program has.
pub data Step (h : Host) (s : System) : System → Type 0 where
  creates :
      (a : Admission) (r : Request)
      → Step h s (record s { manager = (create_context h a s.manager r).0 })
  cancels :
      (now : ℕ) (io : Option Failure) (id : Text)
      → Step h s (record s { manager = cancel h now io s.manager id })
  emits :
      (now : ℕ) (id level message : Text)
      → Step h s (record s { manager = emit h now s.manager id level message })
  starts :
      (now : ℕ) (io : Option Failure) (id : Text) (m : Manager)
      → s.worker ≡ none
      → start h now io s.manager id ≡ some m
      → Step h s (record { manager = m; worker = some id })
  begins :
      (now : ℕ) (io : Option Failure) (id : Text) (c : SerialCapture × Text)
      → s.worker ≡ some id
      → Step h s (record s { manager = begin_capture h now io s.manager id c })
  captures :
      (io : Option Failure) (id : Text) (c : SerialCapture)
      → s.worker ≡ some id
      → Step h s (record s { manager = set_capture h io s.manager id c })
  observes :
      (now : ℕ) (io : Option Failure) (id : Text) (o : Outcome) (message : Text)
      → s.worker ≡ some id
      → Step h s (record s { manager = observe h now io s.manager id o message })
  decides :
      (io : Option Failure) (id outcome : Text) (err : Option Failure)
      → s.worker ≡ some id
      → Step h s (record s { manager = set_outcome h io s.manager id outcome err })
  complains :
      (now : ℕ) (id message : Text)
      → s.worker ≡ some id
      → Step h s (record s { manager = add_task_error h now s.manager id message })
  finishes :
      (now : ℕ) (io : Option Failure) (id : Text) (err : Option Failure)
      → s.worker ≡ some id
      → Step h s (record { manager = finish h now io s.manager id err; worker = none })
  stops : Step h s (record s { manager = stop s.manager })
  -- the free worker takes the first identifier of the queue
  dequeues :
      (id : Text) (rest : List Text)
      → s.worker ≡ none
      → s.manager.queue ≡ id ∷ rest
      → Step h s (record s { manager = record s.manager { queue = rest } })
  subscribes :
      (id : Text) (after fresh : ℕ) (m : Manager) (history : List Event) (channel : Subscriber)
      → subscribe s.manager id after fresh ≡ some (m, history, channel)
      → Step h s (record s { manager = m })
  unsubscribes :
      (id : Text) (channel : ℕ) → Step h s (record s { manager = unsubscribe s.manager id channel })
  -- pins and reservations, which are kept under the storage gate
  books :
      (budget : Option Gate)
      → Step h s (record s { manager = record s.manager { budget = budget } })
  -- a cleanup, by `retentionAfterCompletion`, an admission or the API, also one that fails
  prunes :
      (e : CleanupEnv) (apply : Bool) (need : ℕ)
      → Step h s (record s { manager = (cleanup h e s.manager apply need).0.manager })

pub data Reach (h : Host) (s : System) : System → Type 0 where
  here : Reach h s s
  next : {t u : System} → Reach h s t → Step h t u → Reach h s u

-- What holds between two critical sections: exactly the worker's job is running, exactly it has a
-- context, and every job has its directory.
pub record Sound (s : System) : Type 0 where
  pub named : (id : Text) (job : Job) → find_job s.manager id ≡ some job → job.id ≡ id
  pub placed :
      (id : Text) (job : Job)
      → find_job s.manager id ≡ some job
      → contains s.manager.directories id ≡ true
  pub running_works :
      (id : Text) (job : Job)
      → find_job s.manager id ≡ some job
      → job.state ≡ running
      → s.worker ≡ some id
  pub worker_runs :
      (id : Text)
      → s.worker ≡ some id
      → (job : Job) × (find_job s.manager id ≡ some job) × (job.state ≡ running)
  pub context_works :
      (id : Text) (c : Bool) → lookup id s.manager.cancellers ≡ some c → s.worker ≡ some id
  pub worker_context : (id : Text) → s.worker ≡ some id → lookup id s.manager.cancellers ≢ none

-- A change of the manager that leaves its jobs, their directories and the contexts alone.
pub Sound-alike :
    (s : System) (m' : Manager)
    → m'.jobs ≡ s.manager.jobs
    → m'.directories ≡ s.manager.directories
    → m'.cancellers ≡ s.manager.cancellers
    → Sound s
    → Sound (record s { manager = m' })
Sound-alike s m' jobs directories cancellers v = record {
  named = λ id j e. v.named id j (ap (lookup id) (sym jobs) ∙ e);
  placed = λ id j e. rw directories (v.placed id j (ap (lookup id) (sym jobs) ∙ e));
  running_works = λ id j e r. v.running_works id j (ap (lookup id) (sym jobs) ∙ e) r;
  worker_runs = λ id w. let (j, e, r) = v.worker_runs id w in (j, ap (lookup id) jobs ∙ e, r);
  context_works = λ id c e. v.context_works id c (ap (lookup id) (sym cancellers) ∙ e);
  worker_context = λ id w e. v.worker_context id w (ap (lookup id) (sym cancellers) ∙ e);
}

-- An update of a stored job that does not start or end a run.
module _ (s : System) (m' : Manager) (job old : Job) where
  pub Sound-Updates :
      Sound s
      → Updates s.manager job m'
      → find_job s.manager job.id ≡ some old
      → (job.state ≡ running → old.state ≡ running)
      → (old.state ≡ running → job.state ≡ running)
      → Sound (record s { manager = m' })
  Sound-Updates v u f to from = record {
    named = λ id j e. elim (Updates-find s.manager m' job u id) [
      | inl (q, e') ↦ ground (arith, e, e', q, u.named)
      | inr (ne, e') ↦ v.named id j (sym e' ∙ e)
    ];
    placed = λ id j e. elim (Updates-find s.manager m' job u id) [
      | inl (q, e') ↦ rw (u.directories_kept, q) (v.placed job.id old f)
      | inr (ne, e') ↦ rw u.directories_kept (v.placed id j (sym e' ∙ e))
    ];
    running_works = λ id j e r. elim (Updates-find s.manager m' job u id) [
      | inl (q, e') ↦
          rw q (v.running_works job.id old f (to (ground (arith, e, e', u.state_kept, r))))
      | inr (ne, e') ↦ v.running_works id j (sym e' ∙ e) r
    ];
    worker_runs = λ id w.
        let (j, e, r) = v.worker_runs id w in
        elim (Updates-find s.manager m' job u id) [
          | inl (q, e') ↦ (u.stored, e', u.state_kept ∙ from (ground (arith, e, f, q, r)))
          | inr (ne, e') ↦ (j, e' ∙ e, r)
        ];
    context_works = λ id c e. v.context_works id c (rw u.cancellers_kept at e);
    worker_context = λ id w e. v.worker_context id w (rw u.cancellers_kept at e);
  }
