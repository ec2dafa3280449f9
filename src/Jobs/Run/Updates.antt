-- ===== src/Jobs/Run/Updates.antt =====
-- What the parts of a run have in common: they write one job, under its identifier, and its output.
use provisioning_station.Base.{
  Bool-cases, Failure, Option, Text, arith, inl, inr, insert, lookup-insert_ne, lookup-insert_self,
  some, sym, text_eq, text_eq_iff, text_key, ℕ, ◌∙◌, ◌≡◌, ◌≢◌, ◌⊎◌,
}
use provisioning_station.Jobs.Events.{close_subscribers, emit_locked}
use provisioning_station.Jobs.Events.Frame.{emit_locked-Emitted}
use provisioning_station.Jobs.Model.{Job}
use provisioning_station.Jobs.Persist.{bound_job, persist_locked}
use provisioning_station.Jobs.Run.{announce}
use provisioning_station.Jobs.State.{Host, Manager, find_job, put_job}
use provisioning_station.Jobs.Submit.Enter.{persist_locked-Published}

-- `m'` is `m` with `job` stored, up to its texts and counters; no other job changes, and neither do the
-- queue, the submissions and the contexts.
pub record Updates (m : Manager) (job : Job) (m' : Manager) : Type 0 where
  pub stored : Job
  pub found : find_job m' job.id ≡ some stored
  pub named : stored.id ≡ job.id
  pub state_kept : stored.state ≡ job.state
  pub request_kept : stored.request ≡ job.request
  pub others : (id : Text) → id ≢ job.id → find_job m' id ≡ find_job m id
  pub cancellers_kept : m'.cancellers ≡ m.cancellers
  pub stopped_kept : m'.stopped ≡ m.stopped
  pub queue_kept : m'.queue ≡ m.queue
  pub submissions_kept : m'.submissions ≡ m.submissions
  pub expired_kept : m'.expired ≡ m.expired
  pub admission_kept : m'.admission_error ≡ m.admission_error
  pub directories_kept : m'.directories ≡ m.directories

pub emit_locked-Updates :
    (h : Host) (now : ℕ) (m : Manager) (job : Job) (level message : Text)
    → Updates m job (emit_locked h now m job level message).0
emit_locked-Updates h now m job level message =
    let f = emit_locked-Emitted h now m job level message in
    let r = emit_locked h now m job level message in
    let jobs_eq : r.0.jobs ≡ insert job.id r.1 m.jobs = ground (arith, f.manager) in
    record {
      stored = r.1;
      found = rw jobs_eq (lookup-insert_self job.id r.1 m.jobs);
      named = ground (arith, f.job_kept);
      state_kept = ground (arith, f.job_kept);
      request_kept = ground (arith, f.job_kept);
      others = λ id ne. rw jobs_eq (lookup-insert_ne id job.id r.1 m.jobs (λ e. ne (sym e)));
      cancellers_kept = ground (arith, f.manager);
      stopped_kept = ground (arith, f.manager);
      queue_kept = ground (arith, f.manager);
      submissions_kept = ground (arith, f.manager);
      expired_kept = ground (arith, f.manager);
      admission_kept = ground (arith, f.manager);
      directories_kept = ground (arith, f.manager);
    }

pub persist_locked-Updates :
    (h : Host) (io : Option Failure) (m : Manager) (job : Job)
    → Updates m job (persist_locked h io m job).0
unfolding bound_job
persist_locked-Updates h io m job =
    let f = persist_locked-Published h io m job in
    let r = persist_locked h io m job in
    let jobs_eq : r.0.jobs ≡ insert job.id r.1 m.jobs = ground (arith, f.manager) in
    record {
      stored = r.1;
      found = rw jobs_eq (lookup-insert_self job.id r.1 m.jobs);
      named = ground (arith, f.job_bound);
      state_kept = ground (arith, f.job_bound);
      request_kept = ground (arith, f.job_bound);
      others = λ id ne. rw jobs_eq (lookup-insert_ne id job.id r.1 m.jobs (λ e. ne (sym e)));
      cancellers_kept = ground (arith, f.manager);
      stopped_kept = ground (arith, f.manager);
      queue_kept = ground (arith, f.manager);
      submissions_kept = ground (arith, f.manager);
      expired_kept = ground (arith, f.manager);
      admission_kept = ground (arith, f.manager);
      directories_kept = ground (arith, f.manager);
    }

-- Two updates of one job, the second of a job with the first one's name, state and request.
Updates-trans :
    (m m₁ m₂ : Manager) (job job₁ : Job)
    → job₁.id ≡ job.id
    → job₁.state ≡ job.state
    → job₁.request ≡ job.request
    → Updates m job m₁
    → Updates m₁ job₁ m₂
    → Updates m job m₂
Updates-trans m m₁ m₂ job job₁ i s q u v = record {
  stored = v.stored;
  found = rw (← i) v.found;
  named = v.named ∙ i;
  state_kept = v.state_kept ∙ s;
  request_kept = v.request_kept ∙ q;
  others = λ id ne. v.others id (λ e. ne (e ∙ i)) ∙ u.others id ne;
  cancellers_kept = v.cancellers_kept ∙ u.cancellers_kept;
  stopped_kept = v.stopped_kept ∙ u.stopped_kept;
  queue_kept = v.queue_kept ∙ u.queue_kept;
  submissions_kept = v.submissions_kept ∙ u.submissions_kept;
  expired_kept = v.expired_kept ∙ u.expired_kept;
  admission_kept = v.admission_kept ∙ u.admission_kept;
  directories_kept = v.directories_kept ∙ u.directories_kept;
}

pub announce-Updates :
    (h : Host) (now : ℕ) (io : Option Failure) (m : Manager) (job : Job) (level message : Text)
    → Updates m job (announce h now io m job level message)
unfolding announce
announce-Updates h now io m job level message =
    let r = emit_locked h now m job level message in
    let f = emit_locked-Emitted h now m job level message in
    Updates-trans m r.0 _ job r.1 (ground (arith, f.job_kept)) (ground (arith, f.job_kept))
      (ground (arith, f.job_kept)) (emit_locked-Updates h now m job level message)
      (persist_locked-Updates h io r.0 r.1)

-- A job that is stored first and then updated.
pub put_job-Updates :
    (m m' : Manager) (job : Job) → Updates (put_job m job) job m' → Updates m job m'
put_job-Updates m m' job u = record {
  stored = u.stored;
  found = u.found;
  named = u.named;
  state_kept = u.state_kept;
  request_kept = u.request_kept;
  others = λ id ne. u.others id ne ∙ lookup-insert_ne id job.id job m.jobs (λ e. ne (sym e));
  cancellers_kept = u.cancellers_kept;
  stopped_kept = u.stopped_kept;
  queue_kept = u.queue_kept;
  submissions_kept = u.submissions_kept;
  expired_kept = u.expired_kept;
  admission_kept = u.admission_kept;
  directories_kept = u.directories_kept;
}

-- A lookup after an update finds the updated job, or what it found before.
pub Updates-find :
    (m m' : Manager) (job : Job) (u : Updates m job m') (id : Text)
    → ((id ≡ job.id) × (find_job m' id ≡ some u.stored))
      ⊎ ((id ≢ job.id) × (find_job m' id ≡ find_job m id))
Updates-find m m' job u id = elim (Bool-cases (text_eq id job.id)) [
  | inl e ↦ let q = (text_eq_iff id job.id).0 e in inl (q, rw q u.found)
  | inr e ↦
      let ne : id ≢ job.id = λ q. cc (sym e ∙ (text_eq_iff id job.id).1 q) in
      inr (ne, u.others id ne)
]

pub close_subscribers-Updates :
    (m m' : Manager) (job : Job) (id : Text)
    → Updates m job m'
    → Updates m job (close_subscribers m' id)
unfolding close_subscribers
close_subscribers-Updates m m' job id u = record {
  stored = u.stored;
  found = u.found;
  named = u.named;
  state_kept = u.state_kept;
  request_kept = u.request_kept;
  others = u.others;
  cancellers_kept = u.cancellers_kept;
  stopped_kept = u.stopped_kept;
  queue_kept = u.queue_kept;
  submissions_kept = u.submissions_kept;
  expired_kept = u.expired_kept;
  admission_kept = u.admission_kept;
  directories_kept = u.directories_kept;
}
