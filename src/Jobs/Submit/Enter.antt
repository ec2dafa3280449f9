-- ===== src/Jobs/Submit/Enter.antt =====
-- A job that enters: what the manager holds of it afterwards.
use provisioning_station.Base.{
  Failure, Option, Text, [], arith, codes, if◌then◌else◌, inl, inr, insert, lookup, lookup-erase_ne,
  lookup-erase_self, lookup-insert_ne, lookup-insert_self, none, some, sym, text_key, ◌++◌, ◌∙◌,
  ◌∷◌, ◌≡◌, ◌≢◌, ◌⊎◌,
}
use provisioning_station.Jobs.Events.{emit_locked}
use provisioning_station.Jobs.Events.Frame.{Emitted, emit_locked-Emitted}
use provisioning_station.Jobs.Model.{Job, Request, clone_request, queued}
use provisioning_station.Jobs.Persist.{bound_job, persist_locked}
use provisioning_station.Jobs.State.{Host, JobError, Manager, find_job, inspect_job, put_job}
use provisioning_station.Jobs.Submit.{Admission, accepted, enter, new_job, register, settle}

pub record Published (m : Manager) (job : Job) (r : Manager × Job × Option JobError) : Type 0 where
  pub manager : r.0 ≡ record m { jobs = insert job.id r.1 m.jobs; records = r.0.records }
  pub job_bound : r.1 ≡ bound_job job

pub persist_locked-Published :
    (h : Host) (io : Option Failure) (m : Manager) (job : Job)
    → Published m job (persist_locked h io m job)
unfolding persist_locked bound_job
persist_locked-Published h io m job = record { manager = ground arith; job_bound = ground arith }

-- The manager after a job of request `r` was accepted under the new identifier.
pub record Entered (a : Admission) (m : Manager) (r : Request) (m' : Manager) (job : Job)
    : Type 0 where
  pub stored : Job
  pub found : find_job m' a.random_id ≡ some stored
  pub request_kept : stored.request ≡ clone_request r
  pub waiting : stored.state ≡ queued
  pub named : stored.id ≡ a.random_id
  pub answered : job ≡ inspect_job a.available stored
  pub registered : m'.submissions ≡ register r a.random_id m.submissions
  pub expired_kept : m'.expired ≡ m.expired
  pub admission_kept : m'.admission_error ≡ m.admission_error
  pub pushed : m'.queue ≡ (if a.dropped then m.queue else m.queue ++ a.random_id ∷ [])
  pub others : (id : Text) → id ≢ a.random_id → find_job m' id ≡ find_job m id

settle-accepted :
    (a : Admission) (r : Request) (m : Manager) (j : Job) (x : Option JobError) (m' : Manager)
    (job : Job)
    → settle a r (m, j, x) ≡ (m', accepted job)
    → (m' ≡ record m {
      submissions = register r j.id m.submissions;
      queue = if a.dropped then m.queue else m.queue ++ j.id ∷ [];
    })
      × (job ≡ inspect_job a.available j)
unfolding settle
settle-accepted a r m j none m' job e = ground (arith, e)
settle-accepted a r m j (some x) m' job e = absurd (ground (arith, e))

module _ (h : Host) (a : Admission) (m : Manager) (r : Request) where
  abbrev pub opened : Manager
  opened =
      put_job
        (record m {
          directories = a.random_id ∷ m.directories;
          events = insert a.random_id [] m.events;
        })
        (new_job a r)

  abbrev pub announced : Manager × Job
  announced = emit_locked h a.now opened (new_job a r) (codes "info") (codes "Job queued")

  abbrev pub published : Manager × Job × Option JobError
  published = persist_locked h a.publish_error announced.0 announced.1

  announced-Emitted : Emitted opened (new_job a r) announced
  announced-Emitted = emit_locked-Emitted h a.now opened (new_job a r) _ _

  published-Published : Published announced.0 announced.1 published
  published-Published = persist_locked-Published h a.publish_error announced.0 announced.1

  published_job :
      (published.1.id ≡ a.random_id)
      × (published.1.request ≡ clone_request r)
      × (published.1.state ≡ queued)
  unfolding bound_job
  published_job = ground (arith, announced-Emitted.job_kept, published-Published.job_bound)

  published_manager : published.0 ≡ record opened {
    event_bytes = announced.0.event_bytes;
    events = announced.0.events;
    subscribers = announced.0.subscribers;
    jobs = insert a.random_id published.1 (insert a.random_id announced.1 opened.jobs);
    records = published.0.records;
  }
  published_manager =
      ground
        (arith, announced-Emitted.manager, announced-Emitted.job_kept, published-Published.manager)

  -- `enter` succeeds only when the record is published, and then the job is stored under its
  -- identifier, registered under the request's and waiting in the queue; all else is as it was.
  pub enter-Entered :
      (m' : Manager) (job : Job) → enter h a m r ≡ (m', accepted job) → Entered a m r m' job
  unfolding enter
  enter-Entered m' job e =
      let (em, ej) = settle-accepted a r published.0 published.1 published.2 m' job e in
      let (i, q, w) = published_job in
      let jobs_eq : m'.jobs
          ≡ insert a.random_id published.1 (insert a.random_id announced.1 opened.jobs) =
        ground (arith, em, published_manager) in
      record {
        stored = published.1;
        found = rw jobs_eq (lookup-insert_self a.random_id published.1 _);
        request_kept = q;
        waiting = w;
        named = i;
        answered = ej;
        registered = ground (arith, em, i, published_manager);
        expired_kept = ground (arith, em, published_manager);
        admission_kept = ground (arith, em, published_manager);
        pushed = ground (arith, em, i, published_manager);
        others = λ id ne.
            let apart : a.random_id ≢ id = λ q'. ne (sym q') in
            rw jobs_eq (
              lookup-insert_ne id a.random_id published.1 _ apart
              ∙ (lookup-insert_ne id a.random_id announced.1 _ apart
                  ∙ lookup-insert_ne id a.random_id (new_job a r) m.jobs apart));
      }

-- The manager after an attempt to enter a job, whether or not it could be published.
pub record Tried (a : Admission) (m m' : Manager) : Type 0 where
  pub entry :
      (find_job m' a.random_id ≡ none)
      ⊎ ((job : Job) × (find_job m' a.random_id ≡ some job)
          × (job.id ≡ a.random_id)
          × (job.state ≡ queued))
  pub others : (id : Text) → id ≢ a.random_id → find_job m' id ≡ find_job m id
  pub cancellers_kept : m'.cancellers ≡ m.cancellers
  pub directories_grown : m'.directories ≡ a.random_id ∷ m.directories

module _ (h : Host) (a : Admission) (m : Manager) (r : Request) where
  published_jobs :
      (published h a m r).0.jobs
      ≡ insert a.random_id
          (published h a m r).1
          (insert a.random_id (announced h a m r).1 (opened h a m r).jobs)
  published_jobs = ground (arith, published_manager h a m r)

  published_others :
      (id : Text) → id ≢ a.random_id → lookup id (published h a m r).0.jobs ≡ find_job m id
  published_others id ne =
      let apart : a.random_id ≢ id = λ q. ne (sym q) in
      rw published_jobs (
        lookup-insert_ne id a.random_id (published h a m r).1 _ apart
        ∙ (lookup-insert_ne id a.random_id (announced h a m r).1 _ apart
            ∙ lookup-insert_ne id a.random_id (new_job a r) m.jobs apart))

  settle-Tried :
      (x : Option JobError)
      → Tried a m (settle a r ((published h a m r).0, (published h a m r).1, x)).0
  unfolding settle
  settle-Tried none =
      let (i, q, w) = published_job h a m r in
      let p = published_manager h a m r in
      record {
        entry =
            inr
              ((published h a m r).1, rw published_jobs (lookup-insert_self a.random_id _ _), i, w);
        others = published_others;
        cancellers_kept = ground (arith, p);
        directories_grown = ground (arith, p);
      }
  settle-Tried (some e) =
      let (i, q, w) = published_job h a m r in
      let p = published_manager h a m r in
      record {
        entry = inl (rw i (lookup-erase_self a.random_id _));
        others = λ id ne.
            rw i (lookup-erase_ne id a.random_id _ (λ q'. ne (sym q')) ∙ published_others id ne);
        cancellers_kept = ground (arith, p);
        directories_grown = ground (arith, p);
      }

  pub enter-Tried : Tried a m (enter h a m r).0
  unfolding enter
  enter-Tried = settle-Tried (published h a m r).2
