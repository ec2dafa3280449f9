-- ===== src/Jobs/Load/States.antt =====
-- What is loaded after a start (internal/jobs/manager.go, `load`).
use provisioning_station.Base.{
  Bool, Bool-cases, Failure, List, Map, Memᴰ, Option, Option-cases, Text, [], ap, arith, codes,
  false, if◌then◌else◌, inl, inr, insert, is_empty, is_some, lookup, lookup-insert,
  lookup-insert_ne, none, not, refl, some, subst, sym, text_eq, text_eq_iff, text_key, true, ℕ,
  ◌&&◌, ◌∙◌, ◌∷◌, ◌≡◌, ◌≢◌,
}
use provisioning_station.Jobs.Events.{emit_locked}
use provisioning_station.Jobs.Events.Frame.{emit_locked-Emitted}
use provisioning_station.Jobs.Load.{
  LoadEntry, LoadError, RecordFile, a_record, add_loaded, bad_job_request_id,
  bound_historical_output, duplicate_request_id, interrupt_job, invalid_record, load, load_bounded,
  load_content, load_entry, load_job, load_submission, not_published, store_loaded, then_load,
  unfinished, unreadable_job, unreadable_record, with_history, wrong_tombstone,
}
use provisioning_station.Jobs.Load.Bounded.{bound_historical_output-SameKeys}
use provisioning_station.Jobs.Model.{Job, Request, State, is_request_id, terminal}
use provisioning_station.Jobs.Persist.{bound_job, persist_locked}
use provisioning_station.Jobs.State.{Host, Manager, Tombstone, fingerprint}
use mathlib.Core.Option

-- What is asked of the identifier, the state and the request of a loaded job.
abbrev Property : Type 1
Property = Text → State → Request → Type 0

-- A job with the property, whose submission has not expired.
pub IsLoaded : Property → Map Text Tombstone → Job → Type 0
IsLoaded Q expired j = Q j.id j.state j.request × (lookup j.request.request_id expired ≡ none)

-- All jobs are like that, and what has expired is as at first.
unfoldable pub AllLoaded : Property → Map Text Tombstone → Manager → Type 0
AllLoaded Q expired m =
    (m.expired ≡ expired) × ((k : Text) (j : Job) → lookup k m.jobs ≡ some j → IsLoaded Q expired j)

-- All jobs but perhaps the one at a key.
unfoldable pub OthersLoaded : Property → Map Text Tombstone → Text → Manager → Type 0
OthersLoaded Q expired k m =
    (m.expired ≡ expired)
    × ((i : Text) (j : Job) → k ≢ i → lookup i m.jobs ≡ some j → IsLoaded Q expired j)

-- The state that a job is loaded with.
abbrev pub loaded_state : State → State
loaded_state s = if unfinished s then State.failed else s

module _ (Q : Property) (expired : Map Text Tombstone) where
  -- The record has the property once it is loaded.
  abbrev Loads : Job → Type 0
  Loads job = Q job.id (loaded_state job.state) job.request

  AllLoaded-others : (k : Text) (m : Manager) → AllLoaded Q expired m → OthersLoaded Q expired k m
  unfolding AllLoaded OthersLoaded
  AllLoaded-others k m (e, a) = (e, λ i j other found. a i j found)

  same-AllLoaded :
      (m m' : Manager)
      → m'.jobs ≡ m.jobs
      → m'.expired ≡ m.expired
      → AllLoaded Q expired m
      → AllLoaded Q expired m'
  unfolding AllLoaded
  same-AllLoaded m m' jobs kept (e, a) =
      (kept ∙ e, λ k j found. a k j (ap (lookup k) (sym jobs) ∙ found))

  -- One job more.
  put-AllLoaded :
      (m m' : Manager) (k : Text) (job : Job)
      → OthersLoaded Q expired k m
      → m'.expired ≡ m.expired
      → m'.jobs ≡ insert k job m.jobs
      → IsLoaded Q expired job
      → AllLoaded Q expired m'
  unfolding AllLoaded OthersLoaded
  put-AllLoaded m m' k job (same_expired, ended) e jobs good = (
    e ∙ same_expired,
    λ i j found.
        let there : (if text_eq k i then some job else lookup i m.jobs) ≡ some j =
          sym (lookup-insert i k job m.jobs) ∙ ap (lookup i) (sym jobs) ∙ found in
        elim (Bool-cases (text_eq k i)) [
          | inl q ↦ subst (IsLoaded Q expired) (cc (rw q at there)) good
          | inr q ↦
              ended i j (λ same_key. cc (sym q ∙ (text_eq_iff k i).1 same_key)) (rw q at there)
        ],
  )

  persist_locked-AllLoaded :
      (h : Host) (io : Option Failure) (m : Manager) (job : Job)
      → AllLoaded Q expired m
      → IsLoaded Q expired job
      → AllLoaded Q expired (persist_locked h io m job).0
  unfolding persist_locked bound_job IsLoaded
  persist_locked-AllLoaded h io m job a good =
      put-AllLoaded m (persist_locked h io m job).0 job.id (bound_job job)
        (AllLoaded-others job.id m a) (ground arith) (ground arith) good

  emit_locked-AllLoaded :
      (h : Host) (now : ℕ) (m : Manager) (job : Job) (level message : Text)
      → OthersLoaded Q expired job.id m
      → IsLoaded Q expired job
      → AllLoaded Q expired (emit_locked h now m job level message).0
        × IsLoaded Q expired (emit_locked h now m job level message).1
  unfolding IsLoaded
  emit_locked-AllLoaded h now m job level message a good =
      let r = emit_locked h now m job level message in
      let e = emit_locked-Emitted h now m job level message in
      let good' : IsLoaded Q expired r.1 = subst (IsLoaded Q expired) (sym e.job_kept) good in
      (
        put-AllLoaded m r.0 job.id r.1 a (ap (λ x. x.expired) e.manager)
            (ap (λ x. x.jobs) e.manager) good',
        good',
      )

  add_loaded-OthersLoaded :
      (e : LoadEntry) (job : Job) (m : Manager)
      → AllLoaded Q expired m
      → OthersLoaded Q expired job.id (add_loaded e job m)
  unfolding AllLoaded OthersLoaded add_loaded
  add_loaded-OthersLoaded e job m (same_expired, a) = (
    same_expired,
    λ i j other found. a i j (sym (lookup-insert_ne i job.id job m.jobs other) ∙ found),
  )

  store_loaded-AllLoaded :
      (h : Host) (e : LoadEntry) (job : Job) (m : Manager)
      → AllLoaded Q expired m
      → Loads job
      → lookup job.request.request_id expired ≡ none
      → AllLoaded Q expired (store_loaded h e job m).0
  unfolding store_loaded interrupt_job terminal add_loaded IsLoaded
  store_loaded-AllLoaded h e job m a good fresh =
      let m₁ = add_loaded e job m in
      let others = add_loaded-OthersLoaded e job m a in
      let ended = interrupt_job e.now e.transcript_size job in
      elim (Bool-cases (unfinished job.state)) [
        | inr over ↦
            rw (over, store_loaded)
              (put-AllLoaded m m₁ job.id job (AllLoaded-others job.id m a) refl refl
                (rw over at good, fresh))
        | inl open_job ↦
            let (told, fine) =
              emit_locked-AllLoaded h e.now m₁ ended (codes "error") ended.error others
                (rw open_job at good, fresh) in
            rw (open_job, store_loaded) (persist_locked-AllLoaded h e.persist_error _ _ told fine)
      ]

  load_bounded-AllLoaded :
      (h : Host) (e : LoadEntry) (job : Job) (m : Manager)
      → AllLoaded Q expired m
      → Loads job
      → lookup job.request.request_id expired ≡ none
      → AllLoaded Q expired (load_bounded h e job m).0
  unfolding load_bounded
  load_bounded-AllLoaded h e job m a good fresh =
      let r = bound_historical_output h e m job in
      let (jobs, kept, i, s, q) = bound_historical_output-SameKeys h e m job in
      let a' : AllLoaded Q expired r.0 = same-AllLoaded m r.0 jobs kept a in
      elim (Option-cases r.2) [
        | inr (p, bad) ↦ rw (bad, load_bounded) a'
        | inl fine ↦
            rw (fine, load_bounded)
              (store_loaded-AllLoaded h e (with_history e r.1) r.0 a' (rw (i, s, q) good)
                (rw q fresh))
      ]

  either-AllLoaded :
      (t : Bool) (x y : Manager × Option LoadError)
      → AllLoaded Q expired x.0
      → AllLoaded Q expired y.0
      → AllLoaded Q expired (if t then x else y).0
  either-AllLoaded true x y f g = f
  either-AllLoaded false x y f g = g

  load_submission-AllLoaded :
      (h : Host) (e : LoadEntry) (job : Job) (m : Manager)
      → AllLoaded Q expired m
      → Loads job
      → lookup job.request.request_id expired ≡ none
      → AllLoaded Q expired (load_submission h e job m).0
  unfolding load_submission AllLoaded
  load_submission-AllLoaded h e job m a good fresh =
      let m₁ = record m { submissions = insert job.request.request_id e.id m.submissions } in
      either-AllLoaded (is_empty job.request.request_id) (load_bounded h e job m) _
        (load_bounded-AllLoaded h e job m a good fresh)
        (either-AllLoaded (not (is_request_id job.request.request_id)) (m, some bad_job_request_id)
          _ a
          (either-AllLoaded (is_some (lookup job.request.request_id m.submissions))
            (m, some duplicate_request_id) (load_bounded h e job m₁) a
            (load_bounded-AllLoaded h e job m₁ a good fresh)))

  load_job-AllLoaded :
      (h : Host) (e : LoadEntry) (job : Job) (m : Manager)
      → AllLoaded Q expired m
      → Loads job
      → AllLoaded Q expired (load_job h e job m).0
  unfolding load_job AllLoaded
  load_job-AllLoaded h e job m a good =
      elim (Option-cases (lookup job.request.request_id m.expired)) [
        | inr (t, known) ↦
            rw (known, load_job)
              (either-AllLoaded
                (text_eq t.job_id e.id && text_eq t.fingerprint (fingerprint h job.request))
                (m, Option.map unreadable_job e.removal_error) (m, some wrong_tombstone) a a)
        | inl fresh ↦
            rw (fresh, load_job)
              (load_submission-AllLoaded h e job m a good
                (ap (lookup job.request.request_id) (sym a.0) ∙ fresh))
      ]

  load_content-AllLoaded :
      (h : Host) (e : LoadEntry) (content : RecordFile) (m : Manager)
      → AllLoaded Q expired m
      → ((job : Job) → content ≡ a_record job → job.id ≡ e.id → Loads job)
      → AllLoaded Q expired (load_content h e content m).0
  unfolding load_content
  load_content-AllLoaded h e not_published m a good = a
  load_content-AllLoaded h e (unreadable_record f) m a good = a
  load_content-AllLoaded h e invalid_record m a good = a
  load_content-AllLoaded h e (a_record job) m a good = elim (Bool-cases (text_eq job.id e.id)) [
    | inr other ↦ rw (other, load_content) a
    | inl same_id ↦
        rw (same_id, load_content)
          (load_job-AllLoaded h e job m a (good job refl ((text_eq_iff job.id e.id).0 same_id)))
  ]

  then_load-AllLoaded :
      (r : Manager × Option LoadError) (after : Manager → Manager × Option LoadError)
      → AllLoaded Q expired r.0
      → ((m : Manager) → AllLoaded Q expired m → AllLoaded Q expired (after m).0)
      → AllLoaded Q expired (then_load after r).0
  unfolding then_load
  then_load-AllLoaded (m, some e) after a rest = a
  then_load-AllLoaded (m, none) after a rest = rest m a

  load-AllLoaded :
      (h : Host) (es : List LoadEntry) (m : Manager)
      → AllLoaded Q expired m
      → ((e : LoadEntry) (job : Job)
          → Memᴰ e es
          → e.content ≡ a_record job
          → job.id ≡ e.id
          → Loads job)
      → AllLoaded Q expired (load h es m).0
  unfolding load load_entry
  load-AllLoaded h [] m a good = a
  load-AllLoaded h (e ∷ es) m a good =
      let first =
        either-AllLoaded e.is_directory (load_content h e e.content m) (m, none)
          (load_content-AllLoaded h e e.content m a (λ job q i. good e job (Memᴰ.head refl) q i))
          a in
      then_load-AllLoaded (load_entry h e m) (load h es) first
        (λ m' fine. load-AllLoaded h es m' fine (λ x job i q n. good x job (Memᴰ.tail i) q n))

-- The record of a job at one of the entries, with the identifier and the request, and with the
-- state it is loaded with.
abbrev pub FromRecord : List LoadEntry → Property
FromRecord es id state request =
    (e : LoadEntry) × (old : Job) × Memᴰ e es
    × (e.content ≡ a_record old)
    × (id ≡ e.id)
    × (request ≡ old.request)
    × (state ≡ loaded_state old.state)

-- Loading the job store into a manager without jobs, also where it fails on the way, gives only
-- jobs from the records of the store, with the identifier of the entry and the request of the
-- record: one that waited or ran is failed and any other has the state of its record, and none
-- is loaded whose submission has expired.
pub load-FromRecord :
    (h : Host) (es : List LoadEntry) (m : Manager) (k : Text) (j : Job)
    → m.jobs ≡ []
    → lookup k (load h es m).0.jobs ≡ some j
    → FromRecord es j.id j.state j.request × (lookup j.request.request_id m.expired ≡ none)
unfolding AllLoaded IsLoaded lookup
load-FromRecord h es m k j no_jobs found =
    (load-AllLoaded (FromRecord es) m.expired h es m
        (refl, λ i x there. cc (sym (ap (lookup i) no_jobs) ∙ there))
        (λ e job i q n. (e, job, i, q, n, refl, refl))).1
      k j found
