-- ===== src/Jobs/Run/Absorb.antt =====
-- Where a job that has ended may go (internal/jobs/manager.go, and `cleanupLocked` of retention.go).
use provisioning_station.Base.{
  Bool, Failure, Memᴰ, Option, Option-cases, Text, ap, arith, erase, false, inl, inr, insert,
  lookup, none, refl, some, subst, sym, text_key, true, ℕ, ◌∙◌, ◌≡◌, ◌≢◌, ◌⊎◌,
}
use provisioning_station.Jobs.Model.{Job, Request, State, canceled, running, terminal}
use provisioning_station.Jobs.Run.{cancel, final_run_error, finish, start, stop}
use provisioning_station.Jobs.Run.Begin.{finished_kept, start_parts}
use provisioning_station.Jobs.Run.Change.{cancel_cases}
use provisioning_station.Jobs.Run.Finish.{finish-Updates, fresh_directory, unplaced}
use provisioning_station.Jobs.Run.Keep.{
  Touched, add_task_error-Touched, begin_capture-Touched, emit-Touched, observe-Touched,
  set_capture-Touched, set_outcome-Touched, touched, untouched,
}
use provisioning_station.Jobs.Run.Life.{Reach-Sound}
use provisioning_station.Jobs.Run.Retire.{cleanup-Stays, subscribe-SameJobs, unsubscribe-SameJobs}
use provisioning_station.Jobs.Run.System.{
  Reach, Sound, Step, System, begins, books, cancels, captures, complains, creates, decides,
  dequeues, emits, finishes, here, next, observes, prunes, starts, stops, subscribes, unsubscribes,
}
use provisioning_station.Jobs.Run.Updates.{Updates, Updates-find, announce-Updates, put_job-Updates}
use provisioning_station.Jobs.State.{Host, Manager, find_job, put_job}
use provisioning_station.Jobs.Submit.{Admission, check_request, create_context}
use provisioning_station.Jobs.Submit.Enter.{enter-Tried}
use provisioning_station.Retention.Cleaning.{cleanup, to_prune}
use provisioning_station.Retention.Model.{CleanupEnv}

-- A job that has ended is there, and in this state.
abbrev pub Ended : Manager → Text → State → Type 0
Ended m id state = (job : Job) × (find_job m id ≡ some job) × (job.state ≡ state)

module _ (h : Host) (s : System) (v : Sound s) (id : Text) (state : State)
    (end : terminal state ≡ true) (e : Ended s.manager id state) where
  Updates-Ended :
      (m m' : Manager) (job : Job)
      → Ended m id state
      → Updates m job m'
      → (job.id ≡ id → job.state ≡ state)
      → Ended m' id state
  Updates-Ended m m' job f u k = elim (Updates-find m m' job u id) [
    | inl (p, q) ↦ (u.stored, q, u.state_kept ∙ k (sym p))
    | inr (ne, q) ↦ (f.0, q ∙ f.1, f.2)
  ]

  Touched-Ended : (m' : Manager) → Touched s.manager m' → Ended m' id state
  Touched-Ended m' untouched = e
  Touched-Ended m' (touched j old changed f i t u) =
      Updates-Ended s.manager m' changed e u
        (λ p. ground (arith, f, i, t, p, v.named j old f, e.1, e.2))

  -- The job is not the one that the worker runs, and it is not waiting.
  not_worker : (j : Text) → s.worker ≡ some j → j ≢ id
  unfolding terminal
  not_worker j w p = let (job, f, r) = v.worker_runs j w in ground (arith, end, f, r, p, e.1, e.2)

  cancel-Ended :
      (now : ℕ) (io : Option Failure) (j : Text) → Ended (cancel h now io s.manager j) id state
  cancel-Ended now io j =
      cancel_cases h s v (λ m. Ended m id state) now io j e (λ c q. e)
        λ job f t q.
          let ended : Job = record job { state = canceled; finished = some now } in
          Updates-Ended s.manager _ ended e
            (put_job-Updates s.manager _ ended
              (announce-Updates h now io (put_job s.manager ended) ended _ _))
            (λ p. absurd (ground (arith, end, t, f, p, v.named j job f, e.1, e.2)))

  finish-Ended :
      (now : ℕ) (io : Option Failure) (j : Text) (err : Option Failure)
      → s.worker ≡ some j
      → Ended (finish h now io s.manager j err) id state
  finish-Ended now io j err w =
      let (job, f, _) = v.worker_runs j w in
      let (i, _, _) = finished_kept h s v now (final_run_error s.manager j err) job in
      Updates-Ended (record s.manager { cancellers = erase j s.manager.cancellers }) _ _ e
        (finish-Updates h now io s.manager j err job f)
        (λ p. absurd (not_worker j w (sym (v.named j job f) ∙ (sym i ∙ p))))

  start-Ended :
      (now : ℕ) (io : Option Failure) (j : Text) (m : Manager)
      → start h now io s.manager j ≡ some m
      → Ended m id state
  unfolding terminal
  start-Ended now io j m q =
      let (job, f, waiting, eq) = start_parts h s v now io j m q in
      let begun : Job = record job { state = running; started = some now } in
      let m₀ : Manager = record s.manager { cancellers = insert j false s.manager.cancellers } in
      Updates-Ended m₀ m begun e
        (subst (Updates m₀ begun) (sym eq)
          (put_job-Updates m₀ _ begun (announce-Updates h now io (put_job m₀ begun) begun _ _)))
        (λ p. absurd (ground (arith, end, waiting, f, p, v.named j job f, e.1, e.2)))

  create-Ended : (a : Admission) (r : Request) → Ended (create_context h a s.manager r).0 id state
  unfolding create_context
  create-Ended a r = elim (Option-cases (check_request h a s.manager r)) [
    | inr (x, q) ↦ rw (q, create_context) e
    | inl q ↦
        let absent = unplaced h s v a.random_id (fresh_directory h s v a r q) in
        rw (q, create_context)
          (
            e.0,
            (enter-Tried h a s.manager r).others id (λ p. absurd (ground (arith, absent, p, e.1)))
                ∙ e.1,
            e.2,
          )
  ]

  -- A cleanup that makes the job go, with the job among those to prune.
  abbrev pub Pruned : System → Type 0
  Pruned t =
      (c : CleanupEnv) × (apply : Bool) × (need : ℕ) × (Memᴰ e.0 (to_prune s.manager))
      × (t ≡ record s { manager = (cleanup h c s.manager apply need).0.manager })
      × (find_job t.manager id ≡ none)

  pub Step-Ended : (t : System) → Step h s t → Ended t.manager id state ⊎ Pruned t
  unfolding stop
  Step-Ended t (creates a r) = inl (create-Ended a r)
  Step-Ended t (cancels now io j) = inl (cancel-Ended now io j)
  Step-Ended t (emits now j level message) =
      inl (Touched-Ended _ (emit-Touched h s.manager now j level message))
  Step-Ended t (starts now io j m idle q) = inl (start-Ended now io j m q)
  Step-Ended t (begins now io j c w) =
      inl (Touched-Ended _ (begin_capture-Touched h s.manager now io j c))
  Step-Ended t (captures io j c w) = inl (Touched-Ended _ (set_capture-Touched h s.manager io j c))
  Step-Ended t (observes now io j o message w) =
      inl (Touched-Ended _ (observe-Touched h s.manager now io j o message))
  Step-Ended t (decides io j outcome err w) =
      inl (Touched-Ended _ (set_outcome-Touched h s.manager io j outcome err))
  Step-Ended t (complains now j message w) =
      inl (Touched-Ended _ (add_task_error-Touched h s.manager now j message))
  Step-Ended t (finishes now io j err w) = inl (finish-Ended now io j err w)
  Step-Ended t stops = inl e
  Step-Ended t (dequeues j rest idle q) = inl e
  Step-Ended t (subscribes j after fresh m history channel q) = inl (
    e.0,
    ap (lookup id) (subscribe-SameJobs s.manager j after fresh m history channel q).0 ∙ e.1,
    e.2,
  )
  Step-Ended t (unsubscribes j channel) =
      inl (e.0, ap (lookup id) (unsubscribe-SameJobs s.manager j channel).0 ∙ e.1, e.2)
  Step-Ended t (books budget) = inl e
  Step-Ended t (prunes c apply need) = elim (cleanup-Stays h s v id e.0 e.1 c apply need) [
    | inl there ↦ inl (e.0, there, e.2)
    | inr (gone, among) ↦ inr (c, apply, need, among, refl, gone)
  ]

-- The job was there in its state until a cleanup pruned it, which it is among the jobs for: it had
-- ended, and it was behind the newest thirty of those that had.
abbrev pub PrunedOnTheWay : Host → System → System → Text → State → Type 0
PrunedOnTheWay h s t id state =
    (u : System) × (c : CleanupEnv) × (apply : Bool) × (need : ℕ) × (job : Job) × Reach h s u
    × (find_job u.manager id ≡ some job)
    × (job.state ≡ state)
    × Memᴰ job (to_prune u.manager)
    × (let after = (cleanup h c u.manager apply need).0.manager in
        (find_job after id ≡ none) × Reach h (record u { manager = after }) t)

-- From a sound system, after every sequence of the critical sections of Step, cleanups among
-- them, a job that has succeeded, failed or been canceled is still there and in the same state,
-- or else it was in that state until a cleanup after which it was gone, and there it was among
-- the jobs to prune, which are those beyond the newest 30 that have ended.
pub terminal_absorbs :
    (h : Host) (s t : System) (id : Text) (job : Job)
    → Sound s
    → find_job s.manager id ≡ some job
    → terminal job.state ≡ true
    → Reach h s t
    → Ended t.manager id job.state ⊎ PrunedOnTheWay h s t id job.state
terminal_absorbs h s t id job v e end here = inl (job, e, refl)
terminal_absorbs h s t id job v e end (next {t = u} r st) =
    elim (terminal_absorbs h s u id job v e end r) [
      | inr (w, c, apply, need, j, r₁, f, q, among, (gone, r₂)) ↦
          inr (w, c, apply, need, j, r₁, f, q, among, (gone, next r₂ st))
      | inl still ↦ elim (Step-Ended h u (Reach-Sound h s u v r) id job.state end still t st) [
        | inl there ↦ inl there
        | inr (c, apply, need, among, made, gone) ↦
            let left : find_job (cleanup h c u.manager apply need).0.manager id ≡ none =
              ap (λ x. find_job x.manager id) (sym made) ∙ gone in
            let onward : Reach h
                (record u { manager = (cleanup h c u.manager apply need).0.manager }) t =
              subst (λ x. Reach h x t) made here in
            inr (u, c, apply, need, still.0, r, still.1, still.2, among, (left, onward))
      ]
    ]
