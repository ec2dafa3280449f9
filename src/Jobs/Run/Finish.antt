-- ===== src/Jobs/Run/Finish.antt =====
-- The last critical section of a run, and the creation of a job.
use provisioning_station.Base.{
  Bool-cases, Failure, Option, Option-cases, Text, arith, contains, erase, false, inl, inr, none,
  some, subst, sym, text_eq, text_eq_iff, text_key, true, ℕ, ◌∙◌, ◌≡◌, ◌≢◌, ◌⊎◌,
}
use provisioning_station.Jobs.Events.{close_subscribers}
use provisioning_station.Jobs.Model.{Job, Request, queued}
use provisioning_station.Jobs.Run.{announce, final_run_error, finish, finished_job}
use provisioning_station.Jobs.Run.Begin.{ended_Sound, finished_kept}
use provisioning_station.Jobs.Run.System.{Sound, System}
use provisioning_station.Jobs.Run.Updates.{
  Updates, announce-Updates, close_subscribers-Updates, put_job-Updates,
}
use provisioning_station.Jobs.State.{Host, Manager, find_job, put_job}
use provisioning_station.Jobs.Submit.{Admission, check_directory, check_request, create_context}
use provisioning_station.Jobs.Submit.Enter.{Tried, enter-Tried}

module _ (h : Host) (now : ℕ) (io : Option Failure) (m : Manager) (id : Text)
    (err : Option Failure) where
  abbrev pub ending : Job → Job × Text × Text
  ending job = finished_job now (final_run_error m id err) job

  -- The manager after `finish` has stored the ended job.
  pub finish-Updates :
      (job : Job)
      → find_job m id ≡ some job
      → Updates
          (record m { cancellers = erase id m.cancellers })
          (ending job).0
          (finish h now io m id err)
  finish-Updates job e =
      let m₁ : Manager = record m { cancellers = erase id m.cancellers } in
      let ended : Job = (ending job).0 in
      let a : Manager = announce h now io (put_job m₁ ended) ended (ending job).1 (ending job).2 in
      let eq : finish h now io m id err ≡ close_subscribers a id =
        unfold finish in (rw (e, finish)) in
      subst (Updates m₁ ended) (sym eq) (
        close_subscribers-Updates m₁ a ended id
          (put_job-Updates m₁ a ended (announce-Updates h now io (put_job m₁ ended) ended _ _)))

module _ (h : Host) (s : System) (v : Sound s) where
  pub finish-Sound :
      (now : ℕ) (io : Option Failure) (id : Text) (err : Option Failure)
      → s.worker ≡ some id
      → Sound (record { manager = finish h now io s.manager id err; worker = none })
  finish-Sound now io id err w =
      let (job, f, _) = v.worker_runs id w in
      let (i, _, r) = finished_kept h s v now (final_run_error s.manager id err) job in
      ended_Sound h s v id _ job (ending h now io s.manager id err job).0 w f (i ∙ v.named id job f)
        r (finish-Updates h now io s.manager id err job f)

  pub fresh_directory :
      (a : Admission) (r : Request)
      → check_request h a s.manager r ≡ none
      → contains s.manager.directories a.random_id ≡ false
  unfolding check_request check_directory
  fresh_directory a r e = ground arith

  pub unplaced :
      (id : Text) → contains s.manager.directories id ≡ false → find_job s.manager id ≡ none
  unplaced id c = elim (Option-cases (find_job s.manager id)) [
    | inl e ↦ e
    | inr (job, e) ↦ absurd (ground (arith, c, v.placed id job e))
  ]

  -- What a lookup finds after an attempt to enter a job: what was there before, or the waiting job.
  module _ (a : Admission) (m' : Manager) (t : Tried a s.manager m')
      (absent : find_job s.manager a.random_id ≡ none) where
    pub tried_find :
        (id : Text) (job : Job)
        → find_job m' id ≡ some job
        → (find_job s.manager id ≡ some job)
          ⊎ ((id ≡ a.random_id) × (job.id ≡ id) × (job.state ≡ queued))
    tried_find id job e = elim (Bool-cases (text_eq id a.random_id)) [
      | inl q ↦
          let p = (text_eq_iff id a.random_id).0 q in
          elim t.entry [
            | inl gone ↦ absurd (ground (arith, gone, e, p))
            | inr (j, f, i, w) ↦ inr (p, ground (arith, f, e, i, p), ground (arith, f, e, w, p))
          ]
      | inr q ↦
          let ne : id ≢ a.random_id = λ p. cc (sym q ∙ (text_eq_iff id a.random_id).1 p) in
          inl (sym (t.others id ne) ∙ e)
    ]

    tried_placed :
        (id : Text) (job : Job) → find_job m' id ≡ some job → contains m'.directories id ≡ true
    unfolding contains
    tried_placed id job e = elim (tried_find id job e) [
      | inl f ↦ ground (arith, t.directories_grown, v.placed id job f)
      | inr (p, _, _) ↦ ground (arith, t.directories_grown, p, text_eq_iff a.random_id id)
    ]

    tried_Sound : Sound (record s { manager = m' })
    tried_Sound = record {
      named =
          λ id job e. elim (tried_find id job e) [ inl f ↦ v.named id job f | inr (_, i, _) ↦ i ];
      placed = tried_placed;
      running_works = λ id job e r. elim (tried_find id job e) [
        | inl f ↦ v.running_works id job f r
        | inr (_, _, w) ↦ absurd (cc (sym w ∙ r))
      ];
      worker_runs = λ id w.
          let (job, f, r) = v.worker_runs id w in
          (job, t.others id (λ p. absurd (ground (arith, f, absent, p))) ∙ f, r);
      context_works = λ id c e. v.context_works id c (rw t.cancellers_kept at e);
      worker_context = λ id w e. v.worker_context id w (rw t.cancellers_kept at e);
    }

  pub create-Sound :
      (a : Admission) (r : Request)
      → Sound (record s { manager = (create_context h a s.manager r).0 })
  unfolding create_context
  create-Sound a r = elim (Option-cases (check_request h a s.manager r)) [
    | inr (x, e) ↦ rw (e, create_context) v
    | inl e ↦
        rw (e, create_context)
          (tried_Sound a _ (enter-Tried h a s.manager r)
            (unplaced a.random_id (fresh_directory a r e)))
  ]
