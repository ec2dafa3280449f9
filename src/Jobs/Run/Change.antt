-- ===== src/Jobs/Run/Change.antt =====
-- The critical sections that change a job's state keep the system sound.
use provisioning_station.Base.{
  Bool, Bool-cases, Failure, Option, Option-cases, Text, arith, codes, false, inl, inr, insert,
  lookup, lookup-insert, none, some, text_eq_iff, text_key, true, ℕ, ◌≡◌, ◌≢◌,
}
use provisioning_station.Jobs.Model.{Job, canceled, running, terminal}
use provisioning_station.Jobs.Run.{announce, cancel}
use provisioning_station.Jobs.Run.System.{Sound, Sound-Updates, System}
use provisioning_station.Jobs.Run.Updates.{announce-Updates, put_job-Updates}
use provisioning_station.Jobs.State.{Host, Manager, find_job, put_job}

module _ (h : Host) (s : System) (v : Sound s) where
  -- A job that is not running has no context.
  pub no_context :
      (id : Text) (job : Job)
      → find_job s.manager id ≡ some job
      → job.state ≢ running
      → lookup id s.manager.cancellers ≡ none
  no_context id job e ne = elim (Option-cases (lookup id s.manager.cancellers)) [
    | inl q ↦ q
    | inr (c, q) ↦
        let (j, f, r) = v.worker_runs id (v.context_works id c q) in
        absurd (ne (ground (arith, e, f, r)))
  ]

  told_Sound :
      (id : Text) (c : Bool)
      → lookup id s.manager.cancellers ≡ some c
      → Sound (record s {
        manager = record s.manager { cancellers = insert id true s.manager.cancellers };
      })
  told_Sound id c q = record {
    named = v.named;
    placed = v.placed;
    running_works = v.running_works;
    worker_runs = v.worker_runs;
    context_works = λ j d e. ground (
      arith,
      v.context_works id c q,
      v.context_works j d,
      lookup-insert j id true s.manager.cancellers,
      text_eq_iff id j,
    );
    worker_context =
        λ j w e. ground (arith, v.worker_context j w, lookup-insert j id true s.manager.cancellers);
  }

  cancel_waiting :
      (now : ℕ) (io : Option Failure) (id : Text) (job : Job)
      → find_job s.manager id ≡ some job
      → job.state ≢ running
      → let ended = record job { state = canceled; finished = some now } in
        Sound (record s {
          manager =
              announce h now io
                (put_job s.manager ended)
                ended
                (codes "warning")
                (codes "Job canceled before execution");
        })
  cancel_waiting now io id job e ne =
      let ended : Job = record job { state = canceled; finished = some now } in
      Sound-Updates s _ ended job v
        (put_job-Updates s.manager _ ended
          (announce-Updates h now io (put_job s.manager ended) ended _ _))
        (ground (arith, e, v.named id job e)) (λ r. absurd (cc r)) (λ r. absurd (ne r))

  pub cancel_cases {ℓ} :
      (P : Manager → Type ℓ) (now : ℕ) (io : Option Failure) (id : Text)
      → P s.manager
      → ((c : Bool)
          → lookup id s.manager.cancellers ≡ some c
          → P (record s.manager { cancellers = insert id true s.manager.cancellers }))
      → ((job : Job)
          → find_job s.manager id ≡ some job
          → terminal job.state ≡ false
          → lookup id s.manager.cancellers ≡ none
          → let ended = record job { state = canceled; finished = some now } in
            P (
              announce h now io
                (put_job s.manager ended)
                ended
                (codes "warning")
                (codes "Job canceled before execution")))
      → P (cancel h now io s.manager id)
  unfolding cancel
  cancel_cases P now io id kept told ended = elim (Option-cases (find_job s.manager id)) [
    | inl e ↦ rw (e, cancel) kept
    | inr (job, e) ↦ elim (Bool-cases (terminal job.state)) [
      | inl t ↦ rw (e, cancel) (rw t kept)
      | inr t ↦ elim (Option-cases (lookup id s.manager.cancellers)) [
        | inl q ↦ rw (e, cancel) (rw t (rw q (ended job e t q)))
        | inr (c, q) ↦ rw (e, cancel) (rw t (rw q (told c q)))
      ]
    ]
  ]

  pub cancel-Sound :
      (now : ℕ) (io : Option Failure) (id : Text)
      → Sound (record s { manager = cancel h now io s.manager id })
  cancel-Sound now io id =
      cancel_cases (λ m. Sound (record s { manager = m })) now io id v (told_Sound id)
        λ job e t q.
          cancel_waiting now io id job e λ r. v.worker_context id (v.running_works id job e r) q
