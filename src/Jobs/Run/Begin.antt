-- ===== src/Jobs/Run/Begin.antt =====
-- Creating, starting and finishing a job keep the system sound.
use provisioning_station.Base.{
  Failure, Option, Option-cases, Text, ap, arith, codes, contains, erase, false, inl, inr, insert,
  lookup, lookup-erase, lookup-insert, none, refl, some, subst, sym, text_eq_iff, text_key, true, ℕ,
  ◌∙◌, ◌≡◌, ◌≢◌,
}
use provisioning_station.Jobs.Model.{Job, queued, running, terminal}
use provisioning_station.Jobs.Run.{announce, finished_job, start}
use provisioning_station.Jobs.Run.System.{Sound, System}
use provisioning_station.Jobs.Run.Updates.{Updates, Updates-find, announce-Updates, put_job-Updates}
use provisioning_station.Jobs.State.{Host, Manager, find_job, put_job}

module _ (h : Host) (s : System) (v : Sound s) where
  -- The parts of a successful `start`.
  pub start_parts :
      (now : ℕ) (io : Option Failure) (id : Text) (m : Manager)
      → start h now io s.manager id ≡ some m
      → (job : Job) × (find_job s.manager id ≡ some job)
        × (job.state ≡ queued)
        × (let begun = record job { state = running; started = some now } in
            m
            ≡ announce h now io
                (put_job
                  (record s.manager { cancellers = insert id false s.manager.cancellers })
                  begun)
                begun
                (codes "info")
                (codes "Job started"))
  unfolding start
  start_parts now io id m e = elim (Option-cases (find_job s.manager id)) [
    | inl q ↦ absurd (ground (arith, e, q))
    | inr (job, q) ↦ (job, q, ground (arith, e, q), ground (arith, e, q))
  ]

  module _ (id : Text) (m : Manager) (job begun : Job) (idle : s.worker ≡ none)
      (f : find_job s.manager id ≡ some job) (i : begun.id ≡ id) (r : begun.state ≡ running)
      (u : Updates
        (record s.manager { cancellers = insert id false s.manager.cancellers })
        begun
        m) where
    no_worker_context : (j : Text) → lookup j s.manager.cancellers ≡ none
    no_worker_context j = elim (Option-cases (lookup j s.manager.cancellers)) [
      | inl z ↦ z
      | inr (d, z) ↦ absurd (cc (sym idle ∙ v.context_works j d z))
    ]

    abbrev grown : Manager
    grown = record s.manager { cancellers = insert id false s.manager.cancellers }

    begun_named : (j : Text) (x : Job) → find_job m j ≡ some x → x.id ≡ j
    begun_named j x q = elim (Updates-find grown m begun u j) [
      | inl (p, q') ↦ ground (arith, q, q', p, u.named)
      | inr (ne, q') ↦ v.named j x (sym q' ∙ q)
    ]

    begun_placed : (j : Text) (x : Job) → find_job m j ≡ some x → contains m.directories j ≡ true
    begun_placed j x q = elim (Updates-find grown m begun u j) [
      | inl (p, q') ↦ rw (u.directories_kept, p, i) (v.placed id job f)
      | inr (ne, q') ↦ rw u.directories_kept (v.placed j x (sym q' ∙ q))
    ]

    begun_works :
        (j : Text) (x : Job) → find_job m j ≡ some x → x.state ≡ running → some id ≡ some j
    begun_works j x q r' = elim (Updates-find grown m begun u j) [
      | inl (p, q') ↦ ap some (sym (p ∙ i))
      | inr (ne, q') ↦ absurd (cc (sym idle ∙ v.running_works j x (sym q' ∙ q) r'))
    ]

    begun_runs :
        (j : Text) → some id ≡ some j → (x : Job) × (find_job m j ≡ some x) × (x.state ≡ running)
    begun_runs j w = (u.stored, ground (arith, w, u.found, i), u.state_kept ∙ r)

    begun_Sound : Sound (record { manager = m; worker = some id })
    begun_Sound = record {
      named = begun_named;
      placed = begun_placed;
      running_works = begun_works;
      worker_runs = begun_runs;
      context_works = λ j c q. ground (
        arith,
        q,
        u.cancellers_kept,
        no_worker_context j,
        lookup-insert j id false s.manager.cancellers,
        text_eq_iff id j,
      );
      worker_context = λ j w q. ground (
        arith,
        w,
        q,
        u.cancellers_kept,
        lookup-insert j id false s.manager.cancellers,
        text_eq_iff id j,
      );
    }

  pub start-Sound :
      (now : ℕ) (io : Option Failure) (id : Text) (m : Manager)
      → s.worker ≡ none
      → start h now io s.manager id ≡ some m
      → Sound (record { manager = m; worker = some id })
  start-Sound now io id m idle e =
      let (job, f, waiting, eq) = start_parts now io id m e in
      let begun : Job = record job { state = running; started = some now } in
      let m₀ : Manager = record s.manager { cancellers = insert id false s.manager.cancellers } in
      begun_Sound id m job begun idle f (v.named id job f) refl (
        subst (Updates m₀ begun) (sym eq)
          (put_job-Updates m₀ _ begun (announce-Updates h now io (put_job m₀ begun) begun _ _)))

  pub finished_kept :
      (now : ℕ) (err : Option Failure) (job : Job)
      → ((finished_job now err job).0.id ≡ job.id)
        × (terminal (finished_job now err job).0.state ≡ true)
        × ((finished_job now err job).0.state ≢ running)
  unfolding finished_job terminal
  finished_kept now none job = ground arith
  finished_kept now (some f) job = ground arith

  module _ (id : Text) (m : Manager) (job ended : Job) (busy : s.worker ≡ some id)
      (f : find_job s.manager id ≡ some job) (i : ended.id ≡ id) (r : ended.state ≢ running)
      (u : Updates (record s.manager { cancellers = erase id s.manager.cancellers }) ended m) where
    abbrev shrunk : Manager
    shrunk = record s.manager { cancellers = erase id s.manager.cancellers }

    ended_works : (j : Text) (x : Job) → find_job m j ≡ some x → x.state ≡ running → none ≡ some j
    ended_works j x q r' = elim (Updates-find shrunk m ended u j) [
      | inl (p, q') ↦ absurd (r (sym u.state_kept ∙ ground (arith, q, q', r')))
      | inr (ne, q') ↦ absurd (ne (ground (arith, busy, i, v.running_works j x (sym q' ∙ q) r')))
    ]

    pub ended_Sound : Sound (record { manager = m; worker = none })
    ended_Sound = record {
      named = λ j x q. elim (Updates-find shrunk m ended u j) [
        | inl (p, q') ↦ ground (arith, q, q', p, u.named)
        | inr (ne, q') ↦ v.named j x (sym q' ∙ q)
      ];
      placed = λ j x q. elim (Updates-find shrunk m ended u j) [
        | inl (p, q') ↦ rw (u.directories_kept, p, i) (v.placed id job f)
        | inr (ne, q') ↦ rw u.directories_kept (v.placed j x (sym q' ∙ q))
      ];
      running_works = ended_works;
      worker_runs = λ j w. absurd (cc w);
      context_works = λ j c q. absurd (
          ground (
            arith,
            q,
            u.cancellers_kept,
            busy,
            v.context_works j c,
            lookup-erase j id s.manager.cancellers,
            text_eq_iff id j,
          ));
      worker_context = λ j w. absurd (cc w);
    }
