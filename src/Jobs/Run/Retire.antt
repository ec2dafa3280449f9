-- ===== src/Jobs/Run/Retire.antt =====
-- What a cleanup (`cleanupLocked` of internal/jobs/retention.go) leaves of the manager's system.
use provisioning_station.Base.{
  Bool, Bool-cases, List, Memᴰ, Text, [], ap, arith, contains, erase, inl, inr, lookup,
  lookup-erase, lookup-erase_ne, none, refl, some, subst, sym, text_eq, text_eq_iff, text_key, ℕ,
  ◌∙◌, ◌∷◌, ◌≡◌, ◌≢◌, ◌⊎◌,
}
use provisioning_station.Jobs.Events.{close_subscribers, subscribe, unsubscribe}
use provisioning_station.Jobs.Model.{Event, Job, terminal}
use provisioning_station.Jobs.Run.System.{Sound, Sound-alike, System}
use provisioning_station.Jobs.State.{Host, Manager, Subscriber, find_job}
use provisioning_station.Retention.Cleaning.{
  cleanup, expire_submission, forget_job, to_prune, without_directory,
}
use provisioning_station.Retention.Guarded.{Keyed, named-Keyed}
use provisioning_station.Retention.Members.{to_prune-Memᴰ}
use provisioning_station.Retention.Model.{CleanupEnv, is_active}
use provisioning_station.Retention.Rule.{IsKept, cleanup_rule}

contains-without_directory :
    (id gone : Text) (ds : List Text)
    → id ≢ gone
    → contains (without_directory gone ds) id ≡ contains ds id
unfolding contains without_directory
contains-without_directory id gone [] ne = refl
contains-without_directory id gone (d ∷ ds) ne =
    ground (arith, contains-without_directory id gone ds ne, text_eq_iff d gone, text_eq_iff d id)

-- The jobs, the directories and the contexts are the same.
abbrev pub SameJobs : Manager → Manager → Type 0
SameJobs m' m =
    (m'.jobs ≡ m.jobs) × (m'.directories ≡ m.directories) × (m'.cancellers ≡ m.cancellers)

pub subscribe-SameJobs :
    (m : Manager) (id : Text) (after fresh : ℕ) (m' : Manager) (history : List Event)
    (channel : Subscriber)
    → subscribe m id after fresh ≡ some (m', history, channel)
    → SameJobs m' m
unfolding subscribe
subscribe-SameJobs m id after fresh m' history channel e = ground arith

pub unsubscribe-SameJobs :
    (m : Manager) (id : Text) (channel : ℕ) → SameJobs (unsubscribe m id channel) m
unfolding unsubscribe
unsubscribe-SameJobs m id channel = ground arith

module _ (h : Host) (s : System) (v : Sound s) where
  pub sound-Keyed : Keyed s.manager
  sound-Keyed = named-Keyed s.manager v.named

  -- The worker's job is not pruned.
  other_than_pruned :
      (i : Text) (j : Job) → Memᴰ j (to_prune s.manager) → s.worker ≡ some i → j.id ≢ i
  unfolding terminal
  other_than_pruned i j pruned w alike =
      let (there, ended) = to_prune-Memᴰ s.manager j pruned in
      let (job, f, r) = v.worker_runs i w in ground (arith, ended, sound-Keyed j there, f, r, alike)

  forget_job-Sound :
      (m : Manager) (stays : Bool) (j : Job)
      → Memᴰ j (to_prune s.manager)
      → Sound (record s { manager = m })
      → Sound (record s { manager = forget_job stays j m })
  unfolding forget_job close_subscribers
  forget_job-Sound m stays j pruned u =
      let found_before : (id : Text) (x : Job)
          → lookup id (erase j.id m.jobs) ≡ some x
          → (j.id ≢ id) × (lookup id m.jobs ≡ some x) =
        λ id x e.
          let q = lookup-erase id j.id m.jobs in
          (λ alike. ground (arith, e, q, alike, text_eq_iff j.id id), ground (arith, e, q)) in
      record {
        named = λ id x e. u.named id x (found_before id x e).1;
        placed = λ id x e.
            let (ne, f) = found_before id x e in
            ground (
              arith,
              u.placed id x f,
              contains-without_directory id j.id m.directories (λ q. ne (sym q)),
            );
        running_works = λ id x e r. u.running_works id x (found_before id x e).1 r;
        worker_runs = λ id w.
            let (x, f, r) = u.worker_runs id w in
            (x, lookup-erase_ne id j.id m.jobs (other_than_pruned id j pruned w) ∙ f, r);
        context_works = u.context_works;
        worker_context = u.worker_context;
      }

  Sound-IsKept :
      IsKept h
        (λ j. Memᴰ j (to_prune s.manager))
        (is_active s.manager)
        (λ m d. Sound (record s { manager = m }))
  unfolding expire_submission
  Sound-IsKept = record {
    wrote = λ m d j e p. p;
    expired = λ m d j e g p. Sound-alike (record s { manager = m }) _ refl refl refl p;
    removed = λ m d j e b p. Sound-alike (record s { manager = m }) _ refl refl refl p;
    forgotten = λ m d stays j e b x p. forget_job-Sound m stays j e p;
    evicted = λ m d a idle p. p;
  }

  pub cleanup-Sound :
      (e : CleanupEnv) (apply : Bool) (need : ℕ)
      → Sound (record s { manager = (cleanup h e s.manager apply need).0.manager })
  cleanup-Sound e apply need =
      cleanup_rule h e s.manager apply need (λ m d. Sound (record s { manager = m })) Sound-IsKept v

  pub subscribe-Sound :
      (id : Text) (after fresh : ℕ) (m : Manager) (history : List Event) (channel : Subscriber)
      → subscribe s.manager id after fresh ≡ some (m, history, channel)
      → Sound (record s { manager = m })
  subscribe-Sound id after fresh m history channel e =
      let (jobs, directories, cancellers) =
        subscribe-SameJobs s.manager id after fresh m history channel e in
      Sound-alike s m jobs directories cancellers v

  pub unsubscribe-Sound :
      (id : Text) (channel : ℕ) → Sound (record s { manager = unsubscribe s.manager id channel })
  unsubscribe-Sound id channel =
      let (jobs, directories, cancellers) = unsubscribe-SameJobs s.manager id channel in
      Sound-alike s _ jobs directories cancellers v

  -- A job that has ended stays, unless it is one to be pruned and is gone.
  module _ (id : Text) (job : Job) (found : find_job s.manager id ≡ some job) where
    abbrev Stays : Manager → Type 0
    Stays m = (find_job m id ≡ some job) ⊎ ((find_job m id ≡ none) × Memᴰ job (to_prune s.manager))

    forget_job-Stays :
        (m : Manager) (stays : Bool) (j : Job)
        → Memᴰ j (to_prune s.manager)
        → Stays m
        → Stays (forget_job stays j m)
    unfolding forget_job close_subscribers
    forget_job-Stays m stays j pruned (inr (gone, p)) =
        inr (ground (arith, gone, lookup-erase id j.id m.jobs), p)
    forget_job-Stays m stays j pruned (inl f) = elim (Bool-cases (text_eq j.id id)) [
      | inr e ↦ inl (ground (arith, e, f, lookup-erase id j.id m.jobs))
      | inl e ↦
          let there = (to_prune-Memᴰ s.manager j pruned).0 in
          let key = (text_eq_iff j.id id).0 e in
          let one : j ≡ job =
            cc (sym (sound-Keyed j there) ∙ ap (λ k. lookup k s.manager.jobs) key ∙ found) in
          inr (
            ground (arith, e, lookup-erase id j.id m.jobs),
            subst (λ x. Memᴰ x (to_prune s.manager)) one pruned,
          )
    ]

    Stays-IsKept :
        IsKept h (λ j. Memᴰ j (to_prune s.manager)) (is_active s.manager) (λ m d. Stays m)
    unfolding expire_submission
    Stays-IsKept = record {
      wrote = λ m d j e p. p;
      expired = λ m d j e g p. p;
      removed = λ m d j e b p. p;
      forgotten = λ m d stays j e b x p. forget_job-Stays m stays j e p;
      evicted = λ m d a idle p. p;
    }

    pub cleanup-Stays :
        (e : CleanupEnv) (apply : Bool) (need : ℕ)
        → Stays (cleanup h e s.manager apply need).0.manager
    cleanup-Stays e apply need =
        cleanup_rule h e s.manager apply need (λ m d. Stays m) Stays-IsKept (inl found)
