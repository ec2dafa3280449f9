-- ===== src/Retention/Pruned.antt =====
-- After a cleanup that succeeds the newest completed jobs are left (`cleanupLocked` of
-- internal/jobs/retention.go).
use provisioning_station.Base.{
  Bool, List, Memᴰ, Option, Text, [], ap, arith, inl, inr, lookup, lookup-erase, lookup-erase_self,
  none, refl, some, subst, sym, text_key, true, ℕ, ◌<◌, ◌∙◌, ◌∷◌, ◌≡◌,
}
use provisioning_station.Jobs.Events.{close_subscribers}
use provisioning_station.Jobs.Model.{Job, terminal}
use provisioning_station.Jobs.State.{Host, Manager}
use provisioning_station.Retention.Cleaning.{
  after_write, bury, cleanup, cleanup_listed, cleanup_with, count_job, evict_with,
  expire_submission, forget_job, last_look, lose_record, on_answer, prune_job, prune_jobs,
  prune_sized, remove_job, start_cleanup, then_clean, to_prune,
}
use provisioning_station.Retention.Members.{
  completed_of-there, lookup-all_jobs, sort_jobs-there, take_or_drop,
}
use provisioning_station.Retention.Model.{
  Answer, Cleanup, CleanupEnv, CleanupError, DiskAction, DiskAnswer, StoredArtifact, Usage,
  all_jobs, completed_job_limit, completed_jobs, completed_of, got, is_active, not_stored,
  record_removed, sort_artifacts, stored, went_wrong,
}
use provisioning_station.Retention.Order.{count_newer, count_newer-completed_jobs}
use provisioning_station.Retention.Rule.{IsKept, cleanup_rule, evict_rule, prune_jobs-Fine}

-- What a cleanup takes out of the map of jobs does not come back.
Gone-IsKept :
    (h : Host) (E : Job → Type 0) (active : Text → Bool) (k : Text)
    → IsKept h E active (λ m d. lookup k m.jobs ≡ none)
unfolding expire_submission forget_job close_subscribers
Gone-IsKept h E active k = record {
  wrote = λ m d j e p. p;
  expired = λ m d j e g p. p;
  removed = λ m d j e b p. p;
  forgotten = λ m d stays j e b x p. ground (arith, p, lookup-erase k j.id m.jobs);
  evicted = λ m d a idle p. p;
}

-- What is found was there before.
Kept-IsKept :
    (h : Host) (E : Job → Type 0) (active : Text → Bool) (m₀ : Manager) (k : Text) (j : Job)
    → IsKept h E active (λ m d. lookup k m.jobs ≡ some j → lookup k m₀.jobs ≡ some j)
unfolding expire_submission forget_job close_subscribers
Kept-IsKept h E active m₀ k j = record {
  wrote = λ m d i e p. p;
  expired = λ m d i e g p. p;
  removed = λ m d i e b p. p;
  forgotten = λ m d stays i e b x p q. p (ground (arith, q, lookup-erase k i.id m.jobs));
  evicted = λ m d a idle p. p;
}

then_clean-none :
    (after : Cleanup → Cleanup × Option CleanupError) (r : Cleanup × Option CleanupError)
    → (then_clean after r).1 ≡ none
    → (r.1 ≡ none) × (then_clean after r ≡ after r.0)
unfolding then_clean
then_clean-none after (c, none) q = (refl, refl)
then_clean-none after (c, some e) q = absurd (cc q)

on_answer-none {ℓ} :
    {A : Type ℓ} (x : Answer A) (after : A → Cleanup × Option CleanupError) (c : Cleanup)
    → (on_answer x after c).1 ≡ none
    → (v : A) × (x ≡ got v) × (on_answer x after c ≡ after v)
unfolding on_answer
on_answer-none (got v) after c q = (v, refl, refl)
on_answer-none (went_wrong e) after c q = absurd (cc q)

after_write-none :
    (x : DiskAnswer) (a : DiskAction) (lost change : Manager → Manager) (c : Cleanup)
    → (after_write x a lost change c).1 ≡ none
    → (after_write x a lost change c).0.manager ≡ change c.manager
unfolding after_write
after_write-none stored a lost change c q = refl
after_write-none (not_stored reached e) a lost change c q = absurd (cc q)

forget_job-gone :
    (stays : Bool) (j : Job) (m : Manager) → lookup j.id (forget_job stays j m).jobs ≡ none
unfolding forget_job close_subscribers
forget_job-gone stays j m = lookup-erase_self j.id m.jobs

prune_job-gone :
    (h : Host) (s : CleanupEnv) (j : Job) (c : Cleanup)
    → (prune_job h s true j c).1 ≡ none
    → lookup j.id (prune_job h s true j c).0.manager.jobs ≡ none
unfolding prune_job prune_sized remove_job
prune_job-gone h s j c q =
    let (n, found, e) = on_answer-none (s.job_size j.id) (prune_sized h s true j c) c q in
    let buried = bury h s j (count_job h s j n c) in
    let (fine, e₂) = then_clean-none (remove_job s j) buried (ap (λ r. r.1) (sym e) ∙ q) in
    let removed_all : (remove_job s j buried.0).1 ≡ none =
      ap (λ r. r.1) (sym e₂) ∙ ap (λ r. r.1) (sym e) ∙ q in
    let m' =
      after_write-none (s.job_removal j.id) (record_removed j) (lose_record j)
        (forget_job (s.directory_kept j.id) j) buried.0 removed_all in
    ap (λ r. lookup j.id r.0.manager.jobs) e
    ∙ ap (λ r. lookup j.id r.0.manager.jobs) e₂
    ∙ ap (λ m. lookup j.id m.jobs) m'
    ∙ forget_job-gone (s.directory_kept j.id) j buried.0.manager

prune_jobs-gone :
    (h : Host) (s : CleanupEnv) (js : List Job) (c : Cleanup) (j : Job)
    → (prune_jobs h s true js c).1 ≡ none
    → Memᴰ j js
    → lookup j.id (prune_jobs h s true js c).0.manager.jobs ≡ none
unfolding prune_jobs
prune_jobs-gone h s [] c j q i = elim i [ ]
prune_jobs-gone h s (k ∷ ks) c j q i =
    let step = prune_job h s true k c in
    let (fine, e) = then_clean-none (prune_jobs h s true ks) step q in
    let rest_fine : (prune_jobs h s true ks step.0).1 ≡ none = ap (λ r. r.1) (sym e) ∙ q in
    ap (λ r. lookup j.id r.0.manager.jobs) e ∙ elim i [
      | Memᴰ.head same_job ↦
          prune_jobs-Fine h s (λ x. Memᴰ x ks) (λ a. true) (λ m d. lookup j.id m.jobs ≡ none)
            (Gone-IsKept h (λ x. Memᴰ x ks) (λ a. true) j.id) true ks step.0 (λ x there. there)
            (subst (λ x. lookup x.id step.0.manager.jobs ≡ none) (sym same_job)
              (prune_job-gone h s k c fine))
      | Memᴰ.tail there ↦ prune_jobs-gone h s ks step.0 j rest_fine there
    ]

pruned-none :
    (h : Host) (s : CleanupEnv) (m : Manager) (need : ℕ) (u : Usage) (found : List StoredArtifact)
    → (cleanup_with h s m true need u found).1 ≡ none
    → (prune_jobs h s true (to_prune m) (start_cleanup m u)).1 ≡ none
unfolding cleanup_with
pruned-none h s m need u found q =
    let pruned = prune_jobs h s true (to_prune m) (start_cleanup m u) in
    let step = evict_with s true u.reserved need (is_active m) (sort_artifacts m found) in
    (then_clean-none step pruned (then_clean-none (last_look s) (then_clean step pruned) q).0).0

completed_jobs-there :
    (m : Manager) (j : Job)
    → terminal j.state ≡ true
    → Memᴰ j (all_jobs m.jobs)
    → Memᴰ j (completed_jobs m)
unfolding completed_jobs
completed_jobs-there m j ended i =
    sort_jobs-there j (completed_of (all_jobs m.jobs))
      (completed_of-there j (all_jobs m.jobs) ended i)

-- A job that was too many is gone after a cleanup that succeeds.
to_prune-gone :
    (h : Host) (s : CleanupEnv) (m : Manager) (need : ℕ) (j : Job)
    → (cleanup h s m true need).1 ≡ none
    → Memᴰ j (to_prune m)
    → lookup j.id (cleanup h s m true need).0.manager.jobs ≡ none
unfolding cleanup cleanup_listed
to_prune-gone h s m need j q i =
    let (u, _, e) = on_answer-none s.first_usage (cleanup_listed h s m true need) _ q in
    let q₁ : (cleanup_listed h s m true need u).1 ≡ none = ap (λ r. r.1) (sym e) ∙ q in
    let (found, _, e₁) = on_answer-none s.artifacts (cleanup_with h s m true need u) _ q₁ in
    let q₂ : (cleanup_with h s m true need u found).1 ≡ none = ap (λ r. r.1) (sym e₁) ∙ q₁ in
    ap (λ r. lookup j.id r.0.manager.jobs) e
    ∙ ap (λ r. lookup j.id r.0.manager.jobs) e₁
    ∙ evict_rule h s m true need u found (λ m' d. lookup j.id m'.jobs ≡ none)
        (Gone-IsKept h (λ x. Memᴰ x (to_prune m)) (is_active m) j.id)
        (prune_jobs-gone h s (to_prune m) (start_cleanup m u) j (pruned-none h s m need u found q₂)
          i)

-- After a cleanup that was applied and succeeds, a job that is left and has ended is among the
-- newest: fewer than 30 of the jobs that had ended before are newer, in the order of creation
-- and then of identifiers.
pub cleanup-count_newer :
    (h : Host) (s : CleanupEnv) (m : Manager) (need : ℕ) (j : Job)
    → (cleanup h s m true need).1 ≡ none
    → lookup j.id (cleanup h s m true need).0.manager.jobs ≡ some j
    → terminal j.state ≡ true
    → count_newer j (completed_of (all_jobs m.jobs)) < completed_job_limit
cleanup-count_newer h s m need j fine left ended =
    let before : lookup j.id m.jobs ≡ some j =
      cleanup_rule h s m true need
        (λ m' d. lookup j.id m'.jobs ≡ some j → lookup j.id m.jobs ≡ some j)
        (Kept-IsKept h (λ x. Memᴰ x (to_prune m)) (is_active m) m j.id j) (λ e. e) left in
    let there = completed_jobs-there m j ended (lookup-all_jobs j.id j m.jobs before) in
    elim (take_or_drop completed_job_limit j (completed_jobs m) there) [
      | inl front ↦ count_newer-completed_jobs m j front
      | inr too_many ↦ absurd (cc (sym (to_prune-gone h s m need j fine too_many) ∙ left))
    ]
