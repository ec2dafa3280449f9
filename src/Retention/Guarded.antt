-- ===== src/Retention/Guarded.antt =====
-- What a cleanup never touches, and what it never forgets (`cleanupLocked` of
-- internal/jobs/retention.go).
use provisioning_station.Base.{
  All, Bool, List, Memᴰ, Text, [], ap, false, lookup, lookup-erase_ne, lookup-insert_ne, none, some,
  sym, text_key, true, ℕ, ◌∙◌, ◌∷◌, ◌≡◌, ◌≢◌,
}
use provisioning_station.Jobs.Events.{close_subscribers}
use provisioning_station.Jobs.Model.{Job, terminal}
use provisioning_station.Jobs.State.{Host, Manager}
use provisioning_station.Retention.Buried.{Buried}
use provisioning_station.Retention.Cleaning.{
  cleanup, expire_submission, forget_job, to_prune, tombstone_of,
}
use provisioning_station.Retention.Members.{all_jobs-lookup, to_prune-Memᴰ}
use provisioning_station.Retention.Model.{
  CleanupEnv, DiskAction, all_jobs, artifact_removed, is_active, record_removed, tombstone_written,
}
use provisioning_station.Retention.Rule.{IsKept, cleanup_rule}

-- Every record that was removed left its tombstone before, so that each point at which the process may
-- stop has it.
unfoldable pub Journaled : Host → List DiskAction → Type 0
Journaled h [] = Unit
Journaled h (tombstone_written rid t ∷ older) = Journaled h older
Journaled h (artifact_removed a ∷ older) = Journaled h older
Journaled h (record_removed j ∷ older) = Buried h j older × Journaled h older

Journaled-IsKept :
    (h : Host) (E : Job → Type 0) (active : Text → Bool) → IsKept h E active (λ m d. Journaled h d)
unfolding Journaled
Journaled-IsKept h E active = record {
  wrote = λ m d j e p. p;
  expired = λ m d j e g p. p;
  removed = λ m d j e b p. (b, p);
  forgotten = λ m d stays j e b x p. (b, p);
  evicted = λ m d a idle p. p;
}

-- Whatever fails in a cleanup, the record of a job whose submission has an identifier is removed
-- from the disk only after the tombstone of that job was written: at each point at which the
-- process may stop, each removed record has its tombstone.
pub cleanup-Journaled :
    (h : Host) (s : CleanupEnv) (m : Manager) (apply : Bool) (need : ℕ)
    → Journaled h (cleanup h s m apply need).0.disk
unfolding Journaled
cleanup-Journaled h s m apply need =
    cleanup_rule h s m apply need (λ m d. Journaled h d)
      (Journaled-IsKept h (λ j. Memᴰ j (to_prune m)) (is_active m)) tt

-- What may be removed while the manager is `m`.
unfoldable pub MayRemove : Manager → DiskAction → Type 0
MayRemove m (tombstone_written rid t) = Unit
MayRemove m (record_removed j) = Memᴰ j (all_jobs m.jobs) × (terminal j.state ≡ true)
MayRemove m (artifact_removed a) = is_active m a ≡ false

-- Each job stands under its identifier, once.
abbrev pub Keyed : Manager → Type 0
Keyed m = (j : Job) → Memᴰ j (all_jobs m.jobs) → lookup j.id m.jobs ≡ some j

-- A map in which each job stands under its identifier has each job once.
pub named-Keyed :
    (m : Manager) → ((k : Text) (j : Job) → lookup k m.jobs ≡ some j → j.id ≡ k) → Keyed m
named-Keyed m named j there =
    let (k, found) = all_jobs-lookup j m.jobs there in
    ap (λ i. lookup i m.jobs) (named k j found) ∙ found

-- A job that has ended is not one that runs.
different :
    (m : Manager) (k : Text) (j i : Job)
    → Keyed m
    → lookup k m.jobs ≡ some j
    → terminal j.state ≡ false
    → Memᴰ i (all_jobs m.jobs)
    → terminal i.state ≡ true
    → i.id ≢ k
different m k j i keyed found runs there ended alike =
    let one : i ≡ j = cc (sym (keyed i there) ∙ ap (λ n. lookup n m.jobs) alike ∙ found) in
    cc (sym ended ∙ ap (λ x. terminal x.state) one ∙ runs)

MayRemove-IsKept :
    (h : Host) (m : Manager)
    → IsKept h (λ j. Memᴰ j (to_prune m)) (is_active m) (λ m' d. All (MayRemove m) d)
unfolding MayRemove
MayRemove-IsKept h m = record {
  wrote = λ m' d i e p. (tt, p);
  expired = λ m' d i e g p. (tt, p);
  removed = λ m' d i e b p. (to_prune-Memᴰ m i e, p);
  forgotten = λ m' d stays i e b x p. (to_prune-Memᴰ m i e, p);
  evicted = λ m' d a idle p. (idle, p);
}

Running-IsKept :
    (h : Host) (m : Manager) (k : Text) (j : Job)
    → Keyed m
    → lookup k m.jobs ≡ some j
    → terminal j.state ≡ false
    → IsKept h (λ i. Memᴰ i (to_prune m)) (is_active m) (λ m' d. lookup k m'.jobs ≡ some j)
unfolding expire_submission forget_job close_subscribers
Running-IsKept h m k j keyed found runs = record {
  wrote = λ m' d i e p. p;
  expired = λ m' d i e g p. p;
  removed = λ m' d i e b p. p;
  forgotten = λ m' d stays i e b x p.
      let (there, ended) = to_prune-Memᴰ m i e in
      lookup-erase_ne k i.id m'.jobs (λ alike. different m k j i keyed found runs there ended alike)
      ∙ p;
  evicted = λ m' d a idle p. p;
}

-- If each job stands under its identifier, then whatever fails in a cleanup, the records that it
-- has removed are those of jobs that have ended, the artifacts that it has removed are neither
-- pinned nor those of a job that has not ended, and each job that has not ended is still there.
pub cleanup-MayRemove :
    (h : Host) (s : CleanupEnv) (m : Manager) (apply : Bool) (need : ℕ)
    → Keyed m
    → (let after = (cleanup h s m apply need).0 in
        All (MayRemove m) after.disk
        × ((k : Text) (j : Job)
            → lookup k m.jobs ≡ some j
            → terminal j.state ≡ false
            → lookup k after.manager.jobs ≡ some j))
cleanup-MayRemove h s m apply need keyed = (
  cleanup_rule h s m apply need (λ m' d. All (MayRemove m) d) (MayRemove-IsKept h m) tt,
  λ k j found runs.
      cleanup_rule h s m apply need (λ m' d. lookup k m'.jobs ≡ some j)
        (Running-IsKept h m k j keyed found runs) found,
)

-- The submissions of the manager's jobs are registered.
abbrev pub Linked : Manager → Type 0
Linked m =
    (j : Job)
    → Memᴰ j (all_jobs m.jobs)
    → j.request.request_id ≢ []
    → lookup j.request.request_id m.submissions ≡ some j.id

-- An identifier that is not known.
abbrev pub Unknown : Text → Manager → Type 0
Unknown rid m = (lookup rid m.submissions ≡ none) × (lookup rid m.expired ≡ none)

Unknown-IsKept :
    (h : Host) (m : Manager) (rid : Text)
    → Linked m
    → Unknown rid m
    → IsKept h (λ j. Memᴰ j (to_prune m)) (is_active m) (λ m' d. Unknown rid m')
unfolding expire_submission forget_job close_subscribers
Unknown-IsKept h m rid linked (free, fresh) = record {
  wrote = λ m' d j e p. p;
  expired = λ m' d j e given p.
      let other : j.request.request_id ≢ rid = λ alike. cc (
        sym (linked j (to_prune-Memᴰ m j e).0 given)
        ∙ ap (λ r. lookup r m.submissions) alike
        ∙ free) in
      (
        lookup-erase_ne rid j.request.request_id m'.submissions other ∙ p.0,
        lookup-insert_ne rid j.request.request_id (tombstone_of h j) m'.expired other ∙ p.1,
      );
  removed = λ m' d j e b p. p;
  forgotten = λ m' d stays j e b x p. p;
  evicted = λ m' d a idle p. p;
}

-- If the submissions of the jobs of the manager are registered, an identifier that is unknown
-- before a cleanup is unknown afterwards, whatever fails in it: a cleanup during an admission
-- does not make the identifier that is being admitted expire.
pub cleanup-Unknown :
    (h : Host) (s : CleanupEnv) (m : Manager) (apply : Bool) (need : ℕ) (rid : Text)
    → Linked m
    → Unknown rid m
    → Unknown rid (cleanup h s m apply need).0.manager
cleanup-Unknown h s m apply need rid linked unknown =
    cleanup_rule h s m apply need (λ m' d. Unknown rid m') (Unknown-IsKept h m rid linked unknown)
      unknown
