-- ===== src/Retention/Cleaning.antt =====
-- `cleanupLocked` of internal/jobs/retention.go.
use provisioning_station.Base.{
  Bool, List, Option, Text, [], drop, erase, false, if◌then◌else◌, insert, is_empty, leb, ltb, none,
  not, some, text_eq, text_key, true, ℕ, ◌++◌, ◌+◌, ◌∷◌,
}
use provisioning_station.Jobs.Events.{close_subscribers}
use provisioning_station.Jobs.Model.{Job}
use provisioning_station.Jobs.State.{Host, Manager, Tombstone, fingerprint}
use provisioning_station.Retention.Model.{
  Answer, Cleanup, CleanupEnv, CleanupError, DiskAction, DiskAnswer, StoredArtifact, Usage,
  artifact_removed, completed_job_limit, completed_jobs, got, is_active, no_room_left, not_stored,
  record_removed, sort_artifacts, stored, tombstone_written, unreadable, went_wrong,
}
use mathlib.Core.Option

abbrev pub tombstone_of : Host → Job → Tombstone
tombstone_of h j = record { job_id = j.id; fingerprint = fingerprint h j.request }

abbrev pub note_action : DiskAction → Cleanup → Cleanup
note_action a c = record c { disk = a ∷ c.disk }

-- The job is counted, with the tombstone that it leaves.
unfoldable pub count_job : Host → CleanupEnv → Job → ℕ → Cleanup → Cleanup
count_job h s j n c = record c {
  job_ids = c.job_ids ++ j.id ∷ [];
  reclaimable = c.reclaimable + n;
  added =
      c.added
      + (if is_empty j.request.request_id then 0 else s.tombstone_length (tombstone_of h j));
  freed = c.freed + n;
}

abbrev pub limit_of : Manager → ℕ
limit_of m = elim m.budget [ none ↦ 0 | some g ↦ g.limit ]

-- The identifier of the submission expires.
unfoldable pub expire_submission : Host → Job → Manager → Manager
expire_submission h j m = record m {
  expired = insert j.request.request_id (tombstone_of h j) m.expired;
  submissions = erase j.request.request_id m.submissions;
}

-- A change of the disk that the manager follows if it succeeds; `lost` is what the disk loses where
-- it fails after it has reached it.
unfoldable pub after_write :
    DiskAnswer
    → DiskAction
    → (lost change : Manager → Manager) → Cleanup
    → Cleanup × Option CleanupError
after_write stored a lost change c = (note_action a (record c { manager = change c.manager }), none)
after_write (not_stored reached f) a lost change c = (
  if reached then note_action a (record c { manager = lost c.manager }) else c,
  some (unreadable f),
)

unfoldable pub on_answer {ℓ} :
    {A : Type ℓ}
    → Answer A
    → (A → Cleanup × Option CleanupError)
    → Cleanup
    → Cleanup × Option CleanupError
on_answer (went_wrong f) after c = (c, some (unreadable f))
on_answer (got x) after c = after x

-- `writeTombstone`, and the maps of submissions.
unfoldable pub expire : Host → CleanupEnv → Job → Cleanup → Cleanup × Option CleanupError
expire h s j c =
    after_write (s.tombstone_write j.request.request_id)
      (tombstone_written j.request.request_id (tombstone_of h j)) (λ m. m) (expire_submission h j) c

-- The tombstone of a job, where there is room for it and 4 KiB more.
unfoldable pub expire_in_room :
    Host → CleanupEnv → Job → Cleanup → Usage → Cleanup × Option CleanupError
expire_in_room h s j c u =
    if ltb (limit_of c.manager) (u.used + s.tombstone_length (tombstone_of h j) + 4096)
    then (c, some no_room_left)
    else expire h s j c

-- The tombstone of a job, if its submission has an identifier.
unfoldable pub bury : Host → CleanupEnv → Job → Cleanup → Cleanup × Option CleanupError
bury h s j c =
    if is_empty j.request.request_id
    then (c, none)
    else on_answer (s.usage_before j.request.request_id) (expire_in_room h s j c) c

-- The published record is gone from the disk.
abbrev pub lose_record : Job → Manager → Manager
lose_record j m = record m { records = erase j.id m.records }

unfoldable pub without_directory : Text → List Text → List Text
without_directory id [] = []
without_directory id (d ∷ ds) =
    let rest = without_directory id ds in if text_eq d id then rest else d ∷ rest

-- The job leaves the maps, and the disk; its directory stays where it has other files.
unfoldable pub forget_job : (directory_stays : Bool) → Job → Manager → Manager
forget_job directory_stays j m =
    close_subscribers
      (record m {
        records = erase j.id m.records;
        directories =
            if directory_stays then m.directories else without_directory j.id m.directories;
        jobs = erase j.id m.jobs;
        events = erase j.id m.events;
      })
      j.id

unfoldable pub remove_job : CleanupEnv → Job → Cleanup → Cleanup × Option CleanupError
remove_job s j c =
    after_write (s.job_removal j.id) (record_removed j) (lose_record j)
      (forget_job (s.directory_kept j.id) j) c

unfoldable pub then_clean :
    (Cleanup → Cleanup × Option CleanupError)
    → Cleanup × Option CleanupError
    → Cleanup × Option CleanupError
then_clean after (c, some e) = (c, some e)
then_clean after (c, none) = after c

unfoldable pub prune_sized :
    Host → CleanupEnv → (apply : Bool) → Job → Cleanup → ℕ → Cleanup × Option CleanupError
prune_sized h s apply j c n =
    let counted = count_job h s j n c in
    if apply then then_clean (remove_job s j) (bury h s j counted) else (counted, none)

unfoldable pub prune_job :
    Host → CleanupEnv → (apply : Bool) → Job → Cleanup → Cleanup × Option CleanupError
prune_job h s apply j c = on_answer (s.job_size j.id) (prune_sized h s apply j c) c

unfoldable pub prune_jobs :
    Host → CleanupEnv → (apply : Bool) → List Job → Cleanup → Cleanup × Option CleanupError
prune_jobs h s apply [] c = (c, none)
prune_jobs h s apply (j ∷ js) c = then_clean (prune_jobs h s apply js) (prune_job h s apply j c)

-- `used <= target`, where `target` is the limit less what is reserved and needed.
abbrev pub enough_room : (reserved need : ℕ) → Cleanup → Bool
enough_room reserved need c = leb (c.added + reserved + need) (limit_of c.manager + c.freed)

abbrev pub count_artifact : Text → ℕ → Cleanup → Cleanup
count_artifact a n c = record c {
  artifact_ids = c.artifact_ids ++ a ∷ [];
  reclaimable = c.reclaimable + n;
  freed = c.freed + n;
}

unfoldable pub remove_artifact : CleanupEnv → Text → Cleanup → Cleanup × Option CleanupError
remove_artifact s a c = after_write (s.artifact_removal a) (artifact_removed a) (λ m. m) (λ m. m) c

unfoldable pub evict_sized :
    CleanupEnv → (apply : Bool) → Text → Cleanup → ℕ × Bool → Cleanup × Option CleanupError
evict_sized s apply a c (n, safe) =
    if not safe
    then (c, none)
    else if apply
    then remove_artifact s a (count_artifact a n c)
    else (count_artifact a n c, none)

unfoldable pub evict_one :
    CleanupEnv → (apply : Bool) → Text → Cleanup → Cleanup × Option CleanupError
evict_one s apply a c = on_answer (s.owned_size a) (evict_sized s apply a c) c

-- The artifacts in turn, until there is room; `active` is what was active at first.
unfoldable pub evict :
    CleanupEnv
    → (apply : Bool) → (reserved need : ℕ) → (active : Text → Bool) → List StoredArtifact
    → Cleanup
    → Cleanup × Option CleanupError
evict s apply reserved need active [] c = (c, none)
evict s apply reserved need active (a ∷ rest) c =
    let skip = evict s apply reserved need active rest c in
    let go = then_clean (evict s apply reserved need active rest) (evict_one s apply a.id c) in
    if enough_room reserved need c then (c, none) else if active a.id then skip else go

abbrev pub start_cleanup : Manager → Usage → Cleanup
start_cleanup m u = record {
  manager = m;
  job_ids = [];
  artifact_ids = [];
  reclaimable = 0;
  added = u.used;
  freed = 0;
  disk = [];
}

unfoldable pub evict_after :
    CleanupEnv
    → (need : ℕ) → (active : Text → Bool) → List StoredArtifact
    → Cleanup
    → Usage
    → Cleanup × Option CleanupError
evict_after s need active artifacts c u =
    evict s true u.reserved need active artifacts (record c { added = u.used; freed = 0 })

-- The usage after the jobs are gone; a dry run goes on with its own count.
unfoldable pub evict_with :
    CleanupEnv
    → (apply : Bool) → (reserved need : ℕ) → (active : Text → Bool) → List StoredArtifact
    → Cleanup
    → Cleanup × Option CleanupError
evict_with s apply reserved need active artifacts c =
    if apply
    then on_answer s.usage_after (evict_after s need active artifacts c) c
    else evict s false reserved need active artifacts c

abbrev pub last_look : CleanupEnv → Cleanup → Cleanup × Option CleanupError
last_look s c = (c, Option.map unreadable s.last_problem)

-- The jobs that are one too many.
abbrev pub to_prune : Manager → List Job
to_prune m = drop completed_job_limit (completed_jobs m)

unfoldable pub cleanup_with :
    Host
    → CleanupEnv
    → Manager
    → (apply : Bool) → (need : ℕ) → Usage
    → List StoredArtifact
    → Cleanup × Option CleanupError
cleanup_with h s m apply need u artifacts = then_clean (last_look s) (
    then_clean (evict_with s apply u.reserved need (is_active m) (sort_artifacts m artifacts))
      (prune_jobs h s apply (to_prune m) (start_cleanup m u)))

unfoldable pub cleanup_listed :
    Host
    → CleanupEnv
    → Manager
    → (apply : Bool) → (need : ℕ) → Usage
    → Cleanup × Option CleanupError
cleanup_listed h s m apply need u =
    on_answer s.artifacts (cleanup_with h s m apply need u) (start_cleanup m u)

-- `cleanupLocked`.
unfoldable pub cleanup :
    Host → CleanupEnv → Manager → (apply : Bool) → (need : ℕ) → Cleanup × Option CleanupError
cleanup h s m apply need =
    on_answer s.first_usage (cleanup_listed h s m apply need)
      (start_cleanup m (record { used = 0; reserved = 0 }))
