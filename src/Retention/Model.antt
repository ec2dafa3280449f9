-- ===== src/Retention/Model.antt =====
-- The data of a cleanup, and the orders of jobs and artifacts (internal/jobs/retention.go).
use provisioning_station.Base.{
  Bool, Failure, List, Map, Option, Text, [], contains, false, if◌then◌else◌, is_some, lookup, ltb,
  none, not, some, take, text_eq, text_key, text_lt, true, ℕ, ◌&&◌, ◌==◌, ◌||◌, ◌∷◌,
}
use provisioning_station.Jobs.Model.{Job, terminal}
use provisioning_station.Jobs.State.{Gate, Manager, Tombstone}

abbrev pub completed_job_limit : ℕ
completed_job_limit = 30

-- The time at which an artifact was imported.
pub record StoredArtifact : Type 0 where
  pub id : Text
  pub imported : ℕ

pub data CleanupError : Type 0 where
  unreadable : Failure → CleanupError
  no_room_left : CleanupError

-- What a call outside of the manager returns.
pub data Answer {ℓ} (A : Type ℓ) : Type ℓ where
  got : A → Answer A
  went_wrong : Failure → Answer A

-- The bytes used and reserved, by `StatusLocked`.
pub record Usage : Type 0 where
  pub used : ℕ
  pub reserved : ℕ

-- A write or a removal that fails may have reached the disk.
pub data DiskAnswer : Type 0 where
  stored : DiskAnswer
  not_stored : (reached : Bool) → Failure → DiskAnswer

-- What the environment answers to one cleanup.
pub record CleanupEnv : Type 0 where
  pub first_usage : Answer Usage
  pub artifacts : Answer (List StoredArtifact)
  pub job_size : Text → Answer ℕ
  pub tombstone_length : Tombstone → ℕ
  pub usage_before : (request_id : Text) → Answer Usage
  pub tombstone_write : (request_id : Text) → DiskAnswer
  -- `removeKnownJob`, and whether files that are not known keep the directory of the job
  pub job_removal : Text → DiskAnswer
  pub directory_kept : Text → Bool
  pub usage_after : Answer Usage
  -- the bytes of an artifact, and whether all of it is known
  pub owned_size : Text → Answer (ℕ × Bool)
  pub artifact_removal : Text → DiskAnswer
  -- the last `StatusLocked` with `annotateStatusLocked`
  pub last_problem : Option Failure

-- What is done to the disk.
pub data DiskAction : Type 0 where
  tombstone_written : (request_id : Text) → Tombstone → DiskAction
  record_removed : Job → DiskAction
  artifact_removed : Text → DiskAction

-- `used` is `added` less `freed`, which the code's int64 holds even where it is negative.
pub record Cleanup : Type 0 where
  pub manager : Manager
  pub job_ids : List Text
  pub artifact_ids : List Text
  pub reclaimable : ℕ
  pub added : ℕ
  pub freed : ℕ
  -- the newest first
  pub disk : List DiskAction

-- The order of completed jobs: the newest first.
unfoldable pub newer : Job → Job → Bool
newer a b = if a.created == b.created then text_lt b.id a.id else ltb b.created a.created

unfoldable pub insert_job : Job → List Job → List Job
insert_job j [] = j ∷ []
insert_job j (k ∷ ks) = let rest = insert_job j ks in if newer k j then k ∷ rest else j ∷ k ∷ ks

unfoldable pub sort_jobs : List Job → List Job
sort_jobs [] = []
sort_jobs (j ∷ js) = insert_job j (sort_jobs js)

-- The jobs of the map, each key once: a key that the list has again further on stands for nothing.
unfoldable pub jobs_after : (seen : List Text) → Map Text Job → List Job
jobs_after seen [] = []
jobs_after seen ((k, j) ∷ rest) =
    let others = jobs_after (k ∷ seen) rest in if contains seen k then others else j ∷ others

abbrev pub all_jobs : Map Text Job → List Job
all_jobs = jobs_after []

abbrev pub completed_of : List Job → List Job
completed_of [] = []
completed_of (j ∷ js) = if terminal j.state then j ∷ completed_of js else completed_of js

unfoldable pub completed_jobs : Manager → List Job
completed_jobs m = sort_jobs (completed_of (all_jobs m.jobs))

abbrev pub uses_artifact : Text → List Job → Bool
uses_artifact a [] = false
uses_artifact a (j ∷ js) = text_eq j.request.artifact_id a || uses_artifact a js

abbrev pub used_by_active : Text → List Job → Bool
used_by_active a [] = false
used_by_active a (j ∷ js) =
    (not (terminal j.state) && text_eq j.request.artifact_id a) || used_by_active a js

abbrev pub pinned : Option Gate → Text → Bool
pinned none a = false
pinned (some g) a = is_some (lookup a g.pins)

unfoldable pub is_active : Manager → Text → Bool
is_active m a = pinned m.budget a || used_by_active a (all_jobs m.jobs)

-- 0 stands for the zero time.
abbrev pub last_used : Text → List Job → ℕ
last_used a [] = 0
last_used a (j ∷ js) =
    let rest = last_used a js in
    if text_eq j.request.artifact_id a && ltb rest j.created then j.created else rest

unfoldable pub referenced : Manager → Text → Bool
referenced m a = uses_artifact a (take completed_job_limit (completed_jobs m))

abbrev pub eviction_time : Manager → StoredArtifact → ℕ
eviction_time m a = if referenced m a.id then last_used a.id (all_jobs m.jobs) else a.imported

-- The order of eviction.
unfoldable pub evicted_before : Manager → StoredArtifact → StoredArtifact → Bool
evicted_before m a b =
    if referenced m a.id && not (referenced m b.id)
    then false
    else if not (referenced m a.id) && referenced m b.id
    then true
    else if eviction_time m a == eviction_time m b
    then text_lt a.id b.id
    else ltb (eviction_time m a) (eviction_time m b)

unfoldable pub insert_artifact :
    Manager → StoredArtifact → List StoredArtifact → List StoredArtifact
insert_artifact m a [] = a ∷ []
insert_artifact m a (b ∷ bs) =
    let rest = insert_artifact m a bs in if evicted_before m b a then b ∷ rest else a ∷ b ∷ bs

unfoldable pub sort_artifacts : Manager → List StoredArtifact → List StoredArtifact
sort_artifacts m [] = []
sort_artifacts m (a ∷ rest) = insert_artifact m a (sort_artifacts m rest)
