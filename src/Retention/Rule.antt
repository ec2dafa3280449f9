-- ===== src/Retention/Rule.antt =====
-- What holds of the manager and of the disk after every cleanup (internal/jobs/retention.go).
use provisioning_station.Base.{
  Bool, Bool-cases, List, Memᴰ, Option, Text, Text-cases, [], ap, false, if◌then◌else◌, inl, inr,
  is_empty, none, not, refl, some, subst, true, ℕ, ◌∷◌, ◌≡◌, ◌≢◌,
}
use provisioning_station.Jobs.Model.{Job}
use provisioning_station.Jobs.State.{Host, Manager}
use provisioning_station.Retention.Buried.{Buried, Tombed, bury-Buried, bury-Tombed}
use provisioning_station.Retention.Cleaning.{
  after_write, bury, cleanup, cleanup_listed, cleanup_with, count_artifact, count_job, enough_room,
  evict, evict_after, evict_one, evict_sized, evict_with, expire, expire_in_room, expire_submission,
  forget_job, last_look, lose_record, on_answer, prune_job, prune_jobs, prune_sized,
  remove_artifact, remove_job, start_cleanup, then_clean, to_prune, tombstone_of,
}
use provisioning_station.Retention.Model.{
  Answer, Cleanup, CleanupEnv, CleanupError, DiskAction, DiskAnswer, StoredArtifact, Usage,
  artifact_removed, got, is_active, no_room_left, not_stored, record_removed, sort_artifacts,
  stored, tombstone_written, went_wrong,
}

-- A predicate that every part of a cleanup keeps: `Eligible` are the jobs that may be pruned, and
-- `active` the artifacts that may not be evicted.
pub record IsKept (h : Host) (Eligible : Job → Type 0) (active : Text → Bool)
    (P : Manager → List DiskAction → Type 0) : Type 0 where
  pub wrote :
      (m : Manager) (d : List DiskAction) (j : Job)
      → Eligible j
      → P m d
      → P m (tombstone_written j.request.request_id (tombstone_of h j) ∷ d)
  pub expired :
      (m : Manager) (d : List DiskAction) (j : Job)
      → Eligible j
      → j.request.request_id ≢ []
      → P m d
      → P (expire_submission h j m) (tombstone_written j.request.request_id (tombstone_of h j) ∷ d)
  pub removed :
      (m : Manager) (d : List DiskAction) (j : Job)
      → Eligible j
      → Buried h j d
      → P m d
      → P (lose_record j m) (record_removed j ∷ d)
  pub forgotten :
      (m : Manager) (d : List DiskAction) (directory_stays : Bool) (j : Job)
      → Eligible j
      → Buried h j d
      → Tombed h j m
      → P m d
      → P (forget_job directory_stays j m) (record_removed j ∷ d)
  pub evicted :
      (m : Manager) (d : List DiskAction) (a : Text)
      → active a ≡ false
      → P m d
      → P m (artifact_removed a ∷ d)

module _ (h : Host) (s : CleanupEnv) (Eligible : Job → Type 0) (active : Text → Bool)
    (P : Manager → List DiskAction → Type 0) (kept : IsKept h Eligible active P) where
  abbrev Fine : Cleanup → Type 0
  Fine c = P c.manager c.disk

  then_clean-Fine :
      (after : Cleanup → Cleanup × Option CleanupError) (r : Cleanup × Option CleanupError)
      → Fine r.0
      → ((c : Cleanup) → r ≡ (c, none) → Fine (after c).0)
      → Fine (then_clean after r).0
  unfolding then_clean
  then_clean-Fine after (c, some e) f next_fine = f
  then_clean-Fine after (c, none) f next_fine = next_fine c refl

  on_answer-Fine {ℓ} :
      {A : Type ℓ} (x : Answer A) (after : A → Cleanup × Option CleanupError) (c : Cleanup)
      → Fine c
      → ((v : A) → Fine (after v).0)
      → Fine (on_answer x after c).0
  unfolding on_answer
  on_answer-Fine (went_wrong e) after c f g = f
  on_answer-Fine (got v) after c f g = g v

  after_write-Fine :
      (x : DiskAnswer) (a : DiskAction) (lost change : Manager → Manager) (c : Cleanup)
      → Fine c
      → P (lost c.manager) (a ∷ c.disk)
      → P (change c.manager) (a ∷ c.disk)
      → Fine (after_write x a lost change c).0
  unfolding after_write
  after_write-Fine stored a lost change c f g k = k
  after_write-Fine (not_stored true e) a lost change c f g k = g
  after_write-Fine (not_stored false e) a lost change c f g k = f

  either-Fine :
      (t : Bool) (x y : Cleanup × Option CleanupError)
      → Fine x.0
      → Fine y.0
      → Fine (if t then x else y).0
  either-Fine true x y f g = f
  either-Fine false x y f g = g

  bury-Fine : (j : Job) (c : Cleanup) → Eligible j → Fine c → Fine (bury h s j c).0
  unfolding bury expire_in_room expire
  bury-Fine j c e f = elim (Text-cases j.request.request_id) [
    | inl none_given ↦ rw none_given f
    | inr given ↦
        either-Fine (is_empty j.request.request_id) (c, none) _ f
          (on_answer-Fine (s.usage_before j.request.request_id) (expire_in_room h s j c) c f (λ u.
            either-Fine _ (c, some no_room_left) (expire h s j c) f
              (after_write-Fine (s.tombstone_write j.request.request_id)
                (tombstone_written j.request.request_id (tombstone_of h j)) (λ m. m)
                (expire_submission h j) c f (kept.wrote c.manager c.disk j e f)
                (kept.expired c.manager c.disk j e given f))))
  ]

  prune_job-Fine :
      (apply : Bool) (j : Job) (c : Cleanup)
      → Eligible j
      → Fine c
      → Fine (prune_job h s apply j c).0
  unfolding prune_job prune_sized count_job remove_job
  prune_job-Fine apply j c e f =
      on_answer-Fine (s.job_size j.id) (prune_sized h s apply j c) c f (λ n.
        let counted = count_job h s j n c in
        either-Fine apply (then_clean (remove_job s j) (bury h s j counted)) (counted, none)
          (then_clean-Fine (remove_job s j) (bury h s j counted) (bury-Fine j counted e f) (λ c' q.
            let b =
              subst (λ r. Buried h j r.0.disk) q (bury-Buried h s j counted (ap (λ r. r.1) q)) in
            let x =
              subst (λ r. Tombed h j r.0.manager) q (bury-Tombed h s j counted (ap (λ r. r.1) q)) in
            let f' : Fine c' = subst (λ r. Fine r.0) q (bury-Fine j counted e f) in
            after_write-Fine (s.job_removal j.id) (record_removed j) (lose_record j)
              (forget_job (s.directory_kept j.id) j) c' f'
              (kept.removed c'.manager c'.disk j e b f')
              (kept.forgotten c'.manager c'.disk (s.directory_kept j.id) j e b x f')))
          f)

  pub prune_jobs-Fine :
      (apply : Bool) (js : List Job) (c : Cleanup)
      → ((j : Job) → Memᴰ j js → Eligible j)
      → Fine c
      → Fine (prune_jobs h s apply js c).0
  unfolding prune_jobs
  prune_jobs-Fine apply [] c e f = f
  prune_jobs-Fine apply (j ∷ js) c e f =
      let f₁ = prune_job-Fine apply j c (e j (Memᴰ.head refl)) f in
      then_clean-Fine (prune_jobs h s apply js) (prune_job h s apply j c) f₁ (λ c' q.
        prune_jobs-Fine apply js c' (λ k i. e k (Memᴰ.tail i)) (subst (λ r. Fine r.0) q f₁))

  evict_one-Fine :
      (apply : Bool) (a : Text) (c : Cleanup)
      → active a ≡ false
      → Fine c
      → Fine (evict_one s apply a c).0
  unfolding evict_one evict_sized remove_artifact
  evict_one-Fine apply a c idle f =
      on_answer-Fine (s.owned_size a) (evict_sized s apply a c) c f (λ v.
        let counted = count_artifact a v.0 c in
        let gone = kept.evicted c.manager c.disk a idle f in
        either-Fine (not v.1) (c, none) _ f
          (either-Fine apply (remove_artifact s a counted) (counted, none)
            (after_write-Fine (s.artifact_removal a) (artifact_removed a) (λ m. m) (λ m. m) counted
              f gone gone)
            f))

  evict-Fine :
      (apply : Bool) (reserved need : ℕ) (artifacts : List StoredArtifact) (c : Cleanup)
      → Fine c
      → Fine (evict s apply reserved need active artifacts c).0
  unfolding evict
  evict-Fine apply reserved need [] c f = f
  evict-Fine apply reserved need (a ∷ rest) c f =
      either-Fine (enough_room reserved need c) (c, none) _ f
        (elim (Bool-cases (active a.id)) [
          | inl busy ↦ rw busy (evict-Fine apply reserved need rest c f)
          | inr idle ↦
              let f₁ = evict_one-Fine apply a.id c idle f in
              rw idle (
                then_clean-Fine (evict s apply reserved need active rest) (evict_one s apply a.id c)
                  f₁ (λ c' q. evict-Fine apply reserved need rest c' (subst (λ r. Fine r.0) q f₁)))
        ])

-- The part of a cleanup after the jobs were pruned.
pub evict_rule :
    (h : Host) (s : CleanupEnv) (m : Manager) (apply : Bool) (need : ℕ) (u : Usage)
    (found : List StoredArtifact) (P : Manager → List DiskAction → Type 0)
    → IsKept h (λ j. Memᴰ j (to_prune m)) (is_active m) P
    → (let pruned = (prune_jobs h s apply (to_prune m) (start_cleanup m u)).0 in
        P pruned.manager pruned.disk)
    → (let after = (cleanup_with h s m apply need u found).0 in P after.manager after.disk)
unfolding cleanup_with evict_with evict_after
evict_rule h s m apply need u found P kept f₁ =
    let E : Job → Type 0 = λ j. Memᴰ j (to_prune m) in
    let act = is_active m in
    let pruned = prune_jobs h s apply (to_prune m) (start_cleanup m u) in
    let sorted = sort_artifacts m found in
    let step = evict_with s apply u.reserved need act sorted in
    let f₂ = then_clean-Fine h s E act P kept step pruned f₁ (λ c q.
      let f : P c.manager c.disk = subst (λ r. P r.0.manager r.0.disk) q f₁ in
      either-Fine h s E act P kept apply
        (on_answer s.usage_after (evict_after s need act sorted c) c)
        (evict s false u.reserved need act sorted c)
        (on_answer-Fine h s E act P kept s.usage_after (evict_after s need act sorted c) c f (λ v.
          evict-Fine h s E act P kept true v.reserved need sorted
            (record c { added = v.used; freed = 0 }) f))
        (evict-Fine h s E act P kept false u.reserved need sorted c f)) in
    then_clean-Fine h s E act P kept (last_look s) (then_clean step pruned) f₂
      (λ c q. subst (λ r. P r.0.manager r.0.disk) q f₂)

-- What a cleanup keeps, given what it may prune and evict.
pub cleanup_rule :
    (h : Host) (s : CleanupEnv) (m : Manager) (apply : Bool) (need : ℕ)
    (P : Manager → List DiskAction → Type 0)
    → IsKept h (λ j. Memᴰ j (to_prune m)) (is_active m) P
    → P m []
    → P (cleanup h s m apply need).0.manager (cleanup h s m apply need).0.disk
unfolding cleanup cleanup_listed
cleanup_rule h s m apply need P kept first =
    let E : Job → Type 0 = λ j. Memᴰ j (to_prune m) in
    let act = is_active m in
    on_answer-Fine h s E act P kept s.first_usage (cleanup_listed h s m apply need)
      (start_cleanup m (record { used = 0; reserved = 0 })) first
      (λ u.
        on_answer-Fine h s E act P kept s.artifacts (cleanup_with h s m apply need u)
          (start_cleanup m u) first
          (λ found. evict_rule h s m apply need u found P kept (
            prune_jobs-Fine h s E act P kept apply (to_prune m) (start_cleanup m u) (λ j i. i)
              first)))
