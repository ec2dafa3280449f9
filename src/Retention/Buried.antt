-- ===== src/Retention/Buried.antt =====
-- What a cleanup has done to the disk where it succeeds (internal/jobs/retention.go).
-- The tombstone of the job is on the disk, if its submission has an identifier.
use provisioning_station.Base.{
  Bool-cases, List, Memᴰ, Option, [], false, inl, inr, is_empty, is_empty-given, lookup,
  lookup-insert_self, ltb, none, refl, some, text_key, ◌+◌, ◌≡◌, ◌≢◌,
}
use provisioning_station.Jobs.Model.{Job}
use provisioning_station.Jobs.State.{Host, Manager}
use provisioning_station.Retention.Cleaning.{
  after_write, bury, expire, expire_in_room, expire_submission, limit_of, on_answer, tombstone_of,
}
use provisioning_station.Retention.Model.{
  Answer, Cleanup, CleanupEnv, CleanupError, DiskAction, DiskAnswer, Usage, got, not_stored, stored,
  tombstone_written, went_wrong,
}

unfoldable pub Buried : Host → Job → List DiskAction → Type 0
Buried h j d =
    j.request.request_id ≢ [] → Memᴰ (tombstone_written j.request.request_id (tombstone_of h j)) d

-- What succeeds has done this to the disk.
abbrev Does : DiskAction → Cleanup × Option CleanupError → Type 0
Does a r = r.1 ≡ none → Memᴰ a r.0.disk

after_write-Does :
    (x : DiskAnswer) (a : DiskAction) (lost change : Manager → Manager) (c : Cleanup)
    → Does a (after_write x a lost change c)
unfolding after_write
after_write-Does stored a lost change c q = Memᴰ.head refl
after_write-Does (not_stored reached e) a lost change c q = absurd (cc q)

on_answer-Does {ℓ} :
    {A : Type ℓ} (a : DiskAction) (x : Answer A) (after : A → Cleanup × Option CleanupError)
    (c : Cleanup)
    → ((v : A) → Does a (after v))
    → Does a (on_answer x after c)
unfolding on_answer
on_answer-Does a (went_wrong e) after c does q = absurd (cc q)
on_answer-Does a (got v) after c does q = does v q

expire_in_room-Does :
    (h : Host) (s : CleanupEnv) (j : Job) (c : Cleanup) (u : Usage)
    → Does (tombstone_written j.request.request_id (tombstone_of h j)) (expire_in_room h s j c u)
unfolding expire_in_room expire
expire_in_room-Does h s j c u q =
    elim (Bool-cases
      (ltb (limit_of c.manager) (u.used + s.tombstone_length (tombstone_of h j) + 4096))) [
        | inl full_now ↦ absurd (cc (rw full_now at q))
        | inr room ↦ rw room (
            after_write-Does (s.tombstone_write j.request.request_id) _ (λ m. m)
              (expire_submission h j) c (rw room at q))
      ]

pub bury-Buried :
    (h : Host) (s : CleanupEnv) (j : Job) (c : Cleanup)
    → (bury h s j c).1 ≡ none
    → Buried h j (bury h s j c).0.disk
unfolding bury Buried
bury-Buried h s j c q given =
    let e : is_empty j.request.request_id ≡ false = is_empty-given j.request.request_id given in
    rw e (
      on_answer-Does _ (s.usage_before j.request.request_id) (expire_in_room h s j c) c
        (expire_in_room-Does h s j c) (rw e at q))

-- The identifier of the submission of the job has expired, with the tombstone of the job.
unfoldable pub Tombed : Host → Job → Manager → Type 0
Tombed h j m =
    j.request.request_id ≢ [] → lookup j.request.request_id m.expired ≡ some (tombstone_of h j)

-- What succeeds has changed the manager so.
abbrev Leaves : (Manager → Type 0) → Cleanup × Option CleanupError → Type 0
Leaves P r = r.1 ≡ none → P r.0.manager

on_answer-Leaves {ℓ} :
    {A : Type ℓ} (P : Manager → Type 0) (x : Answer A) (after : A → Cleanup × Option CleanupError)
    (c : Cleanup)
    → ((v : A) → Leaves P (after v))
    → Leaves P (on_answer x after c)
unfolding on_answer
on_answer-Leaves P (went_wrong e) after c leaves q = absurd (cc q)
on_answer-Leaves P (got v) after c leaves q = leaves v q

after_write-Leaves :
    (P : Manager → Type 0) (x : DiskAnswer) (a : DiskAction) (lost change : Manager → Manager)
    (c : Cleanup)
    → P (change c.manager)
    → Leaves P (after_write x a lost change c)
unfolding after_write
after_write-Leaves P stored a lost change c p q = p
after_write-Leaves P (not_stored reached e) a lost change c p q = absurd (cc q)

expire_in_room-Leaves :
    (h : Host) (s : CleanupEnv) (j : Job) (c : Cleanup) (u : Usage)
    → Leaves
        (λ m. lookup j.request.request_id m.expired ≡ some (tombstone_of h j))
        (expire_in_room h s j c u)
unfolding expire_in_room expire expire_submission
expire_in_room-Leaves h s j c u q =
    elim (Bool-cases
      (ltb (limit_of c.manager) (u.used + s.tombstone_length (tombstone_of h j) + 4096))) [
        | inl full_now ↦ absurd (cc (rw full_now at q))
        | inr room ↦ rw room (
            after_write-Leaves
              (λ m. lookup j.request.request_id m.expired ≡ some (tombstone_of h j))
              (s.tombstone_write j.request.request_id) _ (λ m. m) (expire_submission h j) c
              (lookup-insert_self j.request.request_id (tombstone_of h j) c.manager.expired)
              (rw room at q))
      ]

pub bury-Tombed :
    (h : Host) (s : CleanupEnv) (j : Job) (c : Cleanup)
    → (bury h s j c).1 ≡ none
    → Tombed h j (bury h s j c).0.manager
unfolding bury Tombed
bury-Tombed h s j c q given =
    let e : is_empty j.request.request_id ≡ false = is_empty-given j.request.request_id given in
    rw e (
      on_answer-Leaves (λ m. lookup j.request.request_id m.expired ≡ some (tombstone_of h j))
        (s.usage_before j.request.request_id) (expire_in_room h s j c) c
        (expire_in_room-Leaves h s j c) (rw e at q))
