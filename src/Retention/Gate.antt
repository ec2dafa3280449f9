-- ===== src/Retention/Gate.antt =====
-- The storage gate of the station: `EnsureLocked` of internal/storagebudget/budget.go with the cleanup
-- that `initializeRetention` of internal/jobs/retention.go sets as its `Reclaim`.
use provisioning_station.Base.{
  Bool, Bool-cases, Memᴰ, Option, Option-cases, ap, arith, fail_if, if◌then◌else◌, inl, inr, none,
  not, refl, some, true, ℕ, ◌≡◌, ◌⊎◌,
}
use provisioning_station.Base.Int.{pos}
use provisioning_station.Jobs.Events.{close_subscribers}
use provisioning_station.Jobs.State.{Gate, Host, JobError, Manager, external, storage_full}
use provisioning_station.Jobs.Submit.{Ensure}
use provisioning_station.Jobs.Submit.Replay.{IsEnsure}
use provisioning_station.Retention.Cleaning.{cleanup, expire_submission, forget_job, to_prune}
use provisioning_station.Retention.Guarded.{cleanup-Unknown}
use provisioning_station.Retention.Model.{
  Cleanup, CleanupEnv, CleanupError, is_active, no_room_left, unreadable,
}
use provisioning_station.Retention.Rule.{IsKept, cleanup_rule}
use provisioning_station.Storage.{Walk, has_room, status_locked}

-- What the environment answers while room is made: the two walks of the store, and the cleanup.
pub record GateEnv : Type 0 where
  pub first_walk : Walk
  pub reclaim : CleanupEnv
  pub second_walk : Walk

abbrev pub as_job_error : CleanupError → JobError
as_job_error (unreadable f) = external f
as_job_error no_room_left = storage_full

-- The second look at the status.
unfoldable pub look_again : Walk → ℕ → Gate → Option JobError
look_again w n g = elim w.error [
  | some f ↦ some (external f)
  | none ↦ fail_if (not (has_room (pos n) (status_locked g w))) storage_full
]

unfoldable pub after_reclaim :
    Walk → ℕ → Gate → Cleanup × Option CleanupError → Manager × Option JobError
after_reclaim w n g (c, some p) = (c.manager, some (as_job_error p))
after_reclaim w n g (c, none) = (c.manager, look_again w n g)

unfoldable pub ensure_with : Host → GateEnv → ℕ → Manager → Gate → Manager × Option JobError
ensure_with h e n m g = elim e.first_walk.error [
  | some f ↦ (m, some (external f))
  | none ↦
      if has_room (pos n) (status_locked g e.first_walk)
      then (m, none)
      else after_reclaim e.second_walk n g (cleanup h e.reclaim m true n)
]

-- It is called only where there is a budget.
unfoldable pub ensure_budget :
    Host → GateEnv → ℕ → Manager → Option Gate → Manager × Option JobError
ensure_budget h e n m none = (m, none)
ensure_budget h e n m (some g) = ensure_with h e n m g

-- `EnsureLocked`.
unfoldable pub station_ensure : Host → GateEnv → Ensure
station_ensure h e n m = ensure_budget h e n m m.budget

Admission-IsKept :
    (h : Host) (m : Manager)
    → IsKept h
        (λ j. Memᴰ j (to_prune m))
        (is_active m)
        (λ m' d. m'.admission_error ≡ m.admission_error)
unfolding expire_submission forget_job close_subscribers
Admission-IsKept h m = record {
  wrote = λ m' d j e p. p;
  expired = λ m' d j e g p. p;
  removed = λ m' d j e b p. p;
  forgotten = λ m' d stays j e b x p. p;
  evicted = λ m' d a idle p. p;
}

-- A cleanup neither opens nor closes admission.
pub cleanup-admission_error :
    (h : Host) (s : CleanupEnv) (m : Manager) (apply : Bool) (need : ℕ)
    → (cleanup h s m apply need).0.manager.admission_error ≡ m.admission_error
cleanup-admission_error h s m apply need =
    cleanup_rule h s m apply need (λ m' d. m'.admission_error ≡ m.admission_error)
      (Admission-IsKept h m) refl

after_reclaim-manager :
    (w : Walk) (n : ℕ) (g : Gate) (r : Cleanup × Option CleanupError)
    → (after_reclaim w n g r).0 ≡ r.0.manager
unfolding after_reclaim
after_reclaim-manager w n g (c, some p) = refl
after_reclaim-manager w n g (c, none) = refl

ensure_with-manager :
    (h : Host) (e : GateEnv) (n : ℕ) (m : Manager) (g : Gate)
    → ((ensure_with h e n m g).0 ≡ m)
      ⊎ ((ensure_with h e n m g).0 ≡ (cleanup h e.reclaim m true n).0.manager)
unfolding ensure_with
ensure_with-manager h e n m g = elim (Option-cases e.first_walk.error) [
  | inr (f, bad) ↦ inl (ground (arith, bad))
  | inl fine ↦ elim (Bool-cases (has_room (pos n) (status_locked g e.first_walk))) [
    | inl room ↦ inl (ground (arith, fine, room))
    | inr full ↦ inr (
        rw (fine, ensure_with, full)
          (after_reclaim-manager e.second_walk n g (cleanup h e.reclaim m true n)))
  ]
]

ensure_budget-manager :
    (h : Host) (e : GateEnv) (n : ℕ) (m : Manager) (b : Option Gate)
    → ((ensure_budget h e n m b).0 ≡ m)
      ⊎ ((ensure_budget h e n m b).0 ≡ (cleanup h e.reclaim m true n).0.manager)
unfolding ensure_budget
ensure_budget-manager h e n m none = inl refl
ensure_budget-manager h e n m (some g) = ensure_with-manager h e n m g

-- The manager after room was made: the same, or cleaned up.
pub station_ensure-manager :
    (h : Host) (e : GateEnv) (n : ℕ) (m : Manager)
    → ((station_ensure h e n m).0 ≡ m)
      ⊎ ((station_ensure h e n m).0 ≡ (cleanup h e.reclaim m true n).0.manager)
unfolding station_ensure
station_ensure-manager h e n m = ensure_budget-manager h e n m m.budget

-- The gate of the station keeps what an admission relies on.
pub station_ensure-IsEnsure : (h : Host) (e : GateEnv) → IsEnsure (station_ensure h e)
station_ensure-IsEnsure h e = record {
  unknown_kept = λ n m id linked s x. elim (station_ensure-manager h e n m) [
    | inl q ↦ rw q x
    | inr q ↦ rw q (cleanup-Unknown h e.reclaim m true n id linked (s, x)).1
  ];
  admission_kept = λ n m. elim (station_ensure-manager h e n m) [
    | inl q ↦ ap (λ y. y.admission_error) q
    | inr q ↦ rw q (cleanup-admission_error h e.reclaim m true n)
  ];
}
