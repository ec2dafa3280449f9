-- ===== src/Jobs/Run/Keep.antt =====
-- The critical sections that write a job's data and leave its state.
use provisioning_station.Base.{Failure, Option, Text, arith, none, refl, some, sym, ℕ, ◌∙◌, ◌≡◌}
use provisioning_station.Jobs.Events.{emit}
use provisioning_station.Jobs.Model.{Job, SerialCapture}
use provisioning_station.Jobs.Run.{
  add_task_error, begin_capture, decided, observe, set_capture, set_outcome, stop,
}
use provisioning_station.Jobs.Run.System.{Sound, Sound-Updates, System}
use provisioning_station.Jobs.Run.Updates.{
  Updates, announce-Updates, emit_locked-Updates, persist_locked-Updates,
}
use provisioning_station.Jobs.State.{Host, Manager, find_job, with_job_rule}
use provisioning_station.Tasks.Run.{Outcome}

-- Nothing changed, or one stored job was rewritten with its name and state as they were.
pub data Touched (m : Manager) : Manager → Type 0 where
  untouched : Touched m m
  touched :
      {m' : Manager} (id : Text) (old changed : Job)
      → find_job m id ≡ some old
      → changed.id ≡ old.id
      → changed.state ≡ old.state
      → Updates m changed m'
      → Touched m m'

module _ (h : Host) (m : Manager) where
  pub emit-Touched : (now : ℕ) (id level message : Text) → Touched m (emit h now m id level message)
  unfolding emit
  emit-Touched now id level message =
      with_job_rule (Touched m) m id _ untouched
        λ job e. touched id job job e refl refl (emit_locked-Updates h now m job level message)

  pub set_capture-Touched :
      (io : Option Failure) (id : Text) (c : SerialCapture) → Touched m (set_capture h io m id c)
  unfolding set_capture
  set_capture-Touched io id c =
      with_job_rule (Touched m) m id _ untouched
        λ job e. touched id job _ e refl refl (persist_locked-Updates h io m _)

  pub begin_capture-Touched :
      (now : ℕ) (io : Option Failure) (id : Text) (c : SerialCapture × Text)
      → Touched m (begin_capture h now io m id c)
  unfolding begin_capture
  begin_capture-Touched now io id c =
      with_job_rule (Touched m) m id _ untouched
        λ job e. touched id job _ e refl refl (announce-Updates h now io m _ _ _)

  pub observe-Touched :
      (now : ℕ) (io : Option Failure) (id : Text) (o : Outcome) (message : Text)
      → Touched m (observe h now io m id o message)
  unfolding observe
  observe-Touched now io id o message =
      with_job_rule (Touched m) m id _ untouched
        λ job e. touched id job _ e refl refl (announce-Updates h now io m _ _ _)

  decided_kept :
      (outcome : Text) (err : Option Failure) (job : Job)
      → ((decided outcome err job).id ≡ job.id) × ((decided outcome err job).state ≡ job.state)
  decided_kept outcome none job = (refl, refl)
  decided_kept outcome (some f) job = (refl, refl)

  pub set_outcome-Touched :
      (io : Option Failure) (id outcome : Text) (err : Option Failure)
      → Touched m (set_outcome h io m id outcome err)
  unfolding set_outcome
  set_outcome-Touched io id outcome err = with_job_rule (Touched m) m id _ untouched λ job e.
      let (i, t) = decided_kept outcome err job in
      touched id job _ e i t (persist_locked-Updates h io m _)

  pub add_task_error-Touched :
      (now : ℕ) (id message : Text) → Touched m (add_task_error h now m id message)
  unfolding add_task_error
  add_task_error-Touched now id message =
      with_job_rule (Touched m) m id _ untouched
        λ job e. touched id job _ e refl refl (emit_locked-Updates h now m _ _ _)

pub Touched-Sound :
    (s : System) (m' : Manager) → Sound s → Touched s.manager m' → Sound (record s { manager = m' })
Touched-Sound s m' v untouched = v
Touched-Sound s m' v (touched id old changed f i t u) =
    Sound-Updates s m' changed old v u (ground (arith, f, i, v.named id old f)) (λ r. sym t ∙ r)
      (λ r. t ∙ r)

pub stop-Sound : (s : System) → Sound s → Sound (record s { manager = stop s.manager })
unfolding stop
stop-Sound s v = record {
  named = v.named;
  placed = v.placed;
  running_works = v.running_works;
  worker_runs = v.worker_runs;
  context_works = v.context_works;
  worker_context = v.worker_context;
}
