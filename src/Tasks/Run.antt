-- ===== src/Tasks/Run.antt =====
-- One phase of a deployment (internal/tasks/tasks.go, `Run` and `safeCause`).
use provisioning_station.Base.{
  Failure, List, Option, Option-cases, Text, [], arith, codes, false, if◌then◌else◌, inl, inr, none,
  refl, some, subst, sym, true, ℕ, ◌++◌, ◌↔◌, ◌∷◌, ◌≡◌, ◌≢◌,
}
use provisioning_station.Tasks.Plan.{Invocation, Phase, phase}
use provisioning_station.Tasks.Registry.{Registry, TaskError, validate_invocation}
use provisioning_station.Tasks.Values.{Numbers}

pub data TaskState : Type 0 where
  running succeeded failed canceled interrupted : TaskState

-- A time is an instant on the station's clock.
pub record Outcome : Type 0 where
  pub id : Text
  pub task : Text
  pub phase : Phase
  pub state : TaskState
  pub started : ℕ
  pub finished : Option ℕ
  pub error : Text

-- What the environment does at one invocation: `ctx.Err()` before it, the error of the compiled
-- task, `taskContext.Err()` after it, and the clock.
pub record Execution : Type 0 where
  pub before : Option Failure
  pub returned : Option Failure
  pub after : Option Failure
  pub started : ℕ
  pub finished : ℕ

pub data PhaseError : Type 0 where
  stopped : Failure → PhaseError
  rejected : TaskError → PhaseError
  task_failed : Text → Text → Failure → PhaseError

-- `if taskContext.Err() != nil { err = taskContext.Err() }`.
abbrev pub final_error : Execution → Option Failure
final_error x = elim x.after [ none ↦ x.returned | some f ↦ some f ]

abbrev pub failed_state : Failure → TaskState
failed_state f = if f.is_canceled then canceled else failed

abbrev pub failed_text : Failure → Text
failed_text f =
    if f.is_deadline
    then codes "task timed out"
    else if f.is_canceled
    then codes "task canceled"
    else codes "task execution failed"

-- `safeCause`: of the cause only its kind is passed on.
unfoldable pub safe_cause : Failure → Failure
safe_cause f =
    if f.is_canceled
    then record { message = codes "context canceled"; is_canceled = true; is_deadline = false }
    else if f.is_deadline
    then record {
      message = codes "context deadline exceeded";
      is_canceled = false;
      is_deadline = true;
    }
    else record { message = codes "execution failed"; is_canceled = false; is_deadline = false }

unfoldable pub start_outcome : Phase → Invocation → Execution → Outcome
start_outcome phase inv x = record {
  id = inv.id;
  task = inv.task;
  phase = phase;
  state = running;
  started = x.started;
  finished = none;
  error = [];
}

unfoldable pub end_outcome : Phase → Invocation → Execution → Outcome
unfolding start_outcome
end_outcome phase inv x =
    let r = start_outcome phase inv x in
    elim (final_error x) [
      | none ↦ record r { finished = some x.finished; state = succeeded }
      | some f ↦ record r {
        finished = some x.finished;
        state = failed_state f;
        error = failed_text f;
      }
    ]

-- The observed outcomes in order, and the error.
module _ (n : Numbers) (r : Registry) (phase : Phase) (exec : Invocation → Execution) where
  unfoldable pub run : List Invocation → List Outcome × Option PhaseError
  run [] = ([], none)
  run (inv ∷ rest) =
      let x = exec inv in
      let seen = start_outcome phase inv x ∷ end_outcome phase inv x ∷ [] in
      let later : List Outcome × Option PhaseError = run rest in
      elim x.before [
        | some f ↦ ([], some (stopped f))
        | none ↦ elim (validate_invocation n r inv) [
          | some e ↦ ([], some (rejected e))
          | none ↦ elim (final_error x) [
            | some f ↦
                (seen, some (task_failed inv.id (end_outcome phase inv x).error (safe_cause f)))
            | none ↦ (seen ++ later.0, later.1)
          ]
        ]
      ]

  -- What an observer may see of a phase: pairs of a start and a success, then at most one failure,
  -- which ends the phase with an error; nothing is seen of the invocations behind it.
  pub data Trace : List Invocation → List Outcome → Option PhaseError → Type 0 where
    done : Trace [] [] none
    refused :
        {inv : Invocation} {rest : List Invocation} (e : PhaseError)
        → Trace (inv ∷ rest) [] (some e)
    broken :
        {inv : Invocation} {rest : List Invocation} (a b : Outcome) (f : Failure)
        → a ≡ start_outcome phase inv (exec inv)
        → b.id ≡ inv.id
        → b.state ≢ succeeded
        → (b.state ≡ canceled) ↔ (f.is_canceled ≡ true)
        → Trace (inv ∷ rest) (a ∷ b ∷ []) (some (task_failed inv.id b.error f))
    passed :
        {inv : Invocation} {rest : List Invocation} {seen : List Outcome} {e : Option PhaseError}
        (a b : Outcome)
        → a ≡ start_outcome phase inv (exec inv)
        → b ≡ record a { finished = some (exec inv).finished; state = succeeded }
        → Trace rest seen e
        → Trace (inv ∷ rest) (a ∷ b ∷ seen) e

  safe_cause_kind : (f : Failure) → (safe_cause f).is_canceled ≡ f.is_canceled
  unfolding safe_cause
  safe_cause_kind f = ground arith

  end_outcome_failed :
      (inv : Invocation) (f : Failure)
      → final_error (exec inv) ≡ some f
      → ((end_outcome phase inv (exec inv)).state ≡ failed_state f)
        × ((end_outcome phase inv (exec inv)).id ≡ inv.id)
  unfolding end_outcome
  end_outcome_failed inv f e = (ground (arith, e), ground (arith, e))

  end_outcome_passed :
      (inv : Invocation)
      → final_error (exec inv) ≡ none
      → end_outcome phase inv (exec inv) ≡ record (start_outcome phase inv (exec inv)) {
        finished = some (exec inv).finished;
        state = succeeded;
      }
  unfolding end_outcome
  end_outcome_passed inv e = ground (arith, e)

  failed_state_lem :
      (f : Failure)
      → (failed_state f ≢ succeeded) × ((failed_state f ≡ canceled) ↔ (f.is_canceled ≡ true))
  failed_state_lem f = ground arith

  module _ (inv : Invocation) (rest : List Invocation) where
    abbrev pair : List Outcome
    pair = start_outcome phase inv (exec inv) ∷ end_outcome phase inv (exec inv) ∷ []

    run_stopped :
        (f : Failure) → (exec inv).before ≡ some f → run (inv ∷ rest) ≡ ([], some (stopped f))
    unfolding run
    run_stopped f e = ground (arith, e)

    run_rejected :
        (f : TaskError)
        → (exec inv).before ≡ none
        → validate_invocation n r inv ≡ some f
        → run (inv ∷ rest) ≡ ([], some (rejected f))
    unfolding run
    run_rejected f e v = ground (arith, e, v)

    run_broken :
        (f : Failure)
        → (exec inv).before ≡ none
        → validate_invocation n r inv ≡ none
        → final_error (exec inv) ≡ some f
        → run (inv ∷ rest) ≡ (
          pair,
          some (task_failed inv.id (end_outcome phase inv (exec inv)).error (safe_cause f)),
        )
    unfolding run
    run_broken f e v x = ground (arith, e, v, x)

    run_passed :
        (exec inv).before ≡ none
        → validate_invocation n r inv ≡ none
        → final_error (exec inv) ≡ none
        → run (inv ∷ rest) ≡ (pair ++ (run rest).0, (run rest).1)
    unfolding run
    run_passed e v x = ground (arith, e, v, x)

    abbrev IsTrace : List Outcome × Option PhaseError → Type 0
    IsTrace t = Trace (inv ∷ rest) t.0 t.1

    run-Trace_cons : Trace rest (run rest).0 (run rest).1 → IsTrace (run (inv ∷ rest))
    run-Trace_cons ih = elim (Option-cases (exec inv).before) [
      | inr (f, e) ↦ subst IsTrace (sym (run_stopped f e)) (refused (stopped f))
      | inl e ↦ elim (Option-cases (validate_invocation n r inv)) [
        | inr (f, v) ↦ subst IsTrace (sym (run_rejected f e v)) (refused (rejected f))
        | inl v ↦ elim (Option-cases (final_error (exec inv))) [
          | inr (f, x) ↦ subst IsTrace (sym (run_broken f e v x)) (
              broken _ _ _ refl (end_outcome_failed inv f x).1
                (rw ((end_outcome_failed inv f x).0) (failed_state_lem f).0)
                (rw (safe_cause_kind f, (end_outcome_failed inv f x).0) (failed_state_lem f).1))
          | inl x ↦
              subst IsTrace (sym (run_passed e v x)) (passed _ _ refl (end_outcome_passed inv x) ih)
        ]
      ]
    ]

  -- Whatever the tasks do, what is seen of a phase is a trace: a start and a success for each
  -- invocation in order, then at most one failure, which ends the phase with an error; an
  -- outcome is canceled exactly when the error that is returned is a cancellation.
  pub run-Trace : (invs : List Invocation) → Trace invs (run invs).0 (run invs).1
  unfolding run
  run-Trace [] = done
  run-Trace (inv ∷ rest) = run-Trace_cons inv rest (run-Trace rest)
