-- ===== src/Tests/Plans.antt =====
-- A registry with one task, and a plan that invokes it.
use provisioning_station.Base.{
  [], codes, contains, insert, lookup, none, refl, some, text_eq, text_key, true, ◌↔◌, ◌∷◌, ◌≡◌,
}
use provisioning_station.Base.Int.{pos}
use provisioning_station.Tasks.Plan.{Invocation, Phase, Plan, invocations}
use provisioning_station.Tasks.Registry.{
  Definition, Parameter, Registry, built, check_known, check_parameter, check_parameters,
  is_identifier, new, new_definition, new_from, new_parameters, validate, validate_invocation,
}
use provisioning_station.Tasks.Registry.Accepted.{IsAccepted, validate_invocation-IsAccepted}
use provisioning_station.Tasks.Registry.Plans.{IsPlan, validate-IsPlan}
use provisioning_station.Tasks.Run.{Execution, Trace, run, run-Trace}
use provisioning_station.Tasks.Values.{matches, string, valid_type}
use provisioning_station.Tests.Samples.{numbers}

abbrev serial_parameter : Parameter
serial_parameter = record {
  name = codes "serial";
  kind = codes "string";
  required = true;
  enum = [];
}

abbrev program : Definition
program = record {
  descriptor = record {
    id = codes "program";
    parameters = serial_parameter ∷ [];
    timeout_seconds = 0x4024000000000000;
  };
  validate = none;
  has_run = true;
}

abbrev registry : Registry
registry = some ((codes "program", program) ∷ [])

abbrev step : Invocation
step = record {
  id = codes "first";
  task = codes "program";
  parameters = some ((codes "serial", string (codes "A7")) ∷ []);
}

abbrev plan : Plan
plan = record {
  version = pos 1;
  before_boot = none;
  on_success = some (step ∷ []);
  on_failure = none;
  on_cancel = none;
}

new_registers : new numbers (program ∷ []) ≡ built ((codes "program", program) ∷ [])
unfolding new new_from new_definition new_parameters is_identifier valid_type lookup insert text_eq
    contains
new_registers = refl

step_passes : validate_invocation numbers registry step ≡ none
unfolding validate_invocation check_parameters check_parameter check_known matches lookup text_eq
    contains
step_passes = refl

validate_invocation-IsAccepted_example : IsAccepted numbers registry step
validate_invocation-IsAccepted_example =
    validate_invocation-IsAccepted numbers registry step step_passes

validate-IsPlan_example :
    (validate numbers registry (some plan) ≡ none)
    ↔ ((plan.version ≡ pos 1) × IsPlan numbers registry [] 0 (invocations (some plan)))
validate-IsPlan_example = validate-IsPlan numbers registry plan

abbrev calm : Invocation → Execution
calm = λ inv. record { before = none; returned = none; after = none; started = 3; finished = 4 }

run-Trace_example :
    Trace numbers registry Phase.on_success calm
      (step ∷ [])
      (run numbers registry Phase.on_success calm (step ∷ [])).0
      (run numbers registry Phase.on_success calm (step ∷ [])).1
run-Trace_example = run-Trace numbers registry Phase.on_success calm (step ∷ [])
