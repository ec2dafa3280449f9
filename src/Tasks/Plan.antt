-- ===== src/Tasks/Plan.antt =====
-- Deployment plans (internal/tasks/tasks.go, `Invocation` to `Clone`). A nil slice is `none`.
use provisioning_station.Base.{List, Map, Option, Text, [], arith, none, refl, some, ◌++◌, ◌≡◌}
use provisioning_station.Base.Int.{ℤ}
use provisioning_station.Tasks.Values.{Value}

pub data Phase : Type 0 where
  before_boot on_success on_failure on_cancel : Phase

pub record Invocation : Type 0 where
  pub id : Text
  pub task : Text
  pub parameters : Option (Map Text Value)

pub record Plan : Type 0 where
  pub version : ℤ
  pub before_boot : Option (List Invocation)
  pub on_success : Option (List Invocation)
  pub on_failure : Option (List Invocation)
  pub on_cancel : Option (List Invocation)

abbrev pub items : Option (List Invocation) → List Invocation
items none = []
items (some xs) = xs

-- `Phase` of a plan, which may be nil; ranging over a nil slice does nothing.
unfoldable pub phase : Option Plan → Phase → List Invocation
phase none p = []
phase (some plan) Phase.before_boot = items plan.before_boot
phase (some plan) Phase.on_success = items plan.on_success
phase (some plan) Phase.on_failure = items plan.on_failure
phase (some plan) Phase.on_cancel = items plan.on_cancel

-- The phases in the order in which the code ranges over them.
unfoldable pub invocations : Option Plan → List Invocation
unfolding phase
invocations plan =
    phase plan Phase.before_boot
    ++ (phase plan Phase.on_success ++ (phase plan Phase.on_failure ++ phase plan Phase.on_cancel))

-- `clone` of a slice: a nil slice becomes an empty one; the items and their maps are copied, which
-- leaves their values as they are.
abbrev pub clone_items : Option (List Invocation) → Option (List Invocation)
clone_items none = some []
clone_items (some xs) = some xs

unfoldable pub clone : Option Plan → Option Plan
clone none = none
clone (some plan) = some (record {
  version = plan.version;
  before_boot = clone_items plan.before_boot;
  on_success = clone_items plan.on_success;
  on_failure = clone_items plan.on_failure;
  on_cancel = clone_items plan.on_cancel;
})

pub clone_idem : (p : Option Plan) → clone (clone p) ≡ clone p
unfolding clone
clone_idem none = refl
clone_idem (some p) = ground arith

pub phase-clone : (p : Option Plan) (ph : Phase) → phase (clone p) ph ≡ phase p ph
unfolding clone phase
phase-clone none ph = ground arith
phase-clone (some p) ph = ground arith
