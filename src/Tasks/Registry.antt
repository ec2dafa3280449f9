-- ===== src/Tasks/Registry.antt =====
-- The registry (internal/tasks/tasks.go, `New`, `Validate` and `validateInvocation`).
pub mod Accepted
pub mod Plans
use provisioning_station.Base.{
  Bool, Failure, List, Map, Option, Text, [], all, contains, fail_if, false, insert, is_alnum,
  is_some, leb, length, lookup, ltb, map, none, not, some, suc, text_key, true, ℕ, ◌&&◌, ◌==◌, ◌>>◌,
  ◌||◌, ◌∷◌,
}
use provisioning_station.Base.Int.{negsuc, pos, ℤ, ◌<ℤ◌}
use provisioning_station.Tasks.Plan.{Invocation, Plan, invocations}
use provisioning_station.Tasks.Values.{
  Numbers, Value, is_finite, is_negative, matches, same, valid_type,
}

pub record Parameter : Type 0 where
  pub name : Text
  pub kind : Text
  pub required : Bool
  pub enum : List Value

pub record Descriptor : Type 0 where
  pub id : Text
  pub parameters : List Parameter
  pub timeout_seconds : ℕ

-- `validate` is the compiled task's own check, which may be nil; `has_run` is `Run != nil`.
pub record Definition : Type 0 where
  pub descriptor : Descriptor
  pub validate : Option (Map Text Value → Option Failure)
  pub has_run : Bool

-- A `*Registry`, which may be nil.
abbrev pub Registry : Type 0
Registry = Option (Map Text Definition)

pub data TaskError : Type 0 where
  invalid_descriptor duplicate_task invalid_parameter_descriptor invalid_enum : Text → TaskError
  bad_version bad_invocations : TaskError
  unknown_task no_parameters semantic_failure : Text → TaskError
  missing_parameter invalid_parameter invalid_enum_parameter unknown_parameter :
      Text → Text → TaskError

-- The pattern `^[A-Za-z0-9][A-Za-z0-9_.-]{0,127}$`.
abbrev pub identifier_byte : ℕ → Bool
identifier_byte c = is_alnum c || c == b'_' || c == b'.' || c == b'-'

unfoldable pub is_identifier : Text → Bool
is_identifier [] = false
is_identifier (c ∷ s) = is_alnum c && leb (length s) 127 && all identifier_byte s

-- `timeout <= 0 || timeout > 3600`, or no number, or less than a nanosecond. 3600 is 0x40AC2…, and
-- positive float64 are ordered as their bits.
abbrev pub bad_timeout : Numbers → ℕ → Bool
bad_timeout n t =
    not (is_finite t)
    || is_negative t
    || t == 0
    || ltb 0x40ac200000000000 t
    || not (pos 0 <ℤ n.nanoseconds t)

-- The inner loop of `New` over a descriptor's parameters; `names` are those seen.
unfoldable pub new_parameters : Numbers → Text → List Text → List Parameter → Option TaskError
new_parameters n id names [] = none
new_parameters n id names (p ∷ ps) =
    fail_if (not (is_identifier p.name) || contains names p.name || not (valid_type p.kind))
      (invalid_parameter_descriptor id)
    >> fail_if (not (all (matches n p.kind) p.enum)) (invalid_enum id)
    >> new_parameters n id (p.name ∷ names) ps

-- The checks of `New` on one definition, among those registered before it.
unfoldable pub new_definition : Numbers → Map Text Definition → Definition → Option TaskError
new_definition n defs d =
    fail_if
      (not (is_identifier d.descriptor.id)
        || not d.has_run
        || bad_timeout n d.descriptor.timeout_seconds)
      (invalid_descriptor d.descriptor.id)
    >> fail_if (is_some (lookup d.descriptor.id defs)) (duplicate_task d.descriptor.id)
    >> new_parameters n d.descriptor.id [] d.descriptor.parameters

pub data Built : Type 0 where
  built : Map Text Definition → Built
  refused : TaskError → Built

unfoldable pub new_from : Numbers → Map Text Definition → List Definition → Built
new_from n defs [] = built defs
new_from n defs (d ∷ ds) =
    let rest = new_from n (insert d.descriptor.id d defs) ds in
    elim (new_definition n defs d) [ none ↦ rest | some e ↦ refused e ]

-- `New`. The copies of slices that it makes have the values of the originals.
unfoldable pub new : Numbers → List Definition → Built
new n ds = new_from n [] ds

abbrev pub has_same : Numbers → Value → List Value → Bool
has_same n v [] = false
has_same n v (o ∷ os) = same n v o || has_same n v os

abbrev pub is_nil {ℓ} : {A : Type ℓ} → List A → Bool
is_nil [] = true
is_nil (_ ∷ _) = false

-- One round of the loop over the descriptor's parameters.
unfoldable pub check_parameter : Numbers → Text → Map Text Value → Parameter → Option TaskError
check_parameter n id given p = elim (lookup p.name given) [
  | none ↦ fail_if p.required (missing_parameter id p.name)
  | some value ↦
      fail_if (not (matches n p.kind value)) (invalid_parameter id p.name)
      >> fail_if (not (is_nil p.enum) && not (has_same n value p.enum))
          (invalid_enum_parameter id p.name)
]

unfoldable pub check_parameters :
    Numbers → Text → Map Text Value → List Parameter → Option TaskError
check_parameters n id given [] = none
check_parameters n id given (p ∷ ps) =
    check_parameter n id given p >> check_parameters n id given ps

-- The loop that refuses a key which no parameter has. (Go's order of keys may differ.)
unfoldable pub check_known : Text → List Text → Map Text Value → Option TaskError
check_known id known [] = none
check_known id known ((key, _) ∷ rest) =
    fail_if (not (contains known key)) (unknown_parameter id key) >> check_known id known rest

abbrev pub semantic : Definition → Invocation → Map Text Value → Option TaskError
semantic d inv given = elim d.validate [
  | none ↦ none
  | some check ↦ fail_if (is_some (check given)) (semantic_failure inv.id)
]

abbrev pub find_definition : Registry → Text → Option Definition
find_definition none task = none
find_definition (some defs) task = lookup task defs

abbrev pub names : List Parameter → List Text
names = map λ p. p.name

unfoldable pub validate_invocation : Numbers → Registry → Invocation → Option TaskError
validate_invocation n r inv = elim (find_definition r inv.task) [
  | none ↦ some (unknown_task inv.task)
  | some d ↦ elim inv.parameters [
    | none ↦ some (no_parameters inv.id)
    | some given ↦
        check_parameters n inv.id given d.descriptor.parameters
        >> check_known inv.id (names d.descriptor.parameters) given
        >> semantic d inv given
  ]
]

-- The two nested loops of `Validate` as one over the invocations of all phases.
unfoldable pub validate_loop :
    Numbers → Registry → List Text → ℕ → List Invocation → Option TaskError
validate_loop n r ids count [] = none
validate_loop n r ids count (inv ∷ rest) =
    fail_if (ltb 64 (suc count) || not (is_identifier inv.id) || contains ids inv.id)
      bad_invocations
    >> validate_invocation n r inv
    >> validate_loop n r (inv.id ∷ ids) (suc count) rest

abbrev pub is_one : ℤ → Bool
is_one (pos k) = k == 1
is_one (negsuc k) = false

unfoldable pub validate : Numbers → Registry → Option Plan → Option TaskError
validate n r none = none
validate n r (some plan) =
    fail_if (not (is_one plan.version)) bad_version
    >> validate_loop n r [] 0 (invocations (some plan))
