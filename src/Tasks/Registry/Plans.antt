-- ===== src/Tasks/Registry/Plans.antt =====
-- What `Validate` of a whole plan comes to: both directions.
use provisioning_station.Base.{
  >>-eq_none, All, List, Text, [], arith, contains, false, length, none, refl, some, suc, true, ℕ,
  ◌+◌, ◌↔◌, ◌∷◌, ◌≡◌, ◌≤◌,
}
use provisioning_station.Base.Int.{negsuc, pos, ℤ}
use provisioning_station.Tasks.Plan.{Invocation, Plan, invocations}
use provisioning_station.Tasks.Registry.{
  Registry, is_identifier, is_one, validate, validate_invocation, validate_loop,
}
use provisioning_station.Tasks.Values.{Numbers}

-- No identifier is in `ids`, or occurs twice.
abbrev pub Distinct : List Text → List Invocation → Type 0
Distinct ids [] = Unit {0}
Distinct ids (inv ∷ invs) = (contains ids inv.id ≡ false) × Distinct (inv.id ∷ ids) invs

-- Counting every phase, the identifiers are valid and pairwise different, and each invocation passes.
pub record IsPlan (n : Numbers) (r : Registry) (ids : List Text) (count : ℕ)
    (invs : List Invocation) : Type 0 where
  pub bounded : count + length invs ≤ 64
  pub named : All (λ (inv : Invocation). is_identifier inv.id ≡ true) invs
  pub fresh : Distinct ids invs
  pub accepted : All (λ inv. validate_invocation n r inv ≡ none) invs

validate_loop-head :
    (n : Numbers) (r : Registry) (ids : List Text) (count : ℕ) (inv : Invocation)
    (rest : List Invocation)
    → validate_loop n r ids count (inv ∷ rest) ≡ none
    → (suc count ≤ 64)
      × (is_identifier inv.id ≡ true)
      × (contains ids inv.id ≡ false)
      × (validate_invocation n r inv ≡ none)
      × (validate_loop n r (inv.id ∷ ids) (suc count) rest ≡ none)
unfolding validate_loop
validate_loop-head n r ids count inv rest h = ground arith

validate_loop-IsPlan :
    (n : Numbers) (r : Registry) (ids : List Text) (count : ℕ) (invs : List Invocation)
    → count ≤ 64
    → validate_loop n r ids count invs ≡ none
    → IsPlan n r ids count invs
validate_loop-IsPlan n r ids count [] c h = record {
  bounded = omega arith;
  named = tt;
  fresh = tt;
  accepted = tt;
}
validate_loop-IsPlan n r ids count (inv ∷ rest) c h =
    let (b, i, f, v, l) = validate_loop-head n r ids count inv rest h in
    let ih = validate_loop-IsPlan n r (inv.id ∷ ids) (suc count) rest b l in
    record {
      bounded = omega (arith, ih.bounded);
      named = (i, ih.named);
      fresh = (f, ih.fresh);
      accepted = (v, ih.accepted);
    }

IsPlan-validate_loop :
    (n : Numbers) (r : Registry) (ids : List Text) (count : ℕ) (invs : List Invocation)
    → IsPlan n r ids count invs
    → validate_loop n r ids count invs ≡ none
unfolding validate_loop
IsPlan-validate_loop n r ids count [] h = refl
IsPlan-validate_loop n r ids count (inv ∷ rest) h = ground (
  arith,
  h.bounded,
  h.named.0,
  h.fresh.0,
  h.accepted.0,
  IsPlan-validate_loop n r (inv.id ∷ ids) (suc count) rest (record {
    bounded = omega (arith, h.bounded);
    named = h.named.1;
    fresh = h.fresh.1;
    accepted = h.accepted.1;
  }),
)

is_one-eq : (v : ℤ) → (is_one v ≡ true) ↔ (v ≡ pos 1)
is_one-eq (pos k) = ground arith
is_one-eq (negsuc k) = ground arith

-- A plan is accepted exactly when its version is 1 and its invocations, taken over the four
-- phases, are at most 64, have valid and pairwise different identifiers, and are each accepted
-- by the registry.
pub validate-IsPlan :
    (n : Numbers) (r : Registry) (p : Plan)
    → (validate n r (some p) ≡ none)
      ↔ ((p.version ≡ pos 1) × IsPlan n r [] 0 (invocations (some p)))
unfolding validate
validate-IsPlan n r p = (
  λ h. (
    (is_one-eq p.version).0 (ground arith),
    validate_loop-IsPlan n r [] 0 (invocations (some p)) (omega arith) (>>-eq_none _ _ h).1,
  ),
  λ h.
      let one = (is_one-eq p.version).1 h.0 in
      let good = IsPlan-validate_loop n r [] 0 (invocations (some p)) h.1 in ground arith,
)
