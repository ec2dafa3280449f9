-- ===== src/Tasks/Registry/Accepted.antt =====
-- What an accepted plan is: every invocation names a known task and gives it what it asks for.
use provisioning_station.Base.{
  >>-eq_none, List, Map, Memᴰ, Option-cases, Text, [], arith, contains, contains-mem, inl, inr,
  lookup, none, refl, some, sym, text_eq_iff, text_key, true, ◌∷◌, ◌≡◌, ◌≢◌, ◌⊎◌,
}
use provisioning_station.Tasks.Plan.{Invocation}
use provisioning_station.Tasks.Registry.{
  Definition, Parameter, Registry, check_known, check_parameter, check_parameters, find_definition,
  has_same, is_nil, names, semantic, validate_invocation,
}
use provisioning_station.Tasks.Values.{Numbers, Value, matches}

-- A given value has its parameter's type, and is one of its options where it lists any.
pub record Fits (n : Numbers) (p : Parameter) (v : Value) : Type 0 where
  pub typed : matches n p.kind v ≡ true
  pub listed : (p.enum ≡ []) ⊎ (has_same n v p.enum ≡ true)

is_nil-eq : (vs : List Value) → is_nil vs ≡ true → vs ≡ []
is_nil-eq [] h = refl
is_nil-eq (v ∷ vs) h = cc

check_parameter-Fits :
    (n : Numbers) (id : Text) (given : Map Text Value) (p : Parameter) (v : Value)
    → check_parameter n id given p ≡ none
    → lookup p.name given ≡ some v
    → Fits n p v
unfolding check_parameter
check_parameter-Fits n id given p v h e = record {
  typed = ground (arith, h, e);
  listed = ground (arith, h, e, is_nil-eq p.enum);
}

check_parameter-required :
    (n : Numbers) (id : Text) (given : Map Text Value) (p : Parameter)
    → check_parameter n id given p ≡ none
    → p.required ≡ true
    → lookup p.name given ≢ none
unfolding check_parameter
check_parameter-required n id given p h r e = ground arith

check_parameters-mem :
    (n : Numbers) (id : Text) (given : Map Text Value) (ps : List Parameter) (p : Parameter)
    → check_parameters n id given ps ≡ none
    → Memᴰ p ps
    → check_parameter n id given p ≡ none
unfolding check_parameters
check_parameters-mem n id given [] p h m = elim m [ ]
check_parameters-mem n id given (q ∷ ps) p h (Memᴰ.head e) = rw e (>>-eq_none _ _ h).0
check_parameters-mem n id given (q ∷ ps) p h (Memᴰ.tail m) =
    check_parameters-mem n id given ps p (>>-eq_none _ _ h).1 m

check_known-contains :
    (id : Text) (known : List Text) (given : Map Text Value) (k : Text) (v : Value)
    → check_known id known given ≡ none
    → lookup k given ≡ some v
    → contains known k ≡ true
unfolding check_known lookup
check_known-contains id known [] k v h e = cc
check_known-contains id known ((j, w) ∷ given) k v h e =
    ground (arith, check_known-contains id known given k v, text_eq_iff j k)

names-mem :
    (ps : List Parameter) (k : Text)
    → Memᴰ k (names ps)
    → (p : Parameter) × Memᴰ p ps × (p.name ≡ k)
names-mem [] k m = elim m [ ]
names-mem (p ∷ ps) k (Memᴰ.head e) = (p, Memᴰ.head refl, sym e)
names-mem (p ∷ ps) k (Memᴰ.tail m) = let (q, n, e) = names-mem ps k m in (q, Memᴰ.tail n, e)

-- What `validate_invocation` requires of an invocation.
pub record IsAccepted (n : Numbers) (r : Registry) (inv : Invocation) : Type 0 where
  pub definition : Definition
  pub given : Map Text Value
  pub known_task : find_definition r inv.task ≡ some definition
  pub has_parameters : inv.parameters ≡ some given
  -- every given parameter is declared, and fits its declaration
  pub declared :
      (k : Text) (v : Value)
      → lookup k given ≡ some v
      → (p : Parameter) × Memᴰ p definition.descriptor.parameters × (p.name ≡ k) × Fits n p v
  -- every required parameter is given
  pub complete :
      (p : Parameter)
      → Memᴰ p definition.descriptor.parameters
      → p.required ≡ true
      → lookup p.name given ≢ none
  -- the task's own check passes
  pub approved : semantic definition inv given ≡ none

module _ (n : Numbers) (r : Registry) (inv : Invocation) where
  accept :
      (d : Definition) (given : Map Text Value)
      → find_definition r inv.task ≡ some d
      → inv.parameters ≡ some given
      → check_parameters n inv.id given d.descriptor.parameters ≡ none
      → check_known inv.id (names d.descriptor.parameters) given ≡ none
      → semantic d inv given ≡ none
      → IsAccepted n r inv
  accept d given found gave checked known ok = record {
    definition = d;
    given = given;
    known_task = found;
    has_parameters = gave;
    declared = λ k v e.
        let (p, m, eq) =
          names-mem d.descriptor.parameters k
            (contains-mem _ k (check_known-contains inv.id _ given k v known e)) in
        (
          p,
          m,
          eq,
          check_parameter-Fits n inv.id given p v
              (check_parameters-mem n inv.id given d.descriptor.parameters p checked m) (rw eq e),
        );
    complete = λ p m req.
        check_parameter-required n inv.id given p
          (check_parameters-mem n inv.id given d.descriptor.parameters p checked m) req;
    approved = ok;
  }

  accepted_parts :
      (d : Definition) (given : Map Text Value)
      → find_definition r inv.task ≡ some d
      → inv.parameters ≡ some given
      → validate_invocation n r inv ≡ none
      → (check_parameters n inv.id given d.descriptor.parameters ≡ none)
        × (check_known inv.id (names d.descriptor.parameters) given ≡ none)
        × (semantic d inv given ≡ none)
  unfolding validate_invocation
  accepted_parts d given e e' h = ground arith

  -- An invocation that is accepted names a registered task and has parameters; every parameter
  -- given is declared and fits its type and its options, every required one is given, and the
  -- check of the task passes.
  pub validate_invocation-IsAccepted : validate_invocation n r inv ≡ none → IsAccepted n r inv
  unfolding validate_invocation
  validate_invocation-IsAccepted h =
      let absent : (find_definition r inv.task ≡ none) → ⊥ = λ e. ground (arith, h, e) in
      elim (Option-cases (find_definition r inv.task)) [
        | inl e ↦ absurd (absent e)
        | inr (d, e) ↦ elim (Option-cases inv.parameters) [
          | inl e' ↦ absurd (ground (arith, h, e, e'))
          | inr (given, e') ↦
              let (a, b, c) = accepted_parts d given e e' h in accept d given e e' a b c
        ]
      ]
