-- ===== src/Admission/Created.antt =====
-- What holds of an instance that `handleCreate` lets into the cluster.
use kudo.Prelude.{
  ◌≡◌, refl, subst, inl, inr, String, true, List, [], ◌∷◌, Option, none, some, Result, ok, err,
  if◌then◌else◌, arith, Bool-cases, ◌==◌, ◌&&◌, sym, ap, ◌∙◌, eq_iff,
}
use kudo.Prelude.Maps.{has_key, lookup, lookup-insert, has_key-lookup}
use kudo.Api.Operator.{Parameter, OperatorVersion}
use kudo.Api.Instance.{
  Instance, deploy_plan_name, plan_exists, cleanup_plan_exists, try_add_finalizer,
}
use kudo.Api.Parameters.{is_immutable}
use kudo.Admission.Parameters.{
  Denial, set_default, set_defaults, set_immutable_parameter_defaults, validate_parameters,
}
use kudo.Admission.Handler.{
  patched, Server, Request, patch_of, patch_created, create_with, create_from, handle_created,
  with_execution, in_namespace, get_operator_version, handle_create,
}

abbrev pub or_else : Option String → Option String → Option String
or_else (some x) y = some x
or_else none y = y

-- The default of the first immutable parameter of that name that has a default.
unfoldable pub default_value : String → List Parameter → Option String
default_value key [] = none
default_value key (p ∷ rest) =
    let later = default_value key rest in
    if is_immutable p && (p.name == key) then or_else p.default later else later

-- The values are those that were given, and the defaults of the immutable parameters without a value.
pub record Defaulted (ps : List Parameter) (given values : List (String × String)) : Type 0 where
  pub kept : (key x : String) → lookup key given ≡ some x → lookup key values ≡ some x
  pub filled : (key : String) → lookup key given ≡ none → lookup key values ≡ default_value key ps

present_value :
    (key : String) (values : List (String × String))
    → has_key key values ≡ true
    → (x : String) × (lookup key values ≡ some x)
unfolding has_key lookup
present_value key [] h = absurd (cc h)
present_value key ((other, x) ∷ rest) h = elim (Bool-cases (other == key)) [
  | inl e ↦ (x, rw e refl)
  | inr e ↦ let (y, f) = present_value key rest (rw e at h) in (y, rw e f)
]

lookup-present :
    (key : String) (values : List (String × String))
    → has_key key values ≡ true
    → (later : Option String) → or_else (lookup key values) later ≡ lookup key values
lookup-present key values h later = let (x, e) = present_value key values h in rw e refl

lookup-set_default :
    (key : String) (p : Parameter) (values : List (String × String)) (d later : Option String)
    → or_else (lookup key (set_default p values d)) later
      ≡ or_else
          (lookup key values)
          (if is_immutable p && (p.name == key) then or_else d later else later)
lookup-set_default key p values none later = elim (Bool-cases (is_immutable p && (p.name == key))) [
  | inl e ↦ rw e refl
  | inr e ↦ rw e refl
]
lookup-set_default key p values (some d) later = elim (Bool-cases (is_immutable p)) [
  | inr e ↦ rw e refl
  | inl e ↦ elim (Bool-cases (has_key p.name values)) [
    | inl k ↦ elim (Bool-cases (p.name == key)) [
      | inr n ↦ rw (e, k, n) refl
      | inl n ↦
          let there : has_key key values ≡ true =
            subst (λ s. has_key s values ≡ true) ((eq_iff p.name key).0 n) k in
          rw (e, k, n)
            (lookup-present key values there later ∙ sym (lookup-present key values there (some d)))
    ]
    | inr k ↦ elim (Bool-cases (p.name == key)) [
      | inr n ↦ rw (e, k, n, lookup-insert p.name key d values) (rw n refl)
      | inl n ↦
          let missing : lookup key values ≡ none =
            subst (λ s. lookup s values ≡ none) ((eq_iff p.name key).0 n)
              (has_key-lookup p.name values k) in
          rw (e, k, n, lookup-insert p.name key d values, missing) (rw n refl)
    ]
  ]
]

lookup-set_defaults :
    (key : String) (ps : List Parameter) (values : List (String × String))
    → lookup key (set_defaults ps values) ≡ or_else (lookup key values) (default_value key ps)
unfolding set_defaults default_value
lookup-set_defaults key [] values = by_value (lookup key values)
  where
    by_value : (r : Option String) → r ≡ or_else r none
    by_value none = refl
    by_value (some x) = refl
lookup-set_defaults key (p ∷ rest) values =
    lookup-set_defaults key rest (set_default p values p.default)
    ∙ lookup-set_default key p values p.default (default_value key rest)

set_defaults-Defaulted :
    (ps : List Parameter) (values : List (String × String))
    → Defaulted ps values (set_defaults ps values)
set_defaults-Defaulted ps values = record {
  kept =
      λ key x e. lookup-set_defaults key ps values ∙ ap (λ r. or_else r (default_value key ps)) e;
  filled =
      λ key e. lookup-set_defaults key ps values ∙ ap (λ r. or_else r (default_value key ps)) e;
}

-- An instance that is ready for its first plan.
pub record Created (server : Server) (ns : String) (ov : OperatorVersion)
    (given : List (String × String)) (i : Instance) : Type 0 where
  pub deploy_exists : plan_exists deploy_plan_name ov ≡ true
  pub plan : i.spec.plan_execution.plan_name ≡ deploy_plan_name
  pub uid : i.spec.plan_execution.uid ≡ server.new_uuid
  pub values : Defaulted ov.parameters given i.spec.parameters
  pub valid : validate_parameters server.parsers ov i ≡ ok tt
  pub namespace : i.metadata.namespace ≡ ns

module _ (server : Server) where
  pub patch-patched : (i j : Instance) (o : Option String) → patch_of server i o ≡ patched j → i ≡ j
  patch-patched i j none h = cc h
  patch-patched i j (some e) h = cc h

  try_add_finalizer-namespace :
      (i : Instance)
      → (try_add_finalizer server.packages i).0.metadata.namespace ≡ i.metadata.namespace
  unfolding try_add_finalizer
  try_add_finalizer-namespace i = ground arith

  try_add_finalizer-spec : (i : Instance) → (try_add_finalizer server.packages i).0.spec ≡ i.spec
  unfolding try_add_finalizer
  try_add_finalizer-spec i = ground arith

  -- The instance with its finalizer, and with the plan and the defaults.
  abbrev guarded : Instance → OperatorVersion → Instance
  guarded new ov = if cleanup_plan_exists ov then (try_add_finalizer server.packages new).0 else new

  abbrev complete : Instance → OperatorVersion → Instance
  complete new ov = set_immutable_parameter_defaults ov (
      with_execution server
        (record (guarded new ov).spec.plan_execution {
          plan_name = deploy_plan_name;
          uid = server.new_uuid;
        })
        (guarded new ov))

  guarded-namespace :
      (new : Instance) (ov : OperatorVersion)
      → (guarded new ov).metadata.namespace ≡ new.metadata.namespace
  guarded-namespace new ov = elim (Bool-cases (cleanup_plan_exists ov)) [
    | inl e ↦ rw e (try_add_finalizer-namespace new)
    | inr e ↦ rw e refl
  ]

  guarded-parameters :
      (new : Instance) (ov : OperatorVersion)
      → (guarded new ov).spec.parameters ≡ new.spec.parameters
  guarded-parameters new ov = elim (Bool-cases (cleanup_plan_exists ov)) [
    | inl e ↦ rw e (ap (λ s. s.parameters) (try_add_finalizer-spec new))
    | inr e ↦ rw e refl
  ]

  patched_valid :
      (c i : Instance) (v : Result Denial (Unit {0}))
      → patch_created server c v ≡ patched i
      → (c ≡ i) × (v ≡ ok tt)
  patched_valid c i (ok u) h = (patch-patched c i (server.marshal_error c) h, refl)
  patched_valid c i (err d) h = cc h

  create_with-Created :
      (new i : Instance) (ov : OperatorVersion)
      → create_with server new ov ≡ patched i
      → Created server new.metadata.namespace ov new.spec.parameters i
  unfolding create_with set_immutable_parameter_defaults
  create_with-Created new i ov h = elim (Bool-cases (plan_exists deploy_plan_name ov)) [
    | inr e ↦ cc (rw (e, create_with) at h)
    | inl e ↦
        let (same, valid) =
          patched_valid (complete new ov) i
            (validate_parameters server.parsers ov (complete new ov)) (rw (e, create_with) at h) in
        subst (Created server new.metadata.namespace ov new.spec.parameters) same (record {
          deploy_exists = e;
          plan = refl;
          uid = refl;
          values =
              subst
                (λ vs.
                  Defaulted ov.parameters vs
                    (set_defaults ov.parameters (guarded new ov).spec.parameters))
                (guarded-parameters new ov)
                (set_defaults-Defaulted ov.parameters (guarded new ov).spec.parameters);
          valid = valid;
          namespace = guarded-namespace new ov;
        })
  ]

  -- The instance was made of the request's object and of its operator version.
  abbrev pub IsDeployed : Request → Instance → Type 0
  IsDeployed req i =
      (new : Instance) × (ov : OperatorVersion) × (req.object ≡ ok new)
      × (get_operator_version server (in_namespace server req.namespace new) ≡ ok ov)
      × Created server req.namespace ov new.spec.parameters i

  -- If `handleCreate` answers with a patch, then the operator version of the new instance is found
  -- and has a 'deploy' plan, and the patched instance has that plan scheduled with a new UID, parameters
  -- that pass all checks, and the namespace of the request. Of the parameters, each value that the new
  -- instance gives is kept, and each other has the default of the first immutable parameter of its
  -- name that has one, or no value if there is none.
  pub handle_create-Created :
      (req : Request) (i : Instance) → handle_create server req ≡ patched i → IsDeployed req i
  unfolding handle_create
  handle_create-Created req i h = of_object req.object refl h
    where
      of_version :
          (new : Instance) (r : Result String OperatorVersion)
          → req.object ≡ ok new
          → get_operator_version server (in_namespace server req.namespace new) ≡ r
          → create_from server (in_namespace server req.namespace new) r ≡ patched i
          → IsDeployed req i
      of_version new (err e) a b k = cc k
      of_version new (ok ov) a b k =
          (new, ov, a, b, create_with-Created (in_namespace server req.namespace new) i ov k)

      of_object :
          (r : Result String Instance)
          → req.object ≡ r
          → handle_created server req r ≡ patched i
          → IsDeployed req i
      of_object (err e) a k = cc k
      of_object (ok new) a k = of_version new _ a refl k
