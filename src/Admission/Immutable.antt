-- ===== src/Admission/Immutable.antt =====
-- Immutable parameters: an update that is no upgrade changes none of them, but may remove them.
use kudo.Prelude.{
  ◌≡◌, ◌≢◌, refl, sym, ap, subst, ◌∙◌, ◌⊎◌, inl, inr, String, true, false, List, [], ◌∷◌, Option,
  none, some, Result, ok, err, >>=-eq-ok, ◌==◌, arith, eq_iff, Bool-cases, Option-cases, All,
}
use kudo.Prelude.Maps.{lookup, has_key}
use kudo.Libraries.{Packages, Laws, first}
use kudo.Api.Operator.{Parameter, OperatorVersion, reference_eq}
use kudo.Api.Instance.{Instance}
use kudo.Api.Parameters.{
  Parsers, is_immutable, differs, changed_values, removed_values, rich_parameter_diff,
  get_param_definitions,
}
use kudo.Admission.Parameters.{
  is_found, or_nil, known_before, or_unknown, changed_parameters, check_no_immutable,
  check_immutable_parameters,
}
use kudo.Admission.Decision.{admit_update}
use kudo.Admission.Accepted.{Steps, admit_update-Steps}

known_definitions :
    (r : Result String (List Parameter)) (ds : List Parameter) → or_unknown r ≡ ok ds → r ≡ ok ds
known_definitions (ok xs) ds h = ground (arith, h)
known_definitions (err e) ds h = cc

module _ (packages : Packages) (laws : Laws packages) (ov old_ov : OperatorVersion) where
  -- The first of the definitions is that of the first key.
  get_cons :
      (j w : String) (rest : List (String × String)) (defs : List Parameter)
      → get_param_definitions packages ((j, w) ∷ rest) ov ≡ ok defs
      → (p : Parameter) × (ps : List Parameter) × (first (λ e. e.name == j) ov.parameters ≡ some p)
        × (get_param_definitions packages rest ov ≡ ok ps)
        × (defs ≡ p ∷ ps)
  unfolding get_param_definitions
  get_cons j w rest defs h = elim (Option-cases (packages.find ov.parameters (λ e. e.name == j))) [
    | inl e ↦ cc (rw (e, get_param_definitions) at h)
    | inr (p, e) ↦
        let (ps, f, g) =
          >>=-eq-ok (get_param_definitions packages rest ov) _
            (rw (e, get_param_definitions) at h) in
        (p, ps, sym (laws.find_lem Parameter ov.parameters _) ∙ e, f, ground (arith, g))
  ]

  -- A definition that the old operator version knew is not immutable, if the check passes.
  check_cons :
      (p : Parameter) (ps : List Parameter)
      → check_no_immutable (known_before packages (p ∷ ps) old_ov) ≡ ok tt
      → (check_no_immutable (known_before packages ps old_ov) ≡ ok tt)
        × (is_found (first (λ q. p.name == q.name) old_ov.parameters) ≡ true
            → is_immutable p ≡ false)
  unfolding known_before check_no_immutable
  check_cons p ps h =
      let same = laws.find_lem Parameter old_ov.parameters (λ q. p.name == q.name) in
      ground (arith, same)

  module _ (old : List (String × String)) (key val : String) (d : Parameter)
      (defined : first (λ e. e.name == key) ov.parameters ≡ some d)
      (before : is_found (first (λ q. d.name == q.name) old_ov.parameters) ≡ true)
      (immutable : is_immutable d ≡ true) where
    -- A changed value of the parameter is found, with its definition, and refused.
    refused :
        (new : List (String × String)) (defs : List Parameter)
        → lookup key new ≡ some val
        → differs (lookup key old) val ≡ true
        → get_param_definitions packages (changed_values old new) ov ≡ ok defs
        → check_no_immutable (known_before packages defs old_ov) ≢ ok tt
    unfolding lookup changed_values
    refused [] defs found differ got passed = cc
    refused ((j, w) ∷ rest) defs found differ got passed = elim (Bool-cases (j == key)) [
      | inl e ↦ hit ((eq_iff j key).0 e) (ground (arith, found, e))
      | inr e ↦ elim (Bool-cases (differs (lookup j old) w)) [
        | inl f ↦
            let (p, ps, a, b, c) = get_cons j w _ defs (rw f at got) in
            refused rest ps (rw e at found) differ b (check_cons p ps (rw c at passed)).0
        | inr f ↦ refused rest defs (rw e at found) differ (rw f at got) passed
      ]
    ]
      where
        hit : j ≡ key → w ≡ val → ⊥
        hit e f =
            let g = subst (λ k. differs (lookup k old) w ≡ true) (sym e) (rw f differ) in
            let (p, ps, a, b, c) = get_cons j w _ defs (rw g at got) in
            let same : some p ≡ some d =
              sym a ∙ ap (λ k. first (λ (q : Parameter). q.name == k) ov.parameters) e ∙ defined in
            let is_d : p ≡ d = cc same in
            let open_d =
              subst
                (λ r.
                  is_found (first (λ q. r.name == q.name) old_ov.parameters) ≡ true
                  → is_immutable r ≡ false)
                is_d (check_cons p ps (rw c at passed)).1 in
            cc (open_d before, immutable)

  -- If an update that is no upgrade is accepted, and the new instance has a value for a parameter
  -- that is immutable in the new operator version and known in the old one, then the old instance
  -- had that value. (go-funk's `Find` returns the first element that passes.)
  pub admit_update-immutable :
      (parsers : Parsers) (old new : Instance) (p : Option String) (new' : Instance)
      (key val : String) (d : Parameter)
      → admit_update packages parsers old new ov old_ov ≡ ok (p, new')
      → reference_eq new.spec.operator_version old.spec.operator_version ≡ true
      → lookup key new.spec.parameters ≡ some val
      → first (λ e. e.name == key) ov.parameters ≡ some d
      → is_found (first (λ q. d.name == q.name) old_ov.parameters) ≡ true
      → is_immutable d ≡ true
      → lookup key old.spec.parameters ≡ some val
  unfolding changed_parameters check_immutable_parameters rich_parameter_diff
  admit_update-immutable parsers old new p new' key val d accepted same found defined before
        immutable =
      unchanged (lookup key old.spec.parameters) refl
        (Bool-cases (differs (lookup key old.spec.parameters) val))
    where
      steps : Steps packages parsers old new ov old_ov p new'
      steps = admit_update-Steps packages parsers old new ov old_ov p new' accepted

      passes : differs (lookup key old.spec.parameters) val ≡ true → ⊥
      passes f =
          let (ds, a, b) = >>=-eq-ok _ _ steps.changed in
          let (u, c, e) =
            >>=-eq-ok (check_no_immutable steps.defs.0) _ (rw same at steps.checked) in
          let ds_found = known_definitions _ ds a in
          refused old.spec.parameters key val d defined before immutable new.spec.parameters ds
            found f ds_found
            (subst (λ xs. check_no_immutable xs ≡ ok tt) {x = steps.defs.0}
              {y = known_before packages ds old_ov} (ground (arith, b)) c)

      unchanged :
          (v : Option String)
          → lookup key old.spec.parameters ≡ v
          → (differs (lookup key old.spec.parameters) val ≡ true)
            ⊎ (differs (lookup key old.spec.parameters) val ≡ false)
          → lookup key old.spec.parameters ≡ some val
      unchanged v e (inl f) = absurd (passes f)
      unchanged none e (inr f) = cc (rw e at f)
      unchanged (some v) e (inr f) = e ∙ ap some (ground (arith, (eq_iff v val).0, (rw e at f)))

-- The new map has no value that the old one lacks.
abbrev pub OnlyRemoves : List (String × String) → List (String × String) → Type 0
OnlyRemoves old new = All (λ (kv : String × String). lookup kv.0 old ≡ some kv.1) new

changed_values-OnlyRemoves :
    (old new : List (String × String)) → OnlyRemoves old new → changed_values old new ≡ []
unfolding changed_values
changed_values-OnlyRemoves old [] h = refl
changed_values-OnlyRemoves old ((k, v) ∷ rest) (e, h) =
    rw e (ground (arith, (eq_iff v v).1 refl, changed_values-OnlyRemoves old rest h))

-- If an update that is no upgrade only removes values, then the check of the immutable parameters
-- passes, whichever values were removed.
pub removal_passes :
    (packages : Packages) (old new : List (String × String)) (ov old_ov : OperatorVersion)
    (defs : List Parameter × List Parameter)
    → OnlyRemoves old new
    → changed_parameters packages old new old_ov ov ≡ ok defs
    → check_immutable_parameters new ov old_ov defs.0 false ≡ ok new
unfolding changed_parameters check_immutable_parameters rich_parameter_diff get_param_definitions
    known_before check_no_immutable
removal_passes packages old new ov old_ov defs h changed =
    let same = changed_values-OnlyRemoves old new h in
    let first_defs : defs.0 ≡ [] = ground (arith, same, changed) in rw first_defs

abbrev Fails : Result String (List Parameter) → Type 0
Fails r = (e : String) × (r ≡ err e)

module _ (packages : Packages) (laws : Laws packages) (ov old_ov : OperatorVersion) where
  missing-Fails :
      (j w : String) (rest : List (String × String))
      → first (λ e. e.name == j) ov.parameters ≡ none
      → Fails (get_param_definitions packages ((j, w) ∷ rest) ov)
  unfolding get_param_definitions
  missing-Fails j w rest h =
      (j, rw (laws.find_lem Parameter ov.parameters (λ e. e.name == j) ∙ h, get_param_definitions))

  tail-Fails :
      (j w : String) (rest : List (String × String))
      → Fails (get_param_definitions packages rest ov)
      → Fails (get_param_definitions packages ((j, w) ∷ rest) ov)
  unfolding get_param_definitions
  tail-Fails j w rest (e, h) =
      elim (Option-cases (packages.find ov.parameters (λ q. q.name == j))) [
        | inl f ↦ (j, rw (f, get_param_definitions))
        | inr (p, f) ↦ (e, rw (f, get_param_definitions, h))
      ]

  removed-Fails :
      (key val : String) (old new : List (String × String))
      → lookup key old ≡ some val
      → has_key key new ≡ false
      → first (λ e. e.name == key) ov.parameters ≡ none
      → Fails (get_param_definitions packages (removed_values new old) ov)
  unfolding lookup removed_values
  removed-Fails key val [] new found gone missing = cc
  removed-Fails key val ((j, w) ∷ rest) new found gone missing = elim (Bool-cases (j == key)) [
    | inl e ↦
        let same : j ≡ key = (eq_iff j key).0 e in
        rw (subst (λ k. has_key k new ≡ false) (sym same) gone) (
          missing-Fails j w _ (
            subst (λ k. first (λ (q : Parameter). q.name == k) ov.parameters ≡ none) (sym same)
              missing))
    | inr e ↦ elim (Bool-cases (has_key j new)) [
      | inl f ↦ rw f (removed-Fails key val rest new (rw e at found) gone missing)
      | inr f ↦
          rw f (tail-Fails j w _ (removed-Fails key val rest new (rw e at found) gone missing))
    ]
  ]

  -- If one of the removed values has no definition in the new operator version, then no removed
  -- value at all counts as a change, and so none of them triggers its plan.
  pub removed_forgotten :
      (old new : List (String × String)) (key val : String) (defs : List Parameter × List Parameter)
      → lookup key old ≡ some val
      → has_key key new ≡ false
      → first (λ e. e.name == key) ov.parameters ≡ none
      → changed_parameters packages old new old_ov ov ≡ ok defs
      → defs.1 ≡ []
  unfolding changed_parameters rich_parameter_diff
  removed_forgotten old new key val defs found gone missing changed =
      let removed = get_param_definitions packages (removed_values new old) ov in
      let (ds, a, b) =
        >>=-eq-ok (or_unknown (get_param_definitions packages (changed_values old new) ov))
          (λ ds. ok (known_before packages ds old_ov, or_nil removed)) changed in
      let (e, f) = removed-Fails key val old new found gone missing in
      ground (arith, ap or_nil f, b)
