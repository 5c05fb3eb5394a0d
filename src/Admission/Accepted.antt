-- ===== src/Admission/Accepted.antt =====
-- What holds of an update that `admitUpdate` accepts.
use kudo.Prelude.{
  ◌≡◌, ◌≢◌, refl, sym, ap, ◌∙◌, ◌⊎◌, inl, inr, String, true, false, not, ◌&&◌, List, [], ◌∷◌, ◌++◌,
  Option, Result, ok, >>=-eq-ok, ◌==◌, eq_iff, Bool-cases,
}
use kudo.Libraries.{Packages}
use kudo.Api.Operator.{Parameter, OperatorVersion, reference_eq}
use kudo.Api.Instance.{Instance, is_deleting, select_plan}
use kudo.Api.Parameters.{Parsers}
use kudo.Admission.Parameters.{
  Denial, triggered_by_parameter_update, changed_parameters, check_immutable_parameters,
  validate_all, validate_parameters,
}
use kudo.Admission.Rules.{Locked, decide-Locked, Uninstalls, decide-Uninstalls}
use kudo.Admission.Decision.{is_unknown_plan, decide, update_of, with_parameters, admit_update}

-- The steps of an update that is accepted, with what each of them answered.
pub record Steps (packages : Packages) (parsers : Parsers) (old new : Instance)
    (ov old_ov : OperatorVersion) (p : Option String) (new' : Instance) : Type 0 where
  pub defs : List Parameter × List Parameter
  pub values : List (String × String)
  pub triggered : Option String
  pub known :
      (new.spec.plan_execution.plan_name ≡ "")
      ⊎ (is_unknown_plan (select_plan (new.spec.plan_execution.plan_name ∷ []) ov) ≡ false)
  pub changed :
      changed_parameters packages old.spec.parameters new.spec.parameters old_ov ov ≡ ok defs
  pub checked :
      check_immutable_parameters new.spec.parameters ov old_ov defs.0
        (not (reference_eq new.spec.operator_version old.spec.operator_version))
      ≡ ok values
  pub valid : validate_all parsers ov.parameters values ≡ ok tt
  pub trigger : triggered_by_parameter_update packages (defs.0 ++ defs.1) ov ≡ ok triggered
  pub decided : decide (update_of old new triggered) ov ≡ ok p
  pub result : new' ≡ with_parameters values new

unit_eq : (u : Unit {0}) → u ≡ tt
unit_eq u = refl

pub admit_update-Steps :
    (packages : Packages) (parsers : Parsers) (old new : Instance) (ov old_ov : OperatorVersion)
    (p : Option String) (new' : Instance)
    → admit_update packages parsers old new ov old_ov ≡ ok (p, new')
    → Steps packages parsers old new ov old_ov p new'
unfolding admit_update
admit_update-Steps packages parsers old new ov old_ov p new' h =
    elim (Bool-cases (not (name == "") && is_unknown_plan (select_plan (name ∷ []) ov))) [
      | inl e ↦ cc (rw e at h)
      | inr e ↦
          let (defs, changed, h1) = >>=-eq-ok _ _ (rw e at h) in
          let (values, checked, h2) = >>=-eq-ok _ _ h1 in
          let (u, valid, h3) = >>=-eq-ok _ _ h2 in
          let (triggered, trigger, h4) = >>=-eq-ok _ _ h3 in
          let (plan, decided, h5) = >>=-eq-ok _ _ h4 in
          record {
            defs = defs;
            values = values;
            triggered = triggered;
            known = named e;
            changed = changed;
            checked = checked;
            valid = valid;
            trigger = trigger;
            decided = decided ∙ ap ok (ap (λ (r : Option String × Instance). r.0) (same h5));
            result = sym (ap (λ (r : Option String × Instance). r.1) (same h5));
          }
    ]
  where
    name : String
    name = new.spec.plan_execution.plan_name

    same :
        {a b : Option String × Instance}
        → ◌≡◌ {A = Result Denial (Option String × Instance)} (ok a) (ok b)
        → a ≡ b
    same e = cc

    named :
        (not (name == "") && is_unknown_plan (select_plan (name ∷ []) ov)) ≡ false
        → (name ≡ "") ⊎ (is_unknown_plan (select_plan (name ∷ []) ov) ≡ false)
    named e = elim (Bool-cases (name == "")) [
      | inl f ↦ inl ((eq_iff name "").0 f)
      | inr f ↦ inr (rw f at e)
    ]

-- The parameter change from `old` to `new` triggers `t`.
abbrev pub Triggers :
    Packages → Instance → Instance → OperatorVersion → OperatorVersion → Option String → Type 0
Triggers packages old new ov old_ov t =
    (defs : List Parameter × List Parameter) × (changed_parameters packages old.spec.parameters
        new.spec.parameters old_ov ov
      ≡ ok defs)
    × (triggered_by_parameter_update packages (defs.0 ++ defs.1) ov ≡ ok t)

module _ (packages : Packages) (parsers : Parsers) (old new : Instance)
    (ov old_ov : OperatorVersion) (p : Option String) (new' : Instance)
    (accepted : admit_update packages parsers old new ov old_ov ≡ ok (p, new')) where
  -- If an update is accepted while the instance is not being deleted and a plan is scheduled, then
  -- the plan's name stays the same, the operator version stays the same, a parameter change
  -- triggers no other plan, and the answer is no plan, the same plan, or a reset to no plan, the
  -- last only when the plan is terminal.
  pub admit_update-Locked :
      is_deleting new ≡ false
      → old.spec.plan_execution.plan_name ≢ ""
      → (t : Option String) × Triggers packages old new ov old_ov t × Locked (update_of old new t) p
  admit_update-Locked live had =
      let steps = admit_update-Steps packages parsers old new ov old_ov p new' accepted in
      (
        steps.triggered,
        (steps.defs, steps.changed, steps.trigger),
        decide-Locked (update_of old new steps.triggered) ov p live had steps.decided,
      )

  -- If an update is accepted while the instance is being deleted, then no plan is triggered, neither
  -- by a parameter change nor directly, nothing is upgraded, the scheduled plan is none or
  -- 'cleanup', and it stays 'cleanup' if it was.
  pub admit_update-Uninstalls :
      is_deleting new ≡ true
      → (t : Option String) × Triggers packages old new ov old_ov t
        × Uninstalls (update_of old new t) p
  admit_update-Uninstalls gone =
      let steps = admit_update-Steps packages parsers old new ov old_ov p new' accepted in
      (
        steps.triggered,
        (steps.defs, steps.changed, steps.trigger),
        decide-Uninstalls (update_of old new steps.triggered) ov p gone steps.decided,
      )

  -- If an update is accepted, then the parameters of the instance that it leaves pass the checks of
  -- all definitions of the new operator version.
  pub admit_update-valid : validate_parameters parsers ov new' ≡ ok tt
  admit_update-valid =
      let steps = admit_update-Steps packages parsers old new ov old_ov p new' accepted in
      rw steps.result steps.valid
