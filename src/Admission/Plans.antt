-- ===== src/Admission/Plans.antt =====
-- A plan that the webhook triggers is a plan of the operator version.
use kudo.Prelude.{
  ◌≡◌, ◌≢◌, refl, sym, ap, subst, ◌∙◌, ◌⊎◌, inl, inr, String, true, false, List, [], ◌∷◌, ◌++◌,
  Option, none, some, ok, >>=-eq-ok, ◌==◌, arith, eq_iff, Bool-cases, Option-cases, ==_self,
  contains,
}
use kudo.Prelude.Maps.{has_key}
use kudo.Libraries.{Packages, Laws}
use kudo.Api.Operator.{Parameter, OperatorVersion}
use kudo.Api.Instance.{
  Instance, is_deleting, select_plan, plan_exists, deploy_plan_name, update_plan_name,
  upgrade_plan_name,
}
use kudo.Api.Parameters.{Parsers}
use kudo.Admission.Parameters.{triggers, one_plan, fallback, triggered_by_parameter_update}
use kudo.Admission.Decision.{
  Update, upgrade_plan, is_unknown_plan, choose, decide, update_of, admit_update,
}
use kudo.Admission.Rules.{decide-choose, decide-Uninstalls}
use kudo.Admission.Accepted.{Steps, admit_update-Steps}

pub select_plan-exists :
    (plans : List String) (ov : OperatorVersion) (p : String)
    → select_plan plans ov ≡ some p
    → plan_exists p ov ≡ true
unfolding select_plan
select_plan-exists [] ov p h = cc
select_plan-exists (q ∷ plans) ov p h = elim (Bool-cases (has_key q ov.plans)) [
  | inl e ↦ let same : some q ≡ some p = (rw e at h) in ground (arith, e, same)
  | inr e ↦ select_plan-exists plans ov p (rw e at h)
]

select_plan_one :
    (n q : String) (ov : OperatorVersion)
    → select_plan (n ∷ []) ov ≡ some q
    → plan_exists n ov ≡ true
unfolding select_plan
select_plan_one n q ov h = elim (Bool-cases (has_key n ov.plans)) [
  | inl e ↦ e
  | inr e ↦ cc (rw e at h)
]

abbrev AllExist : List String → OperatorVersion → Type 0
AllExist ts ov = (t : String) → contains t ts ≡ true → plan_exists t ov ≡ true

triggers-AllExist :
    (ps : List Parameter) (ov : OperatorVersion) (ts : List String)
    → triggers ps ov ≡ ok ts
    → AllExist ts ov
unfolding triggers contains
triggers-AllExist [] ov ts h t m = ground arith
triggers-AllExist (p ∷ ps) ov ts h t m = elim (Bool-cases (p.trigger == "")) [
  | inl e ↦ triggers-AllExist ps ov ts (rw e at h) t m
  | inr e ↦ elim (Bool-cases (plan_exists p.trigger ov)) [
    | inr f ↦ cc (rw (e, f) at h)
    | inl f ↦
        let (rest, g, k) = >>=-eq-ok (triggers ps ov) _ (rw (e, f) at h) in
        let ih = triggers-AllExist ps ov rest g t in ground (arith, k, f, m, ih, eq_iff p.trigger t)
  ]
]

one_plan-exists :
    (plans : List String) (ov : OperatorVersion) (p : String)
    → AllExist plans ov
    → one_plan plans ov ≡ ok (some p)
    → plan_exists p ov ≡ true
unfolding one_plan contains
one_plan-exists [] ov p all h =
    chosen (select_plan (update_plan_name ∷ deploy_plan_name ∷ []) ov) refl h
  where
    chosen :
        (s : Option String)
        → select_plan (update_plan_name ∷ deploy_plan_name ∷ []) ov ≡ s
        → fallback s ≡ ok (some p)
        → plan_exists p ov ≡ true
    chosen none e h = cc
    chosen (some q) e h =
        select_plan-exists (update_plan_name ∷ deploy_plan_name ∷ []) ov p (e ∙ ground arith)
one_plan-exists (q ∷ []) ov p all h = all p (ground (arith, h, ==_self q))
one_plan-exists (q ∷ r ∷ plans) ov p all h = cc

module _ (packages : Packages) (laws : Laws packages) where
  triggered-exists :
      (ps : List Parameter) (ov : OperatorVersion) (p : String)
      → triggered_by_parameter_update packages ps ov ≡ ok (some p)
      → plan_exists p ov ≡ true
  unfolding triggered_by_parameter_update
  triggered-exists [] ov p h = cc
  triggered-exists (q ∷ ps) ov p h =
      let (ts, e, f) = >>=-eq-ok (triggers (q ∷ ps) ov) _ h in
      one_plan-exists (packages.uniq_string ts) ov p
        (λ t m. triggers-AllExist (q ∷ ps) ov ts e t (sym (laws.uniq_string_same ts t) ∙ m)) f

  choose-exists :
      (u : Update) (ov : OperatorVersion) (p : String)
      → p ≢ ""
      → ((t : String) → u.triggered ≡ some t → plan_exists t ov ≡ true)
      → (u.new_plan ≡ "") ⊎ (plan_exists u.new_plan ov ≡ true)
      → choose u ov ≡ ok (some p)
      → plan_exists p ov ≡ true
  unfolding choose
  choose-exists u ov p real triggered named h = elim (Bool-cases u.is_upgrade) [
    | inl up ↦ upgraded _ refl (rw up at h)
    | inr up ↦ elim (Option-cases u.triggered) [
      | inr (t, e) ↦
          let same : some t ≡ some p = ground (arith, h, up, e) in
          subst (λ q. plan_exists q ov ≡ true) (ground (arith, same)) (triggered t e)
      | inl e ↦ elim (new_plan_or_empty up e) [
        | inl f ↦ absurd (real f)
        | inr f ↦ elim named [ inl g ↦ absurd (real (f ∙ g)) | inr g ↦ rw f g ]
      ]
    ]
  ]
    where
      plans : List String
      plans = upgrade_plan_name ∷ update_plan_name ∷ deploy_plan_name ∷ []

      upgraded :
          (s : Option String)
          → select_plan plans ov ≡ s
          → upgrade_plan s ≡ ok (some p)
          → plan_exists p ov ≡ true
      upgraded none e k = cc
      upgraded (some q) e k = select_plan-exists plans ov p (e ∙ ground (arith, k))

      new_plan_or_empty : u.is_upgrade ≡ false → u.triggered ≡ none → (p ≡ "") ⊎ (p ≡ u.new_plan)
      new_plan_or_empty up e = grind (arith, h, up, e)

  -- If an update is accepted and triggers a plan whose name is not empty, then the new operator
  -- version has a plan of that name. (go-funk's `UniqString` keeps the elements of a list.)
  pub admit_update-exists :
      (parsers : Parsers) (old new : Instance) (ov old_ov : OperatorVersion) (p : String)
      (new' : Instance)
      → admit_update packages parsers old new ov old_ov ≡ ok (some p, new')
      → p ≢ ""
      → plan_exists p ov ≡ true
  unfolding decide
  admit_update-exists parsers old new ov old_ov p new' accepted real =
      go (admit_update-Steps packages parsers old new ov old_ov (some p) new' accepted)
    where
      go : Steps packages parsers old new ov old_ov (some p) new' → plan_exists p ov ≡ true
      go steps = elim (Bool-cases (is_deleting new)) [
        | inl e ↦
            cc
              (decide-Uninstalls (update_of old new steps.triggered) ov (some p) e
                steps.decided).nothing
        | inr e ↦
            choose-exists (update_of old new steps.triggered) ov p real
              (λ t f.
                triggered-exists (steps.defs.0 ++ steps.defs.1) ov t (steps.trigger ∙ ap ok f))
              (named steps.known)
              (decide-choose (update_of old new steps.triggered) ov (some p) e steps.decided).1
      ]
        where
          named :
              (new.spec.plan_execution.plan_name ≡ "")
                ⊎ (is_unknown_plan (select_plan (new.spec.plan_execution.plan_name ∷ []) ov)
                    ≡ false)
              → (new.spec.plan_execution.plan_name ≡ "")
                ⊎ (plan_exists new.spec.plan_execution.plan_name ov ≡ true)
          named (inl e) = inl e
          named (inr e) =
              elim (Option-cases (select_plan (new.spec.plan_execution.plan_name ∷ []) ov)) [
                | inl f ↦ cc (rw f at e)
                | inr (q, f) ↦ inr (select_plan_one _ q ov f)
              ]
