-- ===== src/Verifier/Required.antt =====
-- What the verifiers of templates find in a package.
use kudo.Prelude.{
  ◌≡◌, ◌↔◌, ◌⊎◌, eq_iff, refl, sym, ap, ◌∙◌, subst, inl, inr, String, Bool, true, false, not, ◌&&◌,
  List, [], ◌∷◌, Result, ◌==◌, if◌then◌else◌, Bool-cases, All, is_empty, arith,
}
use kudo.Prelude.Maps.{has_key, has_key-insert}
use kudo.Api.Operator.{Task}
use kudo.Kudoctl.Convert.{task_needs}
use kudo.Verifier.Files.{
  PackageParameter, Files, VerifierResult, Message, new_result, add_error, is_valid,
  undefined_template, undefined_parameter, undefined_toggle_parameter,
}
use kudo.Verifier.References.{range}
use kudo.Verifier.Defined.{Checks, Checks-range, is_empty-add_error}
use kudo.Verifier.Nodes.{Node, TemplateNodes, get_node_map}
use kudo.Verifier.Templates.{
  require, required_by, check_template, check_required, required_templates, check_referenced,
  verify_template_references, set_of, check_parameter, check_nodes, check_toggle,
  params_not_defined,
}

Checks-if : (b : Bool) (e : Message) → Checks (λ r. if b then r else add_error e r) (b ≡ true)
Checks-if true e r = (λ h. (h, refl), λ h. h.0)
Checks-if false e r =
    (λ h. absurd (ground (arith, h, is_empty-add_error e r.errors)), λ h. absurd (cc h.1))

-- The conversion of a package asks for the same templates.
required_by-needs : (t : Task) → required_by t ≡ (task_needs t).0
unfolding required_by task_needs
required_by-needs t = ground arith

errors-referenced :
    (manifest : String) (required : List (String × Bool)) (ts : List (String × String))
    (r : VerifierResult)
    → (range (check_referenced manifest required) ts r).errors ≡ r.errors
unfolding check_referenced
errors-referenced manifest required [] r = refl
errors-referenced manifest required ((t, f) ∷ ts) r =
    errors-referenced manifest required ts (check_referenced manifest required (t, f) r)
    ∙ ground arith

module _ {J : Type 0} (pf : Files J) where
  abbrev pub HasTemplates : Task → Type 0
  HasTemplates t = All (λ r. has_key r pf.templates ≡ true) (task_needs t).0

  -- The verifier of references to templates returns no error exactly when each template that the conversion
  -- of the package looks for is there.
  pub verify_template_references-valid_iff :
      (is_valid (verify_template_references pf) ≡ true) ↔ All HasTemplates pf.operator.tasks
  unfolding verify_template_references check_required check_template
  verify_template_references-valid_iff =
      let all =
        Checks-range (check_required pf.templates) HasTemplates
          (λ t.
            subst
              (λ rs.
                Checks (range (check_template pf.templates t.name) (required_by t))
                  (All (λ r. has_key r pf.templates ≡ true) rs))
              (required_by-needs t)
              (Checks-range (check_template pf.templates t.name)
                (λ r. has_key r pf.templates ≡ true)
                (λ r. Checks-if (has_key r pf.templates) (undefined_template r t.name))
                (required_by t)))
          pf.operator.tasks new_result in
      let same = ap is_empty (
        errors-referenced pf.operator.namespace_manifest (required_templates pf.operator.tasks)
          pf.templates (range (check_required pf.templates) pf.operator.tasks new_result)) in
      (λ h. (all.0 (sym same ∙ h)).1, λ k. same ∙ all.1 (refl, k))

  -- One of the parameters has the name.
  abbrev Named : String → List (PackageParameter J) → Type 0
  Named p [] = ⊥
  Named p (x ∷ rest) = (x.name ≡ p) ⊎ Named p rest

  abbrev pub IsParameter : String → Type 0
  IsParameter p = Named p pf.params.parameters

  -- The loop that makes the set of names adds those of the parameters to the ones that are there.
  require-range :
      (p : String) (ps : List (PackageParameter J)) (set : List (String × Bool))
      → (has_key p (range (λ (x : PackageParameter J). require x.name) ps set) ≡ true)
        ↔ ((has_key p set ≡ true) ⊎ Named p ps)
  require-range p [] set = (λ h. inl h, λ h. elim h [ inl k ↦ k | inr k ↦ absurd k ])
  require-range p (x ∷ rest) set =
      let (f, g) = require-range p rest (require x.name set) in
      (
        λ h. elim (f h) [
          | inl k ↦ elim (Bool-cases (x.name == p)) [
            | inl e ↦ inr (inl ((eq_iff x.name p).0 e))
            | inr e ↦ inl (rw (has_key-insert x.name p true set, e) at k)
          ]
          | inr k ↦ inr (inr k)
        ],
        λ h. elim h [
          | inl k ↦ g (inl (kept k))
          | inr k ↦ elim k [ inl e ↦ g (inl (added e)) | inr n ↦ g (inr n) ]
        ],
      )
    where
      kept : has_key p set ≡ true → has_key p (require x.name set) ≡ true
      kept k = has_key-insert x.name p true set ∙ ground (arith, k)

      added : x.name ≡ p → has_key p (require x.name set) ≡ true
      added e = has_key-insert x.name p true set ∙ ground (arith, (eq_iff x.name p).1 e)

  set_of-IsParameter :
      (p : String) → (has_key p (set_of pf pf.params.parameters) ≡ true) ↔ IsParameter p
  unfolding has_key
  set_of-IsParameter p =
      let (f, g) = require-range p pf.params.parameters [] in
      (λ h. elim (f h) [ inl k ↦ absurd (cc k) | inr k ↦ k ], λ k. g (inr k))

  -- The parameters that were found in a template.
  abbrev pub AllDefined : String × TemplateNodes → Type 0
  AllDefined n = All IsParameter (n.1).parameters

  -- A toggle task names a parameter, if it names one.
  abbrev pub ToggleDefined : Task → Type 0
  ToggleDefined t =
      ((t.kind == "Toggle") && not (t.spec.parameter == "")) ≡ true → IsParameter t.spec.parameter

  check_name-Checks :
      (p : String) (e : Message)
      → Checks
          (λ r. if has_key p (set_of pf pf.params.parameters) then r else add_error e r)
          (IsParameter p)
  check_name-Checks p e r =
      let (f, g) = set_of-IsParameter p in
      let (a, b) = Checks-if (has_key p (set_of pf pf.params.parameters)) e r in
      (λ h. ((a h).0, f (a h).1), λ h. b (h.0, g h.1))

  check_toggle-Checks :
      (t : Task) → Checks (check_toggle pf (set_of pf pf.params.parameters) t) (ToggleDefined t)
  unfolding check_toggle
  check_toggle-Checks t r =
      elim (Bool-cases ((t.kind == "Toggle") && not (t.spec.parameter == ""))) [
        | inl e ↦
            let test =
              check_name-Checks t.spec.parameter
                (undefined_toggle_parameter t.spec.parameter t.name) r in
            rw e (λ h. ((test.0 h).0, λ _. (test.0 h).1), λ h. test.1 (h.0, h.1 refl))
        | inr e ↦ rw e (λ h. (h, λ k. absurd (cc k)), λ h. h.0)
      ]

  -- `paramsNotDefined` returns no error exactly when each parameter found in a template and each parameter that
  -- a toggle task names is one of the package.
  pub params_not_defined-valid_iff :
      (parse : String → String → Result String Node)
      → (is_valid (params_not_defined pf parse) ≡ true)
        ↔ (All AllDefined (get_node_map parse pf.templates) × All ToggleDefined pf.operator.tasks)
  unfolding params_not_defined check_nodes check_parameter
  params_not_defined-valid_iff parse =
      let params = set_of pf pf.params.parameters in
      let nodes =
        Checks-range (check_nodes pf params) AllDefined
          (λ n.
            Checks-range (check_parameter pf params n.0) IsParameter
              (λ p. check_name-Checks p (undefined_parameter p n.0)) (n.1).parameters)
          (get_node_map parse pf.templates) new_result in
      let toggles =
        Checks-range (check_toggle pf params) ToggleDefined check_toggle-Checks pf.operator.tasks
          (range (check_nodes pf params) (get_node_map parse pf.templates) new_result) in
      (
        λ h. ((nodes.0 (toggles.0 h).0).1, (toggles.0 h).1),
        λ h. toggles.1 (nodes.1 (refl, h.0), h.1),
      )
