-- ===== src/Kudoctl/Package.antt =====
-- pkg/kudoctl/packages/install: `Package`, with the waits and the checks of pkg/kudoctl/util/kudo/kudo.go that it
-- calls. The overrides write through the pointers of the resources.
use kudo.Prelude.{
  String, Bool, true, false, not, ◌&&◌, List, [], ◌∷◌, Option, none, some, Result, ok, err, ◌==◌,
  if◌then◌else◌, concat,
}
use kudo.Prelude.Maps.{has_key, insert, lookup}
use kudo.Kube.Act.{Act, pure, lift, failing, map_error, ◌>>=◌, ◌>>◌}
use kudo.Libraries.{Packages}
use kudo.Api.ExecutionStatus.{is_finished}
use kudo.Api.PlanStatus.{PlanStatus}
use kudo.Api.Operator.{Parameter}
use kudo.Api.Parameters.{is_required, has_default}
use kudo.Api.Instance.{Instance, get_last_executed_plan_status}
use kudo.Renderer.Variables.{
  VariableMap, Render, new_variable_map, with_instance, with_parameter_strings, word,
}
use kudo.Kudoctl.Convert.{Operator, NewInstance, PackageResources}
use kudo.Kudoctl.Client.{Clientset, get_instance}
use kudo.Kudoctl.Install.{Dependency, operator_and_operator_version, install_instance}

-- `Options`; a wait is a number of nanoseconds, whose type is `D`.
pub record Options (D : Type 0) : Type 0 where
  pub skip_instance : Bool
  pub wait : Option D
  pub create_namespace : Bool

unfoldable pub apply_overrides :
    PackageResources → String → String → Option (List (String × String)) → PackageResources
apply_overrides r instance_name namespace parameters =
    let i = r.instance.instance in
    let name = if instance_name == "" then i.metadata.name else instance_name in
    let values : List (String × String) = elim parameters [
      | some ps ↦ ps
      | none ↦ i.spec.parameters
    ] in
    record {
      operator = record r.operator { namespace = namespace };
      operator_version = record r.operator_version { namespace = namespace };
      instance = record r.instance {
        instance = record i {
          metadata = record i.metadata { namespace = namespace; name = name };
          spec = record i.spec { parameters = values };
        };
      };
    }

unfoldable pub missing_parameters : List (String × String) → List Parameter → List String
missing_parameters given [] = []
missing_parameters given (p ∷ rest) =
    if is_required p && not (has_default p) && not (has_key p.name given)
    then p.name ∷ missing_parameters given rest
    else missing_parameters given rest

abbrev comma_separated : List String → String
comma_separated [] = ""
comma_separated (s ∷ []) = s
comma_separated (s ∷ rest) = concat (s ∷ "," ∷ comma_separated rest ∷ [])

abbrev pub missing_error : List String → Result String (Unit {0})
missing_error [] = ok tt
missing_error (m ∷ ms) =
    err
      (concat ("missing required parameters during installation: " ∷ comma_separated (m ∷ ms) ∷ []))

unfoldable pub validate_install_parameters : Instance → List Parameter → Result String (Unit {0})
unfolding missing_parameters
validate_install_parameters i parameters =
    missing_error (missing_parameters i.spec.parameters parameters)

-- The versions of Kubernetes, the creation of a namespace from a manifest, text/template, and
-- `wait.PollImmediate`, which calls a function until it is done, fails or the time is over.
pub record Environment (W N D Y : Type 0) : Type 0 where
  pub new_version : String → Result String N
  pub from_github_version : String → Result String N
  pub server_version : W → Result String String
  pub is_newer_major_minor : N → N → Bool
  pub create_namespace : String → String → Act String W (Unit {0})
  pub render : Render Y
  pub poll_immediate : D → (W → Result String Bool) → Act String W (Unit {0})

-- The loop over the old plan statuses; the UID of a plan that is not there is empty.
abbrev pub uid_of : Option PlanStatus → String
uid_of none = ""
uid_of (some p) = p.uid

unfoldable pub same_uids : List (String × PlanStatus) → List (String × PlanStatus) → Bool
unfolding lookup
same_uids [] now = true
same_uids ((name, p) ∷ rest) now = p.uid == uid_of (lookup name now) && same_uids rest now

abbrev pub last_finished : Option PlanStatus → Bool
last_finished none = false
last_finished (some p) = is_finished p.status

abbrev unchanged : Option Instance → Instance → Bool
unchanged none i = false
unchanged (some old) i = same_uids old.status.plan_status i.status.plan_status

unfoldable pub is_instance_done : Instance → Option Instance → Bool
unfolding same_uids get_last_executed_plan_status
is_instance_done i old =
    if unchanged old i then false else last_finished (get_last_executed_plan_status i)

module _ {W N D Y : Type 0} (funk : Packages) (c : Clientset W) (e : Environment W N D Y) where
  -- A nil pointer is followed, if the instance is not found.
  abbrev done_or_panic : Option Instance → Option Instance → Result String Bool
  done_or_panic old none = err "panic: invalid memory address or nil pointer dereference"
  done_or_panic old (some i) = ok (is_instance_done i old)

  abbrev polled : Option Instance → Result String (Option Instance) → Result String Bool
  polled old (err x) = err x
  polled old (ok found) = done_or_panic old found

  unfoldable pub wait_for_instance : String → String → Option Instance → D → Act String W (Unit {0})
  unfolding get_instance is_instance_done
  wait_for_instance name namespace old timeout =
      e.poll_immediate timeout (λ w. polled old (get_instance c name namespace w))

  abbrev supported : N → N → Result String (Unit {0})
  supported expected actual =
      if e.is_newer_major_minor expected actual
      then err "expected kubernetes version is not supported"
      else ok tt

  unfoldable pub validate_server_for_operator : Operator → Act String W (Unit {0})
  validate_server_for_operator o w =
      (do
        expected ← lift (
            map_error (λ x. concat ("unable to parse operators kubernetes version: " ∷ x ∷ []))
              (e.new_version o.kubernetes_version))
        text ← lift (e.server_version w)
        actual ← lift (e.from_github_version text)
        lift (supported expected actual))
        w

  -- `WithResource`
  abbrev with_resource : PackageResources → VariableMap Y → VariableMap Y
  with_resource r m =
      let m = insert "OperatorName" (word r.operator.name) m in
      let m = insert "AppVersion" (word r.operator_version.app_version) m in
      insert "OperatorVersion" (word r.operator_version.version) m

  abbrev or_no_values : Option (List (String × String)) → List (String × String)
  or_no_values none = []
  or_no_values (some ps) = ps

  unfoldable pub render_namespace_manifest :
      String → PackageResources → Option (List (String × String)) → Result String String
  unfolding insert with_instance
  render_namespace_manifest manifest r parameters =
      let i = r.instance.instance.metadata in
      e.render "namespace" manifest (
        with_parameter_strings (or_no_values parameters)
          (with_resource r (with_instance "" i.name i.namespace "" "" new_variable_map)))

  abbrev manifest_of :
      PackageResources → Option (List (String × String)) → Option String → Result String String
  manifest_of r parameters none = err (
      concat
        ("failed to find template for namespace manifest " ∷ r.operator.namespace_manifest ∷ []))
  manifest_of r parameters (some template) =
      map_error
        (λ x.
          concat (
            "failed to render namespace manifest " ∷ r.operator.namespace_manifest ∷ ": " ∷ x ∷ []))
        (render_namespace_manifest template r parameters)

  unfoldable pub install_namespace :
      PackageResources → Option (List (String × String)) → Act String W (Unit {0})
  unfolding render_namespace_manifest lookup
  install_namespace r parameters =
      let namespace = r.instance.instance.metadata.namespace in
      if r.operator.namespace_manifest == "" then e.create_namespace namespace "" else (do
        manifest ← lift (
            manifest_of r parameters
              (lookup r.operator.namespace_manifest r.operator_version.templates))
        e.create_namespace namespace manifest)

  abbrev wait_error : String → String → String → String
  wait_error namespace name x =
      concat ("failed to wait on instance " ∷ namespace ∷ "/" ∷ name ∷ ": " ∷ x ∷ [])

  abbrev waited : Option D → Instance → Act String W (Unit {0})
  waited none i = pure tt
  waited (some timeout) i =
      failing (wait_error i.metadata.namespace i.metadata.name)
        (wait_for_instance i.metadata.name i.metadata.namespace none timeout)

  abbrev pub parameters_given : Bool → Instance → List Parameter → Result String (Unit {0})
  parameters_given true i parameters = ok tt
  parameters_given false i parameters = validate_install_parameters i parameters

  abbrev namespace_made :
      Bool → PackageResources → Option (List (String × String)) → Act String W (Unit {0})
  namespace_made true r parameters = install_namespace r parameters
  namespace_made false r parameters = pure tt

  abbrev instance_made : Options D → NewInstance → Act String W (Unit {0})
  instance_made options i =
      if options.skip_instance
      then pure tt
      else (install_instance funk c i >> waited options.wait i.instance)

  -- The steps of `Package` after the overrides.
  unfoldable pub install_resources :
      PackageResources
      → Option (List (String × String))
      → List Dependency
      → Options D
      → Act String W (Unit {0})
  unfolding validate_install_parameters validate_server_for_operator install_namespace
      operator_and_operator_version install_instance wait_for_instance
  install_resources r parameters dependencies options = do
    given ←
        lift
          (parameters_given options.skip_instance r.instance.instance r.operator_version.parameters)
    valid ← validate_server_for_operator r.operator
    made ← namespace_made options.create_namespace r parameters
    installed ← operator_and_operator_version funk c r.operator r.operator_version dependencies
    instance_made options r.instance

  unfoldable pub install_package :
      String
      → String
      → PackageResources
      → Option (List (String × String))
      → List Dependency
      → Options D
      → Act String W (Unit {0})
  unfolding apply_overrides install_resources
  install_package instance_name namespace resources parameters dependencies options =
      install_resources (apply_overrides resources instance_name namespace parameters) parameters
        dependencies options
