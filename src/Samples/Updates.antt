-- ===== src/Samples/Updates.antt =====
-- Updates of an instance: of its parameters, of its operator version, and while it is being deleted.
use kudo.Prelude.{
  ◌≡◌, refl, ◌↔◌, String, true, false, List, [], ◌∷◌, Option, none, some, ok, contains,
}
use kudo.Prelude.Maps.{lookup, has_key}
use kudo.Libraries.{sample, sample-Laws, first, keep_first}
use kudo.Api.ExecutionStatus.{in_progress}
use kudo.Api.Operator.{Parameter}
use kudo.Api.Instance.{Instance, plan_exists}
use kudo.Admission.Parameters.{changed_parameters, check_immutable_parameters, validate_all}
use kudo.Admission.Decision.{update_of, admit_update, forbidden}
use kudo.Admission.Rules.{IsAllowed, forbidden-IsAllowed_iff, Locked, Uninstalls}
use kudo.Admission.Accepted.{Triggers, admit_update-Locked, admit_update-Uninstalls}
use kudo.Admission.Plans.{admit_update-exists}
use kudo.Admission.Immutable.{admit_update-immutable, removal_passes, removed_forgotten}
use kudo.Samples.Data.{version, disk, no_plan, scheduled, instance_with, values, parsers}

-- A plan is scheduled, and the update changes the parameter that triggers the same plan.
abbrev deploying : Instance
deploying = instance_with "zookeeper-1" values (scheduled "deploy" in_progress) none

abbrev enlarged : Instance
enlarged =
    instance_with "zookeeper-1" (("memory", "2") ∷ ("disk", "8") ∷ [])
      (scheduled "deploy" in_progress) none

abbrev idle : Instance
idle = instance_with "zookeeper-1" values no_plan none

abbrev gone : Instance
gone = instance_with "zookeeper-1" values no_plan (some 4)

abbrev upgraded : Instance
upgraded = instance_with "zookeeper-2" values no_plan none

forbidden-IsAllowed_iff_example :
    (forbidden (update_of deploying enlarged (some "deploy")) ≡ none)
    ↔ IsAllowed (update_of deploying enlarged (some "deploy"))
forbidden-IsAllowed_iff_example =
    forbidden-IsAllowed_iff (update_of deploying enlarged (some "deploy"))

admit_update-Locked_example :
    (t : Option String) × Triggers sample deploying enlarged version version t
    × Locked (update_of deploying enlarged t) (some "deploy")
unfolding admit_update first validate_all keep_first contains lookup
admit_update-Locked_example =
    admit_update-Locked sample parsers deploying enlarged version version (some "deploy") enlarged
      refl refl (λ e. cc e)

admit_update-Uninstalls_example :
    (t : Option String) × Triggers sample idle gone version version t
    × Uninstalls (update_of idle gone t) none
unfolding admit_update first validate_all keep_first contains lookup
admit_update-Uninstalls_example =
    admit_update-Uninstalls sample parsers idle gone version version none gone refl refl

admit_update-exists_example : plan_exists "deploy" version ≡ true
unfolding admit_update first validate_all keep_first contains lookup
admit_update-exists_example =
    admit_update-exists sample sample-Laws parsers deploying enlarged version version "deploy"
      enlarged refl (λ e. cc e)

admit_update-immutable_example : lookup "disk" deploying.spec.parameters ≡ some "8"
unfolding admit_update first validate_all keep_first contains lookup
admit_update-immutable_example =
    admit_update-immutable sample sample-Laws version version parsers deploying enlarged
      (some "deploy") enlarged "disk" "8" disk refl refl refl refl refl refl

-- The immutable parameter loses its value.
removal_passes_example :
    check_immutable_parameters (("memory", "1") ∷ []) version version [] false
    ≡ ok (("memory", "1") ∷ [])
unfolding changed_parameters first
removal_passes_example =
    removal_passes sample values (("memory", "1") ∷ []) version version ([], disk ∷ []) (refl, tt)
      refl

-- A parameter without a definition is removed, together with one that has a trigger.
abbrev no_definitions : List Parameter × List Parameter
no_definitions = ([], [])

removed_forgotten_example : no_definitions.1 ≡ []
unfolding changed_parameters first lookup has_key
removed_forgotten_example =
    removed_forgotten sample sample-Laws version version (("unknown", "1") ∷ values)
      (("disk", "8") ∷ []) "unknown" "1" no_definitions refl refl refl refl
