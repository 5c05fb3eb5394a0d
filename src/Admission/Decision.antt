-- ===== src/Admission/Decision.antt =====
-- pkg/webhook/instance_admission.go: `admitUpdate`, the rules for updates, upgrades and plans.
use kudo.Prelude.{
  String, Bool, true, false, not, ◌&&◌, ◌||◌, List, [], ◌∷◌, ◌++◌, Option, none, some, Result, ok,
  err, ◌>>=◌, ◌==◌, if◌then◌else◌,
}
use kudo.Libraries.{Packages}
use kudo.Api.ExecutionStatus.{is_terminal}
use kudo.Api.Operator.{OperatorVersion, reference_eq}
use kudo.Api.Instance.{
  Instance, is_deleting, select_plan, cleanup_plan_name, deploy_plan_name, update_plan_name,
  upgrade_plan_name,
}
use kudo.Api.Parameters.{Parsers}
use kudo.Admission.Parameters.{
  Denial, unknown_plan, cleanup_override, change_while_deleting, only_cleanup, other_plan_scheduled,
  upgrade_while_scheduled, upgrade_with_plan, upgrade_with_update, plan_override, plan_cancellation,
  update_with_plan, update_with_override, cleanup_by_user, no_plan_for_upgrade,
  triggered_by_parameter_update, changed_parameters, check_immutable_parameters,
  validate_parameters,
}

-- What `admitUpdate` finds out about an update before it decides.
pub record Update : Type 0 where
  pub old_plan : String
  pub new_plan : String
  pub same_uid : Bool
  pub is_upgrade : Bool
  pub is_deleting : Bool
  pub is_plan_terminal : Bool
  pub triggered : Option String

abbrev pub had_plan : Update → Bool
had_plan u = not (u.old_plan == "")

abbrev pub is_novel_plan : Update → Bool
is_novel_plan u = not (had_plan u) && not (u.new_plan == "")

abbrev pub is_plan_override : Update → Bool
is_plan_override u = had_plan u && not (u.new_plan == "") && not (u.new_plan == u.old_plan)

abbrev pub is_plan_retriggered : Update → Bool
is_plan_retriggered u = had_plan u && u.new_plan == u.old_plan && not u.same_uid

abbrev pub is_plan_cancellation : Update → Bool
is_plan_cancellation u = had_plan u && u.new_plan == ""

abbrev is_some : Option String → Bool
is_some none = false
is_some (some s) = true

abbrev pub is_parameter_update : Update → Bool
is_parameter_update u = is_some u.triggered

-- `*triggeredPlan != plan`, where there is a triggered plan.
abbrev triggers_other : Option String → String → Bool
triggers_other none plan = false
triggers_other (some t) plan = not (t == plan)

abbrev pub update_incompatible_with_upgrade : Update → Bool
update_incompatible_with_upgrade u = triggers_other u.triggered deploy_plan_name

-- The rules while the instance is being deleted.
unfoldable pub uninstall : Update → Result Denial (Option String)
uninstall u =
    if u.old_plan == cleanup_plan_name && not (u.new_plan == u.old_plan)
    then err cleanup_override
    else if is_parameter_update u || u.is_upgrade
    then err change_while_deleting
    else if not (u.new_plan == "") && not (u.new_plan == cleanup_plan_name)
    then err only_cleanup
    else ok none

-- The updates that the normal life-cycle forbids, in the order of the `switch`.
unfoldable pub forbidden : Update → Option Denial
forbidden u =
    if had_plan u && is_parameter_update u && triggers_other u.triggered u.old_plan
    then some other_plan_scheduled
    else if u.is_upgrade && had_plan u
    then some upgrade_while_scheduled
    else if u.is_upgrade && is_novel_plan u
    then some upgrade_with_plan
    else if u.is_upgrade && update_incompatible_with_upgrade u
    then some upgrade_with_update
    else if is_plan_override u
    then some plan_override
    else if is_plan_cancellation u
    then some plan_cancellation
    else if is_parameter_update u && is_novel_plan u
    then some update_with_plan
    else if is_parameter_update u && is_plan_override u
    then some update_with_override
    else if u.new_plan == cleanup_plan_name
    then some cleanup_by_user
    else none

abbrev pub upgrade_plan : Option String → Result Denial (Option String)
upgrade_plan none = err no_plan_for_upgrade
upgrade_plan (some plan) = ok (some plan)

-- The plan to trigger.
unfoldable pub choose : Update → OperatorVersion → Result Denial (Option String)
unfolding select_plan
choose u ov =
    if u.is_upgrade
    then upgrade_plan
        (select_plan (upgrade_plan_name ∷ update_plan_name ∷ deploy_plan_name ∷ []) ov)
    else if is_parameter_update u
    then ok u.triggered
    else if is_novel_plan u
    then ok (some u.new_plan)
    else if u.is_plan_terminal
    then ok (some "")
    else if is_plan_retriggered u
    then ok (some u.new_plan)
    else ok none

abbrev allow : Option Denial → Result Denial (Option String) → Result Denial (Option String)
allow none chosen = chosen
allow (some d) chosen = err d

unfoldable pub decide : Update → OperatorVersion → Result Denial (Option String)
unfolding uninstall forbidden choose
decide u ov = if u.is_deleting then uninstall u else allow (forbidden u) (choose u ov)

abbrev pub update_of : Instance → Instance → Option String → Update
update_of old new triggered = record {
  old_plan = old.spec.plan_execution.plan_name;
  new_plan = new.spec.plan_execution.plan_name;
  same_uid = new.spec.plan_execution.uid == old.spec.plan_execution.uid;
  is_upgrade = not (reference_eq new.spec.operator_version old.spec.operator_version);
  is_deleting = is_deleting new;
  is_plan_terminal = is_terminal new.spec.plan_execution.status;
  triggered = triggered;
}

abbrev pub with_parameters : List (String × String) → Instance → Instance
with_parameters values i = record i { spec = record i.spec { parameters = values } }

-- "validate plan first".
abbrev pub is_unknown_plan : Option String → Bool
is_unknown_plan none = true
is_unknown_plan (some plan) = false

-- The plan to trigger if any, and the new instance: an upgrade deletes parameters from it.
unfoldable pub admit_update :
    Packages
    → Parsers
    → Instance
    → Instance
    → OperatorVersion
    → OperatorVersion
    → Result Denial (Option String × Instance)
unfolding select_plan changed_parameters check_immutable_parameters triggered_by_parameter_update
    decide
admit_update packages parsers old new ov old_ov =
    let new_plan = new.spec.plan_execution.plan_name in
    let is_upgrade = not (reference_eq new.spec.operator_version old.spec.operator_version) in
    if not (new_plan == "") && is_unknown_plan (select_plan (new_plan ∷ []) ov)
    then err (unknown_plan new_plan)
    else (do
      (changed_defs, removed_defs) ←
          changed_parameters packages old.spec.parameters new.spec.parameters old_ov ov
      values ← check_immutable_parameters new.spec.parameters ov old_ov changed_defs is_upgrade
      _ ← validate_parameters parsers ov (with_parameters values new)
      triggered ← triggered_by_parameter_update packages (changed_defs ++ removed_defs) ov
      plan ← decide (update_of old new triggered) ov
      ok (plan, with_parameters values new))
