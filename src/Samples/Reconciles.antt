-- ===== src/Samples/Reconciles.antt =====
-- Steps of a reconciliation, and the errors that it retries.
use kudo.Prelude.{
  List, [], ◌∷◌, ◌≡◌, refl, ◌≢◌, ◌↔◌, String, true, false, none, some, arith, concat,
}
use kudo.Prelude.Maps.{lookup}
use kudo.Api.ExecutionStatus.{in_progress, complete}
use kudo.Api.PlanStatus.{PlanStatus}
use kudo.Api.Instance.{Instance}
use kudo.Engine.{Error, plain_error}
use kudo.Api.Operator.{serial, Plan}
use kudo.Tasks.Run.{Value, text}
use kudo.Controller.Prepare.{prepare_error, prepare_plan_execution}
use kudo.Controller.Backoff.{RequeueAfter, compute_the_reconcile_result}
use kudo.Controller.Reconcile.{handle_error, update_instance}
use kudo.Controller.Retries.{
  prepare_plan_execution-retried, handle_error-drops_iff, Within,
  compute_the_reconcile_result-Within,
}
use kudo.Samples.Data.{
  one_step, platform, metadata, version, scheduled, no_plan, instance_with, values, plan_status,
}

abbrev running : Instance
running = instance_with "zookeeper-1" values (scheduled "deploy" in_progress) none

abbrev leaving : Instance
leaving = instance_with "zookeeper-1" values no_plan (some 4)

-- The plan is not one of the operator version's.
abbrev unknown : PlanStatus
unknown = plan_status "backup" complete

abbrev unknown_error : Error
unknown_error = prepare_error "could not find required plan: " "'backup'" "InvalidPlan"

prepare_plan_execution-retried_example :
    (unknown_error.fatal ≡ true)
    × ((handle_error platform unknown_error running running 5).0 ≢ none)
unfolding prepare_plan_execution concat
prepare_plan_execution-retried_example =
    prepare_plan_execution-retried platform running running version unknown metadata 5 unknown_error
      refl

handle_error-drops_iff_example :
    ((handle_error platform (plain_error "timeout") running running 5).0 ≡ none)
    ↔ (((update_instance platform running running 5).0.1 ≡ none) × (false ≡ true) × (false ≡ true))
handle_error-drops_iff_example =
    handle_error-drops_iff platform (plain_error "timeout") running running 5

compute_the_reconcile_result-Within_example :
    (r : RequeueAfter) × (compute_the_reconcile_result running 8 ≡ some r) × Within r
unfolding lookup
compute_the_reconcile_result-Within_example =
    compute_the_reconcile_result-Within running 8 3 refl refl (omega arith)

abbrev running_uid : String
running_uid = "a"

abbrev rendered : List (String × Value (Unit {0}))
rendered = ("memory", text "1") ∷ ("disk", text "8") ∷ []

-- A plan of one step, with the pipe task.
abbrev certified : Plan
certified = record { strategy = serial; phases = one_step "first" ("install" ∷ "certs" ∷ []) ∷ [] }

abbrev pipes : List (String × String)
pipes = ("cert", "zk.deploy.first.all.certs.cert") ∷ []
