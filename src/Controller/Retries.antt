-- ===== src/Controller/Retries.antt =====
-- Which errors a reconciliation retries, and after how long it is repeated.
use kudo.Prelude.{
  ℕ, ◌≤◌, ◌≡◌, ◌≢◌, ◌↔◌, refl, inl, inr, String, true, false, List, Option, none, some, Result, ok,
  err, ltb, arith, Bool-cases, Option-cases,
}
use kudo.Prelude.Maps.{lookup}
use kudo.Api.ExecutionStatus.{is_terminal}
use kudo.Api.PlanStatus.{PlanStatus}
use kudo.Api.Operator.{OperatorVersion, Plan}
use kudo.Api.Instance.{Instance}
use kudo.Engine.{Error, by_pointer, Metadata, execution_error_pointer, as_execution_error}
use kudo.Tasks.Run.{Value}
use kudo.Controller.Prepare.{Yaml, prepare_plan_execution, prepare_pipes, prepare_params}
use kudo.Controller.Backoff.{
  RequeueAfter, never, after, ahead, seconds_backoff, compute_the_reconcile_result, timestamp_of,
}
use kudo.Controller.Reconcile.{Platform, update_instance, handle_error, handle_updated}

-- An error that stands in its chain as a pointer.
abbrev pub IsPointer : Error → Type 0
IsPointer e = (event : String) × (e.wrapper ≡ by_pointer event) × (e.fatal ≡ true)

module _ {Y : Type 0} (yaml : Yaml Y) where
  prepare_plan_execution-IsPointer :
      (i : Instance) (ov : OperatorVersion) (ps : PlanStatus) (meta : Metadata) (e : Error)
      → prepare_plan_execution yaml i ov ps meta ≡ err e
      → IsPointer e
  unfolding prepare_plan_execution execution_error_pointer
  prepare_plan_execution-IsPointer i ov ps meta e h =
      elim (Option-cases (lookup ps.name ov.plans)) [
        | inl f ↦ ("InvalidPlan", ground (arith, f, h), ground (arith, f, h))
        | inr (plan, f) ↦ of_params plan _ (rw (f, prepare_plan_execution) at h)
      ]
    where
      of_pipes :
          (plan : Plan) (params : List (String × Value Y))
          (r : Result String (List (String × String)))
          → prepare_pipes yaml plan ps ov params r ≡ err e
          → IsPointer e
      of_pipes plan params (ok x) k = cc
      of_pipes plan params (err x) k = ("InvalidPlan", ground (arith, k), ground (arith, k))

      of_params :
          (plan : Plan) (r : Result String (List (String × Value Y)))
          → prepare_params yaml plan ps ov meta r ≡ err e
          → IsPointer e
      of_params plan (ok x) k = of_pipes plan x _ k
      of_params plan (err x) k = ("InvalidParams", ground (arith, k), ground (arith, k))

module _ {Y W : Type 0} (platform : Platform Y W) where
  handle_updated-pointer :
      (e : Error) (u : (Instance × Option Error) × W)
      → IsPointer e
      → (handle_updated platform e u).0 ≢ none
  handle_updated-pointer e ((i, some ce), w) p h = cc
  handle_updated-pointer e ((i, none), w) (event, wr, f) h = cc (rw wr at h)

  -- Every error of `preparePlanExecution` is fatal, and the controller asks for a retry after it
  -- all the same: after handling it there is an error for the work queue, on any instances and
  -- in any state of the cluster.
  pub prepare_plan_execution-retried :
      (i old : Instance) (ov : OperatorVersion) (ps : PlanStatus) (meta : Metadata) (w : W)
      (e : Error)
      → prepare_plan_execution platform.yaml i ov ps meta ≡ err e
      → (e.fatal ≡ true) × ((handle_error platform e i old w).0 ≢ none)
  unfolding handle_error
  prepare_plan_execution-retried i old ov ps meta w e h =
      let p = prepare_plan_execution-IsPointer platform.yaml i ov ps meta e h in
      (p.2, handle_updated-pointer e (update_instance platform i old w) p)

  -- An error is dropped exactly if the instance could be written to the cluster and the error is
  -- a fatal `ExecutionError` that stands in its chain as a value.
  pub handle_error-drops_iff :
      (e : Error) (i old : Instance) (w : W)
      → ((handle_error platform e i old w).0 ≡ none) ↔ (
          ((update_instance platform i old w).0.1 ≡ none)
          × (as_execution_error e.wrapper ≡ true)
          × (e.fatal ≡ true))
  unfolding handle_error
  handle_error-drops_iff e i old w = of_update (update_instance platform i old w)
    where
      of_update :
          (u : (Instance × Option Error) × W)
          → ((handle_updated platform e u).0 ≡ none)
            ↔ ((u.0.1 ≡ none) × (as_execution_error e.wrapper ≡ true) × (e.fatal ≡ true))
      of_update ((j, some ce), v) = ground arith
      of_update ((j, none), v) = ground arith

-- A clock that is not behind: the delay is at least a second and at most sixty.
abbrev pub Within : RequeueAfter → Type 0
Within never = ⊥
Within (ahead n) = ⊥
Within (after n) = (1 ≤ n) × (n ≤ 60)

seconds_backoff-Within : (now last : ℕ) → last ≤ now → Within (seconds_backoff now last)
unfolding seconds_backoff
seconds_backoff-Within now last h = elim (Bool-cases (ltb now last)) [
  | inl e ↦ absurd (ground (arith, e))
  | inr e ↦ rw e (omega arith, omega arith)
]

-- If the plan that is scheduled is not terminal, and its status has a timestamp that is not later than
-- now, the instance is reconciled again after 1 to 60 seconds.
pub compute_the_reconcile_result-Within :
    (i : Instance) (now last : ℕ)
    → is_terminal i.spec.plan_execution.status ≡ false
    → timestamp_of (lookup i.spec.plan_execution.plan_name i.status.plan_status) ≡ some last
    → last ≤ now
    → (r : RequeueAfter) × (compute_the_reconcile_result i now ≡ some r) × Within r
unfolding compute_the_reconcile_result
compute_the_reconcile_result-Within i now last running found behind =
    (seconds_backoff now last, rw (running, found) refl, seconds_backoff-Within now last behind)
