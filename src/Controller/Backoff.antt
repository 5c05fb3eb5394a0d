-- ===== src/Controller/Backoff.antt =====
-- pkg/controller/instance/instance_controller.go: `computeTheReconcileResult`.
use kudo.Prelude.{ℕ, ◌+◌, ◌-◌, ◌/◌, min, Option, none, some, ltb, if◌then◌else◌}
use kudo.Prelude.Maps.{lookup}
use kudo.Api.ExecutionStatus.{is_terminal}
use kudo.Api.PlanStatus.{PlanStatus}
use kudo.Api.Instance.{Instance}

-- `reconcile.Result`; `requeue_after` is in seconds, its negative values are `ahead`.
pub data RequeueAfter : Type 0 where
  never : RequeueAfter
  after : ℕ → RequeueAfter
  ahead : ℕ → RequeueAfter

-- A minute in nanoseconds, the unit of the clock.
abbrev pub minute : ℕ
minute = 60000000000

-- `int(math.Min(59, minutes)) + 1`. The conversion to `int` drops the fraction, so a clock that is
-- behind by less than a minute counts as no time.
unfoldable pub seconds_backoff : ℕ → ℕ → RequeueAfter
seconds_backoff now last =
    if ltb now last
    then (let m = (last - now) / minute in if ltb m 2 then after (1 - m) else ahead (m - 1))
    else after (min 59 ((now - last) / minute) + 1)

abbrev pub timestamp_of : Option PlanStatus → Option ℕ
timestamp_of none = none
timestamp_of (some p) = p.last_updated_timestamp

-- `none` is the nil dereference at a plan with no timestamp.
unfoldable pub compute_the_reconcile_result : Instance → ℕ → Option RequeueAfter
unfolding lookup seconds_backoff
compute_the_reconcile_result i now =
    if is_terminal i.spec.plan_execution.status
    then some never
    else elim (timestamp_of (lookup i.spec.plan_execution.plan_name i.status.plan_status)) [
      | none ↦ none
      | some last ↦ some (seconds_backoff now last)
    ]
