-- ===== src/Tasks/Run.antt =====
-- pkg/engine/task: the method `Run`. Dummy and toggle tasks are written out (task_dummy.go,
-- task_toggle.go). The other four act on the cluster through the record `Cluster`.
use kudo.Prelude.{
  ℕ, String, Bool, true, false, ◌||◌, List, [], ◌∷◌, Option, none, some, Result, ok, err, ◌>>=◌,
  ◌==◌, if◌then◌else◌, concat,
}
use kudo.Prelude.Maps.{lookup}
use kudo.Engine.{Error, Metadata, plain_error, fatal_error_with, execution_error}
use kudo.Tasks.Tasker.{
  ApplyTask, DeleteTask, DummyTask, PipeTask, ToggleTask, KudoOperatorTask, Tasker, apply, delete,
  dummy, pipe, toggle, kudo_operator,
}
use kudo.Tasks.Build.{checked_apply, checked_delete}

-- The value of a parameter, an `interface{}` in Go: a text, or what a YAML text holds.
pub data Value (Y : Type 0) : Type 0 where
  text : String → Value Y
  document : Y → Value Y

-- `renderer.Metadata`.
pub record TaskMetadata : Type 0 where
  pub engine : Metadata
  pub plan_name : String
  pub plan_uid : String
  pub phase_name : String
  pub step_name : String
  pub task_name : String

-- `Context`, without the clients: the cluster is the state that a run is given.
pub record Context (Y : Type 0) : Type 0 where
  pub meta : TaskMetadata
  pub templates : List (String × String)
  pub parameters : List (String × Value Y)
  pub pipes : List (String × String)

-- What `Run` returns: whether the task is done, and an error.
abbrev pub RunResult : Type 0
RunResult = Bool × Option Error

-- The cluster `W`, its clock, and the tasks that act on it.
pub record Cluster (Y W : Type 0) : Type 0 where
  pub now : W → ℕ
  pub run_apply : ApplyTask → Context Y → W → RunResult × W
  pub run_delete : DeleteTask → Context Y → W → RunResult × W
  pub run_pipe : PipeTask → Context Y → W → RunResult × W
  pub run_kudo_operator : KudoOperatorTask → Context Y → W → RunResult × W

unfoldable pub fatal_execution_error : String → String → TaskMetadata → Error
unfolding execution_error
fatal_execution_error cause event meta =
    execution_error
      (fatal_error_with (
        concat (
          "fatal error: " ∷ meta.engine.instance_namespace ∷ "/" ∷ meta.engine.instance_name
          ∷ " failed in " ∷ meta.plan_name ∷ "." ∷ meta.phase_name ∷ "." ∷ meta.step_name ∷ "."
          ∷ meta.task_name ∷ ": " ∷ cause ∷ [])))
      event

-- `strconv.ParseBool`.
unfoldable pub parse_bool : String → Option Bool
parse_bool s =
    if s == "1" || s == "t" || s == "T" || s == "true" || s == "TRUE" || s == "True"
    then some true
    else if s == "0" || s == "f" || s == "F" || s == "false" || s == "FALSE" || s == "False"
    then some false
    else none

unfoldable pub run_dummy : DummyTask → TaskMetadata → RunResult
unfolding fatal_execution_error
run_dummy dt meta =
    if dt.want_err
    then (
      false,
      some (
          if dt.fatal
          then fatal_execution_error "dummy error" "DummyTaskError" meta
          else plain_error "dummy error"),
    )
    else (dt.done, none)

-- The error of `strconv.ParseBool`.
pub parse_bool_error : String → String
parse_bool_error s = concat ("strconv.ParseBool: parsing " ∷ s ∷ ": invalid syntax" ∷ [])

-- The delegate of a toggle task.
pub data Delegate : Type 0 where
  apply_of : ApplyTask → Delegate
  delete_of : DeleteTask → Delegate

unfoldable pub delegate_of : ToggleTask → Bool → Result String Delegate
unfolding checked_apply checked_delete
delegate_of t true = checked_apply t.name t.resources >>= λ a. ok (apply_of a)
delegate_of t false = checked_delete t.name t.resources >>= λ d. ok (delete_of d)

abbrev pub toggle_value : String → String → Option Bool → Result String Bool
toggle_value p s none =
    err (concat ("could not parse value of parameter " ∷ p ∷ ": " ∷ parse_bool_error s ∷ []))
toggle_value p s (some b) = ok b

module _ {Y : Type 0} where
  abbrev parse_toggle : String → Option (Value Y) → Result String Bool
  parse_toggle p none = err (concat ("no value for parameter " ∷ p ∷ " found" ∷ []))
  parse_toggle p (some (document y)) =
      err (concat ("value of parameter " ∷ p ∷ " isn't a string" ∷ []))
  parse_toggle p (some (text s)) = toggle_value p s (parse_bool s)

  unfoldable pub delegate_task : ToggleTask → Context Y → Result String Delegate
  unfolding delegate_of parse_bool lookup
  delegate_task t ctx = parse_toggle t.parameter (lookup t.parameter ctx.parameters) >>= λ enabled.
      delegate_of t enabled

  module _ {W : Type 0} (cluster : Cluster Y W) where
    abbrev pub run_delegate : Delegate → Context Y → W → RunResult × W
    run_delegate (apply_of t) ctx w = cluster.run_apply t ctx w
    run_delegate (delete_of t) ctx w = cluster.run_delete t ctx w

    unfoldable pub run_toggle : ToggleTask → Context Y → W → RunResult × W
    unfolding delegate_task fatal_execution_error
    run_toggle t ctx w = elim (delegate_task t ctx) [
      | err e ↦ ((false, some (fatal_execution_error e "ToggleTaskError" ctx.meta)), w)
      | ok delegate ↦ run_delegate delegate ctx w
    ]

    unfoldable pub run : Tasker → Context Y → W → RunResult × W
    unfolding run_toggle run_dummy
    run (apply t) ctx w = cluster.run_apply t ctx w
    run (delete t) ctx w = cluster.run_delete t ctx w
    run (dummy t) ctx w = (run_dummy t ctx.meta, w)
    run (pipe t) ctx w = cluster.run_pipe t ctx w
    run (toggle t) ctx w = run_toggle t ctx w
    run (kudo_operator t) ctx w = cluster.run_kudo_operator t ctx w
