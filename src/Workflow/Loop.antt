-- ===== src/Workflow/Loop.antt =====
-- pkg/engine/workflow/engine.go: the state of the three loops of `Execute`, the sets of names that
-- are left, and the ways in which a round of a loop can end.
use kudo.Prelude.{String, List, [], ◌∷◌, Option, none, some, ◌==◌, if◌then◌else◌, contains, map}
use kudo.Api.PlanStatus.{PlanStatus}
use kudo.Api.Operator.{Plan, Step, Task}
use kudo.Engine.{Error}
use kudo.Tasks.Run.{Value}

pub record ActivePlan (Y : Type 0) : Type 0 where
  pub name : String
  pub plan_status : PlanStatus
  pub spec : Plan
  pub tasks : List Task
  pub templates : List (String × String)
  pub params : List (String × Value Y)
  pub pipes : List (String × String)

unfoldable pub find_task : String → List Task → Option Task
find_task name [] = none
find_task name (t ∷ rest) = if t.name == name then some t else find_task name rest

abbrev pub task_by_name : {Y : Type 0} → ActivePlan Y → String → Option Task
task_by_name pl name = find_task name pl.tasks

-- A Go set of names, each once. The order stands for that of the map.
unfoldable pub add : String → List String → List String
add s set = if contains s set then set else s ∷ set

unfoldable pub string_array_to_set : List String → List String
unfolding add
string_array_to_set [] = []
string_array_to_set (s ∷ rest) = add s (string_array_to_set rest)

unfoldable pub step_names_to_set : List Step → List String
unfolding string_array_to_set
step_names_to_set steps = string_array_to_set (map (λ s. s.name) steps)

-- Go's `delete` on such a set.
unfoldable pub remove : String → List String → List String
remove s [] = []
remove s (x ∷ rest) = if x == s then remove s rest else x ∷ remove s rest

-- What a loop changes: the copy of the plan's status, what is left to do, and the cluster.
pub record Loop (L W : Type 0) : Type 0 where
  pub plan : PlanStatus
  pub left : L
  pub world : W

-- The end of a round: to the next one (`continue` included), `break`, or `return` with an error.
pub data Flow (L W : Type 0) : Type 0 where
  next : Loop L W → Flow L W
  stop : Loop L W → Flow L W
  abort : PlanStatus → W → Error → Flow L W

-- The end of a loop: by its last round or `break`, or by that `return`.
pub data Outcome (L W : Type 0) : Type 0 where
  ended : Loop L W → Outcome L W
  aborted : PlanStatus → W → Error → Outcome L W

-- One round of a loop, and the rounds after it.
abbrev pub continue : {L W : Type 0} → Flow L W → (Loop L W → Outcome L W) → Outcome L W
continue (next l) rest = rest l
continue (stop l) rest = ended l
continue (abort plan w e) rest = aborted plan w e

-- What `Execute` returns, and the cluster that it leaves.
pub record Execution (W : Type 0) : Type 0 where
  pub status : PlanStatus
  pub error : Option Error
  pub world : W
