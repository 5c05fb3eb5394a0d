-- ===== src/Samples/Data.antt =====
-- A cluster that counts the runs of tasks, an operator with two plans, and an instance of it.
use kudo.Prelude.{
  ℕ, suc, String, Bool, true, false, List, [], ◌∷◌, Option, none, some, ok, ◌==◌, if◌then◌else◌,
}
use kudo.Libraries.{sample}
use kudo.Api.ExecutionStatus.{ExecutionStatus, pending, complete, never_run}
use kudo.Api.PhaseStatus.{PhaseStatus}
use kudo.Api.PlanStatus.{PlanStatus}
use kudo.Api.Operator.{
  serial, Phase, Plan, PipeSpec, TaskSpec, Task, string, Parameter, ObjectReference,
  OperatorVersion,
}
use kudo.Api.Instance.{PlanExecution, Instance}
use kudo.Api.Parameters.{Parsers}
use kudo.Engine.{Metadata}
use kudo.Health.Objects.{Object, pod}
use kudo.Health.Readiness.{Lists}
use kudo.Tasks.Run.{RunResult, Cluster}
use kudo.Workflow.Loop.{ActivePlan, Loop}
use kudo.Controller.InCluster.{Operators}
use kudo.Controller.Prepare.{Yaml}
use kudo.Controller.Reconcile.{Platform}

-- Every run takes a unit of time and is done.
abbrev counted : ℕ → RunResult × ℕ
counted w = ((true, none), suc w)

abbrev pub cluster : Cluster (Unit {0}) ℕ
cluster = record {
  now = λ w. w;
  run_apply = λ t ctx w. counted w;
  run_delete = λ t ctx w. counted w;
  run_pipe = λ t ctx w. counted w;
  run_kudo_operator = λ t ctx w. counted w;
}

abbrev pub metadata : Metadata
metadata = record {
  instance_name = "zk";
  instance_namespace = "default";
  operator_name = "zookeeper";
  operator_version_name = "zookeeper-1";
  operator_version = "1";
  app_version = "3.4";
}

abbrev pub pipe_spec : PipeSpec
pipe_spec = record { file = "/tmp/cert"; env_file = ""; kind = "Secret"; key = "cert" }

abbrev spec : TaskSpec
spec = record {
  resources = "service.yaml" ∷ [];
  want_err = false;
  fatal = false;
  done = true;
  pod = "pod.yaml";
  pipe = pipe_spec ∷ [];
  parameter = "enabled";
  package_name = "";
  instance_name = "";
  app_version = "";
  operator_version = "";
  parameter_file = "";
}

abbrev pub task : String → String → Task
task name kind = record { name = name; kind = kind; spec = spec }

-- A dummy task that is never done.
abbrev waiting : Task
waiting = record { name = "wait"; kind = "Dummy"; spec = record spec { done = false } }

abbrev pub tasks : List Task
tasks =
    task "install" "Apply"
    ∷ task "note" "Dummy"
    ∷ waiting
    ∷ task "expose" "Toggle"
    ∷ task "certs" "Pipe"
    ∷ []

abbrev pub one_step : String → List String → Phase
one_step name ts = record {
  name = name;
  strategy = serial;
  steps = record { name = "all"; tasks = ts } ∷ [];
}

abbrev pub first_phase : Phase
first_phase = one_step "first" ("install" ∷ "note" ∷ [])

abbrev pub last_phase : Phase
last_phase = one_step "last" ("install" ∷ [])

abbrev pub waiting_phase : Phase
waiting_phase = one_step "first" ("wait" ∷ [])

abbrev pub deploy : Plan
deploy = record { strategy = serial; phases = first_phase ∷ last_phase ∷ [] }

abbrev pub blocked : Plan
blocked = record { strategy = serial; phases = waiting_phase ∷ last_phase ∷ [] }

abbrev phase_status : String → ExecutionStatus → PhaseStatus
phase_status name s = record {
  name = name;
  status = s;
  message = "";
  steps = record { name = "all"; message = ""; status = s } ∷ [];
}

abbrev pub plan_status : String → ExecutionStatus → PlanStatus
plan_status name s = record {
  name = name;
  status = s;
  message = "";
  last_updated_timestamp = some 3;
  phases = phase_status "first" s ∷ phase_status "last" s ∷ [];
  uid = "a";
}

abbrev pub active : Plan → ActivePlan (Unit {0})
active plan = record {
  name = "deploy";
  plan_status = plan_status "deploy" pending;
  spec = plan;
  tasks = tasks;
  templates = [];
  params = [];
  pipes = [];
}

abbrev pub begin_steps : Loop (List String) ℕ
begin_steps = record { plan = plan_status "deploy" pending; left = "all" ∷ []; world = 5 }

abbrev pub begin_phases : Loop ℕ ℕ
begin_phases = record { plan = plan_status "deploy" pending; left = 2; world = 5 }

abbrev parameter : String → String → Bool → Parameter
parameter name trigger immutable = record {
  display_name = name;
  name = name;
  description = "";
  required = some false;
  default = some "1";
  trigger = trigger;
  value_type = string;
  immutable = some immutable;
  enum = none;
}

abbrev pub disk : Parameter
disk = parameter "disk" "" true

abbrev reference : String → ObjectReference
reference name = record {
  kind = "OperatorVersion";
  namespace = "";
  name = name;
  uid = "";
  api_version = "";
  resource_version = "";
  field_path = "";
}

abbrev pub version : OperatorVersion
version = record {
  name = "zookeeper-1";
  namespace = "default";
  operator = reference "zookeeper";
  version = "1";
  app_version = "3.4";
  templates = [];
  tasks = tasks;
  parameters = parameter "memory" "deploy" false ∷ disk ∷ [];
  plans = ("deploy", deploy) ∷ ("cleanup", blocked) ∷ [];
}

abbrev pub no_plan : PlanExecution
no_plan = record { plan_name = ""; uid = ""; status = never_run }

abbrev pub scheduled : String → ExecutionStatus → PlanExecution
scheduled name s = record { plan_name = name; uid = "a"; status = s }

abbrev pub instance_with : String → List (String × String) → PlanExecution → Option ℕ → Instance
instance_with ov values e deleted = record {
  metadata = record {
    kind = "Instance";
    name = "zk";
    namespace = "default";
    finalizers = [];
    owner_kinds = [];
    deletion_timestamp = deleted;
  };
  spec = record { operator_version = reference ov; parameters = values; plan_execution = e };
  status = record { plan_status = ("deploy", plan_status "deploy" complete) ∷ []; conditions = [] };
}

abbrev pub values : List (String × String)
values = ("memory", "1") ∷ ("disk", "8") ∷ []

abbrev pub parsers : Parsers
parsers = record {
  is_int = λ s. false;
  is_float = λ s. false;
  is_yaml_list = λ s. false;
  is_yaml_map = λ s. false;
}

abbrev yaml : Yaml (Unit {0})
yaml = record { to_yaml_map = λ s. ok tt; to_yaml_array = λ s. ok tt }

-- A pod that is ready, and one that waits.
abbrev pub ready_pod : Object
ready_pod =
    pod (record { name = "zk-0"; namespace = "default"; phase = "Running"; is_pod_ready = true })

abbrev pub waiting_pod : Object
waiting_pod =
    pod (record { name = "zk-1"; namespace = "default"; phase = "Pending"; is_pod_ready = false })

abbrev pods_of : String → List Object
pods_of type = if type == "Pod" then ready_pod ∷ waiting_pod ∷ [] else []

abbrev pub lists : Lists ℕ
lists = record { parse_labels = λ s. ok s; list = λ type ns labels w. ok (pods_of type) }

-- One operator version, whichever is asked for.
abbrev pub operators : Operators ℕ
operators = record {
  get_operator_version_by_name = λ name ns w. ok version;
  get_operator = λ name ns w. ok name;
  acyclic = λ g. true;
  depth = 1;
}

-- A server that accepts every update.
abbrev pub platform : Platform (Unit {0}) ℕ
platform = record {
  packages = sample;
  yaml = yaml;
  cluster = cluster;
  new_uuid = λ w. "b";
  get_instance = λ name ns w. ok (instance_with "zookeeper-1" values no_plan none);
  update = λ i w. (ok i, suc w);
  update_status = λ i w. (ok i, suc w);
  event = λ kind reason message i w. suc w;
  lists = lists;
  operators = operators;
  spec_equal = λ a b. false;
  metadata_equal = λ a b. false;
  condition_equal = λ a b. false;
}
