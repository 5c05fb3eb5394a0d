-- ===== src/Lib.antt =====
-- KUDO runs the plans of Kubernetes operators. An operator version declares plans, tasks and
-- parameters. An instance of it has parameter values, the plan that is scheduled, and the status of
-- each plan. The admission webhook decides which changes of an instance are accepted and which plan
-- a change schedules. The instance controller takes the instance and executes the scheduled plan.
-- The workflow engine runs the tasks of the plan and moves the statuses of the plan, its phases and
-- its steps. The controller writes the statuses back, and the webhook reads them again.
--
-- Which file is about which code:
--   Prelude       texts, tests, lists over the native numbers, Go's maps, values or errors
--   Libraries     go-funk and the conditions of apimachinery, as a record with laws
--   Api           pkg/apis/kudo/v1beta1: statuses and their setters, operator versions, instances
--                 and their methods, parameters and their checks
--   Engine        pkg/engine/types.go: errors and metadata
--   Kube          the clients and objects of Kubernetes as parameters, actions on a cluster, and
--                 pkg/engine/resource/object_key.go with `IsDeleted` (Keys)
--   Renderer      pkg/engine/renderer: the variables of a template (engine.go), `YamlToObject`
--   Tasks         pkg/engine/task: `Build` (Build), `Run` of dummy and toggle tasks (Run), of apply
--                 tasks (Render, Patch, Apply), delete tasks (Delete), pipe tasks (Names, EnvFile,
--                 PipePod, PipeFiles, Pipe) and KUDO operator tasks (KudoOperator), all of them as
--                 the interface of the workflow engine (Engine), and the proofs
--   Kudoctl       of the command line tool in pkg/kudoctl: the parameters of a command (Params, with
--                 `WrapParamValue` of pkg/util/convert), packages/convert (Convert), the client in
--                 util/kudo (Client), resources/install and resources/upgrade (Install),
--                 packages/install (Package), the in-cluster resolver (Resolver), and the proofs
--   Repository    pkg/kudoctl/util/repo: the index (Index, Directory) and its searches (Lookup);
--                 pkg/util/kudo/versions.go (Versions); the sort (Sorting), and the proofs
--   Workflow      pkg/engine/workflow/engine.go: `Execute`. Loop has the state of its three loops,
--                 Execute one function for each loop and each loop's body, the others the proofs
--   Admission     pkg/webhook/instance_admission.go: Parameters, Decision (`admitUpdate`), Handler
--                 (`Handle`, `handleCreate`, `handleUpdate`), and the proofs
--   Controller    pkg/controller/instance/instance_controller.go: Plans, Prepare, Backoff and
--                 Reconcile (`Reconcile`), InCluster (resolver_incluster.go), and the proofs; also
--                 pkg/util/convert/convert.go
--   Dependencies  pkg/kudoctl/resources/dependencies/resolve.go: `Resolve`, and the proofs
--   Health        pkg/kubernetes/status: Objects (health.go), Readiness (readiness.go), the proof
--   Verifier      pkg/kudoctl/packages/verifier: Files (the files of a package), References
--                 (plan/ and task/verify_references.go), of template/ Nodes (parser.go) and Templates
--                 (verify_references.go, verify_parameters.go), and the proofs
--   Samples       a concrete operator, its instances, and the theorems at them
--
-- How state is modelled. The cluster is a type `W` of any states. An operation that acts on it takes
-- a state and returns one. What the API server, other packages of Go and the clock answer are the
-- fields of the records `Packages`, `Parsers`, `Server`, `Yaml`, `Lists`, `Operators`, `Platform`,
-- `Client`, `Objects`, `Machinery`, `Instances`, `PipeTools`, `Clientset`, `Semver`, `Sorter`,
-- `PackageFs`, `Environment` and `Web`. The workflow engine runs tasks through
-- the record `Cluster`, which `engine_cluster` fills with the tasks that are modelled. A Go
-- pointer into a list of statuses is the name by which it was found, and a write through it is a
-- write to the first element of that name. A Go map is an association list. Its order is the order
-- of a `range` loop, and the theorems are about every order. An error is its text, whether it
-- wraps the fatal error, and which `ExecutionError` stands in its chain.
--
-- Every loop is recursion over the list that it goes through. The walk over the dependencies is not
-- such a loop: its first argument bounds the depth, and `resolve_ends` says which bound is enough.
-- No number of the code can overflow: the counts are bounded by lengths of lists, and times are
-- natural numbers. A nil dereference is the result `none` of `compute_the_reconcile_result` and
-- `reconcile`, the constructor `null_in_enum` in Kudoctl.Convert, and an error whose text says so in
-- Kudoctl.Install and Kudoctl.Package.
--
-- Not modelled: the template engine, the enhancer of objects (a field of `Machinery`), the commands in
-- a pod (fields of `PipeTools`), and of kudoctl its commands, the setup of a cluster, the readers of
-- packages and the other package verifiers. The bound on the depth of the controller's resolution is
-- a field of the record `Operators`. Log lines are left out. Texts of denials and of errors in a
-- conversion are constructors.
pub mod Prelude
pub mod Libraries
pub mod Api
pub mod Engine
pub mod Tasks
pub mod Admission
pub mod Workflow
pub mod Controller
pub mod Dependencies
pub mod Health
pub mod Kube
pub mod Kudoctl
pub mod Renderer
pub mod Repository
pub mod Verifier
pub mod Samples
