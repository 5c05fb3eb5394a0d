-- ===== src/Health/Objects.antt =====
-- pkg/kubernetes/status/health.go: the health of each kind of resource. Of a resource there are the
-- fields that the code reads. kubectl's status viewers and `IsPodReady` have been asked already: a
-- resource carries their answer. So does the text that `%v` prints of a list of values.
use kudo.Prelude.{
  ℕ, String, Bool, true, false, not, ◌&&◌, List, [], ◌∷◌, Option, none, some, Result, ok, err, ◌==◌,
  if◌then◌else◌, concat, eqb, is_empty,
}
use kudo.Api.ExecutionStatus.{status_text}
use kudo.Api.Instance.{Instance}
use kudo.Engine.{Error}

-- A condition of a resource's status.
pub record ObjectCondition : Type 0 where
  pub type : String
  pub status : String
  pub message : String

-- The answer of a status viewer, `(msg, done, err)`, after the conversion that may fail.
abbrev pub Viewed : Type 0
Viewed = Result Error (String × Bool)

pub record CustomResourceDefinition : Type 0 where
  pub name : String
  pub conditions : List ObjectCondition
  pub conditions_text : String

pub record Workload : Type 0 where
  pub name : String
  pub viewed : Viewed

pub record Job : Type 0 where
  pub name : String
  pub succeeded : ℕ
  pub conditions : List ObjectCondition

pub record Pod : Type 0 where
  pub name : String
  pub namespace : String
  pub phase : String
  pub is_pod_ready : Bool

pub record Namespace : Type 0 where
  pub name : String
  pub phase : String

pub record Service : Type 0 where
  pub name : String
  pub namespace : String
  pub type : String
  pub cluster_ip : String
  pub external_ips : List String
  pub external_ips_text : String
  -- `Status.LoadBalancer.Ingress` is not nil.
  pub has_ingress : Bool

-- The types of the switch in `IsHealthy`. The three versions of a stateful set and of a deployment
-- are treated alike, as are the two of a custom resource definition.
pub data Object : Type 0 where
  custom_resource_definition : CustomResourceDefinition → Object
  stateful_set deployment : Workload → Object
  job : Job → Object
  kudo_instance : Instance → Object
  pod : Pod → Object
  namespace : Namespace → Object
  service : Service → Object
  other : String → Object

-- `%q` of a name, which has no character to escape.
abbrev quoted : String → String
quoted s = concat ("\"" ∷ s ∷ "\"" ∷ [])

unfoldable pub has_condition : String → List ObjectCondition → Bool
has_condition type [] = false
has_condition type (c ∷ rest) =
    if c.type == type && c.status == "True" then true else has_condition type rest

-- The message of the first condition that says so.
unfoldable pub is_job_terminally_failed : String → List ObjectCondition → Bool × String
is_job_terminally_failed name [] = (false, "")
is_job_terminally_failed name (c ∷ rest) =
    if c.type == "Failed" && c.status == "True"
    then (true, concat ("job " ∷ quoted name ∷ " has failed terminally: " ∷ c.message ∷ []))
    else is_job_terminally_failed name rest

unfoldable pub is_terminally_failed : Option Object → Bool × String
unfolding is_job_terminally_failed
is_terminally_failed none = (true, "")
is_terminally_failed (some (job j)) = is_job_terminally_failed j.name j.conditions
is_terminally_failed (some _) = (false, "")

abbrev workload_health : String → String → String → Workload → Viewed → Result Error (Bool × String)
workload_health kind name name_marked w (err e) = err e
workload_health kind name name_marked w (ok (msg, true)) =
    ok (true, concat (kind ∷ " " ∷ name_marked ∷ " is marked healthy" ∷ []))
workload_health kind name name_marked w (ok (msg, false)) =
    ok (false, concat (kind ∷ " " ∷ name ∷ " is not healthy: " ∷ msg ∷ []))

unfoldable pub is_service_healthy : Service → Bool × String
is_service_healthy s =
    let name = concat (s.namespace ∷ "/" ∷ s.name ∷ []) in
    if s.type == "ExternalName"
    then (true, concat ("external name service " ∷ name ∷ " is marked healthy" ∷ []))
    else if s.cluster_ip == ""
    then (false, concat ("service " ∷ name ∷ " does not have cluster IP address" ∷ []))
    else if s.type == "LoadBalancer" && not (is_empty s.external_ips)
    then (
      true,
      concat (
          "service " ∷ name ∷ " has external IP addresses (" ∷ s.external_ips_text
          ∷ "), marked healthy" ∷ []),
    )
    else if s.type == "LoadBalancer" && not s.has_ingress
    then (
      false,
      concat ("service " ∷ name ∷ " does not have load balancer ingress IP address" ∷ []),
    )
    else (true, concat ("service " ∷ name ∷ " is marked healthy" ∷ []))

abbrev instance_name : Instance → String
instance_name i = concat (i.metadata.namespace ∷ "/" ∷ i.metadata.name ∷ [])

-- A nil object is healthy.
unfoldable pub is_healthy : Option Object → Result Error (Bool × String)
unfolding has_condition is_service_healthy
is_healthy none = ok (true, "")
is_healthy (some (custom_resource_definition c)) =
    if has_condition "Established" c.conditions
    then ok (true, concat ("CRD " ∷ c.name ∷ " is now healthy" ∷ []))
    else ok (
      false,
      concat ("CRD " ∷ c.name ∷ " is not healthy ( Conditions: " ∷ c.conditions_text ∷ " )" ∷ []),
    )
is_healthy (some (stateful_set w)) =
    workload_health "statefulset" (quoted w.name) (quoted w.name) w w.viewed
is_healthy (some (deployment w)) = workload_health "deployment" (quoted w.name) w.name w w.viewed
is_healthy (some (job j)) =
    if eqb j.succeeded 1
    then ok (true, concat ("job " ∷ quoted j.name ∷ " is marked healthy" ∷ []))
    else ok (false, concat ("job " ∷ quoted j.name ∷ " still running or failed" ∷ []))
is_healthy (some (kudo_instance i)) =
    if i.spec.plan_execution.plan_name == ""
    then ok (true, concat ("instance " ∷ instance_name i ∷ " is marked healthy" ∷ []))
    else ok (
      false,
      concat (
          "instance "
          ∷ instance_name i
          ∷ " active plan is in state "
          ∷ status_text i.spec.plan_execution.status
          ∷ []),
    )
is_healthy (some (pod p)) =
    if p.phase == "Running" && p.is_pod_ready
    then ok (true, "")
    else ok (
      false,
      concat ("pod " ∷ p.namespace ∷ "/" ∷ p.name ∷ " is not running yet: " ∷ p.phase ∷ []),
    )
is_healthy (some (namespace n)) =
    if n.phase == "Active"
    then ok (true, "")
    else ok (false, concat ("namespace " ∷ n.name ∷ " is not active: " ∷ n.phase ∷ []))
is_healthy (some (service s)) = ok (is_service_healthy s)
is_healthy (some (other type)) =
    ok (true, concat ("unknown type " ∷ type ∷ " is marked healthy by default" ∷ []))
