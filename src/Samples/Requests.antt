-- ===== src/Samples/Requests.antt =====
-- Admission requests: an instance is created, and one is updated.
use kudo.Prelude.{refl, false, [], ◌∷◌, none, ok, contains}
use kudo.Prelude.Maps.{lookup, has_key}
use kudo.Libraries.{sample, sample-Laws, first, keep_first}
use kudo.Api.ExecutionStatus.{in_progress, never_run}
use kudo.Api.Instance.{Instance, find_plan}
use kudo.Admission.Parameters.{validate_all, set_defaults}
use kudo.Admission.Handler.{Server, Request, create, update, handle_create, handle_update}
use kudo.Admission.Created.{IsDeployed, handle_create-Created}
use kudo.Admission.Updated.{IsRescheduled, handle_update-Rescheduled}
use kudo.Samples.Data.{version, no_plan, scheduled, instance_with, values, parsers}

abbrev server : Server
server = record {
  packages = sample;
  parsers = parsers;
  get_operator_version_by_name = λ name ns. ok version;
  marshal_error = λ i. none;
  new_uuid = "b";
  spec_equal = λ a b. false;
  status_equal = λ a b. false;
}

abbrev idle : Instance
idle = instance_with "zookeeper-1" values no_plan none

abbrev creation : Request
creation = record {
  operation = create;
  namespace = "default";
  object = ok idle;
  old_object = ok idle;
}

-- It has a finalizer for the cleanup, and its first plan is scheduled.
abbrev created : Instance
created = record idle {
  metadata = record idle.metadata { finalizers = "kudo.dev.instance.cleanup" ∷ [] };
  spec = record idle.spec {
    plan_execution = record { plan_name = "deploy"; uid = "b"; status = never_run };
  };
}

handle_create-Created_example : IsDeployed server creation created
unfolding handle_create find_plan set_defaults validate_all has_key contains
handle_create-Created_example = handle_create-Created server creation created refl

abbrev deploying : Instance
deploying = instance_with "zookeeper-1" values (scheduled "deploy" in_progress) none

abbrev enlarged : Instance
enlarged =
    instance_with "zookeeper-1" (("memory", "2") ∷ ("disk", "8") ∷ [])
      (scheduled "deploy" in_progress) none

abbrev change : Request
change = record {
  operation = update;
  namespace = "default";
  object = ok enlarged;
  old_object = ok deploying;
}

-- The plan starts again.
abbrev restarted : Instance
restarted = record enlarged {
  spec = record enlarged.spec {
    plan_execution = record { plan_name = "deploy"; uid = "b"; status = never_run };
  };
}

handle_update-Rescheduled_example : IsRescheduled server sample-Laws change restarted
unfolding handle_update first keep_first contains lookup validate_all
handle_update-Rescheduled_example =
    handle_update-Rescheduled server sample-Laws change restarted refl
