-- ===== src/Samples/Stores.antt =====
-- A server that stores objects by their names, and finished tasks on it.
use kudo.Prelude.{
  ◌≡◌, refl, sym, ap, ◌||◌, String, true, List, [], ◌∷◌, none, some, Result, ok, err, ◌==◌,
  if◌then◌else◌, length, contains, eq_iff, Bool-cases, inl, inr,
}
use kudo.Api.Instance.{Instance}
use kudo.Kube.Objects.{structured, Objects, Client, ApiError}
use kudo.Kube.Store.{Store}
use kudo.Workflow.Loop.{remove}
use kudo.Tasks.Tasker.{ApplyTask, DeleteTask, KudoOperatorTask}
use kudo.Tasks.Run.{TaskMetadata, Context}
use kudo.Tasks.Render.{Machinery}
use kudo.Tasks.Engine.{Tools}
use kudo.Tasks.KudoOperator.{Instances, run_kudo_operator}
use kudo.Tasks.PipeFiles.{PipeTools}
use kudo.Tasks.Gone.{Gone}
use kudo.Tasks.Installed.{Installed, run_kudo_operator-Installed}
use kudo.Samples.Data.{ready_pod, metadata, no_plan}

abbrev objects : Objects String
objects = record {
  gvk = λ o. record { group = ""; version = "v1"; kind = "Pod" };
  set_gvk = λ g o. o;
  go_type = λ o. structured;
  object_key = λ o. ok (record { namespace = "default"; name = o });
  annotations = λ o. ok none;
  set_annotations = λ m o. ok o;
  marshal = λ o. ok o;
  encode = λ o. ok o;
  is_json_map = λ s. true;
  json_merge_patch = λ a b c. ok b;
  has_patch_meta = λ o. ok tt;
  strategic_patch = λ o a b c. ok b;
}

abbrev not_there : ApiError
not_there = record { text = "not found"; not_found = true }

abbrev client : Client String (List String)
client = record {
  get = λ key o w. if contains o w then ok o else err not_there;
  create = λ o w. ((none, o), o ∷ w);
  patch = λ o type text w. ((none, o), w);
  delete = λ o w. (none, remove o w);
  server_resources = λ g w. (
    ok (
        some (record {
          group_version = "v1";
          api_resources = record { kind = "Pod"; namespaced = true } ∷ [];
        })),
    w,
  );
  invalidate = λ w. w;
  parse_group_version = λ s. ok ("", s);
}

get_found_lem :
    (o e : String) (w : List String)
    → client.get (record { namespace = ""; name = "" }) o w ≡ ok e
    → contains o w ≡ true
get_found_lem o e w h = elim (Bool-cases (contains o w)) [ inl f ↦ f | inr f ↦ cc (rw f at h) ]

same_stored_lem : (p o : String) (w : List String) → (o == p) ≡ true → contains p w ≡ contains o w
same_stored_lem p o w h = ap (λ x. contains x w) (sym ((eq_iff o p).0 h))

annotations_same_lem :
    (p o o' : String) → ◌≡◌ {A = Result String String} (ok o) (ok o') → (o' == p) ≡ (o == p)
annotations_same_lem p o o' h = cc

create_adds_lem : (o p : String) (w : List String) → contains p (o ∷ w) ≡ (o == p || contains p w)
unfolding contains
create_adds_lem o p w = refl

abbrev store : Store objects client
store = record {
  same = λ p o. o == p;
  stored = λ o w. contains o w;
  same_stored = same_stored_lem;
  annotations_same = λ p o o' annots h. annotations_same_lem p o o' h;
  resources_keep = λ g p w. refl;
  invalidate_keeps = λ p w. refl;
  get_found = λ o e key w w' k h. get_found_lem o e w' h;
  create_adds = λ o p w h. create_adds_lem o p w;
  patch_keeps = λ o p type text w. refl;
}

abbrev machinery : Machinery (Unit {0}) String (List String)
machinery = record {
  objects = objects;
  client = client;
  decoders = record { decode = λ y. some y; decode_unstructured = λ y. ok (y, true) };
  render_template = λ name template vars. ok template;
  enhancer = λ objs meta w. (ok objs, w);
  health_view = λ o. ready_pod;
}

-- The server returns every instance with its plan finished.
abbrev settled : Instance → Instance
settled i = record i { spec = record i.spec { plan_execution = no_plan } }

abbrev instances : Instances (Unit {0}) (Unit {0}) (List String)
instances = record {
  render_template = λ name template vars. ok template;
  files = record {
    read_file = λ path. ok "";
    unmarshal = λ bytes. ok [];
    marshal = λ v. ok "";
    print = λ j. "";
  };
  set_owner_reference = λ i w. ok i;
  get = λ name namespace w. err not_there;
  create = λ i w. ((none, settled i), i.metadata.name ∷ w);
  patch = λ i spec w. ((none, settled i), w);
}

abbrev pipe_tools : PipeTools String (List String)
pipe_tools = record {
  paths = record { rel = λ base file. some file; base = λ file. file };
  env = record {
    decode_utf8 = λ line. some line;
    is_env_var_name = λ key. [];
    text_of = λ points. "";
    env_error_text = λ e. "";
  };
  unmarshal = λ s. err s;
  marshal = λ pod. ok "";
  marshal_artifact = λ a. ok "";
  as_pod = λ o. none;
  schedule = λ files. files;
  file_size = λ file pod w. ok 0;
  download_file = λ file pod w. ok [];
  size_text = λ n. "";
}

abbrev tools : Tools (Unit {0}) (Unit {0}) String (List String)
tools = record {
  now = λ w. length w;
  machinery = machinery;
  pipe_tools = pipe_tools;
  instances = instances;
}

abbrev task_metadata : TaskMetadata
task_metadata = record {
  engine = metadata;
  plan_name = "deploy";
  plan_uid = "a";
  phase_name = "first";
  step_name = "all";
  task_name = "install";
}

abbrev context : Context (Unit {0})
context = record {
  meta = task_metadata;
  templates = ("service.yaml", "zk-svc") ∷ [];
  parameters = [];
  pipes = [];
}

abbrev install : ApplyTask
install = record { name = "install"; resources = "service.yaml" ∷ [] }

abbrev uninstalling : DeleteTask
uninstalling = record { name = "uninstall"; resources = "service.yaml" ∷ [] }

abbrev child : KudoOperatorTask
child = record {
  name = "child";
  operator_name = "zookeeper";
  instance_name = "";
  app_version = "";
  operator_version = "1";
  parameter_file = "";
}

run_kudo_operator-Installed_example : Installed instances child context [] ("zk-zookeeper" ∷ [])
unfolding run_kudo_operator
run_kudo_operator-Installed_example =
    run_kudo_operator-Installed instances child context [] ("zk-zookeeper" ∷ []) refl
