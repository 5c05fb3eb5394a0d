-- ===== src/Samples/Texts.antt =====
-- A pipe pod, env files, an annotated object, and parameters on the command line.
use kudo.Prelude.{
  ℕ, zero, suc, ◌≡◌, refl, ap, ◌↔◌, ◌≢◌, String, true, false, List, [], ◌∷◌, ◌++◌, Option, some, ok,
  length, arith,
}
use kudo.Prelude.Maps.{lookup}
use kudo.Kube.Objects.{structured, Objects}
use kudo.Tasks.Tasker.{PipeFile}
use kudo.Tasks.EnvFile.{Bytes, EnvTools, split_lines, add_from_env_file}
use kudo.Tasks.PipePod.{PipePod, Paths}
use kudo.Tasks.ValidPod.{ValidPod}
use kudo.Tasks.Truncated.{add_from_env_file-truncates}
use kudo.Kudoctl.Params.{
  ParamFiles, parse_parameter, get_params_from_cmdline, get_params_from_files, get_parameter_map,
  text, scalar,
}
use kudo.Kudoctl.Parsed.{
  definition, has_equals, or_else, parse_parameter_iff, get_parameter_map-overrides,
}

abbrev paths : Paths
paths = record { rel = λ base file. some "cert?"; base = λ file. "cert?" }

abbrev certificate : PipeFile
certificate = record { file = "/tmp/cert?"; env_file = ""; kind = "Secret"; key = "cert" }

abbrev pod : PipePod
pod = record {
  name = "";
  namespace = "";
  annotations = [];
  containers = [];
  init_containers =
      record {
        name = "init";
        image = "busybox";
        command = [];
        args = [];
        volume_mounts = record { name = "shared"; mount_path = "/tmp" } ∷ [];
      }
      ∷ [];
  restart_policy = "";
  volumes = record { name = "shared"; has_empty_dir = true } ∷ [];
}

-- So many bytes in one line.
repeat : ℕ → Bytes
repeat zero = []
repeat (suc n) = b'x' ∷ repeat n

split_lines-repeat : (n : ℕ) → split_lines (repeat (suc n)) ≡ repeat (suc n) ∷ []
unfolding split_lines repeat
split_lines-repeat zero = refl
split_lines-repeat (suc n) = rw (split_lines-repeat n) refl

length-repeat : (n : ℕ) → length (repeat n) ≡ n
unfolding repeat
length-repeat zero = refl
length-repeat (suc n) = omega (arith, length-repeat n)

abbrev env_tools : EnvTools
env_tools = record {
  decode_utf8 = λ line. some line;
  is_env_var_name = λ key. [];
  text_of = λ points. "";
  env_error_text = λ e. "";
}

abbrev short_file : Bytes
short_file = b'A' ∷ b'=' ∷ b'1' ∷ 10 ∷ []

abbrev first_line : List Bytes
first_line = (b'A' ∷ b'=' ∷ b'1' ∷ []) ∷ []

add_from_env_file-truncates_example :
    add_from_env_file env_tools (short_file ++ repeat (suc 65535))
    ≡ add_from_env_file env_tools short_file
unfolding split_lines
add_from_env_file-truncates_example =
    add_from_env_file-truncates env_tools short_file (short_file ++ repeat (suc 65535)) first_line
      [] (repeat (suc 65535)) refl (ap (λ ls. first_line ++ ls) (split_lines-repeat 65535))
      (omega (arith, length-repeat (suc 65535)))

-- An object that is its annotations.
abbrev annotated_objects : Objects (Option (List (String × String)))
annotated_objects = record {
  gvk = λ o. record { group = ""; version = "v1"; kind = "Pod" };
  set_gvk = λ g o. o;
  go_type = λ o. structured;
  object_key = λ o. ok (record { namespace = ""; name = "" });
  annotations = λ o. ok o;
  set_annotations = λ m o. ok (some m);
  marshal = λ o. ok "";
  encode = λ o. ok "{}";
  is_json_map = λ s. true;
  json_merge_patch = λ a b c. ok b;
  has_patch_meta = λ o. ok tt;
  strategic_patch = λ o a b c. ok b;
}

abbrev name : String
name = "disk"

abbrev size : String
size = "8"

parse_parameter_iff_example :
    (parse_parameter "disk=8" ≡ ok (name, size))
    ↔ (("disk=8" ≡ definition name size) × (has_equals name ≡ false) × (name ≢ "") × (size ≢ ""))
parse_parameter_iff_example = parse_parameter_iff "disk=8" name size

-- A file that sets both parameters of Data.
abbrev files : ParamFiles (Unit {0})
files = record {
  read_file = λ path. ok "";
  unmarshal = λ bytes. ok (("memory", text "1") ∷ ("disk", scalar "4") ∷ []);
  marshal = λ v. ok "";
  print = λ j. "";
}

get_parameter_map-overrides_example :
    some "8"
    ≡ or_else
        (lookup "disk" (get_params_from_cmdline ("disk=8" ∷ [])).parameters)
        (lookup "disk" (get_params_from_files files ("params.yaml" ∷ [])).parameters)
unfolding lookup get_parameter_map
get_parameter_map-overrides_example =
    get_parameter_map-overrides files ("disk=8" ∷ []) ("params.yaml" ∷ [])
      (("memory", "1") ∷ ("disk", "8") ∷ []) "disk" refl
