-- ===== src/Tasks/PipePod.antt =====
-- pkg/engine/task/task_pipe.go: the pod of a pipe task and the checks of it. Go's path functions
-- are parameters.
use Prim.Native.Char.{code}
use kudo.Prelude.{
  ℕ, suc, String, Bool, false, not, ◌&&◌, ◌||◌, List, [], ◌∷◌, Option, none, some, Result, ok, err,
  concat, ◌==◌, eqb, ltb, is_empty, length, if◌then◌else◌,
}
use kudo.Prelude.Maps.{insert}
use kudo.Tasks.Tasker.{PipeFile}

abbrev pub file_source : PipeFile → String
file_source pf = if pf.file == "" then pf.env_file else pf.file

-- `corev1.Pod` and its parts: the fields that the code reads and writes.
pub record VolumeMount : Type 0 where
  pub name : String
  pub mount_path : String

pub record Volume : Type 0 where
  pub name : String
  pub has_empty_dir : Bool

pub record Container : Type 0 where
  pub name : String
  pub image : String
  pub command : List String
  pub args : List String
  pub volume_mounts : List VolumeMount

pub record PipePod : Type 0 where
  pub name : String
  pub namespace : String
  pub annotations : List (String × String)
  pub containers : List Container
  pub init_containers : List Container
  pub restart_policy : String
  pub volumes : List Volume

-- path/filepath, and sigs.k8s.io/yaml.
pub record Paths : Type 0 where
  pub rel : String → String → Option String
  pub base : String → String

-- `strings.HasPrefix(rp, ".")`
abbrev starts_with_dot : String → Bool
starts_with_dot String.[] = false
starts_with_dot (String.◌∷◌ c rest) = eqb (code c) b'.'

abbrev pub relative_to : Option String → Bool
relative_to none = false
relative_to (some rp) = not (starts_with_dot rp)

-- The class of the regular expression, and a match anywhere in the text: it has no anchors.
abbrev pub is_name_char : ℕ → Bool
is_name_char c =
    eqb c b'-'
    || eqb c b'.'
    || eqb c b'_'
    || (not (ltb c b'a') && ltb c (suc b'z'))
    || (not (ltb c b'A') && ltb c (suc b'Z'))
    || (not (ltb c b'0') && ltb c (suc b'9'))

unfoldable pub pipe_file_re : String → Bool
pipe_file_re String.[] = false
pipe_file_re (String.◌∷◌ c rest) = is_name_char (code c) || pipe_file_re rest

unfoldable pub empty_dirs : List Volume → List String
empty_dirs [] = []
empty_dirs (v ∷ rest) = if v.has_empty_dir then v.name ∷ empty_dirs rest else empty_dirs rest

abbrev pub only_volume : List String → Result String String
only_volume (v ∷ []) = ok v
only_volume _ =
    err "pipe pod should define one emptyDir shared volume where the artifacts are temporary stored"

unfoldable pub shared_volume_name : PipePod → Result String String
unfolding empty_dirs
shared_volume_name pod = only_volume (empty_dirs pod.volumes)

unfoldable pub find_mount : String → List VolumeMount → Result String String
find_mount vol_name [] =
    err (concat ("pipe pod should save generated artifacts in " ∷ vol_name ∷ []))
find_mount vol_name (vm ∷ rest) =
    if vm.name == vol_name then ok vm.mount_path else find_mount vol_name rest

-- `InitContainers[0]` is there: both callers have checked it.
abbrev pub mounts_of : List Container → List VolumeMount
mounts_of [] = []
mounts_of (c ∷ rest) = c.volume_mounts

abbrev pub shared_mount_path : PipePod → String → Result String String
shared_mount_path pod vol_name = find_mount vol_name (mounts_of pod.init_containers)

module _ (paths : Paths) where
  abbrev pub is_relative : String → String → Bool
  is_relative base file = relative_to (paths.rel base file)

  -- The loop over the pipe files.
  unfoldable pub validate_files : String → List PipeFile → Option String
  unfolding pipe_file_re
  validate_files mount_path [] = none
  validate_files mount_path (f ∷ rest) =
      let later = validate_files mount_path rest in
      let file_name = paths.base (file_source f) in
      if not (is_relative mount_path (file_source f))
      then some (
          concat (
            "pipe file "
            ∷ file_source f
            ∷ " should be a child of "
            ∷ mount_path
            ∷ " mount path"
            ∷ []))
      else if not (pipe_file_re file_name)
      then some (
          concat (
            "pipe file name " ∷ file_name
            ∷ " should only contain alphanumeric characters, '.', '_' and '-'" ∷ []))
      else later

  abbrev pub with_mount : List PipeFile → Result String String → Option String
  with_mount ff (err e) = some e
  with_mount ff (ok mount_path) = validate_files mount_path ff

  abbrev pub with_volume : PipePod → Result String String → Result String String
  with_volume pod (err e) = err e
  with_volume pod (ok vol_name) = shared_mount_path pod vol_name

  abbrev pub validate_volumes : PipePod → List PipeFile → Option String
  validate_volumes pod ff = with_mount ff (with_volume pod (shared_volume_name pod))

  -- The error that `validate` returns.
  unfoldable pub validate : PipePod → List PipeFile → Option String
  unfolding shared_volume_name find_mount validate_files
  validate pod ff =
      if not (is_empty pod.containers)
      then some
          "pipe pod should not have containers. pipe artifacts are generated in the init container"
      else if not (eqb (length pod.init_containers) 1)
      then some "pipe pod should define one init container that generated artifacts defined"
      else if not (pod.restart_policy == "") && not (pod.restart_policy == "OnFailure")
      then some "pipe pod RestartPolicy should be OnFailure"
      else validate_volumes pod ff

abbrev or_blank : Result String String → String
or_blank (ok s) = s
or_blank (err e) = ""

-- The container that keeps the pod alive.
abbrev waiter : String → String → Container
waiter volume_name mount_path = record {
  name = "waiter";
  image = "busybox";
  command = "/bin/sh" ∷ "-c" ∷ [];
  args = "sleep infinity" ∷ [];
  volume_mounts = record { name = volume_name; mount_path = mount_path } ∷ [];
}

unfoldable pub pipe_pod : PipePod → String → PipePod
unfolding shared_volume_name find_mount insert
pipe_pod pod name =
    let volume_name = or_blank (shared_volume_name pod) in
    let mount_path = or_blank (shared_mount_path pod volume_name) in
    record {
      name = name;
      namespace = pod.namespace;
      annotations = insert "kudo.dev/pipepod" "true" pod.annotations;
      containers = waiter volume_name mount_path ∷ [];
      init_containers = pod.init_containers;
      restart_policy = "OnFailure";
      volumes = pod.volumes;
    }
