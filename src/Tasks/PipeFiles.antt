-- ===== src/Tasks/PipeFiles.antt =====
-- pkg/engine/task/task_pipe.go: the files that are copied out of the pod, and the artifacts that are
-- made of them. Commands in the pod (podexec) are parameters.

use kudo.Prelude.{
  ℕ, suc, String, Bool, true, false, not, ◌&&◌, ◌||◌, List, [], ◌∷◌, ◌++◌, Option, none, some,
  Result, ok, err, concat, ◌==◌, eqb, ltb, is_empty, length, if◌then◌else◌,
}
use kudo.Prelude
use kudo.Prelude.Maps.{lookup, insert}
use kudo.Engine.{Error, plain_error}
use kudo.Kube.Act.{map_error}
use kudo.Tasks.Tasker.{PipeFile}
use kudo.Tasks.Run.{TaskMetadata, fatal_execution_error}
use kudo.Tasks.Names.{pipe_artifact_name}
use kudo.Tasks.EnvFile.{Bytes, EnvTools, add_from_env_file}
use kudo.Tasks.PipePod.{file_source, PipePod, Paths}

abbrev pub pipe_task_error : String
pipe_task_error = "PipeTaskError"

abbrev pub max_pipe_file_size : ℕ
max_pipe_file_size = 1048576

-- A secret or a config map. `binary` is the data of a secret and the binary data of a config map.
pub record Artifact : Type 0 where
  pub kind : String
  pub name : String
  pub binary : List (String × Bytes)
  pub text : List (String × Bytes)

-- An error of podexec. `command_failed` is `podexec.HasCommandFailed`.
pub record ExecError : Type 0 where
  pub text : String
  pub command_failed : Bool

-- What only a pipe task calls. `file_size` and `download_file` run a command in the waiting container.
-- The downloads are goroutines: `schedule` is the order in which they end.
pub record PipeTools (O W : Type 0) : Type 0 where
  pub paths : Paths
  pub env : EnvTools
  pub unmarshal : String → Result String PipePod
  pub marshal : PipePod → Result String String
  pub marshal_artifact : Artifact → Result String String
  pub as_pod : O → Option PipePod
  pub schedule : List PipeFile → List PipeFile
  pub file_size : String → PipePod → W → Result ExecError ℕ
  pub download_file : String → PipePod → W → Result ExecError Bytes
  pub size_text : ℕ → String

-- The files that were downloaded, by their paths.
abbrev pub MemFs : Type 0
MemFs = List (String × Bytes)

module _ {O W : Type 0} (t : PipeTools O W) (meta : TaskMetadata) where
  abbrev exec_error : ExecError → Error
  exec_error e =
      if e.command_failed
      then fatal_execution_error e.text pipe_task_error meta
      else plain_error e.text

  abbrev downloaded : PipeFile → Result ExecError Bytes → MemFs → Option Error × MemFs
  downloaded f (err e) fs = (some (exec_error e), fs)
  downloaded f (ok bytes) fs = (none, insert (file_source f) bytes fs)

  abbrev sized : PipeFile → PipePod → W → Result ExecError ℕ → MemFs → Option Error × MemFs
  sized f pod w (err e) fs = (some (exec_error e), fs)
  sized f pod w (ok size) fs =
      if ltb max_pipe_file_size size
      then (
        some (
            fatal_execution_error
              (concat (
                "pipe file "
                ∷ file_source f
                ∷ " size "
                ∷ t.size_text size
                ∷ " exceeds maximum file size of 1048576 bytes"
                ∷ []))
              pipe_task_error meta),
        fs,
      )
      else downloaded f (t.download_file (file_source f) pod w) fs

  -- One goroutine.
  unfoldable pub copy_file : PipeFile → PipePod → W → MemFs → Option Error × MemFs
  unfolding fatal_execution_error
  copy_file f pod w fs = sized f pod w (t.file_size (file_source f) pod w) fs

  abbrev pub first_error : Option Error → Option Error → Option Error
  first_error (some e) later = some e
  first_error none later = later

  -- All of them, in the order in which they end: `Wait` returns the first error.
  unfoldable pub copy_each : List PipeFile → PipePod → W → MemFs → Option Error × MemFs
  unfolding copy_file insert
  copy_each [] pod w fs = (none, fs)
  copy_each (f ∷ rest) pod w fs =
      let (e, fs') = copy_file f pod w fs in
      let (later, last) = copy_each rest pod w fs' in (first_error e later, last)

  abbrev pub copy_files : List PipeFile → PipePod → W → Option Error × MemFs
  copy_files ff pod w = copy_each (t.schedule ff) pod w []

  -- The map entry of a file, and those of an env file.
  abbrev file_entry : PipeFile → Bytes → List (String × Bytes)
  file_entry pf content =
      if pf.file == "" then [] else (t.paths.base (file_source pf), content) ∷ []

  unfoldable pub add_pairs : List (List ℕ × List ℕ) → List (String × Bytes) → List (String × Bytes)
  unfolding insert
  add_pairs [] entries = entries
  add_pairs ((key, value) ∷ rest) entries =
      add_pairs rest (insert (t.env.text_of key) value entries)

  abbrev env_pairs : PipeFile → Bytes → Result String (List (List ℕ × List ℕ))
  env_pairs pf content =
      if pf.env_file == ""
      then ok []
      else map_error
          (λ e. concat (
            "failed to read env var file \""
            ∷ file_source pf
            ∷ "\": "
            ∷ t.env.env_error_text e
            ∷ []))
          (add_from_env_file t.env content)

  abbrev marshalled_artifact : PipeFile → String → Artifact → Result String String
  marshalled_artifact pf kind a =
      map_error
        (λ (e : String).
          concat ("failed to marshal pipe " ∷ kind ∷ " for pipe file " ∷ pf.file ∷ ": " ∷ e ∷ []))
        (t.marshal_artifact a)

  unfoldable pub create_secret : PipeFile → Bytes → Result String String
  unfolding add_from_env_file add_pairs pipe_artifact_name
  create_secret pf content = Prelude.◌>>=◌ (env_pairs pf content) λ pairs.
      marshalled_artifact pf "secret" (record {
        kind = "Secret";
        name = pipe_artifact_name meta pf.key;
        binary = add_pairs pairs (file_entry pf content);
        text = [];
      })

  unfoldable pub create_config_map : PipeFile → Bytes → Result String String
  unfolding add_from_env_file add_pairs pipe_artifact_name
  create_config_map pf content = Prelude.◌>>=◌ (env_pairs pf content) λ pairs.
      marshalled_artifact pf "configMap" (record {
        kind = "ConfigMap";
        name = pipe_artifact_name meta pf.key;
        binary = file_entry pf content;
        text = add_pairs pairs [];
      })

  abbrev artifact_of : PipeFile → Option Bytes → Result String String
  artifact_of pf none = err (concat ("error opening pipe file " ∷ file_source pf ∷ []))
  artifact_of pf (some content) =
      if pf.kind == "Secret"
      then create_secret pf content
      else if pf.kind == "ConfigMap"
      then create_config_map pf content
      else err (concat ("unknown pipe file kind: " ∷ pf.kind ∷ []))

  unfoldable pub create_artifacts :
      MemFs → List PipeFile → List (String × String) → Result String (List (String × String))
  unfolding create_secret create_config_map lookup insert
  create_artifacts fs [] artifacts = ok artifacts
  create_artifacts fs (pf ∷ rest) artifacts = elim (artifact_of pf (lookup (file_source pf) fs)) [
    | err e ↦ err e
    | ok art ↦ create_artifacts fs rest (insert pf.key art artifacts)
  ]
