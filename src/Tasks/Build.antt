-- ===== src/Tasks/Build.antt =====
-- pkg/engine/task/task.go: `Build` and the validation of each kind of task.
use Prim.Native.Char.{code}
use kudo.Prelude.{
  ℕ, String, Bool, true, false, not, ◌&&◌, ◌||◌, List, [], ◌∷◌, Result, ok, err, ◌>>=◌, ◌==◌, eqb,
  ltb, if◌then◌else◌, is_empty, concat,
}
use kudo.Api.Operator.{Task, PipeSpec}
use kudo.Tasks.Tasker.{
  PipeFile, ApplyTask, DeleteTask, Tasker, apply, delete, dummy, pipe, toggle, kudo_operator,
}

abbrev leb : ℕ → ℕ → Bool
leb a b = not (ltb b a)

-- a-z, A-Z, 0-9, _ and - are allowed.
unfoldable pub is_key_char : ℕ → Bool
is_key_char c =
    (leb b'a' c && leb c b'z')
    || (leb b'A' c && leb c b'Z')
    || (leb b'0' c && leb c b'9')
    || eqb c b'_'
    || eqb c b'-'

unfoldable pub all_key_chars : String → Bool
unfolding is_key_char
all_key_chars String.[] = true
all_key_chars (String.◌∷◌ c rest) = is_key_char (code c) && all_key_chars rest

-- The regular expression `^[a-zA-Z0-9_\-]+$`.
unfoldable pub pipe_file_key_re : String → Bool
unfolding all_key_chars
pipe_file_key_re s = not (s == "") && all_key_chars s

-- A `PipeFile` as `%v` prints it.
pub show_pipe_file : PipeFile → String
show_pipe_file pf =
    concat ("{" ∷ pf.file ∷ " " ∷ pf.env_file ∷ " " ∷ pf.kind ∷ " " ∷ pf.key ∷ "}" ∷ [])

-- `fl == efl` for two booleans.
abbrev pub same : Bool → Bool → Bool
same true b = b
same false b = not b

unfoldable pub valid_pipe_file : PipeFile → Result String (Unit {0})
unfolding pipe_file_key_re
valid_pipe_file pf =
    if same (not (pf.file == "")) (not (pf.env_file == ""))
    then err (
        concat (
          "task validation error: pipe file "
          ∷ show_pipe_file pf
          ∷ " must have either 'file' or 'envFile' field set but not both"
          ∷ []))
    else if not (pf.kind == "Secret") && not (pf.kind == "ConfigMap")
    then err (
        concat (
          "task validation error: invalid pipe kind (must be Secret or ConfigMap): "
          ∷ show_pipe_file pf
          ∷ []))
    else if not (pipe_file_key_re pf.key)
    then err (
        concat (
          "task validation error: invalid pipe key (only letters, numbers and _ and - are allowed): "
          ∷ show_pipe_file pf
          ∷ []))
    else ok tt

abbrev pub to_pipe_file : PipeSpec → PipeFile
to_pipe_file pp = record { file = pp.file; env_file = pp.env_file; kind = pp.kind; key = pp.key }

-- The loop of `newPipe`: the first invalid file ends it.
unfoldable pub pipe_files_of : List PipeSpec → Result String (List PipeFile)
unfolding valid_pipe_file
pipe_files_of [] = ok []
pipe_files_of (pp ∷ rest) = do
  _ ← valid_pipe_file (to_pipe_file pp)
  files ← pipe_files_of rest
  ok (to_pipe_file pp ∷ files)

-- `newApply` and `newDelete` before the task becomes a `Tasker`: the toggle task calls them too.
unfoldable pub checked_apply : String → List String → Result String ApplyTask
checked_apply name resources =
    if is_empty resources
    then err (
        concat (
          "task validation error: apply task '" ∷ name
          ∷ "' has an empty resource list. if that's what you need, use a Dummy task instead" ∷ []))
    else ok (record { name = name; resources = resources })

unfoldable pub checked_delete : String → List String → Result String DeleteTask
checked_delete name resources =
    if is_empty resources
    then err (
        concat (
          "task validation error: delete task '" ∷ name
          ∷ "' has an empty resource list. if that's what you need, use a Dummy task instead" ∷ []))
    else ok (record { name = name; resources = resources })

unfoldable pub new_apply : Task → Result String Tasker
unfolding checked_apply
new_apply task = checked_apply task.name task.spec.resources >>= λ t. ok (apply t)

unfoldable pub new_delete : Task → Result String Tasker
unfolding checked_delete
new_delete task = checked_delete task.name task.spec.resources >>= λ t. ok (delete t)

unfoldable pub new_dummy : Task → Result String Tasker
new_dummy task = ok (
    dummy (record {
      name = task.name;
      want_err = task.spec.want_err;
      fatal = task.spec.fatal;
      done = task.spec.done;
    }))

unfoldable pub new_pipe : Task → Result String Tasker
unfolding pipe_files_of
new_pipe task =
    if is_empty task.spec.pipe
    then err "task validation error: pipe task has an empty pipe files list"
    else pipe_files_of task.spec.pipe >>= λ files.
        ok (pipe (record { name = task.name; pod = task.spec.pod; pipe_files = files }))

unfoldable pub new_toggle : Task → Result String Tasker
new_toggle task =
    if is_empty task.spec.resources
    then err
        "task validation error: toggle task has an empty resource list. if that's what you need, use a Dummy task instead"
    else if task.spec.parameter == ""
    then err "task validation error: Missing parameter to evaluate the Toggle Task"
    else ok (
        toggle (record {
          name = task.name;
          resources = task.spec.resources;
          parameter = task.spec.parameter;
        }))

unfoldable pub new_kudo_operator : Task → Result String Tasker
new_kudo_operator task =
    if task.spec.package_name == ""
    then err (
        concat (
          "task validation error: kudo operator task '" ∷ task.name ∷ "' has an empty package name"
          ∷ []))
    else if task.spec.operator_version == ""
    then err (
        concat (
          "task validation error: kudo operator task '" ∷ task.name
          ∷ "' has an empty operatorVersion" ∷ []))
    else ok (
        kudo_operator (record {
          name = task.name;
          operator_name = task.spec.package_name;
          instance_name = task.spec.instance_name;
          app_version = task.spec.app_version;
          operator_version = task.spec.operator_version;
          parameter_file = task.spec.parameter_file;
        }))

unfoldable pub build : Task → Result String Tasker
unfolding new_apply new_delete new_dummy new_pipe new_toggle new_kudo_operator
build task =
    if task.kind == "Apply"
    then new_apply task
    else if task.kind == "Delete"
    then new_delete task
    else if task.kind == "Dummy"
    then new_dummy task
    else if task.kind == "Pipe"
    then new_pipe task
    else if task.kind == "Toggle"
    then new_toggle task
    else if task.kind == "KudoOperator"
    then new_kudo_operator task
    else err (concat ("unknown task kind " ∷ task.kind ∷ []))
