-- ===== src/Tasks/Built.antt =====
-- What a task that `Build` returned can be relied on to have.
use kudo.Prelude.{
  ◌≡◌, ◌≢◌, refl, ap, subst, ◌∙◌, map, ◌⊎◌, inl, inr, String, Bool, true, false, not, ◌&&◌, List,
  [], ◌∷◌, some, ok, ◌>>=◌, >>=-eq-ok, ◌==◌, if◌then◌else◌, is_empty, arith, eq_iff, Bool-cases,
  All,
}
use kudo.Prelude.Maps.{lookup}
use kudo.Api.Operator.{Task, PipeSpec}
use kudo.Tasks.Tasker.{PipeFile, PipeTask, ToggleTask, apply, delete, pipe, toggle}
use kudo.Tasks.Build.{
  pipe_file_key_re, same, valid_pipe_file, to_pipe_file, pipe_files_of, checked_apply,
  checked_delete, new_pipe, new_toggle, new_dummy, new_kudo_operator, build,
}
use kudo.Tasks.Run.{
  text, Context, Cluster, toggle_value, Delegate, apply_of, delete_of, run_delegate, parse_bool,
  delegate_of, delegate_task, run_toggle, run,
}

-- A pipe file comes from a file or from an environment file, and not from both, it becomes a secret
-- or a config map, and its key is allowed.
abbrev pub ValidFile : PipeFile → Type 0
ValidFile pf =
    (((pf.file ≢ "") × (pf.env_file ≡ "")) ⊎ ((pf.file ≡ "") × (pf.env_file ≢ "")))
    × ((pf.kind ≡ "Secret") ⊎ (pf.kind ≡ "ConfigMap"))
    × (pipe_file_key_re pf.key ≡ true)

differ : (s t : String) → (s == t) ≡ false → s ≢ t
differ s t h e = cc ((eq_iff s t).1 e, h)

-- One of two texts is empty, and not both.
one_empty :
    (s t : String)
    → same (not (s == "")) (not (t == "")) ≡ false
    → ((s ≢ "") × (t ≡ "")) ⊎ ((s ≡ "") × (t ≢ ""))
one_empty s t h = elim (Bool-cases (s == "")) [
  | inl a ↦ inr ((eq_iff s "").0 a, differ t "" (ground (arith, a, h)))
  | inr a ↦ inl (differ s "" a, (eq_iff t "").0 (ground (arith, a, h)))
]

either : (s t u : String) → not (s == t) && not (s == u) ≡ false → (s ≡ t) ⊎ (s ≡ u)
either s t u h = elim (Bool-cases (s == t)) [
  | inl a ↦ inl ((eq_iff s t).0 a)
  | inr a ↦ inr ((eq_iff s u).0 (ground (arith, a, h)))
]

valid_pipe_file-ValidFile :
    (pf : PipeFile) (u : Unit {0}) → valid_pipe_file pf ≡ ok u → ValidFile pf
unfolding valid_pipe_file
valid_pipe_file-ValidFile pf u h = (
  one_empty pf.file pf.env_file (ground arith),
  either pf.kind "Secret" "ConfigMap" (ground arith),
  ground arith,
)

pipe_files_of-ValidFile :
    (specs : List PipeSpec) (files : List PipeFile)
    → pipe_files_of specs ≡ ok files
    → All ValidFile files × (files ≡ map to_pipe_file specs)
unfolding pipe_files_of
pipe_files_of-ValidFile [] files h =
    (subst (All ValidFile) {x = []} (ground (arith, h)) tt, ground (arith, h))
pipe_files_of-ValidFile (pp ∷ rest) files h =
    let (u, a, b) = >>=-eq-ok (valid_pipe_file (to_pipe_file pp)) _ h in
    let (more, c, d) = >>=-eq-ok (pipe_files_of rest) _ b in
    let (valid, e) = pipe_files_of-ValidFile rest more c in
    let f = valid_pipe_file-ValidFile (to_pipe_file pp) u a in
    (
      subst (All ValidFile) {x = to_pipe_file pp ∷ more} (ground (arith, d)) (f, valid),
      ground (arith, d, e),
    )

build_pipe : (t : Task) (p : PipeTask) → build t ≡ ok (pipe p) → new_pipe t ≡ ok (pipe p)
unfolding build new_toggle new_dummy new_kudo_operator
build_pipe t p h = ground (arith, h)

build_toggle :
    (t : Task) (tg : ToggleTask) → build t ≡ ok (toggle tg) → new_toggle t ≡ ok (toggle tg)
unfolding build new_pipe new_dummy new_kudo_operator
build_toggle t tg h = ground (arith, h)

new_pipe_lem :
    (t : Task) (p : PipeTask)
    → new_pipe t ≡ ok (pipe p)
    → (pipe_files_of t.spec.pipe ≡ ok p.pipe_files) × (is_empty t.spec.pipe ≡ false)
unfolding new_pipe
new_pipe_lem t p h = (ground (arith, h), ground (arith, h))

new_toggle_lem :
    (t : Task) (tg : ToggleTask)
    → new_toggle t ≡ ok (toggle tg)
    → (is_empty t.spec.resources ≡ false)
      × (tg.name ≡ t.name)
      × (tg.resources ≡ t.spec.resources)
      × (tg.parameter ≡ t.spec.parameter)
unfolding new_toggle
new_toggle_lem t tg h = (ground (arith, h), ground (arith, h), ground (arith, h), ground (arith, h))

is_empty-map : (specs : List PipeSpec) → is_empty (map to_pipe_file specs) ≡ is_empty specs
is_empty-map [] = refl
is_empty-map (pp ∷ rest) = refl

-- The files of a pipe task that `Build` returns are those of the task's spec, in their order, and
-- there is at least one. Each is valid.
pub build-ValidFile :
    (t : Task) (p : PipeTask)
    → build t ≡ ok (pipe p)
    → (p.pipe_files ≡ map to_pipe_file t.spec.pipe)
      × (is_empty p.pipe_files ≡ false)
      × All ValidFile p.pipe_files
build-ValidFile t p h =
    let (files, some_spec) = new_pipe_lem t p (build_pipe t p h) in
    let (valid, same_files) = pipe_files_of-ValidFile t.spec.pipe p.pipe_files files in
    (same_files, ap is_empty same_files ∙ is_empty-map t.spec.pipe ∙ some_spec, valid)

-- The delegate of a toggle task that has some resource.
abbrev chosen : ToggleTask → Bool → Delegate
chosen t true = apply_of (record { name = t.name; resources = t.resources })
chosen t false = delete_of (record { name = t.name; resources = t.resources })

delegate_of-chosen :
    (t : ToggleTask) (b : Bool) → is_empty t.resources ≡ false → delegate_of t b ≡ ok (chosen t b)
unfolding delegate_of checked_apply checked_delete
delegate_of-chosen t true h = rw h refl
delegate_of-chosen t false h = rw h refl

delegate_task-chosen :
    {Y : Type 0} (t : ToggleTask) (ctx : Context Y) (s : String) (b : Bool)
    → lookup t.parameter ctx.parameters ≡ some (text s)
    → parse_bool s ≡ some b
    → is_empty t.resources ≡ false
    → delegate_task t ctx ≡ ok (chosen t b)
unfolding delegate_task
delegate_task-chosen t ctx s b found parsed h =
    rw (found, delegate_task)
      (ap (λ r. toggle_value t.parameter s r >>= delegate_of t) parsed ∙ delegate_of-chosen t b h)

module _ {Y W : Type 0} (cluster : Cluster Y W) where
  -- A toggle task that `Build` returns applies its resources, or deletes them, as its parameter says,
  -- if the parameter has a text that is a Boolean.
  pub build-toggle :
      (t : Task) (tg : ToggleTask) (ctx : Context Y) (w : W) (s : String) (enabled : Bool)
      → build t ≡ ok (toggle tg)
      → lookup t.spec.parameter ctx.parameters ≡ some (text s)
      → parse_bool s ≡ some enabled
      → run cluster (toggle tg) ctx w ≡ (
          if enabled
          then run cluster (apply (record { name = t.name; resources = t.spec.resources })) ctx w
          else run cluster (delete (record { name = t.name; resources = t.spec.resources })) ctx w)
  unfolding run run_toggle
  build-toggle t tg ctx w s enabled h found parsed =
      let (some_resource, same_name, same_resources, same_parameter) =
        new_toggle_lem t tg (build_toggle t tg h) in
      let e = delegate_task-chosen tg ctx s enabled (ground arith) parsed (ground arith) in
      rw (e, run_toggle) (by_switch enabled same_name same_resources)
    where
      by_switch :
          (b : Bool)
          → tg.name ≡ t.name
          → tg.resources ≡ t.spec.resources
          → run_delegate cluster (chosen tg b) ctx w ≡ (
              if b
              then run cluster
                  (apply (record { name = t.name; resources = t.spec.resources }))
                  ctx
                  w
              else run cluster
                  (delete (record { name = t.name; resources = t.spec.resources }))
                  ctx
                  w)
      by_switch true f g = rw (f, g) refl
      by_switch false f g = rw (f, g) refl
