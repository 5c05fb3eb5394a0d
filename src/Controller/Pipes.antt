-- ===== src/Controller/Pipes.antt =====
-- The names of the pipes that a plan's templates are rendered with.
use kudo.Prelude.{
  ◌≡◌, refl, sym, ap, subst, ◌∙◌, String, false, List, [], ◌∷◌, ◌++◌, append_assoc, append-nil, ok,
  >>=-eq-ok, arith, map, contains, inl, inr, Bool-cases,
}
use kudo.Prelude.Maps.{has_key, insert}
use kudo.Libraries.{IsDistinct}
use kudo.Api.Operator.{PipeSpec, Task, Step, Phase, Plan}
use kudo.Engine.{Metadata}
use kudo.Tasks.Run.{TaskMetadata}
use kudo.Workflow.Loop.{find_task}
use kudo.Controller.Prepare.{
  add_pipes, pipes_of, pipe_metadata, add_task_pipes, add_step_pipes, add_phase_pipes, pipes_map,
}
use kudo.Tasks.Names.{pipe_artifact_name}
use kudo.Dependencies.Names.{IsDistinct-append}

abbrev pub keys : List (String × String) → List String
keys = map (λ (kv : String × String). kv.0)

-- The keys of the pipes of a plan, in order: those of each task of each step of each phase.
abbrev pub pipe_keys : List PipeSpec → List String
pipe_keys = map (λ p. p.key)

abbrev pub task_keys : List Task → List String → List String
task_keys tasks [] = []
task_keys tasks (tn ∷ rest) = pipe_keys (pipes_of (find_task tn tasks)) ++ task_keys tasks rest

abbrev pub step_keys : List Task → List Step → List String
step_keys tasks [] = []
step_keys tasks (st ∷ rest) = task_keys tasks st.tasks ++ step_keys tasks rest

abbrev pub phase_keys : List Task → List Phase → List String
phase_keys tasks [] = []
phase_keys tasks (ph ∷ rest) = step_keys tasks ph.steps ++ phase_keys tasks rest

-- The map has the keys that it had and the new ones, and none of them twice.
record Extends (before after : List (String × String)) (added : List String) : Type 0 where
  pub distinct : IsDistinct (keys after)
  pub all : keys after ≡ keys before ++ added

contains-keys : (key : String) (m : List (String × String)) → contains key (keys m) ≡ has_key key m
unfolding contains has_key
contains-keys key [] = refl
contains-keys key ((k, v) ∷ m) = ground (arith, contains-keys key m)

keys-insert :
    (key v : String) (m : List (String × String))
    → has_key key m ≡ false
    → keys (insert key v m) ≡ keys m ++ key ∷ []
unfolding insert has_key
keys-insert key v [] h = refl
keys-insert key v ((k, w) ∷ m) h = ground (arith, h, keys-insert key v m)

Extends-trans :
    (a b c : List (String × String)) (xs ys : List String)
    → Extends a b xs
    → Extends b c ys
    → Extends a c (xs ++ ys)
Extends-trans a b c xs ys h k = record {
  distinct = k.distinct;
  all = k.all ∙ ap (λ zs. zs ++ ys) h.all ∙ append_assoc (keys a) xs ys;
}

Extends-refl : (a : List (String × String)) → IsDistinct (keys a) → Extends a a []
Extends-refl a h = record { distinct = h; all = sym (append-nil (keys a)) }

add_pipes-Extends :
    (meta : TaskMetadata) (ps : List PipeSpec) (before after : List (String × String))
    → IsDistinct (keys before)
    → add_pipes meta ps before ≡ ok after
    → Extends before after (pipe_keys ps)
unfolding add_pipes
add_pipes-Extends meta [] before after h done =
    subst (λ m. Extends before m []) (ground (arith, done)) (Extends-refl before h)
add_pipes-Extends meta (p ∷ rest) before after h done = elim (Bool-cases (has_key p.key before)) [
  | inl e ↦ cc (rw (e, add_pipes) at done)
  | inr e ↦
      let next = insert p.key (pipe_artifact_name meta p.key) before in
      let same = keys-insert p.key (pipe_artifact_name meta p.key) before e in
      let new =
        subst IsDistinct (sym same)
          (IsDistinct-append (keys before) p.key h (contains-keys p.key before ∙ e)) in
      Extends-trans before next after (p.key ∷ []) (pipe_keys rest)
        (record { distinct = new; all = same })
        (add_pipes-Extends meta rest next after new (rw (e, add_pipes) at done))
]

module _ (plan_name : String) (tasks : List Task) (emeta : Metadata) where
  add_task_pipes-Extends :
      (ph : Phase) (st : Step) (tns : List String) (before after : List (String × String))
      → IsDistinct (keys before)
      → add_task_pipes plan_name tasks emeta ph st tns before ≡ ok after
      → Extends before after (task_keys tasks tns)
  unfolding add_task_pipes
  add_task_pipes-Extends ph st [] before after h done =
      subst (λ m. Extends before m []) (ground (arith, done)) (Extends-refl before h)
  add_task_pipes-Extends ph st (tn ∷ rest) before after h done =
      let (m, a, b) =
        >>=-eq-ok
          (add_pipes (pipe_metadata plan_name tasks emeta ph st tn) (pipes_of (find_task tn tasks))
            before)
          _ done in
      let first = add_pipes-Extends _ _ before m h a in
      Extends-trans before m after _ _ first
        (add_task_pipes-Extends ph st rest m after first.distinct b)

  add_step_pipes-Extends :
      (ph : Phase) (steps : List Step) (before after : List (String × String))
      → IsDistinct (keys before)
      → add_step_pipes plan_name tasks emeta ph steps before ≡ ok after
      → Extends before after (step_keys tasks steps)
  unfolding add_step_pipes
  add_step_pipes-Extends ph [] before after h done =
      subst (λ m. Extends before m []) (ground (arith, done)) (Extends-refl before h)
  add_step_pipes-Extends ph (st ∷ rest) before after h done =
      let (m, a, b) =
        >>=-eq-ok (add_task_pipes plan_name tasks emeta ph st st.tasks before) _ done in
      let first = add_task_pipes-Extends ph st st.tasks before m h a in
      Extends-trans before m after _ _ first
        (add_step_pipes-Extends ph rest m after first.distinct b)

  add_phase_pipes-Extends :
      (phases : List Phase) (before after : List (String × String))
      → IsDistinct (keys before)
      → add_phase_pipes plan_name tasks emeta phases before ≡ ok after
      → Extends before after (phase_keys tasks phases)
  unfolding add_phase_pipes
  add_phase_pipes-Extends [] before after h done =
      subst (λ m. Extends before m []) (ground (arith, done)) (Extends-refl before h)
  add_phase_pipes-Extends (ph ∷ rest) before after h done =
      let (m, a, b) = >>=-eq-ok (add_step_pipes plan_name tasks emeta ph ph.steps before) _ done in
      let first = add_step_pipes-Extends ph ph.steps before m h a in
      Extends-trans before m after _ _ first (add_phase_pipes-Extends rest m after first.distinct b)

  -- If `PipesMap` returns no error, then the keys of its map are those of the pipes of the plan's
  -- tasks, in the plan's order, and no key stands there twice.
  pub pipes_map-keys :
      (plan : Plan) (pipes : List (String × String))
      → pipes_map plan_name tasks emeta plan ≡ ok pipes
      → (keys pipes ≡ phase_keys tasks plan.phases) × IsDistinct (phase_keys tasks plan.phases)
  pipes_map-keys plan pipes done =
      let all = add_phase_pipes-Extends plan.phases [] pipes tt done in
      (all.all, subst IsDistinct all.all all.distinct)
