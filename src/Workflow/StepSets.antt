-- ===== src/Workflow/StepSets.antt =====
-- The set of steps that are left is empty only when every step of the phase is COMPLETE.
use kudo.Prelude.{
  ◌≡◌, refl, ap, subst, ◌⊎◌, inl, inr, String, true, List, [], ◌∷◌, some, arith, is_empty,
  Bool-cases, Option-cases, eq_iff, contains,
}
use kudo.Api.ExecutionStatus.{complete, is_finished}
use kudo.Api.StepStatus
use kudo.Api.StepStatus.{StepStatus}
use kudo.Api.PhaseStatus.Find.{find_step_name, find_step_of_names}
use kudo.Api.PlanStatus.{PlanStatus, find_phase}
use kudo.Api.PlanStatus.Find.{phase_names, find_phase_of_names, step_names_of_names}
use kudo.Api.Operator.{Step, Phase}
use kudo.Engine.{Metadata}
use kudo.Tasks.Run.{Cluster}
use kudo.Workflow.Loop.{ActivePlan, Loop, Flow, next, stop, abort, Outcome, ended, aborted, remove}
use kudo.Workflow.Execute.{is_serial, step_of, run_tasks, finish_step, run_step, run_steps}
use kudo.Workflow.Cases.{outcome_plan, continue_cases, run_step_cases, started_step}
use kudo.Workflow.Frame.{Frame-trans, enter_step-Frame, run_tasks-Frame}
use kudo.Workflow.Sets.{contains-remove}
use kudo.Workflow.Steps.{IsStepComplete, step_of-set_step, run_steps-keeps_complete}

step_of_name :
    (n k : String) (a : PlanStatus) (s : StepStatus) → step_of n k a ≡ some s → s.name ≡ k
step_of_name n k a s h = elim (Option-cases (find_phase n a.phases)) [
  | inl e ↦ cc (rw e at h)
  | inr (p, e) ↦ find_step_name k p.steps s (rw e at h)
]

step_of_names :
    (n k : String) (a b : PlanStatus) (s : StepStatus)
    → phase_names b.phases ≡ phase_names a.phases
    → step_of n k a ≡ some s
    → (t : StepStatus) × (step_of n k b ≡ some t)
step_of_names n k a b s same h = elim (Option-cases (find_phase n a.phases)) [
  | inl e ↦ cc (rw e at h)
  | inr (p, e) ↦
      let (q, f) = find_phase_of_names n a.phases b.phases p same e in
      let (t, g) =
        find_step_of_names k p.steps q.steps s
          (step_names_of_names n a.phases b.phases p q same e f) (rw e at h) in
      (t, rw f g)
]

-- If the loop ends with no step left, then every step that was left is COMPLETE.
abbrev pub Sound : {W : Type 0} → Phase → List String → Outcome (List String) W → Type 0
Sound ph left (ended l) =
    is_empty l.left ≡ true → (k : String) → contains k left ≡ true → IsStepComplete ph.name l.plan k
Sound ph left (aborted plan w e) = Unit

module _ {Y W : Type 0} (cluster : Cluster Y W) (em : Metadata) (pl : ActivePlan Y) where
  -- A round of the loop completes its step and deletes it from the set, or deletes nothing.
  abbrev Deletes : Phase → Step → List String → Flow (List String) W → Type 0
  Deletes ph st left (next l) =
      ((l.left ≡ remove st.name left) × IsStepComplete ph.name l.plan st.name) ⊎ (l.left ≡ left)
  Deletes ph st left (stop l) = l.left ≡ left
  Deletes ph st left (abort plan w e) = Unit

  finish_step-Deletes :
      (ph : Phase) (st : Step) (left : List String) (o : Outcome (List String) W)
      → (s : StepStatus) × (step_of ph.name st.name (outcome_plan o) ≡ some s)
      → Deletes ph st left (finish_step cluster em pl ph st left o)
  unfolding finish_step
  finish_step-Deletes ph st left (aborted plan w e) (s, f) = tt
  finish_step-Deletes ph st left (ended l) (s, f) = elim (Bool-cases (is_empty l.left)) [
    | inl e ↦ rw e (
        inl (
          refl,
          (
            StepStatus.set complete s,
            step_of-set_step ph st (StepStatus.set complete) l.plan s (λ s. refl) f,
            refl,
          ),
        ))
    | inr e ↦ elim (Bool-cases (is_serial ph.strategy)) [
      | inl g ↦ rw (e, g) refl
      | inr g ↦ rw (e, g) (inr refl)
    ]
  ]

  run_step-Deletes :
      (ph : Phase) (st : Step) (l : Loop (List String) W)
      → Deletes ph st l.left (run_step cluster em pl ph st l)
  run_step-Deletes ph st l =
      run_step_cases cluster em pl (Deletes ph st l.left) ph st l (λ text e m h. tt)
        (λ s e h.
          inl (ap (λ k. remove k l.left) (step_of_name ph.name st.name l.plan s e), (s, e, h)))
        (λ s e h.
          let o = run_tasks cluster em pl ph st st.tasks (started_step cluster em pl ph st s l) in
          finish_step-Deletes ph st l.left o (
            step_of_names ph.name st.name l.plan (outcome_plan o) s
              (Frame-trans ph.name _ _ _ (enter_step-Frame cluster em pl ph st s l.plan) (
                run_tasks-Frame cluster em pl ph st st.tasks
                  (started_step cluster em pl ph st s l))).names
              e))

  Sound-deleted :
      (ph : Phase) (st : Step) (left : List String) (s : StepStatus) (o : Outcome (List String) W)
      → step_of ph.name st.name (outcome_plan o) ≡ some s
      → is_finished s.status ≡ true
      → Sound ph (remove st.name left) o
      → Sound ph left o
  Sound-deleted ph st left s (ended l) f d ih = λ e k h. elim (contains-remove st.name k left h) [
    | inl same ↦ subst (IsStepComplete ph.name l.plan) ((eq_iff st.name k).0 same) (s, f, d)
    | inr other ↦ ih e k other
  ]
  Sound-deleted ph st left s (aborted plan w e) f d ih = tt

  empty-Sound :
      (ph : Phase) (l : Loop (List String) W) (left : List String)
      → l.left ≡ left
      → Sound ph left (ended l)
  unfolding contains
  empty-Sound ph l [] same e k h = cc
  empty-Sound ph l (x ∷ left) same e k h = ground arith

  pub run_steps-Sound :
      (ph : Phase) (steps : List Step) (l : Loop (List String) W)
      → Sound ph l.left (run_steps cluster em pl ph steps l)
  unfolding run_steps
  run_steps-Sound ph [] l = empty-Sound ph l l.left refl
  run_steps-Sound ph (st ∷ rest) l =
      continue_cases (Sound ph l.left) (run_step cluster em pl ph st l)
        (run_steps cluster em pl ph rest)
        (λ l' e. go l' (rw e at (run_step-Deletes ph st l)) (run_steps-Sound ph rest l'))
        (λ l' e. empty-Sound ph l' l.left (rw e at (run_step-Deletes ph st l))) (λ plan w x e. tt)
    where
      go :
          (l' : Loop (List String) W)
          → Deletes ph st l.left (next l')
          → Sound ph l'.left (run_steps cluster em pl ph rest l')
          → Sound ph l.left (run_steps cluster em pl ph rest l')
      go l' (inl (same, (s, f, d))) ih =
          Sound-deleted ph st l.left s _
            (run_steps-keeps_complete cluster em pl ph rest st.name s l' f d) d
            (subst (λ k. Sound ph k (run_steps cluster em pl ph rest l')) same ih)
      go l' (inr same) ih = subst (λ k. Sound ph k (run_steps cluster em pl ph rest l')) same ih
