-- ===== src/Workflow/TasksDone.antt =====
-- An execution that makes a step COMPLETE has run every task of the step to its end.
use kudo.Prelude.{
  ◌≡◌, refl, inl, inr, String, true, false, List, [], ◌∷◌, some, arith, Bool-cases, Option-cases,
  contains, All, ==_self,
}
use kudo.Api.ExecutionStatus.{in_progress, fatal_error, error_status, is_finished, is_running}
use kudo.Api.StepStatus
use kudo.Api.StepStatus.{StepStatus}
use kudo.Api.PhaseStatus
use kudo.Api.PhaseStatus.{PhaseStatus, update_step}
use kudo.Api.PhaseStatus.Find.{find-modify_step_self}
use kudo.Api.PlanStatus.{PlanStatus, find_phase}
use kudo.Api.PlanStatus.Find.{set-phases, find-modify_phase_self}
use kudo.Api.Operator.{Step, Phase}
use kudo.Engine.{Metadata}
use kudo.Tasks.Run.{Cluster}
use kudo.Workflow.Loop.{ActivePlan, Loop, Outcome, ended, aborted, string_array_to_set}
use kudo.Workflow.Execute.{
  is_serial, fail_step, enter_step, step_of, run_task, run_tasks, finish_step, run_step,
}
use kudo.Workflow.Cases.{
  flow_plan, outcome_plan, continue_cases, run_task_cases, run_step_cases, started_step,
}
use kudo.Workflow.Sets.{contains-string_array_to_set}
use kudo.Workflow.Steps.{IsStepComplete, step_of-set_step}
use kudo.Workflow.Tasks.{IsDone, AllDone, run_tasks-AllDone}

-- The step has a status, and it is not COMPLETE.
abbrev pub IsOpen : String → PlanStatus → String → Type 0
IsOpen n plan k = (s : StepStatus) × (step_of n k plan ≡ some s) × (is_finished s.status ≡ false)

IsOpen-fail_step :
    (now : _) (ph : Phase) (st : Step) (text : String) (a : PlanStatus)
    → IsOpen ph.name a st.name
    → IsOpen ph.name (fail_step now ph st text a) st.name
unfolding fail_step
IsOpen-fail_step now ph st text a (s, e, h) = elim (Option-cases (find_phase ph.name a.phases)) [
  | inl f ↦ cc (rw f at e)
  | inr (p, f) ↦
      let fail : PhaseStatus → PhaseStatus = λ p.
        PhaseStatus.set fatal_error
          (update_step st.name (StepStatus.set_with_message fatal_error text) p) in
      (
        StepStatus.set_with_message fatal_error text s,
        rw
            (
              set-phases now fatal_error _,
              find-modify_phase_self fail (λ q. refl) ph.name a.phases p f,
            )
            (find-modify_step_self (StepStatus.set_with_message fatal_error text) (λ q. refl)
              st.name p.steps s (rw f at e)),
        refl,
      )
]

pub open_not_complete : (n k : String) (a : PlanStatus) → IsOpen n a k → ¬ IsStepComplete n a k
open_not_complete n k a (s, e, h) (t, f, d) = ground arith

pub entered_step-IsOpen :
    (ph : Phase) (st : Step) (a : PlanStatus) (q : StepStatus)
    → step_of ph.name st.name a ≡ some q
    → is_finished q.status ≡ false
    → IsOpen ph.name (enter_step ph st q a) st.name
entered_step-IsOpen ph st a q m g = elim (Bool-cases (is_running q.status)) [
  | inl r ↦ rw r (
    StepStatus.set in_progress q,
    step_of-set_step ph st (StepStatus.set in_progress) a q (λ q. refl) m,
    refl,
  )
  | inr r ↦ rw r (q, m, g)
]

module _ {Y W : Type 0} (cluster : Cluster Y W) (em : Metadata) (pl : ActivePlan Y) where
  pub run_tasks-IsOpen :
      (ph : Phase) (st : Step) (tasks : List String) (l : Loop (List String) W)
      → IsOpen ph.name l.plan st.name
      → IsOpen ph.name (outcome_plan (run_tasks cluster em pl ph st tasks l)) st.name
  unfolding run_tasks
  run_tasks-IsOpen ph st [] l h = h
  run_tasks-IsOpen ph st (tn ∷ rest) l (s, e, f) =
      continue_cases (λ o. IsOpen ph.name (outcome_plan o) st.name)
        (run_task cluster em pl ph st tn l) (run_tasks cluster em pl ph st rest)
        (λ l' g. run_tasks-IsOpen ph st rest l' (rw g at step)) (λ l' g. rw g at step)
        (λ plan w x g. rw g at step)
    where
      step : IsOpen ph.name (flow_plan (run_task cluster em pl ph st tn l)) st.name
      step =
          run_task_cases cluster em pl (λ flow. IsOpen ph.name (flow_plan flow) st.name) ph st tn l
            (λ w text x g. IsOpen-fail_step _ ph st text l.plan (s, e, f))
            (λ w text. (
              StepStatus.set_with_message error_status text s,
              step_of-set_step ph st (StepStatus.set_with_message error_status text) l.plan s
                  (λ q. refl) e,
              refl,
            ))
            (λ w done t tasker a b c. (s, e, f))

  All-tasks :
      (P : String → Type 0) (tasks : List String)
      → ((k : String) → contains k tasks ≡ true → P k)
      → All P tasks
  unfolding contains
  All-tasks P [] h = tt
  All-tasks P (t ∷ rest) h = (h t (rw (==_self t)), All-tasks P rest (λ k c. h k (ground arith)))

  finish_step-IsDone :
      (ph : Phase) (st : Step) (left : List String) (o : Outcome (List String) W)
      → IsOpen ph.name (outcome_plan o) st.name
      → AllDone cluster em pl (string_array_to_set st.tasks) o
      → IsStepComplete ph.name (flow_plan (finish_step cluster em pl ph st left o)) st.name
      → All (IsDone cluster em pl) st.tasks
  unfolding finish_step contains
  finish_step-IsDone ph st left (aborted plan w e) h all c =
      absurd (open_not_complete ph.name st.name plan h c)
  finish_step-IsDone ph st left (ended l) h all c = emptied l.left refl
    where
      emptied : (xs : List String) → l.left ≡ xs → All (IsDone cluster em pl) st.tasks
      emptied [] e =
          All-tasks (IsDone cluster em pl) st.tasks
            (λ k m. all k (contains-string_array_to_set k st.tasks m) (rw e))
      emptied (x ∷ xs) e = elim (Bool-cases (is_serial ph.strategy)) [
        | inl f ↦ absurd (open_not_complete ph.name st.name l.plan h (rw (e, f) at c))
        | inr f ↦ absurd (open_not_complete ph.name st.name l.plan h (rw (e, f) at c))
      ]

  -- If a round of the loop over the steps meets a step that is not COMPLETE and leaves it COMPLETE,
  -- then each task that the step names is one of the operator version's, it builds, and a run of it
  -- said that it is done and returned no error.
  pub run_step-IsDone :
      (ph : Phase) (st : Step) (l : Loop (List String) W)
      → IsOpen ph.name l.plan st.name
      → IsStepComplete ph.name (flow_plan (run_step cluster em pl ph st l)) st.name
      → All (IsDone cluster em pl) st.tasks
  run_step-IsDone ph st l (s, e, f) =
      run_step_cases cluster em pl
        (λ flow.
          IsStepComplete ph.name (flow_plan flow) st.name → All (IsDone cluster em pl) st.tasks)
        ph st l (λ text x m g. cc (e, m)) (λ q m g. cc (e, m, f, g))
        (λ q m g c.
          finish_step-IsDone ph st l.left _
            (run_tasks-IsOpen ph st st.tasks (started_step cluster em pl ph st q l)
              (entered_step-IsOpen ph st l.plan q m g))
            (run_tasks-AllDone cluster em pl ph st st.tasks (started_step cluster em pl ph st q l))
            c)
