-- ===== src/Workflow/Chain.antt =====
-- A round of the loop over the steps that makes a step COMPLETE runs its tasks one after the other:
-- pkg/engine/workflow/engine.go.
use kudo.Prelude.{
  ◌≡◌, ◌⊎◌, refl, inl, inr, subst, String, Bool, true, false, List, [], ◌∷◌, none, some, ok, ◌==◌,
  if◌then◌else◌, arith, eq_iff, contains, Bool-cases, ==_self,
}
use kudo.Libraries.{IsDistinct}
use kudo.Api.Operator.{Task, Step, Phase}
use kudo.Api.StepStatus.{StepStatus}
use kudo.Api.PlanStatus.{PlanStatus}
use kudo.Api.ExecutionStatus.{is_running}
use kudo.Engine.{Metadata}
use kudo.Tasks.Tasker.{Tasker}
use kudo.Tasks.Build.{build}
use kudo.Tasks.Run.{Context, Cluster, run}
use kudo.Workflow.Loop.{
  ActivePlan, task_by_name, remove, Loop, Flow, next, stop, abort, Outcome, ended, aborted,
}
use kudo.Workflow.Execute.{is_serial, enter_step, run_task, run_tasks, finish_step, run_step}
use kudo.Workflow.Cases.{
  flow_plan, outcome_plan, continue_cases, run_task_cases, run_step_cases, started_step,
}
use kudo.Workflow.Sets.{contains-string_array_to_set}
use kudo.Workflow.Steps.{IsStepComplete}
use kudo.Workflow.TasksDone.{IsOpen, open_not_complete, run_tasks-IsOpen, entered_step-IsOpen}
use kudo.Workflow.Left.{Stays, Keeps, run_task-Stays, run_tasks-Keeps}

abbrev pub flow_world : {L W : Type 0} → Flow L W → W
flow_world (next l) = l.world
flow_world (stop l) = l.world
flow_world (abort plan w e) = w

module _ {Y W : Type 0} (cluster : Cluster Y W) (em : Metadata) (pl : ActivePlan Y) where
  -- What a task of the step is given.
  abbrev pub step_context : Phase → Step → String → String → Context Y
  step_context ph st uid tn = record {
    meta = record {
      engine = em;
      plan_name = pl.name;
      plan_uid = uid;
      phase_name = ph.name;
      step_name = st.name;
      task_name = tn;
    };
    templates = pl.templates;
    parameters = pl.params;
    pipes = pl.pipes;
  }

  -- The tasks of these names ran in this order, each with the metadata of its place and from the state that
  -- the one before has left, and each was done and returned no error.
  pub data Chain (ph : Phase) (st : Step) (uid : String) : List String → W → W → Type 0 where
    no_task : (w : W) → Chain ph st uid [] w w
    one_task :
        (tn : String) (rest : List String) (t : Task) (tasker : Tasker) (w v w' : W)
        → task_by_name pl tn ≡ some t
        → build t ≡ ok tasker
        → run cluster tasker (step_context ph st uid tn) w ≡ ((true, none), v)
        → Chain ph st uid rest v w'
        → Chain ph st uid (tn ∷ rest) w w'

  -- A task was done and had no error, or it is left in the set.
  abbrev Head : Phase → Step → String → Loop (List String) W → Flow (List String) W → Type 0
  Head ph st tn l (next l') =
      ((t : Task) × (tasker : Tasker) × (task_by_name pl tn ≡ some t)
        × (build t ≡ ok tasker)
        × (run cluster tasker (step_context ph st l.plan.uid tn) l.world ≡ ((true, none), l'.world))
        × (l'.plan.uid ≡ l.plan.uid))
      ⊎ (contains tn l.left ≡ true → contains tn l'.left ≡ true)
  Head ph st tn l (stop l') = ⊥
  Head ph st tn l (abort plan w e) = Unit

  run_task-Head :
      (ph : Phase) (st : Step) (tn : String) (l : Loop (List String) W)
      → Head ph st tn l (run_task cluster em pl ph st tn l)
  run_task-Head ph st tn l =
      run_task_cases cluster em pl (Head ph st tn l) ph st tn l (λ w text e h. tt)
        (λ w text. inr (λ h. h)) (λ w done t tasker a b c. ran w done t tasker a b c)
    where
      ran :
          (w : W) (done : Bool) (t : Task) (tasker : Tasker)
          → task_by_name pl tn ≡ some t
          → build t ≡ ok tasker
          → run cluster tasker (step_context ph st l.plan.uid tn) l.world ≡ ((done, none), w)
          → Head ph st tn l (
              next (record {
                plan = l.plan;
                left = if done then remove t.name l.left else l.left;
                world = w;
              }))
      ran w true t tasker a b c = inl (t, tasker, a, b, c, refl)
      ran w false t tasker a b c = inr (λ h. h)

  abbrev Chained :
      Phase → Step → List String → Loop (List String) W → Outcome (List String) W → Type 0
  Chained ph st tasks l (ended m) =
      IsDistinct tasks
      → ((n : String) → contains n tasks ≡ true → contains n l.left ≡ true)
      → m.left ≡ []
      → Chain ph st l.plan.uid tasks l.world m.world
  Chained ph st tasks l (aborted plan w e) = Unit

  none_left : (n : String) (xs : List String) → xs ≡ [] → contains n xs ≡ true → ⊥
  unfolding contains
  none_left n [] e h = cc h
  none_left n (x ∷ xs) e h = cc e

  run_tasks-Chained :
      (ph : Phase) (st : Step) (tasks : List String) (l : Loop (List String) W)
      → Chained ph st tasks l (run_tasks cluster em pl ph st tasks l)
  unfolding run_tasks contains
  run_tasks-Chained ph st [] l = λ d all e. no_task l.world
  run_tasks-Chained ph st (tn ∷ rest) l =
      continue_cases (Chained ph st (tn ∷ rest) l) (run_task cluster em pl ph st tn l)
        (run_tasks cluster em pl ph st rest)
        (λ l' e.
          go l' (rw e at (run_task-Head ph st tn l))
            (rw e at (run_task-Stays cluster em pl ph st tn l)) _ (run_tasks-Chained ph st rest l')
            (run_tasks-Keeps cluster em pl ph st rest l'))
        (λ l' e. absurd (rw e at (run_task-Head ph st tn l))) (λ plan w x e. tt)
    where
      here : contains tn (tn ∷ rest) ≡ true
      here = rw (==_self tn)

      there : (n : String) → contains n rest ≡ true → contains n (tn ∷ rest) ≡ true
      there n h = ground (arith, h)

      differs : (n : String) → contains tn rest ≡ false → contains n rest ≡ true → (tn == n) ≡ false
      differs n a h = elim (Bool-cases (tn == n)) [
        | inl e ↦ cc (a, rw (← (eq_iff tn n).0 e) at h)
        | inr e ↦ e
      ]

      go :
          (l' : Loop (List String) W)
          → Head ph st tn l (next l')
          → Stays cluster em pl tn l.left (next l')
          → (o : Outcome (List String) W) → Chained ph st rest l' o
          → Keeps cluster em pl rest l'.left o
          → Chained ph st (tn ∷ rest) l o
      go l' (inl (t, tasker, a, b, c, same)) s (ended m) ih keeps = λ (new, distinct) all e.
          one_task tn rest t tasker l.world l'.world m.world a b c (
            subst (λ u. Chain ph st u rest l'.world m.world) same
              (ih distinct (λ n h. s n (all n (there n h)) (differs n new h)) e))
      go l' (inr k) s (ended m) ih keeps =
          λ (new, distinct) all e. absurd (none_left tn m.left e (keeps tn (k (all tn here)) new))
      go l' h s (aborted plan w x) ih keeps = tt

  finish_step-Chain :
      (ph : Phase) (st : Step) (left : List String) (l : Loop (List String) W)
      (o : Outcome (List String) W)
      → IsOpen ph.name (outcome_plan o) st.name
      → IsDistinct st.tasks
      → ((n : String) → contains n st.tasks ≡ true → contains n l.left ≡ true)
      → Chained ph st st.tasks l o
      → IsStepComplete ph.name (flow_plan (finish_step cluster em pl ph st left o)) st.name
      → Chain ph st l.plan.uid st.tasks l.world
          (flow_world (finish_step cluster em pl ph st left o))
  unfolding finish_step
  finish_step-Chain ph st left l (aborted plan w e) h distinct all chained c =
      absurd (open_not_complete ph.name st.name plan h c)
  finish_step-Chain ph st left l (ended m) h distinct all chained c = emptied m.left refl
    where
      emptied :
          (xs : List String)
          → m.left ≡ xs
          → Chain ph st l.plan.uid st.tasks l.world
              (flow_world (finish_step cluster em pl ph st left (ended m)))
      emptied [] e = rw e (chained distinct all e)
      emptied (x ∷ xs) e = elim (Bool-cases (is_serial ph.strategy)) [
        | inl f ↦ absurd (open_not_complete ph.name st.name m.plan h (rw (e, f) at c))
        | inr f ↦ absurd (open_not_complete ph.name st.name m.plan h (rw (e, f) at c))
      ]

  enter_step-uid :
      (ph : Phase) (st : Step) (q : StepStatus) (a : PlanStatus)
      → (enter_step ph st q a).uid ≡ a.uid
  enter_step-uid ph st q a = elim (Bool-cases (is_running q.status)) [
    | inl e ↦ rw e refl
    | inr e ↦ rw e refl
  ]

  -- If the tasks that a step names are different, and a round of the loop over the steps meets the step when it is
  -- not COMPLETE and leaves it COMPLETE, then in this round its tasks ran in their order, the first from
  -- the state of the cluster before the round and each other from the state that the one before it has
  -- left; each was given the names of its plan, phase, step and task, was done, and returned no error; and
  -- the state after the round is that of the last one.
  pub run_step-Chain :
      (ph : Phase) (st : Step) (l : Loop (List String) W)
      → IsDistinct st.tasks
      → IsOpen ph.name l.plan st.name
      → IsStepComplete ph.name (flow_plan (run_step cluster em pl ph st l)) st.name
      → Chain ph st l.plan.uid st.tasks l.world (flow_world (run_step cluster em pl ph st l))
  run_step-Chain ph st l distinct (s, e, f) =
      run_step_cases cluster em pl
        (λ flow.
          IsStepComplete ph.name (flow_plan flow) st.name
          → Chain ph st l.plan.uid st.tasks l.world (flow_world flow))
        ph st l (λ text x m g c. absurd (cc (e, m))) (λ q m g c. absurd (cc (e, m, f, g)))
        (λ q m g c.
          subst
            (λ u. Chain ph st u st.tasks l.world (
              flow_world (
                finish_step cluster em pl ph st l.left
                  (run_tasks cluster em pl ph st st.tasks (started_step cluster em pl ph st q l)))))
            (enter_step-uid ph st q l.plan)
            (finish_step-Chain ph st l.left (started_step cluster em pl ph st q l)
              (run_tasks cluster em pl ph st st.tasks (started_step cluster em pl ph st q l))
              (run_tasks-IsOpen cluster em pl ph st st.tasks (started_step cluster em pl ph st q l)
                (entered_step-IsOpen ph st l.plan q m g))
              distinct (λ n h. contains-string_array_to_set n st.tasks h)
              (run_tasks-Chained ph st st.tasks (started_step cluster em pl ph st q l)) c))
