-- ===== src/Workflow/Left.antt =====
-- What a round of the loop over the tasks leaves in the set of tasks: pkg/engine/workflow/engine.go.
use kudo.Prelude.{
  ◌≡◌, inl, inr, String, Bool, true, false, List, [], ◌∷◌, some, ◌==◌, if◌then◌else◌, arith,
  contains,
}
use kudo.Api.Operator.{Task, Step, Phase}
use kudo.Engine.{Metadata}
use kudo.Tasks.Run.{Cluster}
use kudo.Workflow.Loop.{
  ActivePlan, task_by_name, remove, Loop, Flow, next, stop, abort, Outcome, ended, aborted,
}
use kudo.Workflow.Execute.{run_task, run_tasks}
use kudo.Workflow.Cases.{continue_cases, run_task_cases}
use kudo.Workflow.Sets.{contains-remove}
use kudo.Workflow.Tasks.{find_task_name}

module _ {Y W : Type 0} (cluster : Cluster Y W) (em : Metadata) (pl : ActivePlan Y) where
  -- A task leaves the other ones in the set.
  abbrev pub Stays : String → List String → Flow (List String) W → Type 0
  Stays tn left (next l) =
      (n : String) → contains n left ≡ true → (tn == n) ≡ false → contains n l.left ≡ true
  Stays tn left (stop l) =
      (n : String) → contains n left ≡ true → (tn == n) ≡ false → contains n l.left ≡ true
  Stays tn left (abort plan w e) = Unit

  pub run_task-Stays :
      (ph : Phase) (st : Step) (tn : String) (l : Loop (List String) W)
      → Stays tn l.left (run_task cluster em pl ph st tn l)
  run_task-Stays ph st tn l =
      run_task_cases cluster em pl (Stays tn l.left) ph st tn l (λ w text e h. tt)
        (λ w text n h k. h) (λ w done t tasker a b c n h k. left done t a n h k)
    where
      left :
          (done : Bool) (t : Task)
          → task_by_name pl tn ≡ some t
          → (n : String) → contains n l.left ≡ true
          → (tn == n) ≡ false
          → contains n (if done then remove t.name l.left else l.left) ≡ true
      left false t a n h k = h
      left true t a n h k = elim (contains-remove t.name n l.left h) [
        | inl e ↦ absurd (cc (find_task_name tn pl.tasks t a, e, k))
        | inr e ↦ e
      ]

  abbrev pub Keeps : List String → List String → Outcome (List String) W → Type 0
  Keeps tasks left (ended m) =
      (n : String) → contains n left ≡ true → contains n tasks ≡ false → contains n m.left ≡ true
  Keeps tasks left (aborted plan w e) = Unit

  -- The loop over the tasks leaves in the set what is none of them.
  pub run_tasks-Keeps :
      (ph : Phase) (st : Step) (tasks : List String) (l : Loop (List String) W)
      → Keeps tasks l.left (run_tasks cluster em pl ph st tasks l)
  unfolding run_tasks contains
  run_tasks-Keeps ph st [] l = λ n h k. h
  run_tasks-Keeps ph st (tn ∷ rest) l =
      continue_cases (Keeps (tn ∷ rest) l.left) (run_task cluster em pl ph st tn l)
        (run_tasks cluster em pl ph st rest)
        (λ l' e. go l' (rw e at (run_task-Stays ph st tn l)) _ (run_tasks-Keeps ph st rest l'))
        (λ l' e n h k. (rw e at (run_task-Stays ph st tn l)) n h (other n k)) (λ plan w x e. tt)
    where
      other : (n : String) → contains n (tn ∷ rest) ≡ false → (tn == n) ≡ false
      other n k = ground (arith, k)

      later : (n : String) → contains n (tn ∷ rest) ≡ false → contains n rest ≡ false
      later n k = ground (arith, k)

      go :
          (l' : Loop (List String) W)
          → Stays tn l.left (next l')
          → (o : Outcome (List String) W) → Keeps rest l'.left o
          → Keeps (tn ∷ rest) l.left o
      go l' s (ended m) ih = λ n h k. ih n (s n h (other n k)) (later n k)
      go l' s (aborted plan w x) ih = tt
