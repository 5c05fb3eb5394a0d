-- ===== src/Workflow/Tasks.antt =====
-- A step whose tasks are all deleted from the set has run each of them to its end.
use kudo.Prelude.{
  ◌≡◌, inl, inr, String, subst, Bool-cases, ◌∙◌, sym, Bool, true, false, List, [], ◌∷◌, none, some,
  ok, if◌then◌else◌, arith, eq_iff, contains,
}
use kudo.Api.Operator.{Task, Step, Phase}
use kudo.Engine.{Metadata}
use kudo.Tasks.Tasker.{Tasker}
use kudo.Tasks.Build.{build}
use kudo.Tasks.Run.{Context, Cluster, run}
use kudo.Workflow.Loop.{
  ActivePlan, find_task, task_by_name, remove, Loop, Flow, next, stop, abort, Outcome, ended,
  aborted,
}
use kudo.Workflow.Execute.{task_context, run_task, run_tasks}
use kudo.Workflow.Cases.{continue_cases, run_task_cases}
use kudo.Workflow.Sets.{contains-remove}

pub find_task_name : (n : String) (xs : List Task) (t : Task) → find_task n xs ≡ some t → t.name ≡ n
unfolding find_task
find_task_name n [] t h = cc
find_task_name n (x ∷ xs) t h = ground (arith, eq_iff x.name n, find_task_name n xs t)

module _ {Y W : Type 0} (cluster : Cluster Y W) (em : Metadata) (pl : ActivePlan Y) where
  -- The plan has a task of this name that builds, and some run of it is done and has no error.
  abbrev pub IsDone : String → Type 0
  IsDone n =
      (t : Task) × (tasker : Tasker) × (ctx : Context Y) × (before : W) × (after : W)
      × (task_by_name pl n ≡ some t)
      × (build t ≡ ok tasker)
      × (run cluster tasker ctx before ≡ ((true, none), after))

  abbrev Deletes : List String → Flow (List String) W → Type 0
  Deletes left (next l) =
      (n : String) → contains n left ≡ true → contains n l.left ≡ false → IsDone n
  Deletes left (stop l) = Unit
  Deletes left (abort plan w e) = Unit

  same_left :
      (n : String) (xs : List String) → contains n xs ≡ true → contains n xs ≡ false → IsDone n
  same_left n xs h k = cc (h, k)

  run_task-Deletes :
      (ph : Phase) (st : Step) (tn : String) (l : Loop (List String) W)
      → Deletes l.left (run_task cluster em pl ph st tn l)
  run_task-Deletes ph st tn l =
      run_task_cases cluster em pl (Deletes l.left) ph st tn l (λ w text e h. tt)
        (λ w text n h k. same_left n l.left h k)
        (λ w done t tasker a b c. ran w done t tasker a b c)
    where
      ran :
          (w : W) (done : Bool) (t : Task) (tasker : Tasker)
          → task_by_name pl tn ≡ some t
          → build t ≡ ok tasker
          → run cluster tasker (task_context cluster em pl ph st tn l.plan) l.world
            ≡ ((done, none), w)
          → (n : String) → contains n l.left ≡ true
          → contains n (if done then remove t.name l.left else l.left) ≡ false
          → IsDone n
      ran w false t tasker a b c n h k = same_left n l.left h k
      ran w true t tasker a b c n h k = elim (contains-remove t.name n l.left h) [
        | inl e ↦
            let same : t.name ≡ n = (eq_iff t.name n).0 e in
            (
              t,
              tasker,
              _,
              l.world,
              w,
              subst (λ m. task_by_name pl m ≡ some t) (sym (find_task_name tn pl.tasks t a) ∙ same)
                  a,
              b,
              c,
            )
        | inr e ↦ cc (e, k)
      ]

  -- The loop over the tasks has no `break`.
  abbrev Goes : Flow (List String) W → Type 0
  Goes (next l) = Unit
  Goes (stop l) = ⊥
  Goes (abort plan w e) = Unit

  run_task-Goes :
      (ph : Phase) (st : Step) (tn : String) (l : Loop (List String) W)
      → Goes (run_task cluster em pl ph st tn l)
  run_task-Goes ph st tn l =
      run_task_cases cluster em pl Goes ph st tn l (λ w text e h. tt) (λ w text. tt)
        (λ w done t tasker a b c. tt)

  abbrev pub AllDone : List String → Outcome (List String) W → Type 0
  AllDone left (ended l) =
      (n : String) → contains n left ≡ true → contains n l.left ≡ false → IsDone n
  AllDone left (aborted plan w e) = Unit

  -- What the loop over the tasks deletes from the set has run to its end.
  pub run_tasks-AllDone :
      (ph : Phase) (st : Step) (tasks : List String) (l : Loop (List String) W)
      → AllDone l.left (run_tasks cluster em pl ph st tasks l)
  unfolding run_tasks
  run_tasks-AllDone ph st [] l = λ n h k. same_left n l.left h k
  run_tasks-AllDone ph st (tn ∷ rest) l =
      continue_cases (AllDone l.left) (run_task cluster em pl ph st tn l)
        (run_tasks cluster em pl ph st rest)
        (λ l' e. go l' (rw e at (run_task-Deletes ph st tn l)) _ (run_tasks-AllDone ph st rest l'))
        (λ l' e. stopped l' e) (λ plan w x e. tt)
    where
      go :
          (l' : Loop (List String) W)
          → Deletes l.left (next l')
          → (o : Outcome (List String) W) → AllDone l'.left o
          → AllDone l.left o
      go l' d (ended m) ih =
          λ n h k. elim (Bool-cases (contains n l'.left)) [ inl e ↦ ih n e k | inr e ↦ d n h e ]
      go l' d (aborted plan w x) ih = tt

      stopped :
          (l' : Loop (List String) W)
          → run_task cluster em pl ph st tn l ≡ stop l'
          → AllDone l.left (ended l')
      stopped l' e = absurd (rw e at (run_task-Goes ph st tn l))
