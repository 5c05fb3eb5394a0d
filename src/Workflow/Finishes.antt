-- ===== src/Workflow/Finishes.antt =====
-- A round of the loop over the phases that completes a phase leaves its steps COMPLETE.
use kudo.Prelude.{
  ℕ, ◌≡◌, refl, ◌∙◌, ◌⊎◌, inl, inr, String, true, false, List, [], ◌∷◌, some, arith, is_empty,
  Bool-cases, contains, ==_self, All, map,
}
use kudo.Api.ExecutionStatus.{ExecutionStatus, in_progress, complete, is_finished, is_running}
use kudo.Api.PhaseStatus
use kudo.Api.PhaseStatus.{PhaseStatus, update_step}
use kudo.Api.PlanStatus.{PlanStatus, find_phase, update_phase}
use kudo.Api.PlanStatus.Find.{find-modify_phase_self}
use kudo.Api.Operator.{Step, Phase}
use kudo.Engine.{Metadata}
use kudo.Tasks.Run.{Cluster}
use kudo.Workflow.Loop.{
  ActivePlan, Loop, Flow, next, stop, abort, Outcome, ended, aborted, step_names_to_set,
}
use kudo.Workflow.Execute.{is_serial, run_steps, finish_phase, run_phase}
use kudo.Workflow.Cases.{run_phase_cases, started_phase}
use kudo.Workflow.Sets.{contains-string_array_to_set}
use kudo.Workflow.Steps.{IsStepComplete, step_of-update_phase}
use kudo.Workflow.StepSets.{Sound, run_steps-Sound}
use kudo.Workflow.Complete.{IsComplete}
use kudo.Workflow.PhaseKeeps.{status_of, OutcomeKeeps, run_steps-OutcomeKeeps}

module _ {Y W : Type 0} (cluster : Cluster Y W) (em : Metadata) (pl : ActivePlan Y) where
  -- Where the round did not abort and the phase is COMPLETE, so is every step of it.
  abbrev pub Finishes : Phase → Flow ℕ W → Type 0
  Finishes ph (next l) =
      IsComplete l.plan ph.name → All (λ st. IsStepComplete ph.name l.plan st.name) ph.steps
  Finishes ph (stop l) =
      IsComplete l.plan ph.name → All (λ st. IsStepComplete ph.name l.plan st.name) ph.steps
  Finishes ph (abort plan w e) = Unit

  pub not-IsComplete :
      (n : String) (a : PlanStatus) (s : ExecutionStatus)
      → status_of n a ≡ some s
      → is_finished s ≡ false
      → ¬ IsComplete a n
  not-IsComplete n a s h f (p, found, done) = ground arith

  pub each_step :
      (P : String → Type 0) (steps : List Step)
      → ((k : String) → contains k (map (λ (st : Step). st.name) steps) ≡ true → P k)
      → All (λ st. P st.name) steps
  unfolding contains
  each_step P [] h = tt
  each_step P (st ∷ rest) h =
      (h st.name (rw (==_self st.name)), each_step P rest (λ k c. h k (ground arith)))

  pub finish_phase-Finishes :
      (ph : Phase) (left : ℕ) (s : ExecutionStatus) (o : Outcome (List String) W)
      → OutcomeKeeps ph.name (some s) o
      → is_finished s ≡ false
      → Sound ph (step_names_to_set ph.steps) o
      → Finishes ph (finish_phase cluster em pl ph left o)
  unfolding finish_phase step_names_to_set
  finish_phase-Finishes ph left s (aborted plan w e) h f all = tt
  finish_phase-Finishes ph left s (ended l) h f all = elim (Bool-cases (is_empty l.left)) [
    | inl e ↦ rw e (λ c.
        each_step (IsStepComplete ph.name (update_phase ph.name (PhaseStatus.set complete) l.plan))
          ph.steps
          (λ k m.
            let (t, found, done) = all e k (contains-string_array_to_set k _ m) in
            (
              t,
              step_of-update_phase ph.name k (PhaseStatus.set complete) l.plan (λ p. refl)
                    (λ p. refl)
                  ∙ found,
              done,
            )))
    | inr e ↦ elim (Bool-cases (is_serial pl.spec.strategy)) [
      | inl g ↦ rw (e, g) (λ c. absurd (not-IsComplete ph.name l.plan s h f c))
      | inr g ↦ rw (e, g) (λ c. absurd (not-IsComplete ph.name l.plan s h f c))
    ]
  ]

  pub run_phase-Finishes :
      (ph : Phase) (l : Loop ℕ W)
      → ¬ IsComplete l.plan ph.name
      → Finishes ph (run_phase cluster em pl ph l)
  run_phase-Finishes ph l open_phase =
      run_phase_cases cluster em pl (Finishes ph) ph l (λ text e m g. tt)
        (λ p e g. absurd (open_phase (p, e, g)))
        (λ p e g. ran p e g (Bool-cases (is_running p.status)))
    where
      ran :
          (p : PhaseStatus)
          → find_phase ph.name l.plan.phases ≡ some p
          → is_finished p.status ≡ false
          → (is_running p.status ≡ true) ⊎ (is_running p.status ≡ false)
          → Finishes ph (
              finish_phase cluster em pl ph l.left
                (run_steps cluster em pl ph ph.steps (started_phase cluster em pl ph p l)))
      ran p e g (inl r) =
          finish_phase-Finishes ph l.left in_progress _
            (run_steps-OutcomeKeeps cluster em pl ph ph.steps (some in_progress)
              (started_phase cluster em pl ph p l)
              (rw (
                r,
                find-modify_phase_self (PhaseStatus.set in_progress) (λ q. refl) ph.name
                    l.plan.phases p e,
              )))
            refl (run_steps-Sound cluster em pl ph ph.steps (started_phase cluster em pl ph p l))
      ran p e g (inr r) =
          finish_phase-Finishes ph l.left p.status _
            (run_steps-OutcomeKeeps cluster em pl ph ph.steps (some p.status)
              (started_phase cluster em pl ph p l) (rw (r, e)))
            g (run_steps-Sound cluster em pl ph ph.steps (started_phase cluster em pl ph p l))
