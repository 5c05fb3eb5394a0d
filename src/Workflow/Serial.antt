-- ===== src/Workflow/Serial.antt =====
-- A serial plan stops at the first phase that is not COMPLETE: the phases after it have no effect.
use kudo.Prelude.{
  ℕ, ◌≡◌, refl, inl, inr, String, true, List, [], ◌∷◌, ◌++◌, some, is_empty, Bool-cases,
}
use kudo.Api.ExecutionStatus.{complete}
use kudo.Api.PhaseStatus
use kudo.Api.PhaseStatus.{PhaseStatus}
use kudo.Api.PlanStatus.{find_phase}
use kudo.Api.PlanStatus.Find.{find_phase_of_names, find-modify_phase_self}
use kudo.Api.Operator.{Phase}
use kudo.Engine.{Metadata}
use kudo.Tasks.Run.{Cluster}
use kudo.Workflow.Loop.{
  ActivePlan, Loop, Flow, next, stop, abort, Outcome, ended, aborted, continue,
}
use kudo.Workflow.Execute.{is_serial, finish_phase, run_phase, run_phases}
use kudo.Workflow.Cases.{outcome_plan, run_phase_cases, started_phase}
use kudo.Workflow.Frame.{Frame-trans, enter_phase-Frame, run_steps-Frame}
use kudo.Workflow.Complete.{IsComplete, run_phases-keeps_complete}

module _ {Y W : Type 0} (cluster : Cluster Y W) (em : Metadata) (pl : ActivePlan Y)
    (serial : is_serial pl.spec.strategy ≡ true) where
  -- In a serial plan the loop goes on only behind a phase that is COMPLETE.
  abbrev Completes : Phase → Flow ℕ W → Type 0
  Completes ph (next l) = IsComplete l.plan ph.name
  Completes ph (stop l) = Unit
  Completes ph (abort plan w e) = Unit

  finish_phase-Completes :
      (ph : Phase) (left : ℕ) (o : Outcome (List String) W)
      → (p : PhaseStatus) × (find_phase ph.name (outcome_plan o).phases ≡ some p)
      → Completes ph (finish_phase cluster em pl ph left o)
  unfolding finish_phase
  finish_phase-Completes ph left (aborted plan w e) (p, f) = tt
  finish_phase-Completes ph left (ended l) (p, f) = elim (Bool-cases (is_empty l.left)) [
    | inl e ↦ rw e (
      PhaseStatus.set complete p,
      find-modify_phase_self (PhaseStatus.set complete) (λ q. refl) ph.name l.plan.phases p f,
      refl,
    )
    | inr e ↦ rw (e, serial) tt
  ]

  run_phase-Completes : (ph : Phase) (l : Loop ℕ W) → Completes ph (run_phase cluster em pl ph l)
  run_phase-Completes ph l =
      run_phase_cases cluster em pl (Completes ph) ph l (λ text e m h. tt) (λ p e h. (p, e, h))
        (λ p e h. finish_phase-Completes ph l.left _ (
          find_phase_of_names ph.name l.plan.phases _ p
            (Frame-trans ph.name _ _ _ (enter_phase-Frame cluster em pl ph p l.plan) (
              run_steps-Frame cluster em pl ph ph.steps (started_phase cluster em pl ph p l))).names
            e))

  -- If a serial plan is run and a phase of its spec is then not COMPLETE, then the outcome (the
  -- statuses, the error and the cluster) is that of the plan without the phases after that one.
  pub run_phases_serial :
      (before : List Phase) (ph : Phase) (after : List Phase) (l : Loop ℕ W)
      → ¬ IsComplete (outcome_plan (run_phases cluster em pl (before ++ ph ∷ after) l)) ph.name
      → run_phases cluster em pl (before ++ ph ∷ after) l
        ≡ run_phases cluster em pl (before ++ ph ∷ []) l
  unfolding run_phases
  run_phases_serial [] ph after l h =
      last (run_phase cluster em pl ph l) (run_phase-Completes ph l) h
    where
      last :
          (flow : Flow ℕ W)
          → Completes ph flow
          → ¬ IsComplete (outcome_plan (continue flow (run_phases cluster em pl after))) ph.name
          → continue flow (run_phases cluster em pl after)
            ≡ continue flow (run_phases cluster em pl [])
      last (next l') (p, f, d) n =
          absurd (n (p, run_phases-keeps_complete cluster em pl after ph.name p l' f d, d))
      last (stop l') c n = refl
      last (abort plan w e) c n = refl
  run_phases_serial (b ∷ before) ph after l h =
      go (run_phase cluster em pl b l) (run_phases_serial before ph after) h
    where
      go :
          (flow : Flow ℕ W)
          → ((l' : Loop ℕ W)
              → ¬ IsComplete
                  (outcome_plan (run_phases cluster em pl (before ++ ph ∷ after) l'))
                  ph.name
              → run_phases cluster em pl (before ++ ph ∷ after) l'
                ≡ run_phases cluster em pl (before ++ ph ∷ []) l')
          → ¬ IsComplete
              (outcome_plan (continue flow (run_phases cluster em pl (before ++ ph ∷ after))))
              ph.name
          → continue flow (run_phases cluster em pl (before ++ ph ∷ after))
            ≡ continue flow (run_phases cluster em pl (before ++ ph ∷ []))
      go (next l') ih n = ih l' n
      go (stop l') ih n = refl
      go (abort plan w e) ih n = refl
