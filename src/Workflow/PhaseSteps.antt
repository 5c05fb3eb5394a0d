-- ===== src/Workflow/PhaseSteps.antt =====
-- An execution that makes a phase COMPLETE has made every step of the phase COMPLETE.
use kudo.Prelude.{
  ℕ, ◌≡◌, refl, sym, ◌∙◌, ap, subst, ◌⊎◌, inl, inr, String, false, List, [], ◌∷◌, none, some, arith,
  Bool-cases, Option-cases, eq_iff, ◌==◌, All, All-map, eqb,
}
use mathlib.Core.List.{Memᴰ}
use kudo.Api.ExecutionStatus.{in_progress, complete, is_finished, is_terminal}
use kudo.Api.PhaseStatus.{PhaseStatus}
use kudo.Api.PlanStatus.{PlanStatus, find_phase}
use kudo.Api.PlanStatus.Find.{set-phases}
use kudo.Api.Operator.{Phase}
use kudo.Engine.{Metadata}
use kudo.Tasks.Run.{Cluster}
use kudo.Workflow.Loop.{ActivePlan, Loop, Outcome, ended, aborted}
use kudo.Workflow.Execute.{step_in, run_phase, run_phases, finish_plan, start, execute}
use kudo.Workflow.Cases.{flow_plan, outcome_plan, continue_cases}
use kudo.Workflow.Frame.{run_phase-Frame}
use kudo.Workflow.Steps.{IsStepComplete}
use kudo.Workflow.Complete.{IsComplete, run_phases-keeps_complete}
use kudo.Workflow.Finishes.{run_phase-Finishes}

module _ {Y W : Type 0} (cluster : Cluster Y W) (em : Metadata) (pl : ActivePlan Y) where
  -- Some phase of this name among `phases` has all its steps COMPLETE.
  abbrev pub HasCompleteSteps : String → List Phase → PlanStatus → Type 0
  HasCompleteSteps n phases plan =
      (ph : Phase) × Memᴰ ph phases
      × (ph.name ≡ n)
      × All (λ st. IsStepComplete n plan st.name) ph.steps

  abbrev Steps : String → List Phase → Outcome ℕ W → Type 0
  Steps n phases (ended l) = IsComplete l.plan n → HasCompleteSteps n phases l.plan
  Steps n phases (aborted plan w e) = Unit

  Steps-later :
      (n : String) (ph : Phase) (rest : List Phase) (o : Outcome ℕ W)
      → Steps n rest o
      → Steps n (ph ∷ rest) o
  Steps-later n ph rest (ended l) h = λ c. later l (h c)
    where
      later :
          (l : Loop ℕ W) → HasCompleteSteps n rest l.plan → HasCompleteSteps n (ph ∷ rest) l.plan
      later l (q, m, e, all) = (q, Memᴰ.tail m, e, all)
  Steps-later n ph rest (aborted plan w e) h = h

  -- A phase that was COMPLETE before the last rounds of the loop still has those steps.
  Steps-now :
      (ph : Phase) (rest : List Phase) (l : Loop ℕ W) (p : PhaseStatus) (o : Outcome ℕ W)
      → find_phase ph.name l.plan.phases ≡ some p
      → find_phase ph.name (outcome_plan o).phases ≡ some p
      → All (λ st. IsStepComplete ph.name l.plan st.name) ph.steps
      → Steps ph.name (ph ∷ rest) o
  Steps-now ph rest l p (ended m) f g all = λ c. (
    ph,
    Memᴰ.head refl,
    refl,
    All-map _ _ ph.steps (λ st done. (done.0, ap (step_in st.name) (g ∙ sym f) ∙ done.1, done.2))
        all,
  )
  Steps-now ph rest l p (aborted plan w e) f g all = tt

  IsComplete-cases : (n : String) (a : PlanStatus) → IsComplete a n ⊎ (¬ IsComplete a n)
  IsComplete-cases n a = elim (Option-cases (find_phase n a.phases)) [
    | inl e ↦ inr (λ c. cc (e, c.1))
    | inr (p, e) ↦ elim (Bool-cases (is_finished p.status)) [
      | inl h ↦ inl (p, e, h)
      | inr h ↦ inr (λ c. ground (arith, e, h))
    ]
  ]

  run_phases-Steps :
      (n : String) (phases : List Phase) (l : Loop ℕ W)
      → ¬ IsComplete l.plan n
      → Steps n phases (run_phases cluster em pl phases l)
  unfolding run_phases
  run_phases-Steps n [] l fresh = λ c. absurd (fresh c)
  run_phases-Steps n (ph ∷ rest) l fresh = elim (Bool-cases (ph.name == n)) [
    | inl e ↦
        subst (λ k. Steps k (ph ∷ rest) (run_phases cluster em pl (ph ∷ rest) l))
          ((eq_iff ph.name n).0 e)
          (mine
            (subst
              (λ k.
                (m : Loop ℕ W)
                → ¬ IsComplete m.plan k
                → Steps k rest (run_phases cluster em pl rest m))
              (sym ((eq_iff ph.name n).0 e)) (run_phases-Steps n rest))
            (subst (λ k. ¬ IsComplete l.plan k) (sym ((eq_iff ph.name n).0 e)) fresh))
    | inr e ↦ other e (run_phases-Steps n rest)
  ]
    where
      mine :
          ((m : Loop ℕ W)
            → ¬ IsComplete m.plan ph.name
            → Steps ph.name rest (run_phases cluster em pl rest m))
          → ¬ IsComplete l.plan ph.name
          → Steps ph.name (ph ∷ rest) (run_phases cluster em pl (ph ∷ rest) l)
      mine ih start =
          continue_cases (Steps ph.name (ph ∷ rest)) (run_phase cluster em pl ph l)
            (run_phases cluster em pl rest)
            (λ m e. elim (IsComplete-cases ph.name m.plan) [
              | inl (p, f, d) ↦
                  Steps-now ph rest m p _ f
                    (run_phases-keeps_complete cluster em pl rest ph.name p m f d)
                    ((rw e at (run_phase-Finishes cluster em pl ph l start)) (p, f, d))
              | inr open_phase ↦ Steps-later ph.name ph rest _ (ih m open_phase)
            ])
            (λ m e c.
              (ph, Memᴰ.head refl, refl, (rw e at (run_phase-Finishes cluster em pl ph l start)) c))
            (λ plan w x e. tt)

      other :
          (ph.name == n) ≡ false
          → ((m : Loop ℕ W)
              → ¬ IsComplete m.plan n
              → Steps n rest (run_phases cluster em pl rest m))
          → Steps n (ph ∷ rest) (run_phases cluster em pl (ph ∷ rest) l)
      other e ih =
          continue_cases (Steps n (ph ∷ rest)) (run_phase cluster em pl ph l)
            (run_phases cluster em pl rest)
            (λ m g. Steps-later n ph rest _ (ih m (still m (rw g at same))))
            (λ m g c. absurd (still m (rw g at same) c)) (λ plan w x g. tt)
        where
          same :
              find_phase n (flow_plan (run_phase cluster em pl ph l)).phases
              ≡ find_phase n l.plan.phases
          same = (run_phase-Frame cluster em pl ph l).others n e

          still :
              (m : Loop ℕ W)
              → find_phase n m.plan.phases ≡ find_phase n l.plan.phases
              → ¬ IsComplete m.plan n
          still m g (p, f, d) = fresh (p, sym g ∙ f, d)

  -- If an execution that starts before the plan's end returns no error, and a phase that was not
  -- COMPLETE before is COMPLETE after, then some phase of this name in the plan's spec has every
  -- one of its steps COMPLETE after.
  pub execute-complete_steps :
      (w : W) (n : String)
      → is_terminal pl.plan_status.status ≡ false
      → ¬ IsComplete pl.plan_status n
      → (execute cluster em pl w).error ≡ none
      → IsComplete (execute cluster em pl w).status n
      → HasCompleteSteps n pl.spec.phases (execute cluster em pl w).status
  unfolding execute start finish_plan
  execute-complete_steps w n h fresh ok_run c = rw h (
      finished _ (run_phases-Steps n pl.spec.phases (start cluster em pl w) begun) (rw h at ok_run)
        (rw h at c))
    where
      begun : ¬ IsComplete (start cluster em pl w).plan n
      begun (p, f, d) =
          fresh (p, rw (set-phases (cluster.now w) in_progress pl.plan_status) at f, d)

      finished :
          (o : Outcome ℕ W)
          → Steps n pl.spec.phases o
          → (finish_plan cluster em pl o).error ≡ none
          → IsComplete (finish_plan cluster em pl o).status n
          → HasCompleteSteps n pl.spec.phases (finish_plan cluster em pl o).status
      finished (aborted plan w' e) s a b = cc a
      finished (ended l) s a b = elim (Bool-cases (eqb l.left 0)) [
        | inl e ↦
            rw (e, set-phases (cluster.now l.world) complete l.plan)
              (s (rw (e, set-phases (cluster.now l.world) complete l.plan) at b))
        | inr e ↦ rw e (s (rw e at b))
      ]
