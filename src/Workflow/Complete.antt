-- ===== src/Workflow/Complete.antt =====
-- A plan that `Execute` calls COMPLETE has every phase COMPLETE.
use kudo.Prelude.{
  ℕ, suc, ◌+◌, ◌-◌, ◌≤◌, ◌≡◌, refl, ◌∙◌, subst, ◌⊎◌, inl, inr, String, true, false, List, [], ◌∷◌,
  some, arith, is_empty, Bool-cases, eqb, length, All, ◌==◌, eq_iff,
}
use kudo.Api.ExecutionStatus.{in_progress, complete, is_finished, is_terminal}
use kudo.Api.PhaseStatus
use kudo.Api.PhaseStatus.{PhaseStatus}
use kudo.Api.PlanStatus.{PlanStatus, find_phase}
use kudo.Api.PlanStatus.Find.{set-status, set-phases, find_phase_of_names, find-modify_phase_self}
use kudo.Api.Operator.{Phase}
use kudo.Engine.{Metadata}
use kudo.Tasks.Run.{Cluster}
use kudo.Workflow.Loop.{ActivePlan, Loop, Flow, next, stop, abort, Outcome, ended, aborted}
use kudo.Workflow.Execute.{
  is_serial, finish_phase, run_phase, run_phases, finish_plan, start, execute,
}
use kudo.Workflow.Cases.{flow_plan, outcome_plan, continue_cases, run_phase_cases, started_phase}
use kudo.Workflow.Frame.{Frame-trans, run_phase-Frame, enter_phase-Frame, run_steps-Frame}
use kudo.Workflow.Status.{OutcomeStatus, run_phases-OutcomeStatus}

-- The plan has a phase of this name, and the phase is COMPLETE.
abbrev pub IsComplete : PlanStatus → String → Type 0
IsComplete plan n =
    (p : PhaseStatus) × (find_phase n plan.phases ≡ some p) × (is_finished p.status ≡ true)

module _ {Y W : Type 0} (cluster : Cluster Y W) (em : Metadata) (pl : ActivePlan Y) where
  -- A COMPLETE phase is skipped: not even its message changes.
  run_phase-keeps_complete :
      (ph : Phase) (n : String) (p : PhaseStatus) (l : Loop ℕ W)
      → find_phase n l.plan.phases ≡ some p
      → is_finished p.status ≡ true
      → find_phase n (flow_plan (run_phase cluster em pl ph l)).phases ≡ some p
  run_phase-keeps_complete ph n p l found done = elim (Bool-cases (ph.name == n)) [
    | inl e ↦ same (rw (← (eq_iff ph.name n).0 e) at found)
    | inr e ↦ (run_phase-Frame cluster em pl ph l).others n e ∙ found
  ]
    where
      same :
          find_phase ph.name l.plan.phases ≡ some p
          → find_phase n (flow_plan (run_phase cluster em pl ph l)).phases ≡ some p
      same f =
          run_phase_cases cluster em pl (λ flow. find_phase n (flow_plan flow).phases ≡ some p) ph l
            (λ text e m h. cc (f, m)) (λ q e h. found) (λ q e h. ground arith)

  -- The loop over the phases leaves a phase that is COMPLETE before, its steps included, as it is,
  -- whichever phases it goes through.
  pub run_phases-keeps_complete :
      (phases : List Phase) (n : String) (p : PhaseStatus) (l : Loop ℕ W)
      → find_phase n l.plan.phases ≡ some p
      → is_finished p.status ≡ true
      → find_phase n (outcome_plan (run_phases cluster em pl phases l)).phases ≡ some p
  unfolding run_phases
  run_phases-keeps_complete [] n p l found done = found
  run_phases-keeps_complete (ph ∷ rest) n p l found done =
      let kept = run_phase-keeps_complete ph n p l found done in
      continue_cases (λ o. find_phase n (outcome_plan o).phases ≡ some p)
        (run_phase cluster em pl ph l) (run_phases cluster em pl rest)
        (λ l' e. run_phases-keeps_complete rest n p l' (rw e at kept) done) (λ l' e. rw e at kept)
        (λ plan w x e. rw e at kept)

  -- A round of the loop completes its phase and counts it, or counts nothing.
  abbrev Counts : Phase → ℕ → Flow ℕ W → Type 0
  Counts ph left (next l) = ((l.left ≡ left - 1) × IsComplete l.plan ph.name) ⊎ (l.left ≡ left)
  Counts ph left (stop l) = l.left ≡ left
  Counts ph left (abort plan w e) = Unit

  finish_phase-Counts :
      (ph : Phase) (left : ℕ) (o : Outcome (List String) W)
      → (p : PhaseStatus) × (find_phase ph.name (outcome_plan o).phases ≡ some p)
      → Counts ph left (finish_phase cluster em pl ph left o)
  unfolding finish_phase
  finish_phase-Counts ph left (aborted plan w e) (p, f) = tt
  finish_phase-Counts ph left (ended l) (p, f) = elim (Bool-cases (is_empty l.left)) [
    | inl e ↦ rw e (
        inl (
          refl,
          (
            PhaseStatus.set complete p,
            find-modify_phase_self (PhaseStatus.set complete) (λ q. refl) ph.name l.plan.phases p f,
            refl,
          ),
        ))
    | inr e ↦ elim (Bool-cases (is_serial pl.spec.strategy)) [
      | inl s ↦ rw (e, s) refl
      | inr s ↦ rw (e, s) (inr refl)
    ]
  ]

  run_phase-Counts : (ph : Phase) (l : Loop ℕ W) → Counts ph l.left (run_phase cluster em pl ph l)
  run_phase-Counts ph l =
      run_phase_cases cluster em pl (Counts ph l.left) ph l (λ text e m h. tt)
        (λ p e h. inl (refl, (p, e, h)))
        (λ p e h. finish_phase-Counts ph l.left _ (
          find_phase_of_names ph.name l.plan.phases _ p
            (Frame-trans ph.name _ _ _ (enter_phase-Frame cluster em pl ph p l.plan) (
              run_steps-Frame cluster em pl ph ph.steps (started_phase cluster em pl ph p l))).names
            e))

  abbrev Sound : List Phase → ℕ → Outcome ℕ W → Type 0
  Sound phases left (ended l) =
      (left ≤ l.left + length phases)
      × (left ≡ l.left + length phases → All (λ ph. IsComplete l.plan ph.name) phases)
  Sound phases left (aborted plan w e) = Unit

  abbrev Kept : String → PhaseStatus → Outcome ℕ W → Type 0
  Kept n p o = find_phase n (outcome_plan o).phases ≡ some p

  Sound-counted :
      (ph : Phase) (rest : List Phase) (left : ℕ) (p : PhaseStatus) (o : Outcome ℕ W)
      → suc (length rest) ≤ left
      → is_finished p.status ≡ true
      → Kept ph.name p o
      → Sound rest (left - 1) o
      → Sound (ph ∷ rest) left o
  Sound-counted ph rest left p (aborted plan w e) h d k s = tt
  Sound-counted ph rest left p (ended l) h d k s =
      (omega arith, λ e. ((p, k, d), s.1 (omega arith)))

  Sound-uncounted :
      (ph : Phase) (rest : List Phase) (left : ℕ) (o : Outcome ℕ W)
      → Sound rest left o
      → Sound (ph ∷ rest) left o
  Sound-uncounted ph rest left (aborted plan w e) s = tt
  Sound-uncounted ph rest left (ended l) s = (omega arith, λ e. absurd (omega arith))

  run_phases-Sound :
      (phases : List Phase) (l : Loop ℕ W)
      → length phases ≤ l.left
      → Sound phases l.left (run_phases cluster em pl phases l)
  unfolding run_phases
  run_phases-Sound [] l h = (omega arith, λ e. tt)
  run_phases-Sound (ph ∷ rest) l h =
      continue_cases (Sound (ph ∷ rest) l.left) (run_phase cluster em pl ph l)
        (run_phases cluster em pl rest)
        (λ l' e. go l' (rw e at (run_phase-Counts ph l)) (run_phases-Sound rest l'))
        (λ l' e.
          let same : l'.left ≡ l.left = rw e at (run_phase-Counts ph l) in
          (omega arith, λ f. absurd (omega arith)))
        (λ plan w x e. tt)
    where
      go :
          (l' : Loop ℕ W)
          → Counts ph l.left (next l')
          → (length rest ≤ l'.left → Sound rest l'.left (run_phases cluster em pl rest l'))
          → Sound (ph ∷ rest) l.left (run_phases cluster em pl rest l')
      go l' (inl (c, (p, f, d))) ih =
          Sound-counted ph rest l.left p _ h d (run_phases-keeps_complete rest ph.name p l' f d)
            (subst (λ k. Sound rest k (run_phases cluster em pl rest l')) c (ih (omega arith)))
      go l' (inr c) ih =
          Sound-uncounted ph rest l.left _
            (subst (λ k. Sound rest k (run_phases cluster em pl rest l')) c (ih (omega arith)))

  finish_plan-complete :
      (phases : List Phase) (o : Outcome ℕ W)
      → OutcomeStatus in_progress o
      → Sound phases (length phases) o
      → (finish_plan cluster em pl o).status.status ≡ complete
      → All (λ ph. IsComplete (finish_plan cluster em pl o).status ph.name) phases
  unfolding finish_plan
  finish_plan-complete phases (aborted plan w e) h s c = cc (h.0, c)
  finish_plan-complete phases (ended l) h s c = elim (Bool-cases (eqb l.left 0)) [
    | inl e ↦ rw (e, set-phases (cluster.now l.world) complete l.plan) (s.1 (ground arith))
    | inr e ↦ cc (rw e at c, h)
  ]

  -- If an execution that starts before the plan's end ends with the plan COMPLETE, then every phase
  -- of the plan's spec has a status, and that status is COMPLETE.
  pub execute-complete_phases :
      (w : W)
      → is_terminal pl.plan_status.status ≡ false
      → (execute cluster em pl w).status.status ≡ complete
      → All (λ ph. IsComplete (execute cluster em pl w).status ph.name) pl.spec.phases
  unfolding execute start
  execute-complete_phases w h c = rw h (
      finish_plan-complete pl.spec.phases _
        (run_phases-OutcomeStatus cluster em pl pl.spec.phases in_progress (start cluster em pl w)
          (set-status _ in_progress _))
        (run_phases-Sound pl.spec.phases (start cluster em pl w) (omega arith)) (rw h at c))
