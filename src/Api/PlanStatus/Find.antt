-- ===== src/Api/PlanStatus/Find.antt =====
-- How the search for a phase meets a write to a phase, and that a write keeps the names.
use kudo.Prelude.{
  ℕ, ◌≡◌, refl, String, false, List, [], ◌∷◌, none, some, ◌==◌, arith, eq_iff, map, Bool-cases, inl,
  inr,
}
use kudo.Api.ExecutionStatus.{ExecutionStatus, status_eq_sound}
use kudo.Api.PhaseStatus.{PhaseStatus}
use kudo.Api.PhaseStatus.Find.{step_names}
use kudo.Api.PlanStatus.{PlanStatus, find_phase, modify_phase, set, set_with_message}

-- What an execution never changes: the names of the phases, and of the steps of each.
abbrev pub phase_names : List PhaseStatus → List (String × List String)
phase_names = map (λ p. (p.name, step_names p.steps))

pub find_phase_name :
    (n : String) (xs : List PhaseStatus) (s : PhaseStatus) → find_phase n xs ≡ some s → s.name ≡ n
unfolding find_phase
find_phase_name n [] s h = cc
find_phase_name n (x ∷ xs) s h = ground (arith, eq_iff x.name n, find_phase_name n xs s)

module _ (f : PhaseStatus → PhaseStatus) (keeps : (s : PhaseStatus) → (f s).name ≡ s.name) where
  pub find-modify_phase_self :
      (n : String) (xs : List PhaseStatus) (s : PhaseStatus)
      → find_phase n xs ≡ some s
      → find_phase n (modify_phase n f xs) ≡ some (f s)
  unfolding find_phase modify_phase
  find-modify_phase_self n [] s h = cc
  find-modify_phase_self n (x ∷ xs) s h =
      ground (arith, keeps x, eq_iff x.name n, eq_iff (f x).name n, find-modify_phase_self n xs s)

  pub find-modify_phase-none :
      (n : String) (xs : List PhaseStatus)
      → find_phase n xs ≡ none
      → find_phase n (modify_phase n f xs) ≡ none
  unfolding find_phase modify_phase
  find-modify_phase-none n [] h = refl
  find-modify_phase-none n (x ∷ xs) h =
      ground (arith, keeps x, eq_iff x.name n, eq_iff (f x).name n, find-modify_phase-none n xs)

  pub find-modify_phase_other :
      (m n : String) (xs : List PhaseStatus)
      → (m == n) ≡ false
      → find_phase n (modify_phase m f xs) ≡ find_phase n xs
  unfolding find_phase modify_phase
  find-modify_phase_other m n [] h = refl
  find-modify_phase_other m n (x ∷ xs) h = ground (
    arith,
    keeps x,
    eq_iff x.name n,
    eq_iff (f x).name n,
    eq_iff x.name m,
    eq_iff m n,
    find-modify_phase_other m n xs,
  )

  pub phase_names-modify :
      (n : String) (xs : List PhaseStatus)
      → ((s : PhaseStatus) → step_names (f s).steps ≡ step_names s.steps)
      → phase_names (modify_phase n f xs) ≡ phase_names xs
  unfolding modify_phase
  phase_names-modify n [] h = refl
  phase_names-modify n (x ∷ xs) h = ground (arith, keeps x, h x, phase_names-modify n xs h)

-- The setters change the status, and none of the rest but the message and the timestamp.
pub set-status :
    (now : ℕ) (status : ExecutionStatus) (s : PlanStatus) → (set now status s).status ≡ status
unfolding set
set-status now status s = ground (arith, status_eq_sound s.status status)

pub set-phases :
    (now : ℕ) (status : ExecutionStatus) (s : PlanStatus) → (set now status s).phases ≡ s.phases
unfolding set
set-phases now status s = ground arith

pub set_with_message-status :
    (now : ℕ) (status : ExecutionStatus) (m : String) (s : PlanStatus)
    → (set_with_message now status m s).status ≡ status
unfolding set_with_message
set_with_message-status now status m s = ground (arith, status_eq_sound s.status status)

pub set_with_message-phases :
    (now : ℕ) (status : ExecutionStatus) (m : String) (s : PlanStatus)
    → (set_with_message now status m s).phases ≡ s.phases
unfolding set_with_message
set_with_message-phases now status m s = ground arith

-- A phase is found wherever the names are the same.
pub find_phase_of_names :
    (n : String) (xs ys : List PhaseStatus) (p : PhaseStatus)
    → phase_names ys ≡ phase_names xs
    → find_phase n xs ≡ some p
    → (q : PhaseStatus) × (find_phase n ys ≡ some q)
unfolding find_phase
find_phase_of_names n [] ys p e h = cc
find_phase_of_names n (x ∷ xs) [] p e h = cc
find_phase_of_names n (x ∷ xs) (y ∷ ys) p e h = elim (Bool-cases (x.name == n)) [
  | inl b ↦ (y, ground arith)
  | inr b ↦
      let (q, f) = find_phase_of_names n xs ys p (ground arith) (ground arith) in (q, ground arith)
]

-- And so are the names of its steps.
pub step_names_of_names :
    (n : String) (xs ys : List PhaseStatus) (p q : PhaseStatus)
    → phase_names ys ≡ phase_names xs
    → find_phase n xs ≡ some p
    → find_phase n ys ≡ some q
    → step_names q.steps ≡ step_names p.steps
unfolding find_phase
step_names_of_names n [] ys p q e h k = cc
step_names_of_names n (x ∷ xs) [] p q e h k = cc
step_names_of_names n (x ∷ xs) (y ∷ ys) p q e h k = elim (Bool-cases (x.name == n)) [
  | inl b ↦ ground arith
  | inr b ↦ step_names_of_names n xs ys p q (ground arith) (ground arith) (ground arith)
]
