-- ===== src/Api/PhaseStatus/Find.antt =====
-- How the search for a step meets a write to a step, and that a write keeps the names.
use kudo.Prelude.{
  ◌≡◌, refl, String, false, List, [], ◌∷◌, some, ◌==◌, arith, eq_iff, map, Bool-cases, inl, inr,
}
use kudo.Api.StepStatus.{StepStatus}
use kudo.Api.PhaseStatus.{find_step, modify_step}

abbrev pub step_names : List StepStatus → List String
step_names = map (λ s. s.name)

pub find_step_name :
    (n : String) (xs : List StepStatus) (s : StepStatus) → find_step n xs ≡ some s → s.name ≡ n
unfolding find_step
find_step_name n [] s h = cc
find_step_name n (x ∷ xs) s h = ground (arith, eq_iff x.name n, find_step_name n xs s)

module _ (f : StepStatus → StepStatus) (keeps : (s : StepStatus) → (f s).name ≡ s.name) where
  pub find-modify_step_self :
      (n : String) (xs : List StepStatus) (s : StepStatus)
      → find_step n xs ≡ some s
      → find_step n (modify_step n f xs) ≡ some (f s)
  unfolding find_step modify_step
  find-modify_step_self n [] s h = cc
  find-modify_step_self n (x ∷ xs) s h =
      ground (arith, keeps x, eq_iff x.name n, eq_iff (f x).name n, find-modify_step_self n xs s)

  pub find-modify_step_other :
      (m n : String) (xs : List StepStatus)
      → (m == n) ≡ false
      → find_step n (modify_step m f xs) ≡ find_step n xs
  unfolding find_step modify_step
  find-modify_step_other m n [] h = refl
  find-modify_step_other m n (x ∷ xs) h = ground (
    arith,
    keeps x,
    eq_iff x.name n,
    eq_iff (f x).name n,
    eq_iff x.name m,
    eq_iff m n,
    find-modify_step_other m n xs,
  )

  pub step_names-modify :
      (n : String) (xs : List StepStatus) → step_names (modify_step n f xs) ≡ step_names xs
  unfolding modify_step
  step_names-modify n [] = refl
  step_names-modify n (x ∷ xs) = ground (arith, keeps x, step_names-modify n xs)

-- A step is found wherever the names are the same.
pub find_step_of_names :
    (n : String) (xs ys : List StepStatus) (p : StepStatus)
    → step_names ys ≡ step_names xs
    → find_step n xs ≡ some p
    → (q : StepStatus) × (find_step n ys ≡ some q)
unfolding find_step
find_step_of_names n [] ys p e h = cc
find_step_of_names n (x ∷ xs) [] p e h = cc
find_step_of_names n (x ∷ xs) (y ∷ ys) p e h = elim (Bool-cases (x.name == n)) [
  | inl b ↦ (y, ground arith)
  | inr b ↦
      let (q, f) = find_step_of_names n xs ys p (ground arith) (ground arith) in (q, ground arith)
]
