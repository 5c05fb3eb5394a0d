-- ===== src/Dependencies/Edges.antt =====
-- Positions in the list of names and edges of the graph that the walk over the dependencies builds:
-- pkg/kudoctl/resources/dependencies/resolve.go.
use kudo.Prelude.{
  ℕ, zero, suc, ◌≡◌, ◌<◌, ◌⊎◌, inl, inr, refl, true, String, List, [], ◌∷◌, ◌++◌, some, none,
  Option, eqb, length, arith, Bool-cases, eq_iff,
}
use kudo.Dependencies.Resolve.{
  Resources, fully_qualified_name, has_index, add_edge, index_of, after, equal_operator_version,
}
use kudo.Dependencies.Names.{names}

-- The name stands at the index.
abbrev pub At : ℕ → String → List String → Type 0
At n s [] = ⊥
At zero s (x ∷ xs) = x ≡ s
At (suc n) s (x ∷ xs) = At n s xs

abbrev pub IsIn : ℕ → List ℕ → Type 0
IsIn w [] = ⊥
IsIn w (x ∷ xs) = (x ≡ w) ⊎ IsIn w xs

-- The graph has an edge from `v` to `w`.
abbrev pub HasEdge : ℕ → ℕ → List (List ℕ) → Type 0
HasEdge v w [] = ⊥
HasEdge zero w (ws ∷ g) = IsIn w ws
HasEdge (suc v) w (ws ∷ g) = HasEdge v w g

has_index-IsIn : (w : ℕ) (ws : List ℕ) → has_index w ws ≡ true → IsIn w ws
unfolding has_index
has_index-IsIn w [] h = absurd (cc h)
has_index-IsIn w (x ∷ xs) h = elim (Bool-cases (eqb x w)) [
  | inl e ↦ inl (ground (arith, e))
  | inr e ↦ inr (has_index-IsIn w xs (rw e at h))
]

pub add_edge-HasEdge : (v w : ℕ) (g : List (List ℕ)) → v < length g → HasEdge v w (add_edge v w g)
unfolding add_edge
add_edge-HasEdge v w [] h = absurd (omega (arith, h))
add_edge-HasEdge zero w (ws ∷ g) h = elim (Bool-cases (has_index w ws)) [
  | inl e ↦ rw e (has_index-IsIn w ws e)
  | inr e ↦ rw e (inl refl)
]
add_edge-HasEdge (suc v) w (ws ∷ g) h = add_edge-HasEdge v w g (omega (arith, h))

pub HasEdge-add_edge :
    (a b v w : ℕ) (g : List (List ℕ)) → HasEdge a b g → HasEdge a b (add_edge v w g)
unfolding add_edge
HasEdge-add_edge a b v w [] h = h
HasEdge-add_edge zero b zero w (ws ∷ g) h = elim (Bool-cases (has_index w ws)) [
  | inl e ↦ rw e h
  | inr e ↦ rw e (inr h)
]
HasEdge-add_edge (suc a) b zero w (ws ∷ g) h = h
HasEdge-add_edge zero b (suc v) w (ws ∷ g) h = h
HasEdge-add_edge (suc a) b (suc v) w (ws ∷ g) h = HasEdge-add_edge a b v w g h

pub HasEdge-append : (a b : ℕ) (g later : List (List ℕ)) → HasEdge a b g → HasEdge a b (g ++ later)
HasEdge-append a b [] later h = absurd h
HasEdge-append zero b (ws ∷ g) later h = h
HasEdge-append (suc a) b (ws ∷ g) later h = HasEdge-append a b g later h

pub At-append : (n : ℕ) (s : String) (xs ys : List String) → At n s xs → At n s (xs ++ ys)
At-append n s [] ys h = absurd h
At-append zero s (x ∷ xs) ys h = h
At-append (suc n) s (x ∷ xs) ys h = At-append n s xs ys h

pub At-last : (s : String) (xs : List String) → At (length xs) s (xs ++ s ∷ [])
At-last s [] = refl
At-last s (x ∷ xs) = At-last s xs

-- A dependency that has an index stands there.
pub index_of-At :
    (ds : List Resources) (d : Resources) (w : ℕ)
    → index_of ds d ≡ some w
    → At w (fully_qualified_name d.operator_version) (names ds)
unfolding index_of
index_of-At [] d w h = cc
index_of-At (e ∷ rest) d w h =
    elim (Bool-cases (equal_operator_version e.operator_version d.operator_version)) [
      | inl same ↦ here w same (rw same at h)
      | inr other ↦ later w (index_of rest d) refl (rw other at h) (λ n e. index_of-At rest d n e)
    ]
  where
    here :
        (w : ℕ)
        → equal_operator_version e.operator_version d.operator_version ≡ true
        → some 0 ≡ some w
        → At w (fully_qualified_name d.operator_version) (names (e ∷ rest))
    here zero same k =
        (eq_iff (fully_qualified_name e.operator_version)
            (fully_qualified_name d.operator_version)).0
          same
    here (suc n) same k = absurd (ground (arith, k))

    later :
        (w : ℕ) (o : Option ℕ)
        → index_of rest d ≡ o
        → after o ≡ some w
        → ((n : ℕ)
            → index_of rest d ≡ some n
            → At n (fully_qualified_name d.operator_version) (names rest))
        → At w (fully_qualified_name d.operator_version) (names (e ∷ rest))
    later w none f k below = absurd (cc k)
    later zero (some n) f k below = absurd (ground (arith, k))
    later (suc w) (some n) f k below = below w (ground (arith, f, k))
