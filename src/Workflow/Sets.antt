-- ===== src/Workflow/Sets.antt =====
-- The sets of names that are left: what is in them after a name is added or deleted.
use kudo.Prelude.{◌≡◌, ◌⊎◌, String, true, List, [], ◌∷◌, ◌==◌, arith, eq_iff, contains}
use kudo.Workflow.Loop.{add, string_array_to_set, remove}

pub contains-remove :
    (m n : String) (xs : List String)
    → contains n xs ≡ true
    → ((m == n) ≡ true) ⊎ (contains n (remove m xs) ≡ true)
unfolding contains remove
contains-remove m n [] h = cc
contains-remove m n (x ∷ xs) h =
    ground (arith, contains-remove m n xs, eq_iff x n, eq_iff x m, eq_iff m n)

pub contains-string_array_to_set :
    (n : String) (xs : List String)
    → contains n xs ≡ true
    → contains n (string_array_to_set xs) ≡ true
unfolding contains string_array_to_set add
contains-string_array_to_set n [] h = h
contains-string_array_to_set n (x ∷ xs) h =
    ground (arith, contains-string_array_to_set n xs, eq_iff x n)
