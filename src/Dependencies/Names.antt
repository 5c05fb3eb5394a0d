-- ===== src/Dependencies/Names.antt =====
-- The names of the dependencies that the walk has found, and lists of names without repetition.
use kudo.Prelude.{
  ℕ, zero, suc, ◌≤◌, ◌<◌, ◌≡◌, refl, sym, ap, String, true, false, ◌||◌, List, [], ◌∷◌, ◌++◌,
  Option, none, some, inl, inr, Bool-cases, Option-cases, length, map, contains, arith,
  if◌then◌else◌, ◌==◌, eq_iff, ==_self,
}
use kudo.Libraries.{IsDistinct}
use kudo.Api.Operator.{Task}
use kudo.Dependencies.Resolve.{
  Resources, fully_qualified_name, update_resolved, updated_here, behind, index_of, add_edge,
}

abbrev pub names : List Resources → List String
names = map (λ d. fully_qualified_name d.operator_version)

-- An update of tasks changes no name.
pub names-update_resolved :
    (v : ℕ) (name : String) (child : Resources) (ds ds' : List Resources)
    → update_resolved v name child ds ≡ some ds'
    → names ds' ≡ names ds
unfolding update_resolved fully_qualified_name
names-update_resolved v name child [] ds' h = cc
names-update_resolved zero name child (d ∷ rest) ds' h = here _ h
  where
    here :
        (o : Option (List Task)) → updated_here d rest o ≡ some ds' → names ds' ≡ names (d ∷ rest)
    here none e = cc
    here (some tasks) e = ap (λ o. names (or_none o)) (sym e)
      where
        or_none : Option (List Resources) → List Resources
        or_none none = []
        or_none (some xs) = xs
names-update_resolved (suc v) name child (d ∷ rest) ds' h =
    deeper _ refl h (λ xs e. names-update_resolved v name child rest xs e)
  where
    deeper :
        (o : Option (List Resources))
        → update_resolved v name child rest ≡ o
        → behind d o ≡ some ds'
        → ((xs : List Resources)
            → update_resolved v name child rest ≡ some xs
            → names xs ≡ names rest)
        → names ds' ≡ names (d ∷ rest)
    deeper none e k same = cc
    deeper (some xs) e k same = ground (arith, same xs e, k)

-- A dependency that has no index has a new name.
pub contains-index_of :
    (ds : List Resources) (d : Resources)
    → index_of ds d ≡ none
    → contains (fully_qualified_name d.operator_version) (names ds) ≡ false
unfolding index_of contains
contains-index_of [] d h = refl
contains-index_of (e ∷ rest) d h = elim (Option-cases (index_of rest d)) [
  | inl f ↦ ground (arith, h, contains-index_of rest d f)
  | inr (w, f) ↦ ground (arith, h, f)
]

pub names-append : (ds es : List Resources) → names (ds ++ es) ≡ names ds ++ names es
names-append [] es = refl
names-append (d ∷ ds) es =
    ap (λ xs. fully_qualified_name d.operator_version ∷ xs) (names-append ds es)

pub length-names : (ds : List Resources) → length (names ds) ≡ length ds
length-names [] = refl
length-names (d ∷ ds) = ap suc (length-names ds)

pub contains-append :
    (s : String) (xs ys : List String) → contains s (xs ++ ys) ≡ (contains s xs || contains s ys)
unfolding contains
contains-append s [] ys = refl
contains-append s (x ∷ xs) ys = ground (arith, contains-append s xs ys)

pub IsDistinct-append :
    (xs : List String) (s : String)
    → IsDistinct xs
    → contains s xs ≡ false
    → IsDistinct (xs ++ s ∷ [])
unfolding contains
IsDistinct-append [] s h k = (refl, tt)
IsDistinct-append (x ∷ xs) s (a, h) k = (
  ground (arith, contains-append x xs (s ∷ []), a, k, eq_iff x s, eq_iff s x),
  IsDistinct-append xs s h (ground (arith, k)),
)

pub length-add_edge : (v w : ℕ) (g : List (List ℕ)) → length (add_edge v w g) ≡ length g
unfolding add_edge
length-add_edge v w [] = refl
length-add_edge zero w (ws ∷ rest) = refl
length-add_edge (suc v) w (ws ∷ rest) = ap suc (length-add_edge v w rest)

-- A list without one of its elements.
unfoldable without : String → List String → List String
without s [] = []
without s (x ∷ xs) = if x == s then without s xs else x ∷ without s xs

contains-without :
    (s t : String) (xs : List String)
    → (s == t) ≡ false
    → contains t xs ≡ true
    → contains t (without s xs) ≡ true
unfolding contains without
contains-without s t [] h k = cc
contains-without s t (x ∷ xs) h k =
    ground (arith, eq_iff x s, eq_iff x t, eq_iff s t, contains-without s t xs h)

length-without : (s : String) (xs : List String) → length (without s xs) ≤ length xs
unfolding without
length-without s [] = omega arith
length-without s (x ∷ xs) = ground (arith, length-without s xs)

length-without_one :
    (s : String) (xs : List String) → contains s xs ≡ true → length (without s xs) < length xs
unfolding contains without
length-without_one s [] h = cc
length-without_one s (x ∷ xs) h = ground (arith, length-without s xs, length-without_one s xs)

-- Different names that all stand in a list are at most as many as the list has elements.
pub length-IsDistinct :
    (xs all : List String)
    → IsDistinct xs
    → ((s : String) → contains s xs ≡ true → contains s all ≡ true)
    → length xs ≤ length all
unfolding contains
length-IsDistinct [] all h k = omega arith
length-IsDistinct (x ∷ xs) all (a, h) k =
    let shorter = length-without_one x all (k x (rw (==_self x))) in
    let rest =
      length-IsDistinct xs (without x all) h
        (λ s c. contains-without x s all (differs s c) (k s (ground (arith, c)))) in
    omega (arith, shorter, rest)
  where
    differs : (s : String) → contains s xs ≡ true → (x == s) ≡ false
    differs s c = elim (Bool-cases (x == s)) [
      | inl e ↦ cc (a, rw (← (eq_iff x s).0 e) at c)
      | inr e ↦ e
    ]
