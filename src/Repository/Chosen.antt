-- ===== src/Repository/Chosen.antt =====
-- The order of pkg/util/kudo/versions.go, and the operator version that the resolver of the command line
-- chooses in the cluster.
use Prim.Native.Nat.{Ordering}
use kudo.Prelude.{
  ◌≡◌, ◌≢◌, refl, sym, ap, ◌∙◌, String, Bool, true, false, List, [], ◌∷◌, Option, none, some, ◌==◌,
  if◌then◌else◌, Bool-cases, inl, inr, All, eq_iff, ==_sym, arith,
}
use kudo.Libraries.{first, select, Packages, Laws}
use kudo.Repository.Sorting.{Sorter, SorterLaws, IsWeakOrder, first-sort_reverse}
use kudo.Repository.Order.{
  IsOrder, opposite, is_lt, both_by, both_by-IsOrder, is_lt-asymmetric, is_lt-negative,
  compare_text, compare_text-IsOrder, compare_text-eq,
}
use kudo.Repository.Index.{Semver}
use kudo.Repository.Versions.{
  SortableOperator, lt_or_gt, compare_parsed, compare_version, matches, find_first, is_less, choose,
}

lt_or_gt_lem : (o : Ordering) → o ≢ Ordering.eq → lt_or_gt o ≡ o
lt_or_gt_lem Ordering.lt h = refl
lt_or_gt_lem Ordering.eq h = absurd (h refl)
lt_or_gt_lem Ordering.gt h = refl

module _ {V : Type 0} (sv : Semver V) (o : IsOrder sv.compare_to) where
  -- Texts that are no semantic versions are less than those that are, and ordered among themselves.
  compare_all : (Option V × String) → (Option V × String) → Ordering
  compare_all (some v, x) (some w, y) = sv.compare_to v w
  compare_all (none, x) (none, y) = compare_text x y
  compare_all (none, x) (some w, y) = Ordering.lt
  compare_all (some v, x) (none, y) = Ordering.gt

  abbrev key : String → Option V × String
  key x = (sv.new_version x, x)

  itself : {A : Type 0} {cmp : A → A → Ordering} → IsOrder cmp → (a : A) → cmp a a ≡ Ordering.eq
  itself p a = ground (arith, p.swapped a a)

  compare_all-itself : (a : Option V × String) → compare_all a a ≡ Ordering.eq
  unfolding compare_all
  compare_all-itself (some v, x) = itself o v
  compare_all-itself (none, x) = itself compare_text-IsOrder x

  compare_version-all : (x y : String) → compare_version sv x y ≡ compare_all (key x) (key y)
  unfolding compare_version compare_all
  compare_version-all x y = elim (Bool-cases (x == y)) [
    | inl e ↦ rw e (
        sym (compare_all-itself (key x)) ∙ ap (λ z. compare_all (key x) (key z)) ((eq_iff x y).0 e))
    | inr e ↦ rw e (others (sv.new_version x) (sv.new_version y) (ne_of_test x y e))
  ]
    where
      ne_of_test : (s t : String) → (s == t) ≡ false → s ≢ t
      ne_of_test s t f e = cc (f, (eq_iff s t).1 e)

      others : (p q : Option V) → x ≢ y → compare_parsed sv p q x y ≡ compare_all (p, x) (q, y)
      others (some v) (some w) h = refl
      others (some v) none h = refl
      others none (some w) h = refl
      others none none h = lt_or_gt_lem (compare_text x y) (λ e. h (compare_text-eq x y e))

  compare_all-IsOrder : IsOrder compare_all
  unfolding compare_all
  compare_all-IsOrder = record { swapped = swapped; respects = respects; transitive = transitive }
    where
      swapped : (a b : Option V × String) → compare_all b a ≡ opposite (compare_all a b)
      swapped (some v, x) (some w, y) = o.swapped v w
      swapped (some v, x) (none, y) = refl
      swapped (none, x) (some w, y) = refl
      swapped (none, x) (none, y) = compare_text-IsOrder.swapped x y

      respects :
          (a b c : Option V × String)
          → compare_all a b ≡ Ordering.eq
          → compare_all a c ≡ compare_all b c
      respects (some v, x) (some w, y) (some u, z) h = o.respects v w u h
      respects (some v, x) (some w, y) (none, z) h = refl
      respects (some v, x) (none, y) c h = cc
      respects (none, x) (some w, y) c h = cc
      respects (none, x) (none, y) (some u, z) h = refl
      respects (none, x) (none, y) (none, z) h = compare_text-IsOrder.respects x y z h

      transitive :
          (a b c : Option V × String)
          → compare_all a b ≡ Ordering.lt
          → compare_all b c ≡ Ordering.lt
          → compare_all a c ≡ Ordering.lt
      transitive (some v, x) (some w, y) (some u, z) h k = o.transitive v w u h k
      transitive (some v, x) (some w, y) (none, z) h k = cc
      transitive (some v, x) (none, y) c h k = cc
      transitive (none, x) b (some u, z) h k = refl
      transitive (none, x) (some w, y) (none, z) h k = cc
      transitive (none, x) (none, y) (none, z) h k = compare_text-IsOrder.transitive x y z h k

  module _ {A : Type 0} (so : SortableOperator A) where
    -- The name, against the order, and the two versions.
    compare_names : String → String → Ordering
    compare_names x y = compare_text y x

    abbrev triple : A → String × ((Option V × String) × (Option V × String))
    triple a = (so.operator_name a, (key (so.app_version a), key (so.operator_version a)))

    abbrev compare_triples :
        (String × ((Option V × String) × (Option V × String)))
        → (String × ((Option V × String) × (Option V × String)))
        → Ordering
    compare_triples = both_by compare_names (both_by compare_all compare_all)

    triples-IsOrder : IsOrder compare_triples
    unfolding compare_names
    triples-IsOrder =
        both_by-IsOrder
          (record {
            swapped = λ a b. compare_text-IsOrder.swapped b a;
            respects = λ a b c h. ap (λ x. compare_text c x) (sym (compare_text-eq b a h));
            transitive = λ a b c h k. compare_text-IsOrder.transitive c b a k h;
          })
          (both_by-IsOrder compare_all-IsOrder compare_all-IsOrder)

    is_less-triples : (x y : A) → is_less so sv x y ≡ is_lt (compare_triples (triple x) (triple y))
    unfolding is_less compare_names
    is_less-triples x y = ground (
      arith,
      same_name,
      test_of_same,
      compare_text-IsOrder.swapped (so.operator_name x) (so.operator_name y),
      compare_version-all (so.app_version x) (so.app_version y),
      compare_version-all (so.operator_version x) (so.operator_version y),
    )
      where
        same_name :
            (so.operator_name x == so.operator_name y) ≡ true
            → compare_text (so.operator_name y) (so.operator_name x) ≡ Ordering.eq
        same_name e =
            ap (λ n. compare_text (so.operator_name y) n) ((eq_iff _ _).0 e)
            ∙ itself compare_text-IsOrder (so.operator_name y)

        test_of_same :
            compare_text (so.operator_name y) (so.operator_name x) ≡ Ordering.eq
            → (so.operator_name x == so.operator_name y) ≡ true
        test_of_same e = (eq_iff _ _).1 (sym (compare_text-eq _ _ e))

    is_less-IsWeakOrder : IsWeakOrder (λ (a : A). Unit {0}) (is_less so sv)
    is_less-IsWeakOrder = record {
      asymmetric = λ a b _ _ h.
          is_less-triples b a
          ∙ is_lt-asymmetric triples-IsOrder (triple a) (triple b) (sym (is_less-triples a b) ∙ h);
      negative = λ a b c _ _ _ h k.
          is_less-triples a c
          ∙ is_lt-negative triples-IsOrder (triple a) (triple b) (triple c)
              (sym (is_less-triples a b) ∙ h) (sym (is_less-triples b c) ∙ k);
    }

    find_first-first :
        (xs : List A) (name operator_version app_version : String)
        → find_first so xs name operator_version app_version
          ≡ first (matches so name operator_version app_version) xs
    unfolding find_first first
    find_first-first [] name operator_version app_version = refl
    find_first-first (x ∷ xs) name operator_version app_version =
        ap (if◌then◌else◌ (matches so name operator_version app_version x) (some x))
          (find_first-first xs name operator_version app_version)

    module _ (funk : Packages) (funk_laws : Laws funk) (go : Sorter) (go_laws : SorterLaws go) where
      -- What the resolver chooses is no less than any operator version in the cluster that has the name and
      -- the given versions.
      pub choose-newest :
          (list_ : List A) (name operator_version app_version : String) (chosen : A)
          → choose so sv funk go list_ name operator_version app_version ≡ some chosen
          → All
              (λ a.
                matches so name operator_version app_version a ≡ true
                → is_less so sv chosen a ≡ false)
              list_
      unfolding choose select
      choose-newest list_ name operator_version app_version chosen h = of_selected list_ (
          first-sort_reverse is_less-IsWeakOrder go go_laws
            (matches so name operator_version app_version) (select named list_) chosen
            (trivial (select named list_))
            (sym (
                find_first-first (go.sort (λ x y. is_less so sv y x) (select named list_)) name
                  operator_version app_version)
              ∙ ap
                  (λ l.
                    find_first so (go.sort (λ x y. is_less so sv y x) l) name operator_version
                      app_version)
                  (sym (funk_laws.filter_lem A list_ named))
              ∙ h))
        where
          named : A → Bool
          named a = so.operator_name a == name

          Fits : A → Type 0
          Fits a =
              matches so name operator_version app_version a ≡ true → is_less so sv chosen a ≡ false

          trivial : (xs : List A) → All (λ (a : A). Unit {0}) xs
          trivial [] = tt
          trivial (x ∷ xs) = (tt, trivial xs)

          of_selected : (xs : List A) → All Fits (select named xs) → All Fits xs
          of_selected [] k = tt
          of_selected (x ∷ xs) k = elim (Bool-cases (named x)) [
            | inl e ↦
                let both : All Fits (x ∷ select named xs) = rw e at k in
                (both.0, of_selected xs both.1)
            | inr e ↦ (
              λ m. absurd (ground (arith, e, ==_sym name (so.operator_name x), m)),
              of_selected xs (rw e at k),
            )
          ]
