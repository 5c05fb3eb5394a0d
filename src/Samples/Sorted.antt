-- ===== src/Samples/Sorted.antt =====
-- A sort that keeps what the model asks of `sort.Sort`, and versions that are numbers.
use Prim.Native.Nat.{compare}
use mathlib.Core.List.{Permᴰ}
use mathlib.Core.List.Permᴰ
use kudo.Prelude.{
  ℕ, ◌≡◌, refl, String, Bool, false, List, [], ◌∷◌, Option, none, some, ◌==◌, if◌then◌else◌,
  Bool-cases, inl, inr, All, arith,
}
use kudo.Repository.Sorting.{Sorter, SorterLaws, IsOrdered, IsWeakOrder, All-perm}
use kudo.Repository.Order.{IsOrder}
use kudo.Repository.Index.{Semver}

module _ {A : Type 0} (less : A → A → Bool) where
  unfoldable pub place : A → List A → List A
  place x [] = x ∷ []
  place x (y ∷ ys) = if less y x then y ∷ place x ys else x ∷ y ∷ ys

  unfoldable pub insertion_sort : List A → List A
  unfolding place
  insertion_sort [] = []
  insertion_sort (x ∷ xs) = place x (insertion_sort xs)

  place-perm : (x : A) (ys : List A) → Permᴰ (place x ys) (x ∷ ys)
  unfolding place
  place-perm x [] = Permᴰ.refl (x ∷ [])
  place-perm x (y ∷ ys) = elim (Bool-cases (less y x)) [
    | inl e ↦ rw e (Permᴰ.trans (Permᴰ.cons refl (place-perm x ys)) (Permᴰ.swap refl refl))
    | inr e ↦ rw e (Permᴰ.refl (x ∷ y ∷ ys))
  ]

  insertion_sort-perm : (xs : List A) → Permᴰ (insertion_sort xs) xs
  unfolding insertion_sort
  insertion_sort-perm [] = Permᴰ.nil
  insertion_sort-perm (x ∷ xs) =
      Permᴰ.trans (place-perm x (insertion_sort xs)) (Permᴰ.cons refl (insertion_sort-perm xs))

  module _ {P : A → Type 0} (o : IsWeakOrder P less) where
    all_above :
        (x y : A) (ys : List A)
        → P x
        → P y
        → All P ys
        → less y x ≡ false
        → All (λ z. less z y ≡ false) ys
        → All (λ z. less z x ≡ false) ys
    all_above x y [] p q r e h = tt
    all_above x y (z ∷ zs) p q (r, rs) e (k, h) =
        (o.negative z y x r q p k e, all_above x y zs p q rs e h)

    place-IsOrdered :
        (x : A) (ys : List A) → P x → All P ys → IsOrdered less ys → IsOrdered less (place x ys)
    unfolding place
    place-IsOrdered x [] p q h = (tt, tt)
    place-IsOrdered x (y ∷ ys) p (q, r) (k, h) = elim (Bool-cases (less y x)) [
      | inl e ↦ rw e (
        All-perm _ (Permᴰ.symm (place-perm x ys)) (o.asymmetric y x q p e, k),
        place-IsOrdered x ys p r h,
      )
      | inr e ↦ rw e ((e, all_above x y ys p q r e k), (k, h))
    ]

    insertion_sort-IsOrdered : (xs : List A) → All P xs → IsOrdered less (insertion_sort xs)
    unfolding insertion_sort
    insertion_sort-IsOrdered [] h = tt
    insertion_sort-IsOrdered (x ∷ xs) (p, h) =
        place-IsOrdered x (insertion_sort xs) p (All-perm P (Permᴰ.symm (insertion_sort-perm xs)) h)
          (insertion_sort-IsOrdered xs h)

abbrev pub sorter : Sorter
sorter = record { sort = λ less xs. insertion_sort less xs }

pub sorter-SorterLaws : SorterLaws sorter
sorter-SorterLaws = record {
  permuted = λ A less xs. insertion_sort-perm less xs;
  ordered = λ A P less xs o h. insertion_sort-IsOrdered less o xs h;
}

abbrev number : String → Option ℕ
number s =
    if s == "1" then some 1 else if s == "2" then some 2 else if s == "10" then some 10 else none

abbrev pub numbers : Semver ℕ
numbers = record { new_version = number; compare_to = compare }

pub numbers-IsOrder : IsOrder numbers.compare_to
numbers-IsOrder = record {
  swapped = λ a b. ground arith;
  respects = λ a b c h. ground arith;
  transitive = λ a b c h k. ground arith;
}
