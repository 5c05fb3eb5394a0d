-- ===== src/Repository/Sorting.antt =====
-- `sort.Sort` as a parameter: the order of equal elements is not documented, nor what the sort does if the
-- test is not an order.
use mathlib.Core.List.{Permᴰ}
use mathlib.Core.List.Permᴰ
use kudo.Libraries.{first}
use kudo.Prelude.{
  ◌≡◌, subst, Bool, true, false, List, [], ◌∷◌, some, All, All-map, Bool-cases, inl, inr,
}

pub record Sorter : Type 1 where
  pub sort : {A : Type 0} → (A → A → Bool) → List A → List A

-- No later element is less than an earlier one.
abbrev pub IsOrdered : {A : Type 0} → (A → A → Bool) → List A → Type 0
IsOrdered less [] = Unit
IsOrdered less (x ∷ xs) = All (λ y. less y x ≡ false) xs × IsOrdered less xs

-- A strict weak order of the elements with the property `P`.
pub record IsWeakOrder {A : Type 0} (P : A → Type 0) (less : A → A → Bool) : Type 0 where
  pub asymmetric : (a b : A) → P a → P b → less a b ≡ true → less b a ≡ false
  pub negative :
      (a b c : A) → P a → P b → P c → less a b ≡ false → less b c ≡ false → less a c ≡ false

pub record SorterLaws (s : Sorter) : Type 1 where
  pub permuted : (A : Type 0) (less : A → A → Bool) (xs : List A) → Permᴰ (s.sort less xs) xs
  pub ordered :
      (A : Type 0) (P : A → Type 0) (less : A → A → Bool) (xs : List A)
      → IsWeakOrder P less
      → All P xs
      → IsOrdered less (s.sort less xs)

module _ {A : Type 0} (P : A → Type 0) where
  pub All-perm : {xs ys : List A} → Permᴰ xs ys → All P xs → All P ys
  All-perm Permᴰ.nil h = tt
  All-perm (Permᴰ.cons e p) (hx, h) = (subst P e hx, All-perm p h)
  All-perm (Permᴰ.swap e f) (ha, later) = (subst P f later.0, (subst P e ha, later.1))
  All-perm (Permᴰ.trans p q) h = All-perm q (All-perm p h)

module _ {A : Type 0} {P : A → Type 0} {less : A → A → Bool} (o : IsWeakOrder P less) where
  reversed : IsWeakOrder P (λ a b. less b a)
  reversed = record {
    asymmetric = λ a b p q h. o.asymmetric b a q p h;
    negative = λ a b c p q r h k. o.negative c b a r q p k h;
  }

  irreflexive : (a : A) → P a → less a a ≡ false
  irreflexive a p = elim (Bool-cases (less a a)) [ inl e ↦ o.asymmetric a a p p e | inr e ↦ e ]

  some_injective : (a b : A) → some a ≡ some b → a ≡ b
  some_injective a b h = cc

  -- In an ordered list, nothing that passes the test is less than the first element that does.
  first-IsOrdered :
      (test : A → Bool) (xs : List A) (x : A)
      → All P xs
      → IsOrdered less xs
      → first test xs ≡ some x
      → All (λ y. test y ≡ true → less y x ≡ false) xs
  unfolding first
  first-IsOrdered test [] x h k e = tt
  first-IsOrdered test (z ∷ zs) x (p, h) (k, later) e = elim (Bool-cases (test z)) [
    | inl t ↦
        let same : z ≡ x = some_injective _ _ (rw t at e) in
        subst (λ v. All (λ y. test y ≡ true → less y v ≡ false) (z ∷ zs)) same
          (λ _. irreflexive z p, All-map _ _ zs (λ y l _. l) k)
    | inr t ↦ (λ u. absurd (cc), first-IsOrdered test zs x h later (rw t at e))
  ]

module _ {A : Type 0} {P : A → Type 0} {less : A → A → Bool} (o : IsWeakOrder P less) (s : Sorter)
    (laws : SorterLaws s) where
  -- Of a list sorted from the greatest to the least, the first element that passes a test is no less than
  -- any that does.
  pub first-sort_reverse :
      (test : A → Bool) (xs : List A) (x : A)
      → All P xs
      → first test (s.sort (λ a b. less b a) xs) ≡ some x
      → All (λ y. test y ≡ true → less x y ≡ false) xs
  first-sort_reverse test xs x h e = All-perm _ (laws.permuted A _ xs) (
      first-IsOrdered (reversed o) test (s.sort (λ a b. less b a) xs) x
        (All-perm P (Permᴰ.symm (laws.permuted A _ xs)) h) (laws.ordered A P _ xs (reversed o) h) e)
