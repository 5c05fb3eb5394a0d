-- ===== src/Libraries.antt =====
-- What the program calls of third-party Go packages, as parameters of the models: go-funk, and the
-- conditions of k8s.io/apimachinery. The laws say what the packages document.
use kudo.Prelude.{
  ◌≡◌, refl, String, Bool, false, List, [], ◌∷◌, Option, none, some, ◌==◌, if◌then◌else◌, contains,
  arith, eq_iff,
}

-- `metav1.Condition`: the fields that the program reads and writes.
pub record Condition : Type 0 where
  pub type : String
  pub status : String
  pub reason : String
  pub message : String

-- The first element that passes the test.
unfoldable pub first {ℓ} : {A : Type ℓ} → (A → Bool) → List A → Option A
first p [] = none
first p (x ∷ xs) = if p x then some x else first p xs

-- The elements that pass the test.
unfoldable pub select {ℓ} : {A : Type ℓ} → (A → Bool) → List A → List A
select p [] = []
select p (x ∷ xs) = if p x then x ∷ select p xs else select p xs

pub record Packages : Type 1 where
  -- `funk.ContainsString`, `funk.FilterString` and `funk.UniqString`.
  pub contains_string : List String → String → Bool
  pub filter_string : List String → (String → Bool) → List String
  pub uniq_string : List String → List String
  -- `funk.Filter`.
  pub filter : {A : Type 0} → List A → (A → Bool) → List A
  -- `funk.Find`: nil if no element passes the test.
  pub find : {A : Type 0} → List A → (A → Bool) → Option A
  -- `meta.SetStatusCondition` and `meta.FindStatusCondition`.
  pub set_status_condition : List Condition → Condition → List Condition
  pub find_status_condition : List Condition → String → Option Condition

abbrev pub IsDistinct : List String → Type 0
IsDistinct [] = Unit
IsDistinct (x ∷ xs) = (contains x xs ≡ false) × IsDistinct xs

pub record Laws (p : Packages) : Type 1 where
  pub contains_string_lem : (xs : List String) (s : String) → p.contains_string xs s ≡ contains s xs
  pub filter_string_lem :
      (xs : List String) (f : String → Bool) → p.filter_string xs f ≡ select f xs
  pub uniq_string_same :
      (xs : List String) (s : String) → contains s (p.uniq_string xs) ≡ contains s xs
  pub uniq_string_distinct : (xs : List String) → IsDistinct (p.uniq_string xs)
  pub filter_lem : (A : Type 0) (xs : List A) (f : A → Bool) → p.filter xs f ≡ select f xs
  pub find_lem : (A : Type 0) (xs : List A) (f : A → Bool) → p.find xs f ≡ first f xs

-- Packages that meet the laws.
unfoldable pub keep_first : List String → List String
keep_first [] = []
keep_first (x ∷ xs) = let rest = keep_first xs in if contains x rest then rest else x ∷ rest

pub put_condition : List Condition → Condition → List Condition
put_condition [] c = c ∷ []
put_condition (d ∷ ds) c = if d.type == c.type then c ∷ ds else d ∷ put_condition ds c

abbrev pub sample : Packages
sample = record {
  contains_string = λ xs s. contains s xs;
  filter_string = λ xs f. select f xs;
  uniq_string = keep_first;
  filter = λ xs f. select f xs;
  find = λ xs f. first f xs;
  set_status_condition = put_condition;
  find_status_condition = λ cs t. first (λ c. c.type == t) cs;
}

contains-keep_first : (xs : List String) (s : String) → contains s (keep_first xs) ≡ contains s xs
unfolding contains keep_first
contains-keep_first [] s = refl
contains-keep_first (x ∷ xs) s =
    ground (arith, contains-keep_first xs s, contains-keep_first xs x, eq_iff x s)

keep_first-IsDistinct : (xs : List String) → IsDistinct (keep_first xs)
unfolding keep_first
keep_first-IsDistinct [] = tt
keep_first-IsDistinct (x ∷ xs) = ground (arith, keep_first-IsDistinct xs)

pub sample-Laws : Laws sample
sample-Laws = record {
  contains_string_lem = λ xs s. refl;
  filter_string_lem = λ xs f. refl;
  uniq_string_same = contains-keep_first;
  uniq_string_distinct = keep_first-IsDistinct;
  filter_lem = λ A xs f. refl;
  find_lem = λ A xs f. refl;
}
