-- ===== src/Repository/Order.antt =====
-- The order of comparisons, and the weak order of what is compared by one value after another.
use Prim.Native.Nat.{Ordering, compare}
use Prim.Native.Char.{code}
use kudo.Prelude.{String, ◌≡◌, refl, ap, Bool, true, false, arith}
use text.Mathlib.TextEquality.{Char-path}

abbrev pub opposite : Ordering → Ordering
opposite Ordering.lt = Ordering.gt
opposite Ordering.eq = Ordering.eq
opposite Ordering.gt = Ordering.lt

abbrev pub is_lt : Ordering → Bool
is_lt Ordering.lt = true
is_lt _ = false

abbrev pub is_eq : Ordering → Bool
is_eq Ordering.eq = true
is_eq _ = false

abbrev pub is_gt : Ordering → Bool
is_gt Ordering.gt = true
is_gt _ = false

-- The second comparison decides if the first one is equal.
abbrev pub next_by : Ordering → Ordering → Ordering
next_by Ordering.eq o = o
next_by Ordering.lt o = Ordering.lt
next_by Ordering.gt o = Ordering.gt

-- Go's order of texts.
abbrev pub compare_text : String → String → Ordering
compare_text String.[] String.[] = Ordering.eq
compare_text String.[] (String.◌∷◌ d t) = Ordering.lt
compare_text (String.◌∷◌ c s) String.[] = Ordering.gt
compare_text (String.◌∷◌ c s) (String.◌∷◌ d t) =
    next_by (compare (code c) (code d)) (compare_text s t)

pub record IsOrder {A : Type 0} (cmp : A → A → Ordering) : Type 0 where
  pub swapped : (a b : A) → cmp b a ≡ opposite (cmp a b)
  pub respects : (a b c : A) → cmp a b ≡ Ordering.eq → cmp a c ≡ cmp b c
  pub transitive :
      (a b c : A) → cmp a b ≡ Ordering.lt → cmp b c ≡ Ordering.lt → cmp a c ≡ Ordering.lt

module _ {A : Type 0} {cmp : A → A → Ordering} (o : IsOrder cmp) where
  pub is_lt-asymmetric : (a b : A) → is_lt (cmp a b) ≡ true → is_lt (cmp b a) ≡ false
  is_lt-asymmetric a b h = ground (arith, o.swapped a b)

  same_right : (a b c : A) → cmp b c ≡ Ordering.eq → cmp a b ≡ cmp a c
  same_right a b c h = ground (arith, o.swapped b a, o.swapped c a, o.respects b c a)

  pub is_lt-negative :
      (a b c : A) → is_lt (cmp a b) ≡ false → is_lt (cmp b c) ≡ false → is_lt (cmp a c) ≡ false
  is_lt-negative a b c h k = ground (
    arith,
    o.swapped a b,
    o.swapped b c,
    o.swapped a c,
    o.respects a b c,
    same_right a b c,
    o.transitive c b a,
  )

-- Of pairs, by the first value and then by the second.
abbrev pub both_by :
    {A B : Type 0} → (A → A → Ordering) → (B → B → Ordering) → (A × B) → (A × B) → Ordering
both_by f g (a, b) (c, d) = next_by (f a c) (g b d)

module _ {A B : Type 0} {cmp : A → A → Ordering} {cmp' : B → B → Ordering} where
  pub both_by-IsOrder : IsOrder cmp → IsOrder cmp' → IsOrder (both_by cmp cmp')
  both_by-IsOrder o p = record {
    swapped = λ a b. ground (arith, o.swapped a.0 b.0, p.swapped a.1 b.1);
    respects = λ a b c h. ground (arith, o.respects a.0 b.0 c.0, p.respects a.1 b.1 c.1);
    transitive = λ a b c h k. ground (
      arith,
      o.respects a.0 b.0 c.0,
      same_right o a.0 b.0 c.0,
      o.transitive a.0 b.0 c.0,
      p.transitive a.1 b.1 c.1,
    );
  }

compare_text-opposite : (s t : String) → compare_text t s ≡ opposite (compare_text s t)
compare_text-opposite String.[] String.[] = refl
compare_text-opposite String.[] (String.◌∷◌ d t) = refl
compare_text-opposite (String.◌∷◌ c s) String.[] = refl
compare_text-opposite (String.◌∷◌ c s) (String.◌∷◌ d t) = ground (arith, compare_text-opposite s t)

pub compare_text-eq : (s t : String) → compare_text s t ≡ Ordering.eq → s ≡ t
compare_text-eq String.[] String.[] h = refl
compare_text-eq String.[] (String.◌∷◌ d t) h = cc
compare_text-eq (String.◌∷◌ c s) String.[] h = cc
compare_text-eq (String.◌∷◌ c s) (String.◌∷◌ d t) h =
    let e : code c ≡ code d = ground (arith, h) in
    let f : compare_text s t ≡ Ordering.eq = ground (arith, h) in
    cc (Char-path c d e, compare_text-eq s t f)

compare_text-transitive :
    (s t u : String)
    → compare_text s t ≡ Ordering.lt
    → compare_text t u ≡ Ordering.lt
    → compare_text s u ≡ Ordering.lt
compare_text-transitive String.[] String.[] u h k = cc
compare_text-transitive String.[] (String.◌∷◌ d t) String.[] h k = cc
compare_text-transitive String.[] (String.◌∷◌ d t) (String.◌∷◌ e u) h k = refl
compare_text-transitive (String.◌∷◌ c s) String.[] u h k = cc
compare_text-transitive (String.◌∷◌ c s) (String.◌∷◌ d t) String.[] h k = cc
compare_text-transitive (String.◌∷◌ c s) (String.◌∷◌ d t) (String.◌∷◌ e u) h k =
    ground (arith, compare_text-transitive s t u)

pub compare_text-IsOrder : IsOrder compare_text
compare_text-IsOrder = record {
  swapped = λ a b. compare_text-opposite a b;
  respects = λ a b c h. ap (λ x. compare_text x c) (compare_text-eq a b h);
  transitive = compare_text-transitive;
}
