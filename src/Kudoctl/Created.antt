-- ===== src/Kudoctl/Created.antt =====
-- The API server's operator versions, and what one step of an installation by pkg/kudoctl/resources/install
-- does to them.
use mathlib.Core.List.{Permᴰ}
use mathlib.Core.List.Permᴰ
use kudo.Prelude.{
  ◌≡◌, refl, subst, ◌&&◌, sym, ap, ◌∙◌, String, true, ◌||◌, List, [], ◌∷◌, ◌++◌, append_assoc,
  Result, ok, err, ok_injective, ◌==◌, ==_self, eq_iff, Bool-cases, ◌⊎◌, inl, inr, contains, arith,
}
use kudo.Kube.Act.{Act, pure, lift, failing, lift-map_error-ok, map_error, then_act, >>=-ok, ◌>>◌}
use kudo.Libraries.{Packages, Laws}
use kudo.Api.Operator.{OperatorVersion}
use kudo.Kudoctl.Convert.{Operator}
use kudo.Kudoctl.Client.{
  ClientError, Clientset, versions_of, listed_versions, operator_versions_installed,
  operator_exists_in_cluster,
}
use kudo.Kudoctl.Install.{ensure_operator, installed, install_version, unless_installed}

-- The API server: the operator versions that it stores in a namespace. A list has each of them once, in
-- any order, and an operator version that is created is one more.
pub record ServerLaws {W : Type 0} (c : Clientset W) : Type 1 where
  pub versions : String → W → List OperatorVersion
  pub list_lem :
      (ns : String) (w : W) (items : List OperatorVersion)
      → c.list_operator_versions ns w ≡ ok items
      → Permᴰ items (versions ns w)
  pub create_lem :
      (ns : String) (ov stored : OperatorVersion) (w w' : W)
      → c.create_operator_version ns ov w ≡ (ok stored, w')
      → Permᴰ (versions ns w') (ov ∷ versions ns w)
  pub create_operator_lem :
      (ns other : String) (o : Operator) (w : W)
      → versions ns (c.create_operator other o w).1 ≡ versions ns w

abbrev pub HasVersion : List OperatorVersion → String → String → Type 0
HasVersion ovs name version = contains version (versions_of name ovs) ≡ true

abbrev pub Grows : List OperatorVersion → List OperatorVersion → Type 0
Grows before after = (added : List OperatorVersion) × Permᴰ after (added ++ before)

contains-append :
    (s : String) (xs ys : List String) → contains s (xs ++ ys) ≡ (contains s xs || contains s ys)
unfolding contains
contains-append s [] ys = refl
contains-append s (x ∷ xs) ys = ground (arith, contains-append s xs ys)

versions_of-append :
    (name : String) (xs ys : List OperatorVersion)
    → versions_of name (xs ++ ys) ≡ versions_of name xs ++ versions_of name ys
unfolding versions_of
versions_of-append name [] ys = refl
versions_of-append name (x ∷ xs) ys = elim (Bool-cases (x.operator.name == name)) [
  | inl e ↦ rw e (ap (λ l. x.version ∷ l) (versions_of-append name xs ys))
  | inr e ↦ rw e (versions_of-append name xs ys)
]

contains-versions_of :
    (name version : String) (x : OperatorVersion) (xs : List OperatorVersion)
    → contains version (versions_of name (x ∷ xs)) ≡ (
        ((x.operator.name == name) && (x.version == version))
        || contains version (versions_of name xs))
unfolding versions_of contains
contains-versions_of name version x xs = elim (Bool-cases (x.operator.name == name)) [
  | inl e ↦ rw e refl
  | inr e ↦ rw e refl
]

-- The order of the operator versions does not matter.
contains-perm :
    (name version : String) {xs ys : List OperatorVersion}
    → Permᴰ xs ys
    → contains version (versions_of name xs) ≡ contains version (versions_of name ys)
contains-perm name version Permᴰ.nil = refl
contains-perm name version (Permᴰ.cons {a = a} {b = b} {l₁ = l} {l₂ = m} e p) =
    ap (λ x. contains version (versions_of name (x ∷ l))) e
    ∙ contains-versions_of name version b l
    ∙ ap (λ c. ((b.operator.name == name) && (b.version == version)) || c)
        (contains-perm name version p)
    ∙ sym (contains-versions_of name version b m)
contains-perm name version (Permᴰ.swap {a = a} {b = b} {a' = c} {b' = d} {l = l} e f) =
    ap (λ x. contains version (versions_of name (x ∷ b ∷ l))) e
    ∙ ap (λ x. contains version (versions_of name (d ∷ x ∷ l))) f
    ∙ swapped
  where
    swapped :
        contains version (versions_of name (d ∷ c ∷ l))
        ≡ contains version (versions_of name (c ∷ d ∷ l))
    swapped = ground (
      arith,
      contains-versions_of name version d (c ∷ l),
      contains-versions_of name version c (d ∷ l),
      contains-versions_of name version c l,
      contains-versions_of name version d l,
    )
contains-perm name version (Permᴰ.trans p q) =
    contains-perm name version p ∙ contains-perm name version q

pub HasVersion-Grows :
    (before after : List OperatorVersion) (name version : String)
    → Grows before after
    → HasVersion before name version
    → HasVersion after name version
HasVersion-Grows before after name version (added, p) h =
    contains-perm name version p
    ∙ rw
        (
          versions_of-append name added before,
          contains-append version (versions_of name added) (versions_of name before),
          h,
        )
        (ground arith)

pub HasVersion-added :
    (before after : List OperatorVersion) (ov : OperatorVersion) (name : String)
    → ov.operator.name ≡ name
    → Permᴰ after (ov ∷ before)
    → HasVersion after name ov.version
HasVersion-added before after ov name e p =
    contains-perm name ov.version p
    ∙ contains-versions_of name ov.version ov before
    ∙ ground (arith, (eq_iff ov.operator.name name).1 e, ==_self ov.version)

perm-prefix :
    (front : List OperatorVersion) {xs ys : List OperatorVersion}
    → Permᴰ xs ys
    → Permᴰ (front ++ xs) (front ++ ys)
perm-prefix [] p = p
perm-prefix (x ∷ front) p = Permᴰ.cons refl (perm-prefix front p)

pub Grows-same : {xs ys : List OperatorVersion} → ys ≡ xs → Grows xs ys
Grows-same {xs} {ys} e = ([], subst (λ l. Permᴰ l xs) (sym e) (Permᴰ.refl xs))

pub Grows-trans : (xs ys zs : List OperatorVersion) → Grows xs ys → Grows ys zs → Grows xs zs
Grows-trans xs ys zs (a, p) (b, q) =
    (b ++ a, subst (Permᴰ zs) (sym (append_assoc b a xs)) (Permᴰ.trans q (perm-prefix b p)))

module _ {W : Type 0} (funk : Packages) (funk_laws : Laws funk) (c : Clientset W)
    (s : ServerLaws c) where
  created-versions :
      (ns other : String) (o : Operator) (f : ClientError → String) (g : String → String) (w : W)
      → s.versions ns ((failing g (failing f (c.create_operator other o)) >> pure tt) w).1
        ≡ s.versions ns w
  created-versions ns other o f g w =
      ap (s.versions ns) (world (c.create_operator other o w)) ∙ s.create_operator_lem ns other o w
    where
      world :
          (r : Result ClientError Operator × W)
          → (then_act (map_error g (map_error f r.0)) (λ _. pure tt) r.1).1 ≡ r.1
      world (ok a, w') = refl
      world (err e, w') = refl

  pub ensure_operator-versions :
      (ns : String) (o : Operator) (w : W)
      → s.versions ns (ensure_operator funk c o w).1 ≡ s.versions ns w
  ensure_operator-versions ns o w =
      elim (Bool-cases (operator_exists_in_cluster c o.name o.namespace w)) [
        | inl e ↦ rw e refl
        | inr e ↦ rw e (created-versions ns o.namespace o _ _ w)
      ]

  -- The list that is asked for before an operator version is installed.
  pub listed-versions :
      (ns : String) (o : Operator) (what : String) (w w' : W) (found : List String)
      → o.namespace ≡ ns
      → lift (installed funk c what o w) w ≡ (ok found, w')
      → ((items : List OperatorVersion) × (found ≡ versions_of o.name items)
          × Permᴰ items (s.versions ns w))
        × (w ≡ w')
  unfolding operator_versions_installed
  listed-versions ns o what w w' found e h =
      let (f, g) =
        lift-map_error-ok _ (operator_versions_installed c o.name o.namespace w) w w' h in
      (of_list (c.list_operator_versions o.namespace w) refl f, g)
    where
      of_list :
          (r : Result ClientError (List OperatorVersion))
          → c.list_operator_versions o.namespace w ≡ r
          → listed_versions o.name r ≡ ok found
          → (items : List OperatorVersion) × (found ≡ versions_of o.name items)
            × Permᴰ items (s.versions ns w)
      of_list (err x) k l = cc
      of_list (ok items) k l = (
        items,
        sym (ok_injective _ _ l),
        subst (λ n. Permᴰ items (s.versions n w)) e (s.list_lem o.namespace w items k),
      )

  created-ok :
      {A : Type 0} (f : ClientError → String) (g : String → String) (m : Act ClientError W A)
      (w w' : W) {u : Unit {0}}
      → (failing g (failing f m) >> pure tt) w ≡ (ok u, w')
      → (a : A) × (m w ≡ (ok a, w'))
  created-ok {A = A} f g m w w' h = go (m w) refl h
    where
      go :
          (r : Result ClientError A × W)
          → m w ≡ r
          → then_act (map_error g (map_error f r.0)) (λ _. pure tt) r.1 ≡ (ok _, w')
          → (a : A) × (m w ≡ (ok a, w'))
      go (ok a, w1) e k = (a, cc)
      go (err x, w1) e k = cc

  install_version-versions :
      (ov : OperatorVersion) (w w' : W) {u : Unit {0}}
      → install_version funk c ov w ≡ (ok u, w')
      → Permᴰ (s.versions ov.namespace w') (ov ∷ s.versions ov.namespace w)
  install_version-versions ov w w' h =
      let (stored, e) = created-ok _ _ (c.create_operator_version ov.namespace ov) w w' h in
      s.create_lem ov.namespace ov stored w w' e

  -- What the installation of a version leads to, if what is done before it only adds versions.
  pub unless_installed-versions :
      (ov : OperatorVersion) (name : String) (before : Act String W (Unit {0})) (w w' : W)
      (items : List OperatorVersion) {u : Unit {0}}
      → Permᴰ items (s.versions ov.namespace w)
      → unless_installed funk c ov before (versions_of name items) w ≡ (ok u, w')
      → (HasVersion (s.versions ov.namespace w) name ov.version × (w ≡ w'))
        ⊎ ((w1 : W) × (before w ≡ (ok tt, w1))
            × Permᴰ (s.versions ov.namespace w') (ov ∷ s.versions ov.namespace w1))
  unless_installed-versions ov name before w w' items p h =
      elim (Bool-cases (contains ov.version (versions_of name items))) [
        | inl e ↦ inl (
          sym (contains-perm name ov.version p) ∙ e,
          same_world
              (rw (funk_laws.contains_string_lem (versions_of name items) ov.version, e) at h),
        )
        | inr e ↦
            let (done, w1, f, g) =
              >>=-ok before (λ _. install_version funk c ov) w w'
                (rw (funk_laws.contains_string_lem (versions_of name items) ov.version, e) at h) in
            inr (w1, f, install_version-versions ov w1 w' g)
      ]
    where
      same_world :
          {v : Unit {0}} → ◌≡◌ {A = Result String (Unit {0}) × W} (ok tt, w) (ok v, w') → w ≡ w'
      same_world k = cc
