-- ===== src/Dependencies/Walk.antt =====
-- An induction on the walk over the dependencies: what each of its steps keeps, the walk keeps.
use kudo.Prelude.{
  ℕ, zero, suc, ◌≡◌, refl, String, Bool, true, List, [], ◌∷◌, Option, none, some, Result, ok, err,
  ◌>>=◌, inl, inr, Bool-cases, length,
}
use kudo.Libraries.{Packages}
use kudo.Api.Operator.{Task, TaskSpec, OperatorVersion}
use kudo.Dependencies.Resolve.{
  Resources, Scope, Found, Failure, unresolved, not_updated, cyclic, exhausted, update_resolved,
  index_of, Walk, linked, extended, link_child, update_parent, visit_scope, visit, visit_all,
  dependency_walk,
}

-- A predicate of what is found, or one of the failure.
abbrev pub Post : (Found → Type 0) → (Failure → Type 0) → Result Failure Found → Type 0
Post P E (ok f) = P f
Post P E (err e) = E e

pub record Steps {R : Type 0} (resolver : R → String → String → String → Result String (Scope R))
    (acyclic : List (List ℕ) → Bool) (P : ℕ → Found → Type 0) (E : Failure → Type 0) : Type 0 where
  pub out : (f : Found) → P 0 f → E exhausted
  pub failed : (s : TaskSpec) (ov : OperatorVersion) (e : String) → E (unresolved s ov e)
  pub lost : (name : String) (ov : OperatorVersion) → E (not_updated name ov)
  pub circular : (a b : OperatorVersion) → E (cyclic a b)
  pub updated :
      (n v : ℕ) (name : String) (child : Resources) (f : Found) (ds : List Resources)
      → update_resolved v name child f.dependencies ≡ some ds
      → P n f
      → P n (record f { dependencies = ds })
  pub known :
      (n v w : ℕ) (f : Found) → acyclic (linked v w f).edges ≡ true → P n f → P n (linked v w f)
  pub fresh :
      (n v : ℕ) (r : R) (name app op : String) (scope : Scope R) (f : Found)
      → resolver r name app op ≡ ok scope
      → index_of f.dependencies scope.resources ≡ none
      → acyclic (linked v (length f.dependencies) (extended scope.resources f)).edges ≡ true
      → P (suc n) f
      → P n (linked v (length f.dependencies) (extended scope.resources f))
  pub back : (n : ℕ) (f : Found) → P n f → P (suc n) f

module _ {R : Type 0} (packages : Packages)
    (resolver : R → String → String → String → Result String (Scope R))
    (acyclic : List (List ℕ) → Bool) (P : ℕ → Found → Type 0) (E : Failure → Type 0)
    (steps : Steps resolver acyclic P E) where
  abbrev Keeps : ℕ → Walk R → Type 0
  Keeps n walk =
      (f : Found) (parent : Resources) (v : ℕ) (r : R) → P n f → Post (P n) E (walk f parent v r)

  Post-back : (n : ℕ) (x : Result Failure Found) → Post (P n) E x → Post (P (suc n)) E x
  Post-back n (ok f) h = steps.back n f h
  Post-back n (err e) h = h

  bind-Post :
      (n m : ℕ) (x : Result Failure Found) (next : Found → Result Failure Found)
      → Post (P n) E x
      → ((f : Found) → P n f → Post (P m) E (next f))
      → Post (P m) E (x >>= next)
  bind-Post n m (ok f) next h k = k f h
  bind-Post n m (err e) next h k = h

  link_child-Post :
      (n : ℕ) (walk : Walk R) (parent : Resources) (v : ℕ) (r : R) (name app op : String)
      (scope : Scope R) (f : Found) (o : Option ℕ)
      → Keeps n walk
      → resolver r name app op ≡ ok scope
      → index_of f.dependencies scope.resources ≡ o
      → P (suc n) f
      → Post (P (suc n)) E (link_child packages resolver acyclic walk parent v scope f o)
  link_child-Post n walk parent v r name app op scope f (some w) keeps from at h =
      elim (Bool-cases (acyclic (linked v w f).edges)) [
        | inl e ↦ rw e (steps.known (suc n) v w f e h)
        | inr e ↦ rw e (steps.circular _ _)
      ]
  link_child-Post n walk parent v r name app op scope f none keeps from at h =
      elim (Bool-cases
        (acyclic (linked v (length f.dependencies) (extended scope.resources f)).edges)) [
          | inl e ↦ rw e (
              Post-back n _ (
                keeps _ scope.resources (length f.dependencies) scope.resolver
                  (steps.fresh n v r name app op scope f from at e h)))
          | inr e ↦ rw e (steps.circular _ _)
        ]

  visit-Post :
      (n : ℕ) (walk : Walk R) (parent : Resources) (v : ℕ) (r : R) (t : Task) (f : Found)
      → Keeps n walk
      → P (suc n) f
      → Post (P (suc n)) E (visit packages resolver acyclic walk parent v r t f)
  unfolding visit
  visit-Post n walk parent v r t f keeps h = scoped _ refl
    where
      updated :
          (scope : Scope R) (o : Option (List Resources))
          → resolver r t.spec.package_name t.spec.app_version t.spec.operator_version ≡ ok scope
          → update_resolved v t.name scope.resources f.dependencies ≡ o
          → Post (P (suc n)) E (update_parent packages resolver acyclic walk parent v t scope f o)
      updated scope none from e = steps.lost t.name parent.operator_version
      updated scope (some ds) from e =
          link_child-Post n walk parent v r _ _ _ scope (record f { dependencies = ds }) _ keeps
            from refl (steps.updated (suc n) v t.name scope.resources f ds e h)

      scoped :
          (x : Result String (Scope R))
          → resolver r t.spec.package_name t.spec.app_version t.spec.operator_version ≡ x
          → Post (P (suc n)) E (visit_scope packages resolver acyclic walk parent v t f x)
      scoped (err e) from = steps.failed t.spec parent.operator_version e
      scoped (ok scope) from = updated scope _ from refl

  visit_all-Post :
      (n : ℕ) (walk : Walk R) (parent : Resources) (v : ℕ) (r : R) (tasks : List Task) (f : Found)
      → Keeps n walk
      → P (suc n) f
      → Post (P (suc n)) E (visit_all packages resolver acyclic walk parent v r tasks f)
  unfolding visit_all
  visit_all-Post n walk parent v r [] f keeps h = h
  visit_all-Post n walk parent v r (t ∷ rest) f keeps h =
      bind-Post (suc n) (suc n) (visit packages resolver acyclic walk parent v r t f) _
        (visit-Post n walk parent v r t f keeps h)
        (λ f' k. visit_all-Post n walk parent v r rest f' keeps k)

  pub dependency_walk-Post :
      (n : ℕ) (f : Found) (parent : Resources) (v : ℕ) (r : R)
      → P n f
      → Post (P n) E (dependency_walk packages resolver acyclic n f parent v r)
  unfolding dependency_walk
  dependency_walk-Post zero f parent v r h = steps.out f h
  dependency_walk-Post (suc n) f parent v r h =
      visit_all-Post n (dependency_walk packages resolver acyclic n) parent v r _ f
        (λ g p w q k. dependency_walk-Post n g p w q k) h
