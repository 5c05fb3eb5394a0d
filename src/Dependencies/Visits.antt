-- ===== src/Dependencies/Visits.antt =====
-- The walk over the dependencies leaves an edge for each task that it visits:
-- pkg/kudoctl/resources/dependencies/resolve.go.
use kudo.Prelude.{
  ℕ, zero, suc, ◌≡◌, ◌<◌, ◌≤◌, ◌⊎◌, inl, inr, refl, sym, ◌∙◌, subst, true, false, Bool, String,
  List, [], ◌∷◌, ◌++◌, some, none, Option, Result, ok, err, >>=-eq-ok, ok_injective, ltb, length,
  length-append, arith, Bool-cases, All,
}
use kudo.Libraries.{Packages}
use kudo.Api.Operator.{Task}
use kudo.Dependencies.Resolve.{
  Resources, Scope, Found, fully_qualified_name, update_resolved, index_of, Walk, linked, extended,
  link_child, update_parent, visit_scope, visit, visit_all, dependency_walk,
}
use kudo.Dependencies.Names.{names, names-append, length-names, length-add_edge}
use kudo.Dependencies.Edges.{
  At, HasEdge, add_edge-HasEdge, HasEdge-add_edge, HasEdge-append, At-append, At-last, index_of-At,
}
use kudo.Dependencies.Linked.{
  Extends, Extends-refl, Extends-trans, Edge, Closed, Vertex, Adds, Edge-Extends, Adds-none,
  Adds-trans, Adds-linked, Adds-updated,
}

module _ {R : Type 0} (packages : Packages)
    (resolver : R → String → String → String → Result String (Scope R))
    (acyclic : List (List ℕ) → Bool) where
  -- What the recursive call does.
  abbrev Walks : Walk R → Type 0
  Walks walk =
      (f : Found) (parent : Resources) (v : ℕ) (r : R) (f' : Found)
      → walk f parent v r ≡ ok f'
      → length f.edges ≡ length f.dependencies
      → v < length f.edges
      → Adds packages resolver acyclic f f'
        × Closed packages resolver acyclic (names f'.dependencies) f'.edges v
            parent.operator_version r

  -- The new vertex, with the edge to it.
  abbrev grown : ℕ → Resources → Found → Found
  grown v child f = linked v (length f.dependencies) (extended child f)

  length-grown :
      (v : ℕ) (child : Resources) (f : Found)
      → length (grown v child f).edges ≡ suc (length f.edges)
  length-grown v child f =
      length-add_edge v (length f.dependencies) (f.edges ++ [] ∷ [])
      ∙ omega (arith, length-append f.edges ([] ∷ []))

  Extends-grown : (v : ℕ) (child : Resources) (f : Found) → Extends f (grown v child f)
  Extends-grown v child f = record {
    keeps_names = λ n s h.
        subst (At n s) (sym (names-append f.dependencies (child ∷ [])))
          (At-append n s (names f.dependencies) _ h);
    keeps_edges = λ a b h.
        HasEdge-add_edge a b v (length f.dependencies) (f.edges ++ [] ∷ [])
          (HasEdge-append a b f.edges ([] ∷ []) h);
  }

  grown-stands :
      (v : ℕ) (child : Resources) (f : Found)
      → At
          (length f.dependencies)
          (fully_qualified_name child.operator_version)
          (names (grown v child f).dependencies)
  grown-stands v child f = subst (At _ _) (sym (names-append f.dependencies (child ∷ []))) (
      subst
        (λ n.
          At n (fully_qualified_name child.operator_version)
            (names f.dependencies ++ fully_qualified_name child.operator_version ∷ []))
        (length-names f.dependencies)
        (At-last (fully_qualified_name child.operator_version) (names f.dependencies)))

  grown-edge :
      (v : ℕ) (child : Resources) (f : Found)
      → v < length f.edges
      → HasEdge v (length f.dependencies) (grown v child f).edges
  grown-edge v child f h =
      add_edge-HasEdge v (length f.dependencies) (f.edges ++ [] ∷ [])
        (omega (arith, h, length-append f.edges ([] ∷ [])))

  -- What one task leads to.
  abbrev Linked : ℕ → R → Task → Found → Found → Type 0
  Linked v r t f f' =
      Adds packages resolver acyclic f f'
      × Edge packages resolver acyclic (names f'.dependencies) f'.edges v r t

  -- The walk below a new vertex.
  fresh-Linked :
      (v : ℕ) (r : R) (t : Task) (scope : Scope R) (f f' : Found)
      → resolver r t.spec.package_name t.spec.app_version t.spec.operator_version ≡ ok scope
      → length f.edges ≡ length f.dependencies
      → v < length f.edges
      → Adds packages resolver acyclic (grown v scope.resources f) f'
      → Closed packages resolver acyclic
          (names f'.dependencies)
          f'.edges
          (length f.dependencies)
          scope.resources.operator_version
          scope.resolver
      → Linked v r t f f'
  fresh-Linked v r t scope f f' from e low adds closed = (
    record {
      extends =
          Extends-trans f (grown v scope.resources f) f' (Extends-grown v scope.resources f)
            adds.extends;
      vertices = adds.vertices;
      added = λ n a b. by_index n b (Bool-cases (ltb n (suc (length f.edges)))) a;
      longer = omega (arith, length-grown v scope.resources f, adds.longer);
    },
    record {
      scope = scope;
      index = length f.dependencies;
      resolves = from;
      stands = adds.extends.keeps_names _ _ (grown-stands v scope.resources f);
      edge = adds.extends.keeps_edges _ _ (grown-edge v scope.resources f low);
    },
  )
    where
      new_vertex :
          Vertex packages resolver acyclic (names f'.dependencies) f'.edges (length f.dependencies)
      new_vertex = record {
        from = r;
        package_name = t.spec.package_name;
        app_version = t.spec.app_version;
        operator_version = t.spec.operator_version;
        scope = scope;
        resolves = from;
        stands = adds.extends.keeps_names _ _ (grown-stands v scope.resources f);
        closed = closed;
      }

      by_index :
          (n : ℕ)
          → n < length f'.edges
          → (ltb n (suc (length f.edges)) ≡ true) ⊎ (ltb n (suc (length f.edges)) ≡ false)
          → length f.edges ≤ n
          → Vertex packages resolver acyclic (names f'.dependencies) f'.edges n
      by_index n b (inl k) a =
          let here : length f.dependencies ≡ n = ground (arith, k, a, e) in
          subst (Vertex packages resolver acyclic (names f'.dependencies) f'.edges) here new_vertex
      by_index n b (inr k) a = adds.added n (ground (arith, k, length-grown v scope.resources f)) b

  link_child-Linked :
      (walk : Walk R) (parent : Resources) (v : ℕ) (r : R) (t : Task) (scope : Scope R)
      (f f' : Found) (o : Option ℕ)
      → Walks walk
      → resolver r t.spec.package_name t.spec.app_version t.spec.operator_version ≡ ok scope
      → length f.edges ≡ length f.dependencies
      → v < length f.edges
      → index_of f.dependencies scope.resources ≡ o
      → link_child packages resolver acyclic walk parent v scope f o ≡ ok f'
      → Linked v r t f f'
  link_child-Linked walk parent v r t scope f f' (some w) walks from e low at h =
      elim (Bool-cases (acyclic (linked v w f).edges)) [
        | inl c ↦ subst (Linked v r t f) (ok_injective _ _ (rw c at h)) (
          Adds-linked packages resolver acyclic v w f e,
          record {
            scope = scope;
            index = w;
            resolves = from;
            stands = index_of-At f.dependencies scope.resources w at;
            edge = add_edge-HasEdge v w f.edges low;
          },
        )
        | inr c ↦ absurd (cc (rw c at h))
      ]
  link_child-Linked walk parent v r t scope f f' none walks from e low at h =
      elim (Bool-cases (acyclic (grown v scope.resources f).edges)) [
        | inl c ↦
            let (adds, closed) =
              walks (grown v scope.resources f) scope.resources (length f.dependencies)
                scope.resolver f' (rw c at h)
                (length-grown v scope.resources f
                  ∙ omega (arith, e, length-append f.dependencies (scope.resources ∷ [])))
                (omega (arith, e, length-grown v scope.resources f)) in
            fresh-Linked v r t scope f f' from e low adds closed
        | inr c ↦ absurd (cc (rw c at h))
      ]

  visit-Linked :
      (walk : Walk R) (parent : Resources) (v : ℕ) (r : R) (t : Task) (f f' : Found)
      → Walks walk
      → length f.edges ≡ length f.dependencies
      → v < length f.edges
      → visit packages resolver acyclic walk parent v r t f ≡ ok f'
      → Linked v r t f f'
  unfolding visit
  visit-Linked walk parent v r t f f' walks e low h = by_scope _ refl h
    where
      by_update :
          (scope : Scope R) (o : Option (List Resources))
          → resolver r t.spec.package_name t.spec.app_version t.spec.operator_version ≡ ok scope
          → update_resolved v t.name scope.resources f.dependencies ≡ o
          → update_parent packages resolver acyclic walk parent v t scope f o ≡ ok f'
          → Linked v r t f f'
      by_update scope none from u k = absurd (cc k)
      by_update scope (some ds) from u k =
          let first = Adds-updated packages resolver acyclic f ds v t.name scope.resources u e in
          let (adds, edge) =
            link_child-Linked walk parent v r t scope (record f { dependencies = ds }) f' _ walks
              from first.vertices low refl k in
          (
            Adds-trans packages resolver acyclic f (record f { dependencies = ds }) f' first adds,
            edge,
          )

      by_scope :
          (x : Result String (Scope R))
          → resolver r t.spec.package_name t.spec.app_version t.spec.operator_version ≡ x
          → visit_scope packages resolver acyclic walk parent v t f x ≡ ok f'
          → Linked v r t f f'
      by_scope (err x) from k = absurd (cc k)
      by_scope (ok scope) from k = by_update scope _ from refl k

  visit_all-Linked :
      (walk : Walk R) (parent : Resources) (v : ℕ) (r : R) (tasks : List Task) (f f' : Found)
      → Walks walk
      → length f.edges ≡ length f.dependencies
      → v < length f.edges
      → visit_all packages resolver acyclic walk parent v r tasks f ≡ ok f'
      → Adds packages resolver acyclic f f'
        × All (Edge packages resolver acyclic (names f'.dependencies) f'.edges v r) tasks
  unfolding visit_all
  visit_all-Linked walk parent v r [] f f' walks e low h =
      let same : f ≡ f' = ok_injective _ _ h in
      (
        subst (Adds packages resolver acyclic f) same
            (Adds-none packages resolver acyclic f f (Extends-refl f) e refl),
        tt,
      )
  visit_all-Linked walk parent v r (t ∷ rest) f f' walks e low h =
      let (g, a, b) =
        >>=-eq-ok (visit packages resolver acyclic walk parent v r t f)
          (visit_all packages resolver acyclic walk parent v r rest) h in
      let (first, edge) = visit-Linked walk parent v r t f g walks e low a in
      let (later, edges) =
        visit_all-Linked walk parent v r rest g f' walks first.vertices
          (omega (arith, low, first.longer)) b in
      (
        Adds-trans packages resolver acyclic f g f' first later,
        (Edge-Extends packages resolver acyclic g f' v r t later.extends edge, edges),
      )

  -- The walk from a vertex leaves an edge for each task of it, and of each vertex that it adds.
  pub dependency_walk-Linked : (n : ℕ) → Walks (dependency_walk packages resolver acyclic n)
  unfolding dependency_walk
  dependency_walk-Linked zero f parent v r f' h e low = absurd (cc h)
  dependency_walk-Linked (suc n) f parent v r f' h e low =
      visit_all-Linked (dependency_walk packages resolver acyclic n) parent v r _ f f'
        (dependency_walk-Linked n) e low h
