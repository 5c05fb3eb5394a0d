-- ===== src/Dependencies/Linked.antt =====
-- The graph that the walk over the dependencies builds has an edge for each task that the walk visits:
-- pkg/kudoctl/resources/dependencies/resolve.go.
use kudo.Prelude.{
  ℕ, ◌≡◌, ◌<◌, ◌≤◌, ◌⊎◌, inl, inr, refl, sym, ap, ◌∙◌, subst, true, false, Bool, String, List, some,
  Result, ok, ltb, length, arith, Bool-cases, All, All-map,
}
use kudo.Libraries.{Packages}
use kudo.Api.Operator.{Task, OperatorVersion}
use kudo.Dependencies.Resolve.{
  Resources, Scope, Found, fully_qualified_name, is_kudo_operator, update_resolved, linked,
}
use kudo.Dependencies.Names.{names, names-update_resolved, length-names, length-add_edge}
use kudo.Dependencies.Edges.{At, HasEdge, HasEdge-add_edge}

-- What is found later has each name at its index still, and each edge.
pub record Extends (f f' : Found) : Type 0 where
  pub keeps_names :
      (n : ℕ) (s : String) → At n s (names f.dependencies) → At n s (names f'.dependencies)
  pub keeps_edges : (v w : ℕ) → HasEdge v w f.edges → HasEdge v w f'.edges

pub Extends-refl : (f : Found) → Extends f f
Extends-refl f = record { keeps_names = λ n s h. h; keeps_edges = λ v w h. h }

pub Extends-trans : (f g h : Found) → Extends f g → Extends g h → Extends f h
Extends-trans f g h a b = record {
  keeps_names = λ n s k. b.keeps_names n s (a.keeps_names n s k);
  keeps_edges = λ v w k. b.keeps_edges v w (a.keeps_edges v w k);
}

module _ {R : Type 0} (packages : Packages)
    (resolver : R → String → String → String → Result String (Scope R))
    (acyclic : List (List ℕ) → Bool) where
  -- The resolver finds the operator version that the task names; it stands among the names, and there is an
  -- edge to it.
  pub record Edge (all : List String) (g : List (List ℕ)) (v : ℕ) (r : R) (t : Task) : Type 0 where
    pub scope : Scope R
    pub index : ℕ
    pub resolves :
        resolver r t.spec.package_name t.spec.app_version t.spec.operator_version ≡ ok scope
    pub stands : At index (fully_qualified_name scope.resources.operator_version) all
    pub edge : HasEdge v index g

  -- There is an edge for each task of the vertex that installs an operator.
  abbrev pub Closed : List String → List (List ℕ) → ℕ → OperatorVersion → R → Type 0
  Closed all g v ov r = All (Edge all g v r) (packages.filter ov.tasks is_kudo_operator)

  -- The vertex is what the resolver has returned for some task, and has its edges.
  pub record Vertex (all : List String) (g : List (List ℕ)) (n : ℕ) : Type 0 where
    pub from : R
    pub package_name : String
    pub app_version : String
    pub operator_version : String
    pub scope : Scope R
    pub resolves : resolver from package_name app_version operator_version ≡ ok scope
    pub stands : At n (fully_qualified_name scope.resources.operator_version) all
    pub closed : Closed all g n scope.resources.operator_version scope.resolver

  pub Edge-Extends :
      (f f' : Found) (v : ℕ) (r : R) (t : Task)
      → Extends f f'
      → Edge (names f.dependencies) f.edges v r t
      → Edge (names f'.dependencies) f'.edges v r t
  Edge-Extends f f' v r t x e = record {
    scope = e.scope;
    index = e.index;
    resolves = e.resolves;
    stands = x.keeps_names e.index _ e.stands;
    edge = x.keeps_edges v e.index e.edge;
  }

  pub Closed-Extends :
      (f f' : Found) (v : ℕ) (ov : OperatorVersion) (r : R)
      → Extends f f'
      → Closed (names f.dependencies) f.edges v ov r
      → Closed (names f'.dependencies) f'.edges v ov r
  Closed-Extends f f' v ov r x all =
      All-map (Edge (names f.dependencies) f.edges v r) (Edge (names f'.dependencies) f'.edges v r)
        (packages.filter ov.tasks is_kudo_operator) (λ t. Edge-Extends f f' v r t x) all

  -- What a part of the walk has done: nothing is lost, and the new vertices have their edges.
  pub record Adds (f f' : Found) : Type 0 where
    pub extends : Extends f f'
    pub vertices : length f'.edges ≡ length f'.dependencies
    pub added :
        (n : ℕ)
        → length f.edges ≤ n
        → n < length f'.edges
        → Vertex (names f'.dependencies) f'.edges n
    pub longer : length f.edges ≤ length f'.edges

  pub Vertex-Extends :
      (f f' : Found) (n : ℕ)
      → Extends f f'
      → Vertex (names f.dependencies) f.edges n
      → Vertex (names f'.dependencies) f'.edges n
  Vertex-Extends f f' n x k = record {
    from = k.from;
    package_name = k.package_name;
    app_version = k.app_version;
    operator_version = k.operator_version;
    scope = k.scope;
    resolves = k.resolves;
    stands = x.keeps_names n _ k.stands;
    closed = Closed-Extends f f' n k.scope.resources.operator_version k.scope.resolver x k.closed;
  }

  pub Adds-none :
      (f f' : Found)
      → Extends f f'
      → length f'.edges ≡ length f'.dependencies
      → length f'.edges ≡ length f.edges
      → Adds f f'
  Adds-none f f' x e same = record {
    extends = x;
    vertices = e;
    added = λ n a b. absurd (omega (arith, a, b, same));
    longer = omega (arith, same);
  }

  pub Adds-trans : (f g h : Found) → Adds f g → Adds g h → Adds f h
  Adds-trans f g h a b = record {
    extends = Extends-trans f g h a.extends b.extends;
    vertices = b.vertices;
    added = λ n low high. by_size n low high (Bool-cases (ltb n (length g.edges)));
    longer = omega (arith, a.longer, b.longer);
  }
    where
      by_size :
          (n : ℕ)
          → length f.edges ≤ n
          → n < length h.edges
          → (ltb n (length g.edges) ≡ true) ⊎ (ltb n (length g.edges) ≡ false)
          → Vertex (names h.dependencies) h.edges n
      by_size n low high (inl k) =
          Vertex-Extends g h n b.extends (a.added n low (ground (arith, k)))
      by_size n low high (inr k) = b.added n (ground (arith, k)) high

  pub Adds-linked :
      (v w : ℕ) (f : Found) → length f.edges ≡ length f.dependencies → Adds f (linked v w f)
  Adds-linked v w f e =
      Adds-none f (linked v w f)
        (record {
          keeps_names = λ n s h. h;
          keeps_edges = λ a b h. HasEdge-add_edge a b v w f.edges h;
        })
        (length-add_edge v w f.edges ∙ e) (length-add_edge v w f.edges)

  pub Adds-updated :
      (f : Found) (ds : List Resources) (v : ℕ) (name : String) (child : Resources)
      → update_resolved v name child f.dependencies ≡ some ds
      → length f.edges ≡ length f.dependencies
      → Adds f (record f { dependencies = ds })
  Adds-updated f ds v name child h e =
      let same = names-update_resolved v name child f.dependencies ds h in
      Adds-none f (record f { dependencies = ds })
        (record { keeps_names = λ n s k. subst (At n s) (sym same) k; keeps_edges = λ a b k. k })
        (e ∙ sym (length-names f.dependencies) ∙ ap length (sym same) ∙ length-names ds) refl
