-- ===== src/Dependencies/Results.antt =====
-- What `Resolve` returns, and that it ends.
use kudo.Prelude.{
  ℕ, suc, ◌+◌, ◌≤◌, ◌<◌, ◌≡◌, ◌≢◌, refl, sym, ap, subst, ◌∙◌, String, Bool, true, List, [], ◌∷◌,
  ◌++◌, none, some, Result, ok, err, ◌>>=◌, >>=-eq-ok, length, length-append, contains, arith,
  eq_iff,
}
use kudo.Libraries.{Packages, IsDistinct}
use kudo.Api.Operator.{OperatorVersion}
use kudo.Dependencies.Resolve.{
  Resources, Scope, Found, Failure, exhausted, fully_qualified_name, update_resolved, index_of,
  linked, extended, begin, root_of, without_root, dependency_walk, resolve, resolve_from,
}
use kudo.Dependencies.Walk.{Post, Steps, dependency_walk-Post}
use kudo.Dependencies.Linked.{Closed, Vertex}
use kudo.Dependencies.Visits.{dependency_walk-Linked}
use kudo.Dependencies.Names.{
  names, names-update_resolved, contains-index_of, names-append, length-names, contains-append,
  IsDistinct-append, length-add_edge, length-IsDistinct,
}

-- The elements of a list and one more, all in another list.
member_append :
    (xs : List String) (x : String) (all : List String)
    → contains x all ≡ true
    → ((s : String) → contains s xs ≡ true → contains s all ≡ true)
    → (s : String) → contains s (xs ++ x ∷ []) ≡ true
    → contains s all ≡ true
unfolding contains
member_append xs x all h k s c =
    ground (arith, contains-append s xs (x ∷ []), c, k s, eq_iff x s, h)

module _ {R : Type 0} (packages : Packages)
    (resolver : R → String → String → String → Result String (Scope R))
    (acyclic : List (List ℕ) → Bool) where
  -- No two dependencies have one name, and the graph has a vertex for each and passed the test.
  pub record Sound (f : Found) : Type 0 where
    pub distinct : IsDistinct (names f.dependencies)
    pub vertices : length f.edges ≡ length f.dependencies
    pub tested : acyclic f.edges ≡ true

  same_length : (ds es : List Resources) → names ds ≡ names es → length ds ≡ length es
  same_length ds es h = sym (length-names ds) ∙ ap length h ∙ length-names es

  Sound-updated :
      (v : ℕ) (name : String) (child : Resources) (f : Found) (ds : List Resources)
      → update_resolved v name child f.dependencies ≡ some ds
      → Sound f
      → Sound (record f { dependencies = ds })
  Sound-updated v name child f ds h sound =
      let same = names-update_resolved v name child f.dependencies ds h in
      record {
        distinct = subst IsDistinct (sym same) sound.distinct;
        vertices = sound.vertices ∙ sym (same_length ds f.dependencies same);
        tested = sound.tested;
      }

  Sound-linked :
      (v w : ℕ) (f : Found) → acyclic (linked v w f).edges ≡ true → Sound f → Sound (linked v w f)
  Sound-linked v w f h sound = record {
    distinct = sound.distinct;
    vertices = length-add_edge v w f.edges ∙ sound.vertices;
    tested = h;
  }

  names-extended :
      (child : Resources) (f : Found)
      → names (extended child f).dependencies
        ≡ names f.dependencies ++ fully_qualified_name child.operator_version ∷ []
  names-extended child f = names-append f.dependencies (child ∷ [])

  length-extended :
      (child : Resources) (f : Found)
      → length (extended child f).dependencies ≡ suc (length f.dependencies)
  length-extended child f = omega (arith, length-append f.dependencies (child ∷ []))

  Sound-extended :
      (v w : ℕ) (child : Resources) (f : Found)
      → index_of f.dependencies child ≡ none
      → acyclic (linked v w (extended child f)).edges ≡ true
      → Sound f
      → Sound (linked v w (extended child f))
  Sound-extended v w child f new h sound = record {
    distinct = subst IsDistinct (sym (names-extended child f)) (
        IsDistinct-append (names f.dependencies) _ sound.distinct
          (contains-index_of f.dependencies child new));
    vertices =
        length-add_edge v w (f.edges ++ [] ∷ [])
        ∙ omega (
          arith,
          sound.vertices,
          length-append f.edges ([] ∷ []),
          length-append f.dependencies (child ∷ []),
        );
    tested = h;
  }

  Sound-steps : Steps resolver acyclic (λ n f. Sound f) (λ e. Unit {0})
  Sound-steps = record {
    out = λ f h. tt;
    failed = λ s ov e. tt;
    lost = λ name ov. tt;
    circular = λ a b. tt;
    updated = λ n v name child f ds e h. Sound-updated v name child f ds e h;
    known = λ n v w f e h. Sound-linked v w f e h;
    fresh = λ n v r name app op scope f from new e h. Sound-extended v _ scope.resources f new e h;
    back = λ n f h. h;
  }

  -- The first name is the root's.
  abbrev Rooted : String → Found → Type 0
  Rooted root f = (rest : List String) × (names f.dependencies ≡ root ∷ rest)

  Rooted-steps :
      (root : String) → Steps resolver acyclic (λ n f. Sound f × Rooted root f) (λ e. Unit {0})
  Rooted-steps root = record {
    out = λ f h. tt;
    failed = λ s ov e. tt;
    lost = λ name ov. tt;
    circular = λ a b. tt;
    updated = λ n v name child f ds e h. (
      Sound-updated v name child f ds e h.0,
      (h.1.0, names-update_resolved v name child f.dependencies ds e ∙ h.1.1),
    );
    known = λ n v w f e h. (Sound-linked v w f e h.0, h.1);
    fresh = λ n v r name app op scope f from new e h. (
      Sound-extended v _ scope.resources f new e h.0,
      (
        h.1.0 ++ fully_qualified_name scope.resources.operator_version ∷ [],
        names-extended scope.resources f
            ∙ ap (λ xs. xs ++ fully_qualified_name scope.resources.operator_version ∷ []) h.1.1,
      ),
    );
    back = λ n f h. h;
  }

  begin-Sound : (root : Resources) → acyclic ([] ∷ []) ≡ true → Sound (begin root)
  unfolding contains
  begin-Sound root h = record { distinct = (refl, tt); vertices = refl; tested = h }

  names-without_root :
      (root : String) (ds : List Resources)
      → (rest : List String) × (names ds ≡ root ∷ rest)
      → names ds ≡ root ∷ names (without_root ds)
  names-without_root root [] (rest, h) = cc
  names-without_root root (d ∷ ds) (rest, h) = ground (arith, h)

  -- Resolved dependencies, and their graph, in which the vertex 0 is the operator version that they are
  -- dependencies of.
  pub record Resolved (ov : OperatorVersion) (r : R) (ds : List Resources) : Type 0 where
    pub graph : List (List ℕ)
    pub distinct : IsDistinct (fully_qualified_name ov ∷ names ds)
    pub vertices : length graph ≡ suc (length ds)
    pub root : Closed packages resolver acyclic (fully_qualified_name ov ∷ names ds) graph 0 ov r
    pub others :
        (n : ℕ)
        → 1 ≤ n
        → n ≤ length ds
        → Vertex packages resolver acyclic (fully_qualified_name ov ∷ names ds) graph n
    pub tested : acyclic graph ≡ true

  -- If the dependencies are resolved, then no two of them have the same name, and none has the name of
  -- the operator version that they are dependencies of. There is a graph of all of them, with an edge for
  -- each task that installs an operator: from the operator version with the task to the one that the
  -- resolver has found for it. Each of them was returned by the resolver, and the graph passes the
  -- test for cycles. (The graph of one vertex and no edge has no cycle.)
  pub resolve-Sound :
      (n : ℕ) (ov : OperatorVersion) (r : R) (ds : List Resources)
      → acyclic ([] ∷ []) ≡ true
      → resolve packages resolver acyclic n ov r ≡ ok ds
      → Resolved ov r ds
  unfolding resolve resolve_from
  resolve-Sound n ov r ds h done =
      let walk =
        dependency_walk packages resolver acyclic n (begin (root_of ov)) (root_of ov) 0 r in
      let (f, a, b) = >>=-eq-ok walk (λ f. ok (without_root f.dependencies)) done in
      let root = fully_qualified_name ov in
      let start : Sound (begin (root_of ov)) × Rooted root (begin (root_of ov)) =
        (begin-Sound (root_of ov) h, ([], refl)) in
      let post =
        dependency_walk-Post packages resolver acyclic (λ n f. Sound f × Rooted root f)
          (λ e. Unit {0}) (Rooted-steps root) n (begin (root_of ov)) (root_of ov) 0 r start in
      let (sound, rooted) =
        subst (Post (λ f. Sound f × Rooted root f) (λ e. Unit {0})) {y = ok f} a post in
      let (adds, closed) =
        dependency_walk-Linked packages resolver acyclic n (begin (root_of ov)) (root_of ov) 0 r f a
          refl (omega arith) in
      let same : without_root f.dependencies ≡ ds = ground (arith, b) in
      let all = names-without_root root f.dependencies rooted ∙ ap (λ xs. root ∷ names xs) same in
      let vertices =
        sound.vertices
        ∙ sym (length-names f.dependencies)
        ∙ ap length all
        ∙ ap suc (length-names ds) in
      record {
        graph = f.edges;
        distinct = subst IsDistinct all sound.distinct;
        vertices = vertices;
        root = subst (λ xs. Closed packages resolver acyclic xs f.edges 0 ov r) all closed;
        others = λ k low high.
            subst (λ xs. Vertex packages resolver acyclic xs f.edges k) all
              (adds.added k low (omega (arith, high, vertices)));
        tested = sound.tested;
      }

  module _ (universe : List String)
      (known : (r : R) (name app op : String) (scope : Scope R)
        → resolver r name app op ≡ ok scope
        → contains (fully_qualified_name scope.resources.operator_version) universe ≡ true) where
    -- Every name is in the universe, and the depth that is left covers the names that are not found yet.
    record Bounded (n : ℕ) (f : Found) : Type 0 where
      pub sound : Sound f
      pub inside :
          (s : String) → contains s (names f.dependencies) ≡ true → contains s universe ≡ true
      pub enough : length universe < n + length f.dependencies

    Bounded-steps : Steps resolver acyclic Bounded (λ e. e ≢ exhausted)
    Bounded-steps = record {
      out = λ f h e. omega (
        arith,
        h.enough,
        length-names f.dependencies,
        length-IsDistinct (names f.dependencies) universe h.sound.distinct h.inside,
      );
      failed = λ s ov e h. cc h;
      lost = λ name ov h. cc h;
      circular = λ a b h. cc h;
      updated = λ n v name child f ds e h.
          let same = names-update_resolved v name child f.dependencies ds e in
          record {
            sound = Sound-updated v name child f ds e h.sound;
            inside = λ s c. h.inside s (subst (λ xs. contains s xs ≡ true) same c);
            enough = omega (arith, h.enough, same_length ds f.dependencies same);
          };
      known = λ n v w f e h. record {
        sound = Sound-linked v w f e h.sound;
        inside = h.inside;
        enough = h.enough;
      };
      fresh = λ n v r name app op scope f from new e h. record {
        sound = Sound-extended v _ scope.resources f new e h.sound;
        inside =
            λ s c. extended_inside f scope.resources (known r name app op scope from) h.inside s c;
        enough = omega (arith, h.enough, length-extended scope.resources f);
      };
      back =
          λ n f h. record { sound = h.sound; inside = h.inside; enough = omega (arith, h.enough) };
    }
      where
        extended_inside :
            (f : Found) (child : Resources)
            → contains (fully_qualified_name child.operator_version) universe ≡ true
            → ((s : String) → contains s (names f.dependencies) ≡ true → contains s universe ≡ true)
            → (s : String) → contains s (names (extended child f).dependencies) ≡ true
            → contains s universe ≡ true
        extended_inside f child at inside s c =
            member_append (names f.dependencies) (fully_qualified_name child.operator_version)
              universe at inside s (subst (λ xs. contains s xs ≡ true) (names-extended child f) c)

    -- If the names of all operator versions that the resolvers return are in a list, and the
    -- operator version's own name too, then a depth of the list's length is enough: the walk ends
    -- with the dependencies or with an error of its own.
    pub resolve_ends :
        (n : ℕ) (ov : OperatorVersion) (r : R)
        → acyclic ([] ∷ []) ≡ true
        → contains (fully_qualified_name ov) universe ≡ true
        → length universe ≤ n
        → resolve packages resolver acyclic n ov r ≢ err exhausted
    unfolding resolve resolve_from contains
    resolve_ends n ov r h inside enough = no_exhaustion _ (
        dependency_walk-Post packages resolver acyclic Bounded (λ e. e ≢ exhausted) Bounded-steps n
          (begin (root_of ov)) (root_of ov) 0 r
          (record {
            sound = begin-Sound (root_of ov) h;
            inside =
                λ s c. member_append [] (fully_qualified_name ov) universe inside (λ s h. cc h) s c;
            enough = omega (arith, enough);
          }))
      where
        no_exhaustion :
            (x : Result Failure Found)
            → Post (Bounded n) (λ e. e ≢ exhausted) x
            → (x >>= λ f. ok (without_root f.dependencies)) ≢ err exhausted
        no_exhaustion (ok f) p e = cc e
        no_exhaustion (err x) p e = p (cc e)
