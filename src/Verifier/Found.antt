-- ===== src/Verifier/Found.antt =====
-- What the walk over the tree of a template finds stands in the template.
use kudo.Prelude.{
  ◌≡◌, ◌⊎◌, refl, ap, ◌∙◌, inl, inr, String, Bool, true, false, ◌&&◌, ◌||◌, List, [], ◌∷◌, ◌++◌,
  ◌==◌, Bool-cases, contains, map, arith, eq_iff,
}
use kudo.Prelude.Maps.{lookup, insert, lookup-insert}
use kudo.Verifier.Fields.{
  named, variable_names, names_of_args, names_of_commands, names_of_pipe, names_of, names_of_items,
}
use kudo.Verifier.Nodes.{
  Node, Items, Pipe, Commands, Args, action, if_node, with_node, range_node, list_node,
  template_node, text_node, other_node, no_items, item, pipe, no_commands, command, no_args,
  field_arg, variable_arg, pipe_arg, other_arg, NodeMap, ensured, add_node_slice_map, values, Walk,
  at_field, at_variable, unless_returned, walk_args, walk_commands, walk_pipes, walk_nodes,
  walk_items,
}

unfoldable pub among : String → String → List (String × String) → Bool
among kind name [] = false
among kind name ((k, n) ∷ rest) = (k == kind && n == name) || among kind name rest

among-append :
    (kind name : String) (xs ys : List (String × String))
    → among kind name (xs ++ ys) ≡ (among kind name xs || among kind name ys)
unfolding among
among-append kind name [] ys = refl
among-append kind name ((k, n) ∷ xs) ys = ground (arith, among-append kind name xs ys)

abbrev pub has : String → String → NodeMap → Bool
has kind name m = contains name (values m kind)

abbrev keys : List (String × Bool) → List String
keys set = map (λ (p : String × Bool). p.0) set

contains-insert :
    (name added : String) (set : List (String × Bool))
    → contains name (keys (insert added true set)) ≡ (added == name || contains name (keys set))
unfolding contains insert
contains-insert name added [] = ground arith
contains-insert name added ((n, b) ∷ rest) =
    ground
      (arith, contains-insert name added rest, eq_iff added name, eq_iff n added, eq_iff n name)

has-add :
    (kind name k n : String) (m : NodeMap)
    → has kind name (add_node_slice_map k n m) ≡ ((k == kind && n == name) || has kind name m)
unfolding add_node_slice_map
has-add kind name k n m =
    let set = insert n true (ensured (lookup k m)) in
    elim (Bool-cases (k == kind)) [
      | inl e ↦
          rw (lookup-insert k kind set m, e)
            (contains-insert name n (ensured (lookup k m))
              ∙ ap (λ x. n == name || contains name (keys (ensured (lookup x m))))
                  ((eq_iff k kind).0 e))
      | inr e ↦ rw (lookup-insert k kind set m, e) refl
    ]

-- Whatever the map has afterwards, it had before, or it is among the names.
abbrev IsSound : (NodeMap → NodeMap) → List (String × String) → Type 0
IsSound walk names =
    (m : NodeMap) (kind name : String)
    → has kind name (walk m) ≡ true
    → (has kind name m ≡ true) ⊎ (among kind name names ≡ true)

among-left :
    (kind name : String) (xs ys : List (String × String))
    → among kind name xs ≡ true
    → among kind name (xs ++ ys) ≡ true
among-left kind name xs ys h = ground (arith, h, among-append kind name xs ys)

among-right :
    (kind name : String) (xs ys : List (String × String))
    → among kind name ys ≡ true
    → among kind name (xs ++ ys) ≡ true
among-right kind name xs ys h = ground (arith, h, among-append kind name xs ys)

IsSound-then :
    (f g : NodeMap → NodeMap) (xs ys : List (String × String))
    → IsSound f xs
    → IsSound g ys
    → IsSound (λ m. g (f m)) (xs ++ ys)
IsSound-then f g xs ys p q m kind name h = elim (q (f m) kind name h) [
  | inl k ↦ elim (p m kind name k) [ inl l ↦ inl l | inr l ↦ inr (among-left kind name xs ys l) ]
  | inr k ↦ inr (among-right kind name xs ys k)
]

IsSound-unless :
    (f g : NodeMap → Walk) (xs ys : List (String × String))
    → IsSound (λ m. (f m).0) xs
    → IsSound (λ m. (g m).0) ys
    → IsSound (λ m. (unless_returned (f m) g).0) (xs ++ ys)
IsSound-unless f g xs ys p q m kind name = by_walk (f m) (p m kind name)
  where
    by_walk :
        (w : Walk)
        → (has kind name w.0 ≡ true → (has kind name m ≡ true) ⊎ (among kind name xs ≡ true))
        → has kind name (unless_returned w g).0 ≡ true
        → (has kind name m ≡ true) ⊎ (among kind name (xs ++ ys) ≡ true)
    by_walk (w, true) k h = elim (k h) [
      | inl l ↦ inl l
      | inr l ↦ inr (among-left kind name xs ys l)
    ]
    by_walk (w, false) k h = elim (q w kind name h) [
      | inl l ↦ elim (k l) [ inl l' ↦ inl l' | inr l' ↦ inr (among-left kind name xs ys l') ]
      | inr l ↦ inr (among-right kind name xs ys l)
    ]

IsSound-add : (k n : String) → IsSound (add_node_slice_map k n) ((k, n) ∷ [])
unfolding among
IsSound-add k n m kind name h = elim (Bool-cases (has kind name m)) [
  | inl e ↦ inl e
  | inr e ↦ inr (ground (arith, h, e, has-add kind name k n m))
]

at_field-IsSound : (ident : List String) → IsSound (λ m. (at_field ident m).0) (named ident)
unfolding at_field
at_field-IsSound [] = λ m kind name h. inl h
at_field-IsSound (a ∷ []) = IsSound-add "Implicits" a
at_field-IsSound (a ∷ b ∷ more) = IsSound-add a b

at_variable-IsSound :
    (ident : List String) → IsSound (λ m. (at_variable ident m).0) (variable_names ident)
unfolding at_variable
at_variable-IsSound [] m kind name h = inl h
at_variable-IsSound (v ∷ []) m kind name h = inl h
at_variable-IsSound (v ∷ a ∷ []) m kind name h = elim (Bool-cases (v == "$")) [
  | inl e ↦ rw e (IsSound-add "Implicits" a m kind name (rw e at h))
  | inr e ↦ inl (rw e at h)
]
at_variable-IsSound (v ∷ a ∷ b ∷ more) m kind name h = elim (Bool-cases (v == "$")) [
  | inl e ↦ rw e (IsSound-add a b m kind name (rw e at h))
  | inr e ↦ inl (rw e at h)
]

mutual
  unfolding walk_args names_of_args

  walk_args-IsSound : (a : Args) → IsSound (λ m. (walk_args a m).0) (names_of_args a)
  walk_args-IsSound no_args = λ m kind name h. inl h
  walk_args-IsSound (field_arg ident rest) =
      IsSound-unless (at_field ident) (walk_args rest) (named ident) (names_of_args rest)
        (at_field-IsSound ident) (walk_args-IsSound rest)
  walk_args-IsSound (variable_arg ident rest) =
      IsSound-unless (at_variable ident) (walk_args rest) (variable_names ident)
        (names_of_args rest) (at_variable-IsSound ident) (walk_args-IsSound rest)
  walk_args-IsSound (pipe_arg p rest) =
      IsSound-then (walk_pipes p) (λ m. (walk_args rest m).0) (names_of_pipe p) (names_of_args rest)
        (walk_pipes-IsSound p) (walk_args-IsSound rest)
  walk_args-IsSound (other_arg rest) = walk_args-IsSound rest

  walk_commands-IsSound :
      (c : Commands) → IsSound (λ m. (walk_commands c m).0) (names_of_commands c)
  walk_commands-IsSound no_commands = λ m kind name h. inl h
  walk_commands-IsSound (command args rest) =
      IsSound-unless (walk_args args) (walk_commands rest) (names_of_args args)
        (names_of_commands rest) (walk_args-IsSound args) (walk_commands-IsSound rest)

  walk_pipes-IsSound : (p : Pipe) → IsSound (walk_pipes p) (names_of_pipe p)
  walk_pipes-IsSound (pipe commands) = walk_commands-IsSound commands

mutual
  unfolding walk_nodes names_of among

  walk_nodes-IsSound : (n : Node) → IsSound (walk_nodes n) (names_of n)
  walk_nodes-IsSound (action p) = walk_pipes-IsSound p
  walk_nodes-IsSound (if_node list else_list p) =
      IsSound-then (walk_items list) (λ m. walk_pipes p (walk_items else_list m))
        (names_of_items list) (names_of_items else_list ++ names_of_pipe p)
        (walk_items-IsSound list)
        (IsSound-then (walk_items else_list) (walk_pipes p) (names_of_items else_list)
          (names_of_pipe p) (walk_items-IsSound else_list) (walk_pipes-IsSound p))
  walk_nodes-IsSound (with_node list else_list p) =
      IsSound-then (walk_items list) (λ m. walk_pipes p (walk_items else_list m))
        (names_of_items list) (names_of_items else_list ++ names_of_pipe p)
        (walk_items-IsSound list)
        (IsSound-then (walk_items else_list) (walk_pipes p) (names_of_items else_list)
          (names_of_pipe p) (walk_items-IsSound else_list) (walk_pipes-IsSound p))
  walk_nodes-IsSound (range_node list else_list p) =
      IsSound-then (walk_items list) (walk_pipes p) (names_of_items list)
        (names_of_items else_list ++ names_of_pipe p) (walk_items-IsSound list)
        (λ m kind name h. elim (walk_pipes-IsSound p m kind name h) [
          | inl k ↦ inl k
          | inr k ↦ inr (among-right kind name (names_of_items else_list) (names_of_pipe p) k)
        ])
  walk_nodes-IsSound (list_node items) = walk_items-IsSound items
  walk_nodes-IsSound template_node = λ m kind name h. inl h
  walk_nodes-IsSound text_node = λ m kind name h. inl h
  walk_nodes-IsSound other_node = λ m kind name h. inl h

  walk_items-IsSound : (i : Items) → IsSound (walk_items i) (names_of_items i)
  walk_items-IsSound no_items = λ m kind name h. inl h
  walk_items-IsSound (item n rest) =
      IsSound-then (walk_nodes n) (walk_items rest) (names_of n) (names_of_items rest)
        (walk_nodes-IsSound n) (walk_items-IsSound rest)

-- A parameter that is found in a template stands somewhere in it, as a field of `.Params` or `$.Params`.
pub walk_nodes-Found :
    (root : Node) (name : String)
    → contains name (values (walk_nodes root []) "Params") ≡ true
    → among "Params" name (names_of root) ≡ true
unfolding contains lookup
walk_nodes-Found root name h = elim (walk_nodes-IsSound root [] "Params" name h) [
  | inl k ↦ absurd (cc k)
  | inr k ↦ k
]
