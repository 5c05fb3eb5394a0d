-- ===== src/Verifier/Nodes.antt =====
-- pkg/kudoctl/packages/verifier/template/parser.go: the parameters that a template names. Go's
-- text/template/parse is a parameter; its tree is a data type. A nil list is an empty one.
use kudo.Prelude.{
  String, Bool, true, false, List, [], ◌∷◌, Option, none, some, Result, ok, err, ◌==◌,
  if◌then◌else◌, map,
}
use kudo.Prelude.Maps.{lookup, insert}

mutual
  pub data Node : Type 0 where
    action : Pipe → Node
    if_node with_node range_node : (list else_list : Items) → Pipe → Node
    list_node : Items → Node
    template_node text_node other_node : Node

  pub data Items : Type 0 where
    no_items : Items
    item : Node → Items → Items

  pub data Pipe : Type 0 where
    pipe : Commands → Pipe

  pub data Commands : Type 0 where
    no_commands : Commands
    command : Args → Commands → Commands

  -- The identifiers of a field and of a variable.
  pub data Args : Type 0 where
    no_args : Args
    field_arg variable_arg : List String → Args → Args
    pipe_arg : Pipe → Args → Args
    other_arg : Args → Args

abbrev pub NodeMap : Type 0
NodeMap = List (String × List (String × Bool))

abbrev pub ensured : Option (List (String × Bool)) → List (String × Bool)
ensured none = []
ensured (some set) = set

unfoldable pub add_node_slice_map : String → String → NodeMap → NodeMap
unfolding insert lookup
add_node_slice_map key name m = insert key (insert name true (ensured (lookup key m))) m

abbrev pub values : NodeMap → String → List String
values m key = map (λ (p : String × Bool). p.0) (ensured (lookup key m))

-- What a walk goes on with: the map, and whether it has returned.
abbrev pub Walk : Type 0
Walk = NodeMap × Bool

-- The case of a field; `true` is a `return`.
unfoldable pub at_field : List String → NodeMap → Walk
unfolding add_node_slice_map
at_field [] m = (m, true)
at_field (name ∷ []) m = (add_node_slice_map "Implicits" name m, true)
at_field (kind ∷ name ∷ more) m = (add_node_slice_map kind name m, false)

-- The case of a variable, whose first identifier is its name.
unfoldable pub at_variable : List String → NodeMap → Walk
unfolding add_node_slice_map
at_variable [] m = (m, true)
at_variable (variable ∷ []) m = (m, true)
at_variable (variable ∷ name ∷ []) m =
    if variable == "$" then (add_node_slice_map "Implicits" name m, true) else (m, true)
at_variable (variable ∷ kind ∷ name ∷ more) m =
    if variable == "$" then (add_node_slice_map kind name m, false) else (m, true)

abbrev pub unless_returned : Walk → (NodeMap → Walk) → Walk
unless_returned (m, true) later = (m, true)
unless_returned (m, false) later = later m

unfoldable mutual
  unfolding at_field at_variable

  pub walk_args : Args → NodeMap → Walk
  walk_args no_args m = (m, false)
  walk_args (field_arg ident rest) m = unless_returned (at_field ident m) (λ m'. walk_args rest m')
  walk_args (variable_arg ident rest) m =
      unless_returned (at_variable ident m) (λ m'. walk_args rest m')
  walk_args (pipe_arg p rest) m = walk_args rest (walk_pipes p m)
  walk_args (other_arg rest) m = walk_args rest m

  pub walk_commands : Commands → NodeMap → Walk
  walk_commands no_commands m = (m, false)
  walk_commands (command args rest) m =
      unless_returned (walk_args args m) (λ m'. walk_commands rest m')

  pub walk_pipes : Pipe → NodeMap → NodeMap
  walk_pipes (pipe commands) m = (walk_commands commands m).0

unfoldable mutual
  unfolding walk_pipes

  pub walk_nodes : Node → NodeMap → NodeMap
  walk_nodes (action p) m = walk_pipes p m
  walk_nodes (if_node list else_list p) m = walk_pipes p (walk_items else_list (walk_items list m))
  walk_nodes (with_node list else_list p) m =
      walk_pipes p (walk_items else_list (walk_items list m))
  -- What stands after `else` is not looked at.
  walk_nodes (range_node list else_list p) m = walk_pipes p (walk_items list m)
  walk_nodes (list_node items) m = walk_items items m
  walk_nodes template_node m = m
  walk_nodes text_node m = m
  walk_nodes other_node m = m

  pub walk_items : Items → NodeMap → NodeMap
  walk_items no_items m = m
  walk_items (item n rest) m = walk_items rest (walk_nodes n m)

-- `nodes`
pub record TemplateNodes : Type 0 where
  pub parameters : List String
  pub implicit_params : List String
  pub error : Option String

abbrev pub nodes_of : Result String Node → TemplateNodes
nodes_of (err e) = record { parameters = []; implicit_params = []; error = some e }
nodes_of (ok root) =
    let m = walk_nodes root [] in
    record { parameters = values m "Params"; implicit_params = values m "Implicits"; error = none }

-- `parse` is the parser of the template with a name.
unfoldable pub get_node_map :
    (String → String → Result String Node) → List (String × String) → List (String × TemplateNodes)
unfolding walk_nodes
get_node_map parse [] = []
get_node_map parse ((name, file) ∷ rest) =
    (name, nodes_of (parse name file)) ∷ get_node_map parse rest
