-- ===== src/Verifier/Fields.antt =====
-- All fields and variables that stand in a template, whatever the walk of the verifier reads.
use kudo.Prelude.{String, List, [], ◌∷◌, ◌++◌, ◌==◌, if◌then◌else◌}
use kudo.Verifier.Nodes.{
  Node, Items, Pipe, Commands, Args, action, if_node, with_node, range_node, list_node,
  template_node, text_node, other_node, no_items, item, pipe, no_commands, command, no_args,
  field_arg, variable_arg, pipe_arg, other_arg,
}

-- The kind and the name that a field stands for.
abbrev pub named : List String → List (String × String)
named [] = []
named (name ∷ []) = ("Implicits", name) ∷ []
named (kind ∷ name ∷ more) = (kind, name) ∷ []

abbrev pub variable_names : List String → List (String × String)
variable_names [] = []
variable_names (variable ∷ ident) = if variable == "$" then named ident else []

-- All fields and variables of a template, in any branch of it.
unfoldable mutual
  pub names_of_args : Args → List (String × String)
  names_of_args no_args = []
  names_of_args (field_arg ident rest) = named ident ++ names_of_args rest
  names_of_args (variable_arg ident rest) = variable_names ident ++ names_of_args rest
  names_of_args (pipe_arg p rest) = names_of_pipe p ++ names_of_args rest
  names_of_args (other_arg rest) = names_of_args rest

  pub names_of_commands : Commands → List (String × String)
  names_of_commands no_commands = []
  names_of_commands (command args rest) = names_of_args args ++ names_of_commands rest

  pub names_of_pipe : Pipe → List (String × String)
  names_of_pipe (pipe commands) = names_of_commands commands

unfoldable mutual
  pub names_of : Node → List (String × String)
  names_of (action p) = names_of_pipe p
  names_of (if_node list else_list p) =
      names_of_items list ++ (names_of_items else_list ++ names_of_pipe p)
  names_of (with_node list else_list p) =
      names_of_items list ++ (names_of_items else_list ++ names_of_pipe p)
  names_of (range_node list else_list p) =
      names_of_items list ++ (names_of_items else_list ++ names_of_pipe p)
  names_of (list_node items) = names_of_items items
  names_of template_node = []
  names_of text_node = []
  names_of other_node = []

  pub names_of_items : Items → List (String × String)
  names_of_items no_items = []
  names_of_items (item n rest) = names_of n ++ names_of_items rest
