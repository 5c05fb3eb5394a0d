-- ===== src/Samples/Templates.antt =====
-- A template with a parameter, and a package with the template.
use kudo.Prelude.{◌≡◌, ◌↔◌, refl, String, true, [], ◌∷◌, Result, ok, All, contains}
use kudo.Prelude.Maps.{insert, lookup}
use kudo.Verifier.Files.{is_valid}
use kudo.Verifier.Nodes.{
  Node, action, range_node, no_items, item, pipe, no_commands, command, no_args, field_arg,
  get_node_map, values, walk_nodes,
}
use kudo.Verifier.Templates.{verify_template_references, params_not_defined}
use kudo.Verifier.Required.{
  HasTemplates, AllDefined, ToggleDefined, verify_template_references-valid_iff,
  params_not_defined-valid_iff,
}
use kudo.Verifier.Fields.{names_of}
use kudo.Verifier.Found.{among, walk_nodes-Found}
use kudo.Samples.Data.{version}
use kudo.Samples.Files.{files}

-- {{ .Params.memory }}
abbrev names_memory : Node
names_memory = action (pipe (command (field_arg ("Params" ∷ "memory" ∷ []) no_args) no_commands))

-- {{ range .Params.disks }}{{ else }}{{ .Params.memory }}{{ end }}
abbrev over_disks : Node
over_disks =
    range_node no_items (item names_memory no_items)
      (pipe (command (field_arg ("Params" ∷ "disks" ∷ []) no_args) no_commands))

-- What stands after `else` is not found.
over_disks_missed : values (walk_nodes over_disks []) "Params" ≡ "disks" ∷ []
unfolding walk_nodes lookup insert
over_disks_missed = refl

-- {{ join .Name .Params.memory }}: nothing after the name is found.
after_name_missed :
    values
      (walk_nodes
        (action (
          pipe (
            command
              (field_arg ("Name" ∷ []) (field_arg ("Params" ∷ "memory" ∷ []) no_args))
              no_commands)))
        [])
      "Params"
    ≡ []
unfolding walk_nodes lookup insert
after_name_missed = refl

walk_nodes-Found_example : among "Params" "memory" (names_of names_memory) ≡ true
unfolding walk_nodes lookup insert contains
walk_nodes-Found_example = walk_nodes-Found names_memory "memory" refl

verify_template_references-valid_iff_example :
    (is_valid (verify_template_references files) ≡ true) ↔ All (HasTemplates files) version.tasks
verify_template_references-valid_iff_example = verify_template_references-valid_iff files

abbrev parse : String → String → Result String Node
parse name file = ok names_memory

params_not_defined-valid_iff_example : (is_valid (params_not_defined files parse) ≡ true) ↔ (
    All (AllDefined files) (get_node_map parse version.templates)
    × All (ToggleDefined files) version.tasks)
params_not_defined-valid_iff_example = params_not_defined-valid_iff files parse
