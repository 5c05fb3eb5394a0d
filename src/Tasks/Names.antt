-- ===== src/Tasks/Names.antt =====
-- pkg/engine/task/task_pipe.go: the names of a pipe pod and of the artifacts of a pipe task.
use Prim.Native.Char.{Char, code}
use kudo.Prelude.{
  ℕ, zero, suc, ◌-◌, ltb, eqb, String, Bool, not, ◌&&◌, ◌||◌, List, [], ◌∷◌, if◌then◌else◌, concat,
}
use kudo.Tasks.Run.{TaskMetadata}

letters : List String
letters =
    "a" ∷ "b" ∷ "c" ∷ "d" ∷ "e" ∷ "f" ∷ "g" ∷ "h" ∷ "i" ∷ "j" ∷ "k" ∷ "l" ∷ "m" ∷ "n" ∷ "o" ∷ "p"
    ∷ "q" ∷ "r" ∷ "s" ∷ "t" ∷ "u" ∷ "v" ∷ "w" ∷ "x" ∷ "y" ∷ "z" ∷ []

letter_at : List String → ℕ → String
letter_at [] n = ""
letter_at (l ∷ rest) zero = l
letter_at (l ∷ rest) (suc n) = letter_at rest n

abbrev in_range : ℕ → ℕ → ℕ → Bool
in_range lo hi c = not (ltb c lo) && not (ltb hi c)

-- A character after `strings.ToLower`, if it is then a letter a to z or a digit. Two letters beyond
-- ASCII have such a lower case: the Kelvin sign, and I with a dot.
unfoldable pub lower_alnum : Char → String
unfolding letters letter_at
lower_alnum c =
    if in_range b'a' b'z' (code c) || in_range b'0' b'9' (code c)
    then String.◌∷◌ c String.[]
    else if in_range b'A' b'Z' (code c)
    then letter_at letters (code c - b'A')
    else if eqb (code c) 0x212a
    then "k"
    else if eqb (code c) 0x130
    then "i"
    else ""

unfoldable pub sanitize : String → String
unfolding lower_alnum concat
sanitize String.[] = ""
sanitize (String.◌∷◌ c rest) = concat (lower_alnum c ∷ sanitize rest ∷ [])

-- `name`: the sanitized parts, joined by dots.
unfoldable pub name_of : TaskMetadata → String → String
unfolding sanitize concat
name_of meta suffix = concat (
    sanitize meta.engine.instance_name
    ∷ "."
    ∷ sanitize meta.plan_name
    ∷ "."
    ∷ sanitize meta.phase_name
    ∷ "."
    ∷ sanitize meta.step_name
    ∷ "."
    ∷ sanitize meta.task_name
    ∷ "."
    ∷ sanitize suffix
    ∷ [])

unfoldable pub pipe_pod_name : TaskMetadata → String
unfolding name_of
pipe_pod_name meta = name_of meta "pipepod"

unfoldable pub pipe_artifact_name : TaskMetadata → String → String
unfolding name_of
pipe_artifact_name meta key = name_of meta key
