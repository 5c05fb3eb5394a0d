-- ===== src/Tasks/EnvFile.antt =====
-- pkg/engine/task/env_file.go: the variables of an env file. A file is a list of bytes. A line is
-- decoded into code points before it is read: the byte order mark is the code point 0xfeff.
use kudo.Prelude.{
  ℕ, zero, suc, ◌+◌, String, List, [], ◌∷◌, Option, none, some, Result, ok, err, ◌>>=◌, ltb, eqb,
  length, is_empty, if◌then◌else◌,
}
use kudo.Renderer.Yaml.{is_space}

abbrev pub Bytes : Type 0
Bytes = List ℕ

-- The texts of the errors, by what they say.
pub data EnvError : Type 0 where
  invalid_utf8 : (line : ℕ) → Bytes → EnvError
  not_a_definition : List ℕ → EnvError
  invalid_key : List ℕ → List String → EnvError

-- unicode/utf8, and `validation.IsEnvVarName`: the errors of a name.
pub record EnvTools : Type 0 where
  pub decode_utf8 : Bytes → Option (List ℕ)
  pub is_env_var_name : List ℕ → List String
  -- A text of code points, and the text of an error.
  pub text_of : List ℕ → String
  pub env_error_text : EnvError → String

unfoldable pub trim_left : List ℕ → List ℕ
unfolding is_space
trim_left [] = []
trim_left (c ∷ rest) = let later = trim_left rest in if is_space c then later else c ∷ rest

-- `strings.SplitN(line, "=", 2)`: `none` if there is one part only.
abbrev pub push_point : ℕ → Option (List ℕ × List ℕ) → Option (List ℕ × List ℕ)
push_point c none = none
push_point c (some (key, value)) = some (c ∷ key, value)

unfoldable pub split_definition : List ℕ → Option (List ℕ × List ℕ)
split_definition [] = none
split_definition (c ∷ rest) =
    let later = push_point c (split_definition rest) in
    if eqb c b'=' then some ([], rest) else later

abbrev trim_bom : ℕ → List ℕ → List ℕ
trim_bom zero (c ∷ rest) = if eqb c 0xfeff then rest else c ∷ rest
trim_bom n line = line

abbrev checked_key : List ℕ → List ℕ → List String → Result EnvError (Option (List ℕ × List ℕ))
checked_key key value [] = ok (some (key, value))
checked_key key value (e ∷ es) = err (invalid_key key (e ∷ es))

module _ (tools : EnvTools) where
  abbrev definition_of :
      List ℕ → Option (List ℕ × List ℕ) → Result EnvError (Option (List ℕ × List ℕ))
  definition_of line none = err (not_a_definition line)
  definition_of line (some (key, value)) = checked_key key value (tools.is_env_var_name key)

  -- A line without its leading space.
  abbrev trimmed_line : List ℕ → Result EnvError (Option (List ℕ × List ℕ))
  trimmed_line [] = ok none
  trimmed_line (c ∷ rest) =
      if eqb c b'#' then ok none else definition_of (c ∷ rest) (split_definition (c ∷ rest))

  abbrev decoded_line : ℕ → Bytes → Option (List ℕ) → Result EnvError (Option (List ℕ × List ℕ))
  decoded_line current line none = err (invalid_utf8 (current + 1) line)
  decoded_line current line (some points) = trimmed_line (trim_left (trim_bom current points))

  -- A blank key is `none`.
  unfoldable pub process_env_file_line : Bytes → ℕ → Result EnvError (Option (List ℕ × List ℕ))
  unfolding trim_left split_definition
  process_env_file_line line current = decoded_line current line (tools.decode_utf8 line)

  -- A name that is empty is no key either.
  abbrev pub added : Option (List ℕ × List ℕ) → List (List ℕ × List ℕ) → List (List ℕ × List ℕ)
  added none pairs = pairs
  added (some (key, value)) pairs = if is_empty key then pairs else (key, value) ∷ pairs

  -- The loop over the lines that the scanner returns: the calls of `addTo`, in order.
  unfoldable pub add_lines : List Bytes → ℕ → Result EnvError (List (List ℕ × List ℕ))
  unfolding process_env_file_line
  add_lines [] current = ok []
  add_lines (line ∷ rest) current = process_env_file_line line current >>= λ pair.
      add_lines rest (suc current) >>= λ pairs. ok (added pair pairs)

-- `bufio.ScanLines`: the lines without their ends; a last line that is empty is none.
abbrev pub drop_return : Bytes → Bytes
drop_return [] = []
drop_return (c ∷ []) = if eqb c 13 then [] else c ∷ []
drop_return (c ∷ d ∷ rest) = c ∷ drop_return (d ∷ rest)

abbrev pub prepend : ℕ → List Bytes → List Bytes
prepend c [] = (c ∷ []) ∷ []
prepend c (line ∷ rest) = (c ∷ line) ∷ rest

unfoldable pub split_lines : Bytes → List Bytes
split_lines [] = []
split_lines (c ∷ rest) =
    let later = split_lines rest in if eqb c 10 then [] ∷ later else prepend c later

-- `bufio.MaxScanTokenSize`: the scanner stops for good at a line that does not fit into its buffer. The
-- loop does not ask for the scanner's error.
abbrev pub max_scan_token_size : ℕ
max_scan_token_size = 65536

unfoldable pub scan : List Bytes → List Bytes
scan [] = []
scan (line ∷ rest) =
    let later = scan rest in
    if ltb (length line) max_scan_token_size then drop_return line ∷ later else []

unfoldable pub add_from_env_file : EnvTools → Bytes → Result EnvError (List (List ℕ × List ℕ))
unfolding add_lines scan split_lines
add_from_env_file tools file = add_lines tools (scan (split_lines file)) 0
