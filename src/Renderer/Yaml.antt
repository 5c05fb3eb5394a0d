-- ===== src/Renderer/Yaml.antt =====
-- pkg/engine/renderer/parser.go: `YamlToObject`. The decoders are those of client-go and apimachinery.
use Prim.Native.Char.{code}
use kudo.Prelude.{
  ℕ, zero, suc, String, Bool, true, false, not, ◌&&◌, ◌||◌, List, [], ◌∷◌, ◌++◌, Option, none, some,
  Result, ok, err, ◌>>=◌, eqb, ltb, if◌then◌else◌, concat,
}

-- `unicode.IsSpace`
unfoldable pub is_space : ℕ → Bool
is_space c =
    (not (ltb c 9) && ltb c 14)
    || eqb c 0x20
    || eqb c 0x85
    || eqb c 0xa0
    || eqb c 0x1680
    || (not (ltb c 0x2000) && ltb c 0x200b)
    || eqb c 0x2028
    || eqb c 0x2029
    || eqb c 0x202f
    || eqb c 0x205f
    || eqb c 0x3000

-- `len(strings.TrimSpace(s)) == 0`
unfoldable pub is_blank : String → Bool
unfolding is_space
is_blank String.[] = true
is_blank (String.◌∷◌ c rest) = is_space (code c) && is_blank rest

-- Does the text begin with so many dashes?
unfoldable pub has_dashes : ℕ → String → Bool
has_dashes zero s = true
has_dashes (suc n) String.[] = false
has_dashes (suc n) (String.◌∷◌ c rest) = eqb (code c) b'-' && has_dashes n rest

-- `strings.Split(s, "\n---")`: so many characters of a separator are still to be skipped, and the
-- last document begins with `current`.
unfoldable pub split_documents : ℕ → String → String → List String
unfolding has_dashes
split_documents skip current String.[] = current ∷ []
split_documents (suc skip) current (String.◌∷◌ c rest) = split_documents skip current rest
split_documents zero current (String.◌∷◌ c rest) =
    let found = eqb (code c) 10 && has_dashes 3 rest in
    let later =
      split_documents (if found then 3 else zero)
        (if found then "" else concat (current ∷ String.◌∷◌ c String.[] ∷ [])) rest in
    if found then current ∷ later else later

-- The decoders: of the types that the scheme knows, and of any other, with whether the decoded object
-- has content.
pub record Decoders (O : Type 0) : Type 0 where
  pub decode : String → Option O
  pub decode_unstructured : String → Result String (O × Bool)

module _ {O : Type 0} (decoders : Decoders O) where
  abbrev decode_any : String → Option O → Result String (List O)
  decode_any y (some o) = ok (o ∷ [])
  decode_any y none = elim (decoders.decode_unstructured y) [
    | err e ↦ err (concat ("decoding chunk \"" ∷ y ∷ "\" failed: " ∷ e ∷ []))
    | ok (o, has_content) ↦ ok (if has_content then o ∷ [] else [])
  ]

  -- One round of the loop.
  unfoldable pub decode_document : String → Result String (List O)
  unfolding is_blank
  decode_document y = if is_blank y then ok [] else decode_any y (decoders.decode y)

  unfoldable pub decode_documents : List String → Result String (List O)
  unfolding decode_document
  decode_documents [] = ok []
  decode_documents (y ∷ rest) =
      decode_document y >>= λ os. decode_documents rest >>= λ later. ok (os ++ later)

  unfoldable pub yaml_to_object : String → Result String (List O)
  unfolding decode_documents split_documents
  yaml_to_object yaml = decode_documents (split_documents zero "" yaml)
