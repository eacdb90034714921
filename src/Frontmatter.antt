-- ===== src/Frontmatter.antt =====
-- agc_runtime/frontmatter.py: a memory's file is YAML between two lines `---`, and four sections.
use Prim.Native.Char.{Char, code}
use Prim.Native.String.{◌++◌ as ◌⧺◌}
use agent_global_context.Prelude.{
  ℕ, Bool, ◌&&◌, ◌||◌, String, Option, none, some, List, [], ◌∷◌, ◌==◌, eqb, elem, if◌then◌else◌,
}
use agent_global_context.Result.{Error, Result, ok, err, value_error, ◌>>=◌, ◌>>◌, raise_if}
use agent_global_context.Utf8.{normalized}
use agent_global_context.Value.{Value, dict, Fields}
use agent_global_context.Catalog.{join}

mutual
  -- The nodes that yaml.compose returns.
  pub data Node : Type 0 where
    scalar : String → Node
    mapping : Pairs → Node
    sequence : Nodes → Node

  pub data Pairs : Type 0 where
    no_pairs : Pairs
    pair : Node → Node → Pairs → Pairs

  pub data Nodes : Type 0 where
    no_nodes : Nodes
    node : Node → Nodes → Nodes

-- What a function of the YAML library does: it returns, it raises YAMLError, or it raises
-- an exception of any other class, as AttributeError or IndexError at some tags.
pub data Loaded (A : Type 0) : Type 0 where
  loaded : A → Loaded A
  yaml_error : String → Loaded A
  fault : Error → Loaded A

-- PyYAML, and the text methods of Python that go by Unicode's tables.
pub record Yaml : Type 0 where
  pub compose : String → Loaded (Option Node)
  pub safe_load : String → Loaded Value
  pub safe_dump : Fields → String
  pub strip : String → String
  pub rstrip : String → String

pub record Sections : Type 0 where
  pub memory_card : String
  pub full_meaning : String
  pub application_boundary : String
  pub rationale : String

abbrev pub or_invalid : {A : Type 0} → Loaded A → Result A
or_invalid (loaded a) = ok a
or_invalid (yaml_error reason) = err (value_error "invalid YAML frontmatter: {}" (reason ∷ []))
or_invalid (fault e) = err e

abbrev pub scalar_key : Node → Result String
scalar_key (scalar key) = ok key
scalar_key _ = err (value_error "invalid YAML frontmatter: mapping keys must be scalars" [])

mutual
  reject_duplicates : Node → Result (Unit {0})
  reject_duplicates (scalar value) = ok tt
  reject_duplicates (mapping pairs) = reject_in_pairs pairs []
  reject_duplicates (sequence nodes) = reject_in_nodes nodes

  reject_in_pairs : Pairs → List String → Result (Unit {0})
  reject_in_pairs no_pairs seen = ok tt
  reject_in_pairs (pair key_node value_node rest) seen = scalar_key key_node >>= λ key.
      raise_if (elem key seen) (value_error "duplicate YAML key: {}" (key ∷ []))
      >> (reject_duplicates value_node >> reject_in_pairs rest (key ∷ seen))

  reject_in_nodes : Nodes → Result (Unit {0})
  reject_in_nodes no_nodes = ok tt
  reject_in_nodes (node item rest) = reject_duplicates item >> reject_in_nodes rest

unfoldable pub reject_duplicate_yaml_keys : Option Node → Result (Unit {0})
unfolding reject_duplicates
reject_duplicate_yaml_keys none = ok tt
reject_duplicate_yaml_keys (some root) = reject_duplicates root

-- The characters that end a line for `str.splitlines`.
ends_line : ℕ → Bool
ends_line c =
    eqb c 10
    || eqb c 11
    || eqb c 12
    || eqb c 13
    || eqb c 28
    || eqb c 29
    || eqb c 30
    || eqb c 133
    || eqb c 8232
    || eqb c 8233

put_first : Char → List String → List String
put_first c [] = String.◌∷◌ c String.[] ∷ []
put_first c (line ∷ rest) = String.◌∷◌ c line ∷ rest

-- `splitlines` of a text that has no carriage return
splitlines : String → List String
unfolding put_first ends_line
splitlines String.[] = []
splitlines (String.◌∷◌ c s) =
    let rest = splitlines s in if ends_line (code c) then "" ∷ rest else put_first c rest

-- The lines of a text, an empty one behind the last line end too.
unfoldable pub lines_of : String → List String
unfolding put_first
lines_of String.[] = "" ∷ []
lines_of (String.◌∷◌ c s) =
    let rest = lines_of s in if eqb (code c) 10 then "" ∷ rest else put_first c rest

-- text.lstrip("\n")
strip_newlines : String → String
strip_newlines String.[] = String.[]
strip_newlines (String.◌∷◌ c s) =
    let rest = strip_newlines s in if eqb (code c) 10 then rest else String.◌∷◌ c s

-- The lines before the first `---`, and those behind it.
unfoldable pub cut : List String → Option (List String × List String)
cut [] = none
cut (line ∷ rest) =
    let later = cut rest in
    if line == "---"
    then some ([], rest)
    else elim later [ none ↦ none | some (before, behind) ↦ some (line ∷ before, behind) ]

opened : List String → Result (List String)
opened [] = err (value_error "Markdown must start with YAML frontmatter" [])
opened (line ∷ rest) =
    if line == "---"
    then ok rest
    else err (value_error "Markdown must start with YAML frontmatter" [])

closed : Option (List String × List String) → Result (List String × List String)
closed none = err (value_error "YAML frontmatter is not closed" [])
closed (some parts) = ok parts

mapping_of : Value → Result Fields
mapping_of (dict fields) = ok fields
mapping_of _ = err (value_error "YAML frontmatter must be a mapping" [])

unfoldable pub parse_frontmatter : Yaml → String → Result (Fields × String)
unfolding splitlines opened closed mapping_of strip_newlines
parse_frontmatter yaml text = do
  inside ← opened (splitlines (normalized text))
  (before, behind) ← closed (cut inside)
  let source = join "\n" before
  root ← or_invalid (yaml.compose source)
  reject_duplicate_yaml_keys root
  value ← or_invalid (yaml.safe_load source)
  fields ← mapping_of value
  ok (fields, strip_newlines (join "\n" behind))

-- Does a line have the form of a heading, `## ` and a title?
unfoldable pub heading_in : String → Option String
heading_in (String.◌∷◌ a (String.◌∷◌ b (String.◌∷◌ c (String.◌∷◌ d title)))) =
    if eqb (code a) 35 && eqb (code b) 35 && eqb (code c) 32
    then some (String.◌∷◌ d title)
    else none
heading_in _ = none

-- The lines before the first heading, and the sections: the title of each, and its lines.
unfoldable pub split_sections : List String → List String × List (String × List String)
unfolding heading_in
split_sections [] = ([], [])
split_sections (line ∷ rest) =
    let (before, sections) = split_sections rest in
    elim (heading_in line) [
      | none ↦ (line ∷ before, sections)
      | some title ↦ ([], (title, before) ∷ sections)
    ]

wrong_headings : Result Sections
wrong_headings = err (
    value_error
      "body headings must appear exactly once and in canonical order: Memory Card, Full Meaning, Application Boundary, Rationale"
      [])

unfoldable pub sections_from : (String → String) → List (String × List String) → Result Sections
unfolding wrong_headings
sections_from strip ((a, card) ∷ (b, meaning) ∷ (c, boundary) ∷ (d, reasons) ∷ []) =
    if a == "Memory Card" && b == "Full Meaning" && c == "Application Boundary" && d == "Rationale"
    then ok (record {
      memory_card = strip (join "\n" card);
      full_meaning = strip (join "\n" meaning);
      application_boundary = strip (join "\n" boundary);
      rationale = strip (join "\n" reasons);
    })
    else wrong_headings
sections_from strip _ = wrong_headings

-- For a body that has no carriage return. A section ends where the next heading begins.
unfoldable pub parse_body_sections : Yaml → String → Result Sections
parse_body_sections yaml body = sections_from yaml.strip (split_sections (lines_of body)).1

section : Yaml → String → String → String
section yaml heading text = "## " ⧺ (heading ⧺ ("\n\n" ⧺ yaml.strip text))

unfoldable pub render_markdown : Yaml → Fields → Sections → String
unfolding section
render_markdown yaml frontmatter sections =
    let body = join "\n\n" (
      section yaml "Memory Card" sections.memory_card
      ∷ section yaml "Full Meaning" sections.full_meaning
      ∷ section yaml "Application Boundary" sections.application_boundary
      ∷ section yaml "Rationale" sections.rationale
      ∷ []) in
    "---\n" ⧺ (yaml.rstrip (yaml.safe_dump frontmatter) ⧺ ("\n---\n" ⧺ (body ⧺ "\n")))
