-- ===== src/Markdown/Entries.antt =====
-- The optional fields of the front matter, as they are looked up.
use agent_global_context.Prelude.{
  ◌≡◌, refl, String, true, false, Option, none, some, List, [], ◌∷◌, ◌++◌, ◌==◌, elem, All,
  Bool-cases, inl, inr, if◌then◌else◌,
}
use agent_global_context.Result.{ok}
use agent_global_context.Value.{Value, str, get, keys, fields_of}
use agent_global_context.Value.Strict.{
  difference, optional_string, string_list, IsText, IsOptionalText, optional_string-optional,
  string_list-list,
}
use agent_global_context.Markdown.{
  top_level_fields, or_none, or_no_refs, optional_entries, refs_entry,
}

-- What the optional fields say of a name, in front of what follows them.
abbrev pub value_or : Option String → Option Value → Option Value
value_or none later = later
value_or (some s) later = some (str s)

abbrev pub found : String → List (String × Option String) → Option Value → Option Value
found name [] later = later
found name ((n, o) ∷ rest) later =
    if n == name then value_or o (found name rest later) else found name rest later

pub get-optional_entries :
    (name : String) (ps : List (String × Option String)) (tail : List (String × Value))
    → get name (fields_of (optional_entries ps ++ tail)) ≡ found name ps (get name (fields_of tail))
unfolding optional_entries
get-optional_entries name [] tail = refl
get-optional_entries name ((n, none) ∷ rest) tail = elim (Bool-cases (n == name)) [
  | inl same ↦ rw same (get-optional_entries name rest tail)
  | inr other ↦ rw other (get-optional_entries name rest tail)
]
get-optional_entries name ((n, some s) ∷ rest) tail = elim (Bool-cases (n == name)) [
  | inl same ↦ rw same refl
  | inr other ↦ rw other (get-optional_entries name rest tail)
]

abbrev pub AllKnown : List String → List (String × Option String) → Type 0
AllKnown allowed ps = All (λ p. elem p.0 allowed ≡ true) ps

pub difference-optional_entries :
    (allowed : List String) (ps : List (String × Option String)) (tail : List (String × Value))
    → AllKnown allowed ps
    → difference (keys (fields_of (optional_entries ps ++ tail))) allowed
      ≡ difference (keys (fields_of tail)) allowed
unfolding optional_entries difference
difference-optional_entries allowed [] tail h = refl
difference-optional_entries allowed ((n, none) ∷ rest) tail h =
    difference-optional_entries allowed rest tail h.1
difference-optional_entries allowed ((n, some s) ∷ rest) tail h =
    rw h.0 (difference-optional_entries allowed rest tail h.1)

pub get-refs_entry :
    (name : String) (refs : List String)
    → (name == "goal_refs") ≡ false
    → ("goal_refs" == name) ≡ false
    → get name (fields_of (refs_entry refs)) ≡ none
unfolding refs_entry
get-refs_entry name [] h k = refl
get-refs_entry name (r ∷ rest) h k = rw k refl

pub refs_entry-known :
    (refs : List String) → difference (keys (fields_of (refs_entry refs))) top_level_fields ≡ []
unfolding refs_entry difference
refs_entry-known [] = refl
refs_entry-known (r ∷ rest) = refl

pub refs_entry-refs :
    (refs : List String)
    → All IsText refs
    → string_list (or_no_refs (get "goal_refs" (fields_of (refs_entry refs)))) "goal_refs" ≡ ok refs
unfolding refs_entry
refs_entry-refs [] h = string_list-list [] "goal_refs" h
refs_entry-refs (r ∷ rest) h = string_list-list (r ∷ rest) "goal_refs" h

-- An optional field alone.
pub optional_string-value_or :
    (o : Option String) (name : String)
    → IsOptionalText o
    → optional_string (or_none (value_or o none)) name ≡ ok o
optional_string-value_or none name h = optional_string-optional none name h
optional_string-value_or (some s) name h = optional_string-optional (some s) name h
