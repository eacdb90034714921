-- ===== src/Value/Strict.antt =====
-- The strict readers of agc_runtime/contracts.py; those of agc_runtime/models.py are the same.
use Prim.Native.Nat.{Ordering}
use Prim.Native.String.{compare}
use agent_global_context.Prelude.{
  ℕ, ◌≡◌, refl, not, String, false, Option, none, some, List, [], ◌∷◌, arith, ◌==◌, elem, keep_if,
  All, if◌then◌else◌,
}
use agent_global_context.Result.{Error, Result, ok, err, value_error, key_error, ◌>>=◌, ◌>>◌}
use agent_global_context.Value.{
  pos, Value, null, int, str, list, dict, Values, nil, cons, Fields, get, keys, values_of, optional,
}

-- sorted(names)[0], for the names of a list that is not empty
least : String → List String → String
least s [] = s
least s (t ∷ rest) = least (elim (compare t s) [ Ordering.lt ↦ t | _ ↦ s ]) rest

-- Raises for the first name of the set in order, if there is one.
unfoldable pub raise_least : String → String → List String → Result (Unit {0})
unfolding least
raise_least message name [] = ok tt
raise_least message name (s ∷ rest) = err (value_error message (name ∷ least s rest ∷ []))

-- a - b, of sets
unfoldable pub difference : List String → List String → List String
difference a b = keep_if (λ s. not (elem s b)) a

unfoldable pub strict_mapping : Value → String → List String → Result Fields
unfolding raise_least difference ◌>>=◌
strict_mapping (dict value) name fields = do
  raise_least "unknown {} field: {}" name (difference (keys value) fields)
  raise_least "missing {} field: {}" name (difference fields (keys value))
  ok value
strict_mapping _ name fields = err (value_error "{} must be a mapping" (name ∷ []))

abbrev not_text : String → Error
not_text name = value_error "{} must be a non-empty string" (name ∷ [])

unfoldable pub string : Value → String → Result String
string (str s) name = if s == "" then err (not_text name) else ok s
string _ name = err (not_text name)

-- `optional=True`
unfoldable pub optional_string : Value → String → Result (Option String)
unfolding string ◌>>=◌
optional_string null name = ok none
optional_string value name = do s ← string value name; ok (some s)

-- `not any(not isinstance(item, str) or not item for item in value)`, with the items
texts : Values → Option (List String)
texts nil = some []
texts (cons (str s) rest) = elim (texts rest) [
  | none ↦ none
  | some ss ↦ if s == "" then none else some (s ∷ ss)
]
texts (cons _ rest) = none

or_not_texts : Option (List String) → String → Result (List String)
or_not_texts (some ss) name = ok ss
or_not_texts none name = err (value_error "{} must be a list of non-empty strings" (name ∷ []))

unfoldable pub string_list : Value → String → Result (List String)
unfolding texts or_not_texts
string_list (list value) name = or_not_texts (texts value) name
string_list _ name = or_not_texts none name

unfoldable pub non_negative_int : Value → String → Result ℕ
non_negative_int (int (pos n)) name = ok n
non_negative_int _ name = err (value_error "{} must be a non-negative integer" (name ∷ []))

or_key_error : Option Value → String → Result Value
or_key_error (some v) key = ok v
or_key_error none key = err (key_error key [])

-- value[key]
unfoldable pub index : Fields → String → Result Value
unfolding or_key_error
index value key = or_key_error (get key value) key

-- Texts that the readers accept.
abbrev pub IsText : String → Type 0
IsText s = (s == "") ≡ false

abbrev pub IsOptionalText : Option String → Type 0
IsOptionalText none = Unit
IsOptionalText (some s) = IsText s

pub string-str : (s name : String) → IsText s → string (str s) name ≡ ok s
unfolding string
string-str s name h = rw h

pub optional_string-optional :
    (o : Option String) (name : String)
    → IsOptionalText o
    → optional_string (optional o) name ≡ ok o
unfolding optional_string
optional_string-optional none name h = refl
optional_string-optional (some s) name h = rw h

texts-values_of : (ss : List String) → All IsText ss → texts (values_of ss) ≡ some ss
unfolding texts
texts-values_of [] h = refl
texts-values_of (s ∷ ss) h = rw (texts-values_of ss h.1, h.0) refl

pub string_list-list :
    (ss : List String) (name : String)
    → All IsText ss
    → string_list (list (values_of ss)) name ≡ ok ss
unfolding string_list
string_list-list ss name h = rw (texts-values_of ss h) refl

-- What the readers return is text.
pub string-IsText : (v : Value) (name s : String) → string v name ≡ ok s → IsText s
unfolding string
string-IsText v name s h = ground arith

pub optional_string-IsText :
    (v : Value) (name : String) (o : Option String)
    → optional_string v name ≡ ok o
    → IsOptionalText o
unfolding optional_string
optional_string-IsText v name o h = ground arith

texts-IsText : (vs : Values) (ss : List String) → texts vs ≡ some ss → All IsText ss
unfolding texts
texts-IsText nil [] h = tt
texts-IsText nil (s ∷ ss) h = cc
texts-IsText (cons (str s) vs) [] h = ground arith
texts-IsText (cons (str s) vs) (t ∷ ss) h = ground (arith, texts-IsText vs ss)
texts-IsText (cons _ vs) ss h = cc

pub string_list-IsText :
    (v : Value) (name : String) (ss : List String) → string_list v name ≡ ok ss → All IsText ss
unfolding string_list
string_list-IsText (list vs) name ss h = texts-IsText vs ss (ground arith)
string_list-IsText _ name ss h = cc
