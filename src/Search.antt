-- ===== src/Search.antt =====
-- The search of the formal memory: `_as_filter_values` to `_handle_search` of
-- agc_runtime/read_service.py, over the cards of a catalog (agc_runtime/catalog.py).
pub mod Selection
use Prim.Native.String.{◌++◌ as ◌⧺◌}
use agent_global_context.Prelude.{
  ℕ, zero, suc, ◌+◌, ◌-◌, Bool, true, false, not, ◌&&◌, ◌||◌, String, Option, none, some, List, [],
  ◌∷◌, ◌==◌, any, elem, eqb, if◌then◌else◌,
}
use agent_global_context.Result.{Result, ok, err, value_error, ◌>>=◌}
use agent_global_context.Catalog.{Card}
use agent_global_context.Value.{
  Value, null, bool, int, str, list, dict, other, Values, nil, cons, Fields, get,
}

unfoldable pub strings : Values → Option (List String)
strings nil = some []
strings (cons (str s) rest) = elim (strings rest) [ none ↦ none | some ss ↦ some (s ∷ ss) ]
strings (cons null rest) = none
strings (cons (bool b) rest) = none
strings (cons (int i) rest) = none
strings (cons (list l) rest) = none
strings (cons (dict d) rest) = none
strings (cons (other n) rest) = none

abbrev not_strings : String → Result (Option (List String))
not_strings name = err (value_error "filters.{} must be a list of strings" (name ∷ []))

or_not_strings : Option (List String) → String → Result (Option (List String))
or_not_strings none name = not_strings name
or_not_strings (some ss) name = ok (some ss)

filter_values : Option Value → String → Result (Option (List String))
unfolding or_not_strings strings
filter_values none name = ok none
filter_values (some null) name = ok none
filter_values (some (list vs)) name = or_not_strings (strings vs) name
filter_values (some (bool b)) name = not_strings name
filter_values (some (int i)) name = not_strings name
filter_values (some (str s)) name = not_strings name
filter_values (some (dict d)) name = not_strings name
filter_values (some (other n)) name = not_strings name

unfoldable pub as_filter_values : Fields → String → Result (Option (List String))
unfolding filter_values
as_filter_values filters name = filter_values (get name filters) name

allows : Option (List String) → String → Bool
allows none value = true
allows (some allowed) value = elem value allowed

-- The scalar filters that are left: their name and what the card has there.
unfoldable pub check_scalars : Fields → List (String × String) → Result Bool
unfolding allows
check_scalars filters [] = ok true
check_scalars filters ((name, value) ∷ rest) = do
  allowed ← as_filter_values filters name
  elim (allows allowed value) [ true ↦ check_scalars filters rest | false ↦ ok false ]

meets_scopes : Option (List String) → List String → Bool
meets_scopes none scopes = true
meets_scopes (some wanted) scopes = any (λ scope. elem scope wanted) scopes

unfoldable pub matches_filters : Card → Fields → Result Bool
unfolding meets_scopes
matches_filters card filters = do
  scalars ← check_scalars filters (
      ("kind", card.kind)
      ∷ ("decision_impact", card.decision_impact)
      ∷ ("sensitivity", card.sensitivity)
      ∷ ("exposure", card.exposure)
      ∷ ("confidence", card.confidence)
      ∷ [])
  elim scalars [
    | true ↦ do scopes ← as_filter_values filters "scopes"; ok (meets_scopes scopes card.scopes)
    | false ↦ ok false
  ]

starts_with : String → String → Bool
starts_with String.[] text = true
starts_with (String.◌∷◌ c s) String.[] = false
starts_with (String.◌∷◌ c s) (String.◌∷◌ d text) =
    String.◌∷◌ c String.[] == String.◌∷◌ d String.[] && starts_with s text

-- `part in text`
unfoldable pub contains : String → String → Bool
unfolding starts_with
contains part String.[] = part == ""
contains part (String.◌∷◌ c text) = starts_with part (String.◌∷◌ c text) || contains part text

-- `casefold` is that of Python's texts.
module _ (casefold : String → String) where
  unfoldable pub matches_query : Option String → Card → Bool
  matches_query none card = true
  matches_query (some query) card =
      casefold query == ""
      || contains (casefold query) (casefold (card.id ⧺ (" " ⧺ card.memory_card)))

  -- The conditions of the loop's body, each of which may skip the card.
  unfoldable pub is_wanted : Fields → Option String → Card → Result Bool
  is_wanted filters query card = elim (card.lifecycle == "active") [
    | true ↦ do matched ← matches_filters card filters; ok (matched && matches_query query card)
    | false ↦ ok false
  ]

  -- The loop over the catalog, `missing` cards before it breaks.
  with_card : Result (List Card) → Card → Result (List Card)
  with_card (ok found) card = ok (card ∷ found)
  with_card (err e) card = err e

  unfoldable pub search_cards : Fields → Option String → ℕ → List Card → Result (List Card)
  unfolding with_card
  search_cards filters query missing [] = ok []
  search_cards filters query missing (card ∷ rest) = do
    wanted ← is_wanted filters query card
    elim wanted [
      | true ↦ (elim (eqb missing 1) [
        | true ↦ ok (card ∷ [])
        | false ↦ with_card (search_cards filters query (missing - 1) rest) card
      ])
      | false ↦ search_cards filters query missing rest
    ]
