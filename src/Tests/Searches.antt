-- ===== src/Tests/Searches.antt =====
-- A search for goals in a catalog of three cards.
use agent_global_context.Prelude.{◌≡◌, refl, arith, Bool, none, List, [], ◌∷◌, ◌==◌, String, All}
use agent_global_context.Result.{ok, ◌>>=◌}
use agent_global_context.Value.{list, values_of, Fields, fields_of}
use agent_global_context.Catalog.{Card}
use agent_global_context.Search.{
  as_filter_values, check_scalars, matches_filters, matches_query, is_wanted, search_cards,
}
use agent_global_context.Search.Selection.{search_cards-take}

abbrev card : String → String → Card
card id kind = record {
  id = id;
  kind = kind;
  lifecycle = "active";
  scopes = "home" ∷ [];
  updated_at = "2026-01-01";
  confidence = "confirmed";
  decision_impact = "high";
  exposure = "core_card";
  sensitivity = "normal";
  memory_card = "A card.";
}

abbrev catalog : List Card
catalog = card "a" "goal" ∷ card "b" "pattern" ∷ card "c" "goal" ∷ []

abbrev goals : Fields
goals = fields_of (("kind", list (values_of ("goal" ∷ []))) ∷ [])

abbrev is_goal : Card → Bool
is_goal c = c.kind == "goal"

catalog_decided : All (λ c. is_wanted (λ s. s) goals none c ≡ ok (is_goal c)) catalog
unfolding is_wanted matches_filters check_scalars as_filter_values matches_query ◌>>=◌
catalog_decided = (refl, (refl, (refl, tt)))

search_cards-take_example : search_cards (λ s. s) goals none 1 catalog ≡ ok (card "a" "goal" ∷ [])
search_cards-take_example =
    search_cards-take (λ s. s) goals none is_goal 1 catalog catalog_decided (ground arith)
