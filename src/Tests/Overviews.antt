-- ===== src/Tests/Overviews.antt =====
-- An overview of two cards, and a response whose text has ten characters for each card.
use agent_global_context.Prelude.{ℕ, ◌+◌, ◌≤◌, ◌<◌, ◌≡◌, refl, none, some, [], ◌∷◌, length}
use Prim.Native.Nat.{◌*◌}
use agent_global_context.Value.{str}
use agent_global_context.Response.{
  Overview, drop_last, compact, estimate_tokens, estimate_rounds, with_estimate, fits, squeeze,
  run_stages, fit_overview,
}
use agent_global_context.Response.Fitting.{bare, fit_overview-within, fit_overview-exhausted}

abbrev two_cards : Overview
two_cards = record {
  memory_count = 2;
  available_card_count = 2;
  by_kind = ("goal", 2) ∷ [];
  by_scope = [];
  high_impact_scopes = [];
  cards = str "a" ∷ str "b" ∷ [];
  estimated_tokens = 0;
}

abbrev one_card : Overview
one_card = record two_cards { cards = str "a" ∷ []; estimated_tokens = 14 }

abbrev text_length : Overview → ℕ
text_length d = 30 + 10 * length d.cards

one_card_fits : fit_overview text_length 15 two_cards ≡ some one_card
unfolding fit_overview run_stages squeeze fits with_estimate estimate_rounds estimate_tokens compact
    drop_last
one_card_fits = refl

nothing_fits : fit_overview text_length 5 two_cards ≡ none
unfolding fit_overview run_stages squeeze fits with_estimate estimate_rounds estimate_tokens compact
    drop_last
nothing_fits = refl

fit_overview-within_example : 14 ≤ 15
fit_overview-within_example = fit_overview-within text_length 15 two_cards one_card one_card_fits

fit_overview-exhausted_example : 5 < (with_estimate text_length (bare two_cards)).estimated_tokens
fit_overview-exhausted_example = fit_overview-exhausted text_length 5 two_cards nothing_fits
