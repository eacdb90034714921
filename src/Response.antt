-- ===== src/Response.antt =====
-- The fitting of an overview to its token budget: agc_runtime/response_budget.py. `serialized` is the
-- length of the text that json.dumps makes of the response with these data.
pub mod Fitting
use agent_global_context.Prelude.{
  ℕ, zero, suc, ◌+◌, Bool, true, false, String, Option, none, some, List, [], ◌∷◌, eqb, leb, length,
  if◌then◌else◌,
}
use Prim.Native.Nat.{◌/◌}
use agent_global_context.Value.{Value}

-- The data of an accepted overview. `by_scope` and `by_kind` stand in `counts`.
pub record Overview : Type 0 where
  pub memory_count : ℕ
  pub available_card_count : ℕ
  pub by_kind : List (String × ℕ)
  pub by_scope : List (String × ℕ)
  pub high_impact_scopes : List String
  pub cards : List Value
  pub estimated_tokens : ℕ

-- value[:-1]
unfoldable pub drop_last {ℓ} : {A : Type ℓ} → List A → List A
drop_last [] = []
drop_last (x ∷ []) = []
drop_last (x ∷ y ∷ rest) = x ∷ drop_last (y ∷ rest)

pub data Field : Type 0 where
  the_cards the_high_impact_scopes the_by_scope the_by_kind : Field

abbrev pub size : Field → Overview → ℕ
size the_cards d = length d.cards
size the_high_impact_scopes d = length d.high_impact_scopes
size the_by_scope d = length d.by_scope
size the_by_kind d = length d.by_kind

unfoldable pub compact : Field → Overview → Overview
compact the_cards d = record d { cards = drop_last d.cards }
compact the_high_impact_scopes d = record d { high_impact_scopes = drop_last d.high_impact_scopes }
compact the_by_scope d = record d { by_scope = drop_last d.by_scope }
compact the_by_kind d = record d { by_kind = drop_last d.by_kind }

-- How a stage ends: with an overview that fits, or with the field empty.
pub data Stage : Type 0 where
  fitted emptied : Overview → Stage

module _ (serialized : Overview → ℕ) where
  unfoldable pub estimate_tokens : Overview → ℕ
  estimate_tokens d = (serialized d + 2) / 3

  -- `n` more rounds of the loop
  unfoldable pub estimate_rounds : ℕ → ℕ → Overview → Overview
  estimate_rounds zero estimate d = record d { estimated_tokens = estimate }
  estimate_rounds (suc n) estimate d =
      let candidate : Overview = record d { estimated_tokens = estimate } in
      let updated = estimate_tokens candidate in
      elim (eqb updated estimate) [ true ↦ candidate | false ↦ estimate_rounds n updated d ]

  unfoldable pub with_estimate : Overview → Overview
  with_estimate d = estimate_rounds 10 0 d

  unfoldable pub fits : ℕ → Overview → Bool
  fits budget d = leb (with_estimate d).estimated_tokens budget

  -- `while container[field]`, for a field with `n` entries
  unfoldable pub squeeze : ℕ → Field → ℕ → Overview → Stage
  squeeze zero field budget d = emptied d
  squeeze (suc n) field budget d = elim (fits budget (compact field d)) [
    | true ↦ fitted (with_estimate (compact field d))
    | false ↦ squeeze n field budget (compact field d)
  ]

  -- The stages that are left.
  unfoldable pub run_stages : List Field → ℕ → Overview → Option Overview
  run_stages [] budget d = none
  run_stages (field ∷ rest) budget d = elim (squeeze (size field d) field budget d) [
    | fitted c ↦ some c
    | emptied e ↦ run_stages rest budget e
  ]

  -- `none` is the error response_budget_exceeded.
  unfoldable pub fit_overview : ℕ → Overview → Option Overview
  fit_overview budget d =
      if fits budget d
      then some (with_estimate d)
      else run_stages (the_cards ∷ the_high_impact_scopes ∷ the_by_scope ∷ the_by_kind ∷ []) budget
          d
