-- ===== src/Schema/Rules.antt =====
-- What the checks of a memory's enumerations, budgets and kind ensure.
use Prim.Native.String.{count}
use mathlib.Core.Bool.{false≢true}
use agent_global_context.Prelude.{
  ℕ, ◌≤◌, ◌≡◌, ◌≢◌, refl, String, Bool, true, false, not, ◌&&◌, Option, none, some, List, [], ◌∷◌,
  arith, ◌==◌, eq_iff, elem, IsOneOf, elem→IsOneOf,
}
use agent_global_context.Result.{Result, ok, raise_if-false, Ensures, Ensures-bind}
use agent_global_context.Models.{MemoryItem}
use agent_global_context.Schema.{
  kinds, lifecycles, confidence_levels, temporal_types, recall_priors, decision_impacts, exposures,
  freshness_policies, sensitivities, interest_intensities, interest_trends, capability_polarities,
  require_enum, or_empty, require_present, require_budget, validate_budgets, validate_interest,
  is_proactive, is_nil, validate_capability, when, validate_enums,
}

pub true_of_not : (b : Bool) → not b ≡ false → b ≡ true
true_of_not b h = ground arith

abbrev pub IsDateOrNone : (String → Bool) → Option String → Type 0
IsDateOrNone is_iso_date none = Unit
IsDateOrNone is_iso_date (some s) = is_iso_date s ≡ true

pub record IsInterest (item : MemoryItem) : Type 0 where
  pub topic : item.topic ≢ none
  pub motivation : item.motivation ≢ none
  pub intensity : (s : String) × (item.intensity ≡ some s) × IsOneOf s interest_intensities
  pub trend : (s : String) × (item.trend ≡ some s) × IsOneOf s interest_trends

pub record HasEnums (item : MemoryItem) : Type 0 where
  pub kind : IsOneOf item.kind kinds
  pub status : IsOneOf item.lifecycle.status lifecycles
  pub level : IsOneOf item.confidence.level confidence_levels
  pub temporal_type : IsOneOf item.temporal.kind temporal_types
  pub prior : IsOneOf item.recall.prior recall_priors
  pub decision_impact : IsOneOf item.recall.decision_impact decision_impacts
  pub exposure : IsOneOf item.recall.exposure exposures
  pub freshness_policy : IsOneOf item.recall.freshness_policy freshness_policies
  pub sensitivity : IsOneOf item.sensitivity ("normal" ∷ "personal" ∷ [])

pub record FitsBudgets (item : MemoryItem) : Type 0 where
  pub memory_card : count item.memory_card ≤ 60
  pub full_meaning : count item.full_meaning ≤ 300
  pub application_boundary : count item.application_boundary ≤ 150
  pub rationale : count item.rationale ≤ 100

require_enum-IsOneOf :
    (value : String) (allowed : List String) (name : String) (u : Unit {0})
    → require_enum value allowed name ≡ ok u
    → IsOneOf value allowed
unfolding require_enum
require_enum-IsOneOf value allowed name u h = elem→IsOneOf value allowed (ground arith)

require_budget-le :
    (text name : String) (n : ℕ) (u : Unit {0}) → require_budget text name n ≡ ok u → count text ≤ n
unfolding require_budget
require_budget-le text name n u h = ground arith

pub validate_budgets-Ensures :
    (item : MemoryItem) → Ensures (λ _. FitsBudgets item) (validate_budgets item)
unfolding validate_budgets
validate_budgets-Ensures item = Ensures-bind _ _ λ _ a. Ensures-bind _ _ λ _ b.
    Ensures-bind _ _ λ _ c. record {
      at = λ u d. record {
        memory_card = require_budget-le _ _ _ _ a;
        full_meaning = require_budget-le _ _ _ _ b;
        application_boundary = require_budget-le _ _ _ _ c;
        rationale = require_budget-le _ _ _ _ d;
      };
    }

not_sensitive :
    (s : String)
    → IsOneOf s sensitivities
    → elem s ("sensitive" ∷ "secret" ∷ []) ≡ false
    → IsOneOf s ("normal" ∷ "personal" ∷ [])
not_sensitive s known h = ground (arith, eq_iff s "secret", eq_iff s "sensitive")

pub validate_enums-Ensures :
    (item : MemoryItem) → Ensures (λ _. HasEnums item) (validate_enums item)
unfolding validate_enums
validate_enums-Ensures item = Ensures-bind _ _ λ _ kind. Ensures-bind _ _ λ _ status.
    Ensures-bind _ _ λ _ level. Ensures-bind _ _ λ _ temporal. Ensures-bind _ _ λ _ prior.
      Ensures-bind _ _ λ _ impact. Ensures-bind _ _ λ _ exposure. Ensures-bind _ _ λ _ freshness.
        Ensures-bind _ _ λ _ sensitivity. record {
          at = λ u normal. record {
            kind = require_enum-IsOneOf _ _ _ _ kind;
            status = require_enum-IsOneOf _ _ _ _ status;
            level = require_enum-IsOneOf _ _ _ _ level;
            temporal_type = require_enum-IsOneOf _ _ _ _ temporal;
            prior = require_enum-IsOneOf _ _ _ _ prior;
            decision_impact = require_enum-IsOneOf _ _ _ _ impact;
            exposure = require_enum-IsOneOf _ _ _ _ exposure;
            freshness_policy = require_enum-IsOneOf _ _ _ _ freshness;
            sensitivity =
                not_sensitive item.sensitivity (require_enum-IsOneOf _ _ _ _ sensitivity)
                  (raise_if-false _ _ _ normal);
          };
        }

require_present-ne :
    (o : Option String) (kind name : String) (u : Unit {0})
    → require_present o kind name ≡ ok u
    → o ≢ none
unfolding require_present
require_present-ne o kind name u h = ground arith

present_enum :
    (o : Option String) (kind name name' : String) (allowed : List String) (u v : Unit {0})
    → require_present o kind name ≡ ok u
    → require_enum (or_empty o) allowed name' ≡ ok v
    → (s : String) × (o ≡ some s) × IsOneOf s allowed
unfolding require_present
present_enum none kind name name' allowed u v h k =
    absurd (require_present-ne none kind name u h refl)
present_enum (some s) kind name name' allowed u v h k =
    (s, refl, require_enum-IsOneOf s allowed name' v k)

pub validate_interest-Ensures :
    (item : MemoryItem) → Ensures (λ _. IsInterest item) (validate_interest item)
unfolding validate_interest
validate_interest-Ensures item = Ensures-bind _ _ λ _ topic. Ensures-bind _ _ λ _ intensity.
    Ensures-bind _ _ λ _ trend. Ensures-bind _ _ λ _ motivation. Ensures-bind _ _ λ _ intensities.
      record {
        at = λ u trends. record {
          topic = require_present-ne _ _ _ _ topic;
          motivation = require_present-ne _ _ _ _ motivation;
          intensity = present_enum _ _ _ _ _ _ _ intensity intensities;
          trend = present_enum _ _ _ _ _ _ _ trend trends;
        };
      }

-- A memory of the kind `capability`: a growth area is shown unasked only for the sake of a goal.
pub record IsCapability (item : MemoryItem) : Type 0 where
  pub domain : item.domain ≢ none
  pub current_level : item.current_level ≢ none
  pub polarity : (s : String) × (item.polarity ≡ some s) × IsOneOf s capability_polarities
  pub growth :
      or_empty item.polarity ≡ "growth_area"
      → is_proactive item.recall.exposure ≡ true
      → item.goal_refs ≢ []

growth_lem :
    (p e : String) (goals : List String)
    → (p == "growth_area" && is_proactive e && is_nil goals) ≡ false
    → p ≡ "growth_area"
    → is_proactive e ≡ true
    → goals ≢ []
growth_lem p e goals h g k = ground (arith, eq_iff p "growth_area")

pub validate_capability-Ensures :
    (item : MemoryItem) → Ensures (λ _. IsCapability item) (validate_capability item)
unfolding validate_capability
validate_capability-Ensures item = Ensures-bind _ _ λ _ domain. Ensures-bind _ _ λ _ polarity.
    Ensures-bind _ _ λ _ level. Ensures-bind _ _ λ _ polarities. record {
      at = λ u growth. record {
        domain = require_present-ne _ _ _ _ domain;
        current_level = require_present-ne _ _ _ _ level;
        polarity = present_enum _ _ _ _ _ _ _ polarity polarities;
        growth = growth_lem _ item.recall.exposure _ (raise_if-false _ _ _ growth);
      };
    }

pub when-Ensures :
    (c : Bool) (check : Result (Unit {0})) (P : Type 0)
    → Ensures (λ _. P) check
    → Ensures (λ _. c ≡ true → P) (when c check)
unfolding when
when-Ensures true check P h = record { at = λ u e _. h.at u e }
when-Ensures false check P h = record { at = λ u e f. absurd (false≢true f) }
