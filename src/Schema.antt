-- ===== src/Schema.antt =====
-- The rules of a stored memory: agc_runtime/schema.py. `is_iso_date` is `date.fromisoformat` of the
-- Python library, as a test.
pub mod Rules
pub mod Valid
use Prim.Native.String.{count}
use Prim.Native.Char.{code}
use agent_global_context.Prelude.{
  ℕ, zero, suc, ◌≤◌, Bool, true, false, not, ◌&&◌, ◌||◌, ◌≡◌, Option, none, some, String, List, [],
  ◌∷◌, ◌==◌, leb, ltb, eqb, elem, if◌then◌else◌,
}
use agent_global_context.Result.{Result, ok, err, value_error, Error, raise_if, ◌>>=◌, ◌>>◌}
use agent_global_context.Value.{ℤ, pos, negsuc}
use agent_global_context.Models.{MemoryItem}

-- Is the number `n`?
unfoldable pub is_version : ℕ → ℤ → Bool
is_version n (pos m) = eqb m n
is_version n (negsuc m) = false

abbrev pub kinds : List String
kinds =
    "identity" ∷ "principle" ∷ "preference" ∷ "interest" ∷ "capability" ∷ "goal" ∷ "pattern"
    ∷ "context" ∷ []

abbrev pub lifecycles : List String
lifecycles =
    "candidate" ∷ "active" ∷ "challenged" ∷ "dormant" ∷ "superseded" ∷ "historical" ∷ "rejected"
    ∷ []

abbrev pub confidence_levels : List String
confidence_levels = "tentative" ∷ "observed" ∷ "confirmed" ∷ "disputed" ∷ []

abbrev pub temporal_types : List String
temporal_types = "durable" ∷ "evolving" ∷ "goal_bound" ∷ "contextual" ∷ "derived" ∷ "episodic" ∷ []

abbrev pub recall_priors : List String
recall_priors = "low" ∷ "medium" ∷ "high" ∷ []

abbrev pub decision_impacts : List String
decision_impacts = "low" ∷ "medium" ∷ "high" ∷ []

abbrev pub exposures : List String
exposures = "core_card" ∷ "scoped_card" ∷ "discoverable_only" ∷ "history_only" ∷ []

abbrev pub freshness_policies : List String
freshness_policies = "event_driven" ∷ "periodic" ∷ "goal_bound" ∷ "contextual" ∷ []

abbrev pub sensitivities : List String
sensitivities = "normal" ∷ "personal" ∷ "sensitive" ∷ "secret" ∷ []

abbrev pub interest_intensities : List String
interest_intensities = "emerging" ∷ "low" ∷ "medium" ∷ "high" ∷ []

abbrev pub interest_trends : List String
interest_trends = "rising" ∷ "stable" ∷ "declining" ∷ "dormant" ∷ []

abbrev pub capability_polarities : List String
capability_polarities = "strength" ∷ "growth_area" ∷ []

unfoldable pub require_enum : String → List String → String → Result (Unit {0})
unfolding raise_if
require_enum value allowed name =
    raise_if (not (elem value allowed)) (value_error "invalid {}: {}" (name ∷ value ∷ []))

-- `[a-z0-9]`
is_id_start : ℕ → Bool
is_id_start c = leb b'a' c && leb c b'z' || leb b'0' c && leb c b'9'

-- `[a-z0-9-]{0,n}`, to the end of the text
id_rest : ℕ → String → Bool
unfolding is_id_start
id_rest n String.[] = true
id_rest zero (String.◌∷◌ c s) = false
id_rest (suc n) (String.◌∷◌ c s) = (is_id_start (code c) || eqb (code c) b'-') && id_rest n s

-- `_ID_PATTERN.fullmatch`
unfoldable pub is_memory_id : String → Bool
unfolding is_id_start id_rest
is_memory_id String.[] = false
is_memory_id (String.◌∷◌ c s) = is_id_start (code c) && id_rest 79 s

-- `value or ""`
abbrev pub or_empty : Option String → String
or_empty none = ""
or_empty (some s) = s

abbrev pub is_missing : Option String → Bool
is_missing none = true
is_missing (some _) = false

unfoldable pub require_present : Option String → String → String → Result (Unit {0})
unfolding raise_if
require_present value kind name =
    raise_if (is_missing value) (value_error "{} requires {}" (kind ∷ name ∷ []))

unfoldable pub require_budget : String → String → ℕ → Result (Unit {0})
unfolding raise_if
require_budget text name maximum =
    raise_if (ltb maximum (count text))
      (value_error "{} exceeds its maximum of Unicode code points" (name ∷ []))

unfoldable pub validate_budgets : MemoryItem → Result (Unit {0})
validate_budgets item = do
  require_budget item.memory_card "Memory Card" 60
  require_budget item.full_meaning "Full Meaning" 300
  require_budget item.application_boundary "Application Boundary" 150
  require_budget item.rationale "Rationale" 100

unfoldable pub validate_interest : MemoryItem → Result (Unit {0})
validate_interest item = do
  require_present item.topic "interest" "topic"
  require_present item.intensity "interest" "intensity"
  require_present item.trend "interest" "trend"
  require_present item.motivation "interest" "motivation"
  require_enum (or_empty item.intensity) interest_intensities "interest intensity"
  require_enum (or_empty item.trend) interest_trends "interest trend"

abbrev pub is_proactive : String → Bool
is_proactive exposure = elem exposure ("core_card" ∷ "scoped_card" ∷ [])

abbrev pub is_nil : List String → Bool
is_nil [] = true
is_nil (_ ∷ _) = false

unfoldable pub validate_capability : MemoryItem → Result (Unit {0})
validate_capability item = do
  require_present item.domain "capability" "domain"
  require_present item.polarity "capability" "polarity"
  require_present item.current_level "capability" "current_level"
  require_enum (or_empty item.polarity) capability_polarities "capability polarity"
  raise_if
      (or_empty item.polarity == "growth_area"
        && is_proactive item.recall.exposure
        && is_nil item.goal_refs)
      (value_error "growth_area requires active goal_refs for proactive exposure" [])

unfoldable pub when : Bool → Result (Unit {0}) → Result (Unit {0})
when c check = if c then check else ok tt

unfoldable pub validate_kind_metadata : MemoryItem → Result (Unit {0})
validate_kind_metadata item = do
  when (item.kind == "interest") (validate_interest item)
  when (item.kind == "capability") (validate_capability item)

-- `not value`, for a text that may be missing
abbrev pub is_blank : Option String → Bool
is_blank none = true
is_blank (some s) = s == ""

unfoldable pub validate_enums : MemoryItem → Result (Unit {0})
validate_enums item = do
  require_enum item.kind kinds "kind"
  require_enum item.lifecycle.status lifecycles "lifecycle status"
  require_enum item.confidence.level confidence_levels "confidence level"
  require_enum item.temporal.kind temporal_types "temporal type"
  require_enum item.recall.prior recall_priors "recall prior"
  require_enum item.recall.decision_impact decision_impacts "decision impact"
  require_enum item.recall.exposure exposures "recall exposure"
  require_enum item.recall.freshness_policy freshness_policies "freshness policy"
  require_enum item.sensitivity sensitivities "sensitivity"
  raise_if (elem item.sensitivity ("sensitive" ∷ "secret" ∷ []))
      (value_error "{} content cannot be a persistent MemoryItem" (item.sensitivity ∷ []))

module _ (is_iso_date : String → Bool) where
  unfoldable pub require_iso_date : Option String → String → Result (Unit {0})
  require_iso_date none name = ok tt
  require_iso_date (some value) name =
      raise_if (not (is_iso_date value)) (value_error "invalid {}: expected ISO date" (name ∷ []))

  unfoldable pub validate_dates : MemoryItem → Result (Unit {0})
  validate_dates item = do
    require_iso_date (some item.temporal.valid_from) "temporal.valid_from"
    require_iso_date (some item.temporal.last_observed) "temporal.last_observed"
    require_iso_date item.temporal.review_after "temporal.review_after"
    require_iso_date (some item.provenance.created_at) "provenance.created_at"
    require_iso_date (some item.provenance.updated_at) "provenance.updated_at"
    require_iso_date item.provenance.confirmed_at "provenance.confirmed_at"

  unfoldable pub validate_memory_item : MemoryItem → Result (Unit {0})
  validate_memory_item item = do
    raise_if (not (is_version 2 item.schema_version)) (value_error "schema_version must be 2" [])
    raise_if (not (is_memory_id item.id)) (value_error "invalid memory id: {}" (item.id ∷ []))
    validate_enums item
    validate_dates item
    raise_if
        (item.kind == "identity"
          && item.sensitivity == "personal"
          && item.recall.exposure == "core_card"
          && is_blank item.policy_reason)
        (value_error "personal identity core_card requires an explicit policy_reason" [])
    validate_budgets item
    validate_kind_metadata item
