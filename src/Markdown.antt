-- ===== src/Markdown.antt =====
-- MemoryItem.from_markdown and MemoryItem.to_markdown of agc_runtime/models.py.
pub mod Entries
pub mod RoundTrip
use agent_global_context.Prelude.{ℕ, String, Option, none, some, List, [], ◌∷◌, ◌++◌}
use agent_global_context.Result.{Result, ok, err, value_error, ◌>>=◌, ◌>>◌}
use agent_global_context.Models.{Lifecycle, Confidence, Temporal, Recall, Provenance, MemoryItem}
use agent_global_context.Value.{
  ℤ, Value, null, bool, int, str, list, dict, other, Fields, get, keys, values_of, fields_of,
  optional,
}
use agent_global_context.Value.Strict.{
  raise_least, difference, strict_mapping, string, optional_string, string_list, index,
}
use agent_global_context.Frontmatter.{
  Sections, Yaml, parse_frontmatter, parse_body_sections, render_markdown,
}

abbrev pub required_fields : List String
required_fields =
    "schema_version" ∷ "id" ∷ "kind" ∷ "subkind" ∷ "lifecycle" ∷ "confidence" ∷ "temporal"
    ∷ "recall" ∷ "sensitivity" ∷ "provenance" ∷ []

abbrev pub optional_names : List String
optional_names =
    "policy_reason" ∷ "topic" ∷ "intensity" ∷ "trend" ∷ "motivation" ∷ "domain" ∷ "polarity"
    ∷ "current_level" ∷ []

abbrev pub top_level_fields : List String
top_level_fields = required_fields ++ (optional_names ++ "goal_refs" ∷ [])

abbrev pub temporal_fields : List String
temporal_fields = "type" ∷ "valid_from" ∷ "last_observed" ∷ "review_after" ∷ []

abbrev pub recall_fields : List String
recall_fields =
    "prior" ∷ "decision_impact" ∷ "exposure" ∷ "scopes" ∷ "applies_when" ∷ "not_when"
    ∷ "freshness_policy" ∷ []

abbrev pub provenance_fields : List String
provenance_fields = "created_at" ∷ "updated_at" ∷ "confirmed_at" ∷ "evidence_refs" ∷ []

unfoldable pub temporal_from : Fields → Result Temporal
unfolding index string optional_string ◌>>=◌
temporal_from temporal = do
  kind ← string (← index temporal "type") "temporal.type"
  valid_from ← string (← index temporal "valid_from") "temporal.valid_from"
  last_observed ← string (← index temporal "last_observed") "temporal.last_observed"
  review_after ← optional_string (← index temporal "review_after") "temporal.review_after"
  ok (record {
    kind = kind;
    valid_from = valid_from;
    last_observed = last_observed;
    review_after = review_after;
  })

unfoldable pub recall_from : Fields → Result Recall
unfolding index string string_list ◌>>=◌
recall_from recall = do
  prior ← string (← index recall "prior") "recall.prior"
  decision_impact ← string (← index recall "decision_impact") "recall.decision_impact"
  exposure ← string (← index recall "exposure") "recall.exposure"
  scopes ← string_list (← index recall "scopes") "recall.scopes"
  applies_when ← string_list (← index recall "applies_when") "recall.applies_when"
  not_when ← string_list (← index recall "not_when") "recall.not_when"
  freshness_policy ← string (← index recall "freshness_policy") "recall.freshness_policy"
  ok (record {
    prior = prior;
    decision_impact = decision_impact;
    exposure = exposure;
    scopes = scopes;
    applies_when = applies_when;
    not_when = not_when;
    freshness_policy = freshness_policy;
  })

unfoldable pub provenance_from : Fields → Result Provenance
unfolding index string optional_string string_list ◌>>=◌
provenance_from provenance = do
  created_at ← string (← index provenance "created_at") "provenance.created_at"
  updated_at ← string (← index provenance "updated_at") "provenance.updated_at"
  confirmed_at ← optional_string (← index provenance "confirmed_at") "provenance.confirmed_at"
  evidence_refs ← string_list (← index provenance "evidence_refs") "provenance.evidence_refs"
  ok (record {
    created_at = created_at;
    updated_at = updated_at;
    confirmed_at = confirmed_at;
    evidence_refs = evidence_refs;
  })

unfoldable pub schema_version_from : Value → Result ℤ
schema_version_from (int i) = ok i
schema_version_from _ = err (value_error "schema_version must be an integer" [])

-- `values.get(name)`
abbrev pub or_none : Option Value → Value
or_none none = null
or_none (some v) = v

-- `values.get("goal_refs", [])`
abbrev pub or_no_refs : Option Value → Value
or_no_refs none = list (values_of [])
or_no_refs (some v) = v

unfoldable pub optional_from : Fields → String → Result (Option String)
optional_from values name = optional_string (or_none (get name values)) name

-- The part of `from_markdown` that makes the item, from the mappings that it has checked.
unfoldable pub item_from :
    Fields → Fields → Fields → Fields → Fields → Fields → Result Sections → Result MemoryItem
item_from values lifecycle confidence temporal recall provenance parsed = do
  sections ← parsed
  schema_version ← schema_version_from (← index values "schema_version")
  id ← string (← index values "id") "id"
  kind ← string (← index values "kind") "kind"
  subkind ← string (← index values "subkind") "subkind"
  status ← string (← index lifecycle "status") "lifecycle.status"
  level ← string (← index confidence "level") "confidence.level"
  temporal' ← temporal_from temporal
  recall' ← recall_from recall
  sensitivity ← string (← index values "sensitivity") "sensitivity"
  provenance' ← provenance_from provenance
  policy_reason ← optional_from values "policy_reason"
  topic ← optional_from values "topic"
  intensity ← optional_from values "intensity"
  trend ← optional_from values "trend"
  motivation ← optional_from values "motivation"
  domain ← optional_from values "domain"
  polarity ← optional_from values "polarity"
  current_level ← optional_from values "current_level"
  goal_refs ← string_list (or_no_refs (get "goal_refs" values)) "goal_refs"
  ok (record {
    schema_version = schema_version;
    id = id;
    kind = kind;
    subkind = subkind;
    lifecycle = record { status = status };
    confidence = record { level = level };
    temporal = temporal';
    recall = recall';
    sensitivity = sensitivity;
    provenance = provenance';
    memory_card = sections.memory_card;
    full_meaning = sections.full_meaning;
    application_boundary = sections.application_boundary;
    rationale = sections.rationale;
    policy_reason = policy_reason;
    topic = topic;
    intensity = intensity;
    trend = trend;
    motivation = motivation;
    domain = domain;
    polarity = polarity;
    current_level = current_level;
    goal_refs = goal_refs;
  })

-- `from_markdown` behind `parse_frontmatter`
unfoldable pub from_front_matter : Fields → Result Sections → Result MemoryItem
from_front_matter values parsed = do
  raise_least "unknown {} field: {}" "frontmatter" (difference (keys values) top_level_fields)
  raise_least "missing {} field: {}" "frontmatter" (difference required_fields (keys values))
  lifecycle ← strict_mapping (← index values "lifecycle") "lifecycle" ("status" ∷ [])
  confidence ← strict_mapping (← index values "confidence") "confidence" ("level" ∷ [])
  temporal ← strict_mapping (← index values "temporal") "temporal" temporal_fields
  recall ← strict_mapping (← index values "recall") "recall" recall_fields
  provenance ← strict_mapping (← index values "provenance") "provenance" provenance_fields
  item_from values lifecycle confidence temporal recall provenance parsed

abbrev pub temporal_mapping : Temporal → Fields
temporal_mapping t = fields_of (
    ("type", str t.kind)
    ∷ ("valid_from", str t.valid_from)
    ∷ ("last_observed", str t.last_observed)
    ∷ ("review_after", optional t.review_after)
    ∷ [])

abbrev pub recall_mapping : Recall → Fields
recall_mapping r = fields_of (
    ("prior", str r.prior)
    ∷ ("decision_impact", str r.decision_impact)
    ∷ ("exposure", str r.exposure)
    ∷ ("scopes", list (values_of r.scopes))
    ∷ ("applies_when", list (values_of r.applies_when))
    ∷ ("not_when", list (values_of r.not_when))
    ∷ ("freshness_policy", str r.freshness_policy)
    ∷ [])

abbrev pub provenance_mapping : Provenance → Fields
provenance_mapping p = fields_of (
    ("created_at", str p.created_at)
    ∷ ("updated_at", str p.updated_at)
    ∷ ("confirmed_at", optional p.confirmed_at)
    ∷ ("evidence_refs", list (values_of p.evidence_refs))
    ∷ [])

-- The optional fields that have a value.
unfoldable pub optional_entries : List (String × Option String) → List (String × Value)
optional_entries [] = []
optional_entries ((name, none) ∷ rest) = optional_entries rest
optional_entries ((name, some s) ∷ rest) = (name, str s) ∷ optional_entries rest

unfoldable pub refs_entry : List String → List (String × Value)
refs_entry [] = []
refs_entry (ref ∷ rest) = ("goal_refs", list (values_of (ref ∷ rest))) ∷ []

abbrev pub optional_fields : MemoryItem → List (String × Option String)
optional_fields item =
    ("policy_reason", item.policy_reason)
    ∷ ("topic", item.topic)
    ∷ ("intensity", item.intensity)
    ∷ ("trend", item.trend)
    ∷ ("motivation", item.motivation)
    ∷ ("domain", item.domain)
    ∷ ("polarity", item.polarity)
    ∷ ("current_level", item.current_level)
    ∷ []

-- The front matter that `to_markdown` writes.
unfoldable pub front_matter : MemoryItem → Fields
front_matter item = fields_of (
    ("schema_version", int item.schema_version)
    ∷ ("id", str item.id)
    ∷ ("kind", str item.kind)
    ∷ ("subkind", str item.subkind)
    ∷ ("lifecycle", dict (fields_of (("status", str item.lifecycle.status) ∷ [])))
    ∷ ("confidence", dict (fields_of (("level", str item.confidence.level) ∷ [])))
    ∷ ("temporal", dict (temporal_mapping item.temporal))
    ∷ ("recall", dict (recall_mapping item.recall))
    ∷ ("sensitivity", str item.sensitivity)
    ∷ ("provenance", dict (provenance_mapping item.provenance))
    ∷ (optional_entries (optional_fields item) ++ refs_entry item.goal_refs))

abbrev pub sections_of : MemoryItem → Sections
sections_of item = record {
  memory_card = item.memory_card;
  full_meaning = item.full_meaning;
  application_boundary = item.application_boundary;
  rationale = item.rationale;
}

module _ (yaml : Yaml) where
  unfoldable pub from_markdown : String → Result MemoryItem
  from_markdown text = do
    (values, body) ← parse_frontmatter yaml text
    from_front_matter values (parse_body_sections yaml body)

  unfoldable pub to_markdown : MemoryItem → String
  to_markdown item = render_markdown yaml (front_matter item) (sections_of item)
