-- ===== src/Models.antt =====
-- agc_runtime/models.py and the parts of agc_runtime/contracts.py that other components share.
use agent_global_context.Value.{ℤ}
use agent_global_context.Prelude.{String, Option, List}

-- contracts.Status
pub data Status : Type 0 where
  accepted deferred rejected_policy needs_adjudication failed : Status

pub record SourceKey : Type 0 where
  pub ref : String
  pub revision : String
  pub content_hash : String

pub record Lifecycle : Type 0 where
  pub status : String

pub record Confidence : Type 0 where
  pub level : String

pub record Temporal : Type 0 where
  pub kind : String
  pub valid_from : String
  pub last_observed : String
  pub review_after : Option String

pub record Recall : Type 0 where
  pub prior : String
  pub decision_impact : String
  pub exposure : String
  pub scopes : List String
  pub applies_when : List String
  pub not_when : List String
  pub freshness_policy : String

pub record Provenance : Type 0 where
  pub created_at : String
  pub updated_at : String
  pub confirmed_at : Option String
  pub evidence_refs : List String

-- `temporal.type` is the field `kind` of `Temporal`.
pub record MemoryItem : Type 0 where
  pub schema_version : ℤ
  pub id : String
  pub kind : String
  pub subkind : String
  pub lifecycle : Lifecycle
  pub confidence : Confidence
  pub temporal : Temporal
  pub recall : Recall
  pub sensitivity : String
  pub provenance : Provenance
  pub memory_card : String
  pub full_meaning : String
  pub application_boundary : String
  pub rationale : String
  pub policy_reason : Option String
  pub topic : Option String
  pub intensity : Option String
  pub trend : Option String
  pub motivation : Option String
  pub domain : Option String
  pub polarity : Option String
  pub current_level : Option String
  pub goal_refs : List String
