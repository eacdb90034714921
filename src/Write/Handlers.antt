-- ===== src/Write/Handlers.antt =====
-- What the handlers share: `_validate_item_matches_observation` to `_decision_response`.
use agent_global_context.Prelude.{
  ℕ, Bool, true, false, ◌&&◌, String, Option, none, some, List, [], ◌∷◌, ◌++◌, ◌==◌, elem, all,
  if◌then◌else◌,
}
use agent_global_context.Result.{
  Error, os_class, runtime_class, value_class, catches, Result, ok, err, value_error, key_error,
  type_error, os_error, file_not_found, runtime_error, raise_if,
}
use agent_global_context.Result
use agent_global_context.Effects.{M, pure, raise, on_error, ◌>>=◌}
use agent_global_context.Models.{Status, accepted, deferred, rejected_policy, SourceKey, MemoryItem}
use agent_global_context.Schema.{validate_memory_item}
use agent_global_context.Value.{pos, Value, bool, int, str, Fields, field, fields_of, get}
use agent_global_context.Contracts.{ObservationEnvelope, from_mapping}
use agent_global_context.Policy.{PolicyDecision}
use agent_global_context.Store.Methods.{MutationResult}
use agent_global_context.Review.{parse_capture_observation_ids}
use agent_global_context.Write.{World, ToolResponse, Surroundings, response}
use agent_global_context.Write.Candidates.{candidate_status_of}

unfoldable pub source_key : ObservationEnvelope → SourceKey
source_key e = record {
  ref = e.source.ref;
  revision = e.source.revision;
  content_hash = e.source.content_hash;
}

abbrev pub note : Bool → String → List String
note same name = if same then [] else name ∷ []

unfoldable pub mismatches : MemoryItem → ObservationEnvelope → List String
mismatches item e =
    note (item.kind == e.proposal.kind) "kind"
    ++ (note (item.temporal.kind == e.proposal.temporal_type) "temporal_type"
        ++ (note (item.sensitivity == e.proposal.sensitivity) "sensitivity"
            ++ (note (item.confidence.level == e.proposal.requested_confidence)
                  "requested_confidence"
                ++ note
                    (all (λ s. elem s e.proposal.scopes) item.recall.scopes
                      && all (λ s. elem s item.recall.scopes) e.proposal.scopes)
                    "scopes")))

refuse : List String → Result (Unit {0})
refuse [] = ok tt
refuse (name ∷ rest) =
    err (value_error "memory_markdown conflicts with observation: {}" (name ∷ rest))

unfoldable pub validate_item_matches_observation :
    MemoryItem → ObservationEnvelope → Result (Unit {0})
unfolding refuse
validate_item_matches_observation item e = refuse (mismatches item e)

-- `data["memory_version"]`, only for the metrics
version_field : Bool → Option String → List (String × Value)
version_field false digest = []
version_field true none = []
version_field true (some digest) = ("memory_version", str digest) ∷ []

item_fields : Option MemoryItem → List (String × Value)
item_fields none = []
item_fields (some item) =
    ("lifecycle", str item.lifecycle.status) ∷ ("confidence", str item.confidence.level) ∷ []

or_missing : Option Value → Result Value
or_missing none = err (value_error "observation is required" [])
or_missing (some value) = ok value

unfoldable pub load_observation : Fields → Result ObservationEnvelope
unfolding or_missing
load_observation request = Result.◌>>=◌ (or_missing (get "observation" request)) from_mapping

ids_from : Option Value → Result (List String)
ids_from none = ok []
ids_from (some value) = parse_capture_observation_ids value

unfoldable pub capture_observation_ids : Fields → Result (List String)
unfolding ids_from
capture_observation_ids request = ids_from (get "capture_observation_ids" request)

-- `value or ""`
abbrev pub or_blank : Option String → String
or_blank none = ""
or_blank (some s) = s

unfoldable pub decision_response : String → PolicyDecision → Fields → ToolResponse
decision_response action decision extra = response action decision.status decision.code extra

unfoldable pub candidate_fields : String → PolicyDecision → List (String × Value)
candidate_fields candidate_id decision =
    ("candidate_id", str candidate_id)
    ∷ ("candidate_status", candidate_status_of decision.persistable_metadata)
    ∷ []

abbrev pub is_rejected : Status → Bool
is_rejected rejected_policy = true
is_rejected _ = false

abbrev pub is_deferred : Status → Bool
is_deferred deferred = true
is_deferred _ = false

abbrev pub is_accepted : Status → Bool
is_accepted accepted = true
is_accepted _ = false

-- `except (OSError, RuntimeError, ValueError)`
abbrev pub is_review_error : Error → Bool
is_review_error = catches (os_class ∷ runtime_class ∷ value_class ∷ [])

-- A response that names a memory, with the id.
abbrev pub text_in : Option Value → Option String
text_in (some (str s)) = some s
text_in _ = none

abbrev pub memory_id_in : Fields → Option String
memory_id_in payload = text_in (get "memory_id" payload)

module _ (env : Surroundings) where
  open env use {platform, reviews, metrics}

  unfoldable pub mutation_response : String → MutationResult → Option MemoryItem → ToolResponse
  unfolding version_field item_fields
  mutation_response action result item = response action result.status result.code (
      fields_of (
        (("memory_id", str result.object_id)
          ∷ ("created", bool result.created)
          ∷ ("independent_evidence_count", int (pos result.independent_evidence_count))
          ∷ [])
        ++ (version_field metrics result.written_content_digest ++ item_fields item)))

  text_of : Option Value → Result String
  text_of (some (str s)) =
      Result.◌>>◌ (raise_if (s == "") (value_error "memory_markdown is required" [])) (ok s)
  text_of _ = err (value_error "memory_markdown is required" [])

  unfoldable pub load_memory_markdown : Fields → Result MemoryItem
  unfolding text_of
  load_memory_markdown request = Result.◌>>=◌ (text_of (get "memory_markdown" request)) (λ markdown.
      Result.◌>>=◌ (platform.from_markdown markdown)
        (λ item. Result.◌>>◌ (validate_memory_item platform.is_iso_date item) (ok item)))

  unfoldable pub prevalidate_draft_reviews : List String → String → M World Unit
  prevalidate_draft_reviews [] target = pure tt
  prevalidate_draft_reviews (id ∷ rest) target = reviews.validate_batch (id ∷ rest) "draft" target

  with_count : ToolResponse → ℕ → ToolResponse
  with_count r count = record r {
    payload = field "capture_reviewed_count" (int (pos count)) r.payload;
  }

  with_warning : ToolResponse → String → ToolResponse
  with_warning r warning = record r { warnings = r.warnings ++ warning ∷ [] }

  unfoldable pub attach_to : ToolResponse → List String → Option String → M World ToolResponse
  unfolding with_count with_warning
  attach_to r [] target = pure r
  attach_to r (id ∷ rest) none = pure r
  attach_to r (id ∷ rest) (some target) =
      on_error
        (do
          count ← reviews.record_reviews (id ∷ rest) "draft" (some target)
          pure (with_count r count))
        (λ e.
          if is_review_error e
          then pure (with_warning r "capture_review_receipt_failed")
          else raise e)

  unfoldable pub attach_draft_reviews : ToolResponse → List String → M World ToolResponse
  attach_draft_reviews r ids =
      if is_accepted r.status then attach_to r ids (memory_id_in r.payload) else pure r
