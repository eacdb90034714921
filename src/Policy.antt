-- ===== src/Policy.antt =====
-- The gates of formal memory: agc_runtime/policy.py.
pub mod Gates
pub mod Lifecycle
use agent_global_context.Prelude.{
  String, Bool, true, false, not, ◌&&◌, Option, none, some, List, [], ◌∷◌, ◌==◌, elem, leb, ◌++◌,
  if◌then◌else◌,
}
use agent_global_context.Result.{Result, ok, err, value_error, ◌>>=◌, ◌>>◌}
use agent_global_context.Models.{Status, accepted, deferred, rejected_policy, needs_adjudication}
use agent_global_context.Value.{Value, str, list, dict, values_of, fields_of, Fields, optional}
use agent_global_context.Contracts.{EvidenceSummary, ObservationEnvelope, source_mapping}

abbrev pub persistable_sensitivity : List String
persistable_sensitivity = "normal" ∷ "personal" ∷ []

abbrev pub non_persistable_sensitivity : List String
non_persistable_sensitivity = "sensitive" ∷ "secret" ∷ []

abbrev pub assertion_modes : List String
assertion_modes = "direct" ∷ "behavior_observed" ∷ "agent_inferred" ∷ "quoted" ∷ []

abbrev pub assertion_modalities : List String
assertion_modalities = "asserted" ∷ "hypothetical" ∷ "question" ∷ "example" ∷ []

abbrev pub dispositions : List String
dispositions = "ignore" ∷ "new" ∷ "reinforce" ∷ "update" ∷ "conflict" ∷ "need_more_evidence" ∷ []

abbrev pub requested_confidences : List String
requested_confidences = "tentative" ∷ "observed" ∷ "confirmed" ∷ "disputed" ∷ []

abbrev pub match_required : List String
match_required = "reinforce" ∷ "update" ∷ "conflict" ∷ []

pub record PolicyDecision : Type 0 where
  pub status : Status
  pub code : String
  pub persistable_metadata : List (String × Value)

unfoldable pub candidate_metadata : ObservationEnvelope → String → List (String × Value)
candidate_metadata e candidate_status =
    ("observation_id", str e.observation_id)
    ∷ ("source", dict (source_mapping e.source))
    ∷ ("kind", str e.proposal.kind)
    ∷ ("scopes", list (values_of e.proposal.scopes))
    ∷ ("temporal_type", str e.proposal.temporal_type)
    ∷ ("sensitivity", str e.proposal.sensitivity)
    ∷ ("rationale", str e.proposal.rationale)
    ∷ ("candidate_status", str candidate_status)
    ∷ []

unfoldable pub require_member : String → List String → String → Result (Unit {0})
require_member value allowed message =
    if elem value allowed then ok tt else err (value_error message (value ∷ []))

unfoldable pub validate_policy_enums : ObservationEnvelope → Result (Unit {0})
validate_policy_enums e = do
  require_member e.assertion.mode assertion_modes "invalid assertion mode: {}"
  require_member e.assertion.modality assertion_modalities "invalid assertion modality: {}"
  require_member e.proposal.disposition dispositions "invalid proposal disposition: {}"
  require_member e.proposal.requested_confidence requested_confidences
      "invalid proposal requested_confidence: {}"
  require_member e.proposal.sensitivity (persistable_sensitivity ++ non_persistable_sensitivity)
      "invalid proposal sensitivity: {}"

-- EVIDENCE_THRESHOLD
unfoldable pub threshold_satisfied : EvidenceSummary → Bool
threshold_satisfied evidence =
    leb 3 evidence.count && leb 2 evidence.distinct_sessions && leb 7 evidence.time_span_days

-- `not value`, for a text that may be missing
abbrev pub is_empty : Option String → Bool
is_empty none = true
is_empty (some s) = s == ""

unfoldable pub confirmable : ObservationEnvelope → Bool
confirmable e =
    e.assertion.subject == "user"
    && e.assertion.mode == "direct"
    && e.assertion.modality == "asserted"

abbrev pub decide_as : Status → String → List (String × Value) → PolicyDecision
decide_as status code metadata = record {
  status = status;
  code = code;
  persistable_metadata = metadata;
}

-- The part of `evaluate_observation` behind the check of the enumerations.
unfoldable pub decision_of : ObservationEnvelope → PolicyDecision
decision_of e =
    let p = e.proposal in
    if p.sensitivity == "secret"
    then decide_as rejected_policy "secret_persistence_forbidden" []
    else if p.sensitivity == "sensitive"
    then decide_as rejected_policy "sensitive_persistence_disabled" []
    else if elem p.disposition match_required && is_empty p.match_memory_id
    then decide_as needs_adjudication "match_memory_id_required" []
    else if p.requested_confidence == "confirmed" && not (confirmable e)
    then decide_as deferred "assertion_not_confirmable" (candidate_metadata e "candidate")
    else if e.assertion.mode == "behavior_observed"
    then (if threshold_satisfied e.evidence
        then decide_as needs_adjudication "eligible_for_adjudication"
            (candidate_metadata e "eligible_for_adjudication")
        else decide_as deferred "more_evidence_required" (candidate_metadata e "candidate"))
    else if p.disposition == "need_more_evidence"
    then decide_as deferred "more_evidence_required" (candidate_metadata e "candidate")
    else if p.disposition == "ignore"
    then decide_as accepted "ignored" []
    else decide_as accepted "direct_assertion_accepted" (
        candidate_metadata e "accepted"
        ++ ("requested_confidence", str p.requested_confidence)
          ∷ ("match_memory_id", optional p.match_memory_id)
          ∷ ("disposition", str p.disposition)
          ∷ [])

unfoldable pub evaluate_observation : ObservationEnvelope → Result PolicyDecision
evaluate_observation e = do validate_policy_enums e; ok (decision_of e)

-- LIFECYCLE_TRANSITIONS
abbrev pub lifecycle_transitions : List (String × List String)
lifecycle_transitions =
    ("candidate", "active" ∷ "challenged" ∷ "dormant" ∷ "rejected" ∷ [])
    ∷ ("active", "challenged" ∷ "dormant" ∷ "superseded" ∷ "historical" ∷ [])
    ∷ ("challenged", "active" ∷ "dormant" ∷ "superseded" ∷ "historical" ∷ "rejected" ∷ [])
    ∷ ("dormant", "active" ∷ "historical" ∷ "superseded" ∷ [])
    ∷ ("superseded", "historical" ∷ [])
    ∷ ("historical", [])
    ∷ ("rejected", [])
    ∷ []

allowed_from : String → List (String × List String) → Option (List String)
allowed_from old [] = none
allowed_from old ((status, allowed) ∷ rest) =
    if status == old then some allowed else allowed_from old rest

check_transition : String → String → Option (List String) → Option (List String) → Result (Unit {0})
check_transition old new none _ = err (value_error "unknown lifecycle status: {}" (old ∷ []))
check_transition old new (some _) none = err (value_error "unknown lifecycle status: {}" (new ∷ []))
check_transition old new (some allowed) (some _) =
    if old == new
    then ok tt
    else if elem new allowed
    then ok tt
    else err (value_error "illegal lifecycle transition: {} -> {}" (old ∷ new ∷ []))

unfoldable pub validate_transition : String → String → Result (Unit {0})
unfolding allowed_from check_transition
validate_transition old new =
    check_transition old new (allowed_from old lifecycle_transitions)
      (allowed_from new lifecycle_transitions)
