-- ===== src/Write/Observe.antt =====
-- `_handle_observe`.
use agent_global_context.Prelude.{
  Bool, not, ◌||◌, String, Option, none, some, List, [], ◌∷◌, ◌++◌, ◌==◌, if◌then◌else◌,
}
use agent_global_context.Result.{Result, ok, err, value_error, raise_if}
use agent_global_context.Effects.{M, pure, raise, lift, ◌>>=◌, ◌>>◌}
use agent_global_context.Models.{needs_adjudication, MemoryItem}
use agent_global_context.Value.{pos, int, str, Fields, fields_of}
use agent_global_context.Contracts.{ObservationEnvelope}
use agent_global_context.Policy.{PolicyDecision, evaluate_observation}
use agent_global_context.Store.Methods.{
  Call, create_memory, add_evidence, replace_memory, transition_memory, get_memory,
}
use agent_global_context.Write.{World, on_store, ToolResponse, Surroundings, response}
use agent_global_context.Write.Candidates.{record_candidate}
use agent_global_context.Write.Handlers.{
  candidate_fields, source_key, validate_item_matches_observation, load_observation,
  capture_observation_ids, or_blank, decision_response, is_rejected, is_deferred, mutation_response,
  load_memory_markdown, prevalidate_draft_reviews, attach_draft_reviews,
}

-- The decisions that are answered at once.
abbrev pub is_answered : PolicyDecision → Bool
is_answered initial =
    is_rejected initial.status
    || initial.code == "match_memory_id_required"
    || initial.code == "ignored"

abbrev pub is_for_candidate : ObservationEnvelope → PolicyDecision → Bool
is_for_candidate e initial =
    e.assertion.mode == "behavior_observed"
    || is_deferred initial.status
    || e.proposal.disposition == "need_more_evidence"

module _ (env : Surroundings) (call : Call) where
  open env use {platform}

  unfoldable pub observe_candidate : ObservationEnvelope → M World ToolResponse
  observe_candidate e = do
    (decision, evidence) ← record_candidate env e
    pure (
        decision_response "observe" decision (
          fields_of (
            candidate_fields e.observation_id decision
            ++ ("evidence_count", int (pos evidence.count))
              ∷ ("distinct_sessions", int (pos evidence.distinct_sessions))
              ∷ ("time_span_days", int (pos evidence.time_span_days))
              ∷ [])))

  unfoldable pub observe_new : Fields → ObservationEnvelope → M World ToolResponse
  observe_new request e = do
    item ← lift (load_memory_markdown env request)
    lift (validate_item_matches_observation item e)
    result ← on_store (create_memory platform item (source_key e) call)
    pure (mutation_response env "observe" result (some item))

  unfoldable pub observe_reinforce : ObservationEnvelope → List String → M World ToolResponse
  observe_reinforce e ids = do
    let target = or_blank e.proposal.match_memory_id
    result ← on_store (add_evidence platform target (source_key e) e.source.observed_at call)
    item ← on_store (get_memory platform target)
    attach_draft_reviews env (mutation_response env "observe" result (some item)) ids

  unfoldable pub observe_update : Fields → ObservationEnvelope → M World ToolResponse
  observe_update request e = do
    item ← lift (load_memory_markdown env request)
    let target = or_blank e.proposal.match_memory_id
    lift (
        raise_if (not (item.id == target))
          (value_error "memory_markdown id must match match_memory_id" []))
    lift (validate_item_matches_observation item e)
    result ← on_store (
        replace_memory platform target item (source_key e) e.source.observed_at "memory_updated"
          call)
    pure (mutation_response env "observe" result (some item))

  unfoldable pub challenge : ObservationEnvelope → MemoryItem → M World ToolResponse
  challenge e current = do
    result ← on_store (
        transition_memory platform current.id "challenged" (source_key e) e.source.observed_at
          "memory_challenged" call)
    item ← on_store (get_memory platform current.id)
    pure (mutation_response env "observe" result (some item))

  unfoldable pub observe_conflict : ObservationEnvelope → M World ToolResponse
  observe_conflict e = do
    current ← on_store (get_memory platform (or_blank e.proposal.match_memory_id))
    if current.recall.decision_impact == "high"
        then pure (
            response "observe" needs_adjudication "high_impact_conflict" (
              fields_of
                (("memory_id", str current.id) ∷ ("lifecycle", str current.lifecycle.status) ∷ [])))
        else challenge e current

  -- An accepted observation, by its disposition.
  unfoldable pub observe_accepted :
      Fields → ObservationEnvelope → List String → M World ToolResponse
  observe_accepted request e ids =
      let d = e.proposal.disposition in
      if d == "new"
      then observe_new request e
      else if d == "reinforce"
      then observe_reinforce e ids
      else if d == "update"
      then observe_update request e
      else if d == "conflict"
      then observe_conflict e
      else raise (value_error "unsupported observation disposition: {}" (d ∷ []))

  -- The part of `_handle_observe` behind the policy.
  unfoldable pub observe_decided :
      Fields → ObservationEnvelope → List String → PolicyDecision → M World ToolResponse
  observe_decided request e ids initial =
      if is_answered initial
      then pure (decision_response "observe" initial Fields.end)
      else if is_for_candidate e initial
      then observe_candidate e
      else observe_accepted request e ids

  unfoldable pub required_target : Option String → Result String
  required_target none = err (value_error "observe reinforce requires match_memory_id" [])
  required_target (some target) =
      if target == ""
      then err (value_error "observe reinforce requires match_memory_id" [])
      else ok target

  unfoldable pub check_capture_ids : ObservationEnvelope → List String → M World Unit
  unfolding required_target
  check_capture_ids e [] = pure tt
  check_capture_ids e (id ∷ rest) = do
    lift (
        raise_if (not (e.proposal.disposition == "reinforce"))
          (value_error "capture_observation_ids are supported only for observe reinforce" []))
    target ← lift (required_target e.proposal.match_memory_id)
    prevalidate_draft_reviews env (id ∷ rest) target

  unfoldable pub handle_observe : Fields → M World ToolResponse
  handle_observe request = do
    e ← lift (load_observation request)
    ids ← lift (capture_observation_ids request)
    check_capture_ids e ids
    initial ← lift (evaluate_observation e)
    observe_decided request e ids initial
