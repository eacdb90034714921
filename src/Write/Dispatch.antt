-- ===== src/Write/Dispatch.antt =====
-- The other handlers and `dispatch_write`.
use agent_global_context.Prelude.{
  zero, suc, Bool, true, false, not, ◌||◌, String, Option, none, some, List, [], ◌∷◌, ◌++◌, ◌==◌,
  elem, all, if◌then◌else◌,
}
use agent_global_context.Result.{
  Error, value_class, key_class, type_class, os_class, catches, Result, ok, err, value_error,
  key_error, type_error, os_error, file_not_found, runtime_error, raise_if,
}
use agent_global_context.Result
use agent_global_context.Effects.{M, pure, raise, gets, lift, modify, ◌>>=◌, ◌>>◌}
use agent_global_context.Files.{exists, unlink, string_eq}
use agent_global_context.Models.{Status, accepted, deferred, rejected_policy, needs_adjudication}
use agent_global_context.Value.{
  pos, negsuc, Value, null, bool, int, str, list, dict, other, nil, cons, Fields, field, end,
  fields_of, get, keys,
}
use Prim.Native.String.{◌++◌ as ◌⧺◌}
use agent_global_context.Value.Strict.{index}
use agent_global_context.Policy.{evaluate_observation}
use agent_global_context.Store.Methods.{Call, transition_memory, get_memory}
use agent_global_context.Review.{parse_capture_observation_ids, validate_formalization_item}
use agent_global_context.Write.{
  World, on_store, ToolResponse, message_of, Surroundings, response, failure,
}
use agent_global_context.Write.Candidates.{record_candidate}
use agent_global_context.Write.Handlers.{
  candidate_fields, source_key, load_observation, capture_observation_ids, decision_response,
  is_rejected, mutation_response, load_memory_markdown, prevalidate_draft_reviews,
  attach_draft_reviews,
}
use agent_global_context.Write.Observe.{handle_observe}

-- `{**fields, key: value}`
unfoldable pub put : String → Value → Fields → Fields
put key value end = field key value end
put key value (field k v rest) =
    let later = put key value rest in if k == key then field key value rest else field k v later

-- fields.pop(key, None)
unfoldable pub drop : String → Fields → Fields
drop key end = end
drop key (field k v rest) = let later = drop key rest in if k == key then later else field k v later

-- Which exceptions `dispatch_write` turns into a response, and under which code.
unfoldable pub code_of : Error → Option String
code_of e =
    if catches (value_class ∷ key_class ∷ type_class ∷ []) e
    then some "invalid_request"
    else if catches (os_class ∷ []) e
    then some "write_failed"
    else none

abbrev pub as_failure : String → Error → Option String → M World ToolResponse
as_failure action e none = raise e
as_failure action e (some code) = pure (failure action code (message_of e))

-- `except (ValueError, KeyError, TypeError)` and `except OSError`
unfoldable pub failed_with : String → Error → M World ToolResponse
failed_with action e = as_failure action e (code_of e)

abbrev pub stop_on_no_decision : Status → Bool
stop_on_no_decision rejected_policy = true
stop_on_no_decision needs_adjudication = true
stop_on_no_decision _ = false

unfoldable pub changed : List (String × Value) → Fields → Fields
changed [] f = f
changed ((k, v) ∷ rest) f = changed rest (put k v f)

no_memory_id : Result String
no_memory_id = err (value_error "memory_id is required" [])

given : Option String → Result String
unfolding no_memory_id
given none = no_memory_id
given (some s) = if s == "" then no_memory_id else ok s

-- `request.get("memory_id") or proposal.match_memory_id`, where the first may be any value; `other 0` is
-- a value that is false.
unfoldable pub required_memory_id : Option Value → Option String → Result String
unfolding given no_memory_id
required_memory_id none match_id = given match_id
required_memory_id (some (str s)) match_id = if s == "" then given match_id else ok s
required_memory_id (some null) match_id = given match_id
required_memory_id (some (bool true)) match_id = no_memory_id
required_memory_id (some (bool false)) match_id = given match_id
required_memory_id (some (int (pos zero))) match_id = given match_id
required_memory_id (some (int (pos (suc n)))) match_id = no_memory_id
required_memory_id (some (int (negsuc n))) match_id = no_memory_id
required_memory_id (some (list nil)) match_id = given match_id
required_memory_id (some (list (cons v vs))) match_id = no_memory_id
required_memory_id (some (dict end)) match_id = given match_id
required_memory_id (some (dict (field k v f))) match_id = no_memory_id
required_memory_id (some (other zero)) match_id = given match_id
required_memory_id (some (other (suc n))) match_id = no_memory_id

unfoldable pub required_candidate_id : Option Value → Result String
required_candidate_id (some (str s)) =
    if s == "" then err (value_error "candidate_id is required" []) else ok s
required_candidate_id _ = err (value_error "candidate_id is required" [])

abbrev pub same_id : String → Option String → Bool
same_id id none = false
same_id id (some other_id) = id == other_id

unfoldable pub outcome_of : Value → Result String
outcome_of (str s) =
    if elem s ("needs_context" ∷ "discard" ∷ [])
    then ok s
    else err (value_error "capture_review supports only needs_context or discard" [])
outcome_of (list _) = err type_error
outcome_of (dict _) = err type_error
outcome_of _ = err (value_error "capture_review supports only needs_context or discard" [])

module _ (env : Surroundings) where
  open env use {platform, reviews, pairs, casefold}

  -- `dict(value)`, where the key may be missing
  unfoldable pub dict_of : Option Value → Result Fields
  dict_of none = ok end
  dict_of (some (dict f)) = ok f
  dict_of (some (list vs)) = pairs vs
  dict_of (some (str s)) =
      if s == "" then ok end else err (value_error "dictionary update sequence" [])
  dict_of (some null) = err type_error
  dict_of (some (bool b)) = err type_error
  dict_of (some (int i)) = err type_error
  dict_of (some (other n)) = err type_error

  -- The request of `confirm` and `update`: an `observe` whose proposal has these fields too.
  unfoldable pub nested_observe : Fields → List (String × Value) → Result Fields
  nested_observe request changes =
      let nested = drop "capture_observation_ids" (put "action" (str "observe") request) in
      Result.◌>>=◌ (dict_of (get "observation" nested)) (λ observation.
        Result.◌>>=◌ (dict_of (get "proposal" observation)) (λ proposal. ok (
          put "observation" (dict (put "proposal" (dict (changed changes proposal)) observation))
            nested)))

  unfoldable pub handle_propose : Fields → M World ToolResponse
  handle_propose request = do
    e ← lift (load_observation request)
    decision ← lift (evaluate_observation e)
    if is_rejected decision.status then pure (decision_response "propose" decision end) else do
      (recorded, evidence) ← record_candidate env e
      pure (
          response "propose" deferred "proposal_recorded" (
            fields_of (
              candidate_fields e.observation_id recorded
              ++ ("evidence_count", int (pos evidence.count)) ∷ [])))

  unfoldable pub handle_reject : Fields → M World ToolResponse
  handle_reject request = do
    candidate_id ← lift (required_candidate_id (get "candidate_id" request))
    let name = platform.sha256 candidate_id
    existed ← gets (λ w. exists name w.candidates)
    modify (λ w. record w { candidates = unlink name w.candidates })
    pure (
        response "reject" accepted (if existed then "candidate_rejected" else "candidate_not_found")
          (fields_of (("candidate_id", str candidate_id) ∷ ("removed", bool existed) ∷ [])))

  unfoldable pub handle_capture_review : Fields → M World ToolResponse
  handle_capture_review request = do
    let fields = "action" ∷ "observation_ids" ∷ "outcome" ∷ []
    lift (
        raise_if
          (not (all (λ s. elem s fields) (keys request))
            || not (all (λ s. elem s (keys request)) fields))
          (value_error "capture_review request must contain exact fields" []))
    value ← lift (index request "outcome")
    outcome ← lift (outcome_of value)
    ids ← lift (index request "observation_ids")
    observation_ids ← lift (parse_capture_observation_ids ids)
    created ← reviews.record_reviews observation_ids outcome none
    pure (
        response "capture_review" accepted "capture_review_recorded"
          (fields_of (("outcome", str outcome) ∷ ("reviewed_count", int (pos created)) ∷ [])))

  module _ (call : Call) where
    unfoldable pub observe_as : String → Fields → List String → M World ToolResponse
    observe_as action nested ids = do
      answer ← handle_observe env call nested
      attach_draft_reviews env (record answer { action = action }) ids

    unfoldable pub handle_confirm : Fields → M World ToolResponse
    handle_confirm request = do
      ids ← lift (capture_observation_ids request)
      nested ← lift (
          nested_observe request
            (("disposition", str "new") ∷ ("requested_confidence", str "confirmed") ∷ []))
      item ← lift (load_memory_markdown env nested)
      lift (validate_formalization_item casefold item)
      prevalidate_draft_reviews env ids item.id
      observe_as "confirm" nested ids

    unfoldable pub handle_update : Fields → M World ToolResponse
    handle_update request = do
      ids ← lift (capture_observation_ids request)
      nested ← lift (nested_observe request (("disposition", str "update") ∷ []))
      item ← lift (load_memory_markdown env nested)
      lift (validate_formalization_item casefold item)
      e ← lift (load_observation nested)
      lift (
          raise_if (not (same_id item.id e.proposal.match_memory_id))
            (value_error "memory_markdown id must match match_memory_id" []))
      prevalidate_draft_reviews env ids item.id
      observe_as "update" nested ids

    unfoldable pub handle_transition : Fields → String → String → M World ToolResponse
    handle_transition request action new_status = do
      e ← lift (load_observation request)
      memory_id ← lift (required_memory_id (get "memory_id" request) e.proposal.match_memory_id)
      lift (
          raise_if (not (same_id memory_id e.proposal.match_memory_id))
            (value_error "memory_id must match proposal.match_memory_id" []))
      decision ← lift (evaluate_observation e)
      if stop_on_no_decision decision.status
          then pure (decision_response action decision end)
          else do
            result ← on_store (
                transition_memory platform memory_id new_status (source_key e) e.source.observed_at
                  ("memory_" ⧺ new_status) call)
            item ← on_store (get_memory platform memory_id)
            pure (mutation_response env action result (some item))
