-- ===== src/Tests/Writes.antt =====
-- Requests to the write service.
use agent_global_context.Prelude.{
  ◌≡◌, ◌≢◌, refl, sym, ap, ◌∙◌, subst, ℕ, zero, String, false, none, List, [], ◌∷◌, arith,
}
use agent_global_context.Result.{
  is_a, value_class, key_class, type_class, os_class, Result, ok, ok-injective, other_error,
  raise_if,
}
use agent_global_context.Result
use agent_global_context.Effects.{Machine, done, raised, pure, raise, on_error, ◌>>=◌}
use agent_global_context.Models.{accepted}
use agent_global_context.Value.{Value, str, dict, Values, nil, cons, Fields, field}
use agent_global_context.Contracts.{ObservationEnvelope, from_mapping, to_mapping}
use agent_global_context.Contracts.RoundTrip.{from_mapping-to_mapping}
use agent_global_context.Policy.{
  PolicyDecision, evaluate_observation, decision_of, threshold_satisfied, candidate_metadata,
}
use agent_global_context.Store.Methods.{Call}
use agent_global_context.Write.{World, Surroundings, ToolResponse, response, failure, text}
use agent_global_context.Write.Handlers.{load_observation}
use agent_global_context.Write.Observe.{handle_observe}
use agent_global_context.Write.Dispatch.{
  handle_propose, handle_reject, handle_capture_review, failed_with, code_of, put,
}
use agent_global_context.Write.Service.{
  Forgetting, action_of, attempt, check_capture_use, handler, dispatch_action, dispatch_named,
  dispatch_request, dispatch_write, tally, to_dict, refresh_catalog, observe_item, observe_items,
}
use agent_global_context.Write.Errors.{dispatch_write-raises}
use agent_global_context.Write.Guards.{LeavesStore, unaccepted-unchanged, proposals-unchanged}
use agent_global_context.Write.Refresh.{Refreshes, refresh_catalog-Refreshes}
use agent_global_context.Catalog.Counts.{occurrences, counted}
use agent_global_context.Write.Batch.{status_texts, dicts, AreAnswers, observe_items-AreAnswers}
use agent_global_context.Tests.Memories.{platform, at_noon, one_memory}
use agent_global_context.Tests.Observations.{watched, watched-IsWellFormed, watched_decided}

abbrev pub env : Surroundings
env = record {
  platform = platform;
  reviews = record {
    validate_batch = λ ids outcome target. pure tt;
    record_reviews = λ ids outcome target. pure 1;
  };
  day = λ time. ok 0;
  pairs = λ values. ok Fields.end;
  casefold = λ s. s;
  decimal = λ n. "1";
  rstrip = λ s. s;
  describe = λ e. "failed";
  metrics = false;
}

-- A service of forgetting that is broken.
abbrev forgetting : Forgetting
forgetting = record {
  forget_memory = λ request. raise (other_error "AttributeError" []);
  forget_capture = λ request. raise (other_error "AttributeError" []);
}

abbrev calls : ℕ → Call
calls n = at_noon

abbrev pub world : World
world = record { store = one_memory; candidates = []; catalog = none; catalog_text = none }

abbrev pub running : Machine World
running = record { disk = world; faults = [] }

env-LeavesStore : LeavesStore env.reviews
unfolding pure
env-LeavesStore = record {
  validating = λ ids outcome target s. refl;
  recording = λ ids outcome target s. refl;
}

abbrev watching : Fields
watching = field "observation" (to_mapping watched) Fields.end

watching_loaded : load_observation watching ≡ ok watched
unfolding load_observation Result.◌>>=◌ from_mapping
watching_loaded = from_mapping-to_mapping watched watched-IsWellFormed

watched_refused : (decision_of watched).status ≢ accepted
unfolding decision_of threshold_satisfied candidate_metadata
watched_refused = ground arith

watching_refused :
    (e : ObservationEnvelope) (decision : PolicyDecision)
    → load_observation watching ≡ ok e
    → evaluate_observation e ≡ ok decision
    → decision.status ≢ accepted
watching_refused e decision loaded decided =
    let same = ok-injective watched e (sym watching_loaded ∙ loaded) in
    let same_decision = ok-injective (decision_of watched) decision (
      sym watched_decided
      ∙ ap (λ (o : ObservationEnvelope). evaluate_observation o) same
      ∙ decided) in
    subst (λ (d : PolicyDecision). d.status ≢ accepted) same_decision watched_refused

unaccepted-unchanged_example :
    (handle_observe env at_noon watching running).1.disk.store ≡ one_memory
unaccepted-unchanged_example =
    unaccepted-unchanged env at_noon watching running env-LeavesStore watching_refused

proposals-unchanged_example :
    ((handle_propose env watching running).1.disk.store ≡ one_memory)
    × ((handle_reject env watching running).1.disk.store ≡ one_memory)
    × ((handle_capture_review env watching running).1.disk.store ≡ one_memory)
proposals-unchanged_example = proposals-unchanged env watching running env-LeavesStore

abbrev forget_request : Value
forget_request = dict (field "action" (str "forget") Fields.end)

forget_raises :
    (dispatch_write env forgetting calls forget_request running).0
    ≡ raised (other_error "AttributeError" [])
unfolding dispatch_write dispatch_request dispatch_named action_of dispatch_action attempt
    check_capture_use handler on_error failed_with code_of raise_if ◌>>=◌ is_a raise
forget_raises = refl

dispatch_write-raises_example :
    (is_a (other_error "AttributeError" []) value_class ≡ false)
    × (is_a (other_error "AttributeError" []) key_class ≡ false)
    × (is_a (other_error "AttributeError" []) type_class ≡ false)
    × (is_a (other_error "AttributeError" []) os_class ≡ false)
dispatch_write-raises_example =
    dispatch_write-raises env forgetting calls forget_request running
      (other_error "AttributeError" []) forget_raises

-- A text, and an item with no observation.
abbrev items : Values
items = cons (str "tea") (cons (dict Fields.end) nil)

abbrev answers : List (String × ℕ) × Values
answers = (
  ("failed", 2) ∷ [],
  cons
      (to_dict env forgetting
        (failure "observe" "invalid_request" (text "batch item must be a mapping")))
      (cons (to_dict env forgetting (failure "observe" "invalid_request" (text "failed"))) nil),
)

items_answered : observe_items env forgetting calls zero items [] running ≡ (done answers, running)
unfolding observe_items observe_item dispatch_action attempt check_capture_use handler
    handle_observe load_observation on_error failed_with tally raise_if put Result.◌>>=◌ code_of
    failure to_dict ◌>>=◌ is_a raise
items_answered = refl

observe_items-AreAnswers_example :
    (rs : List ToolResponse) × AreAnswers env forgetting calls zero items rs running running
    × (answers.1 ≡ dicts env forgetting rs)
    × ((status : String) → counted status answers.0 ≡ occurrences status (status_texts rs))
observe_items-AreAnswers_example =
    observe_items-AreAnswers env forgetting calls items running running answers items_answered

abbrev written : ToolResponse
written =
    response "observe" accepted "memory_created" (field "memory_id" (str "prefers-tea") Fields.end)

refresh_catalog-Refreshes_example :
    Refreshes env written (refresh_catalog env forgetting written running)
refresh_catalog-Refreshes_example = refresh_catalog-Refreshes env forgetting written running
