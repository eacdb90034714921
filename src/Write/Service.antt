-- ===== src/Write/Service.antt =====
-- `_refresh_catalog_after_formal_memory`, `_handle_observe_batch` and `dispatch_write`. The handlers of
-- forgetting belong to other components.
use agent_global_context.Prelude.{
  ℕ, zero, suc, ◌+◌, Bool, true, false, not, ◌&&◌, String, Option, none, some, List, [], ◌∷◌, ◌++◌,
  ◌==◌, elem, if◌then◌else◌,
}
use agent_global_context.Result.{
  Class, value_class, key_class, type_class, os_class, runtime_class, catches, Result, value_error,
  raise_if,
}
use agent_global_context.Effects.{M, pure, raise, lift, on_error, ◌>>=◌, ◌>>◌}
use agent_global_context.Models.{
  Status, accepted, deferred, rejected_policy, needs_adjudication, failed,
}
use agent_global_context.Value.{
  pos, Value, null, int, str, list, dict, Values, nil, cons, Fields, fields_of, get, keys,
  values_of,
}
use agent_global_context.Store.Methods.{Call}
use agent_global_context.Write.{
  World, ToolResponse, Message, text, message_of, Failure, Surroundings, response, failure,
  rebuild_catalog,
}
use agent_global_context.Write.Handlers.{is_accepted, memory_id_in}
use agent_global_context.Write.Observe.{handle_observe}
use agent_global_context.Write.Dispatch.{
  put, failed_with, handle_propose, handle_reject, handle_capture_review, handle_confirm,
  handle_update, handle_transition,
}

-- The keys of _HANDLERS, but for observe_batch.
pub data Action : Type 0 where
  observe propose confirm update supersede archive reject forget capture_forget capture_review :
      Action

abbrev pub action_names : List (String × Action)
action_names =
    ("observe", observe)
    ∷ ("propose", propose)
    ∷ ("confirm", confirm)
    ∷ ("update", update)
    ∷ ("supersede", supersede)
    ∷ ("archive", archive)
    ∷ ("reject", reject)
    ∷ ("forget", forget)
    ∷ ("capture_forget", capture_forget)
    ∷ ("capture_review", capture_review)
    ∷ []

find_action : String → List (String × Action) → Option Action
find_action name [] = none
find_action name ((n, a) ∷ rest) =
    let later = find_action name rest in if n == name then some a else later

unfoldable pub action_of : String → Option Action
unfolding find_action
action_of name = find_action name action_names

-- No catalog is refreshed after these.
abbrev pub leaves_catalog : Action → Bool
leaves_catalog forget = true
leaves_catalog capture_forget = true
leaves_catalog capture_review = true
leaves_catalog _ = false

abbrev pub takes_capture_ids : String → Bool
takes_capture_ids name = elem name ("confirm" ∷ "update" ∷ "observe" ∷ [])

abbrev pub status_text : Status → String
status_text accepted = "accepted"
status_text deferred = "deferred"
status_text rejected_policy = "rejected_policy"
status_text needs_adjudication = "needs_adjudication"
status_text failed = "failed"

-- Counter: one more of `s`
unfoldable pub tally : String → List (String × ℕ) → List (String × ℕ)
tally s [] = (s, 1) ∷ []
tally s ((t, n) ∷ rest) =
    let later = tally s rest in if t == s then (t, n + 1) ∷ rest else (t, n) ∷ later

unfoldable pub counts_value : List (String × ℕ) → List (String × Value)
counts_value [] = []
counts_value ((s, n) ∷ rest) = (s, int (pos n)) ∷ counts_value rest

-- The classes that are caught around the build of the catalog.
abbrev pub refresh_classes : List Class
refresh_classes = key_class ∷ os_class ∷ runtime_class ∷ type_class ∷ value_class ∷ []

unfoldable pub refreshed : ToolResponse → ToolResponse
refreshed r = record r { warnings = r.warnings ++ "catalog_refresh_failed" ∷ [] }

abbrev pub names_memory : Option String → Bool
names_memory none = false
names_memory (some _) = true

-- The handlers of agc_runtime/forget_service.py and agc_runtime/capture_forget_service.py.
pub record Forgetting : Type 0 where
  pub forget_memory : Fields → M World ToolResponse
  pub forget_capture : Fields → M World ToolResponse

module _ (env : Surroundings) (forgetting : Forgetting) where
  text_of : Message → String
  text_of (text s) = s
  text_of (message_of e) = env.describe e

  error_value : Option Failure → Value
  unfolding text_of
  error_value none = null
  error_value (some f) =
      dict (fields_of (("code", str f.code) ∷ ("message", str (text_of f.message)) ∷ []))

  -- ToolResponse.to_dict
  unfoldable pub to_dict : ToolResponse → Value
  unfolding error_value
  to_dict r = dict (
      fields_of (
        ("schema_version", int (pos 2))
        ∷ ("tool", str r.tool)
        ∷ ("action", str r.action)
        ∷ ("status", str (status_text r.status))
        ∷ ("data", dict r.payload)
        ∷ ("warnings", list (values_of r.warnings))
        ∷ ("error", error_value r.error)
        ∷ []))

  unfoldable pub refresh_catalog : ToolResponse → M World ToolResponse
  refresh_catalog r =
      if is_accepted r.status && names_memory (memory_id_in r.payload)
      then on_error (do rebuild_catalog env; pure r)
          (λ e. if catches refresh_classes e then pure (refreshed r) else raise e)
      else pure r

  unfoldable pub handler : Call → Action → Fields → M World ToolResponse
  handler call observe request = handle_observe env call request
  handler call propose request = handle_propose env request
  handler call confirm request = handle_confirm env call request
  handler call update request = handle_update env call request
  handler call supersede request = handle_transition env call request "supersede" "superseded"
  handler call archive request = handle_transition env call request "archive" "historical"
  handler call reject request = handle_reject env request
  handler call forget request = forgetting.forget_memory request
  handler call capture_forget request = forgetting.forget_capture request
  handler call capture_review request = handle_capture_review env request

  unfoldable pub check_capture_use : String → Fields → Result (Unit {0})
  check_capture_use name request =
      raise_if (elem "capture_observation_ids" (keys request) && not (takes_capture_ids name))
        (value_error "capture_observation_ids are unsupported for this write action" [])

  unfoldable pub attempt : Call → String → Action → Fields → M World ToolResponse
  attempt call name action request = do
    lift (check_capture_use name request)
    answer ← handler call action request
    if leaves_catalog action then pure answer else refresh_catalog answer

  unfoldable pub dispatch_action : Call → String → Action → Fields → M World ToolResponse
  dispatch_action call name action request =
      on_error (attempt call name action request) (failed_with name)

  module _ (calls : ℕ → Call) where
    unfoldable pub observe_item : ℕ → Value → M World ToolResponse
    observe_item n (dict item) =
        dispatch_action (calls n) "observe" observe (put "action" (str "observe") item)
    observe_item n _ =
        pure (failure "observe" "invalid_request" (text "batch item must be a mapping"))

    -- The counts of the statuses and the responses, for the items from the `n`th on.
    unfoldable pub observe_items :
        ℕ → Values → List (String × ℕ) → M World (List (String × ℕ) × Values)
    observe_items n nil counts = pure (counts, nil)
    observe_items n (cons item rest) counts = do
      result ← observe_item n item
      (all_counts, results) ← observe_items (suc n) rest (tally (status_text result.status) counts)
      pure (all_counts, cons (to_dict result) results)

    unfoldable pub observe_batch : Option Value → M World ToolResponse
    observe_batch (some (list items)) = do
      (counts, results) ← observe_items zero items []
      pure (
          response "observe_batch" accepted "batch_evaluated" (
            fields_of (
              ("status_counts", dict (fields_of (counts_value counts)))
              ∷ ("results", list results)
              ∷ [])))
    observe_batch _ = raise (value_error "items must be a list" [])

    -- The batch's response names no memory, so that no catalog is refreshed for it.
    unfoldable pub dispatch_batch : Fields → M World ToolResponse
    dispatch_batch request =
        on_error
          (do
            lift (check_capture_use "observe_batch" request)
            answer ← observe_batch (get "items" request)
            refresh_catalog answer)
          (failed_with "observe_batch")

    unfoldable pub dispatch_named : String → Option Action → Fields → M World ToolResponse
    dispatch_named name (some action) request = dispatch_action (calls zero) name action request
    dispatch_named name none request =
        if name == "observe_batch"
        then dispatch_batch request
        else pure (failure name "invalid_action" (text "unsupported agc.write action"))

    unfoldable pub dispatch_request : Option Value → Fields → M World ToolResponse
    dispatch_request (some (str name)) request = dispatch_named name (action_of name) request
    dispatch_request _ request =
        pure (failure "" "invalid_action" (text "unsupported agc.write action"))

    unfoldable pub dispatch_write : Value → M World ToolResponse
    dispatch_write (dict request) = dispatch_request (get "action" request) request
    dispatch_write _ = pure (failure "" "invalid_request" (text "request must be a mapping"))
