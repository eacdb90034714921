-- ===== src/Read/Service.antt =====
-- The handlers of the read service and `dispatch_read`.
use agent_global_context.Prelude.{
  ℕ, zero, suc, Bool, false, not, ◌&&◌, String, Option, none, some, List, [], ◌∷◌, ◌==◌, elem,
  keep_if, map, length, eqb, if◌then◌else◌,
}
use Prim.Native.Nat.{◌/◌, ◌+◌}
use agent_global_context.Result.{
  Error, value_class, key_class, lookup_class, type_class, os_class, file_class, catches, Result,
  ok, err, value_error, lookup_error, raise_if,
}
use agent_global_context.Effects.{M, pure, raise, fetch, lift, on_error, ◌>>=◌, ◌>>◌}
use agent_global_context.Value.{pos, Value, int, str, list, dict, Fields, fields_of, get, keys}
use agent_global_context.Response.{Overview, fit_overview}
use agent_global_context.Search.{search_cards}
use agent_global_context.Store.Disk.{MemoryEvent, Receipt}
use agent_global_context.Store.Methods.{get_memory}
use agent_global_context.Write.{
  World, on_store, Message, text, message_of, ToolResponse, Surroundings, load_catalog,
}
use agent_global_context.Write.Dispatch.{put}
use agent_global_context.Read.{
  Captured, found, busy, degraded, unavailable, Reading, read_failed, answer, card_mapping,
  event_mapping, receipt_entry, listed, overview_data, overview_of, filters_of, check_filters,
  limit_of, query_of, item_mapping,
}

module _ (env : Surroundings) (reading : Reading) where
  -- response_budget._with_estimate, `n` more rounds
  unfoldable pub response_rounds : ℕ → ℕ → ToolResponse → ToolResponse
  response_rounds zero estimate r = record r {
    payload = put "estimated_tokens" (int (pos estimate)) r.payload;
  }
  response_rounds (suc n) estimate r =
      let candidate : ToolResponse = record r {
        payload = put "estimated_tokens" (int (pos estimate)) r.payload;
      } in
      let updated = (reading.response_length candidate + 2) / 3 in
      let more = response_rounds n updated r in if eqb updated estimate then candidate else more

  unfoldable pub estimated : ToolResponse → ToolResponse
  estimated r = response_rounds 10 0 r

  abbrev pub overview_answer : Option Overview → ToolResponse
  overview_answer (some d) = answer "overview" (overview_data d)
  overview_answer none =
      read_failed "overview" "response_budget_exceeded"
        (text "overview response cannot fit configured token budget")

  unfoldable pub handle_overview : M World ToolResponse
  handle_overview = do
    budget ← reading.overview_token_budget
    catalog ← load_catalog env
    pure (
        overview_answer (
          fit_overview (λ d. reading.response_length (answer "overview" (overview_data d))) budget
            (overview_of catalog)))

  unfoldable pub handle_search : Fields → M World ToolResponse
  handle_search request = do
    filters ← lift (filters_of (get "filters" request))
    lift (check_filters filters)
    limit ← lift (limit_of (get "limit" request))
    query ← lift (query_of (get "query" request))
    reading.overview_token_budget
    catalog ← load_catalog env
    filtered ← lift (search_cards env.casefold filters query limit catalog.cards)
    let results = list (listed (map card_mapping filtered))
    pure (
        estimated (
          answer "search" (
            fields_of (
              ("results", results)
              ∷ ("items", results)
              ∷ ("returned_count", int (pos (length filtered)))
              ∷ []))))

  unfoldable pub handle_get : String → M World ToolResponse
  handle_get memory_id = do
    item ← on_store (get_memory env.platform memory_id)
    pure (estimated (answer "get" (fields_of (("item", item_mapping item) ∷ []))))

  unfoldable pub handle_history : String → M World ToolResponse
  handle_history memory_id = do
    log ← fetch (λ (w : World). w.store.events)
    let events = keep_if (λ (e : MemoryEvent). e.object_id == memory_id) log
    pure (
        estimated (
          answer "history" (
            fields_of
              (("id", str memory_id) ∷ ("events", list (listed (map event_mapping events))) ∷ []))))

  unfoldable pub handle_evidence : String → M World ToolResponse
  handle_evidence memory_id = do
    registry ← fetch (λ (w : World). w.store.receipts)
    let sources = keep_if (λ (r : Receipt). r.object_id == memory_id) registry
    pure (
        estimated (
          answer "evidence" (
            fields_of (
              ("id", str memory_id)
              ∷ ("sources", list (listed (map receipt_entry sources)))
              ∷ []))))

  unfoldable pub required_id : Option Value → Result String
  required_id (some (str s)) = if s == "" then err (lookup_error "id_required" []) else ok s
  required_id _ = err (lookup_error "id_required" [])

  unfoldable pub with_id : (String → M World ToolResponse) → Option Value → M World ToolResponse
  unfolding required_id
  with_id rest value = do id ← lift (required_id value); rest id

  unfoldable pub capture_answer : String → Captured → ToolResponse
  capture_answer action (found payload) = answer action payload
  capture_answer action busy =
      read_failed action "capture_read_busy" (text "Capture read is temporarily unavailable")
  capture_answer action degraded =
      read_failed action "capture_integrity_degraded" (text "Capture object integrity is degraded")
  capture_answer action unavailable =
      read_failed action "capture_not_found" (text "Capture object is not available")

  unfoldable pub only_action : Fields → Result (Unit {0})
  only_action request =
      raise_if (not (elem "action" (keys request) && eqb (length (keys request)) 1))
        (value_error "capture_review_status request must contain only action" [])

  unfoldable pub handle_capture : String → M World Captured → M World ToolResponse
  unfolding capture_answer
  handle_capture action reader = do captured ← reader; pure (capture_answer action captured)

  unfoldable pub read_handlers : List (String × (Fields → M World ToolResponse))
  unfolding required_id with_id handle_capture only_action
  read_handlers =
      ("overview", λ request. handle_overview)
      ∷ ("search", handle_search)
      ∷ ("get", λ request. with_id handle_get (get "id" request))
      ∷ ("history", λ request. with_id handle_history (get "id" request))
      ∷ ("evidence", λ request. with_id handle_evidence (get "id" request))
      ∷ ("capture_overview", λ request. handle_capture "capture_overview" reading.capture_overview)
      ∷ (
        "capture_search",
        λ request. handle_capture "capture_search" (reading.capture_search request),
      )
      ∷ ("capture_get", λ request. handle_capture "capture_get" (reading.capture_get request))
      ∷ (
        "capture_review_status",
        λ request.
            lift (only_action request)
            >> handle_capture "capture_review_status" reading.capture_review_status,
      )
      ∷ []

  abbrev pub capture_actions : List String
  capture_actions =
      "capture_overview" ∷ "capture_search" ∷ "capture_get" ∷ "capture_review_status" ∷ []

  -- str(error) == "id_required"; the text of a KeyError is in quotes.
  abbrev pub is_id_required : Error → Bool
  is_id_required (lookup_error m xs) = m == "id_required"
  is_id_required _ = false

  lookup_answer : Bool → Error → String × Message
  lookup_answer capture e =
      if capture
      then ("capture_not_found", text "Capture object is not available")
      else if is_id_required e
      then ("id_required", text "explicit memory id is required")
      else ("not_found", message_of e)

  -- What `dispatch_read` answers to an exception, and none if it lets it through: its `except` clauses in
  -- their order.
  unfoldable pub failure_of : Bool → Error → Option (String × Message)
  unfolding lookup_answer
  failure_of capture e =
      if catches (lookup_class ∷ []) e
      then some (lookup_answer capture e)
      else if catches (file_class ∷ []) e
      then some (
        "not_found",
        if capture then text "requested memory object is not available" else message_of e,
      )
      else if catches (value_class ∷ type_class ∷ key_class ∷ []) e
      then some ("invalid_request", if capture then text "request is invalid" else message_of e)
      else if catches (os_class ∷ []) e
      then some ("read_failed", if capture then text "read operation failed" else message_of e)
      else none

  unfoldable pub answer_with : String → Error → Option (String × Message) → M World ToolResponse
  answer_with action e none = raise e
  answer_with action e (some (code, message)) = pure (read_failed action code message)

  unfoldable pub read_failed_with : String → Error → M World ToolResponse
  unfolding answer_with
  read_failed_with action e = answer_with action e (failure_of (elem action capture_actions) e)

  -- The handler of the action among those that are left.
  unfoldable pub dispatch_among :
      List (String × (Fields → M World ToolResponse)) → String → Fields → M World ToolResponse
  dispatch_among [] action request =
      pure (read_failed action "invalid_action" (text "unsupported agc.read action"))
  dispatch_among ((name, handle) ∷ rest) action request =
      let later = dispatch_among rest action request in
      if name == action then on_error (handle request) (read_failed_with action) else later

  unfoldable pub dispatch_read_request : Option Value → Fields → M World ToolResponse
  dispatch_read_request (some (str action)) request = dispatch_among read_handlers action request
  dispatch_read_request _ request =
      pure (read_failed "" "invalid_action" (text "unsupported agc.read action"))

  unfoldable pub dispatch_read : Value → M World ToolResponse
  dispatch_read (dict request) = dispatch_read_request (get "action" request) request
  dispatch_read _ = pure (read_failed "" "invalid_request" (text "request must be a mapping"))
