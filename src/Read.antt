-- ===== src/Read.antt =====
-- The read service: agc_runtime/read_service.py. Requests change no memory and no candidate; a catalog
-- that is missing is built.
pub mod Service
pub mod Loads
pub mod Unchanged
pub mod Errors
use agent_global_context.Prelude.{
  ℕ, zero, suc, Bool, true, false, not, ◌&&◌, ◌||◌, String, Option, none, some, List, [], ◌∷◌, ◌++◌,
  ◌==◌, elem, keep_if, map, length, eqb, leb, if◌then◌else◌,
}
use Prim.Native.Nat.{◌/◌, ◌+◌}
use agent_global_context.Result.{Result, ok, err, value_error, raise_if}
use agent_global_context.Effects.{M, pure, fetch, lift, ◌>>=◌, ◌>>◌}
use agent_global_context.Models.{MemoryItem, Status, accepted, failed, SourceKey}
use agent_global_context.Value.{
  pos, Value, null, bool, int, str, list, dict, other, Values, nil, cons, Fields, end, fields_of,
  get, keys, values_of, optional,
}
use agent_global_context.Catalog.{Card, Catalog, catalog_counts, join, sort_by}
use agent_global_context.Markdown.{temporal_mapping, recall_mapping}
use agent_global_context.Response.{Overview, fit_overview}
use agent_global_context.Search.{search_cards}
use agent_global_context.Store.Disk.{MemoryEvent, Receipt}
use agent_global_context.Store.Methods.{get_memory}
use agent_global_context.Write.{
  World, on_store, Message, text, ToolResponse, Surroundings, load_catalog,
}
use agent_global_context.Write.Dispatch.{put}

-- What a reading of captured observations ends with: data, or CaptureReadBusyError, or CaptureReadError
-- with the code capture_integrity_degraded, or with another code.
pub data Captured : Type 0 where
  found : Fields → Captured
  busy degraded unavailable : Captured

-- The component that reads captured observations (agc_runtime/capture_read_service.py and
-- agc_runtime/capture_review_notification.py), the configuration, and the length of a response's JSON.
pub record Reading : Type 0 where
  pub capture_overview : M World Captured
  pub capture_search : Fields → M World Captured
  pub capture_get : Fields → M World Captured
  pub capture_review_status : M World Captured
  pub overview_token_budget : M World ℕ
  pub response_length : ToolResponse → ℕ

unfoldable pub read_failed : String → String → Message → ToolResponse
read_failed action code message = record {
  tool = "agc.read";
  action = action;
  status = failed;
  payload = end;
  warnings = [];
  error = some (record { code = code; message = message });
}

unfoldable pub answer : String → Fields → ToolResponse
answer action payload = record {
  tool = "agc.read";
  action = action;
  status = accepted;
  payload = payload;
  warnings = [];
  error = none;
}

-- A card, an event and a receipt as they stand in their files.
unfoldable pub card_mapping : Card → Value
card_mapping card = dict (
    fields_of (
      ("id", str card.id)
      ∷ ("kind", str card.kind)
      ∷ ("lifecycle", str card.lifecycle)
      ∷ ("scopes", list (values_of card.scopes))
      ∷ ("updated_at", str card.updated_at)
      ∷ ("confidence", str card.confidence)
      ∷ ("decision_impact", str card.decision_impact)
      ∷ ("exposure", str card.exposure)
      ∷ ("sensitivity", str card.sensitivity)
      ∷ ("memory_card", str card.memory_card)
      ∷ []))

abbrev pub key_fields : SourceKey → List (String × Value)
key_fields source =
    ("ref", str source.ref)
    ∷ ("revision", str source.revision)
    ∷ ("content_hash", str source.content_hash)
    ∷ []

unfoldable pub event_mapping : MemoryEvent → Value
event_mapping e = dict (
    fields_of (
      ("schema_version", int (pos 2))
      ∷ ("event_id", str e.event_id)
      ∷ ("object_id", str e.object_id)
      ∷ ("action", str e.action)
      ∷ ("old_lifecycle", optional e.old_lifecycle)
      ∷ ("new_lifecycle", optional e.new_lifecycle)
      ∷ ("timestamp", str e.timestamp)
      ∷ ("source", dict (fields_of (key_fields e.source)))
      ∷ []))

unfoldable pub receipt_entry : Receipt → Value
receipt_entry r = dict (
    fields_of (
      key_fields r.source
      ++ ("object_id", str r.object_id)
        ∷ ("action", str r.action)
        ∷ ("recorded_at", str r.recorded_at)
        ∷ ("event_id", str r.event_id)
        ∷ []))

unfoldable pub listed : List Value → Values
listed [] = nil
listed (v ∷ rest) = cons v (listed rest)

unfoldable pub counts_mapping : List (String × ℕ) → List (String × Value)
counts_mapping [] = []
counts_mapping ((s, n) ∷ rest) = (s, int (pos n)) ∷ counts_mapping rest

-- The data of an overview. The estimate comes last.
unfoldable pub overview_data : Overview → Fields
overview_data d = fields_of (
    ("memory_count", int (pos d.memory_count))
    ∷ (
      "counts",
      dict (
          fields_of (
            ("by_kind", dict (fields_of (counts_mapping d.by_kind)))
            ∷ ("by_scope", dict (fields_of (counts_mapping d.by_scope)))
            ∷ [])),
    )
    ∷ ("high_impact_scopes", list (values_of d.high_impact_scopes))
    ∷ ("available_card_count", int (pos d.available_card_count))
    ∷ ("cards", list (listed d.cards))
    ∷ ("estimated_tokens", int (pos d.estimated_tokens))
    ∷ [])

abbrev pub is_active : Card → Bool
is_active card = card.lifecycle == "active"

abbrev pub is_shown : Card → Bool
is_shown card = elem card.exposure ("core_card" ∷ "scoped_card" ∷ [])

unfoldable pub overview_of : Catalog → Overview
overview_of catalog =
    let active_cards = keep_if is_active catalog.cards in
    let counts = catalog_counts active_cards in
    record {
      memory_count = catalog.memory_count;
      available_card_count = length (keep_if is_shown active_cards);
      by_kind = counts.by_kind;
      by_scope = counts.by_scope;
      high_impact_scopes = counts.high_impact_scopes;
      cards = map card_mapping (keep_if (λ card. is_active card && is_shown card) catalog.cards);
      estimated_tokens = 0;
    }

abbrev pub search_filters : List String
search_filters =
    "kind" ∷ "scopes" ∷ "decision_impact" ∷ "sensitivity" ∷ "exposure" ∷ "confidence" ∷ []

unfoldable pub filters_of : Option Value → Result Fields
filters_of none = ok end
filters_of (some (dict filters)) = ok filters
filters_of (some _) = err (value_error "filters must be a mapping" [])

refuse_filters : List String → Result (Unit {0})
refuse_filters [] = ok tt
refuse_filters (name ∷ rest) =
    err (
      value_error "unsupported search filter: {}" (join ", " (sort_by (λ s. s) (name ∷ rest)) ∷ []))

unfoldable pub check_filters : Fields → Result (Unit {0})
unfolding refuse_filters
check_filters filters =
    refuse_filters (keep_if (λ name. not (elem name search_filters)) (keys filters))

bad_limit : Result ℕ
bad_limit = err (value_error "limit must be between 1 and 100" [])

unfoldable pub limit_of : Option Value → Result ℕ
unfolding bad_limit
limit_of none = ok 20
limit_of (some (int (pos n))) = if leb 1 n && leb n 100 then ok n else bad_limit
limit_of (some _) = bad_limit

unfoldable pub query_of : Option Value → Result (Option String)
query_of none = ok none
query_of (some null) = ok none
query_of (some (str query)) =
    if query == "" then err (value_error "query must be a non-empty string" []) else ok (some query)
query_of (some _) = err (value_error "query must be a non-empty string" [])

unfoldable pub item_mapping : MemoryItem → Value
item_mapping item = dict (
    fields_of (
      ("id", str item.id)
      ∷ ("kind", str item.kind)
      ∷ ("subkind", str item.subkind)
      ∷ ("lifecycle", str item.lifecycle.status)
      ∷ ("confidence", str item.confidence.level)
      ∷ ("temporal", dict (temporal_mapping item.temporal))
      ∷ ("recall", dict (recall_mapping item.recall))
      ∷ ("sensitivity", str item.sensitivity)
      ∷ ("memory_card", str item.memory_card)
      ∷ ("full_meaning", str item.full_meaning)
      ∷ ("application_boundary", str item.application_boundary)
      ∷ ("rationale", str item.rationale)
      ∷ []))
