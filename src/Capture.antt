-- ===== src/Capture.antt =====
-- The states of a captured task: CAPTURE_STATUSES and validate_capture_transition of
-- agc_runtime/capture_contracts.py.
pub mod Life
use agent_global_context.Prelude.{
  Bool, true, false, not, ◌&&◌, ◌==◌, String, Option, none, some, List, [], ◌∷◌, elem,
  if◌then◌else◌,
}
use agent_global_context.Result.{Result, ok, err, value_error, raise_if, ◌>>=◌, ◌>>◌}

abbrev pub capture_transitions : List (String × List String)
capture_transitions =
    (
      "discovered",
      "queued" ∷ "excluded" ∷ "coalesced" ∷ "deferred_budget" ∷ "quarantined" ∷ "retryable" ∷ [],
    )
    ∷ ("queued", "extracting" ∷ "deferred_budget" ∷ "excluded" ∷ "retryable" ∷ [])
    ∷ ("extracting", "complete" ∷ "retryable" ∷ "failed" ∷ "quarantined" ∷ [])
    ∷ ("retryable", "queued" ∷ "deferred_budget" ∷ "failed" ∷ "quarantined" ∷ [])
    ∷ ("deferred_budget", "queued" ∷ "excluded" ∷ [])
    ∷ ("failed", "queued" ∷ [])
    ∷ ("quarantined", "queued" ∷ [])
    ∷ ("complete", [])
    ∷ ("excluded", [])
    ∷ ("coalesced", [])
    ∷ []

abbrev pub capture_statuses : List String
capture_statuses =
    "discovered" ∷ "queued" ∷ "extracting" ∷ "complete" ∷ "retryable" ∷ "deferred_budget" ∷ "failed"
    ∷ "quarantined" ∷ "excluded" ∷ "coalesced" ∷ []

abbrev pub reopen_reasons : List String
reopen_reasons = "explicit_retry" ∷ "compatible_version_upgrade" ∷ []

-- The statuses that only a reason reopens.
abbrev pub is_parked : String → Bool
is_parked source = elem source ("failed" ∷ "quarantined" ∷ [])

-- _TRANSITIONS[source]
abbrev pub targets_of : String → List (String × List String) → List String
targets_of source [] = []
targets_of source ((status, targets) ∷ rest) =
    if status == source then targets else targets_of source rest

unfoldable pub check_reason : Bool → Option String → Result (Unit {0})
check_reason true none =
    err (value_error "reopen_reason must be explicit_retry or compatible_version_upgrade" [])
check_reason true (some reason) =
    raise_if (not (elem reason reopen_reasons))
      (value_error "reopen_reason must be explicit_retry or compatible_version_upgrade" [])
check_reason false none = ok tt
check_reason false (some reason) =
    err (value_error "reopen_reason is allowed only when reopening a parked status" [])

unfoldable pub validate_capture_transition : String → String → Option String → Result (Unit {0})
validate_capture_transition source target reason = do
  raise_if (not (elem source capture_statuses && elem target capture_statuses))
      (value_error "unknown capture status" [])
  raise_if (not (elem target (targets_of source capture_transitions)))
      (value_error "illegal capture status transition: {} -> {}" (source ∷ target ∷ []))
  check_reason (is_parked source && target == "queued") reason
