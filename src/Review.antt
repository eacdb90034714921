-- ===== src/Review.antt =====
-- Review receipts of captured observations: agc_runtime/capture_review.py.
pub mod RoundTrip
use Prim.Native.Char.{code}
use Prim.Native.String.{◌++◌ as ◌⧺◌}
use agent_global_context.Prelude.{
  ℕ, suc, Bool, true, false, not, ◌&&◌, ◌||◌, String, Option, none, some, List, [], ◌∷◌, ◌==◌, elem,
  leb, eqb, all, if◌then◌else◌,
}
use agent_global_context.Result.{Result, ok, err, value_error, type_error, raise_if, ◌>>=◌, ◌>>◌}
use agent_global_context.Models.{MemoryItem}
use agent_global_context.Schema.{is_memory_id}
use agent_global_context.Store.Receipts.{is_sha256}
use agent_global_context.Value.{
  pos, Value, null, int, str, list, dict, Values, nil, cons, keys, fields_of, optional,
}
use agent_global_context.Value.Strict.{index}
use agent_global_context.Search.{contains, strings}

-- co_[0-9a-f]{64}
unfoldable pub is_observation_id : String → Bool
is_observation_id (String.◌∷◌ c (String.◌∷◌ o (String.◌∷◌ u rest))) =
    eqb (code c) b'c' && eqb (code o) b'o' && eqb (code u) b'_' && is_sha256 rest
is_observation_id _ = false

-- len(value) != len(set(value)), turned round
unfoldable pub is_distinct : List String → Bool
is_distinct [] = true
is_distinct (s ∷ rest) = not (elem s rest) && is_distinct rest

count_values : Values → ℕ
count_values nil = 0
count_values (cons v rest) = suc (count_values rest)

check_ids : Option (List String) → Result (List String)
check_ids none =
    err (value_error "capture_observation_ids must contain canonical observation ids" [])
check_ids (some ids) = do
  raise_if (not (all is_observation_id ids))
      (value_error "capture_observation_ids must contain canonical observation ids" [])
  raise_if (not (is_distinct ids))
      (value_error "capture_observation_ids must not contain duplicates" [])
  ok ids

unfoldable pub parse_capture_observation_ids : Value → Result (List String)
unfolding count_values check_ids
parse_capture_observation_ids (list values) =
    if leb 1 (count_values values) && leb (count_values values) 20
    then check_ids (strings values)
    else err (value_error "capture_observation_ids must contain between 1 and 20 items" [])
parse_capture_observation_ids _ =
    err (value_error "capture_observation_ids must contain between 1 and 20 items" [])

abbrev pub review_outcomes : List String
review_outcomes = "draft" ∷ "needs_context" ∷ "discard" ∷ []

-- `schema_version` is 1.
pub record CaptureReviewReceipt : Type 0 where
  pub observation_id : String
  pub outcome : String
  pub target_memory_id : Option String
  pub reviewed_at : String

abbrev pub receipt_fields : List String
receipt_fields =
    "schema_version" ∷ "observation_id" ∷ "outcome" ∷ "target_memory_id" ∷ "reviewed_at" ∷ []

unsupported : Result String
unsupported = err (value_error "CaptureReviewReceipt.outcome is unsupported" [])

unfoldable pub outcome_from : Value → Result String
unfolding unsupported
outcome_from (str s) = if elem s review_outcomes then ok s else unsupported
outcome_from (list _) = err type_error
outcome_from (dict _) = err type_error
outcome_from _ = unsupported

unfoldable pub draft_target : Value → Result (Option String)
draft_target (str s) =
    if is_memory_id s
    then ok (some s)
    else err (value_error "draft review receipt requires target_memory_id" [])
draft_target _ = err (value_error "draft review receipt requires target_memory_id" [])

unfoldable pub no_target : Value → Result (Option String)
no_target null = ok none
no_target _ = err (value_error "non-draft review receipt forbids target_memory_id" [])

unfoldable pub check_version : Value → Result (Unit {0})
check_version (int (pos n)) =
    raise_if (not (eqb n 1)) (value_error "CaptureReviewReceipt.schema_version must be 1" [])
check_version _ = err (value_error "CaptureReviewReceipt.schema_version must be 1" [])

the_id : List String → Result String
the_id [] = err (value_error "" [])
the_id (s ∷ _) = ok s

-- `is_utc` is the test of `_utc`: a text in RFC 3339 with a `Z`.
module _ (is_utc : String → Bool) where
  unfoldable pub utc_from : Value → Result String
  utc_from (str s) =
      if is_utc s
      then ok s
      else err (value_error "reviewed_at must be an RFC 3339 UTC timestamp" [])
  utc_from _ = err (value_error "reviewed_at must be an RFC 3339 UTC timestamp" [])

  unfoldable pub receipt_from : Value → Result CaptureReviewReceipt
  unfolding the_id
  receipt_from (dict value) = do
    raise_if
        (not (all (λ s. elem s receipt_fields) (keys value))
          || not (all (λ s. elem s (keys value)) receipt_fields))
        (value_error "CaptureReviewReceipt must contain the exact fields" [])
    check_version (← index value "schema_version")
    ids ← parse_capture_observation_ids (list (cons (← index value "observation_id") nil))
    observation_id ← the_id ids
    outcome ← outcome_from (← index value "outcome")
    target ← index value "target_memory_id"
    target_memory_id ← if outcome == "draft" then draft_target target else no_target target
    reviewed_at ← utc_from (← index value "reviewed_at")
    ok (record {
      observation_id = observation_id;
      outcome = outcome;
      target_memory_id = target_memory_id;
      reviewed_at = reviewed_at;
    })
  receipt_from _ = err (value_error "CaptureReviewReceipt must contain the exact fields" [])

unfoldable pub receipt_mapping : CaptureReviewReceipt → Value
receipt_mapping r = dict (
    fields_of (
      ("schema_version", int (pos 1))
      ∷ ("observation_id", str r.observation_id)
      ∷ ("outcome", str r.outcome)
      ∷ ("target_memory_id", optional r.target_memory_id)
      ∷ ("reviewed_at", str r.reviewed_at)
      ∷ []))

abbrev pub dangling_references : List String
dangling_references = "该 skill" ∷ "该技能" ∷ "这个方案" ∷ "上述方案" ∷ "上面的设置" ∷ "最终目标保持不变" ∷ []

module _ (casefold : String → String) where
  find_dangling : String → List String → Option String
  find_dangling folded [] = none
  find_dangling folded (phrase ∷ rest) =
      let later = find_dangling folded rest in
      if contains (casefold phrase) folded then some phrase else later

  reject_dangling : Option String → Result (Unit {0})
  reject_dangling none = ok tt
  reject_dangling (some phrase) =
      err (value_error "formalization memory contains dangling reference: {}" (phrase ∷ []))

  unfoldable pub validate_formalization_item : MemoryItem → Result (Unit {0})
  unfolding find_dangling reject_dangling
  validate_formalization_item item = reject_dangling (
      find_dangling
        (casefold (
          item.memory_card
          ⧺ ("\n"
              ⧺ (item.full_meaning
                  ⧺ ("\n" ⧺ (item.application_boundary ⧺ ("\n" ⧺ item.rationale)))))))
        dangling_references)
