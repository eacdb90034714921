-- ===== src/Review/RoundTrip.antt =====
-- The mapping of a review receipt is read back.
use agent_global_context.Prelude.{
  ◌≡◌, refl, Bool, true, false, String, Option, none, some, ◌==◌, elem, if◌then◌else◌,
}
use agent_global_context.Result.{ok, raise_if, ◌>>=◌}
use agent_global_context.Schema.{is_memory_id}
use agent_global_context.Search.{strings}
use agent_global_context.Value.{optional}
use agent_global_context.Value.Strict.{index}
use agent_global_context.Review.{
  is_observation_id, is_distinct, parse_capture_observation_ids, review_outcomes,
  CaptureReviewReceipt, outcome_from, draft_target, no_target, check_version, utc_from,
  receipt_from, receipt_mapping,
}

-- Exactly a draft has a target.
abbrev pub HasTarget : Bool → Option String → Type 0
HasTarget true none = ⊥
HasTarget true (some id) = is_memory_id id ≡ true
HasTarget false none = Unit
HasTarget false (some id) = ⊥

pub record IsReceipt (is_utc : String → Bool) (r : CaptureReviewReceipt) : Type 0 where
  pub observation_id : is_observation_id r.observation_id ≡ true
  pub outcome : elem r.outcome review_outcomes ≡ true
  pub target : HasTarget (r.outcome == "draft") r.target_memory_id
  pub reviewed_at : is_utc r.reviewed_at ≡ true

target_from :
    (draft : Bool) (target : Option String)
    → HasTarget draft target
    → (if draft then draft_target (optional target) else no_target (optional target)) ≡ ok target
unfolding draft_target no_target
target_from true none h = absurd h
target_from true (some id) h = rw h refl
target_from false none h = refl
target_from false (some id) h = absurd h

-- A receipt is read back from its mapping if its ids and its time are well-formed, its outcome is known,
-- and it has a target exactly if it is a draft.
pub receipt_from-receipt_mapping :
    (is_utc : String → Bool) (r : CaptureReviewReceipt)
    → IsReceipt is_utc r
    → receipt_from is_utc (receipt_mapping r) ≡ ok r
unfolding receipt_from receipt_mapping parse_capture_observation_ids check_version outcome_from
    utc_from index is_distinct strings raise_if ◌>>=◌
receipt_from-receipt_mapping is_utc r w =
    rw
      (
        w.observation_id,
        w.outcome,
        target_from (r.outcome == "draft") r.target_memory_id w.target,
        w.reviewed_at,
      )
      refl
