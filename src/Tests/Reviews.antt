-- ===== src/Tests/Reviews.antt =====
-- The receipt of a draft.
use agent_global_context.Prelude.{◌≡◌, refl, true, some}
use agent_global_context.Result.{ok}
use agent_global_context.Schema.{is_memory_id}
use agent_global_context.Store.Receipts.{is_sha256}
use agent_global_context.Review.{
  is_observation_id, CaptureReviewReceipt, receipt_from, receipt_mapping,
}
use agent_global_context.Review.RoundTrip.{IsReceipt, receipt_from-receipt_mapping}

abbrev drafted : CaptureReviewReceipt
drafted = record {
  observation_id = "co_0123456789abcdef0123456789abcdef0123456789abcdef0123456789abcdef";
  outcome = "draft";
  target_memory_id = some "prefers-tea";
  reviewed_at = "2026-01-02T03:04:05Z";
}

drafted-IsReceipt : IsReceipt (λ s. true) drafted
unfolding is_observation_id is_sha256 is_memory_id
drafted-IsReceipt = record {
  observation_id = refl;
  outcome = refl;
  target = refl;
  reviewed_at = refl;
}

receipt_from-receipt_mapping_example :
    receipt_from (λ s. true) (receipt_mapping drafted) ≡ ok drafted
receipt_from-receipt_mapping_example =
    receipt_from-receipt_mapping (λ s. true) drafted drafted-IsReceipt
