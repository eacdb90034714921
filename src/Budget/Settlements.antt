-- ===== src/Budget/Settlements.antt =====
-- The settlement that is prepared for a reservation is one that may be persisted.
use agent_global_context.Prelude.{
  ◌≤◌, ◌≡◌, refl, true, false, String, Option, none, some, eq_iff, eq_refl, arith,
}
use agent_global_context.Budget.{
  CaptureKey, same_key, TokenUsage, same_usage, fits, TokenReservation, BudgetSettlement,
}
use agent_global_context.Budget.Methods.{
  usable, settlement_of, prepare_settlement, disagrees, same_request, same_reservation,
}

fits_refl : (u : TokenUsage) → fits u u ≡ true
fits_refl u = ground arith

usage_refl : (u : TokenUsage) → same_usage u u ≡ true
usage_refl u = ground arith

key_refl : (k : CaptureKey) → same_key k k ≡ true
key_refl k =
    rw (eq_refl k.adapter_id, eq_refl k.source_root_id, eq_refl k.task_id, eq_refl k.revision_id)
      refl

usable-fits :
    (r : TokenReservation) (o : Option TokenUsage) (u : TokenUsage)
    → usable r o ≡ some u
    → fits u r.maximum_usage ≡ true
unfolding usable
usable-fits r none u h = cc
usable-fits r (some v) u h = ground arith

settlement_agrees :
    (r : TokenReservation) (o : Option TokenUsage) (now : String)
    → ((u : TokenUsage) → o ≡ some u → fits u r.maximum_usage ≡ true)
    → disagrees r (settlement_of r o now) ≡ false
unfolding disagrees
settlement_agrees r none now h =
    rw
      (
        eq_refl r.reservation_id,
        key_refl r.capture_key,
        fits_refl r.maximum_usage,
        usage_refl r.maximum_usage,
      )
      refl
settlement_agrees r (some u) now h =
    rw (eq_refl r.reservation_id, key_refl r.capture_key, h u refl) refl

-- Whatever usage is reported for a reservation, even none or one above its maximum, the settlement
-- that is prepared agrees with the reservation.
pub prepare_settlement-agrees :
    (r : TokenReservation) (usage : Option TokenUsage) (now : String)
    → disagrees r (prepare_settlement r usage now) ≡ false
unfolding prepare_settlement
prepare_settlement-agrees r usage now =
    settlement_agrees r (usable r usage) now (usable-fits r usage)

-- What persisting asks of a settlement.
pub agrees_lem :
    (r : TokenReservation) (s : BudgetSettlement)
    → disagrees r s ≡ false
    → (s.reservation_id ≡ r.reservation_id)
      × (s.charged_usage.total_tokens ≤ r.maximum_usage.total_tokens)
unfolding disagrees
agrees_lem r s h = ground (arith, eq_iff s.reservation_id r.reservation_id)

pub same_reservation-maximum :
    (a b : TokenReservation)
    → same_reservation a b ≡ true
    → a.maximum_usage.total_tokens ≡ b.maximum_usage.total_tokens
unfolding same_reservation same_request
same_reservation-maximum a b h = ground arith
