-- ===== src/Budget/Methods.antt =====
-- `reserve`, `prepare_settlement`, `settle` and `snapshot` of CaptureTokenBudget, and
-- `persist_settlement_locked` (agc_runtime/capture_budget.py).
use agent_global_context.Prelude.{
  ℕ, ◌+◌, Bool, false, not, ◌&&◌, ◌||◌, String, Option, none, some, List, [], ◌==◌, eqb, ltb, any,
  length, if◌then◌else◌,
}
use agent_global_context.Result.{Result, ok, err, file_not_found, raise_if}
use agent_global_context.Value.{pos}
use agent_global_context.Files.{read, exists, string_eq}
use agent_global_context.Effects.{M, pure, gets, lift, fetch, ◌>>=◌, ◌>>◌}
use agent_global_context.Budget.{
  Budget, BudgetSettlement, BudgetSnapshot, CaptureKey, Ledger, Pool, TokenReservation, TokenUsage,
  actual, backfill, charged, conflict, ensure_pool, entries, fits, foreign_key, incremental,
  invalid, minus, reserved, same_key, same_pool, same_quality, same_usage, unavailable,
  validated_usage, write_reservation, write_settlement,
}

unfoldable pub same_request : TokenReservation → TokenReservation → Bool
same_request a b =
    same_pool a.pool b.pool
    && same_key a.capture_key b.capture_key
    && eqb a.attempt b.attempt
    && same_usage a.maximum_usage b.maximum_usage

unfoldable pub or_file_not_found : {A : Type 0} → Option A → Result A
or_file_not_found none = err (file_not_found "capture budget" [])
or_file_not_found (some a) = ok a

unfoldable pub read_reservation : String → M Ledger TokenReservation
unfolding or_file_not_found
read_reservation id = do file ← fetch (λ d. read id d.reservations); lift (or_file_not_found file)

unfoldable pub read_settlement : String → M Ledger BudgetSettlement
unfolding or_file_not_found
read_settlement id = do file ← fetch (λ d. read id d.settlements); lift (or_file_not_found file)

-- The reservation is there.
unfoldable pub reserve_again : TokenReservation → M Ledger TokenReservation
reserve_again reservation = do
  current ← read_reservation reservation.reservation_id
  lift (raise_if (not (same_request current reservation)) conflict)
  pure current

unfoldable pub reserve_new : Budget → ℕ → TokenReservation → M Ledger TokenReservation
reserve_new b ceiling reservation = do
  (reservations, settlements) ← entries b
  lift (
      raise_if
        (ltb ceiling (charged reservations settlements + reservation.maximum_usage.total_tokens))
        unavailable)
  write_reservation reservation
  pure reservation

-- The state of the frozen census run of a backfill, which CaptureStore reads.
abbrev pub FrozenRun : Type 0
FrozenRun = String → Option (List CaptureKey)

is_member : CaptureKey → Option (List CaptureKey) → Bool
is_member key none = false
is_member key (some frozen) = any (λ k. same_key k key) frozen

unfoldable pub require_frozen_membership : FrozenRun → Pool → CaptureKey → Result (Unit {0})
unfolding is_member
require_frozen_membership run incremental key = ok tt
require_frozen_membership run (backfill census_id) key =
    raise_if (not (is_member key (run census_id))) foreign_key

abbrev pub or_unavailable : Option ℕ → Result ℕ
or_unavailable none = err unavailable
or_unavailable (some ceiling) = ok ceiling

-- `id` is the value of `reservation_id_for(self.pool, self.census_id, key, attempt)`, a digest.
unfoldable pub reserve :
    FrozenRun → Budget → String → CaptureKey → ℕ → TokenUsage → String → M Ledger TokenReservation
reserve run b id key attempt maximum now = do
  ceiling ← lift (or_unavailable b.ceiling)
  lift (validated_usage maximum)
  lift (raise_if (eqb attempt 0 || eqb maximum.total_tokens 0) invalid)
  lift (require_frozen_membership run b.pool key)
  ensure_pool b now
  there ← gets (λ d. exists id d.reservations)
  let reservation : TokenReservation = record {
    reservation_id = id;
    pool = b.pool;
    capture_key = key;
    attempt = attempt;
    maximum_usage = maximum;
    reserved_at = now;
  }
  if there then reserve_again reservation else reserve_new b ceiling reservation

-- A `usage` that is no TokenUsage, or has a negative count, is `none`.
unfoldable pub usable : TokenReservation → Option TokenUsage → Option TokenUsage
usable reservation none = none
usable reservation (some usage) =
    if eqb usage.total_tokens (usage.input_tokens + usage.output_tokens)
      && fits usage reservation.maximum_usage
    then some usage
    else none

abbrev pub settlement_of : TokenReservation → Option TokenUsage → String → BudgetSettlement
settlement_of reservation none now = record {
  reservation_id = reservation.reservation_id;
  capture_key = reservation.capture_key;
  charged_usage = reservation.maximum_usage;
  usage_quality = reserved;
  settled_at = now;
}
settlement_of reservation (some usage) now = record {
  reservation_id = reservation.reservation_id;
  capture_key = reservation.capture_key;
  charged_usage = usage;
  usage_quality = actual;
  settled_at = now;
}

unfoldable pub prepare_settlement : TokenReservation → Option TokenUsage → String → BudgetSettlement
prepare_settlement reservation usage now = settlement_of reservation (usable reservation usage) now

unfoldable pub disagrees : TokenReservation → BudgetSettlement → Bool
disagrees r s =
    not (s.reservation_id == r.reservation_id)
    || not (same_key s.capture_key r.capture_key)
    || not (fits s.charged_usage r.maximum_usage)
    || same_quality s.usage_quality reserved && not (same_usage s.charged_usage r.maximum_usage)

unfoldable pub same_reservation : TokenReservation → TokenReservation → Bool
same_reservation a b =
    a.reservation_id == b.reservation_id && same_request a b && a.reserved_at == b.reserved_at

unfoldable pub same_settlement : BudgetSettlement → BudgetSettlement → Bool
same_settlement a b =
    a.reservation_id == b.reservation_id
    && same_key a.capture_key b.capture_key
    && same_usage a.charged_usage b.charged_usage
    && same_quality a.usage_quality b.usage_quality

-- The settlement is there.
unfoldable pub settle_again : BudgetSettlement → M Ledger BudgetSettlement
settle_again settlement = do
  current ← read_settlement settlement.reservation_id
  lift (raise_if (not (same_settlement current settlement)) conflict)
  pure current

unfoldable pub settle_new : BudgetSettlement → M Ledger BudgetSettlement
settle_new settlement = do write_settlement settlement; pure settlement

unfoldable pub persist_settlement : TokenReservation → BudgetSettlement → M Ledger BudgetSettlement
persist_settlement reservation settlement = do
  lift (raise_if (disagrees reservation settlement) conflict)
  known ← gets (λ d. exists reservation.reservation_id d.reservations)
  lift (raise_if (not known) conflict)
  current ← read_reservation reservation.reservation_id
  lift (raise_if (not (same_reservation current reservation)) conflict)
  there ← gets (λ d. exists reservation.reservation_id d.settlements)
  if there then settle_again settlement else settle_new settlement

unfoldable pub settle :
    Budget → TokenReservation → Option TokenUsage → String → M Ledger BudgetSettlement
settle b reservation usage now = do
  ensure_pool b now
  persist_settlement reservation (prepare_settlement reservation usage now)

unfoldable pub snapshot_with : Budget → Option ℕ → String → M Ledger BudgetSnapshot
snapshot_with b none now = pure (record {
  ceiling_tokens = none;
  charged_tokens = 0;
  remaining_tokens = none;
  active_reservations = pos 0;
  settlements = 0;
})
snapshot_with b (some ceiling) now = do
  ensure_pool b now
  (reservations, settlements) ← entries b
  let spent = charged reservations settlements
  pure (record {
    ceiling_tokens = some ceiling;
    charged_tokens = spent;
    remaining_tokens = some (minus ceiling spent);
    active_reservations = minus (length reservations) (length settlements);
    settlements = length settlements;
  })

unfoldable pub snapshot : Budget → String → M Ledger BudgetSnapshot
unfolding snapshot_with
snapshot b now = snapshot_with b b.ceiling now
