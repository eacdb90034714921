-- ===== src/Budget.antt =====
-- The durable ledger of model tokens: agc_runtime/capture_budget.py and the records of
-- agc_runtime/capture_contracts.py that it keeps. Files are named by what their name holds: a pool file
-- by the pool and its census, a reservation and a settlement by the reservation's id. The calls run
-- under the capture lock, one at a time; a decoded file is a valid record, and the reading of a
-- directory is one call. `schema_version` has one value and is left out.

pub mod Methods
pub mod Charges
pub mod Ceilings
pub mod Settlements
pub mod Calls
pub mod Reached
use agent_global_context.Prelude.{
  ℕ, ◌+◌, ◌-◌, ◌≡◌, ◌↔◌, Bool, true, false, not, ◌&&◌, ◌||◌, String, Option, none, some, List, [],
  ◌∷◌, ◌==◌, arith, eq_iff, eqb, leb, ltb, all, any, keep_if, length, if◌then◌else◌,
}
use agent_global_context.Result.{
  Result, ok, err, value_error, runtime_error, Error, file_not_found, raise_if,
}
use agent_global_context.Value.{ℤ, pos, negsuc}
use agent_global_context.Files.{Eq, Files, read, exists, write, string_eq}
use agent_global_context.Effects.{M, pure, gets, lift, fetch, modify, ◌>>=◌, ◌>>◌}

-- `pool` and `census_id`: the constructor of CaptureTokenBudget refuses every other pair.
pub data Pool : Type 0 where
  backfill : String → Pool
  incremental : Pool

pub same_pool : Pool → Pool → Bool
same_pool (backfill a) (backfill b) = a == b
same_pool (backfill a) incremental = false
same_pool incremental (backfill b) = false
same_pool incremental incremental = true

pub same_pool_iff : (a b : Pool) → (same_pool a b ≡ true) ↔ (a ≡ b)
unfolding same_pool
same_pool_iff (backfill a) (backfill b) = ground (arith, eq_iff a b)
same_pool_iff (backfill a) incremental = ground arith
same_pool_iff incremental (backfill b) = ground arith
same_pool_iff incremental incremental = ground arith

instance abbrev pub pool_eq : Eq Pool
pool_eq = record { same = same_pool; same_iff = same_pool_iff }

pub record CaptureKey : Type 0 where
  pub adapter_id : String
  pub source_root_id : String
  pub task_id : String
  pub revision_id : String

abbrev pub same_key : CaptureKey → CaptureKey → Bool
same_key a b =
    a.adapter_id == b.adapter_id
    && a.source_root_id == b.source_root_id
    && a.task_id == b.task_id
    && a.revision_id == b.revision_id

pub record TokenUsage : Type 0 where
  pub input_tokens : ℕ
  pub output_tokens : ℕ
  pub total_tokens : ℕ

abbrev pub same_usage : TokenUsage → TokenUsage → Bool
same_usage a b =
    eqb a.input_tokens b.input_tokens
    && eqb a.output_tokens b.output_tokens
    && eqb a.total_tokens b.total_tokens

-- `all(getattr(a, field) <= getattr(b, field) for field in ...)`
abbrev pub fits : TokenUsage → TokenUsage → Bool
fits a b =
    leb a.input_tokens b.input_tokens
    && leb a.output_tokens b.output_tokens
    && leb a.total_tokens b.total_tokens

pub data UsageQuality : Type 0 where
  actual reserved : UsageQuality

abbrev pub same_quality : UsageQuality → UsageQuality → Bool
same_quality actual actual = true
same_quality actual reserved = false
same_quality reserved actual = false
same_quality reserved reserved = true

pub record TokenReservation : Type 0 where
  pub reservation_id : String
  pub pool : Pool
  pub capture_key : CaptureKey
  pub attempt : ℕ
  pub maximum_usage : TokenUsage
  pub reserved_at : String

pub record BudgetSettlement : Type 0 where
  pub reservation_id : String
  pub capture_key : CaptureKey
  pub charged_usage : TokenUsage
  pub usage_quality : UsageQuality
  pub settled_at : String

pub record PoolFile : Type 0 where
  pub ceiling_tokens : Option ℕ
  pub created_at : String

pub record Ledger : Type 0 where
  pub pools : Files Pool PoolFile
  pub reservations : Files String TokenReservation
  pub settlements : Files String BudgetSettlement

-- CaptureTokenBudget
pub record Budget : Type 0 where
  pub pool : Pool
  pub ceiling : Option ℕ

pub record BudgetSnapshot : Type 0 where
  pub ceiling_tokens : Option ℕ
  pub charged_tokens : ℕ
  pub remaining_tokens : Option ℤ
  pub active_reservations : ℤ
  pub settlements : ℕ

abbrev pub invalid : Error
invalid = value_error "capture_budget_contract_invalid" []

abbrev pub conflict : Error
conflict = value_error "capture_budget_conflict" []

abbrev corrupt : Error
corrupt = value_error "capture_budget_corrupt" []

abbrev pub unavailable : Error
unavailable = runtime_error "capture_budget_unavailable" []

abbrev pub foreign_key : Error
foreign_key = value_error "capture_budget_foreign_key" []

-- Python's `a - b`
unfoldable pub minus : ℕ → ℕ → ℤ
minus a b = if leb b a then pos (a - b) else negsuc (b - a - 1)

unfoldable pub validated_usage : TokenUsage → Result TokenUsage
validated_usage u =
    if eqb u.total_tokens (u.input_tokens + u.output_tokens) then ok u else err invalid

abbrev pub same_ceiling : Option ℕ → Option ℕ → Bool
same_ceiling none none = true
same_ceiling none (some b) = false
same_ceiling (some a) none = false
same_ceiling (some a) (some b) = eqb a b

check_pool : Option ℕ → Option PoolFile → Result (Unit {0})
check_pool ceiling none = err (file_not_found "pool" [])
check_pool ceiling (some file) = raise_if (not (same_ceiling file.ceiling_tokens ceiling)) conflict

unfoldable pub read_pool : Budget → M Ledger Unit
unfolding check_pool
read_pool b = do file ← fetch (λ d. read b.pool d.pools); lift (check_pool b.ceiling file)

unfoldable pub write_pool : Budget → String → M Ledger Unit
write_pool b now = modify (λ d. record d {
  pools = write b.pool (record { ceiling_tokens = b.ceiling; created_at = now }) d.pools;
})

unfoldable pub ensure_pool : Budget → String → M Ledger Unit
ensure_pool b now = do
  there ← gets (λ d. exists b.pool d.pools)
  if there then read_pool b else write_pool b now

abbrev pub of_pool : Pool → Files String TokenReservation → Files String TokenReservation
of_pool pool = keep_if (λ entry. same_pool entry.1.pool pool)

-- `settlements[item_id].charged_usage if item_id in settlements else item.maximum_usage`
abbrev pub charge_of : TokenReservation → Option BudgetSettlement → ℕ
charge_of item none = item.maximum_usage.total_tokens
charge_of item (some settlement) = settlement.charged_usage.total_tokens

abbrev pub charged : Files String TokenReservation → Files String BudgetSettlement → ℕ
charged [] settlements = 0
charged ((item_id, item) ∷ rest) settlements =
    charge_of item (read item_id settlements) + charged rest settlements

abbrev pub settled_in :
    Files String TokenReservation → Files String BudgetSettlement → Files String BudgetSettlement
settled_in reservations = keep_if (λ entry. exists entry.0 reservations)

-- The reservations of the pool and their settlements.
unfoldable pub entries :
    Budget → M Ledger (Files String TokenReservation × Files String BudgetSettlement)
entries b = do
  reservations ← fetch (λ d. d.reservations)
  lift (raise_if (not (all (λ entry. entry.0 == entry.1.reservation_id) reservations)) corrupt)
  settlements ← fetch (λ d. d.settlements)
  lift (raise_if (not (all (λ entry. entry.0 == entry.1.reservation_id) settlements)) corrupt)
  let mine = of_pool b.pool reservations
  pure (mine, settled_in mine settlements)

unfoldable pub write_reservation : TokenReservation → M Ledger Unit
write_reservation r =
    modify (λ d. record d { reservations = write r.reservation_id r d.reservations })

unfoldable pub write_settlement : BudgetSettlement → M Ledger Unit
write_settlement s = modify (λ d. record d { settlements = write s.reservation_id s d.settlements })
