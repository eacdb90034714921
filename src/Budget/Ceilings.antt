-- ===== src/Budget/Ceilings.antt =====
-- No pool is charged above its ceiling, whatever calls are made and whatever faults they meet.
use agent_global_context.Prelude.{ℕ, ◌+◌, ◌≤◌, ◌≡◌, String, Option, none, some, eq_iff, arith}
use agent_global_context.Files.{read, write, string_eq, read-write}
use agent_global_context.Budget.{
  Pool, same_pool_iff, pool_eq, TokenReservation, BudgetSettlement, PoolFile, Ledger, Budget,
  of_pool, charged,
}
use agent_global_context.Budget.Charges.{
  IsDirectory, write-IsDirectory, charged-write_reservation, charged-write_settlement,
}

abbrev pub charged_in : Ledger → Pool → ℕ
charged_in d pool = charged (of_pool pool d.reservations) d.settlements

abbrev pub or_zero : Option ℕ → ℕ
or_zero none = 0
or_zero (some c) = c

abbrev pub ceiling_of : Option PoolFile → ℕ
ceiling_of none = 0
ceiling_of (some file) = or_zero file.ceiling_tokens

-- A pool that has no file, or a file with no ceiling, has nothing to spend.
abbrev pub ceiling_at : Ledger → Pool → ℕ
ceiling_at d pool = ceiling_of (read pool d.pools)

pub record IsSound (d : Ledger) : Type 0 where
  pub directory : IsDirectory d.reservations
  pub no_orphans : (id : String) → read id d.reservations ≡ none → read id d.settlements ≡ none
  pub within : (pool : Pool) → charged_in d pool ≤ ceiling_at d pool

abbrev pub with_pool : Budget → String → Ledger → Ledger
with_pool b now d = record d {
  pools = write b.pool (record { ceiling_tokens = b.ceiling; created_at = now }) d.pools;
}

module _ (d : Ledger) (sound : IsSound d) where
  pub with_pool-IsSound :
      (b : Budget) (now : String) → read b.pool d.pools ≡ none → IsSound (with_pool b now d)
  with_pool-IsSound b now h = record {
    directory = sound.directory;
    no_orphans = sound.no_orphans;
    within = λ pool.
        let w = sound.within pool in
        let r =
          read-write b.pool pool (record { ceiling_tokens = b.ceiling; created_at = now })
            d.pools in
        ground (arith, same_pool_iff b.pool pool);
  }

  pub reserved-IsSound :
      (id : String) (r : TokenReservation)
      → read id d.reservations ≡ none
      → charged_in d r.pool + r.maximum_usage.total_tokens ≤ ceiling_at d r.pool
      → IsSound (record d { reservations = write id r d.reservations })
  reserved-IsSound id r h fits = record {
    directory = write-IsDirectory id r d.reservations h sound.directory;
    no_orphans =
        λ j k. sound.no_orphans j (let w = read-write id j r d.reservations in ground arith);
    within = λ pool.
        let w = sound.within pool in
        let e = charged-write_reservation pool id r d.reservations d.settlements h in
        let n = sound.no_orphans id h in ground (arith, same_pool_iff r.pool pool);
  }

  pub settled-IsSound :
      (id : String) (r : TokenReservation) (s : BudgetSettlement)
      → read id d.reservations ≡ some r
      → read id d.settlements ≡ none
      → s.charged_usage.total_tokens ≤ r.maximum_usage.total_tokens
      → IsSound (record d { settlements = write id s d.settlements })
  settled-IsSound id r s there new le = record {
    directory = sound.directory;
    no_orphans = λ j k.
        let w = read-write id j s d.settlements in
        let o = sound.no_orphans j k in ground (arith, eq_iff id j);
    within = λ pool.
        let w = sound.within pool in
        let c =
          charged-write_settlement pool id r s d.reservations d.settlements sound.directory there
            new le in
        ground arith;
  }
