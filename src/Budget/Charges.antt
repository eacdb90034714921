-- ===== src/Budget/Charges.antt =====
-- What a reservation and a settlement add to the charge of a pool.
use agent_global_context.Prelude.{
  ◌+◌, ◌≤◌, ◌≡◌, refl, Bool, true, String, none, some, [], ◌∷◌, eq_iff, arith, keep_if, All,
  if◌then◌else◌,
}
use agent_global_context.Files.{Files, read, exists, write, string_eq, read-write}
use agent_global_context.Budget.{
  Pool, same_pool, TokenReservation, BudgetSettlement, of_pool, charge_of, charged, settled_in,
}

-- Each file has a name of its own.
abbrev pub IsDirectory : Files String TokenReservation → Type 0
IsDirectory [] = Unit
IsDirectory ((id, r) ∷ rest) = (read id rest ≡ none) × IsDirectory rest

pub write-IsDirectory :
    (id : String) (r : TokenReservation) (rs : Files String TokenReservation)
    → read id rs ≡ none
    → IsDirectory rs
    → IsDirectory (write id r rs)
write-IsDirectory id r [] h d = (refl, tt)
write-IsDirectory id r ((j, x) ∷ rs) h d =
    ground (arith, eq_iff j id, eq_iff id j, read-write id j r rs, write-IsDirectory id r rs)

-- A new reservation adds its charge to its pool and to no other.
pub charged-write_reservation :
    (pool : Pool) (id : String) (r : TokenReservation) (rs : Files String TokenReservation)
    (ss : Files String BudgetSettlement)
    → read id rs ≡ none
    → charged (of_pool pool (write id r rs)) ss
      ≡ charged (of_pool pool rs) ss
        + (if same_pool r.pool pool then charge_of r (read id ss) else 0)
charged-write_reservation pool id r [] ss h = ground arith
charged-write_reservation pool id r ((j, x) ∷ rs) ss h =
    ground (arith, charged-write_reservation pool id r rs ss)

-- The settlement of a reservation that is not there changes no charge.
charged-write_absent :
    (pool : Pool) (id : String) (s : BudgetSettlement) (rs : Files String TokenReservation)
    (ss : Files String BudgetSettlement)
    → read id rs ≡ none
    → charged (of_pool pool rs) (write id s ss) ≡ charged (of_pool pool rs) ss
charged-write_absent pool id s [] ss h = refl
charged-write_absent pool id s ((j, x) ∷ rs) ss h =
    ground
      (arith, eq_iff id j, eq_iff j id, read-write id j s ss, charged-write_absent pool id s rs ss)

-- The first settlement of a reservation charges no more than the reservation did.
pub charged-write_settlement :
    (pool : Pool) (id : String) (r : TokenReservation) (s : BudgetSettlement)
    (rs : Files String TokenReservation) (ss : Files String BudgetSettlement)
    → IsDirectory rs
    → read id rs ≡ some r
    → read id ss ≡ none
    → s.charged_usage.total_tokens ≤ r.maximum_usage.total_tokens
    → charged (of_pool pool rs) (write id s ss) ≤ charged (of_pool pool rs) ss
charged-write_settlement pool id r s [] ss d h n le = ground arith
charged-write_settlement pool id r s ((j, x) ∷ rs) ss d h n le = ground (
  arith,
  eq_iff id j,
  eq_iff j id,
  read-write id j s ss,
  charged-write_absent pool id s rs ss,
  charged-write_settlement pool id r s rs ss,
)

read-keep_if :
    (p : String → Bool) (id : String) (ss : Files String BudgetSettlement)
    → p id ≡ true
    → read id (keep_if (λ entry. p entry.0) ss) ≡ read id ss
read-keep_if p id [] h = refl
read-keep_if p id ((j, s) ∷ ss) h = ground (arith, eq_iff j id, read-keep_if p id ss)

-- Settlements that are taken out for other reservations do not count.
charged-keep_if :
    (p : String → Bool) (rs : Files String TokenReservation) (ss : Files String BudgetSettlement)
    → All (λ (entry : String × TokenReservation). p entry.0 ≡ true) rs
    → charged rs (keep_if (λ entry. p entry.0) ss) ≡ charged rs ss
charged-keep_if p [] ss h = refl
charged-keep_if p ((j, r) ∷ rs) ss (h, hs) =
    ground (arith, read-keep_if p j ss h, charged-keep_if p rs ss hs)

All-weaken :
    (p q : String → Bool) (rs : Files String TokenReservation)
    → ((id : String) → p id ≡ true → q id ≡ true)
    → All (λ (entry : String × TokenReservation). p entry.0 ≡ true) rs
    → All (λ (entry : String × TokenReservation). q entry.0 ≡ true) rs
All-weaken p q [] k h = tt
All-weaken p q ((j, r) ∷ rs) k (h, hs) = (k j h, All-weaken p q rs k hs)

exists_head :
    (j : String) (r : TokenReservation) (rs : Files String TokenReservation)
    → exists j ((j, r) ∷ rs) ≡ true
exists_head j r rs = ground (arith, eq_iff j j)

exists_tail :
    (j : String) (r : TokenReservation) (rs : Files String TokenReservation) (id : String)
    → exists id rs ≡ true
    → exists id ((j, r) ∷ rs) ≡ true
exists_tail j r rs id h = ground arith

names_there :
    (rs : Files String TokenReservation)
    → All (λ (entry : String × TokenReservation). exists entry.0 rs ≡ true) rs
names_there [] = tt
names_there ((j, r) ∷ rs) = (
  exists_head j r rs,
  All-weaken (λ id. exists id rs) (λ id. exists id ((j, r) ∷ rs)) rs (exists_tail j r rs)
      (names_there rs),
)

-- The charge is the same whether settlements of other reservations are kept or not.
pub charged-settled_in :
    (rs : Files String TokenReservation) (ss : Files String BudgetSettlement)
    → charged rs (settled_in rs ss) ≡ charged rs ss
charged-settled_in rs ss = charged-keep_if (λ id. exists id rs) rs ss (names_there rs)
