-- ===== src/Budget/Reached.antt =====
-- The ledgers that calls of the budget reach, and that all of them are sound.
use agent_global_context.Prelude.{ℕ, ◌≤◌, refl, String, Option, List, [], arith}
use agent_global_context.Files.{string_eq}
use agent_global_context.Effects.{Fault, Machine, Outcome, done, raised, died}
use agent_global_context.Effects.Meets.{Leaves}
use agent_global_context.Budget.{
  Pool, pool_eq, CaptureKey, TokenUsage, TokenReservation, BudgetSettlement, Ledger, Budget,
}
use agent_global_context.Budget.Methods.{FrozenRun, reserve, persist_settlement, settle, snapshot}
use agent_global_context.Budget.Ceilings.{IsSound, charged_in, ceiling_at}
use agent_global_context.Budget.Calls.{
  Sound, Meets-reserve, Meets-settle, Meets-persist, Meets-snapshot,
}

-- The ledgers that calls lead to, from none at all: of budgets of any pools and ceilings, in any order,
-- with any arguments and any faults.
pub data Reached (run : FrozenRun) : Ledger → Type 0 where
  nothing : Reached run (record { pools = []; reservations = []; settlements = [] })
  reserving :
      {x : Ledger}
      → Reached run x
      → (b : Budget) (id : String) (key : CaptureKey) (attempt : ℕ) (maximum : TokenUsage)
        (now : String) (fs : List Fault)
      → Reached run
          (reserve run b id key attempt maximum now (record { disk = x; faults = fs })).1.disk
  settling :
      {x : Ledger}
      → Reached run x
      → (b : Budget) (r : TokenReservation) (usage : Option TokenUsage) (now : String)
        (fs : List Fault)
      → Reached run (settle b r usage now (record { disk = x; faults = fs })).1.disk
  persisting :
      {x : Ledger}
      → Reached run x
      → (r : TokenReservation) (s : BudgetSettlement) (fs : List Fault)
      → Reached run (persist_settlement r s (record { disk = x; faults = fs })).1.disk
  looking :
      {x : Ledger}
      → Reached run x
      → (b : Budget) (now : String) (fs : List Fault)
      → Reached run (snapshot b now (record { disk = x; faults = fs })).1.disk

Leaves-IsSound :
    {A : Type 0} (r : Outcome A) (s : Machine Ledger) → Leaves IsSound Sound (r, s) → IsSound s.disk
Leaves-IsSound (done a) s h = h
Leaves-IsSound (raised e) s h = h
Leaves-IsSound died s h = h

Reached-IsSound : (run : FrozenRun) {x : Ledger} → Reached run x → IsSound x
Reached-IsSound run nothing = record {
  directory = tt;
  no_orphans = λ id h. refl;
  within = λ pool. ground arith;
}
Reached-IsSound run (reserving {x} r b id key attempt maximum now fs) =
    Leaves-IsSound _ _
      ((Meets-reserve x (Reached-IsSound run r) run b id key attempt maximum now).at fs)
Reached-IsSound run (settling {x} r b reservation usage now fs) =
    Leaves-IsSound _ _ ((Meets-settle x (Reached-IsSound run r) b reservation usage now).at fs)
Reached-IsSound run (persisting {x} r reservation s fs) =
    Leaves-IsSound _ _ ((Meets-persist x (Reached-IsSound run r) reservation s).at fs)
Reached-IsSound run (looking {x} r b now fs) =
    Leaves-IsSound _ _ ((Meets-snapshot x (Reached-IsSound run r) b now).at fs)

-- No pool is ever charged above the ceiling in its file: in every ledger that reservations,
-- settlements and snapshots lead to, whatever faults they met and whichever budgets called them, the
-- charge of each pool is at most its ceiling.
pub Reached-within :
    (run : FrozenRun) {x : Ledger}
    → Reached run x
    → (pool : Pool) → charged_in x pool ≤ ceiling_at x pool
Reached-within run r = (Reached-IsSound run r).within
