-- ===== src/Tests/Budgets.antt =====
-- A budget with a ceiling of a hundred tokens.
use agent_global_context.Prelude.{◌≤◌, ◌≡◌, false, String, none, some, [], ◌∷◌}
use agent_global_context.Effects.{fine, fails}
use agent_global_context.Budget.{
  incremental, CaptureKey, TokenUsage, TokenReservation, Budget, Ledger,
}
use agent_global_context.Budget.Methods.{FrozenRun, prepare_settlement, disagrees, reserve, settle}
use agent_global_context.Budget.Settlements.{prepare_settlement-agrees}
use agent_global_context.Budget.Ceilings.{charged_in, ceiling_at}
use agent_global_context.Budget.Reached.{Reached, nothing, reserving, settling, Reached-within}

abbrev key : CaptureKey
key = record { adapter_id = "codex"; source_root_id = "r"; task_id = "t"; revision_id = "1" }

abbrev maximum : TokenUsage
maximum = record { input_tokens = 50; output_tokens = 10; total_tokens = 60 }

abbrev used : TokenUsage
used = record { input_tokens = 20; output_tokens = 5; total_tokens = 25 }

abbrev reservation : TokenReservation
reservation = record {
  reservation_id = "br_1";
  pool = incremental;
  capture_key = key;
  attempt = 1;
  maximum_usage = maximum;
  reserved_at = "2026-01-02T12:00:00Z";
}

abbrev hundred : Budget
hundred = record { pool = incremental; ceiling = some 100 }

abbrev unused : FrozenRun
unused = λ census_id. none

abbrev start : Ledger
start = record { pools = []; reservations = []; settlements = [] }

abbrev noon : String
noon = "2026-01-02T12:00:00Z"

abbrev one_reserved : Ledger
one_reserved =
    (reserve unused hundred "br_1" key 1 maximum noon (record { disk = start; faults = [] })).1.disk

abbrev one_settled : Ledger
one_settled =
    (settle hundred reservation (some used) noon
      (record { disk = one_reserved; faults = [] })).1.disk

-- A second reservation is refused by the file system.
abbrev third : Ledger
third =
    (reserve unused hundred "br_2" key 2 maximum noon
      (record { disk = one_settled; faults = fine ∷ fine ∷ fine ∷ fails ∷ [] })).1.disk

third-Reached : Reached unused third
third-Reached =
    reserving
      (settling (reserving nothing hundred "br_1" key 1 maximum noon []) hundred reservation
        (some used) noon [])
      hundred "br_2" key 2 maximum noon (fine ∷ fine ∷ fine ∷ fails ∷ [])

Reached-within_example : charged_in third incremental ≤ ceiling_at third incremental
Reached-within_example = Reached-within unused third-Reached incremental

prepare_settlement-agrees_example :
    disagrees reservation (prepare_settlement reservation (some used) noon) ≡ false
prepare_settlement-agrees_example = prepare_settlement-agrees reservation (some used) noon
