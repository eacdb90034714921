-- ===== src/Store/Retry.antt =====
-- A mutation that was broken off is made again.
use agent_global_context.Prelude.{
  ◌≡◌, refl, sym, ap, ◌∙◌, subst, ◌⊎◌, inl, inr, false, String, none, List, [],
}
use agent_global_context.Files.{Files, read, string_eq}
use agent_global_context.Utf8.{normalized}
use agent_global_context.Effects.{done}
use agent_global_context.Store.Disk.{Disk, MemoryPath, path_eq, MemoryEvent, Receipt}
use agent_global_context.Store.Events.{has_event}
use agent_global_context.Store.Receipts.{source_was_recorded_in}
use agent_global_context.Store.Transaction.{Mutation, apply_mutation}
use agent_global_context.Store.Transaction.Stages.{IsReady, IsPlain}
use agent_global_context.Store.Transaction.Atomicity.{
  SameMemory, mutated, Interrupted, recover-atomic, apply_mutation-mutated,
}
use agent_global_context.Store.History.{repaired}

-- The mutation again: `_apply_mutation` takes a new transaction id and reads the registry again.
abbrev pub again : Mutation → String → Disk → Mutation
again m fresh y = record m { transaction_id = fresh; receipts = y.receipts }

again-IsReady :
    (d y : Disk) (m : Mutation) (fresh : String)
    → IsReady d m
    → y.journals ≡ []
    → SameMemory y d
    → has_event fresh d.events ≡ false
    → read fresh y.backups ≡ none
    → IsReady y (again m fresh y)
again-IsReady d y m fresh ready settled same event_new backup_new = record {
  no_journals = settled;
  source_valid = ready.source_valid;
  source_new =
      ap (λ (rs : List Receipt). source_was_recorded_in rs m.source) same.receipts
      ∙ ready.source_new;
  receipts_read = refl;
  event_new = ap (λ (es : List MemoryEvent). has_event fresh es) same.events ∙ event_new;
  backup_new = backup_new;
  target_plain =
      subst (λ (ms : Files MemoryPath String). IsPlain (read m.target ms)) (sym same.memories)
        ready.target_plain;
}

-- A mutation that was broken off anywhere, however its recoveries failed too, is not stuck: after a
-- recovery that meets no fault either its whole effect is there, or making it again with a new
-- transaction id, with no fault, returns the digest and brings its whole effect about.
pub retry_completes :
    (sha256 : String → String) (d : Disk) (m : Mutation) {x : Disk} (fresh : String)
    → IsReady d m
    → Interrupted sha256 d m x
    → has_event fresh d.events ≡ false
    → read fresh (repaired x).backups ≡ none
    → let y = repaired x in
      SameMemory y (mutated d m)
      ⊎ (apply_mutation sha256 (again m fresh y) (record { disk = y; faults = [] }) ≡ (
        done (sha256 (normalized m.text)),
        record { disk = mutated y (again m fresh y); faults = [] },
      ))
retry_completes sha256 d m {x} fresh ready broken event_new backup_new =
    let (_, settled, view) = recover-atomic sha256 d m ready broken in
    elim view [
      | inr complete ↦ inl complete
      | inl same ↦ inr (
          apply_mutation-mutated sha256 (repaired x) (again m fresh (repaired x))
            (again-IsReady d (repaired x) m fresh ready settled same event_new backup_new))
    ]
