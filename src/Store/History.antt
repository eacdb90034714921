-- ===== src/Store/History.antt =====
-- The disks that mutations lead to over the life of a store, each of them run to its end or broken off
-- anywhere, and repaired by a recovery before the next one.
use agent_global_context.Prelude.{
  ◌≡◌, refl, sym, ap, ◌∙◌, subst, ◌⊎◌, inl, inr, false, String, List, [], ◌∷◌, ◌++◌, map, arith,
  eq_iff,
}
use mathlib.Core.List.{map-append}
use agent_global_context.Files.{Files, string_eq}
use agent_global_context.Models.{SourceKey}
use agent_global_context.Store.Disk.{Disk, MemoryPath, path_eq, MemoryEvent, Receipt}
use agent_global_context.Store.Receipts.{entry_matches_source, source_was_recorded_in}
use agent_global_context.Store.Transaction.{Mutation, event_of, recover_pending_transactions}
use agent_global_context.Store.Transaction.Stages.{IsReady, receipt_of}
use agent_global_context.Store.Transaction.Atomicity.{SameMemory, mutated, Interrupted}

abbrev pub repaired : Disk → Disk
repaired x = (recover_pending_transactions (record { disk = x; faults = [] })).1.disk

-- `session`: a mutation of a ready disk, stopped or not, and a recovery that meets no fault.
pub data History (sha256 : String → String) : Disk → Type 0 where
  start :
      (memories : Files MemoryPath String)
      → History sha256
          (record { memories = memories; events = []; receipts = []; journals = []; backups = [] })
  session :
      {d x : Disk} (m : Mutation)
      → History sha256 d
      → IsReady d m
      → Interrupted sha256 d m x
      → History sha256 (repaired x)

-- The receipt that belongs to an event.
abbrev pub receipt_for : MemoryEvent → Receipt
receipt_for e = record {
  source = e.source;
  object_id = e.object_id;
  action = e.action;
  recorded_at = e.timestamp;
  event_id = e.event_id;
}

-- No source stands in the registry twice.
abbrev pub IsUnrepeated : List Receipt → Type 0
IsUnrepeated [] = Unit
IsUnrepeated (r ∷ rs) = (source_was_recorded_in rs r.source ≡ false) × IsUnrepeated rs

pub record IsConsistent (d : Disk) : Type 0 where
  pub registry : d.receipts ≡ map receipt_for d.events
  pub unrepeated : IsUnrepeated d.receipts
  pub settled : d.journals ≡ []

matches_comm : (r s : Receipt) → entry_matches_source r s.source ≡ entry_matches_source s r.source
matches_comm r s = ground (
  arith,
  eq_iff r.source.ref s.source.ref,
  eq_iff s.source.ref r.source.ref,
  eq_iff r.source.revision s.source.revision,
  eq_iff s.source.revision r.source.revision,
  eq_iff r.source.content_hash s.source.content_hash,
  eq_iff s.source.content_hash r.source.content_hash,
)

recorded-append :
    (rs : List Receipt) (r : Receipt) (source : SourceKey)
    → source_was_recorded_in rs source ≡ false
    → entry_matches_source r source ≡ false
    → source_was_recorded_in (rs ++ r ∷ []) source ≡ false
recorded-append [] r source h k = ground arith
recorded-append (x ∷ rs) r source h k = ground (arith, recorded-append rs r source)

IsUnrepeated-append :
    (rs : List Receipt) (r : Receipt)
    → source_was_recorded_in rs r.source ≡ false
    → IsUnrepeated rs
    → IsUnrepeated (rs ++ r ∷ [])
IsUnrepeated-append [] r h u = (refl, tt)
IsUnrepeated-append (x ∷ rs) r h u =
    ground (arith, matches_comm x r, recorded-append rs r x.source, IsUnrepeated-append rs r)

module _ (d : Disk) (m : Mutation) (ready : IsReady d m) (c : IsConsistent d) where
  registry-mutated : (mutated d m).receipts ≡ map receipt_for (mutated d m).events
  registry-mutated =
      ap (λ rs. rs ++ receipt_of m ∷ []) c.registry
      ∙ sym (map-append receipt_for d.events (event_of m ∷ []))

  pub session-IsConsistent :
      (y : Disk) → y.journals ≡ [] → SameMemory y d ⊎ SameMemory y (mutated d m) → IsConsistent y
  session-IsConsistent y settled (inl same) = record {
    registry = same.receipts ∙ c.registry ∙ ap (map receipt_for) (sym same.events);
    unrepeated = subst IsUnrepeated (sym same.receipts) c.unrepeated;
    settled = settled;
  }
  session-IsConsistent y settled (inr same) = record {
    registry = same.receipts ∙ registry-mutated ∙ ap (map receipt_for) (sym same.events);
    unrepeated =
        subst IsUnrepeated (sym same.receipts)
          (IsUnrepeated-append d.receipts (receipt_of m) ready.source_new c.unrepeated);
    settled = settled;
  }
