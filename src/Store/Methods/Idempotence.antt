-- ===== src/Store/Methods/Idempotence.antt =====
-- A source counts once: `create_memory` with a source that is new, and with one that is recorded.
use agent_global_context.Prelude.{
  ◌+◌, ◌≡◌, refl, Bool, true, false, none, some, List, [], ◌∷◌, ◌++◌, arith, eq_refl,
  any-append_last,
}
use agent_global_context.Result.{ok}
use agent_global_context.Files.{exists, string_eq}
use agent_global_context.Utf8.{normalized}
use agent_global_context.Effects.{done}
use agent_global_context.Effects.Runs.{
  Runs, Runs-pure, Runs-gets, Runs-lift, Runs-fetch, Runs-bind, Runs-weaken, Runs-calm,
}
use agent_global_context.Models.{SourceKey, MemoryItem}
use agent_global_context.Schema.{validate_memory_item}
use agent_global_context.Store.Disk.{Disk, path_eq, Receipt}
use agent_global_context.Store.Receipts.{
  validate_source_key, entry_matches_source, evidence_count, source_was_recorded_in,
}
use agent_global_context.Store.Transaction.{Mutation, recover_pending_transactions}
use agent_global_context.Store.Transaction.Stages.{IsReady, receipt_of}
use agent_global_context.Store.Transaction.Atomicity.{mutated, apply_runs-mutated}
use agent_global_context.Store.Methods.{
  Platform, Call, duplicate_source, recorded_as, memory_path, transaction_id, write_new,
  create_memory,
}

abbrev pub NoLoss : Disk → Type 0
NoLoss d = Unit

module _ {calm : Bool} {R : Disk → Type 0} (d : Disk) where
  -- With no journal there is nothing to recover.
  pub Runs-recover_nothing : d.journals ≡ [] → Runs calm d recover_pending_transactions tt d R
  unfolding recover_pending_transactions
  Runs-recover_nothing h = Runs-bind _ _ (Runs-gets _) (rw h (Runs-pure tt))

-- The mutation that `create_memory` asks for.
abbrev pub creation : Platform → MemoryItem → SourceKey → Call → List Receipt → Mutation
creation platform item source call receipts = record {
  target = memory_path item;
  text = platform.to_markdown item;
  source = source;
  object_id = item.id;
  action = "memory_created";
  old_lifecycle = none;
  new_lifecycle = some item.lifecycle.status;
  timestamp = call.now;
  receipts = receipts;
  transaction_id = transaction_id platform source call;
}

module _ {calm : Bool} (platform : Platform) (item : MemoryItem) (source : SourceKey) (call : Call)
    (d : Disk) (valid : validate_memory_item platform.is_iso_date item ≡ ok tt)
    (valid_source : validate_source_key source ≡ ok tt) where
  Runs-create_new :
      IsReady d (creation platform item source call d.receipts)
      → exists (memory_path item) d.memories ≡ false
      → Runs calm d
          (create_memory platform item source call)
          (recorded_as "memory_created" item.id
            (evidence_count d.receipts item.id)
            (platform.sha256 (normalized (platform.to_markdown item))))
          (mutated d (creation platform item source call d.receipts))
          NoLoss
  unfolding create_memory write_new
  Runs-create_new ready absent = Runs-bind _ _ (Runs-lift tt valid) (
      Runs-bind _ _ (Runs-lift tt valid_source) (
        Runs-bind _ _ (Runs-recover_nothing d ready.no_journals) (
          Runs-bind _ _ (Runs-fetch tt _) (
            Runs-bind _ _ (Runs-gets _) (
              rw (ready.source_new, absent)
                (Runs-bind _ _
                  (Runs-weaken _ (λ x k. tt) (apply_runs-mutated platform.sha256 d _ ready))
                  (Runs-pure _)))))))

  Runs-create_duplicate :
      d.journals ≡ []
      → source_was_recorded_in d.receipts source ≡ true
      → Runs calm d
          (create_memory platform item source call)
          (duplicate_source item.id (evidence_count d.receipts item.id))
          d
          NoLoss
  unfolding create_memory
  Runs-create_duplicate none_pending recorded = Runs-bind _ _ (Runs-lift tt valid) (
      Runs-bind _ _ (Runs-lift tt valid_source) (
        Runs-bind _ _ (Runs-recover_nothing d none_pending) (
          Runs-bind _ _ (Runs-fetch tt _)
            (Runs-bind _ _ (Runs-gets _) (rw recorded (Runs-pure _))))))

recorded_again :
    (rs : List Receipt) (r : Receipt) → source_was_recorded_in (rs ++ r ∷ []) r.source ≡ true
recorded_again rs r =
    any-append_last (λ x. entry_matches_source x r.source) rs r
      (rw (eq_refl r.source.ref, eq_refl r.source.revision, eq_refl r.source.content_hash) refl)

evidence_count-append :
    (rs : List Receipt) (r : Receipt)
    → evidence_count (rs ++ r ∷ []) r.object_id ≡ evidence_count rs r.object_id + 1
evidence_count-append [] r = rw (eq_refl r.object_id) refl
evidence_count-append (x ∷ rs) r = ground (arith, evidence_count-append rs r)

-- A memory that is new, from a source that is new, is created once: the call that meets no fault
-- writes its text, one event and one receipt, and every later call with that source answers
-- `duplicate_source`, with the evidence counted once, and changes nothing.
pub create_memory-once :
    (platform : Platform) (item : MemoryItem) (source : SourceKey) (call again : Call) (d : Disk)
    → validate_memory_item platform.is_iso_date item ≡ ok tt
    → validate_source_key source ≡ ok tt
    → IsReady d (creation platform item source call d.receipts)
    → exists (memory_path item) d.memories ≡ false
    → let after = mutated d (creation platform item source call d.receipts) in
      let count = evidence_count d.receipts item.id in
      (create_memory platform item source call (record { disk = d; faults = [] }) ≡ (
        done (
            recorded_as "memory_created" item.id count
              (platform.sha256 (normalized (platform.to_markdown item)))),
        record { disk = after; faults = [] },
      ))
      × (create_memory platform item source again (record { disk = after; faults = [] })
          ≡ (done (duplicate_source item.id (count + 1)), record { disk = after; faults = [] }))
create_memory-once platform item source call again d valid valid_source ready absent =
    let after = mutated d (creation platform item source call d.receipts) in
    let m = creation platform item source call d.receipts in
    let duplicate : Runs true after (create_memory platform item source again)
        (duplicate_source item.id (evidence_count d.receipts item.id + 1)) after NoLoss =
      rw (← evidence_count-append d.receipts (receipt_of m)) (
        Runs-create_duplicate platform item source again after valid valid_source ready.no_journals
          (recorded_again d.receipts (receipt_of m))) in
    (
      Runs-calm _ (Runs-create_new platform item source call d valid valid_source ready absent),
      Runs-calm _ duplicate,
    )
