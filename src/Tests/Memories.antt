-- ===== src/Tests/Memories.antt =====
-- Memories, and a disk that holds one of them.
use agent_global_context.Prelude.{◌≡◌, ◌⊎◌, ◌+◌, refl, true, String, none, some, [], ◌∷◌, arith}
use agent_global_context.Result.{ok, ◌>>=◌, raise_if}
use agent_global_context.Value.{pos}
use agent_global_context.Files.{string_eq}
use agent_global_context.Utf8.{normalized}
use agent_global_context.Effects.{done, fine, fails, dies}
use agent_global_context.Models.{SourceKey, MemoryItem}
use agent_global_context.Schema.{
  validate_memory_item, is_version, require_enum, is_memory_id, require_present, require_budget,
  validate_budgets, validate_interest, validate_capability, when, validate_kind_metadata,
  validate_enums, require_iso_date, validate_dates,
}
use agent_global_context.Schema.Valid.{IsStorable, validate_memory_item-IsStorable}
use agent_global_context.Store.Disk.{Disk, path_eq}
use agent_global_context.Store.Receipts.{validate_source_key, is_sha256}
use agent_global_context.Store.Transaction.{Mutation, apply_mutation, recover_pending_transactions}
use agent_global_context.Store.Transaction.Stages.{IsReady}
use agent_global_context.Store.Transaction.Atomicity.{
  SameMemory, mutated, Interrupted, mutation, recovery, recover-atomic, apply_mutation-mutated,
  apply_mutation-durable,
}
use agent_global_context.Store.Methods.{
  Platform, Call, recorded_as, duplicate_source, memory_path, create_memory,
}
use agent_global_context.Store.Methods.Idempotence.{creation, create_memory-once}

abbrev digest : String
digest = "0123456789abcdef0123456789abcdef0123456789abcdef0123456789abcdef"

abbrev pub first_source : SourceKey
first_source = record { ref = "session:1"; revision = "1"; content_hash = digest }

abbrev pub second_source : SourceKey
second_source = record { ref = "session:2"; revision = "1"; content_hash = digest }

abbrev pub tea : MemoryItem
tea = record {
  schema_version = pos 2;
  id = "prefers-tea";
  kind = "interest";
  subkind = "drink";
  lifecycle = record { status = "active" };
  confidence = record { level = "confirmed" };
  temporal = record {
    kind = "durable";
    valid_from = "2026-01-01";
    last_observed = "2026-01-01";
    review_after = none;
  };
  recall = record {
    prior = "low";
    decision_impact = "low";
    exposure = "core_card";
    scopes = "home" ∷ [];
    applies_when = [];
    not_when = [];
    freshness_policy = "periodic";
  };
  sensitivity = "normal";
  provenance = record {
    created_at = "2026-01-01";
    updated_at = "2026-01-01";
    confirmed_at = none;
    evidence_refs = "session:1" ∷ [];
  };
  memory_card = "Prefers tea.";
  full_meaning = "Drinks tea.";
  application_boundary = "Drinks.";
  rationale = "Said so.";
  policy_reason = none;
  topic = some "tea";
  intensity = some "high";
  trend = some "stable";
  motivation = some "taste";
  domain = none;
  polarity = none;
  current_level = none;
  goal_refs = [];
}

abbrev pub platform : Platform
platform = record {
  to_markdown = λ item. item.memory_card;
  from_markdown = λ text. ok tea;
  is_iso_date = λ s. true;
  sha256 = λ s. s;
}

abbrev pub at_noon : Call
at_noon = record { now = "2026-01-02T12:00:00Z"; uuid = "u1" }

abbrev pub empty_disk : Disk
empty_disk = record { memories = []; events = []; receipts = []; journals = []; backups = [] }

-- The memory is there, and the first source is recorded.
abbrev pub one_memory : Disk
one_memory = record {
  memories = (memory_path tea, "Prefers tea.") ∷ [];
  events = [];
  receipts =
      record {
        source = first_source;
        object_id = "prefers-tea";
        action = "memory_created";
        recorded_at = "2026-01-01T12:00:00Z";
        event_id = "t0";
      }
      ∷ [];
  journals = [];
  backups = [];
}

abbrev pub rewrite : Mutation
rewrite = record {
  target = memory_path tea;
  text = "Prefers\r\ngreen tea.";
  source = second_source;
  object_id = "prefers-tea";
  action = "evidence_added";
  old_lifecycle = some "active";
  new_lifecycle = some "active";
  timestamp = "2026-01-02T12:00:00Z";
  receipts = one_memory.receipts;
  transaction_id = "t1";
}

pub source_valid : validate_source_key second_source ≡ ok tt
unfolding validate_source_key is_sha256
source_valid = refl

first_source_valid : validate_source_key first_source ≡ ok tt
unfolding validate_source_key is_sha256
first_source_valid = refl

pub tea_valid : validate_memory_item (λ s. true) tea ≡ ok tt
unfolding validate_memory_item is_version require_enum is_memory_id require_present require_budget
    validate_budgets validate_interest validate_capability when validate_kind_metadata
    validate_enums require_iso_date validate_dates raise_if ◌>>=◌
tea_valid = refl

validate_memory_item-IsStorable_example : IsStorable (λ s. true) tea
validate_memory_item-IsStorable_example = validate_memory_item-IsStorable (λ s. true) tea tea_valid

rewrite-IsReady : IsReady one_memory rewrite
rewrite-IsReady = record {
  no_journals = refl;
  source_valid = source_valid;
  source_new = refl;
  receipts_read = refl;
  event_new = refl;
  backup_new = refl;
  target_plain = ground arith;
}

-- The third call fails, the rollback dies; a recovery dies too.
abbrev twice_broken : Disk
twice_broken =
    (recover_pending_transactions (record {
      disk =
          (apply_mutation (λ s. s) rewrite
            (record {
              disk = one_memory;
              faults = fine ∷ fine ∷ fine ∷ fine ∷ fine ∷ fails ∷ fine ∷ dies ∷ [];
            })).1.disk;
      faults = fine ∷ fine ∷ dies ∷ [];
    })).1.disk

broken : Interrupted (λ s. s) one_memory rewrite twice_broken
broken =
    recovery (mutation (fine ∷ fine ∷ fine ∷ fine ∷ fine ∷ fails ∷ fine ∷ dies ∷ []))
      (fine ∷ fine ∷ dies ∷ [])

recover-atomic_example :
    let (r, s) = recover_pending_transactions (record { disk = twice_broken; faults = [] }) in
    (r ≡ done tt)
    × (s.disk.journals ≡ [])
    × (SameMemory s.disk one_memory ⊎ SameMemory s.disk (mutated one_memory rewrite))
recover-atomic_example = recover-atomic (λ s. s) one_memory rewrite rewrite-IsReady broken

apply_mutation-mutated_example :
    apply_mutation (λ s. s) rewrite (record { disk = one_memory; faults = [] }) ≡ (
      done (normalized "Prefers\r\ngreen tea."),
      record { disk = mutated one_memory rewrite; faults = [] },
    )
apply_mutation-mutated_example = apply_mutation-mutated (λ s. s) one_memory rewrite rewrite-IsReady

apply_mutation-durable_example :
    (apply_mutation (λ s. s) rewrite (record { disk = one_memory; faults = [] })).1.disk
    ≡ mutated one_memory rewrite
apply_mutation-durable_example =
    apply_mutation-durable (λ s. s) one_memory rewrite [] (normalized "Prefers\r\ngreen tea.")
      rewrite-IsReady
      (λ i. (apply_mutation-mutated (λ s. s) one_memory rewrite rewrite-IsReady i).0)

pub tea-IsReady : IsReady empty_disk (creation platform tea first_source at_noon [])
tea-IsReady = record {
  no_journals = refl;
  source_valid = first_source_valid;
  source_new = refl;
  receipts_read = refl;
  event_new = refl;
  backup_new = refl;
  target_plain = tt;
}

create_memory-once_example :
    let after = mutated empty_disk (creation platform tea first_source at_noon []) in
    (create_memory platform tea first_source at_noon (record { disk = empty_disk; faults = [] }) ≡ (
      done (recorded_as "memory_created" "prefers-tea" 0 (normalized "Prefers tea.")),
      record { disk = after; faults = [] },
    ))
    × (create_memory platform tea first_source at_noon (record { disk = after; faults = [] })
        ≡ (done (duplicate_source "prefers-tea" (0 + 1)), record { disk = after; faults = [] }))
create_memory-once_example =
    create_memory-once platform tea first_source at_noon at_noon empty_disk tea_valid
      first_source_valid tea-IsReady refl
