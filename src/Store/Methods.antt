-- ===== src/Store/Methods.antt =====
-- The methods of `MemoryStore` (agc_runtime/store.py) that read and change formal memories. They run
-- under the root lock, one at a time. The clock, `uuid4` and the digest are arguments.
pub mod Idempotence
use Prim.Native.String.{◌++◌ as ◌⧺◌}
use agent_global_context.Prelude.{
  ℕ, zero, suc, ◌+◌, Bool, true, false, not, String, Option, none, some, List, [], ◌∷◌, ◌++◌, ◌==◌,
  elem, if◌then◌else◌,
}
use agent_global_context.Result
use agent_global_context.Result.{Result, ok, err, value_error, file_not_found, runtime_error}
use agent_global_context.Effects.{M, pure, gets, lift, fetch, ◌>>=◌, ◌>>◌}
use agent_global_context.Files.{exists}
use agent_global_context.Models.{
  Status, accepted, needs_adjudication, SourceKey, MemoryItem, Lifecycle, Temporal, Provenance,
}
use agent_global_context.Policy.{validate_transition}
use agent_global_context.Schema.{validate_memory_item}
use agent_global_context.Store.Disk.{Disk, MemoryPath, path_eq, Receipt}
use agent_global_context.Store.Receipts.{
  validate_source_key, read_receipts, evidence_count, source_was_recorded_in,
}
use agent_global_context.Store.Transaction.{
  Mutation, apply_mutation, recover_pending_transactions, read_memory, target_exists,
}

pub record MutationResult : Type 0 where
  pub status : Status
  pub code : String
  pub created : Bool
  pub object_id : String
  pub independent_evidence_count : ℕ
  pub written_content_digest : Option String

-- `MemoryItem.to_markdown` and `MemoryItem.from_markdown`, and what the store asks of Python's
-- library.
pub record Platform : Type 0 where
  pub to_markdown : MemoryItem → String
  pub from_markdown : String → Result MemoryItem
  pub is_iso_date : String → Bool
  pub sha256 : String → String

-- The values of `_utc_now()` and `uuid.uuid4().hex` in a call.
pub record Call : Type 0 where
  pub now : String
  pub uuid : String

-- text[:n]
unfoldable pub first : ℕ → String → String
first zero s = String.[]
first (suc n) String.[] = String.[]
first (suc n) (String.◌∷◌ c s) = String.◌∷◌ c (first n s)

-- SourceKey.stable_id
unfoldable pub stable_id : SourceKey → String
stable_id source = source.ref ⧺ ("\u{1f}" ⧺ (source.revision ⧺ ("\u{1f}" ⧺ source.content_hash)))

-- sorted(KINDS)
abbrev pub sorted_kinds : List String
sorted_kinds =
    "capability" ∷ "context" ∷ "goal" ∷ "identity" ∷ "interest" ∷ "pattern" ∷ "preference"
    ∷ "principle" ∷ []

abbrev pub memory_path : MemoryItem → MemoryPath
memory_path item = record { kind = item.kind; id = item.id }

abbrev pub path_of : String → String → MemoryPath
path_of memory_id kind = record { kind = kind; id = memory_id }

matching : String → Disk → List String → List MemoryPath
matching memory_id d [] = []
matching memory_id d (kind ∷ rest) =
    let found = matching memory_id d rest in
    if exists (path_of memory_id kind) d.memories then path_of memory_id kind ∷ found else found

the_match : String → List MemoryPath → Result MemoryPath
the_match memory_id [] = err (file_not_found "memory not found: {}" (memory_id ∷ []))
the_match memory_id (path ∷ []) = ok path
the_match memory_id (_ ∷ _ ∷ _) =
    err (runtime_error "duplicate memory id across kinds: {}" (memory_id ∷ []))

unfoldable pub find_memory_path : String → M Disk MemoryPath
unfolding matching the_match
find_memory_path memory_id = do
  matches ← gets (λ d. matching memory_id d sorted_kinds)
  lift (the_match memory_id matches)

abbrev pub duplicate_source : String → ℕ → MutationResult
duplicate_source object_id count = record {
  status = accepted;
  code = "duplicate_source";
  created = false;
  object_id = object_id;
  independent_evidence_count = count;
  written_content_digest = none;
}

abbrev pub recorded_as : String → String → ℕ → String → MutationResult
recorded_as code object_id count digest = record {
  status = accepted;
  code = code;
  created = true;
  object_id = object_id;
  independent_evidence_count = count + 1;
  written_content_digest = some digest;
}

-- `source.ref` is added to the references of a memory unless it is there.
abbrev pub with_ref : List String → String → List String
with_ref refs ref = if elem ref refs then refs else refs ++ ref ∷ []

module _ (platform : Platform) where
  open platform use {to_markdown, from_markdown, is_iso_date, sha256}

  unfoldable pub transaction_id : SourceKey → Call → String
  unfolding stable_id
  transaction_id source call = sha256 (stable_id source) ⧺ ("-" ⧺ call.uuid)

  unfoldable pub get_memory : String → M Disk MemoryItem
  unfolding find_memory_path read_memory
  get_memory memory_id = do
    path ← find_memory_path memory_id
    text ← read_memory path
    lift (from_markdown text)

  unfoldable pub write_new : MemoryItem → SourceKey → Call → List Receipt → M Disk MutationResult
  unfolding apply_mutation
  write_new item source call receipts = do
    digest ← apply_mutation sha256 (record {
      target = memory_path item;
      text = to_markdown item;
      source = source;
      object_id = item.id;
      action = "memory_created";
      old_lifecycle = none;
      new_lifecycle = some item.lifecycle.status;
      timestamp = call.now;
      receipts = receipts;
      transaction_id = transaction_id source call;
    })
    pure (recorded_as "memory_created" item.id (evidence_count receipts item.id) digest)

  unfoldable pub create_memory : MemoryItem → SourceKey → Call → M Disk MutationResult
  unfolding read_receipts target_exists
  create_memory item source call = do
    lift (validate_memory_item is_iso_date item)
    lift (validate_source_key source)
    recover_pending_transactions
    receipts ← read_receipts
    there ← target_exists (memory_path item)
    let count = evidence_count receipts item.id
    if source_was_recorded_in receipts source
        then pure (duplicate_source item.id count)
        else if there
        then pure (record {
          status = needs_adjudication;
          code = "memory_id_exists";
          created = false;
          object_id = item.id;
          independent_evidence_count = count;
          written_content_digest = none;
        })
        else write_new item source call receipts

  -- The end of the methods that change a memory that is there.
  unfoldable pub write_changed :
      MemoryPath
      → MemoryItem
      → MemoryItem
      → SourceKey
      → String
      → String
      → Call
      → List Receipt
      → String
      → M Disk MutationResult
  unfolding apply_mutation
  write_changed target current updated source action observed_at call receipts memory_id = do
    digest ← apply_mutation sha256 (record {
      target = target;
      text = to_markdown updated;
      source = source;
      object_id = memory_id;
      action = action;
      old_lifecycle = some current.lifecycle.status;
      new_lifecycle = some updated.lifecycle.status;
      timestamp = observed_at;
      receipts = receipts;
      transaction_id = transaction_id source call;
    })
    pure (recorded_as action memory_id (evidence_count receipts memory_id) digest)

  unfoldable pub read_current : String → M Disk (MemoryPath × MemoryItem)
  unfolding find_memory_path read_memory
  read_current memory_id = do
    target ← find_memory_path memory_id
    text ← read_memory target
    current ← lift (from_markdown text)
    pure (target, current)

  abbrev evidenced : MemoryItem → SourceKey → String → MemoryItem
  evidenced item source observed_date = record item {
    temporal = record item.temporal { last_observed = observed_date };
    provenance = record item.provenance {
      updated_at = observed_date;
      evidence_refs = with_ref item.provenance.evidence_refs source.ref;
    };
  }

  unfoldable pub add_evidence : String → SourceKey → String → Call → M Disk MutationResult
  unfolding read_receipts read_current first
  add_evidence memory_id source observed_at call = do
    lift (validate_source_key source)
    recover_pending_transactions
    receipts ← read_receipts
    if source_was_recorded_in receipts source
        then pure (duplicate_source memory_id (evidence_count receipts memory_id))
        else do
          (target, item) ← read_current memory_id
          let updated = evidenced item source (first 10 observed_at)
          lift (validate_memory_item is_iso_date updated)
          write_changed target item updated source "evidence_added" observed_at call receipts
              memory_id

  unfoldable pub replace_memory :
      String → MemoryItem → SourceKey → String → String → Call → M Disk MutationResult
  unfolding read_receipts read_current
  replace_memory memory_id updated source observed_at action call = do
    lift (validate_source_key source)
    lift (validate_memory_item is_iso_date updated)
    lift (
        Result.raise_if (not (updated.id == memory_id))
          (value_error "updated memory id must match target memory id" []))
    recover_pending_transactions
    receipts ← read_receipts
    if source_was_recorded_in receipts source
        then pure (duplicate_source memory_id (evidence_count receipts memory_id))
        else do
          (target, current) ← read_current memory_id
          lift (
              Result.raise_if (not (current.kind == updated.kind))
                (value_error "updated memory kind cannot change" []))
          lift (validate_transition current.lifecycle.status updated.lifecycle.status)
          write_changed target current updated source action observed_at call receipts memory_id

  abbrev transitioned : MemoryItem → String → String → MemoryItem
  transitioned current new_status observed_date = record current {
    lifecycle = record { status = new_status };
    temporal = record current.temporal { last_observed = observed_date };
    provenance = record current.provenance { updated_at = observed_date };
  }

  unfoldable pub transition_memory :
      String → String → SourceKey → String → String → Call → M Disk MutationResult
  unfolding read_receipts read_current first
  transition_memory memory_id new_status source observed_at action call = do
    lift (validate_source_key source)
    recover_pending_transactions
    receipts ← read_receipts
    if source_was_recorded_in receipts source
        then pure (duplicate_source memory_id (evidence_count receipts memory_id))
        else do
          (target, current) ← read_current memory_id
          lift (validate_transition current.lifecycle.status new_status)
          let updated = transitioned current new_status (first 10 observed_at)
          lift (validate_memory_item is_iso_date updated)
          write_changed target current updated source action observed_at call receipts memory_id
