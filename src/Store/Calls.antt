-- ===== src/Store/Calls.antt =====
-- The life of a store: calls of the methods of `MemoryStore` (agc_runtime/store.py) one after the
-- other, each of which may fail or die anywhere.
pub mod Recoveries
pub mod Consistent
use agent_global_context.Prelude.{◌≡◌, false, String, none, [], List}
use agent_global_context.Files.{Files, read, string_eq}
use agent_global_context.Effects.{Fault, Machine, M}
use agent_global_context.Models.{SourceKey, MemoryItem}
use agent_global_context.Store.Disk.{Disk, MemoryPath, path_eq}
use agent_global_context.Store.Events.{has_event}
use agent_global_context.Store.Transaction.{recover_pending_transactions}
use agent_global_context.Store.Transaction.Stages.{IsPlain}
use agent_global_context.Store.Methods.{
  Platform, Call, MutationResult, transaction_id, create_memory, add_evidence, replace_memory,
  transition_memory,
}
use agent_global_context.Store.History.{repaired}

-- The arguments of each method.
pub data Request : Type 0 where
  create : MemoryItem → SourceKey → Request
  evidence : String → SourceKey → String → Request
  replace : String → MemoryItem → SourceKey → String → String → Request
  transition : String → String → SourceKey → String → String → Request

abbrev pub source_in : Request → SourceKey
source_in (create item source) = source
source_in (evidence memory_id source observed_at) = source
source_in (replace memory_id item source observed_at action) = source
source_in (transition memory_id status source observed_at action) = source

abbrev pub perform : Platform → Request → Call → M Disk MutationResult
perform platform (create item source) call = create_memory platform item source call
perform platform (evidence memory_id source observed_at) call =
    add_evidence platform memory_id source observed_at call
perform platform (replace memory_id item source observed_at action) call =
    replace_memory platform memory_id item source observed_at action call
perform platform (transition memory_id status source observed_at action) call =
    transition_memory platform memory_id status source observed_at action call

-- A transaction id, with its `uuid4`, names no event and no backup.
pub record IsFresh (id : String) (d : Disk) : Type 0 where
  pub no_event : has_event id d.events ≡ false
  pub no_backup : read id d.backups ≡ none

abbrev pub IsPlainStore : Disk → Type 0
IsPlainStore d = (path : MemoryPath) → IsPlain (read path d.memories)

-- The disks of a store that began with an empty registry and an empty log. No call and no recovery need run to its end,
-- and the next call, whatever it is, starts from what they left.
pub data Lived (platform : Platform) : Disk → Type 0 where
  began :
      (memories : Files MemoryPath String)
      → ((path : MemoryPath) → IsPlain (read path memories))
      → Lived platform
          (record { memories = memories; events = []; receipts = []; journals = []; backups = [] })
  called :
      {x : Disk} (request : Request) (call : Call) (fs : List Fault)
      → Lived platform x
      → IsFresh (transaction_id platform (source_in request) call) (repaired x)
      → Lived platform (perform platform request call (record { disk = x; faults = fs })).1.disk
  opened :
      {x : Disk} (fs : List Fault)
      → Lived platform x
      → Lived platform (recover_pending_transactions (record { disk = x; faults = fs })).1.disk
