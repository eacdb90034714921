-- ===== src/Store/Transaction.antt =====
-- Mutations with a journal (`_transaction_id` to `_apply_mutation` of agc_runtime/store.py).
pub mod Stages
pub mod Undo
pub mod Recovery
pub mod Apply
pub mod Atomicity
use Prim.Native.String.{◌++◌ as ◌⧺◌}
use agent_global_context.Prelude.{
  Bool, true, false, not, ◌&&◌, String, Option, none, some, List, [], ◌∷◌, if◌then◌else◌,
}
use agent_global_context.Result.{Result, ok, err, file_not_found}
use agent_global_context.Files.{Files, read, exists, write, unlink}
use agent_global_context.Utf8.{normalized}
use agent_global_context.Effects.{M, pure, gets, lift, fetch, modify, on_raise, ◌>>=◌, ◌>>◌}
use agent_global_context.Models.{SourceKey}
use agent_global_context.Store.Disk.{Disk, MemoryPath, path_eq, MemoryEvent, Receipt, Journal}
use agent_global_context.Store.Events.{append_event, remove_event, event_exists}
use agent_global_context.Store.Receipts.{record_source, remove_source_receipt, source_was_recorded}
use agent_global_context.Files.{string_eq}

abbrev pub or_missing : Option String → String → Result String
or_missing none name = err (file_not_found name [])
or_missing (some text) name = ok text

unfoldable pub read_memory : MemoryPath → M Disk String
read_memory target = do text ← fetch (λ d. read target d.memories); lift (or_missing text target.id)

unfoldable pub write_memory : MemoryPath → String → M Disk Unit
write_memory target text =
    modify (λ d. record d { memories = write target (normalized text) d.memories })

unfoldable pub unlink_memory : MemoryPath → M Disk Unit
unlink_memory target = modify (λ d. record d { memories = unlink target d.memories })

unfoldable pub write_backup : String → String → M Disk Unit
write_backup name text = modify (λ d. record d { backups = write name (normalized text) d.backups })

unfoldable pub read_backup : String → M Disk String
read_backup name = do text ← fetch (λ d. read name d.backups); lift (or_missing text name)

unfoldable pub unlink_backup : String → M Disk Unit
unlink_backup name = modify (λ d. record d { backups = unlink name d.backups })

unfoldable pub write_journal : Journal → M Disk Unit
write_journal journal =
    modify (λ d. record d { journals = write journal.transaction_id journal d.journals })

unfoldable pub unlink_journal : String → M Disk Unit
unlink_journal name = modify (λ d. record d { journals = unlink name d.journals })

unfoldable pub target_exists : MemoryPath → M Disk Bool
target_exists target = gets (λ d. exists target d.memories)

back_up : String → MemoryPath → M Disk (Option String)
unfolding read_memory write_backup
back_up transaction_id target = do
  text ← read_memory target
  write_backup transaction_id text
  pure (some transaction_id)

-- Returns the backup; the journal is named by the transaction.
unfoldable pub begin_transaction : String → MemoryPath → SourceKey → String → M Disk (Option String)
unfolding back_up write_journal target_exists
begin_transaction transaction_id target source event_id = do
  there ← target_exists target
  backup ← if there then back_up transaction_id target else pure none
  target_existed ← target_exists target
  write_journal (record {
    transaction_id = transaction_id;
    target = target;
    target_existed = target_existed;
    backup = backup;
    event_id = event_id;
    source = source;
  })
  pure backup

cleanup_backup : Option String → M Disk Unit
unfolding unlink_backup
cleanup_backup none = pure tt
cleanup_backup (some name) = unlink_backup name

unfoldable pub cleanup_transaction : String → Option String → M Disk Unit
unfolding cleanup_backup unlink_journal
cleanup_transaction journal backup = do cleanup_backup backup; unlink_journal journal

-- `backup and backup.exists()`
backup_exists : Option String → M Disk Bool
backup_exists none = pure false
backup_exists (some name) = gets (λ d. exists name d.backups)

restore_from : Option String → MemoryPath → M Disk Unit
unfolding read_backup write_memory
restore_from none target = pure tt
restore_from (some name) target = do text ← read_backup name; write_memory target text

restore_target : Option String → MemoryPath → Bool → M Disk Unit
unfolding backup_exists restore_from unlink_memory
restore_target backup target target_existed = do
  there ← backup_exists backup
  if target_existed && there
      then restore_from backup target
      else if not target_existed
      then unlink_memory target
      else pure tt

unfoldable pub rollback_transaction :
    String → Option String → MemoryPath → Bool → String → SourceKey → M Disk Unit
unfolding restore_target remove_event remove_source_receipt cleanup_transaction
rollback_transaction journal backup target target_existed event_id source = do
  restore_target backup target target_existed
  remove_event event_id
  remove_source_receipt source
  cleanup_transaction journal backup

-- `a and b`, where `b` is computed only if `a` holds
and_then : Bool → M Disk Bool → M Disk Bool
and_then a b = if a then b else pure false

is_committed : Journal → M Disk Bool
unfolding and_then target_exists event_exists source_was_recorded
is_committed j = do
  there ← target_exists j.target
  logged ← and_then there (event_exists j.event_id)
  and_then logged (source_was_recorded j.source)

recover_journal : Journal → M Disk Unit
unfolding is_committed cleanup_transaction rollback_transaction
recover_journal j = do
  committed ← is_committed j
  if committed
      then cleanup_transaction j.transaction_id j.backup
      else rollback_transaction j.transaction_id j.backup j.target j.target_existed j.event_id
          j.source

recover_journals : Files String Journal → M Disk Unit
unfolding recover_journal
recover_journals [] = pure tt
recover_journals ((name, j) ∷ rest) = do recover_journal j; recover_journals rest

unfoldable pub recover_pending_transactions : M Disk Unit
unfolding recover_journals
recover_pending_transactions = do journals ← gets (λ d. d.journals); recover_journals journals

-- What a mutation is asked to do. `transaction_id` is `_transaction_id(source)`, which is new each
-- time; it names the event too.
pub record Mutation : Type 0 where
  pub target : MemoryPath
  pub text : String
  pub source : SourceKey
  pub object_id : String
  pub action : String
  pub old_lifecycle : Option String
  pub new_lifecycle : Option String
  pub timestamp : String
  pub receipts : List Receipt
  pub transaction_id : String

abbrev pub event_of : Mutation → MemoryEvent
event_of m = record {
  event_id = m.transaction_id;
  object_id = m.object_id;
  action = m.action;
  old_lifecycle = m.old_lifecycle;
  new_lifecycle = m.new_lifecycle;
  timestamp = m.timestamp;
  source = m.source;
}

mutate : Mutation → M Disk Unit
unfolding write_memory append_event record_source
mutate m = do
  write_memory m.target (normalized m.text)
  append_event (event_of m)
  record_source m.receipts m.source m.object_id m.action m.timestamp m.transaction_id

module _ (sha256 : String → String) where
  -- Returns the digest of the text that was written.
  unfoldable pub apply_mutation : Mutation → M Disk String
  unfolding target_exists begin_transaction mutate rollback_transaction cleanup_transaction
  apply_mutation m = do
    target_existed ← target_exists m.target
    backup ← begin_transaction m.transaction_id m.target m.source m.transaction_id
    on_raise (mutate m) (
        rollback_transaction m.transaction_id backup m.target target_existed m.transaction_id
          m.source)
    cleanup_transaction m.transaction_id backup
    pure (sha256 (normalized m.text))
