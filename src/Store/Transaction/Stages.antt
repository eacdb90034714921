-- ===== src/Store/Transaction/Stages.antt =====
-- The disks that a mutation and its undoing pass through.
use agent_global_context.Prelude.{
  ◌≡◌, Bool, true, false, String, Option, none, some, List, [], ◌∷◌, ◌++◌, if◌then◌else◌,
}
use agent_global_context.Result.{ok}
use agent_global_context.Files.{read, write, string_eq}
use agent_global_context.Utf8.{normalized, HasPlainLines}
use agent_global_context.Store.Disk.{Disk, path_eq, Receipt, Journal}
use agent_global_context.Store.Events.{has_event}
use agent_global_context.Store.Receipts.{source_was_recorded_in, validate_source_key}
use agent_global_context.Store.Transaction.{Mutation, event_of}

abbrev pub IsPlain : Option String → Type 0
IsPlain none = Unit
IsPlain (some text) = HasPlainLines text

-- A mutation that a disk can take: no transaction is pending, its source is valid and not recorded,
-- the registry is the one that was read, and its transaction id names nothing yet.
pub record IsReady (d : Disk) (m : Mutation) : Type 0 where
  pub no_journals : d.journals ≡ []
  pub source_valid : validate_source_key m.source ≡ ok tt
  pub source_new : source_was_recorded_in d.receipts m.source ≡ false
  pub receipts_read : m.receipts ≡ d.receipts
  pub event_new : has_event m.transaction_id d.events ≡ false
  pub backup_new : read m.transaction_id d.backups ≡ none
  pub target_plain : IsPlain (read m.target d.memories)

abbrev pub receipt_of : Mutation → Receipt
receipt_of m = record {
  source = m.source;
  object_id = m.object_id;
  action = m.action;
  recorded_at = m.timestamp;
  event_id = m.transaction_id;
}

abbrev pub is_there : Option String → Bool
is_there none = false
is_there (some _) = true

abbrev pub backup_of : Mutation → Option String → Option String
backup_of m none = none
backup_of m (some _) = some m.transaction_id

-- `old` is what the target held before.
abbrev pub journal_of : Mutation → Option String → Journal
journal_of m old = record {
  transaction_id = m.transaction_id;
  target = m.target;
  target_existed = is_there old;
  backup = backup_of m old;
  event_id = m.transaction_id;
  source = m.source;
}

-- How far a transaction has come: is the backup there, the target written, the event logged, the
-- source recorded, and the journal open?
pub record Stage : Type 0 where
  pub backed : Bool
  pub written : Bool
  pub logged : Bool
  pub recorded : Bool
  pub open_journal : Bool

abbrev pub saved : Disk → Mutation → Option String → List (String × String)
saved d m none = d.backups
saved d m (some text) = write m.transaction_id text d.backups

abbrev pub disk_at : Disk → Mutation → Option String → Stage → Disk
disk_at d m old g = record {
  memories = if g.written then write m.target (normalized m.text) d.memories else d.memories;
  events = if g.logged then d.events ++ event_of m ∷ [] else d.events;
  receipts = if g.recorded then d.receipts ++ receipt_of m ∷ [] else d.receipts;
  journals = if g.open_journal then (m.transaction_id, journal_of m old) ∷ [] else [];
  backups = if g.backed then saved d m old else d.backups;
}

-- Where a mutation may stop. `closed`: no journal, nothing done, and perhaps a backup. `partial`: the
-- journal is open and the source is not recorded. `unbacked`: all is undone and the backup is gone.
-- `committed`: all is done. `finished`: and the journal is gone.
pub data Phase : Type 0 where
  closed : Bool → Phase
  partial : Bool → Bool → Phase
  unbacked finished : Phase
  committed : Bool → Phase

abbrev pub stage_of : Phase → Stage
stage_of (closed b) = record {
  backed = b;
  written = false;
  logged = false;
  recorded = false;
  open_journal = false;
}
stage_of (partial t e) = record {
  backed = true;
  written = t;
  logged = e;
  recorded = false;
  open_journal = true;
}
stage_of unbacked = record {
  backed = false;
  written = false;
  logged = false;
  recorded = false;
  open_journal = true;
}
stage_of (committed b) = record {
  backed = b;
  written = true;
  logged = true;
  recorded = true;
  open_journal = true;
}
stage_of finished = record {
  backed = false;
  written = true;
  logged = true;
  recorded = true;
  open_journal = false;
}

abbrev pub disk_of : Disk → Mutation → Option String → Phase → Disk
disk_of d m old ph = disk_at d m old (stage_of ph)

-- A disk that the next recovery repairs.
abbrev pub Recoverable : Disk → Mutation → Option String → Disk → Type 0
Recoverable d m old x = (ph : Phase) × (x ≡ disk_of d m old ph)
