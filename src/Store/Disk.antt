-- ===== src/Store/Disk.antt =====
-- The files that a mutation of formal memory touches. A memory's path `memories/<kind>/<id>.md` is
-- the pair of its kind and its id.
use agent_global_context.Prelude.{
  ◌≡◌, ◌↔◌, Bool, true, ◌&&◌, String, Option, List, arith, ◌==◌, eq_iff,
}
use agent_global_context.Files.{Eq, Files}
use agent_global_context.Models.{SourceKey}

pub record MemoryPath : Type 0 where
  pub kind : String
  pub id : String

unfoldable pub same_path : MemoryPath → MemoryPath → Bool
same_path a b = a.kind == b.kind && a.id == b.id

pub same_path_iff : (a b : MemoryPath) → (same_path a b ≡ true) ↔ (a ≡ b)
unfolding same_path
same_path_iff a b = (
  λ h. ground (arith, eq_iff a.kind b.kind, eq_iff a.id b.id),
  λ h. ground (arith, eq_iff a.kind b.kind, eq_iff a.id b.id, h),
)

instance abbrev pub path_eq : Eq MemoryPath
path_eq = record { same = same_path; same_iff = same_path_iff }

-- events.MemoryEvent, one line of events.jsonl
pub record MemoryEvent : Type 0 where
  pub event_id : String
  pub object_id : String
  pub action : String
  pub old_lifecycle : Option String
  pub new_lifecycle : Option String
  pub timestamp : String
  pub source : SourceKey

-- One entry of source-keys.json.
pub record Receipt : Type 0 where
  pub source : SourceKey
  pub object_id : String
  pub action : String
  pub recorded_at : String
  pub event_id : String

-- The journal of a transaction; `backup` names a file of the backups.
pub record Journal : Type 0 where
  pub transaction_id : String
  pub target : MemoryPath
  pub target_existed : Bool
  pub backup : Option String
  pub event_id : String
  pub source : SourceKey

-- The event log and the receipt registry are lists of entries; no file is an empty list.
pub record Disk : Type 0 where
  pub memories : Files MemoryPath String
  pub events : List MemoryEvent
  pub receipts : List Receipt
  pub journals : Files String Journal
  pub backups : Files String String
