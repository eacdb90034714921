-- ===== src/Store/Archive.antt =====
-- What the store promises, with no files: a text under each path and a log. A mutation is one step.
use agent_global_context.Prelude.{
  ◌≡◌, refl, ap, ◌∙◌, ◌⊎◌, inl, inr, String, Option, some, List, [], ◌∷◌, ◌++◌, if◌then◌else◌,
}
use mathlib.Core.Path.{fun_ext}
use agent_global_context.Files.{Files, read, read-write}
use agent_global_context.Utf8.{normalized}
use agent_global_context.Store.Disk.{Disk, MemoryPath, path_eq, same_path, MemoryEvent}
use agent_global_context.Store.Transaction.{Mutation, event_of}
use agent_global_context.Store.Transaction.Atomicity.{SameMemory, mutated, recover-atomic}
use agent_global_context.Store.History.{History, start, session, repaired}

pub record Archive : Type 0 where
  pub texts : MemoryPath → Option String
  pub log : List MemoryEvent

abbrev pub commit : Mutation → Archive → Archive
commit m a = record {
  texts = λ path. if same_path m.target path then some (normalized m.text) else a.texts path;
  log = a.log ++ event_of m ∷ [];
}

-- The mutations, the last one first.
abbrev pub replay : List Mutation → Archive → Archive
replay [] a = a
replay (m ∷ ms) a = commit m (replay ms a)

abbrev pub view : Disk → Archive
view d = record { texts = λ path. read path d.memories; log = d.events }

-- Some of the items, in their order.
pub data IsPart {A : Type 0} : List A → List A → Type 0 where
  none_left : IsPart [] []
  kept : {xs ys : List A} (x : A) → IsPart xs ys → IsPart (x ∷ xs) (x ∷ ys)
  skipped : {xs ys : List A} (x : A) → IsPart xs ys → IsPart xs (x ∷ ys)

module _ (sha256 : String → String) where
  pub attempted : {d : Disk} → History sha256 d → List Mutation
  attempted (start memories) = []
  attempted (session m h ready broken) = m ∷ attempted h

  pub initial : {d : Disk} → History sha256 d → Files MemoryPath String
  initial (start memories) = memories
  initial (session m h ready broken) = initial h

archive_path :
    (f g : MemoryPath → Option String) (xs ys : List MemoryEvent)
    → f ≡ g
    → xs ≡ ys
    → ◌≡◌ {A = Archive} (record { texts = f; log = xs }) (record { texts = g; log = ys })
archive_path f g xs ys p q = λ i. record { texts = p i; log = q i }

view-mutated : (d : Disk) (m : Mutation) → view (mutated d m) ≡ commit m (view d)
view-mutated d m =
    archive_path _ _ _ _ (fun_ext (λ path. read-write m.target path (normalized m.text) d.memories))
      refl

same-view : (x y : Disk) → SameMemory x y → view x ≡ view y
same-view x y same =
    archive_path _ _ _ _
      (ap {B = MemoryPath → Option String} (λ ms path. read path ms) same.memories) same.events

-- The disk `d` shows what some of the mutations that were attempted do, one after the other.
abbrev pub Shows : Disk → List Mutation → Archive → Type 0
Shows d ms a = (done_ones : List Mutation) × IsPart done_ones ms × (view d ≡ replay done_ones a)

Shows-session :
    (d y : Disk) (m : Mutation) (ms : List Mutation) (a : Archive)
    → SameMemory y d ⊎ SameMemory y (mutated d m)
    → Shows d ms a
    → Shows y (m ∷ ms) a
Shows-session d y m ms a (inl same) (ks, part, shown) =
    (ks, skipped m part, same-view y d same ∙ shown)
Shows-session d y m ms a (inr same) (ks, part, shown) =
    (m ∷ ks, kept m part, same-view y (mutated d m) same ∙ view-mutated d m ∙ ap (commit m) shown)

-- The store refines the archive: after any history of mutations that may fail or die anywhere, the
-- disk shows what the archive holds once some of these mutations were committed to it, each whole and
-- in the order in which they were made.
pub History-replay :
    (sha256 : String → String) {d : Disk} (h : History sha256 d)
    → Shows d
        (attempted sha256 h)
        (record { texts = λ path. read path (initial sha256 h); log = [] })
unfolding attempted initial
History-replay sha256 (start memories) = ([], none_left, refl)
History-replay sha256 (session {d} {x} m h ready broken) =
    Shows-session d (repaired x) m (attempted sha256 h) _ (recover-atomic sha256 d m ready broken).2
      (History-replay sha256 h)
