-- ===== src/Store/Calls/Recoveries.antt =====
-- What a recovery makes of the disk that calls have left.
use agent_global_context.Prelude.{
  ◌≡◌, refl, sym, ap, ◌∙◌, subst, ◌⊎◌, inl, inr, String, Option, some, Bool, true, false, List, [],
  if◌then◌else◌,
}
use agent_global_context.Files.{Files, read, read-write, string_eq}
use agent_global_context.Utf8.{normalized, normalized-HasPlainLines}
use agent_global_context.Effects.{Fault, Machine, Outcome, done, raised, died}
use agent_global_context.Effects.Runs.{Ends, Runs-calm}
use agent_global_context.Effects.Meets.{Leaves-when, Meets}
use agent_global_context.Store.Disk.{Disk, MemoryPath, path_eq}
use agent_global_context.Store.Transaction.{Mutation, recover_pending_transactions}
use agent_global_context.Store.Transaction.Stages.{IsReady, IsPlain}
use agent_global_context.Store.Transaction.Atomicity.{
  SameMemory, mutated, Interrupted, recovery, recovers, Interrupted-Recoverable, recover-atomic,
  done-Ends,
}
use agent_global_context.Store.Methods.Idempotence.{NoLoss, Runs-recover_nothing}
use agent_global_context.Store.History.{repaired, IsConsistent, session-IsConsistent}
use agent_global_context.Store.Calls.{IsPlainStore}

Ends-same :
    (x : Disk) (r : Outcome (Unit {0})) (s : Machine Disk)
    → Ends false tt x (λ y. y ≡ x) r s
    → s.disk ≡ x
Ends-same x (done b) s h = h.1
Ends-same x (raised e) s h = h.1
Ends-same x died s h = h.1

-- No transaction is pending, and all is in order.
pub record IsSettled (d : Disk) : Type 0 where
  pub consistent : IsConsistent d
  pub plain : IsPlainStore d

-- The disk is settled, or a mutation of a settled disk was broken off and not recovered.
abbrev pub IsSound : (String → String) → Disk → Type 0
IsSound sha256 x =
    (d : Disk) × IsSettled d × ((x ≡ d) ⊎ ((m : Mutation) × IsReady d m × Interrupted sha256 d m x))

abbrev pub settled_sound : (sha256 : String → String) (d : Disk) → IsSettled d → IsSound sha256 d
settled_sound sha256 d h = (d, h, inl refl)

IsPlain-choice :
    (c : Bool) (text : String) (old : Option String)
    → IsPlain old
    → IsPlain (if c then some (normalized text) else old)
IsPlain-choice true text old h = normalized-HasPlainLines text
IsPlain-choice false text old h = h

IsPlainStore-mutated : (d : Disk) (m : Mutation) → IsPlainStore d → IsPlainStore (mutated d m)
IsPlainStore-mutated d m h path =
    subst IsPlain (sym (read-write m.target path (normalized m.text) d.memories))
      (IsPlain-choice _ m.text (read path d.memories) (h path))

module _ (sha256 : String → String) where
  module _ (d : Disk) (m : Mutation) (settled : IsSettled d) (ready : IsReady d m) where
    IsSettled-session :
        (y : Disk) → y.journals ≡ [] → SameMemory y d ⊎ SameMemory y (mutated d m) → IsSettled y
    IsSettled-session y none_pending view = record {
      consistent = session-IsConsistent d m ready settled.consistent y none_pending view;
      plain = elim view [
        | inl same ↦ λ path.
            subst (λ (ms : Files MemoryPath String). IsPlain (read path ms)) (sym same.memories)
              (settled.plain path)
        | inr same ↦ λ path.
            subst (λ (ms : Files MemoryPath String). IsPlain (read path ms)) (sym same.memories)
              (IsPlainStore-mutated d m settled.plain path)
      ];
    }

  repaired-settled : (d : Disk) → IsSettled d → repaired d ≡ d
  repaired-settled d h =
      ap (λ (t : Outcome (Unit {0}) × Machine Disk). t.1.disk)
        (Runs-calm _ (Runs-recover_nothing {calm = true} {R = NoLoss} d h.consistent.settled))

  pub repaired-IsSettled : (x : Disk) → IsSound sha256 x → IsSettled (repaired x)
  repaired-IsSettled x (d, h, inl at) =
      subst IsSettled (sym (ap repaired at ∙ repaired-settled d h)) h
  repaired-IsSettled x (d, h, inr (m, ready, broken)) =
      let after = recover-atomic sha256 d m ready broken in
      IsSettled-session d m h ready (repaired x) after.1 after.2

  -- A recovery that returns leaves what one with no fault would leave.
  recovered_alike :
      (x : Disk) (fs : List Fault) (u : Unit {0})
      → IsSound sha256 x
      → (recover_pending_transactions (record { disk = x; faults = fs })).0 ≡ done u
      → (recover_pending_transactions (record { disk = x; faults = fs })).1.disk ≡ repaired x
  recovered_alike x fs u (d, h, inl at) e =
      let s = recover_pending_transactions (record { disk = x; faults = fs }) in
      let pending = ap (λ (y : Disk). y.journals) at ∙ h.consistent.settled in
      done-Ends _ _ _ _ s.0 s.1 e
        ((Runs-recover_nothing {calm = false} {R = NoLoss} x pending).at fs tt)
      ∙ sym (
          ap (λ (t : Outcome (Unit {0}) × Machine Disk). t.1.disk)
            (Runs-calm _ (Runs-recover_nothing {calm = true} {R = NoLoss} x pending)))
  recovered_alike x fs u (d, h, inr (m, ready, broken)) e =
      let s = recover_pending_transactions (record { disk = x; faults = fs }) in
      let k = Interrupted-Recoverable sha256 d m ready broken in
      done-Ends _ _ _ _ s.0 s.1 e ((recovers sha256 d m ready {calm = false} k).at fs tt)
      ∙ sym (
          ap (λ (t : Outcome (Unit {0}) × Machine Disk). t.1.disk)
            (Runs-calm _ (recovers sha256 d m ready {calm = true} k)))

  pub recover-IsSound :
      (x : Disk) (fs : List Fault)
      → IsSound sha256 x
      → IsSound sha256 (recover_pending_transactions (record { disk = x; faults = fs })).1.disk
  recover-IsSound x fs (d, h, inr (m, ready, broken)) = (d, h, inr (m, ready, recovery broken fs))
  recover-IsSound x fs (d, h, inl at) =
      let s = recover_pending_transactions (record { disk = x; faults = fs }) in
      let pending = ap (λ (y : Disk). y.journals) at ∙ h.consistent.settled in
      let same =
        Ends-same x s.0 s.1
          ((Runs-recover_nothing {calm = false} {R = λ y. y ≡ x} x pending).at fs tt) in
      (d, h, inl (same ∙ at))

  pub Meets-recover :
      (x : Disk)
      → IsSound sha256 x
      → Meets
          (IsSound sha256)
          (λ _ y. (y ≡ repaired x) × IsSettled y)
          x
          recover_pending_transactions
  Meets-recover x h = record {
    at = λ fs.
        let s = recover_pending_transactions (record { disk = x; faults = fs }) in
        Leaves-when (IsSound sha256) _ s (recover-IsSound x fs h) (λ u e.
          let same = recovered_alike x fs u h e in
          (same, subst IsSettled (sym same) (repaired-IsSettled x h)));
  }
