-- ===== src/Store/Transaction/Atomicity.antt =====
-- Crash safety of `_apply_mutation` together with `_recover_pending_transactions`.
use agent_global_context.Prelude.{
  ◌≡◌, ap, ◌⊎◌, inl, inr, refl, sym, Bool, true, false, String, Option, List, [], ◌∷◌, ◌++◌, subst,
}
use agent_global_context.Files.{read, write}
use agent_global_context.Utf8.{normalized}
use agent_global_context.Effects.{Fault, Machine, Outcome, done, raised, died}
use agent_global_context.Effects.Runs.{Runs, Ends, Runs-calm}
use agent_global_context.Store.Disk.{Disk, path_eq}
use agent_global_context.Store.Transaction.{
  Mutation, event_of, apply_mutation, recover_pending_transactions,
}
use agent_global_context.Store.Transaction.Stages.{
  IsReady, receipt_of, Phase, closed, partial, unbacked, finished, committed, disk_of, Recoverable,
}
use agent_global_context.Store.Transaction.Recovery.{recovered, Runs-recover}
use agent_global_context.Store.Transaction.Apply.{Runs-apply_mutation}

-- What readers see of the formal memory.
pub record SameMemory (a b : Disk) : Type 0 where
  pub memories : a.memories ≡ b.memories
  pub events : a.events ≡ b.events
  pub receipts : a.receipts ≡ b.receipts

-- The disk with the whole effect of a mutation: the text, one event and one receipt.
abbrev pub mutated : Disk → Mutation → Disk
mutated d m = record d {
  memories = write m.target (normalized m.text) d.memories;
  events = d.events ++ event_of m ∷ [];
  receipts = d.receipts ++ receipt_of m ∷ [];
}

-- The disks that a mutation leaves whatever fails in it, and that recoveries leave after it whatever
-- fails in them.
pub data Interrupted (sha256 : String → String) (d : Disk) (m : Mutation) : Disk → Type 0 where
  mutation :
      (fs : List Fault)
      → Interrupted sha256 d m (apply_mutation sha256 m (record { disk = d; faults = fs })).1.disk
  recovery :
      {x : Disk}
      → Interrupted sha256 d m x
      → (fs : List Fault)
      → Interrupted sha256 d m
          (recover_pending_transactions (record { disk = x; faults = fs })).1.disk

abbrev old_text : Disk → Mutation → Option String
old_text d m = read m.target d.memories

module _ (d : Disk) (m : Mutation) where
  start_closed : d.journals ≡ [] → disk_of d m (old_text d m) (closed false) ≡ d
  start_closed h = cc

  finished_mutated : d.journals ≡ [] → disk_of d m (old_text d m) finished ≡ mutated d m
  finished_mutated h = cc

  Ends-Recoverable :
      {A : Type 0} (a : A) (y : Disk) (r : Outcome A) (s : Machine Disk)
      → Recoverable d m (old_text d m) y
      → Ends false a y (Recoverable d m (old_text d m)) r s
      → Recoverable d m (old_text d m) s.disk
  Ends-Recoverable a y (done b) s k h = rw h.1 k
  Ends-Recoverable a y (raised e) s k h = h.1
  Ends-Recoverable a y died s k h = h.1

module _ (sha256 : String → String) (d : Disk) (m : Mutation) (ready : IsReady d m) where
  apply_runs :
      {calm : Bool}
      → Runs calm d
          (apply_mutation sha256 m)
          (sha256 (normalized m.text))
          (disk_of d m (old_text d m) finished)
          (Recoverable d m (old_text d m))
  apply_runs {calm} =
      subst
        (λ x.
          Runs calm x (apply_mutation sha256 m) (sha256 (normalized m.text))
            (disk_of d m (old_text d m) finished) (Recoverable d m (old_text d m)))
        (start_closed d m ready.no_journals)
        (Runs-apply_mutation d m ready sha256 (old_text d m) refl)

  pub apply_runs-mutated :
      {calm : Bool}
      → Runs calm d
          (apply_mutation sha256 m)
          (sha256 (normalized m.text))
          (mutated d m)
          (Recoverable d m (old_text d m))
  apply_runs-mutated {calm} =
      subst
        (λ y.
          Runs calm d (apply_mutation sha256 m) (sha256 (normalized m.text)) y
            (Recoverable d m (old_text d m)))
        (finished_mutated d m ready.no_journals) apply_runs

  pub recovers :
      {calm : Bool} {x : Disk} (k : Recoverable d m (old_text d m) x)
      → Runs calm x recover_pending_transactions tt
          (disk_of d m (old_text d m) (recovered k.0))
          (Recoverable d m (old_text d m))
  recovers {calm} {x} (ph, at) =
      subst
        (λ y.
          Runs calm y recover_pending_transactions tt (disk_of d m (old_text d m) (recovered ph))
            (Recoverable d m (old_text d m)))
        (sym at) (Runs-recover d m ready (old_text d m) refl ph)

  pub Interrupted-Recoverable :
      {x : Disk} → Interrupted sha256 d m x → Recoverable d m (old_text d m) x
  Interrupted-Recoverable (mutation fs) =
      let s = apply_mutation sha256 m (record { disk = d; faults = fs }) in
      Ends-Recoverable d m _ _ s.0 s.1 (finished, refl) ((apply_runs {calm = false}).at fs tt)
  Interrupted-Recoverable (recovery {x} i fs) =
      let k = Interrupted-Recoverable i in
      let s = recover_pending_transactions (record { disk = x; faults = fs }) in
      Ends-Recoverable d m _ _ s.0 s.1 (recovered k.0, refl) ((recovers {calm = false} k).at fs tt)

module _ (d : Disk) (m : Mutation) (x : Disk) where
  undone_view :
      (b : Bool)
      → x ≡ disk_of d m (old_text d m) (closed b)
      → (x.journals ≡ []) × (SameMemory x d ⊎ SameMemory x (mutated d m))
  undone_view b h =
      (ap (λ (y : Disk). y.journals) h, inl (record { memories = cc; events = cc; receipts = cc }))

  finished_view :
      x ≡ disk_of d m (old_text d m) finished
      → (x.journals ≡ []) × (SameMemory x d ⊎ SameMemory x (mutated d m))
  finished_view h =
      (ap (λ (y : Disk). y.journals) h, inr (record { memories = cc; events = cc; receipts = cc }))

  recovered_view :
      (ph : Phase)
      → x ≡ disk_of d m (old_text d m) (recovered ph)
      → (x.journals ≡ []) × (SameMemory x d ⊎ SameMemory x (mutated d m))
  recovered_view (closed b) h = undone_view b h
  recovered_view (partial t e) h = undone_view false h
  recovered_view unbacked h = undone_view false h
  recovered_view finished h = finished_view h
  recovered_view (committed b) h = finished_view h

-- A mutation of a ready disk is all or nothing: whatever calls failed in it, and in any number of
-- recoveries after it, and wherever the process died, one more recovery that meets no fault returns,
-- leaves no journal, and leaves the memories, events and receipts either all as they were before the
-- mutation or all as it leaves them.
pub recover-atomic :
    (sha256 : String → String) (d : Disk) (m : Mutation) {x : Disk}
    → IsReady d m
    → Interrupted sha256 d m x
    → let (r, s) = recover_pending_transactions (record { disk = x; faults = [] }) in
      (r ≡ done tt)
      × (s.disk.journals ≡ [])
      × (SameMemory s.disk d ⊎ SameMemory s.disk (mutated d m))
recover-atomic sha256 d m {x} ready i =
    let k = Interrupted-Recoverable sha256 d m ready i in
    let s = recover_pending_transactions (record { disk = x; faults = [] }) in
    let calm = Runs-calm _ (recovers sha256 d m ready {calm = true} k) in
    let view =
      recovered_view d m s.1.disk k.0
        (ap (λ (t : Outcome (Unit {0}) × Machine Disk). t.1.disk) calm) in
    (ap (λ (t : Outcome (Unit {0}) × Machine Disk). t.0) calm, view.0, view.1)

-- A mutation of a ready disk that meets no fault returns the digest of the text that it wrote, and
-- leaves the text, one more event and one more receipt, and nothing else: no journal and no backup.
pub apply_mutation-mutated :
    (sha256 : String → String) (d : Disk) (m : Mutation)
    → IsReady d m
    → apply_mutation sha256 m (record { disk = d; faults = [] })
      ≡ (done (sha256 (normalized m.text)), record { disk = mutated d m; faults = [] })
apply_mutation-mutated sha256 d m ready = Runs-calm _ (apply_runs-mutated sha256 d m ready)

pub done-Ends :
    {A : Type 0} (a b : A) (y : Disk) (R : Disk → Type 0) (r : Outcome A) (s : Machine Disk)
    → r ≡ done b
    → Ends false a y R r s
    → s.disk ≡ y
done-Ends a b y R (done c) s e h = h.1
done-Ends a b y R (raised c) s e h = cc
done-Ends a b y R died s e h = cc

-- Whatever faults a mutation of a ready disk meets, if it returns, then its whole effect is on disk
-- and nothing is left to recover.
pub apply_mutation-durable :
    (sha256 : String → String) (d : Disk) (m : Mutation) (fs : List Fault) (digest : String)
    → IsReady d m
    → (apply_mutation sha256 m (record { disk = d; faults = fs })).0 ≡ done digest
    → (apply_mutation sha256 m (record { disk = d; faults = fs })).1.disk ≡ mutated d m
apply_mutation-durable sha256 d m fs digest ready h =
    let s = apply_mutation sha256 m (record { disk = d; faults = fs }) in
    let ends =
      done-Ends _ _ _ _ s.0 s.1 h ((apply_runs sha256 d m ready {calm = false}).at fs tt) in
    cc (ends, ready.no_journals)
