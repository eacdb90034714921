-- ===== src/Store/Transaction/Apply.antt =====
-- `_apply_mutation` from a disk that is ready for it.
use agent_global_context.Prelude.{◌≡◌, refl, Bool, true, false, String, Option, none, some}
use agent_global_context.Files.{read, exists, string_eq}
use agent_global_context.Utf8.{normalized, normalized_idem}
use agent_global_context.Effects.Runs.{
  Runs, Runs-pure, Runs-gets, Runs-lift, Runs-fetch, Runs-modify, Runs-bind, Runs-on_raise, Repairs,
}
use agent_global_context.Store.Disk.{Disk, path_eq}
use agent_global_context.Store.Transaction.{
  Mutation, back_up, begin_transaction, mutate, rollback_transaction, apply_mutation,
}
use agent_global_context.Store.Transaction.Stages.{
  IsReady, is_there, backup_of, closed, partial, finished, committed, disk_of, Recoverable,
}
use agent_global_context.Store.Transaction.Undo.{
  Runs-cleanup_committed, Runs-rollback, plain_target,
}

-- Where the body of the `try` can stop.
abbrev Started : Disk → Mutation → Option String → Disk → Type 0
Started d m old x = (t : Bool) × (e : Bool) × (x ≡ disk_of d m old (partial t e))

module _ (d : Disk) (m : Mutation) where
  exists-is_there :
      (old : Option String)
      → read m.target d.memories ≡ old
      → exists m.target d.memories ≡ is_there old
  exists-is_there none there = rw (there, exists) refl
  exists-is_there (some text) there = rw (there, exists) refl

module _ (d : Disk) (m : Mutation) (ready : IsReady d m) where
  rollback_repairs :
      (old : Option String)
      → read m.target d.memories ≡ old
      → Repairs
          (rollback_transaction m.transaction_id
            (backup_of m old)
            m.target
            (is_there old)
            m.transaction_id
            m.source)
          (Started d m old)
          (Recoverable d m old)
  rollback_repairs old there x (t, e, at) =
      rw at (
        disk_of d m old (closed false),
        Runs-rollback d m ready old there t e,
        (closed false, refl),
      )

module _ {calm : Bool} (d : Disk) (m : Mutation) (ready : IsReady d m) where
  Runs-back_up :
      (text : String)
      → read m.target d.memories ≡ some text
      → Runs calm
          (disk_of d m (some text) (closed false))
          (back_up m.transaction_id m.target)
          (some m.transaction_id)
          (disk_of d m (some text) (closed true))
          (Recoverable d m (some text))
  unfolding back_up
  Runs-back_up text there =
      Runs-bind _ _ (Runs-bind _ _ (Runs-fetch (closed false, refl) _) (Runs-lift text (cc there)))
        (Runs-bind _ _ (Runs-modify (closed false, refl) _ (cc (plain_target d m ready text there)))
          (Runs-pure (some m.transaction_id)))

  Runs-begin :
      (old : Option String)
      → read m.target d.memories ≡ old
      → Runs calm
          (disk_of d m old (closed false))
          (begin_transaction m.transaction_id m.target m.source m.transaction_id)
          (backup_of m old)
          (disk_of d m old (partial false false))
          (Recoverable d m old)
  unfolding begin_transaction
  Runs-begin none absent = Runs-bind _ _ (Runs-gets _) (
      rw (absent, exists)
        (Runs-bind _ _ (Runs-pure none) (
          Runs-bind _ _ (Runs-gets _) (
            rw (absent, exists)
              (Runs-bind _ _ (Runs-modify (closed false, refl) _ refl) (Runs-pure none))))))
  Runs-begin (some text) there = Runs-bind _ _ (Runs-gets _) (
      rw (there, exists)
        (Runs-bind _ _ (Runs-back_up text there) (
          Runs-bind _ _ (Runs-gets _) (
            rw (there, exists)
              (Runs-bind _ _ (Runs-modify (closed true, refl) _ refl)
                (Runs-pure (some m.transaction_id)))))))

  Runs-mutate :
      (old : Option String)
      → Runs calm
          (disk_of d m old (partial false false))
          (mutate m)
          tt
          (disk_of d m old (committed true))
          (Started d m old)
  unfolding mutate
  Runs-mutate old =
      Runs-bind _ _ (Runs-modify (false, false, refl) _ (cc (normalized_idem m.text))) (
        Runs-bind _ _
          (Runs-bind _ _ (Runs-fetch (true, false, refl) _)
            (rw ready.event_new (Runs-modify (true, false, refl) _ refl)))
          (Runs-modify (true, true, refl) _ (cc ready.receipts_read)))

  -- A mutation that is not interrupted returns the digest of its text and leaves all of its effect;
  -- one that fails or dies leaves a disk that the next recovery repairs.
  pub Runs-apply_mutation :
      (sha256 : String → String) (old : Option String)
      → read m.target d.memories ≡ old
      → Runs calm
          (disk_of d m old (closed false))
          (apply_mutation sha256 m)
          (sha256 (normalized m.text))
          (disk_of d m old finished)
          (Recoverable d m old)
  unfolding apply_mutation
  Runs-apply_mutation sha256 old there = Runs-bind _ _ (Runs-gets _) (
      Runs-bind _ _ (Runs-begin old there) (
        Runs-bind _ _
          (Runs-on_raise _ _ (Runs-mutate old)
            (rw (exists-is_there d m old there) (rollback_repairs d m ready old there))
            (λ x (t, e, at). (partial t e, at)))
          (Runs-bind _ _ (Runs-cleanup_committed d m ready true old) (Runs-pure _))))
