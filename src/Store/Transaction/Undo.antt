-- ===== src/Store/Transaction/Undo.antt =====
-- `_rollback_transaction` and `_cleanup_transaction` from every stage at which they are called.
use agent_global_context.Prelude.{
  ◌≡◌, refl, ℕ, ◌∙◌, Bool, true, false, String, Option, none, some, List, [], ◌∷◌, ◌++◌, arith, eqb,
  length, ◌==◌, eq_refl, keep_if-none, keep_if-append_last, length-append, if◌then◌else◌,
}
use agent_global_context.Files.{
  read, write, unlink, exists, string_eq, read-write, write-write, write-read, unlink-absent,
  unlink-write,
}
use agent_global_context.Utf8.{normalized, normalized-plain}
use agent_global_context.Effects.Runs.{
  Runs, Runs-pure, Runs-gets, Runs-lift, Runs-fetch, Runs-modify, Runs-bind,
}
use agent_global_context.Models.{SourceKey}
use agent_global_context.Store.Disk.{Disk, path_eq, Journal}
use agent_global_context.Store.Events.{has_event, remove_event}
use agent_global_context.Store.Receipts.{
  source_was_recorded_in, entry_matches_source, remove_source_receipt,
}
use agent_global_context.Store.Transaction.{
  Mutation, event_of, cleanup_transaction, restore_target, rollback_transaction,
}
use agent_global_context.Store.Transaction.Stages.{
  IsReady, journal_of, is_there, backup_of, closed, partial, unbacked, finished, committed, disk_of,
  Recoverable,
}

length-append_last {ℓ} :
    {A : Type ℓ} (xs : List A) (x : A) → eqb (length xs) (length (xs ++ x ∷ [])) ≡ false
length-append_last xs x = ground (arith, length-append xs (x ∷ []))

eqb_refl : (n : ℕ) → eqb n n ≡ true
eqb_refl n = ground arith

-- What was never logged or recorded is not removed.
module _ {calm : Bool} {R : Disk → Type 0} (x : Disk) (safe : R x) where
  Runs-remove_event_absent :
      (event_id : String)
      → has_event event_id x.events ≡ false
      → Runs calm x (remove_event event_id) tt x R
  unfolding remove_event
  Runs-remove_event_absent event_id absent =
      Runs-bind _ _ (Runs-fetch safe _)
        (rw (keep_if-none (λ v. v.event_id == event_id) x.events absent, eqb_refl) (Runs-pure tt))

  Runs-remove_receipt_absent :
      (source : SourceKey)
      → source_was_recorded_in x.receipts source ≡ false
      → Runs calm x (remove_source_receipt source) tt x R
  unfolding remove_source_receipt
  Runs-remove_receipt_absent source absent = Runs-bind _ _ (Runs-fetch safe _) (
      rw (keep_if-none (λ r. entry_matches_source r source) x.receipts absent, eqb_refl)
        (Runs-pure tt))

module _ (d : Disk) (m : Mutation) (ready : IsReady d m) where
  unlink_backup_undone :
      (t : String) → unlink m.transaction_id (write m.transaction_id t d.backups) ≡ d.backups
  unlink_backup_undone t = unlink-write m.transaction_id t d.backups ready.backup_new

  unlink_backup_absent : unlink m.transaction_id d.backups ≡ d.backups
  unlink_backup_absent = unlink-absent m.transaction_id d.backups ready.backup_new

  unlink_journal_last : (j : Journal) → unlink m.transaction_id ((m.transaction_id, j) ∷ []) ≡ []
  unlink_journal_last j = rw (eq_refl m.transaction_id)

  read_backup_saved :
      (t : String) → read m.transaction_id (write m.transaction_id t d.backups) ≡ some t
  read_backup_saved t = rw (read-write, eq_refl) refl

  exists_backup : (t : String) → exists m.transaction_id (write m.transaction_id t d.backups) ≡ true
  exists_backup t = rw (read_backup_saved t, exists) refl

  pub plain_target : (text : String) → read m.target d.memories ≡ some text → normalized text ≡ text
  plain_target text there = normalized-plain text (rw there at ready.target_plain)

  restore_new :
      read m.target d.memories ≡ none
      → (t : Bool) (new : String)
      → unlink m.target (if t then write m.target new d.memories else d.memories) ≡ d.memories
  restore_new absent true new = unlink-write m.target new d.memories absent
  restore_new absent false new = unlink-absent m.target d.memories absent

  restore_old :
      (text : String)
      → read m.target d.memories ≡ some text
      → (t : Bool) (new : String)
      → write m.target text (if t then write m.target new d.memories else d.memories) ≡ d.memories
  restore_old text there true new =
      write-write m.target new text d.memories ∙ write-read m.target text d.memories there
  restore_old text there false new = write-read m.target text d.memories there

module _ {calm : Bool} (d : Disk) (m : Mutation) (ready : IsReady d m) where
  -- The journal goes last, so that a process that dies before that is recovered.
  Runs-cleanup_undone :
      (b : Bool) (old : Option String)
      → Runs calm
          (disk_of d m old (if b then partial false false else unbacked))
          (cleanup_transaction m.transaction_id (backup_of m old))
          tt
          (disk_of d m old (closed false))
          (Recoverable d m old)
  unfolding cleanup_transaction
  Runs-cleanup_undone true none = Runs-bind _ _ (Runs-pure tt) (
      Runs-modify (partial false false, refl) _
        (cc (unlink_journal_last d m ready (journal_of m none))))
  Runs-cleanup_undone false none =
      Runs-bind _ _ (Runs-pure tt)
        (Runs-modify (unbacked, refl) _ (cc (unlink_journal_last d m ready (journal_of m none))))
  Runs-cleanup_undone true (some t) =
      Runs-bind _ _
        (Runs-modify (partial false false, refl) _ (cc (unlink_backup_undone d m ready t)))
        (Runs-modify (unbacked, refl) _
          (cc (unlink_journal_last d m ready (journal_of m (some t)))))
  Runs-cleanup_undone false (some t) =
      Runs-bind _ _ (Runs-modify (unbacked, refl) _ (cc (unlink_backup_absent d m ready))) (
        Runs-modify (unbacked, refl) _ (cc (unlink_journal_last d m ready (journal_of m (some t)))))

  pub Runs-cleanup_committed :
      (b : Bool) (old : Option String)
      → Runs calm
          (disk_of d m old (committed b))
          (cleanup_transaction m.transaction_id (backup_of m old))
          tt
          (disk_of d m old finished)
          (Recoverable d m old)
  unfolding cleanup_transaction
  Runs-cleanup_committed true none = Runs-bind _ _ (Runs-pure tt) (
      Runs-modify (committed true, refl) _ (cc (unlink_journal_last d m ready (journal_of m none))))
  Runs-cleanup_committed false none = Runs-bind _ _ (Runs-pure tt) (
      Runs-modify (committed false, refl) _
        (cc (unlink_journal_last d m ready (journal_of m none))))
  Runs-cleanup_committed true (some t) =
      Runs-bind _ _ (Runs-modify (committed true, refl) _ (cc (unlink_backup_undone d m ready t))) (
        Runs-modify (committed false, refl) _
          (cc (unlink_journal_last d m ready (journal_of m (some t)))))
  Runs-cleanup_committed false (some t) =
      Runs-bind _ _ (Runs-modify (committed false, refl) _ (cc (unlink_backup_absent d m ready))) (
        Runs-modify (committed false, refl) _
          (cc (unlink_journal_last d m ready (journal_of m (some t)))))

  Runs-restore :
      (old : Option String)
      → read m.target d.memories ≡ old
      → (t e : Bool)
      → Runs calm
          (disk_of d m old (partial t e))
          (restore_target (backup_of m old) m.target (is_there old))
          tt
          (disk_of d m old (partial false e))
          (Recoverable d m old)
  unfolding restore_target
  Runs-restore none absent t e =
      Runs-bind _ _ (Runs-pure false) (
        Runs-modify (partial t e, refl) _ (cc (restore_new d m ready absent t (normalized m.text))))
  Runs-restore (some text) there t e = Runs-bind _ _ (Runs-gets _) (
      rw (exists_backup d m ready text) (
        Runs-bind _ _
          (Runs-bind _ _ (Runs-fetch (partial t e, refl) _)
            (Runs-lift text (cc (read_backup_saved d m ready text))))
          (Runs-modify (partial t e, refl) _
            (cc (
              plain_target d m ready text there,
              restore_old d m ready text there t (normalized m.text),
            )))))

  Runs-restore_unbacked :
      (old : Option String)
      → read m.target d.memories ≡ old
      → Runs calm
          (disk_of d m old unbacked)
          (restore_target (backup_of m old) m.target (is_there old))
          tt
          (disk_of d m old unbacked)
          (Recoverable d m old)
  unfolding restore_target
  Runs-restore_unbacked none absent =
      Runs-bind _ _ (Runs-pure false) (
        Runs-modify (unbacked, refl) _
          (cc (restore_new d m ready absent false (normalized m.text))))
  Runs-restore_unbacked (some text) there =
      Runs-bind _ _ (Runs-gets _) (rw ready.backup_new (Runs-pure tt))

  Runs-remove_event_logged :
      (old : Option String)
      → Runs calm
          (disk_of d m old (partial false true))
          (remove_event m.transaction_id)
          tt
          (disk_of d m old (partial false false))
          (Recoverable d m old)
  unfolding remove_event
  Runs-remove_event_logged old = Runs-bind _ _ (Runs-fetch (partial false true, refl) _) (
      rw
        (
          keep_if-append_last (λ v. v.event_id == m.transaction_id) d.events (event_of m)
              ready.event_new (eq_refl m.transaction_id),
          length-append_last,
        )
        (Runs-modify (partial false true, refl) _ refl))

  -- A rollback returns to the start, from wherever the source is not recorded.
  pub Runs-rollback :
      (old : Option String)
      → read m.target d.memories ≡ old
      → (t e : Bool)
      → Runs calm
          (disk_of d m old (partial t e))
          (rollback_transaction m.transaction_id
            (backup_of m old)
            m.target
            (is_there old)
            m.transaction_id
            m.source)
          tt
          (disk_of d m old (closed false))
          (Recoverable d m old)
  unfolding rollback_transaction
  Runs-rollback old there t true = Runs-bind _ _ (Runs-restore old there t true) (
      Runs-bind _ _ (Runs-remove_event_logged old) (
        Runs-bind _ _
          (Runs-remove_receipt_absent _ (partial false false, refl) m.source ready.source_new)
          (Runs-cleanup_undone true old)))
  Runs-rollback old there t false = Runs-bind _ _ (Runs-restore old there t false) (
      Runs-bind _ _
        (Runs-remove_event_absent _ (partial false false, refl) m.transaction_id ready.event_new)
        (Runs-bind _ _
          (Runs-remove_receipt_absent _ (partial false false, refl) m.source ready.source_new)
          (Runs-cleanup_undone true old)))

  pub Runs-rollback_unbacked :
      (old : Option String)
      → read m.target d.memories ≡ old
      → Runs calm
          (disk_of d m old unbacked)
          (rollback_transaction m.transaction_id
            (backup_of m old)
            m.target
            (is_there old)
            m.transaction_id
            m.source)
          tt
          (disk_of d m old (closed false))
          (Recoverable d m old)
  unfolding rollback_transaction
  Runs-rollback_unbacked old there = Runs-bind _ _ (Runs-restore_unbacked old there) (
      Runs-bind _ _ (Runs-remove_event_absent _ (unbacked, refl) m.transaction_id ready.event_new) (
        Runs-bind _ _ (Runs-remove_receipt_absent _ (unbacked, refl) m.source ready.source_new)
          (Runs-cleanup_undone false old)))
