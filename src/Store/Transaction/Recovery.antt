-- ===== src/Store/Transaction/Recovery.antt =====
-- `_recover_pending_transactions` from every disk that an interrupted mutation can leave.
use agent_global_context.Prelude.{
  ◌≡◌, refl, Bool, true, false, ◌&&◌, String, Option, some, [], ◌∷◌, ◌++◌, ◌==◌, eq_refl,
  any-append_last,
}
use agent_global_context.Result.{ok}
use agent_global_context.Files.{read, write, exists, string_eq, read-write}
use agent_global_context.Utf8.{normalized}
use agent_global_context.Effects.{M}
use agent_global_context.Effects.Runs.{Runs, Runs-pure, Runs-gets, Runs-lift, Runs-fetch, Runs-bind}
use agent_global_context.Models.{SourceKey}
use agent_global_context.Store.Disk.{Disk, path_eq, Journal, same_path_iff}
use agent_global_context.Store.Events.{has_event}
use agent_global_context.Store.Receipts.{
  source_was_recorded_in, entry_matches_source, source_was_recorded, validate_source_key,
}
use agent_global_context.Store.Transaction.{
  Mutation, event_of, and_then, is_committed, recover_journal, recover_pending_transactions,
}
use agent_global_context.Store.Transaction.Stages.{
  IsReady, journal_of, receipt_of, Phase, closed, partial, unbacked, finished, committed, disk_of,
  Recoverable,
}
use agent_global_context.Store.Transaction.Undo.{
  Runs-cleanup_committed, Runs-rollback, Runs-rollback_unbacked,
}

-- Where a recovery ends.
abbrev pub recovered : Phase → Phase
recovered (closed b) = closed b
recovered (partial t e) = closed false
recovered unbacked = closed false
recovered finished = finished
recovered (committed b) = finished

module _ {calm : Bool} {R : Disk → Type 0} (x : Disk) (safe : R x) where
  Runs-recorded :
      (source : SourceKey) (b : Bool)
      → validate_source_key source ≡ ok tt
      → source_was_recorded_in x.receipts source ≡ b
      → Runs calm x (source_was_recorded source) b x R
  unfolding source_was_recorded
  Runs-recorded source b valid e =
      rw (← e)
        (Runs-bind _ _ (Runs-lift tt valid) (Runs-bind _ _ (Runs-fetch safe _) (Runs-pure _)))

  Runs-and_then :
      (b : Bool) (test : M Disk Bool) (v : Bool)
      → Runs calm x test v x R
      → Runs calm x (and_then b test) (b && v) x R
  unfolding and_then
  Runs-and_then true test v h = h
  Runs-and_then false test v h = Runs-pure false

  Runs-is_committed :
      (j : Journal)
      → validate_source_key j.source ≡ ok tt
      → Runs calm x
          (is_committed j)
          ((exists j.target x.memories && has_event j.event_id x.events)
            && source_was_recorded_in x.receipts j.source)
          x
          R
  unfolding is_committed
  Runs-is_committed j valid = Runs-bind _ _ (Runs-gets _) (
      Runs-bind _ _
        (Runs-and_then (exists j.target x.memories) _ _
          (Runs-bind _ _ (Runs-fetch safe _) (Runs-pure _)))
        (Runs-and_then _ _ _ (Runs-recorded j.source _ valid refl)))

&&-false : (b : Bool) → (b && false) ≡ false
&&-false true = refl
&&-false false = refl

module _ (d : Disk) (m : Mutation) (ready : IsReady d m) where
  recorded_last : source_was_recorded_in (d.receipts ++ receipt_of m ∷ []) m.source ≡ true
  recorded_last =
      any-append_last (λ r. entry_matches_source r m.source) d.receipts (receipt_of m)
        (rw (eq_refl m.source.ref, eq_refl m.source.revision, eq_refl m.source.content_hash))

  logged_last : has_event m.transaction_id (d.events ++ event_of m ∷ []) ≡ true
  logged_last =
      any-append_last (λ v. v.event_id == m.transaction_id) d.events (event_of m)
        (eq_refl m.transaction_id)

  read_written : (text : String) → read m.target (write m.target text d.memories) ≡ some text
  read_written text = rw (read-write, (same_path_iff m.target m.target).1 refl) refl

  exists_written : (text : String) → exists m.target (write m.target text d.memories) ≡ true
  exists_written text = rw (read_written text, exists) refl

module _ {calm : Bool} (d : Disk) (m : Mutation) (ready : IsReady d m) (old : Option String)
    (there : read m.target d.memories ≡ old) where
  -- A journal whose source is not recorded is rolled back.
  Runs-recover_journal_partial :
      (t e : Bool)
      → Runs calm
          (disk_of d m old (partial t e))
          (recover_journal (journal_of m old))
          tt
          (disk_of d m old (closed false))
          (Recoverable d m old)
  unfolding recover_journal
  Runs-recover_journal_partial t e =
      Runs-bind _ _ (Runs-is_committed _ (partial t e, refl) (journal_of m old) ready.source_valid)
        (rw (ready.source_new, &&-false) (Runs-rollback d m ready old there t e))

  Runs-recover_journal_unbacked :
      Runs calm
        (disk_of d m old unbacked)
        (recover_journal (journal_of m old))
        tt
        (disk_of d m old (closed false))
        (Recoverable d m old)
  unfolding recover_journal
  Runs-recover_journal_unbacked =
      Runs-bind _ _ (Runs-is_committed _ (unbacked, refl) (journal_of m old) ready.source_valid)
        (rw (ready.source_new, &&-false) (Runs-rollback_unbacked d m ready old there))

  Runs-recover_journal_committed :
      (b : Bool)
      → Runs calm
          (disk_of d m old (committed b))
          (recover_journal (journal_of m old))
          tt
          (disk_of d m old finished)
          (Recoverable d m old)
  unfolding recover_journal
  Runs-recover_journal_committed b =
      Runs-bind _ _ (Runs-is_committed _ (committed b, refl) (journal_of m old) ready.source_valid)
        (rw
          (
            exists_written d m ready (normalized m.text),
            logged_last d m ready,
            recorded_last d m ready,
          )
          (Runs-cleanup_committed d m ready b old))

  -- From every disk that an interrupted mutation leaves, a recovery returns to the start or
  -- completes the mutation; interrupted itself, it leaves such a disk again.
  pub Runs-recover :
      (ph : Phase)
      → Runs calm
          (disk_of d m old ph)
          recover_pending_transactions
          tt
          (disk_of d m old (recovered ph))
          (Recoverable d m old)
  unfolding recover_pending_transactions
  Runs-recover (closed b) = Runs-bind _ _ (Runs-gets _) (Runs-pure tt)
  Runs-recover (partial t e) =
      Runs-bind _ _ (Runs-gets _) (Runs-bind _ _ (Runs-recover_journal_partial t e) (Runs-pure tt))
  Runs-recover unbacked =
      Runs-bind _ _ (Runs-gets _) (Runs-bind _ _ Runs-recover_journal_unbacked (Runs-pure tt))
  Runs-recover finished = Runs-bind _ _ (Runs-gets _) (Runs-pure tt)
  Runs-recover (committed b) =
      Runs-bind _ _ (Runs-gets _) (Runs-bind _ _ (Runs-recover_journal_committed b) (Runs-pure tt))
