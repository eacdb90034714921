-- ===== src/Tests/Histories.antt =====
-- A store whose first mutation died, was repaired and is made again.
use agent_global_context.Prelude.{◌≡◌, ◌⊎◌, refl, none, [], ◌∷◌}
use agent_global_context.Files.{read, string_eq}
use agent_global_context.Utf8.{normalized}
use agent_global_context.Effects.{done, fine, dies, on_raise, modify, fetch, ◌>>=◌}
use agent_global_context.Store.Disk.{Disk, path_eq}
use agent_global_context.Store.Transaction.{Mutation, apply_mutation, recover_pending_transactions}
use agent_global_context.Store.Transaction.Atomicity.{SameMemory, mutated, Interrupted, mutation}
use agent_global_context.Store.Methods.Idempotence.{creation}
use agent_global_context.Store.History.{History, start, session, repaired, IsConsistent}
use agent_global_context.Store.Methods.{create_memory}
use agent_global_context.Store.Calls.{create, Lived, began, called, opened}
use agent_global_context.Store.Calls.Consistent.{Lived-IsConsistent}
use agent_global_context.Store.Archive.{Shows, attempted, initial, History-replay}
use agent_global_context.Store.Retry.{again, retry_completes}
use agent_global_context.Tests.Memories.{
  platform, tea, first_source, at_noon, empty_disk, tea-IsReady,
}

-- The call that creates the memory dies with the journal there, and so does the next recovery.
abbrev broken_call : Disk
broken_call =
    (create_memory platform tea first_source at_noon
      (record { disk = empty_disk; faults = fine ∷ fine ∷ fine ∷ dies ∷ [] })).1.disk

abbrev opened_badly : Disk
opened_badly =
    (recover_pending_transactions (record { disk = broken_call; faults = dies ∷ [] })).1.disk

lived_store : Lived platform opened_badly
unfolding recover_pending_transactions ◌>>=◌
lived_store = opened (dies ∷ []) (
    called (create tea first_source) at_noon (fine ∷ fine ∷ fine ∷ dies ∷ [])
      (began [] (λ path. tt)) (record { no_event = refl; no_backup = refl }))

Lived-IsConsistent_example : IsConsistent (repaired opened_badly)
Lived-IsConsistent_example = Lived-IsConsistent platform lived_store

abbrev creating : Mutation
creating = creation platform tea first_source at_noon []

-- The process dies once the journal is there.
abbrev stopped : Disk
stopped =
    (apply_mutation (λ s. s) creating
      (record { disk = empty_disk; faults = fine ∷ dies ∷ [] })).1.disk

stopped_there : Interrupted (λ s. s) empty_disk creating stopped
stopped_there = mutation (fine ∷ dies ∷ [])

abbrev lived : History (λ s. s) (repaired stopped)
lived = session creating (start []) tea-IsReady stopped_there

History-replay_example :
    Shows
      (repaired stopped)
      (attempted (λ s. s) lived)
      (record { texts = λ path. read path (initial (λ s. s) lived); log = [] })
History-replay_example = History-replay (λ s. s) lived

no_backup : read "t2" (repaired stopped).backups ≡ none
unfolding ◌>>=◌ on_raise modify fetch apply_mutation recover_pending_transactions
no_backup = refl

retry_completes_example :
    let y = repaired stopped in
    SameMemory y (mutated empty_disk creating)
    ⊎ (apply_mutation (λ s. s) (again creating "t2" y) (record { disk = y; faults = [] }) ≡ (
      done (normalized creating.text),
      record { disk = mutated y (again creating "t2" y); faults = [] },
    ))
retry_completes_example =
    retry_completes (λ s. s) empty_disk creating "t2" tea-IsReady stopped_there refl no_backup
