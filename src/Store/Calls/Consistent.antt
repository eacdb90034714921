-- ===== src/Store/Calls/Consistent.antt =====
-- Every call leaves a disk that a recovery makes consistent.
use agent_global_context.Prelude.{◌≡◌, refl, sym, subst, inr, String, false, List}
use agent_global_context.Result.{ok}
use agent_global_context.Files.{string_eq}
use agent_global_context.Effects.{Machine, Outcome, done, raised, died, M, pure, ◌>>=◌}
use agent_global_context.Effects.Meets.{
  Leaves, Leaves-always, Meets, Meets-pure, Meets-gets, Meets-lift, Meets-fetch, Meets-bind,
  Meets-if, Meets-lifted,
}
use agent_global_context.Models.{SourceKey, MemoryItem}
use agent_global_context.Store.Disk.{Disk, MemoryPath, path_eq, Receipt}
use agent_global_context.Store.Receipts.{validate_source_key, source_was_recorded_in, read_receipts}
use agent_global_context.Store.Transaction.{
  Mutation, apply_mutation, recover_pending_transactions, read_memory, target_exists,
}
use agent_global_context.Store.Transaction.Stages.{IsReady}
use agent_global_context.Store.Transaction.Atomicity.{mutation}
use agent_global_context.Store.Methods.{
  Platform, Call, transaction_id, find_memory_path, read_current, write_new, write_changed,
  create_memory, add_evidence, replace_memory, transition_memory,
}
use agent_global_context.Store.History.{repaired, IsConsistent}
use agent_global_context.Store.Calls.{
  Request, create, evidence, replace, transition, source_in, perform, IsFresh, Lived, began, called,
  opened,
}
use agent_global_context.Store.Calls.Recoveries.{
  IsSettled, IsSound, settled_sound, repaired-IsSettled, recover-IsSound, Meets-recover,
}

module _ (platform : Platform) (source : SourceKey) (call : Call) where
  -- After the recovery and `_read_receipts`.
  record HasRead (rs : List Receipt) (z : Disk) : Type 0 where
    pub settled : IsSettled z
    pub fresh : IsFresh (transaction_id platform source call) z
    pub same : rs ≡ z.receipts

  Sound : Disk → Type 0
  Sound = IsSound platform.sha256

  sound : {rs : List Receipt} (z : Disk) → HasRead rs z → Sound z
  unfolding Sound
  sound z h = settled_sound platform.sha256 z h.settled

  HasRead-IsReady :
      (m : Mutation) (z : Disk)
      → m.source ≡ source
      → m.transaction_id ≡ transaction_id platform source call
      → validate_source_key source ≡ ok tt
      → source_was_recorded_in m.receipts source ≡ false
      → HasRead m.receipts z
      → IsReady z m
  HasRead-IsReady m z of_source named valid new h = record {
    no_journals = h.settled.consistent.settled;
    source_valid = rw of_source valid;
    source_new = rw (of_source, ← h.same) new;
    receipts_read = h.same;
    event_new = rw named h.fresh.no_event;
    backup_new = rw named h.fresh.no_backup;
    target_plain = h.settled.plain m.target;
  }

  -- The end of a method that writes.
  Meets-write :
      {A : Type 0} (m : Mutation) (f : String → A) (z : Disk)
      → IsSettled z
      → IsReady z m
      → Meets Sound (λ _. Sound) z (apply_mutation platform.sha256 m >>= λ digest. pure (f digest))
  unfolding Sound
  Meets-write m f z settled ready =
      Meets-bind {Q = λ _. Sound}
        (record { at = λ fs. Leaves-always Sound _ (z, settled, inr (m, ready, mutation fs)) })
        (λ digest y h. Meets-pure _ h)

  module _ (F : Disk → Type 0) (safe : (z : Disk) → F z → Sound z) where
    Meets-find : (id : String) (z : Disk) → F z → Meets Sound (λ _. F) z (find_memory_path id)
    unfolding find_memory_path
    Meets-find id z h =
        Meets-bind {Q = λ _. F} (Meets-gets _ h)
          (λ found y k. Meets-lift _ (safe y k) (λ path _. k))

    Meets-read_current :
        (id : String) (z : Disk) → F z → Meets Sound (λ _. F) z (read_current platform id)
    unfolding read_current read_memory
    Meets-read_current id z h = Meets-bind (Meets-find id z h) (λ target y k.
        Meets-bind {Q = λ _. F}
          (Meets-bind {Q = λ _. F} (Meets-fetch _ (safe y k) k)
            (λ text w i. Meets-lift _ (safe w i) (λ t _. i)))
          (λ text w i.
            Meets-bind {Q = λ _. F} (Meets-lift _ (safe w i) (λ item _. i))
              (λ item v j. Meets-pure _ j)))

  -- What every method does once its arguments are checked.
  Meets-started :
      {A : Type 0} (rest : List Receipt → M Disk A) (x : Disk)
      → Sound x
      → IsFresh (transaction_id platform source call) (repaired x)
      → ((rs : List Receipt) (z : Disk) → HasRead rs z → Meets Sound (λ _. Sound) z (rest rs))
      → Meets Sound (λ _. Sound) x (recover_pending_transactions >>= λ _. read_receipts >>= rest)
  unfolding Sound read_receipts
  Meets-started rest x h fresh k = Meets-bind (Meets-recover platform.sha256 x h) (λ _ y recovery.
      Meets-bind {Q = HasRead}
        (Meets-fetch _ (settled_sound platform.sha256 y recovery.1) (record {
          settled = recovery.1;
          fresh = subst (IsFresh (transaction_id platform source call)) (sym recovery.0) fresh;
          same = refl;
        }))
        k)

  Meets-write_new :
      (item : MemoryItem) (rs : List Receipt) (z : Disk)
      → validate_source_key source ≡ ok tt
      → source_was_recorded_in rs source ≡ false
      → HasRead rs z
      → Meets Sound (λ _. Sound) z (write_new platform item source call rs)
  unfolding write_new
  Meets-write_new item rs z valid new h =
      Meets-write _ _ z h.settled (HasRead-IsReady _ z refl refl valid new h)

  Meets-write_changed :
      (target : MemoryPath) (current updated : MemoryItem) (action observed_at memory_id : String)
      (rs : List Receipt) (z : Disk)
      → validate_source_key source ≡ ok tt
      → source_was_recorded_in rs source ≡ false
      → HasRead rs z
      → Meets Sound
          (λ _. Sound)
          z
          (write_changed platform target current updated source action observed_at call rs
            memory_id)
  unfolding write_changed
  Meets-write_changed target current updated action observed_at memory_id rs z valid new h =
      Meets-write _ _ z h.settled (HasRead-IsReady _ z refl refl valid new h)

  module _ (x : Disk) (h : Sound x)
      (fresh : IsFresh (transaction_id platform source call) (repaired x)) where
    Meets-create :
        (item : MemoryItem) → Meets Sound (λ _. Sound) x (create_memory platform item source call)
    unfolding create_memory target_exists
    Meets-create item = Meets-lifted _ h (λ _ _. Meets-lifted _ h (λ _ valid.
        Meets-started _ x h fresh (λ rs z read.
          Meets-bind {Q = λ _. HasRead rs} (Meets-gets _ read) (λ there w now.
            Meets-if (source_was_recorded_in rs source) (λ recorded. Meets-pure _ (sound w now))
              (λ new.
                Meets-if there (λ taken. Meets-pure _ (sound w now))
                  (λ free. Meets-write_new item rs w valid new now))))))

    Meets-evidence :
        (memory_id observed_at : String)
        → Meets Sound (λ _. Sound) x (add_evidence platform memory_id source observed_at call)
    unfolding add_evidence
    Meets-evidence memory_id observed_at = Meets-lifted _ h (λ _ valid.
        Meets-started _ x h fresh (λ rs z read.
          Meets-if (source_was_recorded_in rs source) (λ recorded. Meets-pure _ (sound z read))
            (λ new.
              Meets-bind (Meets-read_current (HasRead rs) sound memory_id z read) (λ found w now.
                Meets-lifted _ (sound w now)
                  (λ _ _. Meets-write_changed _ _ _ _ _ _ rs w valid new now)))))

    Meets-replace :
        (memory_id : String) (updated : MemoryItem) (observed_at action : String)
        → Meets Sound
            (λ _. Sound)
            x
            (replace_memory platform memory_id updated source observed_at action call)
    unfolding replace_memory
    Meets-replace memory_id updated observed_at action = Meets-lifted _ h (λ _ valid.
        Meets-lifted _ h (λ _ _. Meets-lifted _ h (λ _ _. Meets-started _ x h fresh (λ rs z read.
          Meets-if (source_was_recorded_in rs source) (λ recorded. Meets-pure _ (sound z read))
            (λ new.
              Meets-bind (Meets-read_current (HasRead rs) sound memory_id z read) (λ found w now.
                Meets-lifted _ (sound w now) (λ _ _.
                  Meets-lifted _ (sound w now)
                    (λ _ _. Meets-write_changed _ _ _ _ _ _ rs w valid new now))))))))

    Meets-transition :
        (memory_id new_status observed_at action : String)
        → Meets Sound
            (λ _. Sound)
            x
            (transition_memory platform memory_id new_status source observed_at action call)
    unfolding transition_memory
    Meets-transition memory_id new_status observed_at action = Meets-lifted _ h (λ _ valid.
        Meets-started _ x h fresh (λ rs z read.
          Meets-if (source_was_recorded_in rs source) (λ recorded. Meets-pure _ (sound z read))
            (λ new.
              Meets-bind (Meets-read_current (HasRead rs) sound memory_id z read) (λ found w now.
                Meets-lifted _ (sound w now) (λ _ _.
                  Meets-lifted _ (sound w now)
                    (λ _ _. Meets-write_changed _ _ _ _ _ _ rs w valid new now))))))

left :
    {A : Type 0} (P : Disk → Type 0) (out : Outcome A × Machine Disk)
    → Leaves P (λ _. P) out
    → P out.1.disk
left P (done a, s) h = h
left P (raised e, s) h = h
left P (died, s) h = h

module _ (platform : Platform) where
  Meets-perform :
      (request : Request) (call : Call) (x : Disk)
      → IsSound platform.sha256 x
      → IsFresh (transaction_id platform (source_in request) call) (repaired x)
      → Meets
          (IsSound platform.sha256)
          (λ _. IsSound platform.sha256)
          x
          (perform platform request call)
  unfolding Sound
  Meets-perform (create item source) call x h fresh =
      Meets-create platform source call x h fresh item
  Meets-perform (evidence memory_id source observed_at) call x h fresh =
      Meets-evidence platform source call x h fresh memory_id observed_at
  Meets-perform (replace memory_id item source observed_at action) call x h fresh =
      Meets-replace platform source call x h fresh memory_id item observed_at action
  Meets-perform (transition memory_id status source observed_at action) call x h fresh =
      Meets-transition platform source call x h fresh memory_id status observed_at action

  Lived-IsSound : {x : Disk} → Lived platform x → IsSound platform.sha256 x
  Lived-IsSound (began memories plain) = settled_sound platform.sha256 _ (record {
    consistent = record { registry = refl; unrepeated = tt; settled = refl };
    plain = plain;
  })
  Lived-IsSound (called {x} request call fs lived fresh) =
      left (IsSound platform.sha256)
        (perform platform request call (record { disk = x; faults = fs }))
        ((Meets-perform request call x (Lived-IsSound lived) fresh).at fs)
  Lived-IsSound (opened {x} fs lived) = recover-IsSound platform.sha256 x fs (Lived-IsSound lived)

-- After any calls of `create_memory`, `add_evidence`, `replace_memory` and `transition_memory`, with any
-- arguments, each of which may fail or die anywhere and leave its work to the next call's recovery, and
-- any recoveries broken off too, one recovery that meets no fault makes the store consistent: the
-- registry of sources is the log of events, entry for entry and in order; no source is recorded twice;
-- and no journal is left. The store began with no event, no receipt and no carriage return in its
-- memories, and the transaction id of each call names no event and no backup of the store that a
-- recovery leaves to it.
pub Lived-IsConsistent :
    (platform : Platform) {x : Disk} → Lived platform x → IsConsistent (repaired x)
Lived-IsConsistent platform {x} lived =
    (repaired-IsSettled platform.sha256 x (Lived-IsSound platform lived)).consistent
