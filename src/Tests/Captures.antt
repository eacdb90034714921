-- ===== src/Tests/Captures.antt =====
-- A captured task that fails once and is queued again.
use agent_global_context.Prelude.{◌≡◌, ◌≢◌, ◌↔◌, refl, String, Option, true, none, some}
use agent_global_context.Result.{ok, raise_if, ◌>>=◌}
use agent_global_context.Capture.{is_parked, check_reason, validate_capture_transition}
use agent_global_context.Capture.Life.{Lives, rests, steps, Passes, complete-Passes, reopening_iff}

queued : validate_capture_transition "discovered" "queued" none ≡ ok tt
unfolding validate_capture_transition check_reason raise_if ◌>>=◌
queued = refl

extracted : validate_capture_transition "queued" "extracting" none ≡ ok tt
unfolding validate_capture_transition check_reason raise_if ◌>>=◌
extracted = refl

failed : validate_capture_transition "extracting" "failed" none ≡ ok tt
unfolding validate_capture_transition check_reason raise_if ◌>>=◌
failed = refl

reopened : validate_capture_transition "failed" "queued" (some "explicit_retry") ≡ ok tt
unfolding validate_capture_transition check_reason raise_if ◌>>=◌
reopened = refl

completed : validate_capture_transition "extracting" "complete" none ≡ ok tt
unfolding validate_capture_transition check_reason raise_if ◌>>=◌
completed = refl

abbrev life : Lives "discovered" "complete"
life =
    steps "complete" none
      (steps "extracting" none
        (steps "queued" (some "explicit_retry")
          (steps "failed" none
            (steps "extracting" none (steps "queued" none (rests "discovered") queued) extracted)
            failed)
          reopened)
        extracted)
      completed

complete-Passes_example : Passes "queued" life × Passes "extracting" life
complete-Passes_example = complete-Passes life

reopening_iff_example :
    ((is_parked "failed" ≡ true) ↔ (◌≢◌ {A = Option String} (some "explicit_retry") none))
    × (is_parked "failed" ≡ true → ◌≡◌ {A = String} "queued" "queued")
reopening_iff_example = reopening_iff "failed" "queued" (some "explicit_retry") reopened
