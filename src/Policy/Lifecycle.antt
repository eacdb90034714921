-- ===== src/Policy/Lifecycle.antt =====
-- The life of a memory under `validate_transition`.
use agent_global_context.Prelude.{
  ◌≡◌, ◌⊎◌, inl, inr, refl, String, Option, none, some, List, [], ◌∷◌, arith, eq_iff, IsOneOf,
  elem→IsOneOf,
}
use agent_global_context.Result.{ok}
use agent_global_context.Policy.{
  lifecycle_transitions, allowed_from, check_transition, validate_transition,
}

-- A chain of transitions that are all allowed.
pub data Lives : String → String → Type 0 where
  stays : (s : String) → Lives s s
  moves : {s t : String} (u : String) → Lives s t → validate_transition t u ≡ ok tt → Lives s u

abbrev pub retired : List String
retired = "superseded" ∷ "historical" ∷ "rejected" ∷ []

check_transition-ok :
    (old new : String) (allowed : List String) (known : Option (List String))
    → check_transition old new (some allowed) known ≡ ok tt
    → (old ≡ new) ⊎ IsOneOf new allowed
unfolding check_transition
check_transition-ok old new allowed none h = cc
check_transition-ok old new allowed (some _) h =
    ground (arith, eq_iff old new, elem→IsOneOf new allowed)

-- A known status moves only to itself and to what its list allows.
moves_within :
    (old new : String) (allowed : List String)
    → allowed_from old lifecycle_transitions ≡ some allowed
    → validate_transition old new ≡ ok tt
    → (old ≡ new) ⊎ IsOneOf new allowed
unfolding validate_transition
moves_within old new allowed e h = check_transition-ok old new allowed _ (rw e at h)

superseded_moves :
    (new : String) → validate_transition "superseded" new ≡ ok tt → IsOneOf new retired
unfolding validate_transition
superseded_moves new h = ground (arith, moves_within "superseded" new ("historical" ∷ []) refl h)

historical_moves :
    (new : String) → validate_transition "historical" new ≡ ok tt → IsOneOf new retired
unfolding validate_transition
historical_moves new h = ground (arith, moves_within "historical" new [] refl h)

rejected_moves : (new : String) → validate_transition "rejected" new ≡ ok tt → IsOneOf new retired
unfolding validate_transition
rejected_moves new h = ground (arith, moves_within "rejected" new [] refl h)

retired_moves :
    (old new : String)
    → IsOneOf old retired
    → validate_transition old new ≡ ok tt
    → IsOneOf new retired
retired_moves old new (inl e) h = superseded_moves new (rw e at h)
retired_moves old new (inr (inl e)) h = historical_moves new (rw e at h)
retired_moves old new (inr (inr (inl e))) h = rejected_moves new (rw e at h)
retired_moves old new (inr (inr (inr e))) h = absurd e

-- A memory that is once superseded, historical or rejected stays one of these, however long it lives.
pub Lives-retired : (s t : String) → Lives s t → IsOneOf s retired → IsOneOf t retired
Lives-retired s t (stays _) r = r
Lives-retired s u (moves _ life step) r = retired_moves _ u (Lives-retired s _ life r) step
