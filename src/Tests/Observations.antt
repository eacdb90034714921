-- ===== src/Tests/Observations.antt =====
-- Observations as an agent submits them.
use agent_global_context.Prelude.{
  ◌≡◌, ◌≢◌, ◌↔◌, ◌⊎◌, ◌≤◌, inl, refl, false, some, [], ◌∷◌, ◌&&◌, elem, IsOneOf, arith,
}
use agent_global_context.Result.{ok, ◌>>=◌}
use agent_global_context.Models.{accepted, needs_adjudication}
use agent_global_context.Contracts.{ObservationEnvelope, from_mapping, to_mapping}
use agent_global_context.Contracts.RoundTrip.{
  IsWellFormed, from_mapping-to_mapping, from_mapping-IsWellFormed,
}
use agent_global_context.Policy.{
  evaluate_observation, decision_of, confirmable, threshold_satisfied, candidate_metadata,
  match_required, is_empty, validate_policy_enums, require_member, validate_transition,
}
use agent_global_context.Policy.Gates.{
  IsPersistable, metadata-IsPersistable, accepted-gates, behavior_observed-threshold,
}
use agent_global_context.Policy.Lifecycle.{stays, moves, retired, Lives-retired}

abbrev stated : ObservationEnvelope
stated = record {
  observation_id = "obs-1";
  source = record {
    ref = "session:1";
    revision = "3";
    content_hash = "h";
    observed_at = "2026-01-02T03:04:05Z";
  };
  assertion = record { subject = "user"; mode = "direct"; modality = "asserted" };
  proposal = record {
    disposition = "update";
    match_memory_id = some "prefers-tea";
    kind = "preference";
    scopes = "home" ∷ "work" ∷ [];
    temporal_type = "durable";
    sensitivity = "personal";
    rationale = "said so";
    requested_confidence = "confirmed";
  };
  evidence = record { count = 1; distinct_sessions = 1; time_span_days = 0 };
}

abbrev pub watched : ObservationEnvelope
watched = record stated {
  assertion = record { subject = "user"; mode = "behavior_observed"; modality = "asserted" };
  proposal = record stated.proposal { requested_confidence = "observed" };
  evidence = record { count = 3; distinct_sessions = 2; time_span_days = 7 };
}

stated-IsWellFormed : IsWellFormed stated
stated-IsWellFormed = record {
  observation_id = refl;
  ref = refl;
  revision = refl;
  content_hash = refl;
  observed_at = refl;
  subject = refl;
  mode = refl;
  modality = refl;
  disposition = refl;
  match_memory_id = refl;
  kind = refl;
  scopes = (refl, (refl, tt));
  temporal_type = refl;
  sensitivity = refl;
  rationale = refl;
  requested_confidence = refl;
}

pub watched-IsWellFormed : IsWellFormed watched
watched-IsWellFormed = record {
  observation_id = refl;
  ref = refl;
  revision = refl;
  content_hash = refl;
  observed_at = refl;
  subject = refl;
  mode = refl;
  modality = refl;
  disposition = refl;
  match_memory_id = refl;
  kind = refl;
  scopes = (refl, (refl, tt));
  temporal_type = refl;
  sensitivity = refl;
  rationale = refl;
  requested_confidence = refl;
}

from_mapping-to_mapping_example : from_mapping (to_mapping stated) ≡ ok stated
from_mapping-to_mapping_example = from_mapping-to_mapping stated stated-IsWellFormed

from_mapping-IsWellFormed_example : IsWellFormed stated
from_mapping-IsWellFormed_example =
    from_mapping-IsWellFormed (to_mapping stated) stated
      (from_mapping-to_mapping stated stated-IsWellFormed)

stated_decided : evaluate_observation stated ≡ ok (decision_of stated)
unfolding evaluate_observation validate_policy_enums require_member ◌>>=◌
stated_decided = refl

pub watched_decided : evaluate_observation watched ≡ ok (decision_of watched)
unfolding evaluate_observation validate_policy_enums require_member ◌>>=◌
watched_decided = refl

stated_accepted : (decision_of stated).status ≡ accepted
unfolding decision_of confirmable candidate_metadata
stated_accepted = refl

stated_kept : (decision_of stated).persistable_metadata ≢ []
unfolding decision_of confirmable candidate_metadata
stated_kept = ground arith

watched_kept : (decision_of watched).persistable_metadata ≢ []
unfolding decision_of threshold_satisfied candidate_metadata
watched_kept = ground arith

metadata-IsPersistable_example : IsPersistable stated
metadata-IsPersistable_example =
    metadata-IsPersistable stated (decision_of stated) stated_decided stated_kept

accepted-gates_example :
    IsPersistable stated
    × (stated.assertion.mode ≢ "behavior_observed")
    × ((elem "update" match_required && is_empty (some "prefers-tea")) ≡ false)
    × ((stated.proposal.requested_confidence ≢ "confirmed")
        ⊎ ((stated.assertion.subject ≡ "user")
            × (stated.assertion.mode ≡ "direct")
            × (stated.assertion.modality ≡ "asserted")))
accepted-gates_example = accepted-gates stated (decision_of stated) stated_decided stated_accepted

behavior_observed-threshold_example :
    ((decision_of watched).status ≢ accepted)
    × (((decision_of watched).status ≡ needs_adjudication)
        ↔ ((watched.proposal.requested_confidence ≢ "confirmed") × (3 ≤ 3) × (2 ≤ 2) × (7 ≤ 7)))
behavior_observed-threshold_example =
    behavior_observed-threshold watched (decision_of watched) watched_decided refl watched_kept

archived : validate_transition "superseded" "historical" ≡ ok tt
unfolding validate_transition
archived = refl

stayed : validate_transition "historical" "historical" ≡ ok tt
unfolding validate_transition
stayed = refl

Lives-retired_example : IsOneOf "historical" retired
Lives-retired_example =
    Lives-retired "superseded" "historical"
      (moves "historical" (moves "historical" (stays "superseded") archived) stayed) (inl refl)
