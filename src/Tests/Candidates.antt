-- ===== src/Tests/Candidates.antt =====
-- An observation that is recorded twice.
use agent_global_context.Prelude.{◌≡◌, refl, none, []}
use agent_global_context.Result.{ok, ◌>>=◌}
use agent_global_context.Effects.{done}
use agent_global_context.Contracts.{EvidenceSummary}
use agent_global_context.Policy.{
  PolicyDecision, evaluate_observation, decision_of, validate_policy_enums, require_member,
}
use agent_global_context.Write.Candidates.{
  evidence_summary, known_sources, with_source, distinct, span, record_candidate,
}
use agent_global_context.Write.Evidence.{at_rest, recorded, record_candidate-once}
use agent_global_context.Tests.Observations.{watched}
use agent_global_context.Tests.Writes.{env, world}

abbrev once_seen : EvidenceSummary
once_seen = record { count = 1; distinct_sessions = 1; time_span_days = 0 }

abbrev decision : PolicyDecision
decision = decision_of (record watched { evidence = once_seen })

none_known : known_sources none "obs-1" ≡ ok []
unfolding known_sources
none_known = refl

summed : evidence_summary env.day (with_source [] watched) ≡ ok once_seen
unfolding evidence_summary with_source distinct span ◌>>=◌
summed = refl

decided : evaluate_observation (record watched { evidence = once_seen }) ≡ ok decision
unfolding evaluate_observation validate_policy_enums require_member ◌>>=◌
decided = refl

record_candidate-once_example :
    let after = recorded env watched decision (with_source [] watched) world in
    (record_candidate env watched (at_rest world) ≡ (done (decision, once_seen), at_rest after))
    × (record_candidate env watched (at_rest after) ≡ (done (decision, once_seen), at_rest after))
record_candidate-once_example =
    record_candidate-once env watched decision once_seen world [] none_known summed decided
