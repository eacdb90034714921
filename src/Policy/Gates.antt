-- ===== src/Policy/Gates.antt =====
-- What the gates let through.
use mathlib.Core.Bool.{false≢true}
use agent_global_context.Prelude.{
  ◌≡◌, ◌≢◌, ◌↔◌, ◌⊎◌, inl, inr, refl, String, Bool, true, false, not, sym, ap, ◌∙◌, if◌then◌else◌,
  ◌&&◌, List, [], ◌∷◌, arith, ◌==◌, eq_iff, elem, IsOneOf, elem→IsOneOf, IsOneOf→elem, ◌≤◌,
  Bool-cases,
}
use agent_global_context.Result.{ok, ◌>>=◌, Ensures, Ensures-ok, Ensures-bind}
use agent_global_context.Models.{Status, accepted, deferred, needs_adjudication}
use agent_global_context.Contracts.{ObservationEnvelope, EvidenceSummary}
use agent_global_context.Policy.{
  PolicyDecision, require_member, validate_policy_enums, threshold_satisfied, confirmable,
  decision_of, assertion_modes, assertion_modalities, dispositions, requested_confidences,
  evaluate_observation, is_empty, match_required, persistable_sensitivity,
}

-- What makes an observation fit to be kept: its sensitivity may be persisted.
abbrev pub IsPersistable : ObservationEnvelope → Type 0
IsPersistable e = IsOneOf e.proposal.sensitivity persistable_sensitivity

-- The enumerated texts of an observation are known ones.
pub record HasKnownEnums (e : ObservationEnvelope) : Type 0 where
  pub mode : IsOneOf e.assertion.mode assertion_modes
  pub modality : IsOneOf e.assertion.modality assertion_modalities
  pub disposition : IsOneOf e.proposal.disposition dispositions
  pub requested_confidence : IsOneOf e.proposal.requested_confidence requested_confidences
  pub sensitivity :
      IsOneOf e.proposal.sensitivity ("normal" ∷ "personal" ∷ "sensitive" ∷ "secret" ∷ [])

require_member-IsOneOf :
    (value : String) (allowed : List String) (message : String) (u : Unit {0})
    → require_member value allowed message ≡ ok u
    → IsOneOf value allowed
unfolding require_member
require_member-IsOneOf value allowed message u h = elem→IsOneOf value allowed (ground arith)

require_member-ok :
    (value : String) (allowed : List String) (message : String)
    → IsOneOf value allowed
    → require_member value allowed message ≡ ok tt
unfolding require_member
require_member-ok value allowed message h = rw (IsOneOf→elem value allowed h) refl

validate_policy_enums-Ensures :
    (e : ObservationEnvelope) → Ensures (λ _. HasKnownEnums e) (validate_policy_enums e)
unfolding validate_policy_enums
validate_policy_enums-Ensures e = Ensures-bind _ _ λ _ mode. Ensures-bind _ _ λ _ modality.
    Ensures-bind _ _ λ _ disposition. Ensures-bind _ _ λ _ confidence. record {
      at = λ u sensitivity. record {
        mode = require_member-IsOneOf _ _ _ _ mode;
        modality = require_member-IsOneOf _ _ _ _ modality;
        disposition = require_member-IsOneOf _ _ _ _ disposition;
        requested_confidence = require_member-IsOneOf _ _ _ _ confidence;
        sensitivity = require_member-IsOneOf _ _ _ _ sensitivity;
      };
    }

validate_policy_enums-ok :
    (e : ObservationEnvelope) → HasKnownEnums e → validate_policy_enums e ≡ ok tt
unfolding validate_policy_enums ◌>>=◌
validate_policy_enums-ok e known =
    let p = e.proposal in
    rw
      (
        require_member-ok e.assertion.mode assertion_modes "invalid assertion mode: {}" known.mode,
        require_member-ok e.assertion.modality assertion_modalities "invalid assertion modality: {}"
            known.modality,
        require_member-ok e.proposal.disposition dispositions "invalid proposal disposition: {}"
            known.disposition,
        require_member-ok e.proposal.requested_confidence requested_confidences
            "invalid proposal requested_confidence: {}" known.requested_confidence,
      )
      (require_member-ok e.proposal.sensitivity _ "invalid proposal sensitivity: {}"
        known.sensitivity)

evaluated-Ensures :
    (e : ObservationEnvelope)
    → Ensures (λ d. HasKnownEnums e × (d ≡ decision_of e)) (evaluate_observation e)
unfolding evaluate_observation
evaluated-Ensures e =
    Ensures-bind _ _
      λ u checked. Ensures-ok _ ((validate_policy_enums-Ensures e).at u checked, refl)

-- The policy decides an observation exactly when its enumerated texts are all known ones, and it is
-- then the decision of the gates.
pub evaluate_observation_iff :
    (e : ObservationEnvelope) (d : PolicyDecision)
    → (evaluate_observation e ≡ ok d) ↔ (HasKnownEnums e × (d ≡ decision_of e))
unfolding evaluate_observation ◌>>=◌
evaluate_observation_iff e d = (
  (evaluated-Ensures e).at d,
  λ (known, decided). rw (validate_policy_enums-ok e known, decided) refl,
)

-- Metadata is kept only of an observation whose sensitivity is `normal` or `personal`.
pub metadata-IsPersistable :
    (e : ObservationEnvelope) (d : PolicyDecision)
    → evaluate_observation e ≡ ok d
    → d.persistable_metadata ≢ []
    → IsPersistable e
unfolding decision_of
metadata-IsPersistable e d h kept =
    let (known, decided) = (evaluate_observation_iff e d).0 h in
    let s = e.proposal.sensitivity in
    ground (arith, known.sensitivity, eq_iff s "secret", eq_iff s "sensitive", decided)

-- The gates that an accepted observation has passed.
module _ (e : ObservationEnvelope) (a : (decision_of e).status ≡ accepted) where
  accepted-sensitivity :
      ((e.proposal.sensitivity == "secret") ≡ false)
      × ((e.proposal.sensitivity == "sensitive") ≡ false)
  unfolding decision_of
  accepted-sensitivity = ground arith

  accepted-mode : (e.assertion.mode == "behavior_observed") ≡ false
  unfolding decision_of
  accepted-mode = ground arith

  accepted-match :
      (elem e.proposal.disposition match_required && is_empty e.proposal.match_memory_id) ≡ false
  unfolding decision_of
  accepted-match = ground arith

  accepted-confirmed :
      (e.proposal.requested_confidence == "confirmed" && not (confirmable e)) ≡ false
  unfolding decision_of
  accepted-confirmed = ground arith

sensitivity-persistable :
    (s : String)
    → IsOneOf s ("normal" ∷ "personal" ∷ "sensitive" ∷ "secret" ∷ [])
    → (s == "secret") ≡ false
    → (s == "sensitive") ≡ false
    → IsOneOf s persistable_sensitivity
sensitivity-persistable s known a b = ground (arith, eq_iff s "secret", eq_iff s "sensitive")

confirmable_lem :
    (e : ObservationEnvelope)
    → confirmable e ≡ true
    → (e.assertion.subject ≡ "user")
      × (e.assertion.mode ≡ "direct")
      × (e.assertion.modality ≡ "asserted")
unfolding confirmable
confirmable_lem e h = ground (
  arith,
  eq_iff e.assertion.subject "user",
  eq_iff e.assertion.mode "direct",
  eq_iff e.assertion.modality "asserted",
)

confirmed_lem :
    (e : ObservationEnvelope)
    → (e.proposal.requested_confidence == "confirmed" && not (confirmable e)) ≡ false
    → e.proposal.requested_confidence ≡ "confirmed"
    → confirmable e ≡ true
confirmed_lem e h c = ground (arith, eq_iff e.proposal.requested_confidence "confirmed")

confirmed_or_not :
    (e : ObservationEnvelope)
    → (e.proposal.requested_confidence == "confirmed" && not (confirmable e)) ≡ false
    → (e.proposal.requested_confidence ≢ "confirmed")
      ⊎ ((e.assertion.subject ≡ "user")
          × (e.assertion.mode ≡ "direct")
          × (e.assertion.modality ≡ "asserted"))
confirmed_or_not e h = elim (Bool-cases (e.proposal.requested_confidence == "confirmed")) [
  | inl same ↦ inr (confirmable_lem e (confirmed_lem e h ((eq_iff _ _).0 same)))
  | inr other ↦ inl (λ c. false≢true (sym other ∙ (eq_iff _ _).1 c))
]

-- What the gates accept may be persisted, is no behaviour that an agent observed, names a memory if
-- it is about one, and asks for a confirmed memory only if the user asserted it directly.
pub accepted-gates :
    (e : ObservationEnvelope) (d : PolicyDecision)
    → evaluate_observation e ≡ ok d
    → d.status ≡ accepted
    → IsPersistable e
      × (e.assertion.mode ≢ "behavior_observed")
      × ((elem e.proposal.disposition match_required && is_empty e.proposal.match_memory_id)
          ≡ false)
      × ((e.proposal.requested_confidence ≢ "confirmed")
          ⊎ ((e.assertion.subject ≡ "user")
              × (e.assertion.mode ≡ "direct")
              × (e.assertion.modality ≡ "asserted")))
accepted-gates e d h a =
    let (known, decided) = (evaluate_observation_iff e d).0 h in
    let a' : (decision_of e).status ≡ accepted = rw decided at a in
    let s = accepted-sensitivity e a' in
    (
      sensitivity-persistable e.proposal.sensitivity known.sensitivity s.0 s.1,
      λ b. false≢true (sym (accepted-mode e a') ∙ (eq_iff _ _).1 b),
      accepted-match e a',
      confirmed_or_not e (accepted-confirmed e a'),
    )

modes_apart : (s : String) → (s == "behavior_observed") ≡ true → (s == "direct") ≡ false
modes_apart s h = rw ((eq_iff s "behavior_observed").0 h) refl

observed-unconfirmable :
    (e : ObservationEnvelope)
    → (e.assertion.mode == "behavior_observed") ≡ true
    → confirmable e ≡ false
unfolding confirmable
observed-unconfirmable e b = ground (arith, modes_apart e.assertion.mode b)

module _ (e : ObservationEnvelope) (b : (e.assertion.mode == "behavior_observed") ≡ true)
    (k : (decision_of e).persistable_metadata ≢ []) where
  observed-status : (decision_of e).status ≡ (
      if not (e.proposal.requested_confidence == "confirmed") && threshold_satisfied e.evidence
      then needs_adjudication
      else deferred)
  unfolding decision_of
  observed-status = ground (arith, observed-unconfirmable e b)

status_test :
    (t : Bool) (s : Status)
    → s ≡ (if t then needs_adjudication else deferred)
    → (s ≢ accepted) × ((s ≡ needs_adjudication) ↔ (t ≡ true))
status_test t s h = ground arith

asked_iff :
    (c : String) (t : Bool)
    → ((not (c == "confirmed") && t) ≡ true) ↔ ((c ≢ "confirmed") × (t ≡ true))
asked_iff c t = ground (arith, eq_iff c "confirmed")

threshold_iff :
    (v : EvidenceSummary)
    → (threshold_satisfied v ≡ true)
      ↔ ((3 ≤ v.count) × (2 ≤ v.distinct_sessions) × (7 ≤ v.time_span_days))
unfolding threshold_satisfied
threshold_iff v = ground arith

-- Behaviour that an agent observed, if any metadata of it is kept, is put up for adjudication exactly
-- when no confirmed memory is asked for and the evidence reaches the threshold of three pieces, two
-- sessions and seven days; it is never accepted.
pub behavior_observed-threshold :
    (e : ObservationEnvelope) (d : PolicyDecision)
    → evaluate_observation e ≡ ok d
    → e.assertion.mode ≡ "behavior_observed"
    → d.persistable_metadata ≢ []
    → (d.status ≢ accepted)
      × ((d.status ≡ needs_adjudication) ↔ (
          (e.proposal.requested_confidence ≢ "confirmed")
          × (3 ≤ e.evidence.count)
          × (2 ≤ e.evidence.distinct_sessions)
          × (7 ≤ e.evidence.time_span_days)))
behavior_observed-threshold e d h b k =
    let decided = ((evaluate_observation_iff e d).0 h).1 in
    let status =
      observed-status e ((eq_iff _ _).1 b)
        (λ z. k (ap (λ (x : PolicyDecision). x.persistable_metadata) decided ∙ z)) in
    let (no_accept, iff) =
      status_test _ d.status (ap (λ (x : PolicyDecision). x.status) decided ∙ status) in
    let a = asked_iff e.proposal.requested_confidence (threshold_satisfied e.evidence) in
    let t = threshold_iff e.evidence in
    (
      no_accept,
      (
        λ n. let (asked, reached) = a.0 (iff.0 n) in let r = t.0 reached in (asked, r.0, r.1, r.2),
        λ n. iff.1 (a.1 (n.0, t.1 (n.1, n.2, n.3))),
      ),
    )
