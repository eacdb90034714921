-- ===== src/Contracts/RoundTrip.antt =====
-- What `from_mapping` accepts and what `to_mapping` writes are the same observations.
use agent_global_context.Prelude.{
  ◌≡◌, refl, sym, subst, String, Option, arith, All, inl, inr, Option-cases,
}
use agent_global_context.Result.{ok, ◌>>=◌, Ensures, Ensures-ok, Ensures-bind}
use agent_global_context.Value.{Value, Fields, get}
use agent_global_context.Value.Strict.{
  strict_mapping, string, optional_string, index, IsText, IsOptionalText, optional_string-optional,
  string_list-list, string-IsText, optional_string-IsText, string_list-IsText,
}
use agent_global_context.Contracts.{
  ObservationSource, Assertion, Proposal, ObservationEnvelope, source_from, assertion_from,
  proposal_from, evidence_from, envelope_from, source_mapping, assertion_mapping, proposal_mapping,
  from_mapping, to_mapping,
}

-- Every text of the observation is non-empty.
pub record IsWellFormed (e : ObservationEnvelope) : Type 0 where
  pub observation_id : IsText e.observation_id
  pub ref : IsText e.source.ref
  pub revision : IsText e.source.revision
  pub content_hash : IsText e.source.content_hash
  pub observed_at : IsText e.source.observed_at
  pub subject : IsText e.assertion.subject
  pub mode : IsText e.assertion.mode
  pub modality : IsText e.assertion.modality
  pub disposition : IsText e.proposal.disposition
  pub match_memory_id : IsOptionalText e.proposal.match_memory_id
  pub kind : IsText e.proposal.kind
  pub scopes : All IsText e.proposal.scopes
  pub temporal_type : IsText e.proposal.temporal_type
  pub sensitivity : IsText e.proposal.sensitivity
  pub rationale : IsText e.proposal.rationale
  pub requested_confidence : IsText e.proposal.requested_confidence

module _ (e : ObservationEnvelope) (w : IsWellFormed e) where
  source_from-mapping : source_from (source_mapping e.source) ≡ ok e.source
  unfolding source_from
  source_from-mapping = rw (w.ref, w.revision, w.content_hash, w.observed_at) refl

  assertion_from-mapping : assertion_from (assertion_mapping e.assertion) ≡ ok e.assertion
  unfolding assertion_from
  assertion_from-mapping = rw (w.subject, w.mode, w.modality) refl

  proposal_from-mapping :
      proposal_from (proposal_mapping e.proposal) e.proposal.match_memory_id ≡ ok e.proposal
  unfolding proposal_from
  proposal_from-mapping =
      rw
        (
          w.disposition,
          w.kind,
          string_list-list e.proposal.scopes "proposal.scopes" w.scopes,
          w.temporal_type,
          w.sensitivity,
          w.rationale,
          w.requested_confidence,
        )
        refl

-- An observation whose texts are not empty is read back from its mapping.
pub from_mapping-to_mapping :
    (e : ObservationEnvelope) → IsWellFormed e → from_mapping (to_mapping e) ≡ ok e
unfolding from_mapping to_mapping strict_mapping envelope_from source_from assertion_from
    proposal_from evidence_from index string optional_string ◌>>=◌
from_mapping-to_mapping e w =
    rw
      (
        optional_string-optional e.proposal.match_memory_id "proposal.match_memory_id"
            w.match_memory_id,
        w.observation_id,
        source_from-mapping e w,
        assertion_from-mapping e w,
        proposal_from-mapping e w,
      )
      refl

source_from-IsText :
    (fs : Fields) (s : ObservationSource)
    → source_from fs ≡ ok s
    → IsText s.ref × IsText s.revision × IsText s.content_hash × IsText s.observed_at
unfolding source_from
source_from-IsText fs s h = ground arith

assertion_from-IsText :
    (fs : Fields) (a : Assertion)
    → assertion_from fs ≡ ok a
    → IsText a.subject × IsText a.mode × IsText a.modality
unfolding assertion_from
assertion_from-IsText fs a h = ground arith

module _ (fs : Fields) (m : Option String) (p : Proposal) (h : proposal_from fs m ≡ ok p) where
  proposal_from-IsText :
      IsText p.disposition
      × IsText p.kind
      × IsText p.temporal_type
      × IsText p.sensitivity
      × IsText p.rationale
      × IsText p.requested_confidence
  unfolding proposal_from
  proposal_from-IsText = ground arith

  proposal_from-match : p.match_memory_id ≡ m
  unfolding proposal_from
  proposal_from-match = ground arith

  proposal_from-scopes : All IsText p.scopes
  unfolding proposal_from
  proposal_from-scopes = elim (Option-cases (get "scopes" fs)) [
    | inl missing ↦ ground arith
    | inr (v, e) ↦ string_list-IsText v "proposal.scopes" p.scopes (ground arith)
  ]

module _ (root source assertion proposal evidence : Fields) where
  envelope_from-Ensures :
      Ensures IsWellFormed (envelope_from root source assertion proposal evidence)
  unfolding envelope_from
  envelope_from-Ensures = Ensures-bind _ _ λ _ _. Ensures-bind _ _ λ match_memory_id em.
      Ensures-bind _ _ λ _ _. Ensures-bind _ _ λ observation_id eo. Ensures-bind _ _ λ source' es.
        Ensures-bind _ _ λ assertion' ea. Ensures-bind _ _ λ proposal' ep.
          Ensures-bind _ _ λ evidence' _.
            let s = source_from-IsText source source' es in
            let a = assertion_from-IsText assertion assertion' ea in
            let p = proposal_from-IsText proposal match_memory_id proposal' ep in
            Ensures-ok _ (record {
              observation_id = string-IsText _ _ _ eo;
              ref = s.0;
              revision = s.1;
              content_hash = s.2;
              observed_at = s.3;
              subject = a.0;
              mode = a.1;
              modality = a.2;
              disposition = p.0;
              match_memory_id =
                  subst IsOptionalText
                    (sym (proposal_from-match proposal match_memory_id proposal' ep))
                    (optional_string-IsText _ _ _ em);
              kind = p.1;
              scopes = proposal_from-scopes proposal match_memory_id proposal' ep;
              temporal_type = p.2;
              sensitivity = p.3;
              rationale = p.4;
              requested_confidence = p.5;
            })

from_mapping-Ensures : (v : Value) → Ensures IsWellFormed (from_mapping v)
unfolding from_mapping
from_mapping-Ensures v = Ensures-bind _ _ λ root _. Ensures-bind _ _ λ _ _.
    Ensures-bind _ _ λ source _. Ensures-bind _ _ λ _ _. Ensures-bind _ _ λ assertion _.
      Ensures-bind _ _ λ _ _. Ensures-bind _ _ λ proposal _. Ensures-bind _ _ λ _ _.
        Ensures-bind _ _ λ evidence _. envelope_from-Ensures root source assertion proposal evidence

-- Whatever is read as an observation has no empty text.
pub from_mapping-IsWellFormed :
    (v : Value) (e : ObservationEnvelope) → from_mapping v ≡ ok e → IsWellFormed e
from_mapping-IsWellFormed v = (from_mapping-Ensures v).at
