-- ===== src/Contracts.antt =====
-- The observation that an agent submits: agc_runtime/contracts.py.
pub mod RoundTrip
use agent_global_context.Prelude.{ℕ, String, Option, List, [], ◌∷◌}
use agent_global_context.Result.{Result, ok, err, ◌>>=◌}
use agent_global_context.Models.{SourceKey}
use agent_global_context.Value.{
  pos, Value, int, str, list, dict, Fields, values_of, fields_of, optional,
}
use agent_global_context.Value.Strict.{
  strict_mapping, string, optional_string, string_list, non_negative_int, index,
}

pub record ObservationSource : Type 0 where
  pub ref : String
  pub revision : String
  pub content_hash : String
  pub observed_at : String

pub record Assertion : Type 0 where
  pub subject : String
  pub mode : String
  pub modality : String

pub record Proposal : Type 0 where
  pub disposition : String
  pub match_memory_id : Option String
  pub kind : String
  pub scopes : List String
  pub temporal_type : String
  pub sensitivity : String
  pub rationale : String
  pub requested_confidence : String

pub record EvidenceSummary : Type 0 where
  pub count : ℕ
  pub distinct_sessions : ℕ
  pub time_span_days : ℕ

pub record ObservationEnvelope : Type 0 where
  pub observation_id : String
  pub source : ObservationSource
  pub assertion : Assertion
  pub proposal : Proposal
  pub evidence : EvidenceSummary

abbrev pub observation_fields : List String
observation_fields = "observation_id" ∷ "source" ∷ "assertion" ∷ "proposal" ∷ "evidence" ∷ []

abbrev pub source_fields : List String
source_fields = "ref" ∷ "revision" ∷ "content_hash" ∷ "observed_at" ∷ []

abbrev pub assertion_fields : List String
assertion_fields = "subject" ∷ "mode" ∷ "modality" ∷ []

abbrev pub proposal_fields : List String
proposal_fields =
    "disposition" ∷ "match_memory_id" ∷ "kind" ∷ "scopes" ∷ "temporal_type" ∷ "sensitivity"
    ∷ "rationale" ∷ "requested_confidence" ∷ []

abbrev pub evidence_fields : List String
evidence_fields = "count" ∷ "distinct_sessions" ∷ "time_span_days" ∷ []

unfoldable pub source_from : Fields → Result ObservationSource
unfolding index string ◌>>=◌
source_from source = do
  ref ← string (← index source "ref") "source.ref"
  revision ← string (← index source "revision") "source.revision"
  content_hash ← string (← index source "content_hash") "source.content_hash"
  observed_at ← string (← index source "observed_at") "source.observed_at"
  ok (record {
    ref = ref;
    revision = revision;
    content_hash = content_hash;
    observed_at = observed_at;
  })

unfoldable pub assertion_from : Fields → Result Assertion
unfolding index string ◌>>=◌
assertion_from assertion = do
  subject ← string (← index assertion "subject") "assertion.subject"
  mode ← string (← index assertion "mode") "assertion.mode"
  modality ← string (← index assertion "modality") "assertion.modality"
  ok (record { subject = subject; mode = mode; modality = modality })

-- `match_memory_id` is read before all else.
unfoldable pub proposal_from : Fields → Option String → Result Proposal
unfolding index string string_list ◌>>=◌
proposal_from proposal match_memory_id = do
  disposition ← string (← index proposal "disposition") "proposal.disposition"
  kind ← string (← index proposal "kind") "proposal.kind"
  scopes ← string_list (← index proposal "scopes") "proposal.scopes"
  temporal_type ← string (← index proposal "temporal_type") "proposal.temporal_type"
  sensitivity ← string (← index proposal "sensitivity") "proposal.sensitivity"
  rationale ← string (← index proposal "rationale") "proposal.rationale"
  requested_confidence ←
      string (← index proposal "requested_confidence") "proposal.requested_confidence"
  ok (record {
    disposition = disposition;
    match_memory_id = match_memory_id;
    kind = kind;
    scopes = scopes;
    temporal_type = temporal_type;
    sensitivity = sensitivity;
    rationale = rationale;
    requested_confidence = requested_confidence;
  })

unfoldable pub evidence_from : Fields → Result EvidenceSummary
unfolding index non_negative_int ◌>>=◌
evidence_from evidence = do
  count ← non_negative_int (← index evidence "count") "evidence.count"
  distinct_sessions ←
      non_negative_int (← index evidence "distinct_sessions") "evidence.distinct_sessions"
  time_span_days ← non_negative_int (← index evidence "time_span_days") "evidence.time_span_days"
  ok (record {
    count = count;
    distinct_sessions = distinct_sessions;
    time_span_days = time_span_days;
  })

-- The part of `from_mapping` that reads the fields, once the mappings have the right keys.
unfoldable pub envelope_from :
    Fields → Fields → Fields → Fields → Fields → Result ObservationEnvelope
envelope_from root source assertion proposal evidence = do
  match_memory_id ← optional_string (← index proposal "match_memory_id") "proposal.match_memory_id"
  observation_id ← string (← index root "observation_id") "observation_id"
  source' ← source_from source
  assertion' ← assertion_from assertion
  proposal' ← proposal_from proposal match_memory_id
  evidence' ← evidence_from evidence
  ok (record {
    observation_id = observation_id;
    source = source';
    assertion = assertion';
    proposal = proposal';
    evidence = evidence';
  })

-- ObservationEnvelope.from_mapping
unfoldable pub from_mapping : Value → Result ObservationEnvelope
from_mapping value = do
  root ← strict_mapping value "observation" observation_fields
  source ← strict_mapping (← index root "source") "source" source_fields
  assertion ← strict_mapping (← index root "assertion") "assertion" assertion_fields
  proposal ← strict_mapping (← index root "proposal") "proposal" proposal_fields
  evidence ← strict_mapping (← index root "evidence") "evidence" evidence_fields
  envelope_from root source assertion proposal evidence

abbrev pub source_mapping : ObservationSource → Fields
source_mapping s = fields_of (
    ("ref", str s.ref)
    ∷ ("revision", str s.revision)
    ∷ ("content_hash", str s.content_hash)
    ∷ ("observed_at", str s.observed_at)
    ∷ [])

abbrev pub assertion_mapping : Assertion → Fields
assertion_mapping a =
    fields_of
      (("subject", str a.subject) ∷ ("mode", str a.mode) ∷ ("modality", str a.modality) ∷ [])

abbrev pub proposal_mapping : Proposal → Fields
proposal_mapping p = fields_of (
    ("disposition", str p.disposition)
    ∷ ("match_memory_id", optional p.match_memory_id)
    ∷ ("kind", str p.kind)
    ∷ ("scopes", list (values_of p.scopes))
    ∷ ("temporal_type", str p.temporal_type)
    ∷ ("sensitivity", str p.sensitivity)
    ∷ ("rationale", str p.rationale)
    ∷ ("requested_confidence", str p.requested_confidence)
    ∷ [])

abbrev pub evidence_mapping : EvidenceSummary → Fields
evidence_mapping e = fields_of (
    ("count", int (pos e.count))
    ∷ ("distinct_sessions", int (pos e.distinct_sessions))
    ∷ ("time_span_days", int (pos e.time_span_days))
    ∷ [])

-- ObservationEnvelope.to_mapping
unfoldable pub to_mapping : ObservationEnvelope → Value
to_mapping e = dict (
    fields_of (
      ("observation_id", str e.observation_id)
      ∷ ("source", dict (source_mapping e.source))
      ∷ ("assertion", dict (assertion_mapping e.assertion))
      ∷ ("proposal", dict (proposal_mapping e.proposal))
      ∷ ("evidence", dict (evidence_mapping e.evidence))
      ∷ []))
