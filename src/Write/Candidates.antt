-- ===== src/Write/Candidates.antt =====
-- Candidates: `_candidate_path` to `_record_candidate`.
use Prim.Native.Nat.{max, min}
use agent_global_context.Prelude.{
  ℕ, ◌-◌, Bool, true, false, ◌&&◌, String, Option, none, some, List, [], ◌∷◌, ◌++◌, ◌==◌, elem, any,
  length, if◌then◌else◌,
}
use agent_global_context.Result.{Result, ok, err, value_error, file_not_found, raise_if}
use agent_global_context.Result
use agent_global_context.Effects.{M, pure, gets, lift, fetch, modify, ◌>>=◌, ◌>>◌}
use agent_global_context.Files.{read, exists, write, string_eq}
use agent_global_context.Value.{Value, str}
use agent_global_context.Contracts.{EvidenceSummary, ObservationEnvelope}
use agent_global_context.Policy.{PolicyDecision, evaluate_observation}
use agent_global_context.Write.{CandidateSource, Candidate, World, Surroundings}

abbrev pub same_source : CandidateSource → ObservationEnvelope → Bool
same_source entry e =
    entry.ref == e.source.ref
    && entry.revision == e.source.revision
    && entry.content_hash == e.source.content_hash

-- Each text once.
unfoldable pub distinct : List String → List String
distinct [] = []
distinct (s ∷ rest) = let others = distinct rest in if elem s others then others else s ∷ others

refs_of : List CandidateSource → List String
refs_of [] = []
refs_of (source ∷ rest) = source.ref ∷ refs_of rest

days_of : (String → Result ℕ) → List CandidateSource → Result (List ℕ)
days_of day [] = ok []
days_of day (source ∷ rest) =
    Result.◌>>=◌ (day source.observed_at) (λ d. Result.◌>>=◌ (days_of day rest) (λ ds. ok (d ∷ ds)))

latest : ℕ → List ℕ → ℕ
latest d [] = d
latest d (x ∷ rest) = latest (max d x) rest

earliest : ℕ → List ℕ → ℕ
earliest d [] = d
earliest d (x ∷ rest) = earliest (min d x) rest

unfoldable pub span : List ℕ → ℕ
unfolding latest earliest
span [] = 0
span (d ∷ rest) = latest d rest - earliest d rest

unfoldable pub evidence_summary :
    (String → Result ℕ) → List CandidateSource → Result EvidenceSummary
unfolding refs_of days_of
evidence_summary day sources = Result.◌>>=◌ (days_of day sources) (λ days. ok (record {
  count = length sources;
  distinct_sessions = length (distinct (refs_of sources));
  time_span_days = span days;
}))

-- `metadata.get("candidate_status", "candidate")`
unfoldable pub candidate_status_of : List (String × Value) → Value
candidate_status_of [] = str "candidate"
candidate_status_of ((k, v) ∷ rest) =
    let later = candidate_status_of rest in if k == "candidate_status" then v else later

unfoldable pub source_of : ObservationEnvelope → CandidateSource
source_of e = record {
  ref = e.source.ref;
  revision = e.source.revision;
  content_hash = e.source.content_hash;
  observed_at = e.source.observed_at;
}

-- The sources of the candidate, of which there is none if it has no file.
unfoldable pub known_sources : Option Candidate → String → Result (List CandidateSource)
known_sources none candidate_id = ok []
known_sources (some candidate) candidate_id =
    if candidate.candidate_id == candidate_id
    then ok candidate.sources
    else err (value_error "invalid candidate record: {}" (candidate_id ∷ []))

unfoldable pub with_source : List CandidateSource → ObservationEnvelope → List CandidateSource
unfolding source_of
with_source sources e =
    if any (λ entry. same_source entry e) sources then sources else sources ++ source_of e ∷ []

unfoldable pub present : Option Candidate → Result (Option Candidate)
present none = err (file_not_found "candidate" [])
present (some candidate) = ok (some candidate)

unfoldable pub read_content : Bool → String → M World (Option Candidate)
unfolding present
read_content false name = pure none
read_content true name = do file ← fetch (λ w. read name w.candidates); lift (present file)

unfoldable pub read_candidate : String → String → M World (List CandidateSource)
unfolding read_content
read_candidate name candidate_id = do
  there ← gets (λ w. exists name w.candidates)
  file ← read_content there name
  lift (known_sources file candidate_id)

abbrev pub candidate_for : ObservationEnvelope → PolicyDecision → List CandidateSource → Candidate
candidate_for e decision sources = record {
  candidate_id = e.observation_id;
  candidate_status = candidate_status_of decision.persistable_metadata;
  kind = e.proposal.kind;
  scopes = e.proposal.scopes;
  temporal_type = e.proposal.temporal_type;
  sensitivity = e.proposal.sensitivity;
  rationale = e.proposal.rationale;
  sources = sources;
}

module _ (env : Surroundings) where
  unfoldable pub record_candidate : ObservationEnvelope → M World (PolicyDecision × EvidenceSummary)
  unfolding read_candidate
  record_candidate e = do
    let name = env.platform.sha256 e.observation_id
    known ← read_candidate name e.observation_id
    let sources = with_source known e
    evidence ← lift (evidence_summary env.day sources)
    decision ← lift (evaluate_observation (record e { evidence = evidence }))
    modify
        (λ w. record w { candidates = write name (candidate_for e decision sources) w.candidates })
    pure (decision, evidence)
