-- ===== src/Write/Evidence.antt =====
-- The evidence of a candidate.
use agent_global_context.Prelude.{
  ◌≡◌, refl, ap, ◌∙◌, Bool, true, String, List, [], ◌∷◌, ◌++◌, eq_iff, any, arith, Bool-cases,
  Option-cases, inl, inr,
}
use agent_global_context.Result.{ok}
use agent_global_context.Effects.{Machine, done, pure, gets, lift, fetch, modify, ◌>>=◌}
use agent_global_context.Files.{read, write, string_eq, read-write, write-write}
use agent_global_context.Contracts.{EvidenceSummary, ObservationEnvelope}
use agent_global_context.Policy.{PolicyDecision, evaluate_observation}
use agent_global_context.Write.{CandidateSource, World, Surroundings}
use agent_global_context.Write.Candidates.{
  same_source, evidence_summary, source_of, known_sources, with_source, present, read_content,
  read_candidate, candidate_for, record_candidate,
}

same_source-source_of : (e : ObservationEnvelope) → same_source (source_of e) e ≡ true
unfolding source_of
same_source-source_of e = ground (
  arith,
  eq_iff e.source.ref e.source.ref,
  eq_iff e.source.revision e.source.revision,
  eq_iff e.source.content_hash e.source.content_hash,
)

any-append :
    (p : CandidateSource → Bool) (xs : List CandidateSource) (y : CandidateSource)
    → p y ≡ true
    → any p (xs ++ y ∷ []) ≡ true
any-append p [] y h = rw h refl
any-append p (x ∷ xs) y h = ground (arith, any-append p xs y h)

-- A source that is known is not added again.
pub with_source_idem :
    (sources : List CandidateSource) (e : ObservationEnvelope)
    → with_source (with_source sources e) e ≡ with_source sources e
unfolding with_source
with_source_idem sources e = elim (Bool-cases (any (λ entry. same_source entry e) sources)) [
  | inl known ↦ rw (known, known) refl
  | inr new ↦
      rw
        (
          new,
          any-append (λ entry. same_source entry e) sources (source_of e) (same_source-source_of e),
        )
        refl
]

abbrev pub at_rest : World → Machine World
at_rest w = record { disk = w; faults = [] }

known_read :
    (name id : String) (w : World) (sources : List CandidateSource)
    → known_sources (read name w.candidates) id ≡ ok sources
    → read_candidate name id (at_rest w) ≡ (done sources, at_rest w)
unfolding read_candidate read_content present gets lift pure fetch ◌>>=◌
known_read name id w sources h = elim (Option-cases (read name w.candidates)) [
  | inl absent ↦ rw (absent, rw absent at h) refl
  | inr (c, there) ↦ rw (there, there, rw there at h) refl
]

-- What recording an observation leaves.
abbrev pub recorded :
    Surroundings → ObservationEnvelope → PolicyDecision → List CandidateSource → World → World
recorded env e decision sources w = record w {
  candidates =
      write (env.platform.sha256 e.observation_id) (candidate_for e decision sources) w.candidates;
}

module _ (env : Surroundings) (e : ObservationEnvelope) (decision : PolicyDecision)
    (evidence : EvidenceSummary) where
  record_known :
      (w : World) (known : List CandidateSource)
      → known_sources (read (env.platform.sha256 e.observation_id) w.candidates) e.observation_id
        ≡ ok known
      → evidence_summary env.day (with_source known e) ≡ ok evidence
      → evaluate_observation (record e { evidence = evidence }) ≡ ok decision
      → record_candidate env e (at_rest w)
        ≡ (done (decision, evidence), at_rest (recorded env e decision (with_source known e) w))
  unfolding record_candidate lift pure modify ◌>>=◌
  record_known w known there summed decided =
      rw
        (
          known_read (env.platform.sha256 e.observation_id) e.observation_id w known there,
          summed,
          decided,
        )
        refl

  known_again :
      (w : World) (sources : List CandidateSource)
      → known_sources
          (read
            (env.platform.sha256 e.observation_id)
            (recorded env e decision sources w).candidates)
          e.observation_id
        ≡ ok sources
  unfolding known_sources
  known_again w sources =
      let name = env.platform.sha256 e.observation_id in
      rw
        (
          read-write name name (candidate_for e decision sources) w.candidates,
          (eq_iff name name).1 refl,
          (eq_iff e.observation_id e.observation_id).1 refl,
        )
        refl

-- Recording an observation whose source is known already, with no fault, gives the same decision on the
-- same evidence, and leaves everything as the first time: a source is counted once.
pub record_candidate-once :
    (env : Surroundings) (e : ObservationEnvelope) (decision : PolicyDecision)
    (evidence : EvidenceSummary) (w : World) (known : List CandidateSource)
    → known_sources (read (env.platform.sha256 e.observation_id) w.candidates) e.observation_id
      ≡ ok known
    → evidence_summary env.day (with_source known e) ≡ ok evidence
    → evaluate_observation (record e { evidence = evidence }) ≡ ok decision
    → let after = recorded env e decision (with_source known e) w in
      (record_candidate env e (at_rest w) ≡ (done (decision, evidence), at_rest after))
      × (record_candidate env e (at_rest after) ≡ (done (decision, evidence), at_rest after))
record_candidate-once env e decision evidence w known there summed decided =
    let sources = with_source known e in
    let name = env.platform.sha256 e.observation_id in
    let again =
      record_known env e decision evidence (recorded env e decision sources w) sources
        (known_again env e decision evidence w sources)
        (ap (evidence_summary env.day) (with_source_idem known e) ∙ summed) decided in
    (
      record_known env e decision evidence w known there summed decided,
      again
          ∙ ap (λ cs. (done (decision, evidence), at_rest (record w { candidates = cs })))
              (ap
                  (λ ss.
                    write name (candidate_for e decision ss)
                      (write name (candidate_for e decision sources) w.candidates))
                  (with_source_idem known e)
                ∙ write-write name (candidate_for e decision sources)
                    (candidate_for e decision sources) w.candidates),
    )
