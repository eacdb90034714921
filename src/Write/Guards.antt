-- ===== src/Write/Guards.antt =====
-- What a request may change in the formal memory.
use mathlib.Core.Bool.{false≢true}
use agent_global_context.Prelude.{
  ◌≡◌, ◌≢◌, refl, sym, subst, ◌∙◌, inl, inr, Bool, true, false, not, ◌&&◌, String, Option, none,
  List, [], ◌∷◌, ◌==◌, elem, arith, Bool-cases,
}
use agent_global_context.Result.{ok}
use agent_global_context.Effects.{Machine}
use agent_global_context.Effects.Keeps.{
  Keeps, Keeps-pure, Keeps-gets, Keeps-lift, Keeps-fetch, Keeps-modify, Keeps-bind, Keeps-lift_bind,
  Keeps-if,
}
use agent_global_context.Models.{accepted}
use agent_global_context.Value.{Fields}
use agent_global_context.Contracts.{ObservationEnvelope}
use agent_global_context.Policy.{
  PolicyDecision, evaluate_observation, decision_of, is_empty, match_required, confirmable,
}
use agent_global_context.Policy.Gates.{evaluate_observation_iff}
use agent_global_context.Store.Disk.{Disk}
use agent_global_context.Store.Methods.{Call}
use agent_global_context.Write.{World, CaptureReviews, Surroundings}
use agent_global_context.Write.Candidates.{read_content, read_candidate, record_candidate}
use agent_global_context.Write.Handlers.{load_observation, is_rejected, prevalidate_draft_reviews}
use agent_global_context.Write.Observe.{
  observe_candidate, is_answered, is_for_candidate, observe_decided, check_capture_ids,
  handle_observe,
}
use agent_global_context.Write.Dispatch.{handle_propose, handle_reject, handle_capture_review}

-- The formal memory is `d`.
abbrev StoreIs : Disk → World → Type 0
StoreIs d w = w.store ≡ d

-- The component that keeps the reviews leaves the formal memory alone.
pub record LeavesStore (reviews : CaptureReviews) : Type 0 where
  pub validating :
      (ids : List String) (outcome target : String) (s : Machine World)
      → (reviews.validate_batch ids outcome target s).1.disk.store ≡ s.disk.store
  pub recording :
      (ids : List String) (outcome : String) (target : Option String) (s : Machine World)
      → (reviews.record_reviews ids outcome target s).1.disk.store ≡ s.disk.store

Keeps-content :
    {d : Disk} (name : String) (there : Bool) → Keeps (StoreIs d) (read_content there name)
unfolding read_content
Keeps-content name false = Keeps-pure _
Keeps-content name true = Keeps-bind (Keeps-fetch _) (λ _. Keeps-lift _)

module _ (env : Surroundings) (d : Disk) where
  Keeps-read_candidate : (name id : String) → Keeps (StoreIs d) (read_candidate name id)
  unfolding read_candidate
  Keeps-read_candidate name id =
      Keeps-bind (Keeps-gets _)
        (λ there. Keeps-bind (Keeps-content name there) (λ file. Keeps-lift _))

  Keeps-record_candidate : (e : ObservationEnvelope) → Keeps (StoreIs d) (record_candidate env e)
  unfolding record_candidate
  Keeps-record_candidate e = Keeps-bind (Keeps-read_candidate _ _) (λ known.
      Keeps-bind (Keeps-lift _) (λ evidence.
        Keeps-bind (Keeps-lift _)
          (λ decision. Keeps-bind (Keeps-modify _ (λ w h. h)) (λ _. Keeps-pure _))))

  Keeps-propose : (request : Fields) → Keeps (StoreIs d) (handle_propose env request)
  unfolding handle_propose
  Keeps-propose request = Keeps-bind (Keeps-lift _) (λ e. Keeps-bind (Keeps-lift _) (λ decision.
      Keeps-if (is_rejected decision.status) (λ _. Keeps-pure _)
        (λ _. Keeps-bind (Keeps-record_candidate e) (λ _. Keeps-pure _))))

  Keeps-reject : (request : Fields) → Keeps (StoreIs d) (handle_reject env request)
  unfolding handle_reject
  Keeps-reject request = Keeps-bind (Keeps-lift _) (λ id.
      Keeps-bind (Keeps-gets _)
        (λ existed. Keeps-bind (Keeps-modify _ (λ w h. h)) (λ _. Keeps-pure _)))

module _ (env : Surroundings) (d : Disk) (laws : LeavesStore env.reviews) where
  Keeps-validating :
      (ids : List String) (target : String)
      → Keeps (StoreIs d) (prevalidate_draft_reviews env ids target)
  unfolding prevalidate_draft_reviews
  Keeps-validating [] target = Keeps-pure _
  Keeps-validating (id ∷ rest) target = record {
    at = λ s p. laws.validating (id ∷ rest) "draft" target s ∙ p;
  }

  Keeps-check_capture_ids :
      (call : Call) (e : ObservationEnvelope) (ids : List String)
      → Keeps (StoreIs d) (check_capture_ids env call e ids)
  unfolding check_capture_ids
  Keeps-check_capture_ids call e [] = Keeps-pure _
  Keeps-check_capture_ids call e (id ∷ rest) =
      Keeps-bind (Keeps-lift _)
        (λ _. Keeps-bind (Keeps-lift _) (λ target. Keeps-validating (id ∷ rest) target))

  Keeps-capture_review : (request : Fields) → Keeps (StoreIs d) (handle_capture_review env request)
  unfolding handle_capture_review
  Keeps-capture_review request = Keeps-bind (Keeps-lift _) (λ _. Keeps-bind (Keeps-lift _) (λ _.
      Keeps-bind (Keeps-lift _) (λ outcome. Keeps-bind (Keeps-lift _) (λ _.
        Keeps-bind (Keeps-lift _) (λ ids.
          Keeps-bind (record { at = λ s p. laws.recording ids outcome none s ∙ p })
            (λ _. Keeps-pure _))))))

-- What the policy does not accept is answered or becomes a candidate.
module _ (e : ObservationEnvelope) where
  Handled : PolicyDecision → Type 0
  Handled decision =
      decision.status ≢ accepted → is_answered decision ≡ false → is_for_candidate e decision ≡ true

  decision_of-Handled : Handled (decision_of e)
  unfolding decision_of Handled
  decision_of-Handled =
      let p = e.proposal in
      elim (Bool-cases (p.sensitivity == "secret")) [
        | inl h ↦ rw h (λ n a. cc)
        | inr h1 ↦ elim (Bool-cases (p.sensitivity == "sensitive")) [
          | inl h ↦ rw (h1, h) (λ n a. cc)
          | inr h2 ↦
              elim (Bool-cases (elem p.disposition match_required && is_empty p.match_memory_id)) [
                | inl h ↦ rw (h1, h2, h) (λ n a. cc)
                | inr h3 ↦
                    elim (Bool-cases
                      (p.requested_confidence == "confirmed" && not (confirmable e))) [
                        | inl h ↦ rw (h1, h2, h3, h) (λ n a. ground arith)
                        | inr h4 ↦ elim (Bool-cases (e.assertion.mode == "behavior_observed")) [
                          | inl h ↦ λ n a. rw h refl
                          | inr h5 ↦ elim (Bool-cases (p.disposition == "need_more_evidence")) [
                            | inl h ↦ rw (h1, h2, h3, h4, h5, h) (λ n a. refl)
                            | inr h6 ↦ elim (Bool-cases (p.disposition == "ignore")) [
                              | inl h ↦ rw (h1, h2, h3, h4, h5, h6, h) (λ n a. absurd (n refl))
                              | inr h7 ↦ rw (h1, h2, h3, h4, h5, h6, h7) (λ n a. absurd (n refl))
                            ]
                          ]
                        ]
                      ]
              ]
        ]
      ]

module _ (env : Surroundings) (laws : LeavesStore env.reviews) (d : Disk) (call : Call) where
  Keeps-observe_decided :
      (request : Fields) (e : ObservationEnvelope) (ids : List String) (initial : PolicyDecision)
      → (is_answered initial ≡ false → is_for_candidate e initial ≡ true)
      → Keeps (StoreIs d) (observe_decided env call request e ids initial)
  unfolding observe_decided observe_candidate
  Keeps-observe_decided request e ids initial handled =
      Keeps-if (is_answered initial) (λ _. Keeps-pure _)
        (λ open_still.
          Keeps-if (is_for_candidate e initial)
            (λ _. Keeps-bind (Keeps-record_candidate env d e) (λ _. Keeps-pure _))
            (λ no_candidate. absurd (false≢true (sym no_candidate ∙ handled open_still))))

  Keeps-observe :
      (request : Fields)
      → ((e : ObservationEnvelope) (decision : PolicyDecision)
          → load_observation request ≡ ok e
          → evaluate_observation e ≡ ok decision
          → decision.status ≢ accepted)
      → Keeps (StoreIs d) (handle_observe env call request)
  unfolding handle_observe Handled
  Keeps-observe request refused = Keeps-lift_bind _ (λ e loaded. Keeps-bind (Keeps-lift _) (λ ids.
      Keeps-bind (Keeps-check_capture_ids env d laws call e ids) (λ _.
        Keeps-lift_bind _ (λ decision decided. Keeps-observe_decided request e ids decision (
          let same = ((evaluate_observation_iff e decision).0 decided).1 in
          subst (Handled e) (sym same) (decision_of-Handled e)
            (refused e decision loaded decided))))))

-- The formal memory is written only for what the policy accepts: an `observe` whose observation the
-- policy does not accept leaves it as it was, whatever faults are met and however the call ends. The
-- component that keeps the reviews is taken to leave the formal memory alone.
pub unaccepted-unchanged :
    (env : Surroundings) (call : Call) (request : Fields) (s : Machine World)
    → LeavesStore env.reviews
    → ((e : ObservationEnvelope) (decision : PolicyDecision)
        → load_observation request ≡ ok e
        → evaluate_observation e ≡ ok decision
        → decision.status ≢ accepted)
    → (handle_observe env call request s).1.disk.store ≡ s.disk.store
unaccepted-unchanged env call request s laws refused =
    (Keeps-observe env laws s.disk.store call request refused).at s refl

-- No `propose`, `reject` or `capture_review` changes the formal memory, whatever the request is,
-- whatever faults are met and however the call ends. The component that keeps the reviews is taken to
-- leave the formal memory alone.
pub proposals-unchanged :
    (env : Surroundings) (request : Fields) (s : Machine World)
    → LeavesStore env.reviews
    → ((handle_propose env request s).1.disk.store ≡ s.disk.store)
      × ((handle_reject env request s).1.disk.store ≡ s.disk.store)
      × ((handle_capture_review env request s).1.disk.store ≡ s.disk.store)
proposals-unchanged env request s laws = (
  (Keeps-propose env s.disk.store request).at s refl,
  (Keeps-reject env s.disk.store request).at s refl,
  (Keeps-capture_review env s.disk.store laws request).at s refl,
)
