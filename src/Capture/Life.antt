-- ===== src/Capture/Life.antt =====
-- The life of a captured task.
use mathlib.Core.Bool.{false≢true}
use agent_global_context.Prelude.{
  ◌⊎◌, ◌≡◌, refl, sym, ◌∙◌, ◌↔◌, subst, Bool, true, false, not, ◌&&◌, ◌==◌, eq_iff, ◌≢◌, All,
  String, Option, none, some, List, [], ◌∷◌, elem, IsOneOf, elem→IsOneOf, arith, Bool-cases, inl,
  inr,
}
use agent_global_context.Result.{Error, Result, ok, raise_if, ◌>>=◌, ◌>>◌}
use agent_global_context.Capture.{
  capture_transitions, capture_statuses, is_parked, targets_of, check_reason,
  validate_capture_transition,
}

-- A chain of transitions that are allowed, each with its reason.
pub data Lives : String → String → Type 0 where
  rests : (s : String) → Lives s s
  steps :
      {s t : String} (u : String) (reason : Option String)
      → Lives s t
      → validate_capture_transition t u reason ≡ ok tt
      → Lives s u

-- Does the chain go through the status?
abbrev pub Passes : {s t : String} → String → Lives s t → Type 0
Passes status (rests s) = s ≡ status
Passes status (steps u reason p e) = (u ≡ status) ⊎ Passes status p

left_holds : (a b : Bool) → (a && b) ≡ true → a ≡ true
left_holds a b h = ground arith

both_pass :
    (c d : Bool) (e f : Error) (rest : Result (Unit {0}))
    → (raise_if (not c) e >> (raise_if (not d) f >> rest)) ≡ ok tt
    → (c ≡ true) × (d ≡ true) × (rest ≡ ok tt)
unfolding raise_if ◌>>=◌
both_pass true true e f rest h = (refl, refl, h)
both_pass true false e f rest h = cc
both_pass false d e f rest h = cc

-- What is checked of a transition.
step_checks :
    (s t : String) (reason : Option String)
    → validate_capture_transition s t reason ≡ ok tt
    → ((elem s capture_statuses && elem t capture_statuses) ≡ true)
      × (elem t (targets_of s capture_transitions) ≡ true)
      × (check_reason (is_parked s && t == "queued") reason ≡ ok tt)
unfolding validate_capture_transition
step_checks s t reason h = both_pass _ _ _ _ _ h

known_source :
    (s t : String) (reason : Option String)
    → validate_capture_transition s t reason ≡ ok tt
    → IsOneOf s capture_statuses
known_source s t reason h =
    elem→IsOneOf s capture_statuses
      (left_holds (elem s capture_statuses) (elem t capture_statuses) (step_checks s t reason h).0)

one_of : (P : String → Type 0) (s : String) (xs : List String) → All P xs → IsOneOf s xs → P s
one_of P s [] k m = absurd m
one_of P s (x ∷ xs) k (inl e) = subst P (sym e) k.0
one_of P s (x ∷ xs) k (inr m) = one_of P s xs k.1 m

no : {A : Type 0} → false ≡ true → A
no h = absurd (false≢true h)

-- The statuses from which the target can be entered are `sources`.
abbrev EnteredFrom : String → String → String → Type 0
EnteredFrom target source s = elem target (targets_of s capture_transitions) ≡ true → s ≡ source

complete_entered : All (EnteredFrom "complete" "extracting") capture_statuses
complete_entered = (no, (no, (λ h. refl, (no, (no, (no, (no, (no, (no, (no, tt))))))))))

extracting_entered : All (EnteredFrom "extracting" "queued") capture_statuses
extracting_entered = (no, (λ h. refl, (no, (no, (no, (no, (no, (no, (no, (no, tt))))))))))

entered :
    (target source : String)
    → All (EnteredFrom target source) capture_statuses
    → (s t : String) (reason : Option String) → t ≡ target
    → validate_capture_transition s t reason ≡ ok tt
    → s ≡ source
entered target source k s t reason same h =
    one_of (EnteredFrom target source) s capture_statuses k (known_source s t reason h) (
      subst (λ u. elem u (targets_of s capture_transitions) ≡ true) same
        (step_checks s t reason h).1)

-- A chain goes through its end.
ends_there : {s t : String} (p : Lives s t) → Passes t p
ends_there (rests s) = refl
ends_there (steps u reason p e) = inl refl

Passes-before :
    (target source : String)
    → All (EnteredFrom target source) capture_statuses
    → {s t : String} (p : Lives s t) → s ≢ target
    → Passes target p
    → Passes source p
Passes-before target source k (rests s) other here = absurd (other here)
Passes-before target source k (steps {s} {t} u reason p e) other (inl same) =
    inr (subst (λ v. Passes v p) (entered target source k t u reason same e) (ends_there p))
Passes-before target source k (steps u reason p e) other (inr before) =
    inr (Passes-before target source k p other before)

discovered_early :
    (◌≢◌ {A = String} "discovered" "complete") × (◌≢◌ {A = String} "discovered" "extracting")
discovered_early = (
  λ h. no ((eq_iff "discovered" "complete").1 h),
  λ h. no ((eq_iff "discovered" "extracting").1 h),
)

-- A captured task that was discovered and is complete has been queued and extracted, whatever else
-- happened to it and for whatever reasons it was reopened.
pub complete-Passes :
    (p : Lives "discovered" "complete") → Passes "queued" p × Passes "extracting" p
complete-Passes p =
    let extracted =
      Passes-before "complete" "extracting" complete_entered p discovered_early.0 (ends_there p) in
    (
      Passes-before "extracting" "queued" extracting_entered p discovered_early.1 extracted,
      extracted,
    )

parked_target :
    (s t : String)
    → IsOneOf s ("failed" ∷ "quarantined" ∷ [])
    → elem t (targets_of s capture_transitions) ≡ true
    → (t == "queued") ≡ true
parked_target s t (inl e) h =
    ground (arith, subst (λ u. elem t (targets_of u capture_transitions) ≡ true) e h)
parked_target s t (inr (inl e)) h =
    ground (arith, subst (λ u. elem t (targets_of u capture_transitions) ≡ true) e h)
parked_target s t (inr (inr e)) h = absurd e

reason_given : (reason : Option String) → check_reason true reason ≡ ok tt → reason ≢ none
unfolding check_reason
reason_given none h = cc
reason_given (some reason) h = λ e. cc

reason_withheld : (reason : Option String) → check_reason false reason ≡ ok tt → reason ≡ none
unfolding check_reason
reason_withheld none h = refl
reason_withheld (some reason) h = cc

-- A transition that is allowed leaves a failed or quarantined task exactly if a reason is given, and the
-- task is then queued.
pub reopening_iff :
    (s t : String) (reason : Option String)
    → validate_capture_transition s t reason ≡ ok tt
    → ((is_parked s ≡ true) ↔ (reason ≢ none)) × (is_parked s ≡ true → t ≡ "queued")
reopening_iff s t reason h =
    let checks = step_checks s t reason h in
    let queued = λ (parked : is_parked s ≡ true).
      parked_target s t (elem→IsOneOf s ("failed" ∷ "quarantined" ∷ []) parked) checks.1 in
    elim (Bool-cases (is_parked s)) [
      | inl parked ↦ (
        (λ _. reason_given reason (rw (parked, queued parked) at checks.2), λ _. parked),
        λ _. (eq_iff t "queued").0 (queued parked),
      )
      | inr open_still ↦ (
        (
          λ parked. absurd (false≢true (sym open_still ∙ parked)),
          λ given. absurd (given (reason_withheld reason (rw open_still at checks.2))),
        ),
        λ parked. absurd (false≢true (sym open_still ∙ parked)),
      )
    ]
