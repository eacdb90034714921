-- ===== src/Response/Fitting.antt =====
-- The overview that is returned fits, and the error is returned only if nothing is left to drop.
use agent_global_context.Prelude.{
  ℕ, zero, suc, ◌≤◌, ◌≡◌, refl, subst, ◌∙◌, ◌<◌, inl, inr, Bool, true, false, Option, none, some,
  List, [], ◌∷◌, length, arith, Bool-cases,
}
use agent_global_context.Response.{
  Overview, drop_last, Field, the_cards, the_high_impact_scopes, the_by_scope, the_by_kind, size,
  compact, Stage, fitted, emptied, with_estimate, fits, squeeze, run_stages, fit_overview,
}

length-drop_last :
    {A : Type 0} (xs : List A) (n : ℕ) → length xs ≡ suc n → length (drop_last xs) ≡ n
unfolding drop_last
length-drop_last [] n h = ground arith
length-drop_last (x ∷ []) n h = ground arith
length-drop_last (x ∷ y ∷ rest) zero h = ground arith
length-drop_last (x ∷ y ∷ rest) (suc n) h =
    let k = length-drop_last (y ∷ rest) n (ground arith) in ground arith

size-compact : (f : Field) (d : Overview) (n : ℕ) → size f d ≡ suc n → size f (compact f d) ≡ n
unfolding compact
size-compact the_cards d n h = length-drop_last d.cards n h
size-compact the_high_impact_scopes d n h = length-drop_last d.high_impact_scopes n h
size-compact the_by_scope d n h = length-drop_last d.by_scope n h
size-compact the_by_kind d n h = length-drop_last d.by_kind n h

length-nil : {A : Type 0} (xs : List A) → length xs ≡ 0 → xs ≡ []
length-nil [] h = refl
length-nil (x ∷ xs) h = ground arith

-- An overview without what the field holds.
abbrev pub without : Field → Overview → Overview
without the_cards d = record d { cards = [] }
without the_high_impact_scopes d = record d { high_impact_scopes = [] }
without the_by_scope d = record d { by_scope = [] }
without the_by_kind d = record d { by_kind = [] }

abbrev pub bare : Overview → Overview
bare d =
    without the_by_kind
      (without the_by_scope (without the_high_impact_scopes (without the_cards d)))

without-compact : (f : Field) (d : Overview) → without f (compact f d) ≡ without f d
unfolding compact
without-compact the_cards d = refl
without-compact the_high_impact_scopes d = refl
without-compact the_by_scope d = refl
without-compact the_by_kind d = refl

without-empty : (f : Field) (d : Overview) → size f d ≡ 0 → d ≡ without f d
without-empty the_cards d h = let e = length-nil d.cards h in cc
without-empty the_high_impact_scopes d h = let e = length-nil d.high_impact_scopes h in cc
without-empty the_by_scope d h = let e = length-nil d.by_scope h in cc
without-empty the_by_kind d h = let e = length-nil d.by_kind h in cc

module _ (serialized : Overview → ℕ) (budget : ℕ) where
  -- What a stage leaves.
  abbrev Ended : Field → Overview → Stage → Type 0
  Ended f d (fitted c) = c.estimated_tokens ≤ budget
  Ended f d (emptied e) = (e ≡ without f d) × (fits serialized budget e ≡ false)

  Ended-compact : (f : Field) (d : Overview) (s : Stage) → Ended f (compact f d) s → Ended f d s
  Ended-compact f d (fitted c) h = h
  Ended-compact f d (emptied e) h = (h.0 ∙ without-compact f d, h.1)

  fits-le :
      (d : Overview)
      → fits serialized budget d ≡ true
      → (with_estimate serialized d).estimated_tokens ≤ budget
  unfolding fits
  fits-le d h = ground arith

  unfit-lt :
      (d : Overview)
      → fits serialized budget d ≡ false
      → budget < (with_estimate serialized d).estimated_tokens
  unfolding fits
  unfit-lt d h = ground arith

  squeeze_step :
      (n : ℕ) (f : Field) (d : Overview) (within : Bool)
      → fits serialized budget (compact f d) ≡ within
      → (fits serialized budget (compact f d) ≡ false
          → Ended f (compact f d) (squeeze serialized n f budget (compact f d)))
      → Ended f d (elim within [
        | true ↦ fitted (with_estimate serialized (compact f d))
        | false ↦ squeeze serialized n f budget (compact f d)
      ])
  squeeze_step n f d true e k = fits-le (compact f d) e
  squeeze_step n f d false e k = Ended-compact f d _ (k e)

  squeeze-Ended :
      (n : ℕ) (f : Field) (d : Overview)
      → size f d ≡ n
      → fits serialized budget d ≡ false
      → Ended f d (squeeze serialized n f budget d)
  unfolding squeeze
  squeeze-Ended zero f d h over = (without-empty f d h, over)
  squeeze-Ended (suc n) f d h over =
      squeeze_step n f d (fits serialized budget (compact f d)) refl
        (λ still. squeeze-Ended n f (compact f d) (size-compact f d n h) still)

  abbrev stripped : List Field → Overview → Overview
  stripped [] d = d
  stripped (f ∷ rest) d = stripped rest (without f d)

  -- What the stages return.
  abbrev Returned : List Field → Overview → Option Overview → Type 0
  Returned fields d (some c) = c.estimated_tokens ≤ budget
  Returned fields d none = fits serialized budget (stripped fields d) ≡ false

  after_stage :
      (f : Field) (rest : List Field) (d : Overview) (s : Stage)
      → Ended f d s
      → ((e : Overview)
          → fits serialized budget e ≡ false
          → Returned rest e (run_stages serialized rest budget e))
      → Returned
          (f ∷ rest)
          d
          (elim s [ fitted c ↦ some c | emptied e ↦ run_stages serialized rest budget e ])
  after_stage f rest d (fitted c) h k = h
  after_stage f rest d (emptied e) h k =
      subst (λ x. Returned rest x (run_stages serialized rest budget e)) h.0 (k e h.1)

  run_stages-Returned :
      (fields : List Field) (d : Overview)
      → fits serialized budget d ≡ false
      → Returned fields d (run_stages serialized fields budget d)
  unfolding run_stages
  run_stages-Returned [] d over = over
  run_stages-Returned (f ∷ rest) d over =
      after_stage f rest d (squeeze serialized (size f d) f budget d)
        (squeeze-Ended (size f d) f d refl over) (run_stages-Returned rest)

abbrev all_fields : List Field
all_fields = the_cards ∷ the_high_impact_scopes ∷ the_by_scope ∷ the_by_kind ∷ []

module _ (serialized : Overview → ℕ) (budget : ℕ) (d : Overview) where
  fit_overview-Returned : Returned serialized budget all_fields d (fit_overview serialized budget d)
  unfolding fit_overview
  fit_overview-Returned = elim (Bool-cases (fits serialized budget d)) [
    | inl within ↦ rw within (fits-le serialized budget d within)
    | inr over ↦ rw over (run_stages-Returned serialized budget all_fields d over)
  ]

-- An overview that is returned is estimated within the budget.
pub fit_overview-within :
    (serialized : Overview → ℕ) (budget : ℕ) (d c : Overview)
    → fit_overview serialized budget d ≡ some c
    → c.estimated_tokens ≤ budget
fit_overview-within serialized budget d c h =
    subst (Returned serialized budget all_fields d) h (fit_overview-Returned serialized budget d)

-- The budget error is returned only if the overview is estimated above the budget even without its
-- cards, its scopes and its counts: the loops give up nothing that could have fitted when all is gone.
pub fit_overview-exhausted :
    (serialized : Overview → ℕ) (budget : ℕ) (d : Overview)
    → fit_overview serialized budget d ≡ none
    → budget < (with_estimate serialized (bare d)).estimated_tokens
fit_overview-exhausted serialized budget d h =
    unfit-lt serialized budget (bare d) (
      subst (Returned serialized budget all_fields d) h (fit_overview-Returned serialized budget d))
