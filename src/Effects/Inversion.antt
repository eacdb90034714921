-- ===== src/Effects/Inversion.antt =====
-- What a run that returned did on its way.
use agent_global_context.Prelude.{◌≡◌, refl, ap}
use agent_global_context.Effects.Meets.{done-injective}
use agent_global_context.Effects.{Machine, Outcome, done, raised, died, M, pure, continue, ◌>>=◌}

module _ {D A : Type 0} where
  pub pure-done : (a b : A) (s t : Machine D) → pure a s ≡ (done b, t) → (a ≡ b) × (s ≡ t)
  unfolding pure
  pure-done a b s t h = (
    done-injective a b (ap (λ (x : Outcome A × Machine D). x.0) h),
    ap (λ (x : Outcome A × Machine D). x.1) h,
  )

module _ {D A B : Type 0} (f : A → M D B) (b : B) (u : Machine D) where
  continue-done :
      (r : Outcome A) (t : Machine D)
      → continue r f t ≡ (done b, u)
      → (a : A) × (r ≡ done a) × (f a t ≡ (done b, u))
  unfolding continue
  continue-done (done a) t h = (a, refl, h)
  continue-done (raised e) t h = cc
  continue-done died t h = cc

  -- Code that returned ran its first part to the end, and the rest from what that left.
  pub >>=-done :
      (m : M D A) (s : Machine D)
      → (m >>= f) s ≡ (done b, u)
      → (a : A) × (t : Machine D) × (m s ≡ (done a, t)) × (f a t ≡ (done b, u))
  unfolding ◌>>=◌
  >>=-done m s h =
      let (a, first, rest) = continue-done (m s).0 (m s).1 h in
      (a, (m s).1, ap (λ (r : Outcome A). (r, (m s).1)) first, rest)
