-- ===== src/Effects/Raises.antt =====
-- Which exceptions code lets out.
use agent_global_context.Prelude.{◌≡◌, subst}
use agent_global_context.Result.{Error}
use agent_global_context.Effects.{
  Machine, Outcome, done, raised, died, M, pure, raise, caught, on_error,
}

abbrev pub LetsOut : {A : Type 0} → (Error → Type 0) → Outcome A → Type 0
LetsOut P (done a) = Unit
LetsOut P (raised e) = P e
LetsOut P died = Unit

pub record Raises {D A : Type 0} (P : Error → Type 0) (m : M D A) : Type 0 where
  pub at : (s : Machine D) → LetsOut P (m s).0

module _ {D A : Type 0} {P : Error → Type 0} where
  pub Raises-pure : (a : A) → Raises {D = D} P (pure a)
  unfolding pure
  Raises-pure a = record { at = λ s. tt }

  pub Raises-raise : (e : Error) → P e → Raises {D = D} {A = A} P (raise e)
  unfolding raise
  Raises-raise e p = record { at = λ s. p }

  caught-LetsOut :
      (handler : Error → M D A)
      → ((e : Error) → Raises P (handler e))
      → (r : Outcome A) (s : Machine D) → LetsOut P (caught r handler s).0
  unfolding caught
  caught-LetsOut handler k (done a) s = tt
  caught-LetsOut handler k (raised e) s = (k e).at s
  caught-LetsOut handler k died s = tt

  -- Only what the handler raises is let out.
  pub Raises-on_error :
      (m : M D A) (handler : Error → M D A)
      → ((e : Error) → Raises P (handler e))
      → Raises P (on_error m handler)
  unfolding on_error
  Raises-on_error m handler k = record { at = λ s. let t = m s in caught-LetsOut handler k t.0 t.1 }

raised-injective : {A : Type 0} (x e : Error) → ◌≡◌ {A = Outcome A} (raised x) (raised e) → x ≡ e
raised-injective x e h = cc

pub raised-LetsOut :
    {A : Type 0} (P : Error → Type 0) (r : Outcome A) (e : Error) → r ≡ raised e → LetsOut P r → P e
raised-LetsOut P (done a) e h k = cc
raised-LetsOut P (raised x) e h k = subst P (raised-injective x e h) k
raised-LetsOut P died e h k = cc
