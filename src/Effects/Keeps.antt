-- ===== src/Effects/Keeps.antt =====
-- Code that keeps a property of the disk however it ends: it returns, raises or dies.
use agent_global_context.Prelude.{◌≡◌, refl, Bool, true, false, List, [], ◌∷◌, if◌then◌else◌}
use agent_global_context.Result.{Error, Result, ok, err}
use agent_global_context.Effects.{
  Fault, fine, fails, dies, Machine, Outcome, done, raised, died, M, pure, raise, gets, lift, meet,
  next, io, fetch, modify, continue, caught, on_error, within, ◌>>=◌,
}

pub record Keeps {D A : Type 0} (P : D → Type 0) (m : M D A) : Type 0 where
  pub at : (s : Machine D) → P s.disk → P (m s).1.disk

module _ {D A : Type 0} {P : D → Type 0} where
  pub Keeps-pure : (a : A) → Keeps P (pure a)
  unfolding pure
  Keeps-pure a = record { at = λ s p. p }

  pub Keeps-raise : (e : Error) → Keeps {A = A} P (raise e)
  unfolding raise
  Keeps-raise e = record { at = λ s p. p }

  pub Keeps-gets : (f : D → A) → Keeps P (gets f)
  unfolding gets
  Keeps-gets f = record { at = λ s p. p }

  pub Keeps-lift : (r : Result A) → Keeps P (lift r)
  unfolding lift
  Keeps-lift (ok a) = record { at = λ s p. p }
  Keeps-lift (err e) = record { at = λ s p. p }

  next-Keeps :
      (call : D → A × D)
      → ((x : D) → P x → P (call x).1)
      → (fs : List Fault) (x : D) → P x
      → P (next fs call x).1.disk
  unfolding next meet
  next-Keeps call k [] x p = k x p
  next-Keeps call k (fine ∷ fs) x p = k x p
  next-Keeps call k (fails ∷ fs) x p = p
  next-Keeps call k (dies ∷ fs) x p = p

  pub Keeps-fetch : (f : D → A) → Keeps P (fetch f)
  unfolding fetch io
  Keeps-fetch f = record { at = λ s p. next-Keeps (λ x. (f x, x)) (λ x q. q) s.faults s.disk p }

module _ {D : Type 0} {P : D → Type 0} where
  pub Keeps-modify : (f : D → D) → ((x : D) → P x → P (f x)) → Keeps P (modify f)
  unfolding modify io
  Keeps-modify f k = record { at = λ s p. next-Keeps (λ x. (tt, f x)) k s.faults s.disk p }

module _ {D A B : Type 0} {P : D → Type 0} where
  continue-Keeps :
      (f : A → M D B)
      → ((a : A) → Keeps P (f a))
      → (r : Outcome A) (s : Machine D) → P s.disk
      → P (continue r f s).1.disk
  unfolding continue
  continue-Keeps f k (done a) s p = (k a).at s p
  continue-Keeps f k (raised e) s p = p
  continue-Keeps f k died s p = p

  pub Keeps-bind :
      {m : M D A} {f : A → M D B} → Keeps P m → ((a : A) → Keeps P (f a)) → Keeps P (m >>= f)
  unfolding ◌>>=◌
  Keeps-bind {m} {f} h k = record {
    at = λ s p. let t = m s in continue-Keeps f k t.0 t.1 (h.at s p);
  }

  -- The rest of the code may use what was computed.
  pub Keeps-lift_bind :
      {f : A → M D B} (r : Result A) → ((a : A) → r ≡ ok a → Keeps P (f a)) → Keeps P (lift r >>= f)
  unfolding lift continue ◌>>=◌
  Keeps-lift_bind (ok a) k = record { at = λ s p. (k a refl).at s p }
  Keeps-lift_bind (err e) k = record { at = λ s p. p }

module _ {D A : Type 0} {P : D → Type 0} where
  pub Keeps-if :
      {m n : M D A} (c : Bool)
      → (c ≡ true → Keeps P m)
      → (c ≡ false → Keeps P n)
      → Keeps P (if c then m else n)
  Keeps-if true t f = t refl
  Keeps-if false t f = f refl

  caught-Keeps :
      (handler : Error → M D A)
      → ((e : Error) → Keeps P (handler e))
      → (r : Outcome A) (s : Machine D) → P s.disk
      → P (caught r handler s).1.disk
  unfolding caught
  caught-Keeps handler k (done a) s p = p
  caught-Keeps handler k (raised e) s p = (k e).at s p
  caught-Keeps handler k died s p = p

  pub Keeps-on_error :
      {m : M D A} {handler : Error → M D A}
      → Keeps P m
      → ((e : Error) → Keeps P (handler e))
      → Keeps P (on_error m handler)
  unfolding on_error
  Keeps-on_error {m} {handler} h k = record {
    at = λ s p. let t = m s in caught-Keeps handler k t.0 t.1 (h.at s p);
  }

module _ {D E A : Type 0} {P : D → Type 0} {Q : E → Type 0} (part : E → D) (put_back : D → E → E)
    (into : (x : E) → Q x → P (part x))
    (back : (d : D) (x : E) → Q x → P d → Q (put_back d x)) where
  pub Keeps-within : {m : M D A} → Keeps P m → Keeps Q (within part put_back m)
  unfolding within
  Keeps-within {m} h = record {
    at = λ s q.
        back (m (record { disk = part s.disk; faults = s.faults })).1.disk s.disk q
          (h.at (record { disk = part s.disk; faults = s.faults }) (into s.disk q));
  }
