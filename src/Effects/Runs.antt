-- ===== src/Effects/Runs.antt =====
-- Runs over every choice of faults. Code has one way to succeed, so a run from a disk is described
-- by what it returns and leaves when no call fails, and by what may be left when one does. A calm
-- run meets no fault.
use agent_global_context.Prelude.{◌≡◌, refl, sym, Bool, true, false, List, [], ◌∷◌}
use agent_global_context.Prelude.{subst}
use agent_global_context.Result.{Error, Result, ok}
use agent_global_context.Effects.{
  Fault, fine, fails, dies, Machine, Outcome, done, raised, died, M, pure, gets, lift, next, fetch,
  modify, continue, ◌>>=◌, after, rescue, on_raise,
}

abbrev pub IsCalm : Bool → List Fault → Type 0
IsCalm true faults = faults ≡ []
IsCalm false faults = Unit

module _ {D A : Type 0} (calm : Bool) (a : A) (y : D) (R : D → Type 0) where
  abbrev pub Ends : Outcome A → Machine D → Type 0
  Ends (done b) s = (b ≡ a) × (s.disk ≡ y) × IsCalm calm s.faults
  Ends (raised e) s = (calm ≡ false) × R s.disk
  Ends died s = (calm ≡ false) × R s.disk

-- From the disk `x` the code returns `a` and leaves `y`; or a call failed, and `R` holds of what is
-- left.
pub record Runs {D A : Type 0} (calm : Bool) (x : D) (m : M D A) (a : A) (y : D) (R : D → Type 0)
    : Type 0 where
  pub at :
      (fs : List Fault)
      → IsCalm calm fs
      → Ends calm a y R
          (m (record { disk = x; faults = fs })).0
          (m (record { disk = x; faults = fs })).1

module _ {D A : Type 0} {calm : Bool} {x : D} {R : D → Type 0} where
  pub Runs-pure : (a : A) → Runs calm x (pure a) a x R
  unfolding pure
  Runs-pure a = record { at = λ fs c. (refl, refl, c) }

  pub Runs-gets : (f : D → A) → Runs calm x (gets f) (f x) x R
  unfolding gets
  Runs-gets f = record { at = λ fs c. (refl, refl, c) }

  pub Runs-lift : {r : Result A} (a : A) → r ≡ ok a → Runs calm x (lift r) a x R
  unfolding lift
  Runs-lift a e = rw e (record { at = λ fs c. (refl, refl, c) })

module _ {D A : Type 0} (call : D → A × D) (x : D) (R : D → Type 0) (safe : R x) where
  next-Ends :
      (calm : Bool) (fs : List Fault)
      → IsCalm calm fs
      → Ends calm (call x).0 (call x).1 R (next fs call x).0 (next fs call x).1
  unfolding next
  next-Ends true [] c = (refl, refl, refl)
  next-Ends false [] c = (refl, refl, tt)
  next-Ends true (f ∷ fs) c = cc
  next-Ends false (fine ∷ fs) c = (refl, refl, tt)
  next-Ends false (fails ∷ fs) c = (refl, safe)
  next-Ends false (dies ∷ fs) c = (refl, safe)

module _ {D A : Type 0} {calm : Bool} {x : D} {R : D → Type 0} (safe : R x) where
  pub Runs-fetch : (f : D → A) → Runs calm x (fetch f) (f x) x R
  unfolding fetch
  Runs-fetch f = record { at = λ fs c. next-Ends (λ d. (f d, d)) x R safe calm fs c }

module _ {D : Type 0} {calm : Bool} {x y : D} {R : D → Type 0} (safe : R x) where
  pub Runs-modify : (f : D → D) → f x ≡ y → Runs calm x (modify f) tt y R
  unfolding modify
  Runs-modify f e = rw (← e) (record { at = λ fs c. next-Ends (λ d. (tt, f d)) x R safe calm fs c })

module _ {D A B : Type 0} (calm : Bool) (a : A) (y : D) (b : B) (z : D) (R : D → Type 0)
    (f : A → M D B) (rest : Runs calm y (f a) b z R) where
  continue-Ends :
      (r : Outcome A) (s : Machine D)
      → Ends calm a y R r s
      → Ends calm b z R (continue r f s).0 (continue r f s).1
  unfolding continue
  continue-Ends (done a') s h =
      subst (λ k. Ends calm b z R (f k s).0 (f k s).1) (sym h.0)
        (subst
          (λ k.
            Ends calm b z R (f a (record { disk = k; faults = s.faults })).0
              (f a (record { disk = k; faults = s.faults })).1)
          (sym h.1) (rest.at s.faults h.2))
  continue-Ends (raised e) s h = h
  continue-Ends died s h = h

module _ {D A B : Type 0} {calm : Bool} {x y z : D} {a : A} {b : B} {R : D → Type 0} where
  pub Runs-bind :
      (m : M D A) (f : A → M D B)
      → Runs calm x m a y R
      → Runs calm y (f a) b z R
      → Runs calm x (m >>= f) b z R
  unfolding ◌>>=◌
  Runs-bind m f first rest = record {
    at = λ fs c.
        let s = m (record { disk = x; faults = fs }) in
        continue-Ends calm a y b z R f rest s.0 s.1 (first.at fs c);
  }

-- What a handler must do wherever the body may have stopped: whether it returns or not, `R` holds.
abbrev pub Repairs : {D : Type 0} → M D (Unit {0}) → (D → Type 0) → (D → Type 0) → Type 0
Repairs {D} handler R' R = (d : D) → R' d → (z : D) × Runs false d handler tt z R × R z

module _ {D A : Type 0} (a : A) (y : D) (R' R : D → Type 0) (handler : M D (Unit {0}))
    (repairs : Repairs handler R' R) (weaker : (d : D) → R' d → R d) where
  after-Ends :
      (e : Error) (z : D) (r : Outcome (Unit {0})) (s : Machine D)
      → R z
      → Ends false tt z R r s
      → Ends false a y R (after {A = A} e r) s
  unfolding after
  after-Ends e z (done _) s k h = (refl, subst R (sym h.1) k)
  after-Ends e z (raised _) s k h = h
  after-Ends e z died s k h = h

  rescue-Ends :
      (calm : Bool) (r : Outcome A) (s : Machine D)
      → Ends calm a y R' r s
      → Ends calm a y R (rescue r handler s).0 (rescue r handler s).1
  unfolding rescue
  rescue-Ends calm (done b) s h = h
  rescue-Ends true (raised e) s h = cc
  rescue-Ends false (raised e) s h =
      let (z, runs, k) = repairs s.disk h.1 in
      after-Ends e z (handler s).0 (handler s).1 k (runs.at s.faults tt)
  rescue-Ends calm died s h = (h.0, weaker s.disk h.1)

module _ {D A : Type 0} {calm : Bool} {x y : D} {a : A} {R' R : D → Type 0} where
  pub Runs-on_raise :
      (m : M D A) (handler : M D (Unit {0}))
      → Runs calm x m a y R'
      → Repairs handler R' R
      → ((d : D) → R' d → R d)
      → Runs calm x (on_raise m handler) a y R
  unfolding on_raise
  Runs-on_raise m handler body repairs weaker = record {
    at = λ fs c.
        let s = m (record { disk = x; faults = fs }) in
        rescue-Ends a y R' R handler repairs weaker calm s.0 s.1 (body.at fs c);
  }

module _ {D A : Type 0} (calm : Bool) (y : D) (a : A) where
  weaken-Ends :
      (R R' : D → Type 0) (k : (d : D) → R d → R' d) (r : Outcome A) (s : Machine D)
      → Ends calm a y R r s
      → Ends calm a y R' r s
  weaken-Ends R R' k (done b) s h = h
  weaken-Ends R R' k (raised e) s h = (h.0, k s.disk h.1)
  weaken-Ends R R' k died s h = (h.0, k s.disk h.1)

module _ {D A : Type 0} {calm : Bool} {x y : D} {a : A} {R R' : D → Type 0} where
  pub Runs-weaken :
      (m : M D A) → ((d : D) → R d → R' d) → Runs calm x m a y R → Runs calm x m a y R'
  Runs-weaken m k h = record {
    at = λ fs c.
        let s = m (record { disk = x; faults = fs }) in
        weaken-Ends calm y a R R' k s.0 s.1 (h.at fs c);
  }

calm-Ends :
    {D A : Type 0} (a : A) (y : D) (R : D → Type 0) (r : Outcome A) (s : Machine D)
    → Ends true a y R r s
    → (r ≡ done a) × (s ≡ record { disk = y; faults = [] })
calm-Ends a y R (done b) s h = (cc h.0, cc (h.1, h.2))
calm-Ends a y R (raised e) s h = cc
calm-Ends a y R died s h = cc

-- A run that meets no fault, as an equation.
pub Runs-calm :
    {D A : Type 0} {x y : D} {a : A} {R : D → Type 0} (m : M D A)
    → Runs true x m a y R
    → m (record { disk = x; faults = [] }) ≡ (done a, record { disk = y; faults = [] })
Runs-calm {x = x} m h =
    let s = m (record { disk = x; faults = [] }) in
    let ends = calm-Ends _ _ _ s.0 s.1 (h.at [] refl) in cc (ends.0, ends.1)
