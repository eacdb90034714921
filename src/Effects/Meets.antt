-- ===== src/Effects/Meets.antt =====
-- What code leaves behind: from the disk `x`, whatever faults it meets, `m` returns with `Q`, or raises
-- or dies with `P`.
use agent_global_context.Prelude.{◌≡◌, refl, subst, Bool, true, false, List, [], ◌∷◌, if◌then◌else◌}
use agent_global_context.Result.{Result, ok, err}
use agent_global_context.Effects.{
  Fault, fine, fails, dies, Machine, Outcome, done, raised, died, M, pure, gets, lift, meet, next,
  io, fetch, modify, continue, within, ◌>>=◌,
}

module _ {D A : Type 0} (P : D → Type 0) (Q : A → D → Type 0) where
  abbrev pub Leaves : Outcome A × Machine D → Type 0
  Leaves (done a, s) = Q a s.disk
  Leaves (raised e, s) = P s.disk
  Leaves (died, s) = P s.disk

pub record Meets {D A : Type 0} (P : D → Type 0) (Q : A → D → Type 0) (x : D) (m : M D A)
    : Type 0 where
  pub at : (fs : List Fault) → Leaves P Q (m (record { disk = x; faults = fs }))

module _ {D A : Type 0} (P : D → Type 0) (Q : A → D → Type 0) (x : D) where
  next-Leaves :
      (call : D → A × D)
      → P x
      → Q (call x).0 (call x).1
      → (fs : List Fault) → Leaves P Q (next fs call x)
  unfolding next meet
  next-Leaves call p q [] = q
  next-Leaves call p q (fine ∷ fs) = q
  next-Leaves call p q (fails ∷ fs) = p
  next-Leaves call p q (dies ∷ fs) = p

module _ {D A : Type 0} {P : D → Type 0} {Q : A → D → Type 0} {x : D} where
  pub Meets-pure : (a : A) → Q a x → Meets P Q x (pure a)
  unfolding pure
  Meets-pure a q = record { at = λ fs. q }

  pub Meets-gets : (f : D → A) → Q (f x) x → Meets P Q x (gets f)
  unfolding gets
  Meets-gets f q = record { at = λ fs. q }

  pub Meets-lift : (r : Result A) → P x → ((a : A) → r ≡ ok a → Q a x) → Meets P Q x (lift r)
  unfolding lift
  Meets-lift (ok a) p q = record { at = λ fs. q a refl }
  Meets-lift (err e) p q = record { at = λ fs. p }

  pub Meets-fetch : (f : D → A) → P x → Q (f x) x → Meets P Q x (fetch f)
  unfolding fetch io
  Meets-fetch f p q = record { at = next-Leaves P Q x _ p q }

module _ {D : Type 0} {P : D → Type 0} {Q : Unit {0} → D → Type 0} {x : D} where
  pub Meets-modify : (f : D → D) → P x → Q tt (f x) → Meets P Q x (modify f)
  unfolding modify io
  Meets-modify f p q = record { at = next-Leaves P Q x _ p q }

module _ {D A B : Type 0} {P : D → Type 0} {Q : A → D → Type 0} {R : B → D → Type 0} where
  continue-Leaves :
      (f : A → M D B)
      → ((a : A) (y : D) → Q a y → Meets P R y (f a))
      → (r : Outcome A) (s : Machine D) → Leaves P Q (r, s)
      → Leaves P R (continue r f s)
  unfolding continue
  continue-Leaves f k (done a) s q = (k a s.disk q).at s.faults
  continue-Leaves f k (raised e) s p = p
  continue-Leaves f k died s p = p

  pub Meets-bind :
      {x : D} {m : M D A} {f : A → M D B}
      → Meets P Q x m
      → ((a : A) (y : D) → Q a y → Meets P R y (f a))
      → Meets P R x (m >>= f)
  unfolding ◌>>=◌
  Meets-bind {x} {m} {f} h k = record {
    at =
        λ fs. let s = m (record { disk = x; faults = fs }) in continue-Leaves f k s.0 s.1 (h.at fs);
  }

-- Both the code that returns and the code that does not leave `P`.
pub Leaves-always :
    {D A : Type 0} (P : D → Type 0) (out : Outcome A × Machine D)
    → P out.1.disk
    → Leaves P (λ _. P) out
Leaves-always P (done a, s) p = p
Leaves-always P (raised e, s) p = p
Leaves-always P (died, s) p = p

pub Leaves-when :
    {D A : Type 0} (P : D → Type 0) (Q : A → D → Type 0) (out : Outcome A × Machine D)
    → P out.1.disk
    → ((a : A) → out.0 ≡ done a → Q a out.1.disk)
    → Leaves P Q out
Leaves-when P Q (done a, s) p q = q a refl
Leaves-when P Q (raised e, s) p q = p
Leaves-when P Q (died, s) p q = p

pub Meets-if :
    {D A : Type 0} {P : D → Type 0} {Q : A → D → Type 0} {x : D} (c : Bool) {m n : M D A}
    → (c ≡ true → Meets P Q x m)
    → (c ≡ false → Meets P Q x n)
    → Meets P Q x (if c then m else n)
Meets-if true h k = h refl
Meets-if false h k = k refl

-- What follows a `lift` starts from the same disk.
pub Meets-lifted :
    {D A B : Type 0} {P : D → Type 0} {R : B → D → Type 0} {x : D} (r : Result A) {f : A → M D B}
    → P x
    → ((a : A) → r ≡ ok a → Meets P R x (f a))
    → Meets P R x (lift r >>= f)
unfolding lift ◌>>=◌ continue
Meets-lifted (ok a) p k = record { at = λ fs. (k a refl).at fs }
Meets-lifted (err e) p k = record { at = λ fs. p }

module _ {D E A : Type 0} (part : E → D) (put_back : D → E → E) {P : D → Type 0}
    {Q : A → D → Type 0} (R : E → Type 0) (S : A → E → Type 0) (x : E)
    (broken : (d : D) → P d → R (put_back d x))
    (whole : (a : A) (d : D) → Q a d → S a (put_back d x)) where
  within-Leaves :
      (r : Outcome A) (s : Machine D)
      → Leaves P Q (r, s)
      → Leaves R S (r, record { disk = put_back s.disk x; faults = s.faults })
  within-Leaves (done a) s h = whole a s.disk h
  within-Leaves (raised e) s h = broken s.disk h
  within-Leaves died s h = broken s.disk h

  pub Meets-within : {m : M D A} → Meets P Q (part x) m → Meets R S x (within part put_back m)
  unfolding within
  Meets-within {m} h = record {
    at = λ fs. let s = m (record { disk = part x; faults = fs }) in within-Leaves s.0 s.1 (h.at fs);
  }

pub done-injective : {A : Type 0} (x y : A) → done x ≡ done y → x ≡ y
done-injective x y p = cc

-- What a call that returned left behind.
pub returned :
    {D A : Type 0} (B : D → Type 0) (Q : A → D → Type 0) (out : Outcome A × Machine D) (a : A)
    → out.0 ≡ done a
    → Leaves B Q out
    → Q a out.1.disk
returned B Q (done b, s) a e h = subst (λ c. Q c s.disk) (done-injective b a e) h
returned B Q (raised b, s) a e h = cc
returned B Q (died, s) a e h = cc
