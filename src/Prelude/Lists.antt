-- ===== src/Prelude/Lists.antt =====
-- Lists measured by native numbers and searched by Boolean tests, under Python's readings:
-- `any`, `all`, list comprehensions and prefixes.
use Prim.Native.Nat.{ℕ, suc, ◌+◌, ◌≤◌}
use mathlib.Core.Path.{◌≡◌, refl}
use mathlib.Core.Logic.{◌⊎◌}
use mathlib.Core.Bool.{Bool, true, false, not, ◌&&◌, ◌||◌}
use mathlib.Core.List.{List, [], ◌∷◌, ◌++◌}
use native.Mathlib.Omega.{arith}
use agent_global_context.Prelude.Tests.{if◌then◌else◌}

module _ {ℓ} {A : Type ℓ} where
  abbrev pub length : List A → ℕ
  length [] = 0
  length (x ∷ xs) = suc (length xs)

  -- any(p(x) for x in xs)
  abbrev pub any : (A → Bool) → List A → Bool
  any p [] = false
  any p (x ∷ xs) = p x || any p xs

  -- all(p(x) for x in xs)
  abbrev pub all : (A → Bool) → List A → Bool
  all p [] = true
  all p (x ∷ xs) = p x && all p xs

  -- [x for x in xs if p(x)]
  abbrev pub keep_if : (A → Bool) → List A → List A
  keep_if p [] = []
  keep_if p (x ∷ xs) = let rest = keep_if p xs in if p x then x ∷ rest else rest

  abbrev pub All : (A → Type 0) → List A → Type 0
  All P [] = Unit
  All P (x ∷ xs) = P x × All P xs

  abbrev pub Any : (A → Type 0) → List A → Type 0
  Any P [] = ⊥
  Any P (x ∷ xs) = P x ⊎ Any P xs

  pub length-append : (xs ys : List A) → length (xs ++ ys) ≡ length xs + length ys
  length-append [] ys = omega arith
  length-append (x ∷ xs) ys = omega (arith, length-append xs ys)

-- A log without the entry that was added last, which no other entry is like.
module _ {ℓ} {A : Type ℓ} (p : A → Bool) where
  pub keep_if-none : (xs : List A) → any p xs ≡ false → keep_if (λ x. not (p x)) xs ≡ xs
  keep_if-none [] h = refl
  keep_if-none (x ∷ xs) h = ground (arith, keep_if-none xs)

  pub any-append_last : (xs : List A) (x : A) → p x ≡ true → any p (xs ++ x ∷ []) ≡ true
  any-append_last [] x h = ground arith
  any-append_last (y ∷ xs) x h = ground (arith, any-append_last xs x)

  pub keep_if-append_last :
      (xs : List A) (x : A)
      → any p xs ≡ false
      → p x ≡ true
      → keep_if (λ y. not (p y)) (xs ++ x ∷ []) ≡ xs
  keep_if-append_last [] x h k = ground arith
  keep_if-append_last (y ∷ xs) x h k = ground (arith, keep_if-append_last xs x)

  pub length-keep_if : (xs : List A) → length (keep_if p xs) ≤ length xs
  length-keep_if [] = omega arith
  length-keep_if (x ∷ xs) = ground (arith, length-keep_if xs)
