-- ===== src/Catalog/Sorted.antt =====
-- `sort_by` puts the items in order and loses none.
use Prim.Native.Nat.{Ordering, compare as compare_ℕ}
use Prim.Native.Char.{code}
use Prim.Native.String.{compare, then as or_else}
use Prim.Native.String.compare as string_compare
use mathlib.Core.List.{Perm}
use mathlib.Core.List.Perm as perms
use agent_global_context.Prelude.{
  ℕ, ◌≡◌, refl, sym, ap, ap₂, ◌∙◌, String, true, false, List, [], ◌∷◌, arith, Bool-cases, inl, inr,
}
use agent_global_context.Catalog.{is_before, insert_by, sort_by}

flip : Ordering → Ordering
flip Ordering.lt = Ordering.gt
flip Ordering.eq = Ordering.eq
flip Ordering.gt = Ordering.lt

compare_ℕ-flip : (m n : ℕ) → compare_ℕ n m ≡ flip (compare_ℕ m n)
unfolding flip
compare_ℕ-flip m n = ground arith

or_else-flip : (a b : Ordering) → or_else (flip a) (flip b) ≡ flip (or_else a b)
unfolding flip
or_else-flip Ordering.lt b = refl
or_else-flip Ordering.eq b = refl
or_else-flip Ordering.gt b = refl

compare-flip : (s t : String) → compare t s ≡ flip (compare s t)
unfolding flip
compare-flip String.[] String.[] = refl
compare-flip String.[] (String.◌∷◌ d t) =
    string_compare.cons-nil d t ∙ sym (ap flip (string_compare.nil-cons d t))
compare-flip (String.◌∷◌ c s) String.[] =
    string_compare.nil-cons c s ∙ sym (ap flip (string_compare.cons-nil c s))
compare-flip (String.◌∷◌ c s) (String.◌∷◌ d t) =
    string_compare.cons-cons d c t s
    ∙ ap₂ or_else (compare_ℕ-flip (code c) (code d)) (compare-flip s t)
    ∙ or_else-flip (compare_ℕ (code c) (code d)) (compare s t)
    ∙ sym (ap flip (string_compare.cons-cons c d s t))

-- No text is before one that is before it.
is_before_asym : (s t : String) → is_before s t ≡ true → is_before t s ≡ false
unfolding is_before flip
is_before_asym s t h = ground (arith, compare-flip s t)

module _ {A : Type 0} (key : A → String) where
  -- Each item's key is not after the next one's.
  abbrev pub IsSorted : List A → Type 0
  IsSorted [] = Unit
  IsSorted (x ∷ []) = Unit
  IsSorted (x ∷ y ∷ rest) = (is_before (key y) (key x) ≡ false) × IsSorted (y ∷ rest)

  insert_by-IsSorted : (x : A) (xs : List A) → IsSorted xs → IsSorted (insert_by key x xs)
  unfolding insert_by
  insert_by-IsSorted x [] h = tt
  insert_by-IsSorted x (y ∷ []) h = ground (arith, is_before_asym (key y) (key x))
  insert_by-IsSorted x (y ∷ z ∷ rest) h =
      ground (arith, insert_by-IsSorted x (z ∷ rest), is_before_asym (key y) (key x))

  insert_by-Perm : (x : A) (xs : List A) → Perm (insert_by key x xs) (x ∷ xs)
  unfolding insert_by
  insert_by-Perm x [] = perms.refl (x ∷ [])
  insert_by-Perm x (y ∷ rest) = elim (Bool-cases (is_before (key y) (key x))) [
    | inl later ↦
        rw later (perms.trans (perms.cons y (insert_by-Perm x rest)) (perms.swap x y rest))
    | inr here ↦ rw here (perms.refl (x ∷ y ∷ rest))
  ]

  pub sort_by-IsSorted : (xs : List A) → IsSorted (sort_by key xs)
  unfolding sort_by
  sort_by-IsSorted [] = tt
  sort_by-IsSorted (x ∷ xs) = insert_by-IsSorted x (sort_by key xs) (sort_by-IsSorted xs)

  pub sort_by-Perm : (xs : List A) → Perm (sort_by key xs) xs
  unfolding sort_by
  sort_by-Perm [] = perms.refl []
  sort_by-Perm (x ∷ xs) =
      perms.trans (insert_by-Perm x (sort_by key xs)) (perms.cons x (sort_by-Perm xs))
