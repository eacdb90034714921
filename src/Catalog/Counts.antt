-- ===== src/Catalog/Counts.antt =====
-- The counts of a catalog.
use text.Mathlib.TextEquality.{path_by_compare}
use agent_global_context.Prelude.{
  ◌∙◌, ℕ, suc, ◌+◌, ◌≡◌, refl, String, List, [], ◌∷◌, ◌==◌, eq_iff, arith, length, map,
  if◌then◌else◌,
}
use agent_global_context.Catalog.{Card, count_one, count_all, catalog_counts, scopes_of}

-- How often a text stands in a list, and what the counts say of it.
abbrev pub occurrences : String → List String → ℕ
occurrences s [] = 0
occurrences s (t ∷ rest) = (if t == s then 1 else 0) + occurrences s rest

abbrev pub counted : String → List (String × ℕ) → ℕ
counted s [] = 0
counted s ((t, n) ∷ rest) = (if t == s then n else 0) + counted s rest

abbrev pub total : List (String × ℕ) → ℕ
total [] = 0
total ((t, n) ∷ rest) = n + total rest

counted-count_one :
    (s t : String) (es : List (String × ℕ))
    → counted s (count_one t es) ≡ (if t == s then 1 else 0) + counted s es
unfolding count_one
counted-count_one s t [] = ground arith
counted-count_one s t ((u, n) ∷ rest) =
    ground (arith, path_by_compare t u, counted-count_one s t rest, eq_iff t s, eq_iff u s)

pub counted-count_all :
    (s : String) (xs : List String) → counted s (count_all xs) ≡ occurrences s xs
unfolding count_all
counted-count_all s [] = refl
counted-count_all s (x ∷ xs) =
    ground (arith, counted-count_one s x (count_all xs), counted-count_all s xs)

total-count_one : (t : String) (es : List (String × ℕ)) → total (count_one t es) ≡ suc (total es)
unfolding count_one
total-count_one t [] = ground arith
total-count_one t ((u, n) ∷ rest) = ground (arith, total-count_one t rest)

total-count_all : (xs : List String) → total (count_all xs) ≡ length xs
unfolding count_all
total-count_all [] = refl
total-count_all (x ∷ xs) = ground (arith, total-count_one x (count_all xs), total-count_all xs)

pub length-map : {A : Type 0} {B : Type 0} (f : A → B) (xs : List A) → length (map f xs) ≡ length xs
length-map f [] = refl
length-map f (x ∷ xs) = ground (arith, length-map f xs)

-- Each kind and each scope is counted as often as cards have it, and the kinds account for all cards.
pub catalog_counts_lem :
    (cards : List Card) (kind scope : String)
    → let counts = catalog_counts cards in
      (counted kind counts.by_kind ≡ occurrences kind (map (λ (card : Card). card.kind) cards))
      × (counted scope counts.by_scope ≡ occurrences scope (scopes_of cards))
      × (total counts.by_kind ≡ length cards)
unfolding catalog_counts
catalog_counts_lem cards kind scope =
    let kinds = map (λ (card : Card). card.kind) cards in
    (
      counted-count_all kind kinds,
      counted-count_all scope (scopes_of cards),
      total-count_all kinds ∙ length-map (λ (card : Card). card.kind) cards,
    )
