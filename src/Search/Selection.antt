-- ===== src/Search/Selection.antt =====
-- What a search selects.
use agent_global_context.Prelude.{
  ℕ, zero, suc, ◌-◌, ◌≤◌, ◌≡◌, refl, Bool, false, String, Option, List, [], ◌∷◌, arith, keep_if,
  All, eqb, Bool-cases, inl, inr,
}
use agent_global_context.Result.{ok, ◌>>=◌}
use agent_global_context.Value.{Fields}
use agent_global_context.Catalog.{Card}
use agent_global_context.Search.{is_wanted, search_cards, with_card}

-- cards[:n]
abbrev pub take {ℓ} : {A : Type ℓ} → ℕ → List A → List A
take zero xs = []
take (suc n) [] = []
take (suc n) (x ∷ xs) = x ∷ take n xs

one_less : (n : ℕ) → suc (suc n) - 1 ≡ suc n
one_less n = omega arith

more : (n : ℕ) → eqb (suc (suc n)) 1 ≡ false
more n = ground arith

-- If the filters decide every card of the catalog without an error, then a search with a limit
-- of one or more returns the first `limit` of the wanted cards, in the order of the catalog.
pub search_cards-take :
    (casefold : String → String) (filters : Fields) (query : Option String) (wanted : Card → Bool)
    (limit : ℕ) (cards : List Card)
    → All (λ card. is_wanted casefold filters query card ≡ ok (wanted card)) cards
    → 1 ≤ limit
    → search_cards casefold filters query limit cards ≡ ok (take limit (keep_if wanted cards))
unfolding search_cards with_card ◌>>=◌
search_cards-take casefold filters query wanted zero [] h pos = refl
search_cards-take casefold filters query wanted (suc n) [] h pos = refl
search_cards-take casefold filters query wanted zero (card ∷ rest) h pos = ground arith
search_cards-take casefold filters query wanted (suc zero) (card ∷ rest) (h, hs) pos =
    let k = search_cards-take casefold filters query wanted 1 rest hs (ground arith) in
    rw h (ground (arith, k))
search_cards-take casefold filters query wanted (suc (suc n)) (card ∷ rest) (h, hs) pos =
    let k = search_cards-take casefold filters query wanted (suc (suc n)) rest hs (ground arith) in
    let k' = search_cards-take casefold filters query wanted (suc n) rest hs (ground arith) in
    elim (Bool-cases (wanted card)) [
      | inl chosen ↦ rw (h, chosen, more n, one_less n, k') refl
      | inr passed ↦ rw (h, passed) k
    ]
