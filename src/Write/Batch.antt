-- ===== src/Write/Batch.antt =====
-- `_handle_observe_batch` answers each item.
use agent_global_context.Prelude.{
  ℕ, zero, suc, ◌+◌, ◌≡◌, sym, ap, ◌∙◌, subst, String, List, [], ◌∷◌, map, arith, ◌==◌, eq_iff,
  if◌then◌else◌,
}
use agent_global_context.Effects.{Machine, done}
use agent_global_context.Effects.Inversion.{pure-done, >>=-done}
use agent_global_context.Value.{Value, Values, nil, cons}
use agent_global_context.Catalog.Counts.{occurrences, counted}
use agent_global_context.Store.Methods.{Call}
use agent_global_context.Write.{World, Surroundings, ToolResponse}
use agent_global_context.Write.Service.{
  Forgetting, tally, status_text, to_dict, observe_item, observe_items,
}

abbrev pub status_texts : List ToolResponse → List String
status_texts rs = map (λ (r : ToolResponse). status_text r.status) rs

counted-tally :
    (s t : String) (counts : List (String × ℕ))
    → counted s (tally t counts) ≡ (if t == s then 1 else 0) + counted s counts
unfolding tally
counted-tally s t [] = ground arith
counted-tally s t ((u, n) ∷ rest) =
    ground (arith, counted-tally s t rest, eq_iff t s, eq_iff u s, eq_iff u t)

module _ (env : Surroundings) (forgetting : Forgetting) where
  abbrev pub dicts : List ToolResponse → Values
  dicts [] = nil
  dicts (r ∷ rs) = cons (to_dict env forgetting r) (dicts rs)

  module _ (calls : ℕ → Call) where
    -- From `s`, the items from the `n`th on are answered one after the other, each from what the one
    -- before it left, and `t` is what the last one leaves.
    abbrev pub AreAnswers : ℕ → Values → List ToolResponse → Machine World → Machine World → Type 0
    AreAnswers n nil [] s t = s ≡ t
    AreAnswers n nil (r ∷ rs) s t = ⊥
    AreAnswers n (cons item rest) [] s t = ⊥
    AreAnswers n (cons item rest) (r ∷ rs) s t =
        (u : Machine World) × (observe_item env forgetting calls n item s ≡ (done r, u))
        × AreAnswers (suc n) rest rs u t

    -- What is returned for the items that are left, from the counts so far.
    record Answered (n : ℕ) (items : Values) (counts : List (String × ℕ)) (s t : Machine World)
        (out : List (String × ℕ) × Values) : Type 0 where
      pub responses : List ToolResponse
      pub chain : AreAnswers n items responses s t
      pub written : out.1 ≡ dicts responses
      pub tallied :
          (status : String)
          → counted status out.0
            ≡ counted status counts + occurrences status (status_texts responses)

    Answered-cons :
        (n : ℕ) (item : Value) (rest : Values) (counts : List (String × ℕ)) (s u t : Machine World)
        (r : ToolResponse) (sub out : List (String × ℕ) × Values)
        → observe_item env forgetting calls n item s ≡ (done r, u)
        → (sub.0, cons (to_dict env forgetting r) sub.1) ≡ out
        → Answered (suc n) rest (tally (status_text r.status) counts) u t sub
        → Answered n (cons item rest) counts s t out
    Answered-cons n item rest counts s u t r sub out first same h = record {
      responses = r ∷ h.responses;
      chain = (u, first, h.chain);
      written =
          sym (ap (λ (o : List (String × ℕ) × Values). o.1) same)
          ∙ ap (cons (to_dict env forgetting r)) h.written;
      tallied = λ status.
          let c = counted-tally status (status_text r.status) counts in
          let k = h.tallied status in
          let e = ap (λ (o : List (String × ℕ) × Values). counted status o.0) same in
          omega (arith, c, k, e);
    }

    observed-Answered :
        (n : ℕ) (items : Values) (counts : List (String × ℕ)) (s t : Machine World)
        (out : List (String × ℕ) × Values)
        → observe_items env forgetting calls n items counts s ≡ (done out, t)
        → Answered n items counts s t out
    unfolding observe_items
    observed-Answered n nil counts s t out h =
        let (same, left) = pure-done _ _ s t h in
        record {
          responses = [];
          chain = left;
          written = sym (ap (λ (o : List (String × ℕ) × Values). o.1) same);
          tallied = λ status.
              let e = ap (λ (o : List (String × ℕ) × Values). counted status o.0) same in
              omega (arith, e);
        }
    observed-Answered n (cons item rest) counts s t out h =
        let (r, u, first, later) = >>=-done _ out t _ s h in
        let (sub, v, middle, last) = >>=-done _ out t _ u later in
        let (same, left) = pure-done _ _ v t last in
        Answered-cons n item rest counts s u t r sub out first same (
          observed-Answered (suc n) rest (tally (status_text r.status) counts) u t sub (
            subst
              (λ w.
                observe_items env forgetting calls (suc n) rest
                  (tally (status_text r.status) counts) u
                ≡ (done sub, w))
              left middle))

-- If a batch returns, its responses are those that its items get one after the other, in their order,
-- each answered from what the one before it left and with its own place in the batch; and its counts give
-- each status as often as the responses have it.
pub observe_items-AreAnswers :
    (env : Surroundings) (forgetting : Forgetting) (calls : ℕ → Call) (items : Values)
    (s t : Machine World) (out : List (String × ℕ) × Values)
    → observe_items env forgetting calls zero items [] s ≡ (done out, t)
    → (rs : List ToolResponse) × AreAnswers env forgetting calls zero items rs s t
      × (out.1 ≡ dicts env forgetting rs)
      × ((status : String) → counted status out.0 ≡ occurrences status (status_texts rs))
observe_items-AreAnswers env forgetting calls items s t out h =
    let a = observed-Answered env forgetting calls zero items [] s t out h in
    (a.responses, a.chain, a.written, λ status. let k = a.tallied status in omega (arith, k))
