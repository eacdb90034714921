-- ===== src/Schema/Valid.antt =====
-- The rules of a stored memory as a predicate on it.
use agent_global_context.Prelude.{
  ◌≡◌, ap, String, Bool, true, false, ◌&&◌, Option, none, some, ◌==◌, ℕ, eqb_iff,
}
use agent_global_context.Value.{ℤ, pos, negsuc}
use agent_global_context.Result.{ok, raise_if-false, Ensures, Ensures-bind}
use agent_global_context.Models.{MemoryItem}
use agent_global_context.Schema.{
  is_version, is_memory_id, validate_kind_metadata, is_blank, require_iso_date, validate_dates,
  validate_memory_item,
}
use agent_global_context.Schema.Rules.{
  true_of_not, IsDateOrNone, IsInterest, HasEnums, FitsBudgets, validate_budgets-Ensures,
  validate_enums-Ensures, validate_interest-Ensures, IsCapability, validate_capability-Ensures,
  when-Ensures,
}

is_version-pos : (n : ℕ) (i : ℤ) → is_version n i ≡ true → i ≡ pos n
unfolding is_version
is_version-pos n (pos m) h = ap pos ((eqb_iff _ _).0 h)
is_version-pos n (negsuc m) h = cc

module _ (is_iso_date : String → Bool) where
  -- The rules that a stored memory keeps.
  pub record IsStorable (item : MemoryItem) : Type 0 where
    pub schema_version : item.schema_version ≡ pos 2
    pub id : is_memory_id item.id ≡ true
    pub enums : HasEnums item
    pub valid_from : is_iso_date item.temporal.valid_from ≡ true
    pub last_observed : is_iso_date item.temporal.last_observed ≡ true
    pub review_after : IsDateOrNone is_iso_date item.temporal.review_after
    pub created_at : is_iso_date item.provenance.created_at ≡ true
    pub updated_at : is_iso_date item.provenance.updated_at ≡ true
    pub confirmed_at : IsDateOrNone is_iso_date item.provenance.confirmed_at
    pub identity :
        (item.kind == "identity"
          && item.sensitivity == "personal"
          && item.recall.exposure == "core_card"
          && is_blank item.policy_reason)
        ≡ false
    pub budgets : FitsBudgets item
    pub interest : (item.kind == "interest") ≡ true → IsInterest item
    pub capability : (item.kind == "capability") ≡ true → IsCapability item

  require_iso_date-IsDateOrNone :
      (o : Option String) (name : String) (u : Unit {0})
      → require_iso_date is_iso_date o name ≡ ok u
      → IsDateOrNone is_iso_date o
  unfolding require_iso_date
  require_iso_date-IsDateOrNone none name u h = tt
  require_iso_date-IsDateOrNone (some s) name u h =
      true_of_not (is_iso_date s) (raise_if-false _ _ _ h)

  abbrev HasDates : MemoryItem → Type 0
  HasDates item =
      (is_iso_date item.temporal.valid_from ≡ true)
      × (is_iso_date item.temporal.last_observed ≡ true)
      × IsDateOrNone is_iso_date item.temporal.review_after
      × (is_iso_date item.provenance.created_at ≡ true)
      × (is_iso_date item.provenance.updated_at ≡ true)
      × IsDateOrNone is_iso_date item.provenance.confirmed_at

  validate_dates-Ensures :
      (item : MemoryItem) → Ensures (λ _. HasDates item) (validate_dates is_iso_date item)
  unfolding validate_dates
  validate_dates-Ensures item = Ensures-bind _ _ λ _ a. Ensures-bind _ _ λ _ b.
      Ensures-bind _ _ λ _ c. Ensures-bind _ _ λ _ d. Ensures-bind _ _ λ _ e. record {
        at = λ u f. (
          require_iso_date-IsDateOrNone _ _ _ a,
          require_iso_date-IsDateOrNone _ _ _ b,
          require_iso_date-IsDateOrNone _ _ _ c,
          require_iso_date-IsDateOrNone _ _ _ d,
          require_iso_date-IsDateOrNone _ _ _ e,
          require_iso_date-IsDateOrNone _ _ _ f,
        );
      }

  validate_kind_metadata-Ensures :
      (item : MemoryItem)
      → Ensures
          (λ _.
            ((item.kind == "interest") ≡ true → IsInterest item)
            × ((item.kind == "capability") ≡ true → IsCapability item))
          (validate_kind_metadata item)
  unfolding validate_kind_metadata
  validate_kind_metadata-Ensures item = Ensures-bind _ _ λ u i. record {
    at = λ v c. (
      (when-Ensures _ _ _ (validate_interest-Ensures item)).at u i,
      (when-Ensures _ _ _ (validate_capability-Ensures item)).at v c,
    );
  }

  validate_memory_item-Ensures :
      (item : MemoryItem) → Ensures (λ _. IsStorable item) (validate_memory_item is_iso_date item)
  unfolding validate_memory_item
  validate_memory_item-Ensures item = Ensures-bind _ _ λ _ version. Ensures-bind _ _ λ _ id.
      Ensures-bind _ _ λ e enums. Ensures-bind _ _ λ d dates. Ensures-bind _ _ λ _ identity.
        Ensures-bind _ _ λ b budgets. record {
          at = λ k kind.
              let has = (validate_dates-Ensures item).at d dates in
              let meta = (validate_kind_metadata-Ensures item).at k kind in
              record {
                schema_version =
                    is_version-pos 2 item.schema_version
                      (true_of_not _ (raise_if-false _ _ _ version));
                id = true_of_not _ (raise_if-false _ _ _ id);
                enums = (validate_enums-Ensures item).at e enums;
                valid_from = has.0;
                last_observed = has.1;
                review_after = has.2;
                created_at = has.3;
                updated_at = has.4;
                confirmed_at = has.5;
                identity = raise_if-false _ _ _ identity;
                budgets = (validate_budgets-Ensures item).at b budgets;
                interest = meta.0;
                capability = meta.1;
              };
        }

  -- What `validate_memory_item` accepts keeps the rules of a stored memory: its version and id, known
  -- enumerations and a sensitivity that may be persisted, dates, text budgets, the reason that a
  -- personal identity on the core card needs, and the fields that an interest or a capability needs.
  pub validate_memory_item-IsStorable :
      (item : MemoryItem) → validate_memory_item is_iso_date item ≡ ok tt → IsStorable item
  validate_memory_item-IsStorable item = (validate_memory_item-Ensures item).at tt
