-- ===== src/Catalog.antt =====
-- The catalog of the formal memory: agc_runtime/catalog.py.
pub mod Counts
pub mod Sorted
pub mod Built
use Prim.Native.Nat.{Ordering}
use Prim.Native.String.{compare, ◌++◌ as ◌⧺◌}
use agent_global_context.Prelude.{
  ℕ, suc, ◌+◌, Bool, true, false, String, Option, none, some, List, [], ◌∷◌, ◌++◌, ◌==◌, length,
  map, if◌then◌else◌,
}
use agent_global_context.Result.{Result}
use agent_global_context.Effects.{M, pure, gets, lift, ◌>>=◌, ◌>>◌}
use agent_global_context.Models.{MemoryItem}
use agent_global_context.Schema.{validate_memory_item}
use agent_global_context.Store.Disk.{Disk, MemoryPath}
use agent_global_context.Store.Transaction.{read_memory}
use agent_global_context.Store.Methods.{Platform}

-- catalog.card_from_item
pub record Card : Type 0 where
  pub id : String
  pub kind : String
  pub lifecycle : String
  pub scopes : List String
  pub updated_at : String
  pub confidence : String
  pub decision_impact : String
  pub exposure : String
  pub sensitivity : String
  pub memory_card : String

abbrev pub card_from_item : MemoryItem → Card
card_from_item item = record {
  id = item.id;
  kind = item.kind;
  lifecycle = item.lifecycle.status;
  scopes = item.recall.scopes;
  updated_at = item.provenance.updated_at;
  confidence = item.confidence.level;
  decision_impact = item.recall.decision_impact;
  exposure = item.recall.exposure;
  sensitivity = item.sensitivity;
  memory_card = item.memory_card;
}

-- `schema_version` has one value and is left out.
pub record Catalog : Type 0 where
  pub memory_count : ℕ
  pub cards : List Card

unfoldable pub is_before : String → String → Bool
is_before a b = elim (compare a b) [ Ordering.lt ↦ true | _ ↦ false ]

-- sorted(items, key=key): items with the same key keep their order
module _ {ℓ} {A : Type ℓ} (key : A → String) where
  unfoldable pub insert_by : A → List A → List A
  insert_by x [] = x ∷ []
  insert_by x (y ∷ rest) =
      let later = insert_by x rest in if is_before (key y) (key x) then y ∷ later else x ∷ y ∷ rest

  unfoldable pub sort_by : List A → List A
  sort_by [] = []
  sort_by (x ∷ rest) = insert_by x (sort_by rest)

-- The path of a memory below the folder of memories, as a text.
abbrev pub path_text : MemoryPath → String
path_text path = path.kind ⧺ ("/" ⧺ (path.id ⧺ ".md"))

unfoldable pub memory_files : Disk → List MemoryPath
memory_files d = sort_by path_text (map (λ file. file.0) d.memories)

module _ (platform : Platform) where
  unfoldable pub read_card : MemoryPath → M Disk Card
  read_card path = do
    text ← read_memory path
    item ← lift (platform.from_markdown text)
    lift (validate_memory_item platform.is_iso_date item)
    pure (card_from_item item)

  unfoldable pub read_cards : List MemoryPath → M Disk (List Card)
  read_cards [] = pure []
  read_cards (path ∷ rest) = do card ← read_card path; cards ← read_cards rest; pure (card ∷ cards)

  unfoldable pub build_catalog : M Disk Catalog
  build_catalog = do
    files ← gets memory_files
    cards ← read_cards files
    pure (record { memory_count = length cards; cards = sort_by (λ (card : Card). card.id) cards })

-- dict(sorted(Counter(...).items())): one more of `s`
unfoldable pub count_one : String → List (String × ℕ) → List (String × ℕ)
count_one s [] = (s, 1) ∷ []
count_one s ((t, n) ∷ rest) =
    let later = count_one s rest in
    elim (compare s t) [
      | Ordering.eq ↦ (t, n + 1) ∷ rest
      | Ordering.lt ↦ (s, 1) ∷ (t, n) ∷ rest
      | Ordering.gt ↦ (t, n) ∷ later
    ]

unfoldable pub count_all : List String → List (String × ℕ)
count_all [] = []
count_all (s ∷ rest) = count_one s (count_all rest)

unfoldable pub scopes_of : List Card → List String
scopes_of [] = []
scopes_of (card ∷ rest) = card.scopes ++ scopes_of rest

-- `{scope for card in cards if card["decision_impact"] == "high" for scope in card["scopes"]}`
unfoldable pub high_impact_of : List Card → List String
high_impact_of [] = []
high_impact_of (card ∷ rest) =
    let found = high_impact_of rest in
    if card.decision_impact == "high" then card.scopes ++ found else found

pub record CatalogCounts : Type 0 where
  pub by_kind : List (String × ℕ)
  pub by_scope : List (String × ℕ)
  pub high_impact_scopes : List String

unfoldable pub catalog_counts : List Card → CatalogCounts
catalog_counts cards = record {
  by_kind = count_all (map (λ (card : Card). card.kind) cards);
  by_scope = count_all (scopes_of cards);
  high_impact_scopes = map (λ entry. entry.0) (count_all (high_impact_of cards));
}

-- separator.join(texts)
unfoldable pub join : String → List String → String
join separator [] = ""
join separator (s ∷ []) = s
join separator (s ∷ t ∷ rest) = s ⧺ (separator ⧺ join separator (t ∷ rest))

-- The lines of a card in the catalog's markdown.
unfoldable pub card_lines : Card → List String
card_lines card =
    ("## " ⧺ card.id)
    ∷ ""
    ∷ ("- kind: " ⧺ card.kind)
    ∷ ("- lifecycle: " ⧺ card.lifecycle)
    ∷ ("- scopes: " ⧺ join ", " card.scopes)
    ∷ ("- updated_at: " ⧺ card.updated_at)
    ∷ ("- confidence: " ⧺ card.confidence)
    ∷ ("- decision_impact: " ⧺ card.decision_impact)
    ∷ ("- exposure: " ⧺ card.exposure)
    ∷ ("- sensitivity: " ⧺ card.sensitivity)
    ∷ ("- memory_card: " ⧺ card.memory_card)
    ∷ ""
    ∷ []

unfoldable pub all_card_lines : List Card → List String
all_card_lines [] = []
all_card_lines (card ∷ rest) = card_lines card ++ all_card_lines rest

-- `str` of a number and `str.rstrip` are Python's.
module _ (decimal : ℕ → String) (rstrip : String → String) where
  unfoldable pub render_catalog_markdown : Catalog → String
  render_catalog_markdown catalog =
      rstrip (
        join "\n" (
          "# Agent Global Context Catalog"
          ∷ ""
          ∷ ("Memory count: " ⧺ decimal catalog.memory_count)
          ∷ ""
          ∷ all_card_lines catalog.cards))
      ⧺ "\n"
