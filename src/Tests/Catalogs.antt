-- ===== src/Tests/Catalogs.antt =====
-- The catalog of a store with one memory.
use agent_global_context.Prelude.{◌≡◌, refl, List, [], ◌∷◌}
use agent_global_context.Effects.{Machine, done, ◌>>=◌, fetch, modify}
use agent_global_context.Store.Disk.{Disk, path_eq, same_path}
use agent_global_context.Store.Transaction.{read_memory}
use agent_global_context.Catalog.{
  Card, card_from_item, Catalog, catalog_counts, scopes_of, build_catalog, read_card, read_cards,
  memory_files, sort_by, insert_by,
}
use agent_global_context.Catalog.Counts.{counted, total, catalog_counts_lem}
use agent_global_context.Catalog.Built.{IsCatalogOf, build_catalog-IsCatalogOf}
use agent_global_context.Tests.Memories.{platform, tea, tea_valid, one_memory}

abbrev tea_cards : List Card
tea_cards = card_from_item tea ∷ card_from_item tea ∷ []

catalog_counts_lem_example :
    let counts = catalog_counts tea_cards in
    (counted "interest" counts.by_kind ≡ 2)
    × (counted "home" counts.by_scope ≡ 2)
    × (total counts.by_kind ≡ 2)
unfolding scopes_of
catalog_counts_lem_example = catalog_counts_lem tea_cards "interest" "home"

abbrev tea_catalog : Catalog
tea_catalog = record { memory_count = 1; cards = card_from_item tea ∷ [] }

abbrev running : Machine Disk
running = record { disk = one_memory; faults = [] }

tea_built : (build_catalog platform running).0 ≡ done tea_catalog
unfolding build_catalog read_cards read_card memory_files sort_by insert_by read_memory ◌>>=◌ fetch
    modify same_path
tea_built = rw tea_valid refl

build_catalog-IsCatalogOf_example : IsCatalogOf platform one_memory tea_catalog
build_catalog-IsCatalogOf_example = build_catalog-IsCatalogOf platform running tea_catalog tea_built
