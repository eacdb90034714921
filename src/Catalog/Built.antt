-- ===== src/Catalog/Built.antt =====
-- The catalog that is built.
use agent_global_context.Prelude.{
  suc, ◌≡◌, refl, sym, ap, ◌∙◌, subst, String, Option, none, some, List, [], ◌∷◌, length, map,
  arith,
}
use mathlib.Core.List.{Perm}
use agent_global_context.Result.{ok, ok-injective}
use agent_global_context.Files.{read}
use agent_global_context.Models.{MemoryItem}
use agent_global_context.Effects.{Machine, done}
use agent_global_context.Effects.Meets.{
  Meets, Meets-pure, Meets-gets, Meets-lift, Meets-fetch, Meets-bind, Meets-lifted, returned,
}
use agent_global_context.Store.Disk.{Disk, MemoryPath, path_eq}
use agent_global_context.Store.Transaction.{or_missing, read_memory}
use agent_global_context.Store.Methods.{Platform}
use agent_global_context.Catalog.{
  Card, Catalog, card_from_item, insert_by, sort_by, path_text, memory_files, read_card, read_cards,
  build_catalog,
}
use agent_global_context.Catalog.Sorted.{IsSorted, sort_by-IsSorted, sort_by-Perm}
use agent_global_context.Catalog.Counts.{length-map}

length-insert_by :
    {A : Type 0} (key : A → String) (x : A) (xs : List A)
    → length (insert_by key x xs) ≡ suc (length xs)
unfolding insert_by
length-insert_by key x [] = refl
length-insert_by key x (y ∷ rest) = ground (arith, length-insert_by key x rest)

length-sort_by : {A : Type 0} (key : A → String) (xs : List A) → length (sort_by key xs) ≡ length xs
unfolding sort_by
length-sort_by key [] = refl
length-sort_by key (x ∷ xs) =
    length-insert_by key x (sort_by key xs) ∙ ap suc (length-sort_by key xs)

length-memory_files : (d : Disk) → length (memory_files d) ≡ length d.memories
unfolding memory_files
length-memory_files d =
    length-sort_by path_text (map (λ file. file.0) d.memories)
    ∙ length-map (λ file. file.0) d.memories

-- The card of a memory: of the item that its file's text holds.
abbrev pub IsCardOf : Platform → Disk → MemoryPath → Card → Type 0
IsCardOf platform d path card =
    (text : String) × (item : MemoryItem) × (read path d.memories ≡ some text)
    × (platform.from_markdown text ≡ ok item)
    × (card ≡ card_from_item item)

-- One card for each path, and in the order of the paths.
abbrev pub AreCardsOf : Platform → Disk → List MemoryPath → List Card → Type 0
AreCardsOf platform d [] [] = Unit
AreCardsOf platform d [] (card ∷ cards) = ⊥
AreCardsOf platform d (path ∷ paths) [] = ⊥
AreCardsOf platform d (path ∷ paths) (card ∷ cards) =
    IsCardOf platform d path card × AreCardsOf platform d paths cards

length-AreCardsOf :
    (platform : Platform) (d : Disk) (paths : List MemoryPath) (cards : List Card)
    → AreCardsOf platform d paths cards
    → length cards ≡ length paths
length-AreCardsOf platform d [] [] h = refl
length-AreCardsOf platform d [] (card ∷ cards) h = elim h [ ]
length-AreCardsOf platform d (path ∷ paths) [] h = elim h [ ]
length-AreCardsOf platform d (path ∷ paths) (card ∷ cards) h =
    ap suc (length-AreCardsOf platform d paths cards h.1)

or_missing-ok :
    (old : Option String) (name text : String) → or_missing old name ≡ ok text → old ≡ some text
or_missing-ok none name text h = cc
or_missing-ok (some t) name text h = ap some (ok-injective t text h)

-- Anything at all may be left by code that does not return.
abbrev Anything : Disk → Type 0
Anything d = Unit

-- The paths and the cards stand for a pairing of the memories with the catalog's cards.
pub record IsCatalogOf (platform : Platform) (d : Disk) (catalog : Catalog) : Type 0 where
  pub paths : List MemoryPath
  pub cards : List Card
  pub all_paths : Perm paths (map (λ file. file.0) d.memories)
  pub read_from : AreCardsOf platform d paths cards
  pub all_cards : Perm catalog.cards cards
  pub counted : catalog.memory_count ≡ length d.memories
  pub sorted : IsSorted (λ (card : Card). card.id) catalog.cards

module _ (platform : Platform) where
  Meets-read_card :
      (path : MemoryPath) (x : Disk)
      → Meets Anything
          (λ card y. (y ≡ x) × IsCardOf platform x path card)
          x
          (read_card platform path)
  unfolding read_card read_memory
  Meets-read_card path x =
      Meets-bind {Q = λ text y. (y ≡ x) × (read path x.memories ≡ some text)}
        (Meets-bind {Q = λ old y. (y ≡ x) × (read path x.memories ≡ old)}
          (Meets-fetch _ tt (refl, refl))
          (λ old y h. Meets-lift _ tt (λ text e. (h.0, h.1 ∙ or_missing-ok old path.id text e))))
        (λ text y h.
          Meets-lifted _ tt
            (λ item e. Meets-lifted _ tt (λ _ _. Meets-pure _ (h.0, (text, item, h.1, e, refl)))))

  Meets-read_cards :
      (paths : List MemoryPath) (x : Disk)
      → Meets Anything
          (λ cards y. (y ≡ x) × AreCardsOf platform x paths cards)
          x
          (read_cards platform paths)
  unfolding read_cards
  Meets-read_cards [] x = Meets-pure _ (refl, tt)
  Meets-read_cards (path ∷ rest) x = Meets-bind (Meets-read_card path x) (λ card y h.
      Meets-bind (Meets-read_cards rest y) (λ cards z k.
        Meets-pure _ (k.0 ∙ h.0, (h.1, subst (λ w. AreCardsOf platform w rest cards) h.0 k.1))))

  pub Meets-build_catalog :
      (x : Disk)
      → Meets Anything
          (λ catalog y. (y ≡ x) × IsCatalogOf platform x catalog)
          x
          (build_catalog platform)
  unfolding build_catalog memory_files
  Meets-build_catalog x =
      Meets-bind {Q = λ files y. (y ≡ x) × (files ≡ memory_files x)} (Meets-gets _ (refl, refl))
        (λ files y at. Meets-bind (Meets-read_cards files y) (λ cards z h.
          let read_cards_of = subst (λ w. AreCardsOf platform w files cards) at.0 h.1 in
          Meets-pure _ (
            h.0 ∙ at.0,
            record {
              paths = files;
              cards = cards;
              all_paths =
                  subst (λ ps. Perm ps (map (λ file. file.0) x.memories)) (sym at.1)
                    (sort_by-Perm path_text (map (λ file. file.0) x.memories));
              read_from = read_cards_of;
              all_cards = sort_by-Perm (λ (card : Card). card.id) cards;
              counted =
                  length-AreCardsOf platform x files cards read_cards_of
                  ∙ ap (λ (ps : List MemoryPath). length ps) at.1
                  ∙ length-memory_files x;
              sorted = sort_by-IsSorted (λ (card : Card). card.id) cards;
            },
          )))

-- A catalog that is built, whatever faults its build meets, pairs the memories with its cards: its cards
-- are, up to their order, one for each memory, each made from the item that is read from the text of
-- that memory's file. Its count is the number of memories, and its cards are in the order of their ids.
pub build_catalog-IsCatalogOf :
    (platform : Platform) (s : Machine Disk) (catalog : Catalog)
    → (build_catalog platform s).0 ≡ done catalog
    → IsCatalogOf platform s.disk catalog
build_catalog-IsCatalogOf platform s catalog h =
    (returned (λ _. Unit) (λ c y. (y ≡ s.disk) × IsCatalogOf platform s.disk c)
      (build_catalog platform s) catalog h ((Meets-build_catalog platform s.disk).at s.faults)).1
