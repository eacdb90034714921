-- ===== src/Read/Loads.antt =====
-- Loading the catalog or a memory leaves the formal memory and the candidates as they were.
use agent_global_context.Prelude.{◌≡◌, String, Option, none, some, List, [], ◌∷◌}
use agent_global_context.Effects.{M}
use agent_global_context.Effects.Keeps.{
  Keeps, Keeps-pure, Keeps-gets, Keeps-lift, Keeps-fetch, Keeps-modify, Keeps-bind, Keeps-within,
}
use agent_global_context.Files.{Files}
use agent_global_context.Store.Disk.{Disk, MemoryPath}
use agent_global_context.Store.Transaction.{read_memory}
use agent_global_context.Store.Methods.{Platform, find_memory_path, get_memory}
use agent_global_context.Catalog.{Catalog, read_card, read_cards, build_catalog}
use agent_global_context.Write.{
  World, Candidate, on_store, Surroundings, rebuild_catalog, catalog_in, load_catalog,
}

-- The formal memory is `d`, and the candidates are `cs`.
abbrev pub Holds : Disk → Files String Candidate → World → Type 0
Holds d cs w = (w.store ≡ d) × (w.candidates ≡ cs)

module _ (platform : Platform) (d : Disk) where
  abbrev pub Same : Disk → Type 0
  Same x = x ≡ d

  Keeps-read_memory : (path : MemoryPath) → Keeps Same (read_memory path)
  unfolding read_memory
  Keeps-read_memory path = Keeps-bind (Keeps-fetch _) (λ _. Keeps-lift _)

  Keeps-read_cards : (paths : List MemoryPath) → Keeps Same (read_cards platform paths)
  unfolding read_cards read_card
  Keeps-read_cards [] = Keeps-pure _
  Keeps-read_cards (path ∷ rest) =
      Keeps-bind
        (Keeps-bind (Keeps-read_memory path)
          (λ _. Keeps-bind (Keeps-lift _) (λ _. Keeps-bind (Keeps-lift _) (λ _. Keeps-pure _))))
        (λ _. Keeps-bind (Keeps-read_cards rest) (λ _. Keeps-pure _))

  Keeps-build_catalog : Keeps Same (build_catalog platform)
  unfolding build_catalog
  Keeps-build_catalog =
      Keeps-bind (Keeps-gets _) (λ files. Keeps-bind (Keeps-read_cards files) (λ _. Keeps-pure _))

  pub Keeps-get_memory : (id : String) → Keeps Same (get_memory platform id)
  unfolding get_memory find_memory_path
  Keeps-get_memory id =
      Keeps-bind (Keeps-bind (Keeps-gets _) (λ _. Keeps-lift _))
        (λ path. Keeps-bind (Keeps-read_memory path) (λ _. Keeps-lift _))

module _ {A : Type 0} (d : Disk) (cs : Files String Candidate) where
  pub Keeps-on_store : {m : M Disk A} → Keeps (λ x. x ≡ d) m → Keeps (Holds d cs) (on_store m)
  unfolding on_store
  Keeps-on_store k = Keeps-within _ _ (λ x q. q.0) (λ y x q p. (p, q.1)) k

module _ (env : Surroundings) (d : Disk) (cs : Files String Candidate) where
  Keeps-rebuild_catalog : Keeps (Holds d cs) (rebuild_catalog env)
  unfolding rebuild_catalog
  Keeps-rebuild_catalog =
      Keeps-bind (Keeps-on_store d cs (Keeps-build_catalog env.platform d)) (λ _.
        Keeps-bind (Keeps-modify _ (λ w h. h))
          (λ _. Keeps-bind (Keeps-modify _ (λ w h. h)) (λ _. Keeps-pure _)))

  Keeps-catalog_in : (found : Option Catalog) → Keeps (Holds d cs) (catalog_in env found)
  unfolding catalog_in
  Keeps-catalog_in none = Keeps-rebuild_catalog
  Keeps-catalog_in (some catalog) = Keeps-bind (Keeps-fetch _) (λ _. Keeps-pure _)

  pub Keeps-load_catalog : Keeps (Holds d cs) (load_catalog env)
  unfolding load_catalog
  Keeps-load_catalog = Keeps-bind (Keeps-gets _) (λ found. Keeps-catalog_in found)
