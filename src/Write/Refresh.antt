-- ===== src/Write/Refresh.antt =====
-- The catalog after a write.
use agent_global_context.Prelude.{
  ◌≡◌, refl, sym, subst, ◌⊎◌, inl, inr, false, true, some, [], ◌∷◌, ◌++◌, ◌&&◌, arith, Bool-cases,
  if◌then◌else◌,
}
use agent_global_context.Result.{
  Error, is_a, catches, key_class, os_class, runtime_class, type_class, value_class,
}
use agent_global_context.Effects.{
  Machine, Outcome, done, raised, died, pure, raise, caught, on_error, ◌>>=◌,
}
use agent_global_context.Effects.Meets.{
  Leaves, Meets, Meets-pure, Meets-modify, Meets-bind, Meets-within,
}
use agent_global_context.Catalog.{Catalog}
use agent_global_context.Catalog.Built.{IsCatalogOf, Meets-build_catalog}
use agent_global_context.Write.{World, on_store, ToolResponse, Surroundings, rebuild_catalog}
use agent_global_context.Write.Handlers.{is_accepted, memory_id_in}
use agent_global_context.Write.Service.{
  Forgetting, names_memory, refresh_classes, refreshed, refresh_catalog,
}

-- The same answer, but for its warnings.
abbrev pub SameAnswer : ToolResponse → ToolResponse → Type 0
SameAnswer r a = (a.status ≡ r.status) × (a.payload ≡ r.payload) × (a.error ≡ r.error)

-- The catalog file holds the catalog of the memories that are there.
abbrev pub HasCatalog : Surroundings → World → Type 0
HasCatalog env w = (c : Catalog) × (w.catalog ≡ some c) × IsCatalogOf env.platform w.store c

abbrev Anything : World → Type 0
Anything w = Unit

module _ (env : Surroundings) (r : ToolResponse) where
  -- What the answer `a` to a write says of the catalog in `w`.
  abbrev pub IsRefreshed : ToolResponse → World → Type 0
  IsRefreshed a w =
      SameAnswer r a
      × (((a.warnings ≡ r.warnings)
            × ((is_accepted r.status && names_memory (memory_id_in r.payload)) ≡ true
                → HasCatalog env w))
          ⊎ (a.warnings ≡ r.warnings ++ "catalog_refresh_failed" ∷ []))

  abbrev pub Refreshes : Outcome ToolResponse × Machine World → Type 0
  Refreshes (done a, s) = IsRefreshed a s.disk
  Refreshes (raised e, s) =
      (is_a e key_class ≡ false)
      × (is_a e os_class ≡ false)
      × (is_a e runtime_class ≡ false)
      × (is_a e type_class ≡ false)
      × (is_a e value_class ≡ false)
  Refreshes (died, s) = Unit

  Meets-rebuild :
      (x : World)
      → Meets Anything (λ a w. (a ≡ r) × HasCatalog env w) x (rebuild_catalog env >>= λ _. pure r)
  unfolding rebuild_catalog on_store
  Meets-rebuild x =
      Meets-bind {Q = λ _. HasCatalog env}
        (Meets-bind {Q = λ c w. IsCatalogOf env.platform w.store c}
          (Meets-within _ _ Anything (λ c w. IsCatalogOf env.platform w.store c) x (λ _ _. tt)
            (λ c d h. subst (λ y. IsCatalogOf env.platform y c) (sym h.0) h.1)
            (Meets-build_catalog env.platform x.store))
          (λ c w h. Meets-bind {Q = λ _. HasCatalog env} (Meets-modify _ tt (c, refl, h)) (λ _ v k.
            Meets-bind {Q = λ _. HasCatalog env} (Meets-modify _ tt k) (λ _ u l. Meets-pure c l))))
        (λ _ w h. Meets-pure r (refl, h))

  handled :
      (e : Error) (s : Machine World)
      → Refreshes ((if catches refresh_classes e then pure (refreshed r) else raise e) s)
  unfolding pure raise refreshed
  handled e s = elim (Bool-cases (catches refresh_classes e)) [
    | inl listed ↦ rw listed ((refl, refl, refl), inr refl)
    | inr unlisted ↦ rw unlisted (ground arith)
  ]

  caught-Refreshes :
      (out : Outcome ToolResponse) (s : Machine World)
      → Leaves Anything (λ a w. (a ≡ r) × HasCatalog env w) (out, s)
      → Refreshes
          (caught out (λ e. if catches refresh_classes e then pure (refreshed r) else raise e) s)
  unfolding caught
  caught-Refreshes (done a) s (same, current) =
      subst (λ b. IsRefreshed b s.disk) (sym same) ((refl, refl, refl), inl (refl, λ _. current))
  caught-Refreshes (raised e) s h = handled e s
  caught-Refreshes died s h = tt

-- The catalog that is rebuilt after a write never turns its answer into another one. What is returned has
-- the status, the data and the error of the answer; and either its warnings too, and then the catalog
-- file holds the catalog of the memories if the answer was accepted and names a memory, or one more
-- warning, `catalog_refresh_failed`. What is raised is neither a KeyError nor an OSError, a RuntimeError,
-- a TypeError or a ValueError. Otherwise the process died.
pub refresh_catalog-Refreshes :
    (env : Surroundings) (forgetting : Forgetting) (r : ToolResponse) (s : Machine World)
    → Refreshes env r (refresh_catalog env forgetting r s)
unfolding refresh_catalog on_error pure
refresh_catalog-Refreshes env forgetting r s =
    elim (Bool-cases (is_accepted r.status && names_memory (memory_id_in r.payload))) [
      | inl written ↦
          let t = (rebuild_catalog env >>= λ _. pure r) s in
          rw written (caught-Refreshes env r t.0 t.1 ((Meets-rebuild env r s.disk).at s.faults))
      | inr unwritten ↦ rw unwritten ((refl, refl, refl), inl (refl, λ t. cc))
    ]
