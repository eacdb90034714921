-- ===== src/Files.antt =====
-- A directory of files: contents under their names, each name once. Writing a file that is there
-- replaces its contents, and writing a new one adds it at the end of the listing.
use agent_global_context.Prelude.{
  String, ◌≡◌, refl, ◌↔◌, Bool, true, false, Option, none, some, List, [], ◌∷◌, arith, ◌==◌, eq_iff,
  if◌then◌else◌,
}

pub record Eq (K : Type 0) : Type 0 where
  pub same : K → K → Bool
  pub same_iff : (a b : K) → (same a b ≡ true) ↔ (a ≡ b)

instance abbrev pub string_eq : Eq String
string_eq = record { same = ◌==◌; same_iff = eq_iff }

abbrev pub Files : Type 0 → Type 0 → Type 0
Files K V = List (K × V)

module _ {K V : Type 0} ⦃e : Eq K⦄ where
  abbrev pub read : K → Files K V → Option V
  read k [] = none
  read k ((j, v) ∷ d) = if e.same j k then some v else read k d

  abbrev pub exists : K → Files K V → Bool
  exists k d = elim (read k d) [ none ↦ false | some _ ↦ true ]

  abbrev pub write : K → V → Files K V → Files K V
  write k v [] = (k, v) ∷ []
  write k v ((j, w) ∷ d) = if e.same j k then (j, v) ∷ d else (j, w) ∷ write k v d

  -- unlink(missing_ok=True)
  abbrev pub unlink : K → Files K V → Files K V
  unlink k [] = []
  unlink k ((j, v) ∷ d) = let rest = unlink k d in if e.same j k then rest else (j, v) ∷ rest

  pub read-write :
      (k j : K) (v : V) (d : Files K V)
      → read j (write k v d) ≡ (if e.same k j then some v else read j d)
  read-write k j v [] = refl
  read-write k j v ((i, w) ∷ d) =
      ground (arith, e.same_iff i k, e.same_iff k j, e.same_iff i j, read-write k j v d)

  -- Writing back what a file held undoes another write to it.
  pub write-write : (k : K) (v w : V) (d : Files K V) → write k w (write k v d) ≡ write k w d
  write-write k v w [] = ground (arith, e.same_iff k k)
  write-write k v w ((i, x) ∷ d) = ground (arith, e.same_iff i k, write-write k v w d)

  pub write-read : (k : K) (v : V) (d : Files K V) → read k d ≡ some v → write k v d ≡ d
  write-read k v [] h = cc
  write-read k v ((i, x) ∷ d) h = ground (arith, write-read k v d)

  pub unlink-absent : (k : K) (d : Files K V) → read k d ≡ none → unlink k d ≡ d
  unlink-absent k [] h = refl
  unlink-absent k ((i, x) ∷ d) h = ground (arith, unlink-absent k d)

  -- Removing a file that was new undoes its write.
  pub unlink-write : (k : K) (v : V) (d : Files K V) → read k d ≡ none → unlink k (write k v d) ≡ d
  unlink-write k v [] h = ground (arith, e.same_iff k k)
  unlink-write k v ((i, x) ∷ d) h = ground (arith, unlink-write k v d)
