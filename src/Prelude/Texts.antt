-- ===== src/Prelude/Texts.antt =====
-- Sets of texts, as the source's `in` reads them.
use Prim.Native.String.{String}
use mathlib.Core.Bool.{Bool, true, false, ◌||◌}
use mathlib.Core.Path.{◌≡◌}
use mathlib.Core.List.{List, [], ◌∷◌}
use native.Mathlib.Omega.{arith}
use text.Mathlib.Text.{◌==◌}
use text.Mathlib.TextEquality.{eq_iff}
use agent_global_context.Prelude.Lists.{Any}

-- `s in xs`
abbrev pub elem : String → List String → Bool
elem s [] = false
elem s (x ∷ xs) = s == x || elem s xs

abbrev pub IsOneOf : String → List String → Type 0
IsOneOf s xs = Any (λ x. s ≡ x) xs

pub elem→IsOneOf : (s : String) (xs : List String) → elem s xs ≡ true → IsOneOf s xs
elem→IsOneOf s [] h = cc
elem→IsOneOf s (x ∷ xs) h = ground (arith, eq_iff s x, elem→IsOneOf s xs)

pub IsOneOf→elem : (s : String) (xs : List String) → IsOneOf s xs → elem s xs ≡ true
IsOneOf→elem s [] h = elim h [ ]
IsOneOf→elem s (x ∷ xs) h = ground (arith, eq_iff s x, IsOneOf→elem s xs)
