-- ===== src/Value.antt =====
-- Values of JSON: what a request holds, and the mappings that the runtime builds. A mapping has the
-- keys that its maker wrote, in their order; `other` stands for a value of any other type.
pub mod Strict
use agent_global_context.Prelude.{
  ℕ, ◌≡◌, refl, String, Bool, Option, none, some, List, [], ◌∷◌, ◌==◌, if◌then◌else◌,
}

-- `negsuc n` is -(n + 1).
pub data ℤ : Type 0 where
  pos : ℕ → ℤ
  negsuc : ℕ → ℤ

mutual
  pub data Value : Type 0 where
    null : Value
    bool : Bool → Value
    int : ℤ → Value
    str : String → Value
    list : Values → Value
    dict : Fields → Value
    other : ℕ → Value

  pub data Values : Type 0 where
    nil : Values
    cons : Value → Values → Values

  pub data Fields : Type 0 where
    end : Fields
    field : String → Value → Fields → Fields

-- value.get(key)
abbrev pub get : String → Fields → Option Value
get key end = none
get key (field k v rest) = if k == key then some v else get key rest

abbrev pub keys : Fields → List String
keys end = []
keys (field k v rest) = k ∷ keys rest

-- A list of texts as a value.
abbrev pub values_of : List String → Values
values_of [] = nil
values_of (s ∷ rest) = cons (str s) (values_of rest)

abbrev pub fields_of : List (String × Value) → Fields
fields_of [] = end
fields_of ((k, v) ∷ rest) = field k v (fields_of rest)

abbrev pub optional : Option String → Value
optional none = null
optional (some s) = str s
