-- ===== src/Result.antt =====
-- Python's exceptions in pure code (agc_runtime/errors.py and the built-in ones): a function that
-- may raise returns a `Result`. An error carries the text of its message and what is put into it.
use agent_global_context.Prelude.{
  ◌≡◌, refl, subst, String, Bool, true, false, ◌||◌, List, [], ◌∷◌, arith, if◌then◌else◌,
}

-- `lookup_error` stands for LookupError and its subclasses but KeyError, as IndexError; `other_error` for
-- an exception of a class that is none of these, as AttributeError.
pub data Error : Type 0 where
  value_error key_error lookup_error file_not_found runtime_error other_error :
      String → List String → Error
  type_error os_error : Error

-- The classes that the source names in its `except` clauses.
pub data Class : Type 0 where
  value_class key_class lookup_class type_class os_class file_class runtime_class : Class

-- isinstance(e, c)
unfoldable pub is_a : Error → Class → Bool
is_a (value_error m xs) value_class = true
is_a (key_error m xs) key_class = true
is_a (key_error m xs) lookup_class = true
is_a (lookup_error m xs) lookup_class = true
is_a (file_not_found m xs) file_class = true
is_a (file_not_found m xs) os_class = true
is_a (runtime_error m xs) runtime_class = true
is_a type_error type_class = true
is_a os_error os_class = true
is_a _ _ = false

-- `except (...)`: is the exception of one of the classes?
abbrev pub catches : List Class → Error → Bool
catches [] e = false
catches (c ∷ rest) e = is_a e c || catches rest e

pub data Result {ℓ} (A : Type ℓ) : Type ℓ where
  ok : A → Result A
  err : Error → Result A

-- The rest runs on the value; an exception skips it.
infixl 10 ◌>>=◌ ◌>>◌
unfoldable pub ◌>>=◌ {ℓ κ} : {A : Type ℓ} {B : Type κ} → Result A → (A → Result B) → Result B
err raised >>= rest = err raised
ok value >>= rest = rest value

abbrev pub ◌>>◌ {ℓ κ} : {A : Type ℓ} {B : Type κ} → Result A → Result B → Result B
m >> k = m >>= λ _. k

-- if c: raise e
unfoldable pub raise_if : Bool → Error → Result (Unit {0})
raise_if c e = if c then err e else ok tt

pub raise_if-false : (c : Bool) (e : Error) (u : Unit {0}) → raise_if c e ≡ ok u → c ≡ false
unfolding raise_if
raise_if-false c e u h = ground arith

pub ok-injective : {A : Type 0} (a b : A) → ok a ≡ ok b → a ≡ b
ok-injective a b e = cc

-- Every value that the code returns has the property.
pub record Ensures {A : Type 0} (P : A → Type 0) (r : Result A) : Type 0 where
  pub at : (a : A) → r ≡ ok a → P a

pub Ensures-ok : {A : Type 0} {P : A → Type 0} (a : A) → P a → Ensures P (ok a)
Ensures-ok {P = P} a p = record { at = λ b e. subst P (ok-injective a b e) p }

-- The rest of the code may use that the first part returned `a`.
pub Ensures-bind :
    {A B : Type 0} {P : B → Type 0} (m : Result A) (f : A → Result B)
    → ((a : A) → m ≡ ok a → Ensures P (f a))
    → Ensures P (m >>= f)
unfolding ◌>>=◌
Ensures-bind (ok a) f k = k a refl
Ensures-bind (err e) f k = record { at = λ b h. cc }
