-- ===== src/Utf8.antt =====
-- agc_runtime/utf8_io.py: what a text becomes when it is written.
use Prim.Native.Char.{Char, code}
use agent_global_context.Prelude.{
  String, ◌≡◌, ◌≢◌, refl, true, false, ◌&&◌, arith, eqb, eqb_iff, Bool-cases, inl, inr,
  if◌then◌else◌,
}

-- text.replace("\r\n", "\n")
replace_crlf : String → String
replace_crlf String.[] = String.[]
replace_crlf (String.◌∷◌ c String.[]) = String.◌∷◌ c String.[]
replace_crlf (String.◌∷◌ c (String.◌∷◌ d s)) = elim (eqb (code c) 13 && eqb (code d) 10) [
  | true ↦ String.◌∷◌ d (replace_crlf s)
  | false ↦ String.◌∷◌ c (replace_crlf (String.◌∷◌ d s))
]

newline : Char
newline = "\n"

-- text.replace("\r", "\n")
replace_cr : String → String
unfolding newline
replace_cr String.[] = String.[]
replace_cr (String.◌∷◌ c s) = String.◌∷◌ (if eqb (code c) 13 then newline else c) (replace_cr s)

unfoldable pub normalized : String → String
unfolding replace_crlf replace_cr
normalized text = replace_cr (replace_crlf text)

-- No carriage return stands in the text.
abbrev pub HasPlainLines : String → Type 0
HasPlainLines String.[] = Unit
HasPlainLines (String.◌∷◌ c s) = (code c ≢ 13) × HasPlainLines s

replace_cr-HasPlainLines : (s : String) → HasPlainLines (replace_cr s)
unfolding replace_cr
replace_cr-HasPlainLines String.[] = tt
replace_cr-HasPlainLines (String.◌∷◌ c s) = (
  elim (Bool-cases (eqb (code c) 13)) [
    | inl return ↦ rw return (omega arith)
    | inr other ↦ rw other (λ same. ground (arith, eqb_iff (code c) 13))
  ],
  replace_cr-HasPlainLines s,
)

replace_cr-plain : (s : String) → HasPlainLines s → replace_cr s ≡ s
unfolding replace_cr
replace_cr-plain String.[] h = refl
replace_cr-plain (String.◌∷◌ c s) h = ground (arith, replace_cr-plain s h.1)

replace_crlf-plain : (s : String) → HasPlainLines s → replace_crlf s ≡ s
unfolding replace_crlf
replace_crlf-plain String.[] h = refl
replace_crlf-plain (String.◌∷◌ c String.[]) h = refl
replace_crlf-plain (String.◌∷◌ c (String.◌∷◌ d s)) h =
    ground (arith, replace_crlf-plain (String.◌∷◌ d s) h.1)

pub normalized-plain : (s : String) → HasPlainLines s → normalized s ≡ s
unfolding normalized
normalized-plain s h = cc (replace_crlf-plain s h, replace_cr-plain s h)

pub normalized-HasPlainLines : (s : String) → HasPlainLines (normalized s)
unfolding normalized
normalized-HasPlainLines s = replace_cr-HasPlainLines (replace_crlf s)

-- Line ends are normalised once and for all.
pub normalized_idem : (s : String) → normalized (normalized s) ≡ normalized s
unfolding normalized
normalized_idem s = normalized-plain (normalized s) (replace_cr-HasPlainLines (replace_crlf s))
