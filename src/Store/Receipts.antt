-- ===== src/Store/Receipts.antt =====
-- The registry of the sources that have been recorded (`_read_receipts` to `_remove_source_receipt`
-- of agc_runtime/store.py).
use Prim.Native.Char.{code}
use agent_global_context.Prelude.{
  ℕ, zero, suc, Bool, true, false, not, ◌&&◌, ◌||◌, String, List, [], ◌∷◌, ◌++◌, ◌==◌, any, keep_if,
  length, eqb, leb, if◌then◌else◌,
}
use agent_global_context.Result.{Result, ok, err, value_error}
use agent_global_context.Effects.{M, pure, lift, fetch, modify, ◌>>=◌, ◌>>◌}
use agent_global_context.Models.{SourceKey}
use agent_global_context.Store.Disk.{Disk, Receipt}

is_hex_digit : ℕ → Bool
is_hex_digit c = leb b'0' c && leb c b'9' || leb b'a' c && leb c b'f'

-- `[0-9a-f]{n}`, to the end of the text
hex_digits : ℕ → String → Bool
unfolding is_hex_digit
hex_digits zero String.[] = true
hex_digits zero (String.◌∷◌ c s) = false
hex_digits (suc n) String.[] = false
hex_digits (suc n) (String.◌∷◌ c s) = is_hex_digit (code c) && hex_digits n s

-- `_SHA256_PATTERN.fullmatch`
unfoldable pub is_sha256 : String → Bool
unfolding hex_digits
is_sha256 = hex_digits 64

unfoldable pub validate_source_key : SourceKey → Result (Unit {0})
validate_source_key source =
    if source.ref == "" || source.revision == ""
    then err (value_error "source ref and revision must be non-empty" [])
    else if not (is_sha256 source.content_hash)
    then err (value_error "source content_hash must be lowercase SHA-256" [])
    else ok tt

abbrev pub entry_matches_source : Receipt → SourceKey → Bool
entry_matches_source entry source =
    entry.source.ref == source.ref
    && entry.source.revision == source.revision
    && entry.source.content_hash == source.content_hash

abbrev pub source_was_recorded_in : List Receipt → SourceKey → Bool
source_was_recorded_in receipts source = any (λ entry. entry_matches_source entry source) receipts

abbrev pub evidence_count : List Receipt → String → ℕ
evidence_count receipts object_id =
    length (keep_if (λ entry. entry.object_id == object_id) receipts)

unfoldable pub read_receipts : M Disk (List Receipt)
read_receipts = fetch (λ d. d.receipts)

unfoldable pub write_receipts : List Receipt → M Disk Unit
write_receipts receipts = modify (λ d. record d { receipts = receipts })

unfoldable pub source_was_recorded : SourceKey → M Disk Bool
unfolding read_receipts
source_was_recorded source = do
  lift (validate_source_key source)
  receipts ← read_receipts
  pure (source_was_recorded_in receipts source)

unfoldable pub record_source :
    List Receipt → SourceKey → String → String → String → String → M Disk Unit
unfolding write_receipts
record_source receipts source object_id action timestamp event_id = write_receipts (
    receipts
    ++ record {
      source = source;
      object_id = object_id;
      action = action;
      recorded_at = timestamp;
      event_id = event_id;
    }
      ∷ [])

unfoldable pub remove_source_receipt : SourceKey → M Disk Unit
unfolding read_receipts write_receipts
remove_source_receipt source = do
  receipts ← read_receipts
  let retained = keep_if (λ entry. not (entry_matches_source entry source)) receipts
  if eqb (length retained) (length receipts) then pure tt else write_receipts retained
